-- ===== src/Engined/Commit/Order.antt =====
-- The commit queue keeps the order of arrival; and the limit of five can drop commits that were
-- never applied.
use nf_nms.Common.{
  ℕ, suc, ◌+◌, ◌-◌, ◌≤◌, ◌<◌, List, [], ◌∷◌, ◌++◌, ◌≡◌, refl, ap, ◌∙◌, Bool, false, ◌||◌, arith,
  ltb, length, drop, Bool-cases, inl, inr, ltb→lt, not_ltb→le, if_cases, Option-cases, ◌==◌,
}
use Prim.Native.String.{String}
use nf_nms.Engined.Commit.{
  TaskStatus, pending, running, done, Task, CommitService, is_finished, with_status, start_first,
  start_next, finish_first, trim, reload_ended, failed, Effect, any_running,
  receive_settings_commit, Parsed, fail_running, apply_staged, apply_parsed, apply_commit,
  first_running, Input, settings_commit, reload_complete, reload_failed, apply, step, stage,
}

abbrev pub AllPending : List Task → Type 0
AllPending [] = Unit {0}
AllPending (t ∷ ts) = (t.status ≡ pending) × AllPending ts

not_finished : (t : Task) → t.status ≡ pending → is_finished t ≡ false
not_finished t h = ground arith

one_more : (n : ℕ) → 5 ≤ n → suc (n - 5) ≡ suc n - 5
one_more n h = omega arith

none_over : (n : ℕ) → n ≤ 5 → 0 ≡ n - 5
none_over n h = omega arith

trim-AllPending : (ts : List Task) → AllPending ts → trim ts ≡ drop (length ts - 5) ts
unfolding trim
trim-AllPending [] h = refl
trim-AllPending (t ∷ ts) h = elim (Bool-cases (ltb 5 (suc (length ts)))) [
  | inl over ↦
      let more : 5 < suc (length ts) = ltb→lt _ _ over in
      rw over
        (trim-AllPending ts h.1 ∙ ap (λ k. drop k (t ∷ ts)) (one_more (length ts) (omega arith)))
  | inr fits ↦
      let less : suc (length ts) ≤ 5 = not_ltb→le _ _ fits in
      rw (fits, not_finished t h.0) (ap (λ k. drop k (t ∷ ts)) (none_over (suc (length ts)) less))
]

finish_front :
    (t : Task) (ts : List Task)
    → t.status ≡ running
    → finish_first done (t ∷ ts) ≡ with_status t done ∷ ts
unfolding finish_first
finish_front t ts r = ground arith

trim_front : (t : Task) (ts : List Task) → trim (with_status t done ∷ ts) ≡ trim ts
unfolding trim
trim_front t ts = ground arith

start_first-unstarted : (q : List Task) → (start_first q).0 ≡ false → (start_first q).1 ≡ q
unfolding start_first
start_first-unstarted [] h = refl
start_first-unstarted (t ∷ ts) h = ground (arith, start_first-unstarted ts)

start_next-queue : (s : CommitService) → (start_next s).0.queue ≡ (start_first s.queue).1
unfolding start_next
start_next-queue s = ground (arith, start_first-unstarted s.queue)

-- When a reload has converged whose commit is the first of the queue and all behind it wait, the
-- queue goes on with what is left behind the first `length ts - 5` of those: beyond five, the
-- oldest are dropped without having run. With five or fewer none is dropped.
pub reload_drops_waiting :
    (s : CommitService) (t : Task) (ts : List Task)
    → s.queue ≡ t ∷ ts
    → t.status ≡ running
    → AllPending ts
    → (reload_ended done s).0.queue ≡ (start_first (drop (length ts - 5) ts)).1
unfolding reload_ended
reload_drops_waiting s t ts e r h =
    start_next-queue _
    ∙ ap (λ q. (start_first q).1) (ap (λ q. trim (finish_first done q)) e ∙ front)
  where
    front : trim (finish_first done (t ∷ ts)) ≡ drop (length ts - 5) ts
    front = ap trim (finish_front t ts r) ∙ trim_front t ts ∙ trim-AllPending ts h

-- The ids of the queue rise from `low` and stay below `next`.
abbrev pub Rising : ℕ → List Task → ℕ → Type 0
Rising low [] next = low ≤ next
Rising low (t ∷ ts) next = (low ≤ t.id) × Rising (suc t.id) ts next

Rising-le :
    (low low' : ℕ) (q : List Task) (next : ℕ) → low' ≤ low → Rising low q next → Rising low' q next
Rising-le low low' [] next h r = omega arith
Rising-le low low' (t ∷ ts) next h r = (omega arith, r.1)

Rising-start_first :
    (low : ℕ) (q : List Task) (next : ℕ) → Rising low q next → Rising low (start_first q).1 next
unfolding start_first
Rising-start_first low [] next r = r
Rising-start_first low (t ∷ ts) next r = ground (arith, Rising-start_first (suc t.id) ts next r.1)

Rising-finish_first :
    (outcome : TaskStatus) (low : ℕ) (q : List Task) (next : ℕ)
    → Rising low q next
    → Rising low (finish_first outcome q) next
unfolding finish_first
Rising-finish_first outcome low [] next r = r
Rising-finish_first outcome low (t ∷ ts) next r =
    ground (arith, Rising-finish_first outcome (suc t.id) ts next r.1)

Rising-trim : (low : ℕ) (q : List Task) (next : ℕ) → Rising low q next → Rising low (trim q) next
unfolding trim
Rising-trim low [] next r = r
Rising-trim low (t ∷ ts) next r =
    if_cases (λ q. Rising low q next) (ltb 5 (length (t ∷ ts)) || is_finished t)
      (λ _.
        Rising-le (suc t.id) low (trim ts) next (omega arith) (Rising-trim (suc t.id) ts next r.1))
      (λ _. r)

Rising-append :
    (low : ℕ) (q : List Task) (t : Task) (next : ℕ)
    → t.id ≡ next
    → Rising low q next
    → Rising low (q ++ (t ∷ [])) (next + 1)
Rising-append low [] t next e r = omega arith
Rising-append low (u ∷ us) t next e r = (r.0, Rising-append (suc u.id) us t next e r.1)

abbrev pub IsOrdered : CommitService → Type 0
IsOrdered s = Rising 1 s.queue s.next_id

start_next-IsOrdered : (s : CommitService) → IsOrdered s → IsOrdered (start_next s).0
unfolding start_next
start_next-IsOrdered s r =
    if_cases (λ (k : CommitService × List Effect). IsOrdered k.0) (start_first s.queue).0
      (λ _. Rising-start_first 1 s.queue s.next_id r) (λ _. r)

receive-IsOrdered :
    (s : CommitService) (payload : List ℕ)
    → IsOrdered s
    → IsOrdered (receive_settings_commit s payload).0
unfolding receive_settings_commit
receive-IsOrdered s [] r = r
receive-IsOrdered s (b ∷ bs) r =
    if_cases (λ (k : CommitService × List Effect). IsOrdered k.0) (any_running queue) (λ _. more)
      (λ _. start_next-IsOrdered _ more)
  where
    queue : List Task
    queue = s.queue ++ (record { id = s.next_id; payload = b ∷ bs; status = pending } ∷ [])

    more : Rising 1 queue (s.next_id + 1)
    more = Rising-append 1 s.queue _ s.next_id refl r

module _ {Root P : Type 0} (parse : List ℕ → Parsed P) (merge : Root → String → String → P → Root)
    (commit_config : Root → Bool) where
  fail_running-IsOrdered :
      (s : CommitService) → IsOrdered s → IsOrdered (fail_running parse merge commit_config s).0
  unfolding fail_running
  fail_running-IsOrdered s r =
      start_next-IsOrdered _ (Rising-finish_first failed 1 s.queue s.next_id r)

  apply_parsed-IsOrdered :
      (s : CommitService) (root : Root) (p : Parsed P)
      → IsOrdered s
      → IsOrdered (apply_parsed parse merge commit_config s root p).0
  unfolding apply_parsed apply_staged
  apply_parsed-IsOrdered s root Parsed.unreadable v = fail_running-IsOrdered s v
  apply_parsed-IsOrdered s root Parsed.not_array v = fail_running-IsOrdered s v
  apply_parsed-IsOrdered s root (Parsed.array cs) v =
      if_cases (λ (k : CommitService × List Effect). IsOrdered k.0)
        ((stage parse merge commit_config cs root 0).1 == 0) (λ _. fail_running-IsOrdered s v)
        (λ _.
          if_cases (λ (k : CommitService × List Effect). IsOrdered k.0)
            (commit_config (stage parse merge commit_config cs root 0).0) (λ _. v)
            (λ _. fail_running-IsOrdered s v))

  -- Every event and action keeps the queue in the order of arrival, each task under an id of its
  -- own, below the next id to be given out, if it was so before.
  pub step-IsOrdered :
      (s : CommitService) (i : Input parse merge commit_config)
      → IsOrdered s
      → IsOrdered (step parse merge commit_config s i).0
  unfolding step apply_commit reload_ended
  step-IsOrdered s (settings_commit payload) r = receive-IsOrdered s payload r
  step-IsOrdered s reload_complete r =
      start_next-IsOrdered _
        (Rising-trim 1 _ s.next_id (Rising-finish_first done 1 s.queue s.next_id r))
  step-IsOrdered s reload_failed r =
      start_next-IsOrdered _
        (Rising-trim 1 _ s.next_id (Rising-finish_first failed 1 s.queue s.next_id r))
  step-IsOrdered s (apply root) r = elim (Option-cases (first_running s.queue)) [
    | inl e ↦ rw (e, apply_commit) r
    | inr (t, e) ↦ rw (e, apply_commit) (apply_parsed-IsOrdered s root (parse t.payload) r)
  ]
