-- ===== src/Engined/Commit/Queue.antt =====
-- The commit queue between two events: one task runs at most, and none waits while none runs.
use nf_nms.Common.{
  ℕ, suc, ◌-◌, ◌≤◌, ◌<◌, List, [], ◌∷◌, ◌++◌, ◌≡◌, ◌≢◌, refl, Bool, true, false, ◌||◌, arith,
  if◌then◌else◌, if_cases, ◌==◌, Option-cases, inl, inr,
}
use nf_nms.Engined.Commit.{
  TaskStatus, pending, running, done, failed, Task, CommitService, Effect, is_pending, is_running,
  any_running, start_first, start_next, finish_first, trim, receive_settings_commit, reload_ended,
  Parsed, fail_running, apply_staged, apply_parsed, apply_commit, first_running, Input,
  settings_commit, reload_complete, reload_failed, apply, step, stage,
}
use Prim.Native.String.{String}

abbrev pub running_count : List Task → ℕ
running_count [] = 0
running_count (t ∷ ts) = if is_running t then suc (running_count ts) else running_count ts

abbrev pub any_pending : List Task → Bool
any_pending [] = false
any_pending (t ∷ ts) = is_pending t || any_pending ts

pub record IsSettled (s : CommitService) : Type 0 where
  pub one_running : running_count s.queue ≤ 1
  pub none_stranded : (running_count s.queue ≡ 0) → any_pending s.queue ≡ false

idle_count : (q : List Task) → any_running q ≡ false → running_count q ≡ 0
unfolding any_running
idle_count [] h = refl
idle_count (t ∷ ts) h = ground (arith, idle_count ts)

busy_count : (q : List Task) → any_running q ≡ true → 0 < running_count q
unfolding any_running
busy_count [] h = absurd (cc)
busy_count (t ∷ ts) h = ground (arith, busy_count ts)

busy : (q : List Task) → any_running q ≡ true → running_count q ≡ 0 → any_pending q ≡ false
busy q h z = absurd (omega (arith, busy_count q h))

running_count-append :
    (q : List Task) (t : Task)
    → t.status ≡ pending
    → running_count (q ++ (t ∷ [])) ≡ running_count q
running_count-append [] t h = ground arith
running_count-append (u ∷ us) t h = ground (arith, running_count-append us t h)

start_first-found :
    (q : List Task)
    → (start_first q).0 ≡ true
    → running_count (start_first q).1 ≡ suc (running_count q)
unfolding start_first
start_first-found [] h = absurd (cc)
start_first-found (t ∷ ts) h = ground (arith, start_first-found ts)

start_first-missing : (q : List Task) → (start_first q).0 ≡ false → any_pending q ≡ false
unfolding start_first
start_first-missing [] h = refl
start_first-missing (t ∷ ts) h = ground (arith, start_first-missing ts)

running_count-finish_first :
    (outcome : TaskStatus) (q : List Task)
    → outcome ≢ running
    → running_count (finish_first outcome q) ≡ running_count q - 1
unfolding finish_first
running_count-finish_first outcome [] h = omega arith
running_count-finish_first outcome (t ∷ ts) h =
    ground (arith, running_count-finish_first outcome ts h)

running_count-trim : (q : List Task) → running_count (trim q) ≤ running_count q
unfolding trim
running_count-trim [] = omega arith
running_count-trim (t ∷ ts) = ground (arith, running_count-trim ts)

start_next-IsSettled : (s : CommitService) → running_count s.queue ≡ 0 → IsSettled (start_next s).0
unfolding start_next
start_next-IsSettled s h = ground (arith, start_first-found s.queue, start_first-missing s.queue)

reload_ended-IsSettled :
    (outcome : TaskStatus) {s : CommitService}
    → outcome ≢ running
    → IsSettled s
    → IsSettled (reload_ended outcome s).0
unfolding reload_ended
reload_ended-IsSettled outcome {s} ne v = start_next-IsSettled _ (
    omega (
      arith,
      running_count-trim (finish_first outcome s.queue),
      running_count-finish_first outcome s.queue ne,
    ))

receive-IsSettled :
    {s : CommitService} (payload : List ℕ)
    → IsSettled s
    → IsSettled (receive_settings_commit s payload).0
unfolding receive_settings_commit
receive-IsSettled {s} [] v = v
receive-IsSettled {s} (b ∷ bs) v =
    if_cases (λ (r : CommitService × List Effect). IsSettled r.0) (any_running queue)
      (λ e. record {
        one_running = omega (arith, running_count-append s.queue task refl);
        none_stranded = busy queue e;
      })
      (λ e. start_next-IsSettled _ (idle_count queue e))
  where
    task : Task
    task = record { id = s.next_id; payload = b ∷ bs; status = pending }

    queue : List Task
    queue = s.queue ++ (task ∷ [])

module _ {Root P : Type 0} (parse : List ℕ → Parsed P) (merge : Root → String → String → P → Root)
    (commit_config : Root → Bool) where
  fail_running-IsSettled :
      {s : CommitService} → IsSettled s → IsSettled (fail_running parse merge commit_config s).0
  unfolding fail_running
  fail_running-IsSettled {s} v =
      start_next-IsSettled _ (omega (arith, running_count-finish_first failed s.queue (λ e. cc)))

  apply_parsed-IsSettled :
      {s : CommitService} (root : Root) (p : Parsed P)
      → IsSettled s
      → IsSettled (apply_parsed parse merge commit_config s root p).0
  unfolding apply_parsed apply_staged
  apply_parsed-IsSettled {s} root Parsed.unreadable v = fail_running-IsSettled v
  apply_parsed-IsSettled {s} root Parsed.not_array v = fail_running-IsSettled v
  apply_parsed-IsSettled {s} root (Parsed.array cs) v =
      if_cases (λ (r : CommitService × List Effect). IsSettled r.0)
        ((stage parse merge commit_config cs root 0).1 == 0) (λ _. fail_running-IsSettled v)
        (λ _.
          if_cases (λ (r : CommitService × List Effect). IsSettled r.0)
            (commit_config (stage parse merge commit_config cs root 0).0) (λ _. v)
            (λ _. fail_running-IsSettled v))

  -- In a state where at most one commit runs, and none waits if none runs, whatever event or
  -- action comes, whatever its payload and however the store answers, it is so afterwards too.
  pub step-IsSettled :
      {s : CommitService} (i : Input parse merge commit_config)
      → IsSettled s
      → IsSettled (step parse merge commit_config s i).0
  unfolding step apply_commit
  step-IsSettled {s} (settings_commit payload) v = receive-IsSettled payload v
  step-IsSettled {s} reload_complete v = reload_ended-IsSettled done (λ e. cc) v
  step-IsSettled {s} reload_failed v = reload_ended-IsSettled failed (λ e. cc) v
  step-IsSettled {s} (apply root) v = elim (Option-cases (first_running s.queue)) [
    | inl e ↦ rw (e, apply_commit) v
    | inr (t, e) ↦ rw (e, apply_commit) (apply_parsed-IsSettled root (parse t.payload) v)
  ]
