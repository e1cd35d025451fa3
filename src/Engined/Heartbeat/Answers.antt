-- ===== src/Engined/Heartbeat/Answers.antt =====
-- The answers of a round of heartbeats.
use nf_nms.Common.{
  ℕ, ◌-◌, ◌/◌, List, [], ◌∷◌, ◌≡◌, refl, sym, ap, ◌∙◌, Option, Option-cases, none, some, true,
  false, if◌then◌else◌, if_cases, Bool-cases, inl, inr, arith, ◌==◌,
}
use nf_nms.Ipc.Protocol.Daemon.{IpcDaemon, daemon_eq}
use nf_nms.Engined.Heartbeat.{
  DaemonEntry, DaemonMap, HeartbeatService, Effect, find, ask, settle, counted_down,
  on_heartbeat_response,
}

-- The answers of a round, each with its time and its sender.
pub answered : List (ℕ × IpcDaemon) → HeartbeatService → HeartbeatService
answered [] s = s
answered ((at, src) ∷ rest) s = answered rest (on_heartbeat_response at src s).0

-- When a daemon first answered, if it did; `heard` is what is known of it before.
pub first_answer : IpcDaemon → Option ℕ → List (ℕ × IpcDaemon) → Option ℕ
first_answer d heard [] = heard
first_answer d (some at) (_ ∷ rest) = some at
first_answer d none ((at, src) ∷ rest) =
    let later = first_answer d none rest in if daemon_eq src d then some at else later

-- The entry of a daemon that was asked at `asked_at` and has answered when `heard` says.
unfoldable pub entry_at : (asked_at : ℕ) → Option ℕ → DaemonEntry
entry_at asked_at none = record {
  pending = true;
  alive = false;
  latency_ms = none;
  sent_at = asked_at;
}
entry_at asked_at (some at) = record {
  pending = false;
  alive = true;
  latency_ms = some ((at - asked_at) / 1000000);
  sent_at = asked_at;
}

pub find-ask :
    (now : ℕ) (m : DaemonMap) (d : IpcDaemon) (entry : DaemonEntry)
    → find m d ≡ some entry
    → find (ask now m).0 d ≡ some (entry_at now none)
unfolding find ask entry_at
find-ask now [] d entry f = absurd (cc (f))
find-ask now ((k, e) ∷ rest) d entry f = ground (arith, find-ask now rest d entry, f)

find-settle-same :
    (asked_at now : ℕ) (m : DaemonMap) (src d : IpcDaemon)
    → daemon_eq src d ≡ true
    → find m d ≡ some (entry_at asked_at none)
    → find (settle now m src) d ≡ some (entry_at asked_at (some now))
unfolding find settle entry_at
find-settle-same asked_at now [] src d q f = absurd (cc (f))
find-settle-same asked_at now ((k, e) ∷ rest) src d q f =
    ground (arith, q, f, find-settle-same asked_at now rest src d q)

find-settle-other :
    (now : ℕ) (m : DaemonMap) (src d : IpcDaemon)
    → daemon_eq src d ≡ false
    → find (settle now m src) d ≡ find m d
unfolding find settle
find-settle-other now [] src d q = refl
find-settle-other now ((k, e) ∷ rest) src d q =
    ground (arith, q, find-settle-other now rest src d q)

pub find-eq : (m : DaemonMap) (k d : IpcDaemon) → daemon_eq k d ≡ true → find m k ≡ find m d
unfolding find
find-eq [] k d q = refl
find-eq ((j, e) ∷ rest) k d q = ground (arith, q, find-eq rest k d q)

-- What is known of one daemon.
module _ (d : IpcDaemon) (asked_at : ℕ) where
  counted_down_map : (s : HeartbeatService) → (counted_down s).0.daemon_map ≡ s.daemon_map
  unfolding counted_down
  counted_down_map s =
      if_cases (λ (r : HeartbeatService × List Effect). r.0.daemon_map ≡ s.daemon_map)
        (s.pending_count == 0) (λ _. refl) (λ _. refl)

  after_other :
      (now : ℕ) (src : IpcDaemon) (s : HeartbeatService)
      → daemon_eq src d ≡ false
      → find (on_heartbeat_response now src s).0.daemon_map d ≡ find s.daemon_map d
  unfolding on_heartbeat_response
  after_other now src s q = elim (Option-cases (find s.daemon_map src)) [
    | inl f ↦ rw (f, on_heartbeat_response) refl
    | inr (entry, f) ↦
        rw (f, on_heartbeat_response)
          (if_cases
            (λ (r : HeartbeatService × List Effect). find r.0.daemon_map d ≡ find s.daemon_map d)
            entry.pending
            (λ _.
              ap (λ m. find m d) (counted_down_map _) ∙ find-settle-other now s.daemon_map src d q)
            (λ _. refl))
  ]

  after_answer :
      (now : ℕ) (src : IpcDaemon) (heard : Option ℕ) (s : HeartbeatService)
      → find s.daemon_map d ≡ some (entry_at asked_at heard)
      → find (on_heartbeat_response now src s).0.daemon_map d
        ≡ some (entry_at asked_at (first_answer d heard ((now, src) ∷ [])))
  unfolding first_answer entry_at on_heartbeat_response
  after_answer now src heard s f = elim (Bool-cases (daemon_eq src d)) [
    | inr q ↦ after_other now src s q ∙ f ∙ kept heard q
    | inl q ↦ same heard q (find-eq s.daemon_map src d q ∙ f)
  ]
    where
      kept :
          (heard : Option ℕ)
          → daemon_eq src d ≡ false
          → some (entry_at asked_at heard)
            ≡ some (entry_at asked_at (first_answer d heard ((now, src) ∷ [])))
      kept none q = ap (λ b. some (entry_at asked_at (if b then some now else none))) (sym q)
      kept (some at) q = refl

      same :
          (heard : Option ℕ)
          → daemon_eq src d ≡ true
          → find s.daemon_map src ≡ some (entry_at asked_at heard)
          → find (on_heartbeat_response now src s).0.daemon_map d
            ≡ some (entry_at asked_at (first_answer d heard ((now, src) ∷ [])))
      same none q g =
          rw (g, on_heartbeat_response)
            (ap (λ m. find m d) (counted_down_map _)
              ∙ find-settle-same asked_at now s.daemon_map src d q
                  (sym (find-eq s.daemon_map src d q) ∙ g)
              ∙ ap (λ b. some (entry_at asked_at (if b then some now else none))) (sym q))
      same (some at) q g =
          let here = sym (find-eq s.daemon_map src d q) ∙ g in rw (g, on_heartbeat_response) here

  known_answer :
      (at : ℕ) (answers : List (ℕ × IpcDaemon)) → first_answer d (some at) answers ≡ some at
  unfolding first_answer
  known_answer at [] = refl
  known_answer at (x ∷ rest) = refl

  answers_in_turn :
      (heard : Option ℕ) (at : ℕ) (src : IpcDaemon) (rest : List (ℕ × IpcDaemon))
      → first_answer d (first_answer d heard ((at, src) ∷ [])) rest
        ≡ first_answer d heard ((at, src) ∷ rest)
  unfolding first_answer
  answers_in_turn (some by) at src rest = known_answer by rest
  answers_in_turn none at src rest = elim (Bool-cases (daemon_eq src d)) [
    | inl q ↦ rw q (known_answer at rest)
    | inr q ↦ rw q refl
  ]

  pub answered_lem :
      (answers : List (ℕ × IpcDaemon)) (heard : Option ℕ) (s : HeartbeatService)
      → find s.daemon_map d ≡ some (entry_at asked_at heard)
      → find (answered answers s).daemon_map d
        ≡ some (entry_at asked_at (first_answer d heard answers))
  unfolding answered first_answer
  answered_lem [] heard s f = f
  answered_lem ((at, src) ∷ rest) heard s f =
      answered_lem rest (first_answer d heard ((at, src) ∷ [])) (on_heartbeat_response at src s).0
        (after_answer at src heard s f)
      ∙ ap (λ h. some (entry_at asked_at h)) (answers_in_turn heard at src rest)
