-- ===== src/Engined/Heartbeat/Report.antt =====
-- What the report of a round says of each daemon.
use nf_nms.Common.{
  ℕ, ◌-◌, ◌/◌, List, [], ◌∷◌, ◌≡◌, refl, ap, ◌∙◌, Option, map, ◌||◌, none, some, Bool, true, false,
  if◌then◌else◌, if_cases, leb, Bool-cases, inl, inr, arith, ◌==◌,
}
use nf_nms.Ipc.Protocol.Daemon.{IpcDaemon, daemon_eq}
use nf_nms.Engined.Heartbeat.{
  DaemonEntry, DaemonMap, HeartbeatService, HeartbeatEvent, send_heartbeat_result, report_posted,
  Status, up, down, find, mark_timeouts_as_dead, schedule, begin_round, report_order, targets,
  self_reported, status_of, build_result, handle_event,
}
use nf_nms.Engined.Heartbeat.Answers.{
  answered, first_answer, entry_at, find-ask, find-eq, answered_lem,
}

-- What a report is to say of a daemon that was asked at `asked_at`.
pub status_at : (asked_at : ℕ) → Option ℕ → Status
status_at asked_at none = down
status_at asked_at (some at) = up (some ((at - asked_at) / 1000000))

find-marked :
    (m : DaemonMap) (d : IpcDaemon) (entry : DaemonEntry)
    → find m d ≡ some entry
    → find (mark_timeouts_as_dead m) d
      ≡ some (
          if entry.pending
          then record entry { pending = false; alive = false; latency_ms = none }
          else entry)
unfolding find mark_timeouts_as_dead
find-marked [] d entry f = absurd (cc (f))
find-marked ((k, e) ∷ rest) d entry f = ground (arith, f, find-marked rest d entry)

status_of-find :
    (m : DaemonMap) (d : IpcDaemon) (entry : DaemonEntry)
    → self_reported d ≡ false
    → find m d ≡ some entry
    → status_of m d ≡ (if entry.alive then up entry.latency_ms else down)
unfolding status_of
status_of-find m d entry n f = rw (n, f) refl

module _ (d : IpcDaemon) (asked_at : ℕ) where
  found_status :
      (heard : Option ℕ) (m : DaemonMap)
      → self_reported d ≡ false
      → find m d ≡ some (entry_at asked_at heard)
      → (status_of m d ≡ status_at asked_at heard)
        × (status_of (mark_timeouts_as_dead m) d ≡ status_at asked_at heard)
  unfolding entry_at status_at
  found_status none m n f = (
    status_of-find m d _ n f,
    status_of-find (mark_timeouts_as_dead m) d _ n (find-marked m d _ f),
  )
  found_status (some at) m n f = (
    status_of-find m d _ n f,
    status_of-find (mark_timeouts_as_dead m) d _ n (find-marked m d _ f),
  )

  polled_status :
      (poll_interval response_timeout now : ℕ) (heard : Option ℕ) (s : HeartbeatService)
      → self_reported d ≡ false
      → find s.daemon_map d ≡ some (entry_at asked_at heard)
      → status_of (schedule poll_interval response_timeout now s).0.daemon_map d
        ≡ status_at asked_at heard
  unfolding schedule
  polled_status poll_interval response_timeout now heard s n f =
      let (as_is, marked) = found_status heard s.daemon_map n f in
      if_cases Told s.round_active
        (λ _.
          if_cases Told (leb response_timeout (now - s.round_started_at)) (λ _. marked)
            (λ _. as_is))
        (λ _.
          if_cases Told (s.last_poll_at == 0 || leb poll_interval (now - s.last_poll_at))
            (λ _. as_is) (λ _. as_is))
    where
      Told : HeartbeatService × Option HeartbeatEvent → Type 0
      Told (t, _) = status_of t.daemon_map d ≡ status_at asked_at heard

-- What a report says of a daemon.
pub said : IpcDaemon → List (IpcDaemon × Status) → Option Status
said d [] = none
said d ((k, status) ∷ rest) = if daemon_eq k d then some status else said d rest

unfoldable pub is_among : IpcDaemon → List IpcDaemon → Bool
is_among d [] = false
is_among d (k ∷ rest) = daemon_eq k d || is_among d rest

said-map :
    (status : IpcDaemon → Status) (ks : List IpcDaemon) (d : IpcDaemon)
    → ((k : IpcDaemon) → daemon_eq k d ≡ true → status k ≡ status d)
    → is_among d ks ≡ true
    → said d (map (λ (k : IpcDaemon). (k, status k)) ks) ≡ some (status d)
unfolding said is_among
said-map status [] d same h = absurd (cc (h))
said-map status (k ∷ rest) d same h = elim (Bool-cases (daemon_eq k d)) [
  | inl q ↦ rw q (ap some (same k q))
  | inr q ↦ rw q (said-map status rest d same (ground (arith, h, q)))
]

status_of-eq :
    (m : DaemonMap) (k d : IpcDaemon) → daemon_eq k d ≡ true → status_of m k ≡ status_of m d
unfolding status_of
status_of-eq m k d q =
    let self : self_reported k ≡ self_reported d = ground (arith, q) in
    rw (self, find-eq m k d q) refl

-- The report that is made of a round says of a daemon that it is alive if it has answered since
-- the round began, with the latency of its first answer, and down if it has not: whatever the
-- answers, their senders and times are, and whether or not the poll after them ends the round by
-- its timeout. The daemon is in the service's map and a target, and is not ipcd or engined.
pub round_reports :
    (poll_interval response_timeout now polled at : ℕ) (answers : List (ℕ × IpcDaemon))
    (s : HeartbeatService) (d : IpcDaemon) {entry : DaemonEntry}
    → find s.daemon_map d ≡ some entry
    → is_among d targets ≡ true
    → self_reported d ≡ false
    → let s' = answered answers (begin_round now s).0 in
      let s'' = (schedule poll_interval response_timeout polled s').0 in
      (report : List (IpcDaemon × Status)) × ((handle_event at send_heartbeat_result s'').1
        ≡ report_posted report ∷ [])
      × (said d report ≡ some (status_at now (first_answer d none answers)))
unfolding handle_event begin_round build_result is_among
round_reports poll_interval response_timeout now polled at answers s d {entry} f l n =
    let s' = answered answers (begin_round now s).0 in
    let s'' = (schedule poll_interval response_timeout polled s').0 in
    let got =
      answered_lem d now answers none (begin_round now s).0 (find-ask now s.daemon_map d entry f) in
    (
      build_result s''.daemon_map,
      refl,
      said-map (status_of s''.daemon_map) report_order d (λ k q. status_of-eq s''.daemon_map k d q)
            (ground (arith, l))
          ∙ ap some (
              polled_status d now poll_interval response_timeout polled
                (first_answer d none answers) s' n got),
    )
