-- ===== src/Engined/Heartbeat/Round.antt =====
-- A round's count of open answers is the number of daemons that have not answered.
use nf_nms.Common.{
  ℕ, suc, ◌-◌, List, [], ◌∷◌, ◌≡◌, inl, inr, refl, sym, ap, ◌∙◌, Option, none, some, true, false,
  arith, if◌then◌else◌, if_cases, leb, Bool-cases, ◌<◌, ◌==◌, ==_iff, Option-cases, ◌||◌,
}
use nf_nms.Ipc.Protocol.Daemon.{IpcDaemon}
use nf_nms.Engined.Heartbeat.{
  DaemonEntry, DaemonMap, HeartbeatService, HeartbeatEvent, send_heartbeat_requests,
  send_heartbeat_result, receive_heartbeat_response, Effect, result_due, start, find,
  mark_timeouts_as_dead, schedule, ask, begin_round, settle, counted_down, on_heartbeat_response,
  handle_event,
}

abbrev pub open_answers : DaemonMap → ℕ
open_answers [] = 0
open_answers ((k, entry) ∷ rest) =
    if entry.pending then suc (open_answers rest) else open_answers rest

pub record IsCounted (s : HeartbeatService) : Type 0 where
  pub count : s.pending_count ≡ open_answers s.daemon_map
  pub inactive : s.round_active ≡ false → open_answers s.daemon_map ≡ 0

ask_open : (now : ℕ) (m : DaemonMap) → open_answers (ask now m).0 ≡ (ask now m).1
unfolding ask
ask_open now [] = refl
ask_open now ((k, entry) ∷ rest) = ap suc (ask_open now rest)

timed_out_open : (m : DaemonMap) → open_answers (mark_timeouts_as_dead m) ≡ 0
unfolding mark_timeouts_as_dead
timed_out_open [] = refl
timed_out_open ((k, entry) ∷ rest) = ground (arith, timed_out_open rest)

settle_open :
    (now : ℕ) (m : DaemonMap) (d : IpcDaemon) (entry : DaemonEntry)
    → find m d ≡ some entry
    → entry.pending ≡ true
    → suc (open_answers (settle now m d)) ≡ open_answers m
unfolding find settle
settle_open now [] d entry f p = absurd (cc (f))
settle_open now ((k, e) ∷ rest) d entry f p = ground (arith, settle_open now rest d entry)

start-IsCounted : IsCounted start
unfolding start
start-IsCounted = record { count = refl; inactive = λ h. refl }

timed_out-IsCounted :
    (s : HeartbeatService)
    → IsCounted (record s {
      daemon_map = mark_timeouts_as_dead s.daemon_map;
      round_active = false;
      pending_count = 0;
    })
timed_out-IsCounted s = record {
  count = sym (timed_out_open s.daemon_map);
  inactive = λ _. timed_out_open s.daemon_map;
}

schedule-IsCounted :
    (poll_interval response_timeout now : ℕ) {s : HeartbeatService}
    → IsCounted s
    → IsCounted (schedule poll_interval response_timeout now s).0
unfolding schedule
schedule-IsCounted poll_interval response_timeout now {s} v =
    if_cases Counted s.round_active
      (λ _.
        if_cases Counted (leb response_timeout (now - s.round_started_at))
          (λ _. timed_out-IsCounted s) (λ _. v))
      (λ _.
        if_cases Counted (s.last_poll_at == 0 || leb poll_interval (now - s.last_poll_at))
          (λ _. record { count = v.count; inactive = v.inactive }) (λ _. v))
  where
    Counted : HeartbeatService × Option HeartbeatEvent → Type 0
    Counted (t, _) = IsCounted t

-- What an answer does to the round.
pub data Answered (s : HeartbeatService) (r : HeartbeatService × List Effect) : Type 0 where
  ignored : r ≡ (s, []) → Answered s r
  waiting :
      open_answers s.daemon_map ≡ suc (open_answers r.0.daemon_map)
      → 0 < open_answers r.0.daemon_map
      → r.0.round_active ≡ s.round_active
      → r.1 ≡ []
      → Answered s r
  finished :
      open_answers s.daemon_map ≡ 1
      → open_answers r.0.daemon_map ≡ 0
      → r.0.round_active ≡ false
      → r.1 ≡ result_due ∷ []
      → Answered s r

counted_down-Answered :
    (s t : HeartbeatService)
    → open_answers s.daemon_map ≡ suc (open_answers t.daemon_map)
    → t.pending_count ≡ open_answers t.daemon_map
    → t.round_active ≡ s.round_active
    → s.round_active ≡ true
    → IsCounted (counted_down t).0 × Answered s (counted_down t)
unfolding counted_down
counted_down-Answered s t less h same a =
    if_cases (λ (r : HeartbeatService × List Effect). IsCounted r.0 × Answered s r)
      (t.pending_count == 0)
      (λ z.
        let none_left : open_answers t.daemon_map ≡ 0 = sym h ∙ (==_iff _ _).0 z in
        (
          record { count = sym none_left; inactive = λ _. none_left },
          finished (less ∙ ap suc none_left) none_left refl refl,
        ))
      (λ z. (
        record { count = h; inactive = λ b. absurd (ground (arith, a, b, same)) },
        waiting less (ground (arith, h, z)) same refl,
      ))

-- In a state whose count is right, an answer to a heartbeat, from whomever and whenever it comes,
-- is ignored; or it was awaited, others still are and the round goes on; or it was the last one
-- awaited, the round is over and the result is posted, once. The count stays right in every case.
pub on_heartbeat_response-Answered :
    (now : ℕ) (src : IpcDaemon) {s : HeartbeatService}
    → IsCounted s
    → let r = on_heartbeat_response now src s in IsCounted r.0 × Answered s r
unfolding on_heartbeat_response
on_heartbeat_response-Answered now src {s} v = elim (Option-cases (find s.daemon_map src)) [
  | inl f ↦ rw (f, on_heartbeat_response) (v, ignored refl)
  | inr (entry, f) ↦
      rw (f, on_heartbeat_response)
        (if_cases (λ (r : HeartbeatService × List Effect). IsCounted r.0 × Answered s r)
          entry.pending
          (λ p.
            let less = settle_open now s.daemon_map src entry f p in
            counted_down-Answered s _ (sym less) (omega (arith, less, v.count)) refl (active less))
          (λ _. (v, ignored refl)))
]
  where
    active :
        suc (open_answers (settle now s.daemon_map src)) ≡ open_answers s.daemon_map
        → s.round_active ≡ true
    active less = elim (Bool-cases s.round_active) [
      | inl t ↦ t
      | inr idle ↦ absurd (omega (arith, less, v.inactive idle))
    ]

handle_event-IsCounted :
    (now : ℕ) (event : HeartbeatEvent) {s : HeartbeatService}
    → IsCounted s
    → IsCounted (handle_event now event s).0
unfolding handle_event begin_round
handle_event-IsCounted now send_heartbeat_requests {s} v = record {
  count = sym (ask_open now s.daemon_map);
  inactive = λ h. absurd (cc (h));
}
handle_event-IsCounted now (receive_heartbeat_response none) v = v
handle_event-IsCounted now (receive_heartbeat_response (some m)) v =
    (on_heartbeat_response-Answered now m.header.src v).0
handle_event-IsCounted now send_heartbeat_result v = v

-- The states that polls and events lead to, in any order and at any time.
pub data Reachable : HeartbeatService → Type 0 where
  started : Reachable start
  polled :
      {s : HeartbeatService} (poll_interval response_timeout now : ℕ)
      → Reachable s
      → Reachable (schedule poll_interval response_timeout now s).0
  handled :
      {s : HeartbeatService} (now : ℕ) (event : HeartbeatEvent)
      → Reachable s
      → Reachable (handle_event now event s).0

-- In every state that polls and events lead to from the start, in any order and at any time, the
-- count of open answers is the number of daemons that have not answered, and no daemon is awaited
-- while no round is active.
pub Reachable-IsCounted : {s : HeartbeatService} → Reachable s → IsCounted s
Reachable-IsCounted started = start-IsCounted
Reachable-IsCounted (polled p r now before) =
    schedule-IsCounted p r now (Reachable-IsCounted before)
Reachable-IsCounted (handled now event before) =
    handle_event-IsCounted now event (Reachable-IsCounted before)
