-- ===== src/Probed/Sweep/Polls.antt =====
-- Polls by probed/service/ProbedServiceManager.cpp, each with the event and the action that it leads
-- to.
pub mod Progress
use Prim.Native.String.{String}
use mathlib.Core.Path.{ap₂}
use nf_nms.Common.{
  if◌then◌else◌, ℕ, zero, suc, ◌+◌, ◌-◌, ◌%◌, ◌^◌, ◌≤◌, ◌<◌, min, ◌≡◌, ap, ◌∙◌, List, [], ◌∷◌, ◌++◌,
  ◌*◌, refl, sym, take, drop, map, length-map, drop-ge, take-append-drop, append-nil, Option, none,
  some, Bool, true, false, length, arith, dec_lt,
}
use nf_nms.Probed.Sweep.{
  State, sending, waiting_replies, idle, IcmpService, IcmpEvent, probe_completed, send_probe_batch,
  send_batch, send_probe_result, Effect, action_posted, packet_sent, result_sent, Timing, request,
  all_probe_sent, reply_wait_expired, schedule_sending, schedule, send_probe_batch_at, alive_ips,
  complete_probe_session, handle_event, handle_action,
}
use nf_nms.Probed.Sweep.Session.{send_loop_lem}

module _ (t : Timing) (pid : ℕ) (explicit : List String) where
  -- The posted actions in order. Those that a poll leads to post none themselves.
  pub perform : ℕ → List Effect → IcmpService → IcmpService × List Effect
  unfolding handle_action
  perform later [] s = (s, [])
  perform later (action_posted action ∷ posted) s =
      let (s', out) = handle_action t later pid explicit action s.state s in
      let (s'', rest) = perform later posted s' in (s'', out ++ rest)
  perform later (packet_sent packet ip ∷ posted) s = perform later posted s
  perform later (result_sent alive ips ∷ posted) s = perform later posted s

  -- Of an event that a poll posts and the action after it, one at most reads the clock.
  pub execute : ℕ → IcmpService → Option IcmpEvent → IcmpService × List Effect
  unfolding handle_event perform
  execute later s none = (s, [])
  execute later s (some event) =
      let (s', posted) = handle_event later event s in perform later posted s'

  -- A poll at `now`, and what it leads to, which reads the clock again.
  pub on_tick : (now later : ℕ) → IcmpService → IcmpService × List Effect
  unfolding schedule execute
  on_tick now later s = let (s', event) = schedule t now s.state s in execute later s' event

  -- `n` polls from the `k`-th on, by the two readings of the clock at each.
  pub ticks : (poll later : ℕ → ℕ) → ℕ → ℕ → IcmpService → IcmpService × List Effect
  unfolding on_tick
  ticks poll later k zero s = (s, [])
  ticks poll later k (suc n) s =
      let (s', out) = on_tick (poll k) (later k) s in
      let (s'', rest) = ticks poll later (suc k) n s' in (s'', out ++ rest)

  batch_due :
      (now : ℕ) (s : IcmpService)
      → s.next_send_index < length s.targets
      → t.batch_interval ≤ now - s.last_batch_sent_at
      → schedule_sending t now s ≡ (s, some send_probe_batch)
  unfolding schedule_sending all_probe_sent
  batch_due now s l d = ground arith

  all_sent_due :
      (now : ℕ) (s : IcmpService)
      → length s.targets ≤ s.next_send_index
      → schedule_sending t now s ≡ (
        record s { waiting_started_at = now; last_reply_at = now; state = waiting_replies },
        none,
      )
  unfolding schedule_sending all_probe_sent
  all_sent_due now s l = ground arith

  not_due :
      (now : ℕ) (s : IcmpService)
      → s.next_send_index < length s.targets
      → now - s.last_batch_sent_at < t.batch_interval
      → schedule_sending t now s ≡ (s, none)
  unfolding schedule_sending all_probe_sent
  not_due now s l d = ground arith

  pub sending_tick :
      (now later : ℕ) (s : IcmpService)
      → s.state ≡ sending
      → s.next_send_index < length s.targets
      → t.batch_interval ≤ now - s.last_batch_sent_at
      → on_tick now later s ≡ (
        record s {
          next_send_index = min (s.next_send_index + t.batch_size) (length s.targets);
          last_batch_sent_at = later;
        },
        take t.batch_size (drop s.next_send_index (map (request s.identifier) s.targets)) ++ [],
      )
  unfolding on_tick execute perform schedule handle_event handle_action send_probe_batch_at
  sending_tick now later s q l d =
      let (far, out) = send_loop_lem t.batch_size s (omega arith) in
      ap (λ k. let r = schedule t now k s in execute later r.0 r.1) q
      ∙ ap (λ (r : IcmpService × Option IcmpEvent). execute later r.0 r.1) (batch_due now s l d)
      ∙ ap (λ k. let r = handle_action t later pid explicit send_batch k s in (r.0, r.1 ++ [])) q
      ∙ ap₂
          (λ (r : IcmpService) (o : List Effect).
            (record r { last_batch_sent_at = later }, o ++ []))
          far out

  pub early_tick :
      (now later : ℕ) (s : IcmpService)
      → s.state ≡ sending
      → s.next_send_index < length s.targets
      → now - s.last_batch_sent_at < t.batch_interval
      → on_tick now later s ≡ (s, [])
  unfolding on_tick execute schedule
  early_tick now later s q l d =
      ap (λ k. let r = schedule t now k s in execute later r.0 r.1) q
      ∙ ap (λ (r : IcmpService × Option IcmpEvent). execute later r.0 r.1) (not_due now s l d)

  pub waiting_tick :
      (now later : ℕ) (s : IcmpService)
      → s.state ≡ sending
      → length s.targets ≤ s.next_send_index
      → on_tick now later s
        ≡ (record s { waiting_started_at = now; last_reply_at = now; state = waiting_replies }, [])
  unfolding on_tick execute schedule
  waiting_tick now later s q l =
      ap (λ k. let r = schedule t now k s in execute later r.0 r.1) q
      ∙ ap (λ (r : IcmpService × Option IcmpEvent). execute later r.0 r.1) (all_sent_due now s l)
