-- ===== src/Tests/Probed.antt =====
-- An echo request of the sweep, and a sweep of two addresses.
use Prim.Native.String.{String}
use mathlib.Core.List.{map}
use nf_nms.Common.{
  ℕ, suc, ◌+◌, ◌*◌, ◌-◌, ◌≤◌, List, [], ◌∷◌, ◌++◌, ◌≡◌, refl, arith, Bool, true, some, length, take,
}
use nf_nms.Ipc.Codec.{little, big}
use nf_nms.Probed.Icmp.{IcmpPacket, ok, calculate_checksum, encode, decode}
use nf_nms.Probed.Icmp.RoundTrip.{
  IsPacket, frame_of, stored, IsIpHeader, calculate_checksum-encode, icmp_decode-encode,
  decode_behind_ip,
}
use nf_nms.Probed.Sweep.{
  IcmpService, idle, sending, waiting_replies, echo_reply, begin_probe, send_batch,
  send_probe_result, action_posted, result_sent, Timing, ProbeTarget, Effect, collect, is_local,
  numbered, indexed, begun as begun_with, begin_probe_session, send_probe_batch_at, send_loop,
  can_accept_reply, on_echo_reply, accept_reply, settle_reply, start, find, request, handle_event,
  handle_action,
}
use nf_nms.Probed.Sweep.Runs.{sent_after, heard_after, Answered, Run, started, handled, acted}
use nf_nms.Probed.Sweep.Replies.{requests_in_order, alive_answered, AllExcluded-stale}
use nf_nms.Probed.Sweep.Polls.Progress.{Swept, sweep_sends_all}

abbrev pub ping : IcmpPacket
ping = record {
  header = record { icmp_type = 8; code = 0; checksum = 0; identifier = 4660; sequence = 1 };
  payload = 112 ∷ 122 ∷ 45 ∷ [];
}

ping-IsPacket : IsPacket ping
ping-IsPacket = record {
  type_byte = omega arith;
  code_byte = omega arith;
  identifier_word = omega arith;
  sequence_word = omega arith;
  payload_bytes = (omega arith, (omega arith, (omega arith, tt)));
}

calculate_checksum-encode_example : calculate_checksum little (encode little ping) ≡ 0
calculate_checksum-encode_example =
    calculate_checksum-encode little ping ping-IsPacket (omega arith)

icmp_decode-encode_example :
    decode big (encode big ping)
    ≡ (ok, some (stored ping (calculate_checksum big (frame_of ping 0))))
icmp_decode-encode_example = icmp_decode-encode big ping ping-IsPacket (omega arith)

-- A header of 24 bytes.
abbrev ip_header : List ℕ
ip_header =
    70 ∷ 0 ∷ 0 ∷ 35 ∷ 0 ∷ 0 ∷ 0 ∷ 0 ∷ 64 ∷ 1 ∷ 0 ∷ 0 ∷ 10 ∷ 0 ∷ 0 ∷ 7 ∷ 10 ∷ 0 ∷ 0 ∷ 1 ∷ 1 ∷ 1 ∷ 1
    ∷ 0 ∷ []

ip_header-IsIpHeader : IsIpHeader ip_header
ip_header-IsIpHeader = record { version = refl; long_enough = omega arith; length_field = refl }

decode_behind_ip_example :
    decode little (ip_header ++ encode little ping)
    ≡ (ok, some (stored ping (calculate_checksum little (frame_of ping 0))))
decode_behind_ip_example = decode_behind_ip little ip_header ping ip_header-IsIpHeader ping-IsPacket

abbrev timing : Timing
timing = record {
  batch_size = 1;
  batch_interval = 20;
  reply_idle_timeout = 5000;
  reply_max_wait_timeout = 15000;
}

abbrev addresses : List String
addresses = "10.0.0.7" ∷ "10.0.0.9" ∷ "10.0.0.7" ∷ []

-- A session begun and its first request sent and answered.
abbrev rest : IcmpService
rest = start ("10.0.0.1" ∷ [])

abbrev begun : IcmpService
begun = (handle_action timing 100 4660 addresses begin_probe rest.state rest).0

abbrev asked : IcmpService × List Effect
asked = handle_action timing 120 4660 addresses send_batch begun.state begun

abbrev answered : IcmpService
answered = (handle_event 130 (echo_reply "10.0.0.7" (some ping)) asked.0).0

abbrev sent : List Effect
sent = sent_after send_batch begun.state (sent_after begin_probe rest.state [] []) asked.1

abbrev nothing : List (String × IcmpPacket)
nothing = heard_after send_batch begun.state (heard_after begin_probe rest.state [])

asked-Run : Run sent nothing asked.0
unfolding start handle_action begin_probe_session
asked-Run =
    acted timing 120 4660 addresses send_batch
      (acted timing 100 4660 addresses begin_probe (started ("10.0.0.1" ∷ [])))

abbrev heard : List (String × IcmpPacket)
heard = ("10.0.0.7", ping) ∷ nothing

requests_in_order_example :
    (sent ≡ take asked.0.next_send_index (map (request asked.0.identifier) asked.0.targets))
    × (asked.0.state ≡ waiting_replies → sent ≡ map (request asked.0.identifier) asked.0.targets)
requests_in_order_example = requests_in_order sent nothing asked.0 asked-Run

abbrev target : Bool → ProbeTarget
target alive = record { ip = "10.0.0.7"; sequence = 1; alive = alive }

alive_answered_example : Answered answered.identifier "10.0.0.7" 1 heard
unfolding start handle_action begin_probe_session collect is_local numbered indexed find begun_with
    send_probe_batch_at send_loop can_accept_reply handle_event on_echo_reply accept_reply
    settle_reply
alive_answered_example =
    alive_answered sent heard answered 0 (target true)
      (handled 130 (echo_reply "10.0.0.7" (some ping)) asked-Run) refl refl

AllExcluded-stale_example :
    let s = record (start ("10.0.0.1" ∷ "10.0.0.2" ∷ [])) { last_alive_count = 3 } in
    let (s', posted) = handle_action timing 100 4660 ("10.0.0.2" ∷ []) begin_probe idle s in
    (s'.state ≡ sending)
    × (posted ≡ action_posted send_probe_result ∷ [])
    × ((handle_action timing 100 4660 ("10.0.0.2" ∷ []) send_probe_result s'.state s').1
        ≡ result_sent 3 [] ∷ [])
unfolding start is_local
AllExcluded-stale_example =
    AllExcluded-stale timing 100 4660 "10.0.0.2" []
      (record (start ("10.0.0.1" ∷ "10.0.0.2" ∷ [])) { last_alive_count = 3 }) (refl, tt)

-- Polls every 20 ms, each of whose batches goes out 3 ms later.
abbrev poll_at : ℕ → ℕ
poll_at k = 20 * k + 120

abbrev send_at : ℕ → ℕ
send_at k = 20 * k + 123

sweep_sends_all_example :
    (n : ℕ) × (n ≤ suc (2 * (length begun.targets - begun.next_send_index)))
    × Swept timing 4660 addresses poll_at send_at 0 n begun
unfolding start handle_action begin_probe_session collect is_local numbered begun_with
sweep_sends_all_example =
    sweep_sends_all timing 4660 addresses poll_at send_at (omega arith) (λ k. omega arith)
      (λ k. omega arith) begun refl (omega arith)
