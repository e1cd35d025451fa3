-- ===== src/Probed/Sweep.antt =====
-- probed/service/status/icmp/IcmpService.{h,cpp}: the reachability sweep. A session sends one echo
-- request to each target, in batches, waits for replies and reports who answered. Times are ticks
-- of the steady clock from an origin early enough for every difference; what is posted, sent or
-- reported is a list of effects, in order. The configuration's `Timing`, the targets it names and
-- the process id are arguments of the operations that read them.
pub mod Session
pub mod Runs
pub mod Replies
pub mod Polls
use Prim.Native.String.{String}
use text.Mathlib.Text.{◌==◌ as str_eq}
use nf_nms.Common.{
  ℕ, zero, suc, ◌+◌, ◌-◌, ◌%◌, ◌^◌, List, [], ◌∷◌, ◌++◌, map, Option, none, some, Bool, true, false,
  ◌&&◌, ◌||◌, not, if◌then◌else◌, leb, ltb, ◌==◌, length, get_elem?, set,
}
use nf_nms.Probed.Icmp.{IcmpPacket, build_echo_request}

pub data State : Type 0 where
  init idle sending waiting_replies : State

pub record ProbeTarget : Type 0 where
  pub ip : String
  pub sequence : ℕ
  pub alive : Bool

pub record IcmpService : Type 0 where
  pub state : State
  pub targets : List ProbeTarget
  pub target_index_by_ip : List (String × ℕ)
  pub local_ips : List String
  pub next_send_index : ℕ
  pub probe_started_at : ℕ
  pub last_batch_sent_at : ℕ
  pub waiting_started_at : ℕ
  pub last_probe_completed_at : ℕ
  pub last_reply_at : ℕ
  pub identifier : ℕ
  pub last_alive_count : ℕ

-- An echo reply comes with its source and the packet, if there is one.
pub data IcmpEvent : Type 0 where
  start_probe send_probe_batch probe_completed : IcmpEvent
  echo_reply : String → Option IcmpPacket → IcmpEvent

pub data IcmpAction : Type 0 where
  begin_probe send_batch send_probe_result : IcmpAction

pub data Effect : Type 0 where
  action_posted : IcmpAction → Effect
  packet_sent : IcmpPacket → String → Effect
  result_sent : ℕ → List String → Effect

pub record Timing : Type 0 where
  pub batch_size : ℕ
  pub batch_interval : ℕ
  pub reply_idle_timeout : ℕ
  pub reply_max_wait_timeout : ℕ

-- A new service that has been started, with the excluded addresses of the configuration.
unfoldable pub start : List String → IcmpService
start excluded = record {
  state = idle;
  targets = [];
  target_index_by_ip = [];
  local_ips = excluded;
  next_send_index = 0;
  probe_started_at = 0;
  last_batch_sent_at = 0;
  waiting_started_at = 0;
  last_probe_completed_at = 0;
  last_reply_at = 0;
  identifier = 0;
  last_alive_count = 0;
}

unfoldable pub all_probe_sent : IcmpService → Bool
all_probe_sent s = leb (length s.targets) s.next_send_index

unfoldable pub reply_wait_expired : Timing → ℕ → IcmpService → Bool
reply_wait_expired t now s =
    leb t.reply_idle_timeout (now - s.last_reply_at)
    || leb t.reply_max_wait_timeout (now - s.waiting_started_at)

unfoldable pub can_accept_reply : State → Bool
can_accept_reply init = false
can_accept_reply idle = false
can_accept_reply sending = true
can_accept_reply waiting_replies = true

unfoldable pub schedule_sending : Timing → ℕ → IcmpService → IcmpService × Option IcmpEvent
unfolding all_probe_sent
schedule_sending t now s =
    if not (all_probe_sent s) && leb t.batch_interval (now - s.last_batch_sent_at)
    then (s, some send_probe_batch)
    else if all_probe_sent s
    then (record s { waiting_started_at = now; last_reply_at = now; state = waiting_replies }, none)
    else (s, none)

-- `schedule`, by the state.
unfoldable pub schedule : Timing → ℕ → State → IcmpService → IcmpService × Option IcmpEvent
unfolding schedule_sending reply_wait_expired
schedule t now init s = (s, none)
schedule t now idle s = (s, none)
schedule t now sending s = schedule_sending t now s
schedule t now waiting_replies s =
    (s, if reply_wait_expired t now s then some probe_completed else none)

unfoldable pub is_local : List String → String → Bool
is_local [] ip = false
is_local (l ∷ ls) ip = str_eq l ip || is_local ls ip

-- The targets of a session: the addresses that are not excluded, each once, in order, of which
-- `seen` have come up.
unfoldable pub collect : List String → List String → List String → List String
unfolding is_local
collect excluded seen [] = []
collect excluded seen (ip ∷ ips) =
    let fresh = collect excluded (ip ∷ seen) ips in
    let rest = collect excluded seen ips in
    if is_local excluded ip then rest else if is_local seen ip then rest else ip ∷ fresh

unfoldable pub numbered : ℕ → List String → List ProbeTarget
numbered i [] = []
numbered i (ip ∷ ips) =
    record { ip = ip; sequence = (i + 1) % 2 ^ 16; alive = false } ∷ numbered (i + 1) ips

-- `emplace` keeps the first entry of a key, and `find` finds it.
unfoldable pub indexed : ℕ → List String → List (String × ℕ)
indexed i [] = []
indexed i (ip ∷ ips) = (ip, i) ∷ indexed (i + 1) ips

unfoldable pub find : String → List (String × ℕ) → Option ℕ
find ip [] = none
find ip ((key, i) ∷ index) = if str_eq key ip then some i else find ip index

-- `beginProbeSession`, when the configuration names `explicit`.
unfoldable pub begin_probe_session : Timing → ℕ → ℕ → List String → IcmpService → IcmpService
unfolding collect numbered indexed
begin_probe_session t now pid [] s = record s {
  identifier = pid % 2 ^ 16;
  targets = [];
  target_index_by_ip = [];
  next_send_index = 0;
  last_alive_count = 0;
  state = idle;
}
begin_probe_session t now pid (e ∷ es) s =
    let ips = collect s.local_ips [] (e ∷ es) in
    record s {
      identifier = pid % 2 ^ 16;
      targets = numbered 0 ips;
      target_index_by_ip = indexed 0 ips;
      next_send_index = 0;
      probe_started_at = now;
      last_batch_sent_at = now - t.batch_interval;
      waiting_started_at = 0;
      last_reply_at = 0;
      state = sending;
    }

-- The text of the payload, "pz-probed-probe".
abbrev pub probe_text : List ℕ
probe_text =
    112 ∷ 122 ∷ 45 ∷ 112 ∷ 114 ∷ 111 ∷ 98 ∷ 101 ∷ 100 ∷ 45 ∷ 112 ∷ 114 ∷ 111 ∷ 98 ∷ 101 ∷ []

unfoldable pub build_echo_request_packet : ℕ → ℕ → IcmpPacket
build_echo_request_packet identifier sequence = record {
  header = build_echo_request identifier sequence;
  payload = probe_text;
}

unfoldable pub request : ℕ → ProbeTarget → Effect
unfolding build_echo_request_packet
request identifier target =
    packet_sent (build_echo_request_packet identifier target.sequence) target.ip

-- The loop of `sendProbeBatch`, while the batch has room for `left` more and targets wait.
unfoldable pub send_loop : ℕ → IcmpService → IcmpService × List Effect
unfolding request
send_loop zero s = (s, [])
send_loop (suc left) s = elim (get_elem? s.targets s.next_send_index) [
  | none ↦ (s, [])
  | some target ↦
      let (s', sent) = send_loop left (record s { next_send_index = s.next_send_index + 1 }) in
      (s', request s.identifier target ∷ sent)
]

unfoldable pub send_probe_batch_at : Timing → ℕ → IcmpService → IcmpService × List Effect
unfolding send_loop
send_probe_batch_at t now s =
    let (s', sent) = send_loop t.batch_size s in (record s' { last_batch_sent_at = now }, sent)

-- The rest of `onEchoReply`, for the target's index and the packet.
unfoldable pub settle_reply : ℕ → ℕ → IcmpPacket → IcmpService → Option ProbeTarget → IcmpService
settle_reply now i packet s none = s
settle_reply now i packet s (some target) =
    if not (packet.header.identifier == s.identifier)
    then s
    else if not (packet.header.sequence == target.sequence)
    then s
    else record s {
      last_reply_at = now;
      targets =
          if target.alive then s.targets else set s.targets i (record target { alive = true });
    }

unfoldable pub accept_reply : ℕ → Option IcmpPacket → IcmpService → Option ℕ → IcmpService
unfolding settle_reply can_accept_reply
accept_reply now packet s none = s
accept_reply now none s (some i) = s
accept_reply now (some packet) s (some i) =
    if can_accept_reply s.state then settle_reply now i packet s (get_elem? s.targets i) else s

unfoldable pub on_echo_reply : ℕ → String → Option IcmpPacket → IcmpService → IcmpService
unfolding accept_reply find
on_echo_reply now src_ip packet s = accept_reply now packet s (find src_ip s.target_index_by_ip)

unfoldable pub alive_ips : List ProbeTarget → List String
alive_ips [] = []
alive_ips (target ∷ targets) =
    let rest = alive_ips targets in if target.alive then target.ip ∷ rest else rest

-- `completeProbeSession`, by the state. The sort of the addresses is for a log line.
pub complete_probe_session : ℕ → State → IcmpService → IcmpService
unfolding alive_ips
complete_probe_session now waiting_replies s = record s {
  last_alive_count = length (alive_ips s.targets) % 2 ^ 32;
  last_probe_completed_at = now;
  state = idle;
}
complete_probe_session now _ s = s

unfoldable pub handle_event : ℕ → IcmpEvent → IcmpService → IcmpService × List Effect
unfolding on_echo_reply complete_probe_session
handle_event now start_probe s = (s, action_posted begin_probe ∷ [])
handle_event now send_probe_batch s = (s, action_posted send_batch ∷ [])
handle_event now (echo_reply src_ip packet) s = (on_echo_reply now src_ip packet s, [])
handle_event now probe_completed s =
    (complete_probe_session now s.state s, action_posted send_probe_result ∷ [])

-- After `beginProbeSession`, by the targets.
unfoldable pub begun : List ProbeTarget → IcmpService → IcmpService × List Effect
begun [] s = (s, action_posted send_probe_result ∷ [])
begun (target ∷ targets) s = (s, [])

-- `handleAction`, by the state, when the configuration names `explicit`.
unfoldable pub handle_action :
    Timing → ℕ → ℕ → List String → IcmpAction → State → IcmpService → IcmpService × List Effect
unfolding begin_probe_session begun send_probe_batch_at alive_ips
handle_action t now pid explicit begin_probe sending s = (s, [])
handle_action t now pid explicit begin_probe waiting_replies s = (s, [])
handle_action t now pid explicit begin_probe _ s =
    let s' = begin_probe_session t now pid explicit s in begun s'.targets s'
handle_action t now pid explicit send_batch sending s = send_probe_batch_at t now s
handle_action t now pid explicit send_batch _ s = (s, [])
handle_action t now pid explicit send_probe_result _ s =
    (s, result_sent s.last_alive_count (alive_ips s.targets) ∷ [])
