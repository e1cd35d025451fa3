-- ===== src/Engined/Heartbeat.antt =====
-- engined/service/heartbeat/HeartbeatService.{h,cpp}: rounds of heartbeats to the other daemons.
-- Times are ticks of the steady clock in nanoseconds, which never go back; a latency of -1 is
-- `none`. What is posted is a list of effects, in order.
pub mod Round
pub mod Answers
pub mod Report
use nf_nms.Common.{
  ℕ, suc, ◌+◌, ◌-◌, ◌*◌, ◌/◌, List, [], ◌∷◌, ◌++◌, Option, none, some, Bool, true, false, ◌||◌, not,
  if◌then◌else◌, ltb, leb, ◌==◌, map,
}
use nf_nms.Ipc.Protocol.Daemon.{IpcDaemon, daemon_eq}
use nf_nms.Ipc.Protocol.Cmd.{IpcCmd}
use nf_nms.Ipc.Protocol.Flag.{IpcFlag, to_flag}
use nf_nms.Ipc.Message.{IpcMessage, build, set_payload}

pub record DaemonEntry : Type 0 where
  pub pending : Bool
  pub alive : Bool
  pub latency_ms : Option ℕ
  pub sent_at : ℕ

abbrev pub DaemonMap : Type 0
DaemonMap = List (IpcDaemon × DaemonEntry)

pub record HeartbeatService : Type 0 where
  pub daemon_map : DaemonMap
  pub last_poll_at : ℕ
  pub round_started_at : ℕ
  pub round_active : Bool
  pub pending_count : ℕ

pub data HeartbeatEvent : Type 0 where
  send_heartbeat_requests send_heartbeat_result : HeartbeatEvent
  receive_heartbeat_response : Option IpcMessage → HeartbeatEvent

-- One entry of the report.
pub data Status : Type 0 where
  up : Option ℕ → Status
  down : Status

pub data Effect : Type 0 where
  request_posted : IpcDaemon → Effect
  report_posted : List (IpcDaemon × Status) → Effect
  result_due : Effect

abbrev pub targets : List IpcDaemon
targets =
    IpcDaemon.authd ∷ IpcDaemon.probed ∷ IpcDaemon.collectord ∷ IpcDaemon.topologyd
    ∷ IpcDaemon.mgmtd ∷ IpcDaemon.apid ∷ []

abbrev pub idle_entry : DaemonEntry
idle_entry = record { pending = false; alive = false; latency_ms = none; sent_at = 0 }

-- The object before `start`, and after.
abbrev pub created : HeartbeatService
created = record {
  daemon_map = [];
  last_poll_at = 0;
  round_started_at = 0;
  round_active = false;
  pending_count = 0;
}

unfoldable pub start : HeartbeatService
start = record created { daemon_map = map (λ (d : IpcDaemon). (d, idle_entry)) targets }

unfoldable pub find : DaemonMap → IpcDaemon → Option DaemonEntry
find [] daemon = none
find ((k, entry) ∷ rest) daemon = if daemon_eq k daemon then some entry else find rest daemon

-- `markTimeoutsAsDead`
pub mark_timeouts_as_dead : DaemonMap → DaemonMap
mark_timeouts_as_dead [] = []
mark_timeouts_as_dead ((k, entry) ∷ rest) =
    (
      k,
      if entry.pending
          then record entry { pending = false; alive = false; latency_ms = none }
          else entry,
    )
    ∷ mark_timeouts_as_dead rest

-- `schedule`, with the two durations of the configuration.
pub schedule :
    (poll_interval response_timeout now : ℕ)
    → HeartbeatService
    → HeartbeatService × Option HeartbeatEvent
schedule poll_interval response_timeout now s =
    if s.round_active
    then (if leb response_timeout (now - s.round_started_at)
        then (
          record s {
            daemon_map = mark_timeouts_as_dead s.daemon_map;
            round_active = false;
            pending_count = 0;
          },
          some send_heartbeat_result,
        )
        else (s, none))
    else if s.last_poll_at == 0 || leb poll_interval (now - s.last_poll_at)
    then (record s { last_poll_at = now }, some send_heartbeat_requests)
    else (s, none)

-- The loop of SendHeartbeatRequests: the entries, the count and the actions.
unfoldable pub ask : ℕ → DaemonMap → DaemonMap × ℕ × List Effect
ask now [] = ([], 0, [])
ask now ((k, entry) ∷ rest) =
    let (asked, count, posted) = ask now rest in
    (
      (k, record { pending = true; alive = false; latency_ms = none; sent_at = now }) ∷ asked,
      suc count,
      request_posted k ∷ posted,
    )

unfoldable pub begin_round : ℕ → HeartbeatService → HeartbeatService × List Effect
begin_round now s =
    let (asked, count, posted) = ask now s.daemon_map in
    (
      record s {
        daemon_map = asked;
        round_started_at = now;
        round_active = true;
        pending_count = count;
      },
      posted,
    )

-- The entry of a daemon that has answered, written through the iterator.
pub settle : ℕ → DaemonMap → IpcDaemon → DaemonMap
settle now [] daemon = []
settle now ((k, entry) ∷ rest) daemon =
    if daemon_eq k daemon
    then (
      k,
      record entry {
        pending = false;
        alive = true;
        latency_ms = some ((now - entry.sent_at) / 1000000);
      },
    )
      ∷ rest
    else (k, entry) ∷ settle now rest daemon

-- The end of `onHeartbeatResponse`.
pub counted_down : HeartbeatService → HeartbeatService × List Effect
counted_down s =
    if s.pending_count == 0
    then (record s { round_active = false; pending_count = 0 }, result_due ∷ [])
    else (s, [])

pub on_heartbeat_response : ℕ → IpcDaemon → HeartbeatService → HeartbeatService × List Effect
on_heartbeat_response now src s = elim (find s.daemon_map src) [
  | none ↦ (s, [])
  | some entry ↦
      if entry.pending
      then counted_down (record s {
        daemon_map = settle now s.daemon_map src;
        pending_count = s.pending_count - 1;
      })
      else (s, [])
]

-- The order of the report.
abbrev pub report_order : List IpcDaemon
report_order = IpcDaemon.ipcd ∷ IpcDaemon.engined ∷ targets

abbrev pub self_reported : IpcDaemon → Bool
self_reported d = daemon_eq d IpcDaemon.ipcd || daemon_eq d IpcDaemon.engined

pub status_of : DaemonMap → IpcDaemon → Status
status_of entries d = if self_reported d then up (some 0) else elim (find entries d) [
  | none ↦ down
  | some entry ↦ if entry.alive then up entry.latency_ms else down
]

-- `buildResultJson`, before it is written as text.
pub build_result : DaemonMap → List (IpcDaemon × Status)
build_result entries = map (λ (d : IpcDaemon). (d, status_of entries d)) report_order

-- `handleEvent` at a time.
unfoldable pub handle_event : ℕ → HeartbeatEvent → HeartbeatService → HeartbeatService × List Effect
handle_event now send_heartbeat_requests s = begin_round now s
handle_event now (receive_heartbeat_response none) s = (s, [])
handle_event now (receive_heartbeat_response (some m)) s = on_heartbeat_response now m.header.src s
handle_event now send_heartbeat_result s = (s, report_posted (build_result s.daemon_map) ∷ [])

-- `handleAction`: the messages that go to the router. `dump` writes the report as JSON with the
-- time of day.
pub handle_action : (List (IpcDaemon × Status) → List ℕ) → Effect → Option IpcMessage
handle_action dump (request_posted daemon) = some (record {
  header = build IpcDaemon.engined daemon IpcCmd.heartbeat_request 0 (to_flag IpcFlag.request);
  payload = [];
})
handle_action dump (report_posted report) = some (record {
  header =
      build IpcDaemon.engined IpcDaemon.mgmtd IpcCmd.heartbeat_result 0 (to_flag IpcFlag.request);
  payload = dump report;
})
handle_action dump result_due = none
