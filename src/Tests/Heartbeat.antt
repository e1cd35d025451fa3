-- ===== src/Tests/Heartbeat.antt =====
-- A round of heartbeats begun at 10 seconds.
use nf_nms.Common.{ℕ, ◌≡◌, refl, none, some, ◌*◌, List, [], ◌∷◌}
use nf_nms.Engined.Heartbeat.{
  HeartbeatService, Status, report_posted, find, send_heartbeat_requests, send_heartbeat_result,
  start, schedule, begin_round, handle_event,
}
use nf_nms.Ipc.Protocol.Daemon.{IpcDaemon, daemon_code}
use nf_nms.Engined.Heartbeat.Answers.{answered, first_answer}
use nf_nms.Engined.Heartbeat.Report.{status_at, said, is_among, round_reports}
use nf_nms.Engined.Heartbeat.Round.{IsCounted, started, handled, Reachable-IsCounted}

abbrev second : ℕ
second = 1000000000

abbrev asked : HeartbeatService
asked = (handle_event (10 * second) send_heartbeat_requests start).0

Reachable-IsCounted_example : IsCounted asked
Reachable-IsCounted_example =
    Reachable-IsCounted (handled (10 * second) send_heartbeat_requests started)

-- probed answers after 300 ms, and again, and mgmtd after 700 ms; the others do not.
abbrev answers : List (ℕ × IpcDaemon)
answers =
    (10300000000, IpcDaemon.probed)
    ∷ (10400000000, IpcDaemon.probed)
    ∷ (10700000000, IpcDaemon.mgmtd)
    ∷ []

round_reports_example :
    let s = answered answers (begin_round (10 * second) start).0 in
    let s' = (schedule (5 * second) (2 * second) (12 * second) s).0 in
    (report : List (IpcDaemon × Status)) × ((handle_event (13 * second) send_heartbeat_result s').1
      ≡ report_posted report ∷ [])
    × (said IpcDaemon.probed report
        ≡ some (status_at (10 * second) (first_answer IpcDaemon.probed none answers)))
unfolding start find is_among daemon_code
round_reports_example =
    round_reports (5 * second) (2 * second) (10 * second) (12 * second) (13 * second) answers start
      IpcDaemon.probed refl refl refl
