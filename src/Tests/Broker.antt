-- ===== src/Tests/Broker.antt =====
-- The broker's runtime table, with one daemon connected and one that was lost.
use nf_nms.Common.{ℕ, [], ◌∷◌, ◌≡◌, ◌≢◌, ◌⊎◌, true, false, none, some}
use nf_nms.Ipc.Protocol.Daemon.{IpcDaemon, daemon_eq}
use nf_nms.Ipcd.Routes.{RuntimeState, RuntimeTable, find, bind_route, find_route}
use nf_nms.Ipcd.Routes.Binding.{bind_route_guard}

abbrev lost : RuntimeState
lost = record { fd = none; ready = true; generation = 3; applied_version = 12 }

abbrev table : RuntimeTable
table =
    (IpcDaemon.authd, record { fd = some 5; ready = true; generation = 1; applied_version = 12 })
    ∷ (IpcDaemon.probed, lost)
    ∷ []

bind_route_guard_example :
    let (accepted, t) = bind_route table IpcDaemon.authd 6 in
    ((accepted ≡ true)
      × ((find_route table IpcDaemon.authd ≡ none) ⊎ (find_route table IpcDaemon.authd ≡ some 6))
      × (find_route t IpcDaemon.authd ≡ some 6)
      × ((k : IpcDaemon) → daemon_eq IpcDaemon.authd k ≡ false → find t k ≡ find table k))
    ⊎ ((accepted ≡ false)
        × ((other : ℕ) × (find_route table IpcDaemon.authd ≡ some other) × (other ≢ 6))
        × (t ≡ table))
bind_route_guard_example = bind_route_guard table IpcDaemon.authd 6
