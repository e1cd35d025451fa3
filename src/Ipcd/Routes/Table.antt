-- ===== src/Ipcd/Routes/Table.antt =====
-- The runtime table as a map.
use nf_nms.Common.{ℕ, [], ◌∷◌, ◌≡◌, refl, Option, none, some, true, arith, if◌then◌else◌}
use nf_nms.Ipc.Protocol.Daemon.{IpcDaemon, daemon_eq}
use nf_nms.Ipcd.Routes.{RuntimeState, RuntimeTable, find, put, unbind, remove_route}

pub find-put :
    (t : RuntimeTable) (d k : IpcDaemon) (s : RuntimeState)
    → find (put t d s) k ≡ (if daemon_eq d k then some s else find t k)
unfolding find put
find-put [] d k s = refl
find-put ((j, r) ∷ rest) d k s = ground (arith, find-put rest d k s)

-- Looking up is blind to how a daemon is spelled.
pub find-eq : (t : RuntimeTable) (d k : IpcDaemon) → daemon_eq d k ≡ true → find t d ≡ find t k
unfolding find
find-eq [] d k h = refl
find-eq ((j, r) ∷ rest) d k h = ground (arith, find-eq rest d k)

abbrev pub map_state : ℕ → Option RuntimeState → Option RuntimeState
map_state fd none = none
map_state fd (some s) = some (unbind fd s)

pub find-remove_route :
    (t : RuntimeTable) (fd : ℕ) (d : IpcDaemon)
    → find (remove_route t fd) d ≡ map_state fd (find t d)
unfolding find remove_route
find-remove_route [] fd d = refl
find-remove_route ((j, r) ∷ rest) fd d = ground (arith, find-remove_route rest fd d)
