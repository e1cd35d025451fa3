-- ===== src/Ipcd/Routes.antt =====
-- ipcd/ipc/IpcServerHandler.{h,cpp}, its runtime table: which descriptor each daemon is reached
-- through, and how far the daemon has come. The unordered map is an association list, and a
-- descriptor of -1 is `none`.
pub mod Table
pub mod Binding
use nf_nms.Common.{
  ℕ, ◌+◌, ◌%◌, ◌^◌, List, [], ◌∷◌, Option, none, some, Bool, true, false, if◌then◌else◌, ltb, ◌==◌,
}
use nf_nms.Ipc.Protocol.Daemon.{IpcDaemon, daemon_eq}

pub record RuntimeState : Type 0 where
  pub fd : Option ℕ
  pub ready : Bool
  pub generation : ℕ
  pub applied_version : ℕ

abbrev pub RuntimeTable : Type 0
RuntimeTable = List (IpcDaemon × RuntimeState)

-- `m_runtimeTable.find(daemon)`
unfoldable pub find : RuntimeTable → IpcDaemon → Option RuntimeState
find [] daemon = none
find ((k, s) ∷ rest) daemon = if daemon_eq k daemon then some s else find rest daemon

-- The write through an iterator, or `emplace` where the key is missing.
pub put : RuntimeTable → IpcDaemon → RuntimeState → RuntimeTable
put [] daemon s = (daemon, s) ∷ []
put ((k, t) ∷ rest) daemon s =
    if daemon_eq k daemon then (k, s) ∷ rest else (k, t) ∷ put rest daemon s

-- `state.fd == fd`
abbrev pub leads_to : RuntimeState → ℕ → Bool
leads_to s fd = elim s.fd [ none ↦ false | some f ↦ f == fd ]

fresh : ℕ → RuntimeState
fresh fd = record { fd = some fd; ready = false; generation = 1; applied_version = 0 }

rebound : RuntimeState → ℕ → RuntimeState
rebound s fd = record {
  fd = some fd;
  ready = false;
  generation = (s.generation + 1) % 2 ^ 32;
  applied_version = 0;
}

-- `bindRoute`, by what the table holds for the daemon.
bind_found : RuntimeTable → IpcDaemon → ℕ → Option RuntimeState → Bool × RuntimeTable
unfolding fresh rebound
bind_found table daemon fd none = (true, put table daemon (fresh fd))
bind_found table daemon fd (some s) = elim s.fd [
  | none ↦ (true, put table daemon (rebound s fd))
  | some old ↦ if old == fd then (true, table) else (false, table)
]

pub bind_route : RuntimeTable → IpcDaemon → ℕ → Bool × RuntimeTable
unfolding bind_found
bind_route table daemon fd = bind_found table daemon fd (find table daemon)

unfoldable pub find_route : RuntimeTable → IpcDaemon → Option ℕ
find_route table daemon = elim (find table daemon) [ none ↦ none | some s ↦ s.fd ]

-- The body of the loop of `removeRoute`.
pub unbind : ℕ → RuntimeState → RuntimeState
unbind fd s =
    if leads_to s fd then record s { fd = none; ready = false; applied_version = 0 } else s

pub remove_route : RuntimeTable → ℕ → RuntimeTable
remove_route [] fd = []
remove_route ((k, s) ∷ rest) fd = (k, unbind fd s) ∷ remove_route rest fd

marked : RuntimeState → Bool → ℕ → RuntimeState
marked s ready version = record s {
  ready = ready;
  applied_version = if ltb 0 version then version else s.applied_version;
}

pub mark_runtime_ready : RuntimeTable → IpcDaemon → Bool → ℕ → RuntimeTable
unfolding marked
mark_runtime_ready table daemon ready version = elim (find table daemon) [
  | none ↦ table
  | some s ↦ put table daemon (marked s ready version)
]
