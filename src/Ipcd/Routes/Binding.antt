-- ===== src/Ipcd/Routes/Binding.antt =====
-- The routes: a daemon's address cannot be taken over while its connection lives, and closing a
-- connection takes every route through it away.
use nf_nms.Common.{
  ℕ, ◌+◌, ◌%◌, ◌^◌, ◌≡◌, ◌≢◌, ◌⊎◌, inl, inr, refl, none, some, Bool, true, false, arith, ◌==◌,
  Option-cases, Bool-cases, ==_iff, ap, sym, ◌∙◌,
}
use nf_nms.Ipc.Protocol.Daemon.{IpcDaemon, daemon_eq}
use nf_nms.Ipcd.Routes.{
  RuntimeState, RuntimeTable, find, put, fresh, rebound, bind_found, bind_route, find_route, unbind,
  remove_route, mark_runtime_ready, marked,
}
use nf_nms.Ipcd.Routes.Table.{find-eq, find-put, find-remove_route}

route_none : (t : RuntimeTable) (d : IpcDaemon) → find t d ≡ none → find_route t d ≡ none
unfolding find_route
route_none t d e = rw (e, find_route)

route_some :
    (t : RuntimeTable) (d : IpcDaemon) {s : RuntimeState}
    → find t d ≡ some s
    → find_route t d ≡ s.fd
unfolding find_route
route_some t d e = rw (e, find_route)

written :
    (t : RuntimeTable) (d : IpcDaemon) (fd : ℕ) (s : RuntimeState)
    → s.fd ≡ some fd
    → (find_route (put t d s) d ≡ some fd)
      × ((k : IpcDaemon) → daemon_eq d k ≡ false → find (put t d s) k ≡ find t k)
unfolding find_route
written t d fd s h = (ground (arith, find-put t d d s), λ k n. ground (arith, find-put t d k s))

-- `bindRoute` accepts a frame's sender exactly when its address is free or already leads to the
-- frame's connection. Then the address leads there and no other address has changed; otherwise the
-- table is untouched.
pub bind_route_guard :
    (t : RuntimeTable) (d : IpcDaemon) (fd : ℕ)
    → let (accepted, t') = bind_route t d fd in
      ((accepted ≡ true)
        × ((find_route t d ≡ none) ⊎ (find_route t d ≡ some fd))
        × (find_route t' d ≡ some fd)
        × ((k : IpcDaemon) → daemon_eq d k ≡ false → find t' k ≡ find t k))
      ⊎ ((accepted ≡ false)
          × ((other : ℕ) × (find_route t d ≡ some other) × (other ≢ fd))
          × (t' ≡ t))
unfolding bind_route find_route fresh rebound
bind_route_guard t d fd = elim (Option-cases (find t d)) [
  | inl e ↦
      let w = written t d fd (fresh fd) refl in rw e (inl (refl, inl (route_none t d e), w.0, w.1))
  | inr (s, e) ↦ elim (Option-cases s.fd) [
    | inl f ↦
        let w = written t d fd (rebound s fd) refl in
        rw (e, f) (inl (refl, inl (route_some t d e ∙ f), w.0, w.1))
    | inr (old, f) ↦ elim (Bool-cases (old == fd)) [
      | inl same ↦
          let r : find_route t d ≡ some fd =
            route_some t d e ∙ f ∙ ap some ((==_iff old fd).0 same) in
          rw (e, f, same) (inl (refl, inr r, r, λ k n. refl))
      | inr other ↦
          rw (e, f, other) (inr (refl, (old, route_some t d e ∙ f, λ q. ground arith), refl))
    ]
  ]
]

-- `removeRoute` frees every address that led to the closed descriptor, and those only.
pub find_route-remove_route :
    (t : RuntimeTable) (fd : ℕ) (d : IpcDaemon)
    → ((find_route t d ≡ some fd) × (find_route (remove_route t fd) d ≡ none))
      ⊎ ((find_route t d ≢ some fd) × (find (remove_route t fd) d ≡ find t d))
unfolding find_route unbind
find_route-remove_route t fd d = ground (arith, find-remove_route t fd d)

-- A route that is left after a removal led elsewhere.
pub find_route-kept :
    (t : RuntimeTable) (fd k : ℕ) (d : IpcDaemon)
    → find_route (remove_route t fd) d ≡ some k
    → (find_route t d ≡ some k) × (k ≢ fd)
unfolding find_route unbind
find_route-kept t fd k d h = ground (arith, find-remove_route t fd d)

-- After a frame's sender has been bound, each route is one from before or leads to the frame's
-- connection.
pub find_route-bind_route :
    (t : RuntimeTable) (d : IpcDaemon) (fd : ℕ) (k : IpcDaemon) (to : ℕ)
    → find_route (bind_route t d fd).1 k ≡ some to
    → (find_route t k ≡ some to) ⊎ (to ≡ fd)
unfolding find_route
find_route-bind_route t d fd k to h = elim (bind_route_guard t d fd) [
  | inl g ↦ elim (Bool-cases (daemon_eq d k)) [
    | inl same ↦ inr (ground (arith, g.2, h, find-eq (bind_route t d fd).1 d k same))
    | inr other ↦ inl (ground (arith, g.3 k other))
  ]
  | inr g ↦ inl (ap (λ x. find_route x k) (sym g.2) ∙ h)
]

-- A sender that is bound already leaves the table as it is.
pub bind_route_bound :
    (t : RuntimeTable) (d : IpcDaemon) (fd : ℕ)
    → find_route t d ≡ some fd
    → bind_route t d fd ≡ (true, t)
unfolding bind_route find_route bind_found
bind_route_bound t d fd h = elim (Option-cases (find t d)) [
  | inl e ↦ absurd (ground (arith, h, e))
  | inr (s, e) ↦ rw (e, bind_route) (bound_state s (sym (route_some t d e) ∙ h))
]
  where
    bound_state : (s : RuntimeState) → s.fd ≡ some fd → bind_found t d fd (some s) ≡ (true, t)
    bound_state s f = ground (arith, f)

-- An address that is taken again after its connection was lost starts a new generation, not ready
-- and with no version applied.
pub bind_route_again :
    (t : RuntimeTable) (d : IpcDaemon) (fd : ℕ) (s : RuntimeState)
    → find t d ≡ some s
    → s.fd ≡ none
    → find (bind_route t d fd).1 d
      ≡ some (record {
        fd = some fd;
        ready = false;
        generation = (s.generation + 1) % 2 ^ 32;
        applied_version = 0;
      })
unfolding bind_route rebound
bind_route_again t d fd s e f = ground (arith, find-put t d d (rebound s fd))

-- A readiness report moves no route: whoever sends it, every address leads where it led.
pub find_route-mark_runtime_ready :
    (t : RuntimeTable) (d k : IpcDaemon) (ready : Bool) (version : ℕ)
    → find_route (mark_runtime_ready t d ready version) k ≡ find_route t k
unfolding mark_runtime_ready marked find_route
find_route-mark_runtime_ready t d k ready version = elim (Option-cases (find t d)) [
  | inl e ↦ rw (e, mark_runtime_ready)
  | inr (s, e) ↦ ground (arith, e, find-put t d k (marked s ready version), find-eq t d k)
]
