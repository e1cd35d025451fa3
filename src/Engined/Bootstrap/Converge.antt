-- ===== src/Engined/Bootstrap/Converge.antt =====
-- RuntimeStart and the version that the daemons run.
use Prim.Native.String.{String}
use nf_nms.Common.{
  ℕ, ◌≤◌, List, [], ◌∷◌, ◌≡◌, ◌⊎◌, inl, inr, refl, Option, Bool, true, false, ◌&&◌, if_cases, arith,
  ◌≢◌,
}
use nf_nms.Ipc.Message.{IpcMessage}
use nf_nms.Engined.Bootstrap.{
  State, reconcile, init, wait_handshake, ProcessMap, BootstrapService, runtime_start, Effect,
  action_posted, Item, all_ready, is_all_process_ready, any_unblessed, bless, update_process_map,
  judged, on_sync_response, started, handle_action, sent, build_runtime_start,
  build_settings_commit_response, reload_complete_posted,
}

-- Every process is connected and runs the target version or a later one.
abbrev pub Converged : ℕ → ProcessMap → Type 0
Converged target [] = Unit {0}
Converged target ((k, ps) ∷ rest) =
    (ps.connected ≡ true) × (target ≤ ps.applied_version) × Converged target rest

all_ready-Converged : (target : ℕ) (m : ProcessMap) → all_ready target m ≡ true → Converged target m
unfolding all_ready
all_ready-Converged target [] h = tt
all_ready-Converged target ((k, ps) ∷ rest) h =
    (ground (arith, h), ground (arith, h), all_ready-Converged target rest (ground (arith, h)))

ready-Converged :
    (target : ℕ) (m : ProcessMap)
    → is_all_process_ready target m ≡ true
    → (m ≢ []) × Converged target m
unfolding is_all_process_ready
ready-Converged target [] h = absurd (cc (h))
ready-Converged target (p ∷ rest) h =
    (λ e. absurd (cc (e)), all_ready-Converged target (p ∷ rest) h)

blessed :
    (target : ℕ) (m : ProcessMap) → Converged target m → any_unblessed (bless target m) ≡ false
unfolding any_unblessed bless
blessed target [] c = refl
blessed target ((k, ps) ∷ rest) c = ground (arith, c.0, c.1, blessed target rest c.2)

module _ (parse : List ℕ → Option (List Item)) where
  judged-Converged :
      (s : BootstrapService) (r : Bool × ProcessMap)
      → let (s', effects) = judged parse s r in
        (effects ≡ [])
        ⊎ ((effects ≡ action_posted runtime_start ∷ [])
            × (s'.process_map ≢ [])
            × Converged s'.target_version s'.process_map
            × (any_unblessed s'.process_map ≡ true))
  unfolding judged
  judged-Converged s (read, m) =
      if_cases Outcome (read && (is_all_process_ready s.target_version m && any_unblessed m))
        (λ h.
          let c = ready-Converged s.target_version m (ground (arith, h)) in
          inr (refl, c.0, c.1, ground (arith, h)))
        (λ _. inl refl)
    where
      Outcome : BootstrapService × List Effect → Type 0
      Outcome (s', effects) =
          (effects ≡ [])
          ⊎ ((effects ≡ action_posted runtime_start ∷ [])
              × (s'.process_map ≢ [])
              × Converged s'.target_version s'.process_map
              × (any_unblessed s'.process_map ≡ true))

  -- Whatever a SyncResponse carries, RuntimeStart is posted only if, by the map as the response
  -- leaves it, every process is connected and runs the target version or a later one, at least one
  -- of them in a generation that has not been started yet. There is at least one process, and
  -- nothing else is ever posted.
  pub on_sync_response-Converged :
      (state : State) (s : BootstrapService) (m : IpcMessage)
      → let (s', effects) = on_sync_response parse state s m in
        (effects ≡ [])
        ⊎ ((effects ≡ action_posted runtime_start ∷ [])
            × (s'.process_map ≢ [])
            × Converged s'.target_version s'.process_map
            × (any_unblessed s'.process_map ≡ true))
  unfolding on_sync_response
  on_sync_response-Converged reconcile s m =
      judged-Converged s (update_process_map parse s.process_map m.payload)
  on_sync_response-Converged init s m = inl refl
  on_sync_response-Converged wait_handshake s m = inl refl

module _ (name : String → List ℕ) (start_text : ℕ → List ℕ)
    (response_text : Bool → ℕ → List ℕ) where
  -- Once RuntimeStart has been handled and every process had converged, none of them is left in a
  -- generation that has not been started, the system counts as bootstrapped and no reload is under
  -- way. The success of a reload is answered and reported to the commit queue if there was one,
  -- and not otherwise.
  pub runtime_start_blesses :
      (state : State) (s : BootstrapService)
      → Converged s.target_version s.process_map
      → let (s', effects) = handle_action name start_text response_text runtime_start state s in
        (any_unblessed s'.process_map ≡ false)
        × (s'.bootstrapped ≡ true)
        × (s'.is_reload ≡ false)
        × (((s.is_reload ≡ true)
              × (effects
                  ≡ sent (build_runtime_start name start_text response_text s.target_version)
                    ∷ sent (
                        build_settings_commit_response name start_text response_text true
                          s.target_version)
                    ∷ reload_complete_posted
                    ∷ []))
            ⊎ ((s.is_reload ≡ false)
                × (effects
                    ≡ sent (build_runtime_start name start_text response_text s.target_version)
                      ∷ [])))
  unfolding handle_action started
  runtime_start_blesses state s c = ground (arith, blessed s.target_version s.process_map c)
