-- ===== src/Mgmtd/Bootstrap/Outcome.antt =====
-- engined and mgmtd together: what engined answers to a reload is the outcome that mgmtd shows.
use Prim.Native.String.{String}
use nf_nms.Common.{
  ℕ, List, [], ◌∷◌, ◌≡◌, ◌⊎◌, inl, inr, refl, ap, Option, none, some, Bool, true, false,
  if◌then◌else◌, if_cases, not, length, ◌==◌,
}
use nf_nms.Ipc.Protocol.Flag.{IpcFlag, to_flag, or_flag, has_flag}
use nf_nms.Ipc.Message.{IpcMessage, build}
use nf_nms.Ipc.Codec.{Endian, DecodeResult, encode, decode}
use nf_nms.Ipc.Codec.RoundTrip.{IsSendable, decode-encode}
use nf_nms.Engined.Bootstrap.{build_settings_commit_response}
use nf_nms.Mgmtd.Bootstrap.{
  Reload, complete, reload_failed, BootstrapService, receive_settings_commit_response, Effect,
  config_cache_invalidated, ai_config_pushed, complete_reload, fail_reload, outcome,
  on_settings_commit_response, handle_event,
}

module _ (name : String → List ℕ) (ok_of : List ℕ → Option Bool) (start_text : ℕ → List ℕ)
    (response_text : Bool → ℕ → List ℕ) where
  abbrev answer : Bool → ℕ → IpcMessage
  answer ok version = build_settings_commit_response name start_text response_text ok version

  answer_flag :
      (ok : Bool) (version : ℕ) → not (has_flag (answer ok version).header.flags IpcFlag.error) ≡ ok
  unfolding build_settings_commit_response build has_flag to_flag or_flag
  answer_flag true version = refl
  answer_flag false version = refl

  outcome-answer :
      (ok : Bool) (version : ℕ)
      → (ok_of (answer ok version).payload ≡ some ok) ⊎ (ok_of (answer ok version).payload ≡ none)
      → outcome name ok_of (answer ok version) ≡ ok
  unfolding outcome
  outcome-answer ok version h =
      if_cases (λ b. b ≡ ok) (length (answer ok version).payload == 0) (λ _. answer_flag ok version)
        (λ _. elim h [ inl e ↦ rw e | inr e ↦ rw e (answer_flag ok version) ])

  told :
      (ok : Bool) (m : IpcMessage) (r : Reload)
      → outcome name ok_of m ≡ ok
      → on_settings_commit_response name ok_of m r ≡ (
        record r { reload_status = if ok then complete else reload_failed },
        config_cache_invalidated ∷ ai_config_pushed ∷ [],
      )
  unfolding on_settings_commit_response complete_reload fail_reload
  told true m r h = rw h
  told false m r h = rw h

  -- The answer that engined sends at the end of a reload, converged or not, is decoded by mgmtd's
  -- host of any byte order to the same message, and the reload status becomes the outcome that was
  -- sent, whether the JSON text says it or is lost; the configuration is read anew and pushed to
  -- the assistant either way, and the bootstrap state does not change.
  pub reload_outcome :
      (e host : Endian) (ok : Bool) (version : ℕ) (r : Reload) (s : BootstrapService)
      → IsSendable (build_settings_commit_response name start_text response_text ok version)
      → let m = build_settings_commit_response name start_text response_text ok version in
        ((ok_of m.payload ≡ some ok) ⊎ (ok_of m.payload ≡ none))
        → (decode host (some (encode e (some m))) ≡ (DecodeResult.ok, some m))
          × (handle_event name ok_of (receive_settings_commit_response (some m)) r s ≡ (
            record r { reload_status = if ok then complete else reload_failed },
            s,
            config_cache_invalidated ∷ ai_config_pushed ∷ [],
          ))
  unfolding handle_event
  reload_outcome e host ok version r s sendable h = (
    decode-encode e host sendable,
    ap (λ (x : Reload × List Effect). (x.0, s, x.1))
        (told ok (answer ok version) r (outcome-answer ok version h)),
  )
