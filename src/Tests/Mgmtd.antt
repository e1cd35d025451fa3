-- ===== src/Tests/Mgmtd.antt =====
-- mgmtd after its handshake, and the answer to a reload that did not converge.
use Prim.Native.String.{String}
use nf_nms.Common.{ℕ, List, [], ◌∷◌, ◌≡◌, inr, refl, arith, Option, false, none, some, Bool}
use nf_nms.Ipc.Protocol.Daemon.{daemon_code, daemon_of_code}
use nf_nms.Ipc.Protocol.Cmd.{cmd_code, cmd_of_code}
use nf_nms.Ipc.Protocol.Flag.{to_flag, or_flag}
use nf_nms.Ipc.Message.{IpcMessage, build}
use nf_nms.Ipc.Codec.{little, big, encode, decode, DecodeResult}
use nf_nms.Ipc.Codec.RoundTrip.{IsSendable}
use nf_nms.Engined.Bootstrap.{build_settings_commit_response}
use nf_nms.Mgmtd.Bootstrap.{
  Reload, reload_failed, no_reload, BootstrapService, Effect, receive_settings_commit_response,
  receive_server_hello, config_cache_invalidated, ai_config_pushed, start, schedule, start_reload,
  handle_event, build_client_hello,
}
use nf_nms.Mgmtd.Bootstrap.Outcome.{reload_outcome}

abbrev name : String → List ℕ
name text = 109 ∷ []

-- A library that reads no payload.
abbrev ok_of : List ℕ → Option Bool
ok_of bytes = none

abbrev start_text : ℕ → List ℕ
start_text version = version ∷ []

abbrev response_text : Bool → ℕ → List ℕ
response_text ok version = []

abbrev idle : Reload
idle = record { reload_status = no_reload; reload_started_at = 0 }

abbrev hello : IpcMessage
hello = build_client_hello name ok_of

abbrev waiting : BootstrapService
waiting = (schedule 1000 10000 5 (start 0).state (start 0)).0

abbrev answered : Reload × BootstrapService × List Effect
answered = handle_event name ok_of (receive_server_hello (some hello)) idle waiting

abbrev greeted : BootstrapService
greeted = answered.1

abbrev failure : IpcMessage
failure = build_settings_commit_response name start_text response_text false 3

failure-IsSendable : IsSendable failure
unfolding build_settings_commit_response build daemon_code daemon_of_code cmd_code cmd_of_code
    or_flag to_flag
failure-IsSendable = record {
  version_this = refl;
  src_byte = omega arith;
  src_value = refl;
  dst_byte = omega arith;
  dst_value = refl;
  flags_byte = omega arith;
  cmd_word = omega arith;
  cmd_value = refl;
  seq_no_word = omega arith;
  payload_fits = omega arith;
}

reload_outcome_example :
    let r = start_reload 40 idle in
    (decode big (some (encode little (some failure))) ≡ (DecodeResult.ok, some failure))
    × (handle_event name ok_of (receive_settings_commit_response (some failure)) r greeted ≡ (
      record r { reload_status = reload_failed },
      greeted,
      config_cache_invalidated ∷ ai_config_pushed ∷ [],
    ))
reload_outcome_example =
    reload_outcome name ok_of start_text response_text little big false 3 (start_reload 40 idle)
      greeted failure-IsSendable (inr refl)
