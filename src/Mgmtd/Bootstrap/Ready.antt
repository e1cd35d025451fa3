-- ===== src/Mgmtd/Bootstrap/Ready.antt =====
-- mgmtd reports itself ready once.
use Prim.Native.String.{String}
use nf_nms.Common.{
  ℕ, ◌+◌, ◌-◌, List, [], ◌∷◌, ◌++◌, ◌≡◌, refl, sym, ap, ◌∙◌, Option, none, some, Bool, if_cases,
  leb, ltb, arith,
}
use nf_nms.Ipc.Protocol.Cmd.{IpcCmd}
use nf_nms.Ipc.Message.{IpcMessage, build}
use nf_nms.Mgmtd.Bootstrap.{
  Reload, State, init, wait_server_hello, ready, running, failed, BootstrapService, BootstrapEvent,
  send_client_hello, became_ready, receive_server_hello, receive_runtime_start,
  receive_settings_commit_response, BootstrapAction, client_hello, Effect, action_posted, sent,
  config_cache_invalidated, ai_config_pushed, start, schedule, on_server_hello,
  on_settings_commit_response, complete_reload, fail_reload, outcome, handle_event, handle_action,
  build_client_hello, build_runtime_ready,
}

abbrev by_cmd : IpcCmd → ℕ
by_cmd IpcCmd.runtime_ready = 1
by_cmd _ = 0

-- How many of the effects send a RuntimeReady.
abbrev pub reports : List Effect → ℕ
reports [] = 0
reports (sent m ∷ out) = by_cmd m.header.cmd + reports out
reports (action_posted a ∷ out) = reports out
reports (config_cache_invalidated ∷ out) = reports out
reports (ai_config_pushed ∷ out) = reports out

-- How many a service in a state has sent.
abbrev pub due : State → ℕ
due init = 0
due wait_server_hello = 0
due ready = 1
due running = 1
due failed = 0

module _ (name : String → List ℕ) (ok_of : List ℕ → Option Bool) where
  -- The runs of the service, with the number of RuntimeReady messages that it has sent.
  pub data Run : ℕ → Reload → BootstrapService → Type 0 where
    started : (r : Reload) (now : ℕ) → Run 0 r (start now)
    polled :
        {n : ℕ} {r : Reload} {s : BootstrapService} (hello_interval timeout now : ℕ)
        → Run n r s
        → Run n r (schedule hello_interval timeout now s.state s).0
    handled :
        {n : ℕ} {r : Reload} {s : BootstrapService} (event : BootstrapEvent)
        → Run n r s
        → Run
            (n + reports (handle_event name ok_of event r s).2)
            (handle_event name ok_of event r s).0
            (handle_event name ok_of event r s).1
    acted :
        {n : ℕ} {r : Reload} {s : BootstrapService} (action : BootstrapAction)
        → Run n r s
        → Run (n + reports (handle_action name ok_of action s.state)) r s

  schedule-due :
      (hello_interval timeout now : ℕ) (k : State) (s : BootstrapService)
      → s.state ≡ k
      → due (schedule hello_interval timeout now k s).0.state ≡ due k
  unfolding schedule
  schedule-due hello_interval timeout now init s q =
      if_cases (λ (x : BootstrapService × Option BootstrapEvent). due x.0.state ≡ 0)
        (ltb (now - s.started_at) timeout) (λ _. refl) (λ _. refl)
  schedule-due hello_interval timeout now wait_server_hello s q =
      if_cases (λ (x : BootstrapService × Option BootstrapEvent). due x.0.state ≡ 0)
        (ltb (now - s.started_at) timeout)
        (λ _.
          if_cases (λ (x : BootstrapService × Option BootstrapEvent). due x.0.state ≡ 0)
            (leb hello_interval (now - s.last_client_hello_sent_at)) (λ _. ap due q)
            (λ _. ap due q))
        (λ _. refl)
  schedule-due hello_interval timeout now ready s q = refl
  schedule-due hello_interval timeout now running s q = ap due q
  schedule-due hello_interval timeout now failed s q = ap due q

  hello-due :
      (k : State) (s : BootstrapService)
      → s.state ≡ k
      → due (on_server_hello name ok_of k s).0.state
        ≡ due k + reports (on_server_hello name ok_of k s).1
  unfolding on_server_hello build_runtime_ready build
  hello-due wait_server_hello s q = refl
  hello-due init s q = ap due q
  hello-due ready s q = ap due q
  hello-due running s q = ap due q
  hello-due failed s q = ap due q

  response-reports :
      (m : IpcMessage) (r : Reload) → reports (on_settings_commit_response name ok_of m r).1 ≡ 0
  unfolding on_settings_commit_response complete_reload fail_reload
  response-reports m r =
      if_cases (λ (x : Reload × List Effect). reports (x.1 ++ (ai_config_pushed ∷ [])) ≡ 0)
        (outcome name ok_of m) (λ _. refl) (λ _. refl)

  event-due :
      (event : BootstrapEvent) (r : Reload) (s : BootstrapService)
      → let (r', s', out) = handle_event name ok_of event r s in
        due s'.state ≡ due s.state + reports out
  unfolding handle_event
  event-due send_client_hello r s = omega arith
  event-due became_ready r s = omega arith
  event-due (receive_server_hello none) r s = omega arith
  event-due (receive_server_hello (some m)) r s = hello-due s.state s refl
  event-due (receive_runtime_start none) r s = omega arith
  event-due (receive_runtime_start (some m)) r s = omega arith
  event-due (receive_settings_commit_response none) r s = omega arith
  event-due (receive_settings_commit_response (some m)) r s = omega (arith, response-reports m r)

  action-reports :
      (action : BootstrapAction) (k : State) → reports (handle_action name ok_of action k) ≡ 0
  unfolding handle_action build_client_hello build
  action-reports client_hello wait_server_hello = refl
  action-reports client_hello init = refl
  action-reports client_hello ready = refl
  action-reports client_hello running = refl
  action-reports client_hello failed = refl

  -- In every run, mgmtd has sent one RuntimeReady if it is ready or running, and none before or
  -- after it has given up.
  pub Run-due : (n : ℕ) (r : Reload) (s : BootstrapService) → Run n r s → n ≡ due s.state
  unfolding start
  Run-due n r s (started r' now) = refl
  Run-due n r s (polled {s = s0} hello_interval timeout now run) =
      Run-due n r s0 run ∙ sym (schedule-due hello_interval timeout now s0.state s0 refl)
  Run-due n r s (handled {n = k} {r = r0} {s = s0} event run) =
      omega (arith, Run-due k r0 s0 run, event-due event r0 s0)
  Run-due n r s (acted {n = k} action run) =
      omega (arith, Run-due k r s run, action-reports action s.state)
