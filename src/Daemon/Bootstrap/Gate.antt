-- ===== src/Daemon/Bootstrap/Gate.antt =====
-- A daemon runs only after the handshake and the start.
use nf_nms.Common.{
  ℕ, List, [], ◌∷◌, ◌≡◌, ◌⊎◌, ◌-◌, leb, not, ◌&&◌, if_cases, sym, subst, ◌∙◌, inl, inr, refl,
  Option, none, some,
}
use nf_nms.Ipc.Message.{IpcMessage}
use nf_nms.Daemon.Bootstrap.{
  State, init, wait_server_hello, wait_runtime_start, ready, running, failed, BootstrapService,
  BootstrapEvent, send_client_hello, send_runtime_ready, receive_server_hello,
  receive_runtime_start, start, Timing, check_timeout, retry_hello, retry_ready, schedule,
  on_server_hello, on_runtime_start, handle_event,
}

-- What has been received, the latest first.
pub data Received : Type 0 where
  server_hello runtime_start : IpcMessage → Received

-- A ServerHello has been received.
abbrev pub Greeted : List Received → Type 0
Greeted [] = ⊥
Greeted (server_hello m ∷ h) = Unit {0}
Greeted (runtime_start m ∷ h) = Greeted h

-- A RuntimeStart has been received after a ServerHello.
abbrev pub Started : List Received → Type 0
Started [] = ⊥
Started (server_hello m ∷ h) = Started h
Started (runtime_start m ∷ h) = Greeted h ⊎ Started h

-- What the state says of the past.
abbrev pub Earned : State → List Received → Type 0
Earned init h = Unit {0}
Earned wait_server_hello h = Unit {0}
Earned wait_runtime_start h = Greeted h
Earned ready h = Started h
Earned running h = Started h
Earned failed h = ⊥

-- The events that carry no message.
abbrev pub IsOwn : BootstrapEvent → Type 0
IsOwn send_client_hello = Unit {0}
IsOwn send_runtime_ready = Unit {0}
IsOwn (receive_server_hello none) = Unit {0}
IsOwn (receive_server_hello (some m)) = ⊥
IsOwn (receive_runtime_start none) = Unit {0}
IsOwn (receive_runtime_start (some m)) = ⊥

-- The runs of the service: polls, messages and empty messages, in any order and at any time.
pub data Run : List Received → BootstrapService → Type 0 where
  started : (now : ℕ) → Run [] (start now)
  polled :
      {h : List Received} {s : BootstrapService} (t : Timing) (now : ℕ)
      → Run h s
      → Run h (schedule t now s.state s).0
  due :
      {h : List Received} {s : BootstrapService} (now : ℕ) (event : BootstrapEvent)
      → IsOwn event
      → Run h s
      → Run h (handle_event now event s).0
  greeted :
      {h : List Received} {s : BootstrapService} (now : ℕ) (m : IpcMessage)
      → Run h s
      → Run (server_hello m ∷ h) (handle_event now (receive_server_hello (some m)) s).0
  released :
      {h : List Received} {s : BootstrapService} (now : ℕ) (m : IpcMessage)
      → Run h s
      → Run (runtime_start m ∷ h) (handle_event now (receive_runtime_start (some m)) s).0

check_timeout-state :
    (t : Timing) (now : ℕ) (s : BootstrapService) → (check_timeout t now s).state ≡ s.state
unfolding check_timeout
check_timeout-state t now s =
    if_cases (λ (x : BootstrapService). x.state ≡ s.state)
      (leb t.bootstrap_timeout (now - s.started_at) && not s.boot_slow_warned) (λ _. refl)
      (λ _. refl)

retry_hello-state :
    (t : Timing) (now : ℕ) (s : BootstrapService) → (retry_hello t now s).0.state ≡ s.state
unfolding retry_hello
retry_hello-state t now s =
    if_cases (λ (x : BootstrapService × Option BootstrapEvent). x.0.state ≡ s.state)
      (leb t.client_hello_interval (now - s.last_client_hello_sent_at)) (λ _. refl) (λ _. refl)

retry_ready-state :
    (t : Timing) (now : ℕ) (s : BootstrapService) → (retry_ready t now s).0.state ≡ s.state
unfolding retry_ready
retry_ready-state t now s =
    if_cases (λ (x : BootstrapService × Option BootstrapEvent). x.0.state ≡ s.state)
      (leb t.runtime_ready_interval (now - s.last_runtime_ready_sent_at)) (λ _. refl) (λ _. refl)

schedule-Earned :
    (t : Timing) (now : ℕ) (h : List Received) (k : State) (s : BootstrapService)
    → s.state ≡ k
    → Earned k h
    → Earned (schedule t now k s).0.state h
unfolding schedule
schedule-Earned t now h init s q e = tt
schedule-Earned t now h wait_server_hello s q e =
    subst (λ k. Earned k h)
      (sym (retry_hello-state t now (check_timeout t now s) ∙ check_timeout-state t now s ∙ q)) e
schedule-Earned t now h wait_runtime_start s q e =
    subst (λ k. Earned k h)
      (sym (retry_ready-state t now (check_timeout t now s) ∙ check_timeout-state t now s ∙ q)) e
schedule-Earned t now h ready s q e = e
schedule-Earned t now h running s q e = subst (λ k. Earned k h) (sym q) e
schedule-Earned t now h failed s q e = elim e [ ]

-- What holds after fewer messages holds after one more.
Earned-hello :
    (h : List Received) (m : IpcMessage) (k : State) → Earned k h → Earned k (server_hello m ∷ h)
Earned-hello h m init e = tt
Earned-hello h m wait_server_hello e = tt
Earned-hello h m wait_runtime_start e = tt
Earned-hello h m ready e = e
Earned-hello h m running e = e
Earned-hello h m failed e = e

Earned-start :
    (h : List Received) (m : IpcMessage) (k : State) → Earned k h → Earned k (runtime_start m ∷ h)
Earned-start h m init e = tt
Earned-start h m wait_server_hello e = tt
Earned-start h m wait_runtime_start e = e
Earned-start h m ready e = inr e
Earned-start h m running e = inr e
Earned-start h m failed e = e

greeted-Earned :
    (now : ℕ) (m : IpcMessage) (h : List Received) (k : State) (s : BootstrapService)
    → s.state ≡ k
    → Earned k h
    → Earned (on_server_hello now k s).0.state (server_hello m ∷ h)
unfolding on_server_hello
greeted-Earned now m h wait_server_hello s q e = tt
greeted-Earned now m h init s q e = subst (λ k. Earned k (server_hello m ∷ h)) (sym q) tt
greeted-Earned now m h wait_runtime_start s q e =
    subst (λ k. Earned k (server_hello m ∷ h)) (sym q) tt
greeted-Earned now m h ready s q e = subst (λ k. Earned k (server_hello m ∷ h)) (sym q) e
greeted-Earned now m h running s q e = subst (λ k. Earned k (server_hello m ∷ h)) (sym q) e
greeted-Earned now m h failed s q e = elim e [ ]

released-Earned :
    (m : IpcMessage) (h : List Received) (k : State) (s : BootstrapService)
    → s.state ≡ k
    → Earned k h
    → Earned (on_runtime_start k s).0.state (runtime_start m ∷ h)
unfolding on_runtime_start
released-Earned m h wait_runtime_start s q e = inl e
released-Earned m h init s q e = subst (λ k. Earned k (runtime_start m ∷ h)) (sym q) tt
released-Earned m h wait_server_hello s q e = subst (λ k. Earned k (runtime_start m ∷ h)) (sym q) tt
released-Earned m h ready s q e = subst (λ k. Earned k (runtime_start m ∷ h)) (sym q) (inr e)
released-Earned m h running s q e = subst (λ k. Earned k (runtime_start m ∷ h)) (sym q) (inr e)
released-Earned m h failed s q e = elim e [ ]

due-Earned :
    (now : ℕ) (h : List Received) (event : BootstrapEvent) (s : BootstrapService)
    → IsOwn event
    → Earned s.state h
    → Earned (handle_event now event s).0.state h
unfolding handle_event
due-Earned now h send_client_hello s o e = e
due-Earned now h send_runtime_ready s o e = e
due-Earned now h (receive_server_hello none) s o e = e
due-Earned now h (receive_server_hello (some m)) s o e = elim o [ ]
due-Earned now h (receive_runtime_start none) s o e = e
due-Earned now h (receive_runtime_start (some m)) s o e = elim o [ ]

-- In every run, by polls, messages and events in any order and at any times, a daemon that waits
-- for its start has received a ServerHello, one that is ready or running has received a
-- RuntimeStart after a ServerHello, and none has failed.
pub Run-Earned : (h : List Received) (s : BootstrapService) → Run h s → Earned s.state h
unfolding handle_event start
Run-Earned [] s (started now) = tt
Run-Earned h s (polled {s = s0} t now r) =
    schedule-Earned t now h s0.state s0 refl (Run-Earned h s0 r)
Run-Earned h s (due {s = s0} now event o r) = due-Earned now h event s0 o (Run-Earned h s0 r)
Run-Earned h s (greeted {h = h0} {s = s0} now m r) =
    greeted-Earned now m h0 s0.state s0 refl (Run-Earned h0 s0 r)
Run-Earned h s (released {h = h0} {s = s0} now m r) =
    released-Earned m h0 s0.state s0 refl (Run-Earned h0 s0 r)
