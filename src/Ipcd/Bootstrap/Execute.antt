-- ===== src/Ipcd/Bootstrap/Execute.antt =====
-- The loop of the service manager ends with nothing left to do.
use Prim.Native.String.{String}
use nf_nms.Common.{
  ℕ, zero, suc, ◌+◌, ◌*◌, ◌<◌, List, [], ◌∷◌, ◌≡◌, refl, ap, sym, ◌∙◌, Option, none, some, arith,
  Bool, true, false, ◌||◌, length, length-append, subst, Option-cases, inl, inr,
}
use nf_nms.Ipc.Message.{IpcMessage}
use nf_nms.Ipc.Codec.{Endian}
use nf_nms.Ipcd.Broker.{
  Broker, BootstrapEvent, receive_client_hello, receive_sync_request, receive_runtime_ready,
  BootstrapAction, send_server_hello, send_sync_response, egress,
}
use nf_nms.Ipcd.Broker.Queues.{SameQueues, egress-SameQueues}
use nf_nms.Ipcd.Bootstrap.{
  Listed, Turn, idle, thrown, went, went_or_thrown, reported, ready_at, handle_event, handle_action,
  turn, run, execute,
}

-- What is left to do.
abbrev pub work : Broker → ℕ
work b = 2 * length b.events + length b.actions

-- How the loop ends: with both queues empty, or with an exception.
pub data Ended : (throws : Bool) → Option Broker → Type 0 where
  emptied : (b : Broker) → b.events ≡ [] → b.actions ≡ [] → Ended false (some b)
  broken : Ended true none

module _ (e : Endian) (name : String → List ℕ) (version : List ℕ → Option ℕ)
    (dump : List Listed → List ℕ) where
  -- A readiness report with a payload that the library throws on.
  unreadable : List ℕ → Bool
  unreadable [] = false
  unreadable (x ∷ payload) = elim (version (x ∷ payload)) [ none ↦ true | some applied ↦ false ]

  -- Whether such a report waits.
  pub any_unreadable : List BootstrapEvent → Bool
  any_unreadable [] = false
  any_unreadable (receive_client_hello m ∷ events) = any_unreadable events
  any_unreadable (receive_sync_request m ∷ events) = any_unreadable events
  any_unreadable (receive_runtime_ready m ∷ events) = unreadable m.payload || any_unreadable events

  data Stepped (b : Broker) : Turn → Type 0 where
    rests : b.events ≡ [] → b.actions ≡ [] → Stepped b idle
    throws : any_unreadable b.events ≡ true → Stepped b thrown
    goes :
        (b' : Broker)
        → work b' < work b
        → any_unreadable b.events ≡ any_unreadable b'.events
        → Stepped b (went b')

  same_work : {b b' : Broker} → SameQueues b b' → work b' ≡ work b
  same_work q = omega (arith, ap length q.events, ap length q.actions)

  ready-Stepped :
      (b : Broker) (m : IpcMessage) (later : List BootstrapEvent)
      → b.events ≡ receive_runtime_ready m ∷ later
      → (payload : List ℕ) → m.payload ≡ payload
      → Stepped b (
          went_or_thrown (
            ready_at e name version dump
              (record b { events = later })
              m
              (reported e name version dump payload)))
  unfolding went_or_thrown ready_at reported any_unreadable unreadable
  ready-Stepped b m later p [] q =
      goes _ (omega (arith, ap length p))
        (ap any_unreadable p ∙ ap (λ x. unreadable x || any_unreadable later) q)
  ready-Stepped b m later p (x ∷ payload) q =
      let here = ap any_unreadable p ∙ ap (λ x. unreadable x || any_unreadable later) q in
      elim (Option-cases (version (x ∷ payload))) [
        | inl n ↦ rw n (throws (here ∙ rw (n, unreadable, ◌||◌) refl))
        | inr (applied, n) ↦
            rw n (goes _ (omega (arith, ap length p)) (here ∙ rw (n, unreadable, ◌||◌) refl))
      ]

  action-Stepped :
      (b : Broker) (later : List BootstrapAction) (m : IpcMessage)
      → length b.actions ≡ suc (length later)
      → b.events ≡ []
      → Stepped b (went (egress e (record b { actions = later }) m))
  action-Stepped b later m l p =
      let same = egress-SameQueues e (record b { actions = later }) m in
      goes _ (omega (arith, same_work same, l)) (ap any_unreadable (sym same.events))

  turn-Stepped :
      (b : Broker) (es : List BootstrapEvent) (acts : List BootstrapAction)
      → b.events ≡ es
      → b.actions ≡ acts
      → Stepped b (turn e name version dump b es acts)
  unfolding turn went_or_thrown handle_event handle_action any_unreadable
  turn-Stepped b (receive_client_hello m ∷ later) acts p q =
      goes _ (omega (arith, ap length p, length-append b.actions (send_server_hello m ∷ [])))
        (ap any_unreadable p)
  turn-Stepped b (receive_sync_request m ∷ later) acts p q =
      goes _ (omega (arith, ap length p, length-append b.actions (send_sync_response m ∷ [])))
        (ap any_unreadable p)
  turn-Stepped b (receive_runtime_ready m ∷ later) acts p q =
      ready-Stepped b m later p m.payload refl
  turn-Stepped b [] (send_server_hello m ∷ later) p q = action-Stepped b later _ (ap length q) p
  turn-Stepped b [] (send_sync_response m ∷ later) p q = action-Stepped b later _ (ap length q) p
  turn-Stepped b [] [] p q = rests p q

  after_turn-Ended :
      (fuel : ℕ) (b : Broker) (t : Turn)
      → work b < suc fuel
      → ((c : Broker)
          → work c < fuel
          → Ended (any_unreadable c.events) (run e name version dump fuel c))
      → Stepped b t
      → Ended (any_unreadable b.events) (elim t as (λ _. Option Broker) [
        | idle ↦ some b
        | thrown ↦ none
        | went c ↦ run e name version dump fuel c
      ])
  unfolding any_unreadable
  after_turn-Ended fuel b idle h ih (rests p q) =
      subst (λ k. Ended k (some b)) (sym (ap any_unreadable p)) (emptied b p q)
  after_turn-Ended fuel b thrown h ih (throws k) = subst (λ k. Ended k none) (sym k) broken
  after_turn-Ended fuel b (went b') h ih (goes _ less same) =
      subst (λ k. Ended k (run e name version dump fuel b')) (sym same)
        (ih b' (omega (arith, less, h)))

  run-Ended :
      (fuel : ℕ) (b : Broker)
      → work b < fuel
      → Ended (any_unreadable b.events) (run e name version dump fuel b)
  unfolding run
  run-Ended zero b h = absurd (omega (arith, h))
  run-Ended (suc fuel) b h =
      after_turn-Ended fuel b (turn e name version dump b b.events b.actions) h
        (λ b' k. run-Ended fuel b' k) (turn-Stepped b b.events b.actions refl refl)

  -- The loop of the service manager always ends. If a readiness report waits whose version the
  -- JSON library throws on, the exception leaves the loop; else, whatever waits, the loop ends with
  -- both queues empty.
  pub execute_idle : (b : Broker) → Ended (any_unreadable b.events) (execute e name version dump b)
  unfolding execute
  execute_idle b = run-Ended (suc (work b)) b (omega arith)
