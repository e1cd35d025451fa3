-- ===== src/Probed/Sweep/Runs.antt =====
-- Runs of the sweep: which requests have been sent, and which replies count.
use Prim.Native.String.{String}
use nf_nms.Common.{
  ℕ, ◌+◌, ◌-◌, ◌≤◌, ◌≡◌, ◌⊎◌, inl, inr, refl, sym, ap, subst, ◌∙◌, List, [], ◌∷◌, ◌++◌, map,
  append-nil, Option, none, some, true, length, get_elem?, set, take, drop, arith, if_cases,
  Bool-cases, Option-cases, length-map, take-add, take-min, leb→le, ◌==◌, not, ℕ_discrete, leb,
  ◌&&◌, get_elem?-set_self, get_elem?-set_ne, length-set,
}
use mathlib.Core.Option.{some-injective}
use nf_nms.Probed.Icmp.{IcmpPacket}
use nf_nms.Probed.Sweep.{
  State, init, idle, sending, waiting_replies, ProbeTarget, IcmpService, IcmpEvent, start_probe,
  send_probe_batch, probe_completed, echo_reply, IcmpAction, begin_probe, send_batch,
  send_probe_result, Effect, Timing, start, all_probe_sent, schedule_sending, schedule, collect,
  numbered, find, begin_probe_session, request, send_probe_batch_at, settle_reply, accept_reply,
  can_accept_reply, on_echo_reply, complete_probe_session, handle_event, begun, handle_action,
}
use nf_nms.Probed.Sweep.Session.{map-set, numbered_lem, indexed_lem, send_loop_lem, get_elem?-lt}

-- A reply of the address with the sweep's identifier and the number has come.
abbrev pub Answered : ℕ → String → ℕ → List (String × IcmpPacket) → Type 0
Answered identifier ip sequence [] = ⊥
Answered identifier ip sequence ((src_ip, packet) ∷ heard) =
    ((src_ip ≡ ip) × (packet.header.identifier ≡ identifier) × (packet.header.sequence ≡ sequence))
    ⊎ Answered identifier ip sequence heard

-- What the session has sent and heard after an action that sends `out`: a new session has neither.
abbrev pub sent_after : IcmpAction → State → List Effect → List Effect → List Effect
sent_after begin_probe sending sent out = sent
sent_after begin_probe waiting_replies sent out = sent
sent_after begin_probe _ sent out = []
sent_after send_batch k sent out = sent ++ out
sent_after send_probe_result k sent out = sent

abbrev pub heard_after :
    IcmpAction → State → List (String × IcmpPacket) → List (String × IcmpPacket)
heard_after begin_probe sending heard = heard
heard_after begin_probe waiting_replies heard = heard
heard_after begin_probe _ heard = []
heard_after send_batch k heard = heard
heard_after send_probe_result k heard = heard

abbrev pub heard_with : IcmpEvent → List (String × IcmpPacket) → List (String × IcmpPacket)
heard_with start_probe heard = heard
heard_with send_probe_batch heard = heard
heard_with probe_completed heard = heard
heard_with (echo_reply ip none) heard = heard
heard_with (echo_reply ip (some packet)) heard = (ip, packet) ∷ heard

-- The runs of the service: polls, events and actions in any order, at any times and under any
-- configuration, with what the session has sent and heard.
pub data Run : List Effect → List (String × IcmpPacket) → IcmpService → Type 0 where
  started : (excluded : List String) → Run [] [] (start excluded)
  polled :
      {sent : List Effect} {heard : List (String × IcmpPacket)} {s : IcmpService} (t : Timing)
      (now : ℕ)
      → Run sent heard s
      → Run sent heard (schedule t now s.state s).0
  handled :
      {sent : List Effect} {heard : List (String × IcmpPacket)} {s : IcmpService} (now : ℕ)
      (event : IcmpEvent)
      → Run sent heard s
      → Run sent (heard_with event heard) (handle_event now event s).0
  acted :
      {sent : List Effect} {heard : List (String × IcmpPacket)} {s : IcmpService} (t : Timing)
      (now pid : ℕ) (explicit : List String) (action : IcmpAction)
      → Run sent heard s
      → Run
          (sent_after action s.state sent (handle_action t now pid explicit action s.state s).1)
          (heard_after action s.state heard)
          (handle_action t now pid explicit action s.state s).0

pub record IsSwept (sent : List Effect) (heard : List (String × IcmpPacket)) (s : IcmpService)
    : Type 0 where
  pub in_targets : s.next_send_index ≤ length s.targets
  pub sent_first : sent ≡ take s.next_send_index (map (request s.identifier) s.targets)
  pub index_found :
      (ip : String) (i : ℕ)
      → find ip s.target_index_by_ip ≡ some i
      → (t : ProbeTarget) × (get_elem? s.targets i ≡ some t) × (t.ip ≡ ip)
  pub alive_earned :
      (i : ℕ) (t : ProbeTarget)
      → get_elem? s.targets i ≡ some t
      → t.alive ≡ true
      → Answered s.identifier t.ip t.sequence heard
  pub all_sent : s.state ≡ waiting_replies → length s.targets ≤ s.next_send_index

start-IsSwept : (excluded : List String) → IsSwept [] [] (start excluded)
unfolding start find
start-IsSwept excluded = record {
  in_targets = omega arith;
  sent_first = refl;
  index_found = λ ip i h. absurd (ground (arith, h));
  alive_earned = λ i t h a. absurd (ground (arith, h));
  all_sent = λ e. omega arith;
}

schedule_sending-IsSwept :
    (t : Timing) (now : ℕ) (s : IcmpService) (sent : List Effect)
    (heard : List (String × IcmpPacket))
    → IsSwept sent heard s
    → IsSwept sent heard (schedule_sending t now s).0
unfolding schedule_sending all_probe_sent
schedule_sending-IsSwept t now s sent heard w =
    if_cases (λ (r : IcmpService × Option IcmpEvent). IsSwept sent heard r.0)
      (not (all_probe_sent s) && leb t.batch_interval (now - s.last_batch_sent_at)) (λ _. w)
      (λ _.
        if_cases (λ (r : IcmpService × Option IcmpEvent). IsSwept sent heard r.0) (all_probe_sent s)
          (λ h. record {
            in_targets = w.in_targets;
            sent_first = w.sent_first;
            index_found = w.index_found;
            alive_earned = w.alive_earned;
            all_sent = λ e. leb→le (length s.targets) s.next_send_index h;
          })
          (λ _. w))

schedule-IsSwept :
    (t : Timing) (now : ℕ) (k : State) (s : IcmpService) (sent : List Effect)
    (heard : List (String × IcmpPacket))
    → IsSwept sent heard s
    → IsSwept sent heard (schedule t now k s).0
unfolding schedule
schedule-IsSwept t now init s sent heard w = w
schedule-IsSwept t now idle s sent heard w = w
schedule-IsSwept t now sending s sent heard w = schedule_sending-IsSwept t now s sent heard w
schedule-IsSwept t now waiting_replies s sent heard w = w

complete-IsSwept :
    (now : ℕ) (k : State) (s : IcmpService) (sent : List Effect)
    (heard : List (String × IcmpPacket))
    → IsSwept sent heard s
    → IsSwept sent heard (complete_probe_session now k s)
unfolding complete_probe_session
complete-IsSwept now waiting_replies s sent heard w = record {
  in_targets = w.in_targets;
  sent_first = w.sent_first;
  index_found = w.index_found;
  alive_earned = w.alive_earned;
  all_sent = λ e. absurd (ground (arith, e));
}
complete-IsSwept now init s sent heard w = w
complete-IsSwept now idle s sent heard w = w
complete-IsSwept now sending s sent heard w = w

-- Hearing more takes nothing away.
heard_more :
    (s : IcmpService) (sent : List Effect) (heard : List (String × IcmpPacket))
    (x : String × IcmpPacket)
    → IsSwept sent heard s
    → IsSwept sent (x ∷ heard) s
heard_more s sent heard x w = record {
  in_targets = w.in_targets;
  sent_first = w.sent_first;
  index_found = w.index_found;
  alive_earned = λ i t h a. inr (w.alive_earned i t h a);
  all_sent = w.all_sent;
}

-- What an entry is after a target was marked: that target, or as it was.
get_marked :
    (ts : List ProbeTarget) (i j : ℕ) (t v : ProbeTarget)
    → get_elem? ts i ≡ some t
    → get_elem? (set ts i (record t { alive = true })) j ≡ some v
    → ((i ≡ j) × (record t { alive = true } ≡ v)) ⊎ (get_elem? ts j ≡ some v)
get_marked ts i j t v h g = elim (ℕ_discrete i j) [
  | yes e ↦
      let m = get_elem?-set_self ts i (record t { alive = true }) (get_elem?-lt ts i t h) in
      inl (
        e,
        some-injective (record t { alive = true }) v
            (sym m ∙ ap (get_elem? (set ts i (record t { alive = true }))) e ∙ g),
      )
  | no n ↦ inr (sym (get_elem?-set_ne ts (record t { alive = true }) n) ∙ g)
]

kept_ip :
    (ts : List ProbeTarget) (i j : ℕ) (t u : ProbeTarget)
    → get_elem? ts i ≡ some t
    → get_elem? ts j ≡ some u
    → (v : ProbeTarget) × (get_elem? (set ts i (record t { alive = true })) j ≡ some v)
      × (v.ip ≡ u.ip)
kept_ip ts i j t u h g = elim (ℕ_discrete i j) [
  | yes e ↦
      let m = get_elem?-set_self ts i (record t { alive = true }) (get_elem?-lt ts i t h) in
      let same = some-injective t u (sym h ∙ ap (get_elem? ts) e ∙ g) in
      (
        record t { alive = true },
        ap (get_elem? (set ts i (record t { alive = true }))) (sym e) ∙ m,
        ap (λ (x : ProbeTarget). x.ip) same,
      )
  | no n ↦ (u, get_elem?-set_ne ts (record t { alive = true }) n ∙ g, refl)
]

marked-IsSwept :
    (now : ℕ) (i : ℕ) (ip : String) (packet : IcmpPacket) (t : ProbeTarget) (s : IcmpService)
    (sent : List Effect) (heard : List (String × IcmpPacket))
    → get_elem? s.targets i ≡ some t
    → t.ip ≡ ip
    → packet.header.identifier ≡ s.identifier
    → packet.header.sequence ≡ t.sequence
    → IsSwept sent heard s
    → IsSwept sent
        ((ip, packet) ∷ heard)
        (record s { last_reply_at = now; targets = set s.targets i (record t { alive = true }) })
unfolding request
marked-IsSwept now i ip packet t s sent heard h named p q w =
    let l = length-set s.targets i (record t { alive = true }) in
    record {
      in_targets = omega (arith, w.in_targets);
      sent_first =
          w.sent_first
          ∙ ap (take s.next_send_index) (
              sym
                (map-set (request s.identifier) s.targets i t (record t { alive = true }) h refl));
      index_found = λ ip' j f.
          let (u, g, e) = w.index_found ip' j f in
          let (v, k, r) = kept_ip s.targets i j t u h g in (v, k, r ∙ e);
      alive_earned = λ j v g a. elim (get_marked s.targets i j t v h g) [
        | inl (e, r) ↦ inl (
          sym named ∙ ap (λ (x : ProbeTarget). x.ip) r,
          p,
          q ∙ ap (λ (x : ProbeTarget). x.sequence) r,
        )
        | inr old ↦ inr (w.alive_earned j v old a)
      ];
      all_sent = λ e. omega (arith, w.all_sent e);
    }

stamped :
    (now : ℕ) (s : IcmpService) (sent : List Effect) (heard : List (String × IcmpPacket))
    → IsSwept sent heard s
    → IsSwept sent heard (record s { last_reply_at = now })
stamped now s sent heard w = record {
  in_targets = w.in_targets;
  sent_first = w.sent_first;
  index_found = w.index_found;
  alive_earned = w.alive_earned;
  all_sent = w.all_sent;
}

settle-IsSwept :
    (now i : ℕ) (ip : String) (packet : IcmpPacket) (t : ProbeTarget) (s : IcmpService)
    (sent : List Effect) (heard : List (String × IcmpPacket))
    → get_elem? s.targets i ≡ some t
    → t.ip ≡ ip
    → IsSwept sent heard s
    → IsSwept sent ((ip, packet) ∷ heard) (settle_reply now i packet s (some t))
unfolding settle_reply
settle-IsSwept now i ip packet t s sent heard h named w =
    if_cases (IsSwept sent ((ip, packet) ∷ heard)) (not (packet.header.identifier == s.identifier))
      (λ _. heard_more s sent heard (ip, packet) w)
      (λ p.
        if_cases (IsSwept sent ((ip, packet) ∷ heard)) (not (packet.header.sequence == t.sequence))
          (λ _. heard_more s sent heard (ip, packet) w)
          (λ q. elim (Bool-cases t.alive) [
            | inl a ↦ rw a (
                heard_more (record s { last_reply_at = now }) sent heard (ip, packet)
                  (stamped now s sent heard w))
            | inr a ↦ rw a (
                marked-IsSwept now i ip packet t s sent heard h named (ground (arith, p))
                  (ground (arith, q)) w)
          ]))

reply-IsSwept :
    (now : ℕ) (ip : String) (packet : Option IcmpPacket) (s : IcmpService) (sent : List Effect)
    (heard : List (String × IcmpPacket))
    → IsSwept sent heard s
    → IsSwept sent (heard_with (echo_reply ip packet) heard) (on_echo_reply now ip packet s)
unfolding on_echo_reply accept_reply
reply-IsSwept now ip none s sent heard w = elim (Option-cases (find ip s.target_index_by_ip)) [
  | inl e ↦ rw e w
  | inr (i, e) ↦ rw e w
]
reply-IsSwept now ip (some packet) s sent heard w =
    elim (Option-cases (find ip s.target_index_by_ip)) [
      | inl e ↦ rw e (heard_more s sent heard (ip, packet) w)
      | inr (i, e) ↦
          let (t, g, named) = w.index_found ip i e in
          rw (e, g)
            (if_cases (IsSwept sent ((ip, packet) ∷ heard)) (can_accept_reply s.state)
              (λ _. settle-IsSwept now i ip packet t s sent heard g named w)
              (λ _. heard_more s sent heard (ip, packet) w))
    ]

event-IsSwept :
    (now : ℕ) (event : IcmpEvent) (s : IcmpService) (sent : List Effect)
    (heard : List (String × IcmpPacket))
    → IsSwept sent heard s
    → IsSwept sent (heard_with event heard) (handle_event now event s).0
unfolding handle_event
event-IsSwept now start_probe s sent heard w = w
event-IsSwept now send_probe_batch s sent heard w = w
event-IsSwept now probe_completed s sent heard w = complete-IsSwept now s.state s sent heard w
event-IsSwept now (echo_reply ip packet) s sent heard w = reply-IsSwept now ip packet s sent heard w

begun_lem : (targets : List ProbeTarget) (s : IcmpService) → (begun targets s).0 ≡ s
unfolding begun
begun_lem [] s = refl
begun_lem (target ∷ targets) s = refl

begin-IsSwept :
    (t : Timing) (now pid : ℕ) (explicit : List String) (s : IcmpService)
    → IsSwept [] [] (begin_probe_session t now pid explicit s)
unfolding begin_probe_session find
begin-IsSwept t now pid [] s = record {
  in_targets = omega arith;
  sent_first = refl;
  index_found = λ ip i h. absurd (ground (arith, h));
  alive_earned = λ i t h a. absurd (ground (arith, h));
  all_sent = λ e. omega arith;
}
begin-IsSwept t now pid (e ∷ es) s =
    let ips = collect s.local_ips [] (e ∷ es) in
    record {
      in_targets = omega arith;
      sent_first = refl;
      index_found = λ ip i h.
          let (j, e, (t, g, named)) = indexed_lem 0 ips ip i h in
          let same : i ≡ j = omega arith in (t, ap (get_elem? (numbered 0 ips)) same ∙ g, named);
      alive_earned = λ i t h a. absurd (ground (arith, a, (numbered_lem 0 ips i t h).1));
      all_sent = λ e. absurd (ground (arith, e));
    }

batch-IsSwept :
    (t : Timing) (now : ℕ) (s : IcmpService) (sent : List Effect)
    (heard : List (String × IcmpPacket))
    → IsSwept sent heard s
    → IsSwept (sent ++ (send_probe_batch_at t now s).1) heard (send_probe_batch_at t now s).0
unfolding send_probe_batch_at
batch-IsSwept t now s sent heard w =
    let (r, o) = send_loop_lem t.batch_size s w.in_targets in
    let requests = map (request s.identifier) s.targets in
    rw (r, o)
      (record {
        in_targets = omega arith;
        sent_first =
            ap (λ l. l ++ take t.batch_size (drop s.next_send_index requests)) w.sent_first
            ∙ sym (take-add s.next_send_index t.batch_size requests)
            ∙ sym (
                take-min (s.next_send_index + t.batch_size) (length s.targets) requests
                  (omega (arith, length-map s.targets (request s.identifier))));
        index_found = w.index_found;
        alive_earned = w.alive_earned;
        all_sent = λ e. omega (arith, w.all_sent e);
      })

action-IsSwept :
    (t : Timing) (now pid : ℕ) (explicit : List String) (action : IcmpAction) (k : State)
    (s : IcmpService) (sent : List Effect) (heard : List (String × IcmpPacket))
    → IsSwept sent heard s
    → IsSwept
        (sent_after action k sent (handle_action t now pid explicit action k s).1)
        (heard_after action k heard)
        (handle_action t now pid explicit action k s).0
unfolding handle_action
action-IsSwept t now pid explicit begin_probe sending s sent heard w = w
action-IsSwept t now pid explicit begin_probe waiting_replies s sent heard w = w
action-IsSwept t now pid explicit begin_probe init s sent heard w =
    subst (IsSwept [] [])
      (sym (
        begun_lem (begin_probe_session t now pid explicit s).targets
          (begin_probe_session t now pid explicit s)))
      (begin-IsSwept t now pid explicit s)
action-IsSwept t now pid explicit begin_probe idle s sent heard w =
    subst (IsSwept [] [])
      (sym (
        begun_lem (begin_probe_session t now pid explicit s).targets
          (begin_probe_session t now pid explicit s)))
      (begin-IsSwept t now pid explicit s)
action-IsSwept t now pid explicit send_batch sending s sent heard w =
    batch-IsSwept t now s sent heard w
action-IsSwept t now pid explicit send_batch init s sent heard w = rw (append-nil sent) w
action-IsSwept t now pid explicit send_batch idle s sent heard w = rw (append-nil sent) w
action-IsSwept t now pid explicit send_batch waiting_replies s sent heard w = rw (append-nil sent) w
action-IsSwept t now pid explicit send_probe_result k s sent heard w = w

pub Run-IsSwept :
    (sent : List Effect) (heard : List (String × IcmpPacket)) (s : IcmpService)
    → Run sent heard s
    → IsSwept sent heard s
Run-IsSwept sent heard s (started excluded) = start-IsSwept excluded
Run-IsSwept sent heard s (polled {sent = l} {heard = h} {s = s0} t now r) =
    schedule-IsSwept t now s0.state s0 l h (Run-IsSwept l h s0 r)
Run-IsSwept sent heard s (handled {sent = l} {heard = h} {s = s0} now event r) =
    event-IsSwept now event s0 l h (Run-IsSwept l h s0 r)
Run-IsSwept sent heard s (acted {sent = l} {heard = h} {s = s0} t now pid explicit action r) =
    action-IsSwept t now pid explicit action s0.state s0 l h (Run-IsSwept l h s0 r)
