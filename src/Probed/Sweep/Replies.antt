-- ===== src/Probed/Sweep/Replies.antt =====
-- What the runs of the sweep guarantee: the requests of a session, and whose replies count.
use Prim.Native.String.{String}
use mathlib.Core.Option.{some-injective}
use nf_nms.Common.{
  if◌then◌else◌, Bool-cases, inl, inr, not, ◌==◌, ℕ, ◌≡◌, refl, sym, ap, ◌∙◌, List, [], ◌∷◌, map,
  some, true, false, get_elem?, set, take, arith, length-map, take-ge, get_elem?-set_self,
}
use nf_nms.Probed.Icmp.{IcmpPacket}
use nf_nms.Probed.Sweep.{
  idle, sending, waiting_replies, ProbeTarget, IcmpService, echo_reply, begin_probe,
  send_probe_result, Effect, action_posted, result_sent, Timing, find, request, settle_reply,
  accept_reply, can_accept_reply, on_echo_reply, handle_event, alive_ips, is_local, collect,
  begin_probe_session, begun, numbered, handle_action,
}
use nf_nms.Probed.Sweep.Session.{get_elem?-lt}
use nf_nms.Probed.Sweep.Runs.{Answered, Run, Run-IsSwept}

-- In every run, a session has sent one request to each of its first `next_send_index` targets, in
-- their order and with their numbers, and nothing else; when it waits for replies, it has sent one
-- to each target.
pub requests_in_order :
    (sent : List Effect) (heard : List (String × IcmpPacket)) (s : IcmpService)
    → Run sent heard s
    → (sent ≡ take s.next_send_index (map (request s.identifier) s.targets))
      × (s.state ≡ waiting_replies → sent ≡ map (request s.identifier) s.targets)
requests_in_order sent heard s r =
    let w = Run-IsSwept sent heard s r in
    (
      w.sent_first,
      λ e.
          w.sent_first
          ∙ take-ge s.next_send_index (map (request s.identifier) s.targets)
              (omega (arith, w.all_sent e, length-map s.targets (request s.identifier))),
    )

-- In every run, a target that counts as alive has answered in this session: a reply came from its
-- address with the session's identifier and the target's number.
pub alive_answered :
    (sent : List Effect) (heard : List (String × IcmpPacket)) (s : IcmpService) (i : ℕ)
    (target : ProbeTarget)
    → Run sent heard s
    → get_elem? s.targets i ≡ some target
    → target.alive ≡ true
    → Answered s.identifier target.ip target.sequence heard
alive_answered sent heard s i target r g a = (Run-IsSwept sent heard s r).alive_earned i target g a

reply_settles :
    (s : IcmpService) (now i : ℕ) (ip : String) (target : ProbeTarget) (packet : IcmpPacket)
    → can_accept_reply s.state ≡ true
    → find ip s.target_index_by_ip ≡ some i
    → get_elem? s.targets i ≡ some target
    → packet.header.identifier ≡ s.identifier
    → packet.header.sequence ≡ target.sequence
    → on_echo_reply now ip (some packet) s ≡ record s {
      last_reply_at = now;
      targets =
          if target.alive then s.targets else set s.targets i (record target { alive = true });
    }
unfolding on_echo_reply accept_reply settle_reply
reply_settles s now i ip target packet c f g p q =
    let p' : not (packet.header.identifier == s.identifier) ≡ false = ground (arith, p) in
    let q' : not (packet.header.sequence == target.sequence) ≡ false = ground (arith, q) in
    rw (f, c, g, p', q')

-- An alive target is as it is when it is marked.
marked_self :
    (ts : List ProbeTarget) (i : ℕ) (t : ProbeTarget)
    → get_elem? ts i ≡ some t
    → get_elem? (if t.alive then ts else set ts i (record t { alive = true })) i
      ≡ some (record t { alive = true })
marked_self ts i t g = elim (Bool-cases t.alive) [
  | inl a ↦
      ap (λ b. get_elem? (if b then ts else set ts i (record t { alive = true })) i) a
      ∙ g
      ∙ ap (λ b. some (record t { alive = b })) a
  | inr a ↦
      ap (λ b. get_elem? (if b then ts else set ts i (record t { alive = true })) i) a
      ∙ get_elem?-set_self ts i (record t { alive = true }) (get_elem?-lt ts i t g)
]

-- In every run, while a session sends or waits, a reply from the address of a target, with the
-- session's identifier and the number of the target that the address leads to, makes that target
-- alive and is taken for the last reply.
pub reply_counts :
    (sent : List Effect) (heard : List (String × IcmpPacket)) (s : IcmpService) (now i : ℕ)
    (ip : String) (target : ProbeTarget) (packet : IcmpPacket)
    → Run sent heard s
    → can_accept_reply s.state ≡ true
    → find ip s.target_index_by_ip ≡ some i
    → get_elem? s.targets i ≡ some target
    → packet.header.identifier ≡ s.identifier
    → packet.header.sequence ≡ target.sequence
    → let s' = (handle_event now (echo_reply ip (some packet)) s).0 in
      (get_elem? s'.targets i ≡ some (record target { alive = true }))
      × (s'.last_reply_at ≡ now)
      × (target.ip ≡ ip)
unfolding handle_event
reply_counts sent heard s now i ip target packet r c f g p q =
    let (u, got, named) = (Run-IsSwept sent heard s r).index_found ip i f in
    let same = some-injective u target (sym got ∙ g) in
    let taken = reply_settles s now i ip target packet c f g p q in
    (
      ap (λ (v : IcmpService). get_elem? v.targets i) taken ∙ marked_self s.targets i target g,
      ap (λ (v : IcmpService). v.last_reply_at) taken,
      sym (ap (λ (x : ProbeTarget). x.ip) same) ∙ named,
    )

-- Every address is excluded.
abbrev pub AllExcluded : List String → List String → Type 0
AllExcluded excluded [] = Unit {0}
AllExcluded excluded (ip ∷ ips) = (is_local excluded ip ≡ true) × AllExcluded excluded ips

collect-AllExcluded :
    (excluded seen ips : List String) → AllExcluded excluded ips → collect excluded seen ips ≡ []
unfolding collect
collect-AllExcluded excluded seen [] h = refl
collect-AllExcluded excluded seen (ip ∷ ips) h = rw h.0 (collect-AllExcluded excluded seen ips h.1)

-- When every configured address is excluded, a sweep that is begun from rest goes to the sending
-- state and posts the report at once, and the report carries no address but the number of the
-- sweep before, whatever it was.
pub AllExcluded-stale :
    (t : Timing) (now pid : ℕ) (e : String) (es : List String) (s : IcmpService)
    → AllExcluded s.local_ips (e ∷ es)
    → let (s', posted) = handle_action t now pid (e ∷ es) begin_probe idle s in
      (s'.state ≡ sending)
      × (posted ≡ action_posted send_probe_result ∷ [])
      × ((handle_action t now pid (e ∷ es) send_probe_result s'.state s').1
          ≡ result_sent s.last_alive_count [] ∷ [])
unfolding handle_action begin_probe_session begun alive_ips numbered
AllExcluded-stale t now pid e es s h =
    rw (collect-AllExcluded s.local_ips [] (e ∷ es) h) (refl, refl, refl)
