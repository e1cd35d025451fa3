-- ===== src/Probed/Sweep/Polls/Progress.antt =====
-- The sweep under polls by probed/service/ProbedServiceManager.cpp.
use Prim.Native.String.{String}
use nf_nms.Common.{
  ℕ, zero, suc, ◌+◌, ◌-◌, ◌≤◌, ◌<◌, min, ◌≡◌, ap, ◌∙◌, List, [], ◌∷◌, ◌++◌, ◌*◌, refl, sym, take,
  drop, map, length-map, drop-ge, take-append-drop, append-nil, length, arith, dec_lt,
}
use nf_nms.Probed.Sweep.{sending, waiting_replies, IcmpService, Effect, Timing, request}
use nf_nms.Probed.Sweep.Polls.{on_tick, ticks, sending_tick, early_tick, waiting_tick}

module _ {ℓ} {A : Type ℓ} where
  drop_nothing : (n : ℕ) → drop {A = A} n [] ≡ []
  drop_nothing zero = refl
  drop_nothing (suc n) = refl

  drop_twice : (i n : ℕ) (xs : List A) → drop n (drop i xs) ≡ drop (i + n) xs
  drop_twice zero n xs = let e : n ≡ 0 + n = omega arith in ap (λ k. drop k xs) e
  drop_twice (suc i) n [] = drop_nothing n ∙ sym (drop_nothing (suc i + n))
  drop_twice (suc i) n (x ∷ xs) =
      let e : suc (i + n) ≡ suc i + n = omega arith in
      drop_twice i n xs ∙ ap (λ k. drop k (x ∷ xs)) e

  -- What is left after `n` more, however many there are.
  rest_of_batch :
      (i n : ℕ) (xs : List A) → take n (drop i xs) ++ drop (min (i + n) (length xs)) xs ≡ drop i xs
  rest_of_batch i n xs =
      let tail : drop (min (i + n) (length xs)) xs ≡ drop n (drop i xs) =
        elim (dec_lt (length xs) (i + n)) [
          | yes l ↦
              let all : min (i + n) (length xs) ≡ length xs = omega (arith, l) in
              ap (λ k. drop k xs) all
              ∙ drop-ge (length xs) xs (omega arith)
              ∙ sym (drop_twice i n xs ∙ drop-ge (i + n) xs (omega (arith, l)))
          | no l ↦
              let few : min (i + n) (length xs) ≡ i + n = omega (arith, l) in
              ap (λ k. drop k xs) few ∙ sym (drop_twice i n xs)
        ] in
      ap (λ r. take n (drop i xs) ++ r) tail ∙ take-append-drop n (drop i xs)

module _ (t : Timing) (pid : ℕ) (explicit : List String) where
  -- The requests that a session has not sent.
  pub unsent : IcmpService → List Effect
  unsent s = drop s.next_send_index (map (request s.identifier) s.targets)

  -- What `n` polls from the `k`-th on bring a session to.
  pub record Swept (poll later : ℕ → ℕ) (k n : ℕ) (s : IcmpService) : Type 0 where
    pub waits : (ticks t pid explicit poll later k n s).0.state ≡ waiting_replies
    pub targets : (ticks t pid explicit poll later k n s).0.targets ≡ s.targets
    pub requests : (ticks t pid explicit poll later k n s).1 ≡ unsent s

  waiting-Swept :
      (poll later : ℕ → ℕ) (k : ℕ) (s : IcmpService)
      → s.state ≡ sending
      → length s.targets ≤ s.next_send_index
      → Swept poll later k 1 s
  unfolding ticks unsent
  waiting-Swept poll later k s q l =
      let w = waiting_tick t pid explicit (poll k) (later k) s q l in
      let m = length-map s.targets (request s.identifier) in
      record {
        waits = ap (λ (r : IcmpService × List Effect). r.0.state) w;
        targets = ap (λ (r : IcmpService × List Effect). r.0.targets) w;
        requests =
            ap (λ (r : IcmpService × List Effect). r.1 ++ []) w
            ∙ sym (drop-ge s.next_send_index (map (request s.identifier) s.targets) (omega arith));
      }

  sent-Swept :
      (poll later : ℕ → ℕ) (k n : ℕ) (s s' : IcmpService) (out : List Effect)
      → on_tick t pid explicit (poll k) (later k) s ≡ (s', out)
      → s'.targets ≡ s.targets
      → out ++ unsent s' ≡ unsent s
      → Swept poll later (suc k) n s'
      → Swept poll later k (suc n) s
  unfolding ticks
  sent-Swept poll later k n s s' out e f g w =
      let all = λ (r : IcmpService × List Effect). ticks t pid explicit poll later (suc k) n r.0 in
      record {
        waits = ap (λ r. (all r).0.state) e ∙ w.waits;
        targets = ap (λ r. (all r).0.targets) e ∙ w.targets ∙ f;
        requests =
            ap (λ (r : IcmpService × List Effect). r.1 ++ (all r).1) e
            ∙ ap (λ rest. out ++ rest) w.requests
            ∙ g;
      }

  batch_unsent :
      (later : ℕ) (s : IcmpService)
      → s.next_send_index ≤ length s.targets
      → (take t.batch_size (unsent s) ++ [])
          ++ unsent (record s {
            next_send_index = min (s.next_send_index + t.batch_size) (length s.targets);
            last_batch_sent_at = later;
          })
        ≡ unsent s
  unfolding unsent
  batch_unsent later s l =
      let all = map (request s.identifier) s.targets in
      let m : length s.targets ≡ length all = sym (length-map s.targets (request s.identifier)) in
      let i = s.next_send_index in
      ap (λ out. out ++ drop (min (i + t.batch_size) (length s.targets)) all)
        (append-nil (take t.batch_size (drop i all)))
      ∙ ap (λ n. take t.batch_size (drop i all) ++ drop (min (i + t.batch_size) n) all) m
      ∙ rest_of_batch i t.batch_size all

  module _ (poll later : ℕ → ℕ) (some_sent : 1 ≤ t.batch_size)
      (apart : (k : ℕ) → poll k + t.batch_interval ≤ poll (suc k))
      (steady : (k : ℕ) → later k ≤ poll (suc k)) where
    batch-Swept :
        (k m : ℕ) (s : IcmpService)
        → s.state ≡ sending
        → s.next_send_index < length s.targets
        → length s.targets ≤ s.next_send_index + suc m
        → t.batch_interval ≤ poll k - s.last_batch_sent_at
        → ((s' : IcmpService)
            → s'.state ≡ sending
            → length s'.targets ≤ s'.next_send_index + m
            → t.batch_interval ≤ poll (suc (suc k)) - s'.last_batch_sent_at
            → (n : ℕ) × (n ≤ suc (2 * m)) × Swept poll later (suc k) n s')
        → (n : ℕ) × (n ≤ suc (suc (2 * m))) × Swept poll later k n s
    unfolding unsent
    batch-Swept k m s q l far d next =
        let s' : IcmpService = record s {
          next_send_index = min (s.next_send_index + t.batch_size) (length s.targets);
          last_batch_sent_at = later k;
        } in
        let (n, le, w) =
          next s' q (omega (arith, some_sent, far)) (omega (arith, steady k, apart (suc k))) in
        (
          suc n,
          omega (arith, le),
          sent-Swept poll later k n s s' _ (sending_tick t pid explicit (poll k) (later k) s q l d)
              refl (batch_unsent (later k) s (omega (arith, l))) w,
        )

    reach_waiting :
        (m k : ℕ) (s : IcmpService)
        → s.state ≡ sending
        → length s.targets ≤ s.next_send_index + m
        → t.batch_interval ≤ poll (suc k) - s.last_batch_sent_at
        → (n : ℕ) × (n ≤ suc (2 * m)) × Swept poll later k n s
    reach_waiting zero k s q far d =
        (1, omega arith, waiting-Swept poll later k s q (omega (arith, far)))
    reach_waiting (suc m) k s q far d = elim (dec_lt s.next_send_index (length s.targets)) [
      | no all ↦ (1, omega arith, waiting-Swept poll later k s q (omega (arith, all)))
      | yes l ↦ elim (dec_lt (poll k - s.last_batch_sent_at) t.batch_interval) [
        | no due ↦
            let (n, le, w) =
              batch-Swept k m s q l far (omega (arith, due))
                (λ s' q' f d'. reach_waiting m (suc k) s' q' f d') in
            (n, omega (arith, le), w)
        | yes early ↦
            let (n, le, w) =
              batch-Swept (suc k) m s q l far d
                (λ s' q' f d'. reach_waiting m (suc (suc k)) s' q' f d') in
            (
              suc n,
              omega (arith, le),
              sent-Swept poll later k n s s []
                  (early_tick t pid explicit (poll k) (later k) s q l early) refl refl w,
            )
      ]
    ]

    -- A session that sends, polled at times that are at least the batch interval apart and by a
    -- clock that does not go back, has sent the requests of all the targets that were left, each
    -- once and in order, and waits for replies, after at most two polls for each of these targets
    -- and one more. A batch holds at least one request, and the last one was sent at least the
    -- batch interval before the second of the polls.
    pub sweep_sends_all :
        (s : IcmpService)
        → s.state ≡ sending
        → t.batch_interval ≤ poll 1 - s.last_batch_sent_at
        → (n : ℕ) × (n ≤ suc (2 * (length s.targets - s.next_send_index))) × Swept poll later 0 n s
    sweep_sends_all s q d =
        reach_waiting (length s.targets - s.next_send_index) 0 s q (omega arith) d
