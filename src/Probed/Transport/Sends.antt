-- ===== src/Probed/Transport/Sends.antt =====
-- What becomes of the transmit queue.
use nf_nms.Common.{
  ℕ, suc, List, [], ◌∷◌, ◌++◌, ◌≡◌, refl, ap, sym, ◌∙◌, Bool, true, false, if_cases, not, ◌||◌,
  ◌==◌, length, append-nil, append_assoc, arith,
}
use nf_nms.Util.Password.{is_empty}
use nf_nms.Probed.Transport.{
  IcmpIoResult, ok, would_block, error, TxFrame, interrupted, again, failed, TxAnswer, taken,
  nothing, undeliverable, Sending, after_answer, send_loop,
}

-- The answers with which the kernel refuses a datagram, or takes it in part.
pub is_refusal : TxAnswer → TxFrame → Bool
is_refusal (taken n) f = not (suc n == length f.bytes)
is_refusal nothing f = true
is_refusal undeliverable f = true
is_refusal _ f = false

-- How the answers dispose of the datagrams that leave the queue, and those that are taken whole.
pub data Disposed (is_address : List ℕ → Bool)
    : List TxAnswer → List TxFrame → List TxFrame → Type 0 where
  done : {answers : List TxAnswer} → Disposed is_address answers [] []
  unsendable :
      {answers : List TxAnswer} {gone out : List TxFrame} (f : TxFrame)
      → (is_empty f.bytes || not (is_address f.dst_ip)) ≡ true
      → Disposed is_address answers gone out
      → Disposed is_address answers (f ∷ gone) out
  whole :
      {answers : List TxAnswer} {gone out : List TxFrame} (n : ℕ) (f : TxFrame)
      → suc n ≡ length f.bytes
      → Disposed is_address answers gone out
      → Disposed is_address (taken n ∷ answers) (f ∷ gone) (f ∷ out)
  refused :
      {answers : List TxAnswer} {gone out : List TxFrame} (a : TxAnswer) (f : TxFrame)
      → is_refusal a f ≡ true
      → Disposed is_address answers gone out
      → Disposed is_address (a ∷ answers) (f ∷ gone) out
  asked_again :
      {answers : List TxAnswer} {gone out : List TxFrame}
      → Disposed is_address answers gone out
      → Disposed is_address (interrupted ∷ answers) gone out

-- How `send` leaves a queue: what has left it and what of that the kernel has taken.
pub record IsSent (is_address : List ℕ → Bool) (answers : List TxAnswer) (queue wire : List TxFrame)
    (t : Sending) : Type 0 where
  pub gone : List TxFrame
  pub out : List TxFrame
  pub left : queue ≡ gone ++ t.queue
  pub on_wire : t.wire ≡ wire ++ out
  pub disposed : Disposed is_address answers gone out
  pub finished : t.result ≡ ok → t.queue ≡ []

module _ (is_address : List ℕ → Bool) where
  stays :
      (answers : List TxAnswer) (queue wire : List TxFrame) (r : IcmpIoResult)
      → (r ≡ ok → queue ≡ [])
      → IsSent is_address answers queue wire (record { result = r; queue = queue; wire = wire })
  stays answers queue wire r h = record {
    gone = [];
    out = [];
    left = refl;
    on_wire = sym (append-nil wire);
    disposed = done;
    finished = h;
  }

  -- A datagram that leaves without being taken.
  IsSent-dropped :
      (f : TxFrame) {before after : List TxAnswer} {queue wire : List TxFrame} {t : Sending}
      → ((gone out : List TxFrame)
          → Disposed is_address after gone out
          → Disposed is_address before (f ∷ gone) out)
      → IsSent is_address after queue wire t
      → IsSent is_address before (f ∷ queue) wire t
  IsSent-dropped f step i = record {
    gone = f ∷ i.gone;
    out = i.out;
    left = ap (λ q. f ∷ q) i.left;
    on_wire = i.on_wire;
    disposed = step i.gone i.out i.disposed;
    finished = i.finished;
  }

  IsSent-whole :
      (n : ℕ) (f : TxFrame) {answers : List TxAnswer} {queue wire : List TxFrame} {t : Sending}
      → suc n ≡ length f.bytes
      → IsSent is_address answers queue (wire ++ (f ∷ [])) t
      → IsSent is_address (taken n ∷ answers) (f ∷ queue) wire t
  IsSent-whole n f {wire = wire} h i = record {
    gone = f ∷ i.gone;
    out = f ∷ i.out;
    left = ap (λ q. f ∷ q) i.left;
    on_wire = i.on_wire ∙ append_assoc wire (f ∷ []) i.out;
    disposed = whole n f h i.disposed;
    finished = i.finished;
  }

  IsSent-again :
      {answers : List TxAnswer} {queue wire : List TxFrame} {t : Sending}
      → IsSent is_address answers queue wire t
      → IsSent is_address (interrupted ∷ answers) queue wire t
  IsSent-again i = record {
    gone = i.gone;
    out = i.out;
    left = i.left;
    on_wire = i.on_wire;
    disposed = asked_again i.disposed;
    finished = i.finished;
  }

  after_answer-IsSent :
      (a : TxAnswer) (f : TxFrame) (answers : List TxAnswer) (queue wire : List TxFrame)
      {whole partly retry : Sending}
      → IsSent is_address answers queue (wire ++ (f ∷ [])) whole
      → IsSent is_address answers queue wire partly
      → IsSent is_address answers (f ∷ queue) wire retry
      → IsSent is_address
          (a ∷ answers)
          (f ∷ queue)
          wire
          (after_answer a f queue wire whole partly retry)
  unfolding after_answer is_refusal
  after_answer-IsSent (taken n) f answers queue wire w p r =
      if_cases (IsSent is_address (taken n ∷ answers) (f ∷ queue) wire) (suc n == length f.bytes)
        (λ h. IsSent-whole n f (ground (arith, h)) w)
        (λ h. IsSent-dropped f (λ _ _ d. refused (taken n) f (rw h) d) p)
  after_answer-IsSent nothing f answers queue wire w p r =
      IsSent-dropped f (λ _ _ d. refused nothing f refl d) p
  after_answer-IsSent interrupted f answers queue wire w p r = IsSent-again r
  after_answer-IsSent again f answers queue wire w p r =
      stays (again ∷ answers) (f ∷ queue) wire would_block (λ h. absurd (cc))
  after_answer-IsSent undeliverable f answers queue wire w p r =
      IsSent-dropped f (λ _ _ d. refused undeliverable f refl d) p
  after_answer-IsSent (failed e) f answers queue wire w p r =
      stays (failed e ∷ answers) (f ∷ queue) wire (error e) (λ h. absurd (cc))

  -- What `send` takes off the queue is its beginning. In the order of the kernel's answers, each
  -- datagram of it is either taken whole, and then goes out behind those before it, or is refused
  -- by an answer of its own, or has no bytes or no valid address; no other is lost, and none goes
  -- out twice. The result is `ok` only if nothing is left.
  pub send_loop-IsSent :
      (answers : List TxAnswer) (queue wire : List TxFrame)
      → IsSent is_address answers queue wire (send_loop is_address answers queue wire)
  unfolding send_loop
  send_loop-IsSent answers [] wire = stays answers [] wire ok (λ _. refl)
  send_loop-IsSent [] (f ∷ queue) wire =
      if_cases (IsSent is_address [] (f ∷ queue) wire)
        (is_empty f.bytes || not (is_address f.dst_ip))
        (λ h. IsSent-dropped f (λ _ _ d. unsendable f h d) (send_loop-IsSent [] queue wire))
        (λ _. stays [] (f ∷ queue) wire would_block (λ h. absurd (cc)))
  send_loop-IsSent (a ∷ answers) (f ∷ queue) wire =
      if_cases (IsSent is_address (a ∷ answers) (f ∷ queue) wire)
        (is_empty f.bytes || not (is_address f.dst_ip))
        (λ h.
          IsSent-dropped f (λ _ _ d. unsendable f h d) (send_loop-IsSent (a ∷ answers) queue wire))
        (λ _.
          after_answer-IsSent a f answers queue wire
            (send_loop-IsSent answers queue (wire ++ (f ∷ [])))
            (send_loop-IsSent answers queue wire) (send_loop-IsSent answers (f ∷ queue) wire))
