-- ===== src/Exchange.antt =====
-- The gateway and the engine together, joined by the inbound ring: exchange/server/src/server.cpp,
-- exchange/engine/src/engine.cpp and exchange/include/ring_buffer.hpp.
use client_exchange_simulati.Prelude.{
  ℕ, zero, suc, ◌/◌, ◌≤◌, ◌≡◌, ◌≢◌, refl, ap, sym, subst, inl, inr, Bool-cases, List, [], ◌∷◌, ◌++◌,
  length, ◌==◌,
}
use client_exchange_simulati.Prelude.Result.{
  Result, ok, err, ◌>>=◌, Returns, Returns-bind, Returns-weaken,
}
use client_exchange_simulati.RingBuffer.{RingBuffer, push}
use client_exchange_simulati.RingBuffer.Inv.{IsValid, push-IsValid}
use client_exchange_simulati.RingBuffer.Refine.{contents, offer, push_refines}
use client_exchange_simulati.Buffer.{view}
use client_exchange_simulati.Buffer.Bytes.{drop}
use client_exchange_simulati.Buffer.Reading.{IsReading}
use client_exchange_simulati.Wire.{InboundMessage, Timestamp, cancel, limit}
use client_exchange_simulati.Server.Validation.{validate_message}
use client_exchange_simulati.Server.Gateway.{
  Gateway, Connection, starts_with, header, decode, inbound_bsize, process_request,
}
use client_exchange_simulati.Server.Gateway.Framing.{
  Verdict, malformed, invalid, accepted, judge, verdicts, deliver, deliver_all, process_request_lem,
}
use client_exchange_simulati.Engine.Config.{max_price}
use client_exchange_simulati.Engine.Levels.{list_levels, Queues}
use client_exchange_simulati.Engine.Orderbook.Good.{IsGood}
use client_exchange_simulati.Engine.Driver.{Engine, step}
use client_exchange_simulati.Engine.Driver.Execute.{IsExecutable}
use client_exchange_simulati.Engine.Driver.Pipeline.{
  AllExecutable, execute_all, execute_all-Returns, left_over, step_refines,
}

-- The check on the price that the gateway does not make, for a message that it lets through.
abbrev pub IsPriced : Verdict → Type 0
IsPriced malformed = Unit {0}
IsPriced invalid = Unit {0}
IsPriced (accepted msg) = msg.message_type ≢ cancel → msg.order_type ≡ limit → msg.price ≤ max_price

abbrev pub AllPriced : List Verdict → Type 0
AllPriced [] = Unit {0}
AllPriced (v ∷ vs) = IsPriced v × AllPriced vs

-- What the engine can be handed.
abbrev Fine : Verdict → Type 0
Fine malformed = Unit {0}
Fine invalid = Unit {0}
Fine (accepted msg) = IsExecutable msg

abbrev AllFine : List Verdict → Type 0
AllFine [] = Unit {0}
AllFine (v ∷ vs) = Fine v × AllFine vs

judge-Fine :
    (tsc : Timestamp) (bytes : List ℕ) → IsPriced (judge tsc bytes) → Fine (judge tsc bytes)
judge-Fine tsc bytes =
    let msg = record (decode (drop 9 bytes)) { read_begin_tsc = tsc } in
    elim (Bool-cases (starts_with bytes header)) [
      | inr bad ↦ rw bad (λ p. tt)
      | inl good ↦ elim (Bool-cases (validate_message msg)) [
        | inr refused ↦ rw (good, refused) (λ p. tt)
        | inl fine ↦ rw (good, fine) (λ p. record { validated = fine; below_max = p })
      ]
    ]

verdicts-AllFine :
    (k : ℕ) (tsc : Timestamp) (bytes : List ℕ)
    → AllPriced (verdicts k tsc bytes)
    → AllFine (verdicts k tsc bytes)
verdicts-AllFine zero tsc bytes p = tt
verdicts-AllFine (suc k) tsc bytes p =
    (judge-Fine tsc bytes p.0, verdicts-AllFine k tsc (drop inbound_bsize bytes) p.1)

-- The inbound ring holds messages that the engine can execute.
record IsFed (width : ℕ) (r : RingBuffer InboundMessage) : Type 0 where
  valid : IsValid width r
  executable : AllExecutable (contents r)

AllExecutable-append_one :
    (ms : List InboundMessage) (m : InboundMessage)
    → AllExecutable ms
    → IsExecutable m
    → AllExecutable (ms ++ m ∷ [])
AllExecutable-append_one [] m a x = (x, tt)
AllExecutable-append_one (n ∷ ms) m a x = (a.0, AllExecutable-append_one ms m a.1 x)

AllExecutable-offer :
    (cap : ℕ) (ms : List InboundMessage) (m : InboundMessage)
    → AllExecutable ms
    → IsExecutable m
    → AllExecutable (offer cap ms m).1
AllExecutable-offer cap ms m a x = elim (Bool-cases (length ms == cap)) [
  | inl full ↦ rw full a
  | inr room ↦ rw room (AllExecutable-append_one ms m a x)
]

push-IsFed :
    {width : ℕ} {r : RingBuffer InboundMessage} (m : InboundMessage)
    → IsFed width r
    → IsExecutable m
    → IsFed width (push r m).1
push-IsFed {r = r} m f x = record {
  valid = push-IsValid f.valid m;
  executable =
      subst AllExecutable (sym (ap (λ p. p.1) (push_refines f.valid m)))
        (AllExecutable-offer r.mask (contents r) m f.executable x);
}

deliver_all-IsFed :
    {width : ℕ} (fd : ℕ) (vs : List Verdict) (g : Gateway)
    → IsFed width g.in_ring
    → AllFine vs
    → IsFed width (deliver_all fd g vs).in_ring
deliver_all-IsFed fd [] g f a = f
deliver_all-IsFed fd (malformed ∷ vs) g f a = deliver_all-IsFed fd vs (deliver fd g malformed) f a.1
deliver_all-IsFed fd (invalid ∷ vs) g f a = deliver_all-IsFed fd vs (deliver fd g invalid) f a.1
deliver_all-IsFed fd (accepted msg ∷ vs) g f a =
    deliver_all-IsFed fd vs (deliver fd g (accepted msg)) (push-IsFed msg f a.0) a.1

-- The engine has executed all that the ring held.
abbrev pub Served : RingBuffer InboundMessage × Engine Queues → Type 0
Served out = (contents out.0 ≡ []) × IsGood out.1.book

abbrev Seen : List InboundMessage × Engine Queues → Type 0
Seen out = (out.0 ≡ []) × IsGood out.1.book

Served-of_Seen :
    (m : Result (RingBuffer InboundMessage × Engine Queues))
    → Returns Seen (m >>= left_over list_levels)
    → Returns Served m
Served-of_Seen (ok out) h = h
Served-of_Seen (err x) h = h

step-Served :
    {width : ℕ} (r : RingBuffer InboundMessage) (e : Engine Queues)
    → IsFed width r
    → IsGood e.book
    → Returns Served (step list_levels r e)
step-Served r e f g =
    let all =
      Returns-bind _ Seen (execute_all list_levels e (contents r)) (λ e'. ok ([], e'))
        (execute_all-Returns e (contents r) g f.executable) (λ e' x. (refl, x)) in
    Served-of_Seen (step list_levels r e)
      (subst (Returns Seen) (sym (step_refines list_levels r e f.valid)) all)

-- Whatever bytes a connection with valid buffer indices holds, `processRequest` returns, and `step` on the
-- inbound ring then executes all that the ring holds with no fault; it leaves a well-formed and uncrossed
-- book and an empty ring. The ring is valid and empty before, so is the book well formed and uncrossed,
-- and no limit order that the gateway lets through names a price above MAX_PRICE.
pub exchange-Served :
    {width : ℕ} (n : ℕ) (g : Gateway) (c : Connection) (e : Engine Queues)
    → IsReading n c.read_buffer
    → IsValid width g.in_ring
    → contents g.in_ring ≡ []
    → IsGood e.book
    → AllPriced (
        verdicts
          (length (view c.read_buffer) / inbound_bsize)
          c.read_begin_tsc
          (view c.read_buffer))
    → Returns (λ out. Returns Served (step list_levels out.0.in_ring e)) (process_request g c)
exchange-Served {width} n g c e reads v none_held good priced =
    let vs =
      verdicts (length (view c.read_buffer) / inbound_bsize) c.read_begin_tsc
        (view c.read_buffer) in
    let fed : IsFed width g.in_ring = record {
      valid = v;
      executable = subst AllExecutable (sym none_held) tt;
    } in
    let after =
      deliver_all-IsFed c.fd vs g fed
        (verdicts-AllFine _ c.read_begin_tsc (view c.read_buffer) priced) in
    Returns-weaken _ _ (process_request g c) (process_request_lem n g c reads) λ out f.
      step-Served out.0.in_ring e (subst (λ h. IsFed width h.in_ring) (sym f.delivered) after) good
