-- ===== src/Engine/Orderbook/Processing.antt =====
-- `process`: every admissible request is carried out with no fault, and keeps the book well formed.
use client_exchange_simulati.Prelude.{
  ℕ, ◌≡◌, ◌≢◌, ◌⊎◌, refl, inl, inr, Bool, true, false, not, ◌&&◌, ◌||◌, Option, none, some, arith,
  ◌==◌, if◌then◌else◌, Bool-cases, Option-cases,
}
use client_exchange_simulati.Prelude.Result.{Returns, Returns-bind}
use client_exchange_simulati.Wire.{new, cancel, modify, success, failure}
use client_exchange_simulati.Engine.Order.{OrderRequest}
use client_exchange_simulati.Engine.Levels.{list_levels}
use client_exchange_simulati.Engine.Orderbook.State.{ProcessResult, order_at}
use client_exchange_simulati.Engine.Orderbook.Requests.{
  add_order, cancel_order, modify_order, process,
}
use client_exchange_simulati.Engine.Orderbook.Orders.{find}
use client_exchange_simulati.Engine.Orderbook.Invariant.{Book}
use client_exchange_simulati.Engine.Orderbook.Cancelling.{cancel_order-Returns}
use client_exchange_simulati.Engine.Orderbook.Good.{
  IsAdmissible, IsGood, add-Good, cancelled-Good, modify-Good,
}

-- The order that the request names is in the book, and belongs to the client; a modification also
-- has to name its side.
abbrev pub owns : Book → OrderRequest → Option ℕ → Bool
owns b req none = false
owns b req (some x) =
    (order_at list_levels b x).client_id == req.client_id
    && (not (req.message_type == modify) || (order_at list_levels b x).side == req.side)

-- Which requests are carried out.
abbrev pub authorised : Book → OrderRequest → Bool
authorised b req =
    req.message_type == new
    || ((req.message_type == cancel || req.message_type == modify)
        && owns b req (find req.order_id b.orders))

-- What `process` leaves. A request that is not authorised changes nothing.
pub record Processed (b : Book) (req : OrderRequest) (out : ProcessResult × Book) : Type 0 where
  pub good : IsGood out.1
  pub status : out.0.status ≡ (if authorised b req then success else failure)
  pub refused : (authorised b req ≡ true) ⊎ ((out.1 ≡ b) × (out.0.suppress_ack ≡ false))
  pub cancelled :
      (req.message_type ≢ cancel)
      ⊎ (authorised b req ≡ false)
      ⊎ (find req.order_id out.1.orders ≡ none)

carried_out :
    (b : Book) (req : OrderRequest) (out : Bool × Book)
    → authorised b req ≡ true
    → req.message_type ≢ cancel
    → IsGood out.1
    → Processed b req (record { status = success; suppress_ack = out.0 }, out.1)
carried_out b req out allowed other g = record {
  good = g;
  status = rw allowed refl;
  refused = inl allowed;
  cancelled = inl other;
}

turned_down :
    (b : Book) (req : OrderRequest)
    → authorised b req ≡ false
    → IsGood b
    → Processed b req (record { status = failure; suppress_ack = false }, b)
turned_down b req denied g = record {
  good = g;
  status = rw denied refl;
  refused = inr (refl, refl);
  cancelled = inr (inl denied);
}

process-new :
    (b : Book) (req : OrderRequest)
    → IsGood b
    → IsAdmissible req
    → req.message_type ≡ new
    → Returns (Processed b req) (process list_levels b req)
unfolding process
process-new b req g a e =
    let is_new : (req.message_type == new) ≡ true = ground arith in
    let allowed : authorised b req ≡ true = ground arith in
    rw is_new (
      Returns-bind _ _ (add_order list_levels b req) _ (add-Good b req g a)
        λ out h. carried_out b req out allowed (λ c. ground arith) h)

process-cancel :
    (b : Book) (req : OrderRequest)
    → IsGood b
    → req.message_type ≡ cancel
    → Returns (Processed b req) (process list_levels b req)
unfolding process
process-cancel b req g e =
    let not_new : (req.message_type == new) ≡ false = ground arith in
    let is_cancel : (req.message_type == cancel) ≡ true = ground arith in
    let not_modify : (req.message_type == modify) ≡ false = ground arith in
    rw (not_new, is_cancel)
      (elim (Option-cases (find req.order_id b.orders)) [
        | inl unknown ↦ rw unknown (turned_down b req (rw (not_new, is_cancel, unknown) refl) g)
        | inr (x, known) ↦
            rw known (elim (Bool-cases ((order_at list_levels b x).client_id == req.client_id)) [
              | inr foreign ↦
                  rw foreign
                    (turned_down b req (rw (not_new, is_cancel, known) (rw foreign refl)) g)
              | inl own ↦
                  let allowed : authorised b req ≡ true =
                    rw (not_new, is_cancel, known) (rw (own, not_modify) refl) in
                  rw own (
                    Returns-bind _ _ (cancel_order list_levels b req.order_id) _
                      (cancel_order-Returns b req.order_id x g.book known)
                      λ b' c. record {
                        good = cancelled-Good b b' req.order_id x g known c;
                        status = rw allowed refl;
                        refused = inl allowed;
                        cancelled = inr (inr c.gone);
                      })
            ])
      ])

process-modify :
    (b : Book) (req : OrderRequest)
    → IsGood b
    → IsAdmissible req
    → req.message_type ≡ modify
    → Returns (Processed b req) (process list_levels b req)
unfolding process
process-modify b req g a e =
    let not_new : (req.message_type == new) ≡ false = ground arith in
    let not_cancel : (req.message_type == cancel) ≡ false = ground arith in
    let is_modify : (req.message_type == modify) ≡ true = ground arith in
    rw (not_new, not_cancel, is_modify)
      (elim (Option-cases (find req.order_id b.orders)) [
        | inl unknown ↦
            rw unknown (turned_down b req (rw (not_new, not_cancel, is_modify, unknown) refl) g)
        | inr (x, known) ↦
            let o = order_at list_levels b x in
            rw known (elim (Bool-cases (o.client_id == req.client_id)) [
              | inr foreign ↦ rw foreign (
                  turned_down b req (rw (not_new, not_cancel, is_modify, known) (rw foreign refl))
                    g)
              | inl own ↦ rw own (elim (Bool-cases (o.side == req.side)) [
                | inr turned ↦ rw turned (
                    turned_down b req
                      (rw (not_new, not_cancel, is_modify, known)
                        (rw (own, turned, is_modify) refl))
                      g)
                | inl same ↦
                    let allowed : authorised b req ≡ true =
                      rw (not_new, not_cancel, is_modify, known) (rw (own, same, is_modify) refl) in
                    rw same (
                      Returns-bind _ _ (modify_order list_levels b req) _
                        (modify-Good b req x g a known)
                        λ out h. carried_out b req out allowed (λ c. ground arith) h)
              ])
            ])
      ])

process-other :
    (b : Book) (req : OrderRequest)
    → IsGood b
    → req.message_type ≢ new
    → req.message_type ≢ cancel
    → req.message_type ≢ modify
    → Returns (Processed b req) (process list_levels b req)
unfolding process
process-other b req g n c m =
    let not_new : (req.message_type == new) ≡ false = ground arith in
    let not_cancel : (req.message_type == cancel) ≡ false = ground arith in
    let not_modify : (req.message_type == modify) ≡ false = ground arith in
    rw (not_new, not_cancel, not_modify)
      (turned_down b req (rw (not_new, not_cancel, not_modify) refl) g)

-- From a book that is well formed and has no resting bid at or above a resting ask, `process` of a
-- request that is a cancellation or admissible returns a result, with no fault and within the fuel. It leaves such a book. The
-- status is a success exactly for a new order and for a cancellation or modification of a known order
-- of the same client (for a modification, also of the same side); any other request is refused, the
-- book unchanged and the acknowledgement not suppressed. After a cancellation that is carried out the
-- order is not in the map.
pub process-Returns :
    (b : Book) (req : OrderRequest)
    → IsGood b
    → (req.message_type ≢ cancel → IsAdmissible req)
    → Returns (Processed b req) (process list_levels b req)
process-Returns b req g a = elim (Bool-cases (req.message_type == new)) [
  | inl n ↦ process-new b req g (a (λ q. ground arith)) (ground arith)
  | inr n ↦ elim (Bool-cases (req.message_type == cancel)) [
    | inl c ↦ process-cancel b req g (ground arith)
    | inr c ↦ elim (Bool-cases (req.message_type == modify)) [
      | inl m ↦ process-modify b req g (a (λ q. ground arith)) (ground arith)
      | inr m ↦ process-other b req g (λ q. ground arith) (λ q. ground arith) (λ q. ground arith)
    ]
  ]
]
