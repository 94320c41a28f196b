-- ===== src/Engine/Driver/Overpriced.antt =====
-- `executeRequest` on a new limit order that the gateway lets through: when its price is no index of the
-- ladders.
use client_exchange_simulati.Prelude.{
  ℕ, ◌<◌, ◌≡◌, ◌↔◌, refl, subst, ◌⊎◌, inl, inr, Bool-cases, true, false, List, [], ◌∷◌, arith, ◌==◌,
  is_nil, leb, leb→le, not-leb→lt,
}
use client_exchange_simulati.Prelude.Result.{err, bad_index, Returns, Returns-weaken}
use client_exchange_simulati.Wire.{InboundMessage, new, limit}
use client_exchange_simulati.Server.Validation.{validate_message}
use client_exchange_simulati.Engine.Config.{max_price}
use client_exchange_simulati.Engine.Levels.{list_levels, Queues}
use client_exchange_simulati.Engine.Orderbook.Orders.{contains}
use client_exchange_simulati.Engine.Orderbook.Overpriced.{process-overpriced, process-unplaced}
use client_exchange_simulati.Engine.Orderbook.Good.{IsGood}
use client_exchange_simulati.Engine.Driver.{Engine, request_of, assigned_id, execute_request}
use client_exchange_simulati.Engine.Driver.Execute.{execute_request-Returns}

-- A new order at a price above the last tick, with an id that is not in the book, while the pool has a
-- slot.
pub record IsOffLadder (e : Engine Queues) (msg : InboundMessage) : Type 0 where
  pub above : max_price < msg.price
  pub fresh : contains e.next_id e.book.orders ≡ false
  pub slot : is_nil e.book.pool.free_list ≡ false

is_nil-true : (xs : List ℕ) → is_nil xs ≡ true → xs ≡ []
is_nil-true [] e = refl
is_nil-true (x ∷ xs) e = ground arith

taken_slot : (xs : List ℕ) → is_nil xs ≡ false → (x : ℕ) × (free : List ℕ) × (xs ≡ x ∷ free)
taken_slot [] e = ground arith
taken_slot (x ∷ xs) e = (x, xs, refl)

module _ (e : Engine Queues) (msg : InboundMessage) (n : msg.message_type ≡ new)
    (l : msg.order_type ≡ limit) where
  req-id : assigned_id list_levels e msg ≡ e.next_id
  req-id = let is_new : (msg.message_type == new) ≡ true = ground arith in rw is_new refl

  unplaced-Returns :
      (contains e.next_id e.book.orders ≡ true) ⊎ (e.book.pool.free_list ≡ [])
      → Returns (λ e'. Unit {0}) (execute_request list_levels e msg)
  unfolding execute_request
  unplaced-Returns why =
      rw req-id (rw (process-unplaced list_levels e.book (request_of e.next_id msg) n l why) tt)

  IsOffLadder-faults : IsOffLadder e msg → execute_request list_levels e msg ≡ err bad_index
  unfolding execute_request
  IsOffLadder-faults o =
      let (x, free, top) = taken_slot e.book.pool.free_list o.slot in
      rw req-id (
        rw
          (process-overpriced list_levels e.book (request_of e.next_id msg) x free n l o.above
            o.fresh top)
          refl)

  -- The cases in which a slot is taken and the price is above the last tick, or not.
  IsOffLadder-or-Returns :
      IsGood e.book
      → validate_message msg ≡ true
      → IsOffLadder e msg ⊎ Returns (λ e'. Unit {0}) (execute_request list_levels e msg)
  IsOffLadder-or-Returns g v = elim (Bool-cases (leb msg.price max_price)) [
    | inl low ↦ inr (
        Returns-weaken _ _ (execute_request list_levels e msg)
          (execute_request-Returns e msg g
            (record { validated = v; below_max = λ _ _. leb→le msg.price max_price low }))
          λ e' x. tt)
    | inr high ↦ elim (Bool-cases (contains e.next_id e.book.orders)) [
      | inl known ↦ inr (unplaced-Returns (inl known))
      | inr unknown ↦ elim (Bool-cases (is_nil e.book.pool.free_list)) [
        | inl none_left ↦ inr (unplaced-Returns (inr (is_nil-true e.book.pool.free_list none_left)))
        | inr left ↦
            inl
              (record { above = not-leb→lt msg.price max_price high; fresh = unknown; slot = left })
      ]
    ]
  ]

-- From an engine with a well-formed and uncrossed book, a new limit order that validation lets through
-- indexes the array of price levels out of bounds exactly when its price is above the last tick, its id
-- is not in the book and the pool has a slot.
pub execute_request-faults :
    (e : Engine Queues) (msg : InboundMessage)
    → IsGood e.book
    → validate_message msg ≡ true
    → msg.message_type ≡ new
    → msg.order_type ≡ limit
    → (execute_request list_levels e msg ≡ err bad_index) ↔ IsOffLadder e msg
execute_request-faults e msg g v n l = (
  λ fault. elim (IsOffLadder-or-Returns e msg n l g v) [
    | inl off ↦ off
    | inr fine ↦ absurd (subst (Returns (λ e'. Unit {0})) fault fine)
  ],
  IsOffLadder-faults e msg n l,
)
