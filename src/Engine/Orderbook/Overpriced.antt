-- ===== src/Engine/Orderbook/Overpriced.antt =====
-- What `addOrder` does with a price above the ladders, which validation lets through.
use client_exchange_simulati.Prelude.{
  ℕ, ◌<◌, ◌≡◌, refl, ◌⊎◌, inl, inr, Bool-cases, false, true, List, [], ◌∷◌, none, arith, ◌==◌,
  eq_self,
}
use client_exchange_simulati.Prelude.Result.{ok, err, bad_index}
use client_exchange_simulati.Wire.{OrderId, market, new, limit, success}
use client_exchange_simulati.Engine.Config.{max_price}
use client_exchange_simulati.Engine.Order.{OrderRequest}
use client_exchange_simulati.Engine.OrderPool.{OrderPool, allocate}
use client_exchange_simulati.Engine.Levels.{LevelStore}
use client_exchange_simulati.Engine.Orderbook.Orders.{contains}
use client_exchange_simulati.Engine.Orderbook.State.{Orderbook, in_ladder}
use client_exchange_simulati.Engine.Orderbook.Requests.{add_limit, add_order, process}

allocate-nil :
    (pool : OrderPool) (id : OrderId) (req : OrderRequest)
    → pool.free_list ≡ []
    → allocate pool id req ≡ none
unfolding allocate
allocate-nil pool id req top = rw top refl

module _ (L : LevelStore) (b : Orderbook L.Store) (req : OrderRequest) where
  add_limit-overpriced :
      (x : ℕ) (free : List ℕ)
      → max_price < req.price
      → contains req.order_id b.orders ≡ false
      → b.pool.free_list ≡ x ∷ free
      → add_limit L b req ≡ err bad_index
  unfolding add_limit allocate
  add_limit-overpriced x free high unknown top =
      let outside : in_ladder req.price ≡ false = ground arith in
      rw (unknown, top) (rw (eq_self x) (rw outside refl))

  -- A new limit order with a known id, or when the pool has no slot, leaves the book as it is.
  pub process-unplaced :
      req.message_type ≡ new
      → req.order_type ≡ limit
      → (contains req.order_id b.orders ≡ true) ⊎ (b.pool.free_list ≡ [])
      → process L b req ≡ ok (record { status = success; suppress_ack = false }, b)
  unfolding process add_order add_limit
  process-unplaced n l why =
      let is_new : (req.message_type == new) ≡ true = ground arith in
      let not_market : (req.order_type == market) ≡ false = ground arith in
      rw is_new (
        rw not_market (elim (Bool-cases (contains req.order_id b.orders)) [
          | inl known ↦ rw known refl
          | inr unknown ↦ elim why [
            | inl known ↦ absurd (ground arith)
            | inr none_left ↦ rw unknown (rw (allocate-nil b.pool req.order_id req none_left) refl)
          ]
        ]))

  -- A new limit order with a fresh id and a price above the last tick, while the pool has a slot,
  -- makes `process` index the array of price levels out of bounds. The levels are any store.
  pub process-overpriced :
      (x : ℕ) (free : List ℕ)
      → req.message_type ≡ new
      → req.order_type ≡ limit
      → max_price < req.price
      → contains req.order_id b.orders ≡ false
      → b.pool.free_list ≡ x ∷ free
      → process L b req ≡ err bad_index
  unfolding process add_order
  process-overpriced x free n l high unknown top =
      let is_new : (req.message_type == new) ≡ true = ground arith in
      let not_market : (req.order_type == market) ≡ false = ground arith in
      rw is_new (rw not_market (rw (add_limit-overpriced x free high unknown top) refl))
