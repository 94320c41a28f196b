-- ===== src/Engine/Orderbook/Requests.antt =====
-- `addOrder`, `cancelOrder`, `modifyOrder` and `process` of exchange/engine/src/orderbook.cpp.
use client_exchange_simulati.Prelude.{
  ℕ, Bool, false, ◌&&◌, ◌||◌, not, none, some, [], ◌∷◌, ◌==◌, if◌then◌else◌,
}
use client_exchange_simulati.Prelude.Result.{
  Result, ok, ◌>>=◌, ◌>>◌, guard, or_fault, out_of_range, bad_index,
}
use client_exchange_simulati.RingBuffer.{RingBuffer}
use client_exchange_simulati.Wire.{
  OutboundMessage, OrderId, market, new, cancel, modify, success, failure,
}
use client_exchange_simulati.Engine.Order.{Order, OrderRequest}
use client_exchange_simulati.Engine.OrderPool
use client_exchange_simulati.Engine.Levels.{ladder, on, LevelStore}
use client_exchange_simulati.Engine.Orderbook.Orders.{find, contains, erase_key}
use client_exchange_simulati.Engine.Orderbook.State.{
  Orderbook, ProcessResult, increment, better, idle_price, in_ladder, order_at, set_order,
  drop_level,
}
use client_exchange_simulati.Engine.Orderbook.Matching.{match_orders, match_market}

module _ (L : LevelStore) where
  -- `bids_[…].push(&order)` and what goes with it in `addOrder`
  unfoldable pub rest_order : Orderbook L.Store → ℕ → Orderbook L.Store
  rest_order b x =
      let sd = ladder (order_at L b x).side in
      let p = (order_at L b x).price in
      record b {
        non_empty =
            if L.empty b.levels sd p
            then on sd (increment (b.non_empty sd)) b.non_empty
            else b.non_empty;
        levels = L.push b.levels sd p x;
        best = if better sd p (b.best sd) then on sd p b.best else b.best;
      }

  -- The order in its slot, entered in the map.
  unfoldable pub enter_order :
      Orderbook L.Store → ℕ → OrderPool.OrderPool → OrderId → Orderbook L.Store
  enter_order b x pool id = record b {
    pool = pool;
    levels = L.fresh b.levels x;
    orders = (id, x) ∷ b.orders;
  }

  unfoldable pub add_limit : Orderbook L.Store → OrderRequest → Result (Bool × Orderbook L.Store)
  unfolding rest_order enter_order
  add_limit b req =
      if contains req.order_id b.orders
      then ok (false, b)
      else elim (OrderPool.allocate b.pool req.order_id req) [
        | none ↦ ok (false, b)
        | some (x, pool) ↦ do
          let b' = enter_order b x pool req.order_id
          guard (in_ladder (order_at L b' x).price) bad_index
          match_orders L (rest_order b' x)
      ]

  unfoldable pub add_order : Orderbook L.Store → OrderRequest → Result (Bool × Orderbook L.Store)
  unfolding add_limit
  add_order b req = if req.order_type == market then match_market L b req else add_limit b req

  -- The order taken off its level.
  unfoldable pub unlink_order : Orderbook L.Store → ℕ → Orderbook L.Store
  unfolding drop_level
  unlink_order b x =
      let sd = ladder (order_at L b x).side in
      let p = (order_at L b x).price in
      let b' = record b { levels = L.remove b.levels sd p x } in
      if L.empty b'.levels sd p then drop_level L b' sd (p == b.best sd) else b'

  unfoldable pub cancel_order : Orderbook L.Store → OrderId → Result (Orderbook L.Store)
  unfolding unlink_order
  cancel_order b id = do
    x ← or_fault (find id b.orders) out_of_range
    guard (in_ladder (order_at L b x).price) bad_index
    let b' = unlink_order b x
    ok (record b' { orders = erase_key id b'.orders; pool = OrderPool.deallocate b'.pool x })

  -- Same price and quantity: the timestamps change, and the book is matched again.
  unfoldable pub stamp_order :
      Orderbook L.Store → ℕ → OrderRequest → Result (Bool × Orderbook L.Store)
  stamp_order b x req =
      let b' = set_order L b x (record (order_at L b x) { recv_tsc = req.recv_tsc }) in
      if req.order_type == market then match_market L b' req else match_orders L b'

  unfoldable pub modify_order : Orderbook L.Store → OrderRequest → Result (Bool × Orderbook L.Store)
  modify_order b req = do
    x ← or_fault (find req.order_id b.orders) out_of_range
    let o = order_at L b x
    let same = req.price == o.price && req.quantity == o.initial_quantity
    if same then stamp_order b x req else (do b' ← cancel_order b req.order_id; add_order b' req)

  unfoldable pub process :
      Orderbook L.Store → OrderRequest → Result (ProcessResult × Orderbook L.Store)
  process b req =
      if req.message_type == new
      then (do (s, b') ← add_order b req; ok (record { status = success; suppress_ack = s }, b'))
      else if req.message_type == cancel
      then elim (find req.order_id b.orders) [
        | none ↦ ok (record { status = failure; suppress_ack = false }, b)
        | some x ↦
            if not ((order_at L b x).client_id == req.client_id)
            then ok (record { status = failure; suppress_ack = false }, b)
            else do
              b' ← cancel_order b req.order_id
              ok (record { status = success; suppress_ack = false }, b')
      ]
      else if req.message_type == modify
      then elim (find req.order_id b.orders) [
        | none ↦ ok (record { status = failure; suppress_ack = false }, b)
        | some x ↦
            if not ((order_at L b x).client_id == req.client_id)
              || not ((order_at L b x).side == req.side)
            then ok (record { status = failure; suppress_ack = false }, b)
            else do
              (s, b') ← modify_order b req
              ok (record { status = success; suppress_ack = s }, b')
      ]
      else ok (record { status = failure; suppress_ack = false }, b)

  -- The constructor. `levels` is the store of two ladders of empty levels.
  unfoldable pub init_with :
      L.Store → (ℕ → Order) → ℕ → RingBuffer OutboundMessage → Orderbook L.Store
  init_with levels arena capacity ring = record {
    pool = OrderPool.init arena capacity;
    levels = levels;
    orders = [];
    best = idle_price;
    non_empty = λ sd. 0;
    out_ring = ring;
  }
