-- ===== src/Engine/Orderbook/State.antt =====
-- The state of `Orderbook` (exchange/engine/include/orderbook.hpp) and the steps that its operations
-- share (exchange/engine/src/orderbook.cpp). The code writes each step twice, once for bids and once
-- for asks; here it is written once over the ladder. The levels are a parameter, the interface
-- `LevelStore`.
use client_exchange_simulati.Prelude.{
  ℕ, zero, suc, ◌+◌, ◌-◌, ◌%◌, ◌^◌, Bool, true, ◌&&◌, ltb, leb, ◌==◌, if◌then◌else◌,
}
use client_exchange_simulati.Prelude.Result.{Result, ok, ◌>>=◌}
use client_exchange_simulati.RingBuffer
use client_exchange_simulati.RingBuffer.{RingBuffer}
use client_exchange_simulati.Wire.{
  OutboundMessage, zero_outbound, Price, Quantity, Status, match, success,
}
use client_exchange_simulati.Engine.Config.{min_price, max_price}
use client_exchange_simulati.Engine.Order.{Order, OrderRequest, is_filled, fill}
use client_exchange_simulati.Engine.OrderPool
use client_exchange_simulati.Engine.OrderPool.{OrderPool, write}
use client_exchange_simulati.Engine.Levels.{Ladder, bids, asks, on, LevelStore}
use client_exchange_simulati.Engine.Orderbook.Orders.{OrderMap, erase_key}

pub record ProcessResult : Type 0 where
  pub status : Status
  pub suppress_ack : Bool

-- `Orderbook`, over a store `S` of price levels. `best bids` is `best_bid_price_` and
-- `non_empty bids` is `non_empty_bid_levels_`; likewise for the asks.
pub record Orderbook (S : Type 0) : Type 0 where
  pub pool : OrderPool
  pub levels : S
  pub orders : OrderMap
  pub best : Ladder → Price
  pub non_empty : Ladder → ℕ
  pub out_ring : RingBuffer OutboundMessage

-- `++n` and `--n` on a `size_t`
abbrev pub increment : ℕ → ℕ
increment n = (n + 1) % 2 ^ 64

abbrev pub decrement : ℕ → ℕ
decrement n = (n + 2 ^ 64 - 1) % 2 ^ 64

-- The value of `best_bid_price_` and `best_ask_price_` while their ladder is empty.
abbrev pub idle_price : Ladder → Price
idle_price bids = min_price
idle_price asks = max_price

-- Whether the first price matches before the second.
abbrev pub better : Ladder → Price → Price → Bool
better bids p q = ltb q p
better asks p q = ltb p q

-- Whether `price - MIN_PRICE` is an index of the arrays `bids_` and `asks_`.
abbrev pub in_ladder : Price → Bool
in_ladder p = leb min_price p && leb p max_price

-- The loops of `update_best_bid` and `update_best_ask`, with the number of ticks left to the end.
unfoldable pub scan : Ladder → (Price → Bool) → ℕ → Price → Price
scan sd is_empty zero p = p
scan bids is_empty (suc n) p =
    let next = scan bids is_empty n (p - 1) in if ltb min_price p && is_empty p then next else p
scan asks is_empty (suc n) p =
    let next = scan asks is_empty n (p + 1) in if ltb p max_price && is_empty p then next else p

-- The ticks between a price and the end of its ladder.
abbrev pub ticks_left : Ladder → Price → ℕ
ticks_left bids p = p - min_price
ticks_left asks p = max_price - p

module _ (L : LevelStore) where
  -- `get_order()` of a pointer that is held by value.
  abbrev pub order_at : Orderbook L.Store → ℕ → Order
  order_at b x = b.pool.arena x

  abbrev pub set_order : Orderbook L.Store → ℕ → Order → Orderbook L.Store
  set_order b x o = record b { pool = record b.pool { arena = write b.pool.arena x o } }

  unfoldable pub update_best : Orderbook L.Store → Ladder → Orderbook L.Store
  unfolding scan
  update_best b sd = record b {
    best = on sd (scan sd (L.empty b.levels sd) (ticks_left sd (b.best sd)) (b.best sd)) b.best;
  }

  -- `non_empty_…_levels_ == 0 ? reset the best price : update it if `stale``
  unfoldable pub drop_level : Orderbook L.Store → Ladder → Bool → Orderbook L.Store
  unfolding update_best
  drop_level b sd stale =
      let n = decrement (b.non_empty sd) in
      let b' = record b { non_empty = on sd n b.non_empty } in
      if n == 0
      then record b' { best = on sd (idle_price sd) b.best }
      else if stale
      then update_best b' sd
      else b'

  unfoldable pub push_message : Orderbook L.Store → OutboundMessage → Orderbook L.Store
  push_message b m = record b { out_ring = (RingBuffer.push b.out_ring m).1 }

  -- `…pop(); orders_.erase(order->id_); pool_.deallocate(order);`
  unfoldable pub pop_filled : Orderbook L.Store → Ladder → Price → ℕ → Orderbook L.Store
  pop_filled b sd p x = record b {
    levels = L.pop b.levels sd p;
    orders = erase_key (order_at b x).id b.orders;
    pool = OrderPool.deallocate b.pool x;
  }

  unfoldable pub match_message : Order → OutboundMessage
  match_message o = record zero_outbound {
    recv_tsc = o.recv_tsc;
    order_id = o.id;
    client_id = o.client_id;
    message_type = match;
    status = success;
  }

  unfoldable pub market_message : OrderRequest → OutboundMessage
  market_message req = record zero_outbound {
    recv_tsc = req.recv_tsc;
    engine_pop_tsc = req.engine_pop_tsc;
    order_id = req.order_id;
    client_id = req.client_id;
    message_type = match;
    status = success;
  }

  -- `order->fill(quantity)`
  unfoldable pub fill_at : Orderbook L.Store → ℕ → Quantity → Result (Orderbook L.Store)
  fill_at b x q = do o ← fill (order_at b x) q; ok (set_order b x o)

  -- `if (order->is_filled()) { … }`
  abbrev pub pop_if_filled : Orderbook L.Store → Ladder → Price → ℕ → Orderbook L.Store
  pop_if_filled b sd p x = if is_filled (order_at b x) then pop_filled b sd p x else b

  -- `if (level_done) { … }`
  abbrev pub drop_if_empty : Orderbook L.Store → Ladder → Price → Orderbook L.Store
  drop_if_empty b sd p = if L.empty b.levels sd p then drop_level b sd true else b
