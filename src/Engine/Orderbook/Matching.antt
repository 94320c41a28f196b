-- ===== src/Engine/Orderbook/Matching.antt =====
-- `matchOrders` and `matchMarket` of exchange/engine/src/orderbook.cpp. A round of either loop that
-- fills an order removes one, so their fuel is the number of orders.
use client_exchange_simulati.Prelude.{
  ℕ, zero, suc, ◌-◌, min, Bool, true, false, ◌&&◌, ◌||◌, ltb, ◌==◌, if◌then◌else◌, length,
}
use client_exchange_simulati.Prelude.Result.{
  Result, ok, err, ◌>>=◌, ◌>>◌, guard, or_fault, bad_index, null_pointer, out_of_fuel,
}
use client_exchange_simulati.Wire.{Price, Quantity, bid, ask}
use client_exchange_simulati.Engine.Order.{OrderRequest}
use client_exchange_simulati.Engine.Levels.{Ladder, bids, asks, LevelStore}
use client_exchange_simulati.Engine.Orderbook.State.{
  Orderbook, in_ladder, order_at, push_message, match_message, market_message, fill_at,
  pop_if_filled, drop_if_empty,
}

module _ (L : LevelStore) where
  -- The rounds still to be made at most.
  abbrev pub fuel_of : Orderbook L.Store → ℕ
  fuel_of b = suc (length b.orders)

  -- What follows the fills of a round: `if (bid->is_filled()) …`, `if (ask->is_filled()) …`,
  -- `if (bid_level_done) …`, `if (ask_level_done) …`. The Boolean is
  -- `bid_level_done || ask_level_done`.
  unfoldable pub settle : Orderbook L.Store → Price → Price → ℕ → ℕ → Bool × Orderbook L.Store
  settle b bp ap x y =
      let b' = pop_if_filled L (pop_if_filled L b bids bp x) asks ap y in
      (
        L.empty b'.levels bids bp || L.empty b'.levels asks ap,
        drop_if_empty L (drop_if_empty L b' bids bp) asks ap,
      )

  -- One round of the inner loop of `matchOrders`, from the fronts of the levels at `bp` and `ap`.
  unfoldable pub match_round : Orderbook L.Store → Price → Price → Result (Bool × Orderbook L.Store)
  match_round b bp ap = do
    x ← or_fault (L.front b.levels bids bp) null_pointer
    y ← or_fault (L.front b.levels asks ap) null_pointer
    let quantity = min (order_at L b x).remaining_quantity (order_at L b y).remaining_quantity
    let buy_msg = match_message L (order_at L b x)
    let ask_msg = match_message L (order_at L b y)
    b ← fill_at L b x quantity
    b ← fill_at L b y quantity
    ok (settle (push_message L (push_message L b buy_msg) ask_msg) bp ap x y)

  -- The inner loop of `matchOrders`, over the levels at `bp` and `ap`. The Boolean is `level_matched`.
  unfoldable pub match_levels :
      ℕ → Orderbook L.Store → Price → Price → Bool → Result (Bool × Orderbook L.Store)
  match_levels zero b bp ap matched = err out_of_fuel
  match_levels (suc fuel) b bp ap matched =
      if L.empty b.levels bids bp || L.empty b.levels asks ap
      then ok (matched, b)
      else if ltb (b.best bids) (b.best asks)
      then ok (matched, b)
      else do
        (done, b') ← match_round b bp ap
        elim done [ true ↦ ok (true, b') | false ↦ match_levels fuel b' bp ap true ]

  -- The outer loop. The Boolean is `any_filled`.
  unfoldable pub match_loop : ℕ → Orderbook L.Store → Bool → Result (Bool × Orderbook L.Store)
  match_loop zero b any = err out_of_fuel
  match_loop (suc fuel) b any =
      if ltb 0 (b.non_empty bids) && ltb 0 (b.non_empty asks)
      then (do
        guard (in_ladder (b.best bids) && in_ladder (b.best asks)) bad_index
        (matched, b') ← match_levels (fuel_of b) b (b.best bids) (b.best asks) false
        elim matched [ true ↦ match_loop fuel b' true | false ↦ ok (any, b') ])
      else ok (any, b)

  unfoldable pub match_orders : Orderbook L.Store → Result (Bool × Orderbook L.Store)
  match_orders b = match_loop (fuel_of b) b false

  -- One round of the loops of `matchMarket` against the front of the best level of `sd`; the number is
  -- the quantity still to be filled.
  unfoldable pub market_round :
      Orderbook L.Store → Ladder → OrderRequest → Quantity → Result (Quantity × Orderbook L.Store)
  market_round b sd req remaining = do
    let p = b.best sd
    x ← or_fault (L.front b.levels sd p) null_pointer
    let quantity = min remaining (order_at L b x).remaining_quantity
    let resting_msg = match_message L (order_at L b x)
    b ← fill_at L b x quantity
    let b = push_message L (push_message L b (market_message L req)) resting_msg
    ok (remaining - quantity, drop_if_empty L (pop_if_filled L b sd p x) sd p)

  unfoldable pub market_loop :
      ℕ → Orderbook L.Store → Ladder → OrderRequest → Quantity → Result (Bool × Orderbook L.Store)
  market_loop zero b sd req remaining = err out_of_fuel
  market_loop (suc fuel) b sd req remaining =
      if ltb 0 (b.non_empty sd) && ltb 0 remaining
      then (do
        guard (in_ladder (b.best sd)) bad_index
        elim (L.empty b.levels sd (b.best sd)) [
          | true ↦ ok (false, b)
          | false ↦ do
            (remaining', b') ← market_round b sd req remaining
            market_loop fuel b' sd req remaining'
        ])
      else ok (remaining == 0, b)

  unfoldable pub match_market : Orderbook L.Store → OrderRequest → Result (Bool × Orderbook L.Store)
  match_market b req =
      if req.side == bid
      then market_loop (fuel_of b) b asks req req.quantity
      else if req.side == ask
      then market_loop (fuel_of b) b bids req req.quantity
      else ok (req.quantity == 0, b)
