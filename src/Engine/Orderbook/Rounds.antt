-- ===== src/Engine/Orderbook/Rounds.antt =====
-- One round of `matchOrders` returns, keeps the book well formed and takes an order out of it.
use client_exchange_simulati.Prelude.{
  ℕ, ◌<◌, min, ◌≡◌, ◌≢◌, refl, sym, ap, ◌∙◌, ◌⊎◌, inl, inr, Bool, true, List, ◌∷◌, arith, ◌||◌,
  length, In,
}
use client_exchange_simulati.Prelude.Result.{ok, Returns}
use client_exchange_simulati.Engine.Order.{is_filled}
use client_exchange_simulati.Engine.Levels.{Ladder, bids, asks, ladder, list_levels}
use client_exchange_simulati.Engine.Orderbook.State.{
  order_at, set_order, push_message, pop_if_filled, drop_if_empty, match_message,
}
use client_exchange_simulati.Engine.Orderbook.Matching.{settle, match_round}
use client_exchange_simulati.Engine.Orderbook.Invariant.{
  Book, Core, Settled, IsBook, SameSide-Settled, SameSide-Pending,
}
use client_exchange_simulati.Engine.Orderbook.Conserving.{
  Falls, Trades, only_both, Dropped-Falls, fill-Falls, pop_if_filled-Falls,
}
use client_exchange_simulati.Engine.Orderbook.Fronts.{Prior, IsBest, settle-Fronts, front-Prior}
use client_exchange_simulati.Engine.Orderbook.Steps.{
  pop_if_filled_lem, Dropped, drop_if_empty_lem, filled_by, fill_at_lem, set_order-IsBook,
  push_message-IsBook,
}

pub bids≢asks : bids ≢ asks
bids≢asks e = cc

pub asks≢bids : asks ≢ bids
asks≢bids e = cc

pub side_cases : (sd sd' : Ladder) → (sd ≡ sd') ⊎ (sd ≢ sd')
side_cases bids bids = inl refl
side_cases bids asks = inr bids≢asks
side_cases asks bids = inr asks≢bids
side_cases asks asks = inl refl

-- The core speaks of the pool, the levels and the map alone.
pub Dropped-Core : {b b' : Book} {sd : Ladder} → Dropped b b' sd → Core b → Core b'
Dropped-Core d c = rw (d.same_pool, d.same_levels, d.same_orders) c

-- After the fills of a round the book is well formed again, and shorter if an order was filled.
pub record Shorter (b b' : Book) (filled : Bool) : Type 0 where
  pub book : IsBook b'
  pub fewer_if : filled ≡ true → length b'.orders < length b.orders
  pub still : Falls b b' (λ _. 0)

both : (b : Book) → Settled b asks → Settled b bids → (sd : Ladder) → Settled b sd
both b s t bids = t
both b s t asks = s

settle_lem :
    (b : Book) (pb pa x y : ℕ) (xs ys : List ℕ)
    → IsBook b
    → b.levels bids pb ≡ x ∷ xs
    → b.levels asks pa ≡ y ∷ ys
    → Shorter b
        (settle list_levels b pb pa x y).1
        (is_filled (order_at list_levels b x) || is_filled (order_at list_levels b y))
unfolding settle
settle_lem b pb pa x y xs ys v ex ey =
    let b1 = pop_if_filled list_levels b bids pb x in
    let p1 = pop_if_filled_lem b bids pb x xs v.core (v.settled bids) ex in
    let b2 = pop_if_filled list_levels b1 asks pa y in
    let keep1 = p1.across asks bids≢asks in
    let p2 =
      pop_if_filled_lem b1 asks pa y ys p1.core (SameSide-Settled keep1 (v.settled asks))
        (ap (λ l. l pa) keep1.levels ∙ ey) in
    let b3 = drop_if_empty list_levels b2 bids pb in
    let d3 =
      drop_if_empty_lem b2 bids pb (SameSide-Pending (p2.across bids asks≢bids) p1.pending) in
    let d4 =
      drop_if_empty_lem b3 asks pa (SameSide-Pending (d3.across asks bids≢asks) p2.pending) in
    let f1 = pop_if_filled-Falls b bids pb x v.core (rw ex (inl refl)) in
    let front : b1.levels asks pa ≡ y ∷ ys = ap (λ l. l pa) keep1.levels ∙ ey in
    let f2 = pop_if_filled-Falls b1 asks pa y p1.core (rw front (inl refl)) in
    let f3 = Dropped-Falls d3 in
    let f4 = Dropped-Falls d4 in
    record {
      book = record {
        core = Dropped-Core d4 (Dropped-Core d3 p2.core);
        settled =
            both (drop_if_empty list_levels b3 asks pa) d4.settled
              (SameSide-Settled (d4.across bids asks≢bids) d3.settled);
      };
      fewer_if = λ h.
          let first = p1.fewer_if in
          let second : is_filled (order_at list_levels b y) ≡ true
              → length b2.orders < length b1.orders =
            λ f. p2.fewer_if (rw p1.same_arena f) in
          ground (arith, p1.fewer, p2.fewer, ap length d3.same_orders, ap length d4.same_orders);
      still = λ sd. omega (arith, f1 sd, f2 sd, f3 sd, f4 sd);
    }

-- The book after both fills and both messages of a round.
abbrev pub filled_round : Book → ℕ → ℕ → Book
filled_round b x y =
    let q =
      min (order_at list_levels b x).remaining_quantity
        (order_at list_levels b y).remaining_quantity in
    let b1 = set_order list_levels b x (filled_by (order_at list_levels b x) q) in
    let b2 = set_order list_levels b1 y (filled_by (order_at list_levels b1 y) q) in
    push_message list_levels
      (push_message list_levels b2 (match_message list_levels (order_at list_levels b x)))
      (match_message list_levels (order_at list_levels b y))

module _ (b : Book) (pb pa x y : ℕ) (xs ys : List ℕ) (v : IsBook b) (ex : b.levels bids pb ≡ x ∷ xs)
    (ey : b.levels asks pa ≡ y ∷ ys) where
  -- A bid and an ask are two orders.
  x≢y : x ≢ y
  x≢y e =
      let rx = v.core.resting bids pb x (rw ex (inl refl)) in
      let ry = v.core.resting asks pa y (rw ey (inl refl)) in
      bids≢asks (sym rx.on_side ∙ (ap (λ z. ladder (b.pool.arena z).side) e ∙ ry.on_side))

  match_round_lem :
      match_round list_levels b pb pa ≡ ok (settle list_levels (filled_round b x y) pb pa x y)
  unfolding match_round
  match_round_lem =
      let ox = order_at list_levels b x in
      let oy = order_at list_levels b y in
      let q = min ox.remaining_quantity oy.remaining_quantity in
      let b1 = set_order list_levels b x (filled_by ox q) in
      let one = fill_at_lem b x q (omega arith) in
      let apart = x≢y in
      let two = fill_at_lem b1 y q (ground arith) in rw (ex, ey) (rw one (rw two refl))

  filled_round-IsBook : IsBook (filled_round b x y)
  filled_round-IsBook = push_message-IsBook _ _ (
      push_message-IsBook _ _ (
        set_order-IsBook _ y _
          (set_order-IsBook b x _ v
            (record { same_id = refl; same_side = refl; same_price = refl }))
          (record { same_id = refl; same_side = refl; same_price = refl })))

  -- Both orders are filled by the same quantity.
  filled_round-Trades : Trades b (filled_round b x y) (
      min
        (order_at list_levels b x).remaining_quantity
        (order_at list_levels b y).remaining_quantity)
  unfolding push_message
  filled_round-Trades sd =
      let ox = order_at list_levels b x in
      let q = min ox.remaining_quantity (order_at list_levels b y).remaining_quantity in
      let b1 = set_order list_levels b x (filled_by ox q) in
      let v1 =
        set_order-IsBook b x (filled_by ox q) v
          (record { same_id = refl; same_side = refl; same_price = refl }) in
      let apart = x≢y in
      let f1 = fill-Falls b bids pb x q v.core (rw ex (inl refl)) (omega arith) in
      let f2 = fill-Falls b1 asks pa y q v1.core (rw ey (inl refl)) (ground arith) in
      omega (arith, f1 sd, f2 sd, only_both sd q)

  -- The smaller of the two quantities is filled: one of the orders is done.
  one_is_filled :
      (is_filled (order_at list_levels (filled_round b x y) x)
        || is_filled (order_at list_levels (filled_round b x y) y))
      ≡ true
  unfolding push_message
  one_is_filled = let apart = x≢y in ground arith

  settled_round : Book
  settled_round = (settle list_levels (filled_round b x y) pb pa x y).1

  -- Orders on the two sides are not the same.
  sides_apart : (p q z w : ℕ) → In z (b.levels bids p) → In w (b.levels asks q) → z ≢ w
  sides_apart p q z w i j e = bids≢asks (
      sym (v.core.resting bids p z i).on_side
      ∙ (ap (λ o. ladder (b.pool.arena o).side) e ∙ (v.core.resting asks q w j).on_side))

  -- A round at the best prices changes the first orders of their levels only.
  round-Prior : IsBest b bids pb → IsBest b asks pa → (sd : Ladder) → Prior b settled_round sd
  unfolding settled_round push_message
  round-Prior best_bid best_ask bids =
      let s = settle-Fronts (filled_round b x y) pb pa x y xs ys ex ey in
      front-Prior b settled_round bids pb x xs v.core ex best_bid s.bid λ q z i ne.
        let other = sides_apart q pa z y i (rw ey (inl refl)) in
        ap (λ a. a z) s.arena ∙ ground arith
  round-Prior best_bid best_ask asks =
      let s = settle-Fronts (filled_round b x y) pb pa x y xs ys ex ey in
      front-Prior b settled_round asks pa y ys v.core ey best_ask s.ask λ q z i ne.
        let other = sides_apart pb q x z (rw ex (inl refl)) i in
        ap (λ a. a z) s.arena ∙ ground arith

  -- A round of `matchOrders` at two levels that are not empty returns, keeps the book well formed,
  -- leaves fewer orders, takes the same quantity from both sides, and at the best prices keeps
  -- price-time priority.
  pub match_round-Returns :
      Returns
        (λ out.
          IsBook out.1
          × (length out.1.orders < length b.orders)
          × ((q : ℕ) × Trades b out.1 q)
          × (IsBest b bids pb → IsBest b asks pa → (sd : Ladder) → Prior b out.1 sd))
        (match_round list_levels b pb pa)
  unfolding push_message settled_round
  match_round-Returns =
      let s = settle_lem (filled_round b x y) pb pa x y xs ys filled_round-IsBook ex ey in
      let traded =
        min (order_at list_levels b x).remaining_quantity
          (order_at list_levels b y).remaining_quantity in
      let f = filled_round-Trades in
      rw match_round_lem (
        s.book,
        s.fewer_if one_is_filled,
        (traded, λ sd. omega (arith, f sd, s.still sd)),
        round-Prior,
      )
