-- ===== src/Engine/Orderbook/MarketRounds.antt =====
-- One round of `matchMarket` returns, keeps the book well formed, and takes an order out of it or ends
-- the request.
use client_exchange_simulati.Prelude.{
  ℕ, ◌-◌, ◌≤◌, ◌<◌, min, ◌≡◌, refl, sym, ap, subst, ◌∙◌, inl, inr, true, List, ◌∷◌, arith, length,
  is_nil,
}
use client_exchange_simulati.Prelude.Result.{ok, Returns}
use client_exchange_simulati.Wire.{Quantity}
use client_exchange_simulati.Engine.Order.{OrderRequest, is_filled}
use client_exchange_simulati.Engine.Levels.{Ladder, list_levels}
use client_exchange_simulati.Engine.Orderbook.State.{
  order_at, set_order, push_message, pop_if_filled, drop_if_empty, match_message, market_message,
}
use client_exchange_simulati.Engine.Orderbook.Matching.{market_round}
use client_exchange_simulati.Engine.Orderbook.Invariant.{
  Book, Settled, IsBook, SameSide-Settled, Shrinks,
}
use client_exchange_simulati.Engine.Orderbook.Steps.{
  Popped, pop_if_filled_lem, Dropped, drop_if_empty_lem, filled_by, fill_at_lem, set_order-IsBook,
  push_message-IsBook,
}
use client_exchange_simulati.Engine.Orderbook.Priority.{Lost}
use client_exchange_simulati.Engine.Orderbook.Fronts.{
  Prior, pop_if_filled-Lost, arena-pop_if_filled, drop_if_empty-keeps, front-Prior,
}
use client_exchange_simulati.Engine.Orderbook.Tally.{only}
use client_exchange_simulati.Engine.Orderbook.Conserving.{
  Falls, Dropped-Falls, fill-Falls, pop_if_filled-Falls,
}
use client_exchange_simulati.Engine.Orderbook.Rounds.{side_cases, Dropped-Core}

-- What a round leaves: what is still to be filled, and the book.
pub record Taken (b : Book) (sd : Ladder) (remaining : Quantity) (out : Quantity × Book)
    : Type 0 where
  pub book : IsBook out.1
  pub less : out.0 ≤ remaining
  pub fewer_if : 0 < out.0 → length out.1.orders < length b.orders
  pub fewer : length out.1.orders ≤ length b.orders
  pub shrinks : Shrinks b out.1
  pub taken : Falls b out.1 (only sd (remaining - out.0))
  pub prior : Prior b out.1 sd

-- The book after the fill and the messages of a round of `matchMarket`.
abbrev pub filled_market : Book → OrderRequest → ℕ → Quantity → Book
filled_market b req x remaining =
    let o = order_at list_levels b x in
    push_message list_levels
      (push_message list_levels
        (set_order list_levels b x (filled_by o (min remaining o.remaining_quantity)))
        (market_message list_levels req))
      (match_message list_levels o)

module _ (b : Book) (sd : Ladder) (req : OrderRequest) (remaining x : ℕ) (xs : List ℕ)
    (v : IsBook b) (ex : b.levels sd (b.best sd) ≡ x ∷ xs) where
  abbrev sent : Book
  sent = filled_market b req x remaining

  abbrev popped : Book
  popped = pop_if_filled list_levels sent sd (b.best sd) x

  market_round_lem :
      market_round list_levels b sd req remaining
      ≡ ok (
        remaining - min remaining (order_at list_levels b x).remaining_quantity,
        drop_if_empty list_levels popped sd (b.best sd),
      )
  unfolding market_round
  market_round_lem =
      let q = min remaining (order_at list_levels b x).remaining_quantity in
      rw ex (rw (fill_at_lem b x q (omega arith)) refl)

  sent-IsBook : IsBook sent
  sent-IsBook = push_message-IsBook _ _ (
      push_message-IsBook _ _
        (set_order-IsBook b x _ v (record { same_id = refl; same_side = refl; same_price = refl })))

  sent-level : sent.levels sd (b.best sd) ≡ x ∷ xs
  unfolding push_message
  sent-level = ex

  filled_if :
      0 < remaining - min remaining (order_at list_levels b x).remaining_quantity
      → is_filled (order_at list_levels sent x) ≡ true
  unfolding push_message
  filled_if h = ground arith

  sent-levels : sent.levels ≡ b.levels
  unfolding push_message
  sent-levels = refl

  sent-orders : sent.orders ≡ b.orders
  unfolding push_message
  sent-orders = refl

  sent-Falls : Falls b sent (only sd (min remaining (order_at list_levels b x).remaining_quantity))
  unfolding push_message
  sent-Falls =
      fill-Falls b sd (b.best sd) x (min remaining (order_at list_levels b x).remaining_quantity)
        v.core (rw ex (inl refl)) (omega arith)

  -- The round changes the first order of the best level only.
  round-Prior : Prior b (drop_if_empty list_levels popped sd (b.best sd)) sd
  unfolding push_message
  round-Prior =
      let drop = drop_if_empty-keeps popped sd (b.best sd) in
      front-Prior b (drop_if_empty list_levels popped sd (b.best sd)) sd (b.best sd) x xs v.core ex
        (v.settled sd).beyond
        (subst (Lost (b.levels sd) (b.best sd) xs) (sym (ap (λ l. l sd) drop.0))
          (pop_if_filled-Lost sent sd (b.best sd) x xs ex))
        λ q z i ne.
          ap (λ p. p.arena z) drop.1
          ∙ (ap (λ a. a z) (arena-pop_if_filled sent sd (b.best sd) x) ∙ ground arith)

  -- A round of `matchMarket` at a level that is not empty returns, keeps the book well formed, and
  -- ends the request or leaves fewer orders. What it fills of the request it takes from `sd`,
  -- in price-time priority.
  pub market_round-Returns :
      Returns (Taken b sd remaining) (market_round list_levels b sd req remaining)
  market_round-Returns =
      let p =
        pop_if_filled_lem sent sd (b.best sd) x xs sent-IsBook.core (sent-IsBook.settled sd)
          sent-level in
      let d = drop_if_empty_lem popped sd (b.best sd) p.pending in
      let filled = sent-Falls in
      let left =
        pop_if_filled-Falls sent sd (b.best sd) x sent-IsBook.core (rw sent-level (inl refl)) in
      let dropped = Dropped-Falls d in
      let after_drop = ap length d.same_orders in
      let before_pop = ap length sent-orders in
      rw market_round_lem (record {
        book = record { core = Dropped-Core d p.core; settled = settled_all p d };
        less = omega arith;
        fewer_if = λ h. ground (arith, p.fewer_if (filled_if h));
        fewer = ground (arith, p.fewer);
        shrinks = λ sd' q gone.
            subst (λ v. is_nil (v sd' q) ≡ true) (sym d.same_levels)
              (p.shrinks sd' q (rw sent-levels gone));
        taken = λ sd'.
            let rest : remaining
                  - (remaining - min remaining (order_at list_levels b x).remaining_quantity)
                ≡ min remaining (order_at list_levels b x).remaining_quantity =
              omega arith in
            let part = ap (λ n. only sd n sd') rest in
            omega (arith, filled sd', left sd', dropped sd', part);
        prior = round-Prior;
      })
    where
      settled_all :
          Popped sent popped sd (b.best sd) x
          → Dropped popped (drop_if_empty list_levels popped sd (b.best sd)) sd
          → (sd' : Ladder) → Settled (drop_if_empty list_levels popped sd (b.best sd)) sd'
      settled_all p d sd' = elim (side_cases sd sd') [
        | inl e ↦ subst (Settled (drop_if_empty list_levels popped sd (b.best sd))) e d.settled
        | inr ne ↦
            SameSide-Settled (d.across sd' ne)
              (SameSide-Settled (p.across sd' ne) (sent-IsBook.settled sd'))
      ]
