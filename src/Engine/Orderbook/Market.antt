-- ===== src/Engine/Orderbook/Market.antt =====
-- `matchMarket` ends, and leaves a well-formed book.
use client_exchange_simulati.Prelude.{
  ℕ, zero, suc, ◌+◌, ◌-◌, ◌≤◌, ◌<◌, ◌≡◌, refl, ◌⊎◌, inl, inr, Bool, true, false, arith, ltb, ◌==◌,
  ◌&&◌, if◌then◌else◌, length, is_nil, Bool-cases,
}
use client_exchange_simulati.Prelude.Result.{Returns, Returns-bind, Returns-weaken}
use client_exchange_simulati.Wire.{Quantity, bid, ask}
use client_exchange_simulati.Engine.Order.{OrderRequest}
use client_exchange_simulati.Engine.Levels.{Ladder, bids, asks, list_levels}
use client_exchange_simulati.Engine.Orderbook.Matching.{market_round, market_loop, match_market}
use client_exchange_simulati.Engine.Orderbook.Invariant.{Book, IsBook, Shrinks}
use client_exchange_simulati.Engine.Orderbook.Orders.{length-erase_key}
use client_exchange_simulati.Engine.Orderbook.Crossing.{best_in_ladder}
use client_exchange_simulati.Engine.Orderbook.Exhausting.{not-is_nil}
use client_exchange_simulati.Engine.Orderbook.MarketRounds.{Taken, market_round-Returns}
use client_exchange_simulati.Engine.Orderbook.Priority.{Priority-refl, Priority-trans}
use client_exchange_simulati.Engine.Orderbook.Fronts.{Prior}
use client_exchange_simulati.Engine.Orderbook.Tally.{only, only-zero, only-plus}
use client_exchange_simulati.Engine.Orderbook.Conserving.{Falls}

-- What the loop leaves: the request is filled, or the other side of the book is empty.
pub record Marketed (b : Book) (sd : Ladder) (out : Bool × Book) : Type 0 where
  pub book : IsBook out.1
  pub fewer : length out.1.orders ≤ length b.orders
  pub shrinks : Shrinks b out.1
  pub swept : (out.0 ≡ true) ⊎ (out.1.non_empty sd ≡ 0)

-- What the loop has taken from the ladder `sd`, in price-time priority: at most the quantity asked,
-- and all of it exactly when it reports `true`.
pub record Takes (b : Book) (sd : Ladder) (asked : Quantity) (out : Bool × Book) : Type 0 where
  pub amount : ℕ
  pub falls : Falls b out.1 (only sd amount)
  pub at_most : amount ≤ asked
  pub complete : out.0 ≡ (amount == asked)
  pub prior : Prior b out.1 sd

record Market (b : Book) (sd : Ladder) (asked : Quantity) (out : Bool × Book) : Type 0 where
  pub marketed : Marketed b sd out
  pub takes : Takes b sd asked out

-- A round, and the rounds after it.
round-Takes :
    (b : Book) (sd : Ladder) (asked : Quantity) (mid : Quantity × Book) (out : Bool × Book)
    → Taken b sd asked mid
    → Takes mid.1 sd mid.0 out
    → Takes b sd asked out
round-Takes b sd asked mid out r t = record {
  amount = (asked - mid.0) + t.amount;
  falls = λ sd'. omega (arith, r.taken sd', t.falls sd', only-plus sd sd' (asked - mid.0) t.amount);
  at_most = omega (arith, t.at_most, r.less);
  complete = ground (arith, t.complete, r.less, t.at_most);
  prior = Priority-trans r.prior t.prior;
}

market_loop-Returns :
    (fuel : ℕ) (b : Book) (sd : Ladder) (req : OrderRequest) (remaining : Quantity)
    → IsBook b
    → (0 < remaining → length b.orders < fuel)
    → 0 < fuel
    → Returns (Market b sd remaining) (market_loop list_levels fuel b sd req remaining)
unfolding market_loop
market_loop-Returns zero b sd req remaining v h k = absurd (omega arith)
market_loop-Returns (suc fuel) b sd req remaining v h k =
    elim (Bool-cases (ltb 0 (b.non_empty sd) && ltb 0 remaining)) [
      | inr stop ↦ rw stop (record {
        marketed = record {
          book = v;
          fewer = omega arith;
          shrinks = λ s p e. e;
          swept = ground arith;
        };
        takes = record {
          amount = 0;
          falls = λ sd'. omega (arith, only-zero sd sd');
          at_most = omega arith;
          complete = ground arith;
          prior = Priority-refl;
        };
      })
      | inl go ↦
          let inside = best_in_ladder b sd (v.settled sd) in
          let full : is_nil (b.levels sd (b.best sd)) ≡ false = (v.settled sd).top (ground arith) in
          let (x, xs, ex) = not-is_nil (b.levels sd (b.best sd)) full in
          let found = (v.core.resting sd (b.best sd) x (rw ex (inl refl))).found in
          let one = length-erase_key _ x b.orders found in
          rw (go, inside)
            (rw full (
              Returns-bind _ _ (market_round list_levels b sd req remaining) _
                (market_round-Returns b sd req remaining x xs v ex)
                λ out r.
                  Returns-weaken _ _ (market_loop list_levels fuel out.1 sd req out.0)
                    (market_loop-Returns fuel out.1 sd req out.0 r.book
                      (λ m. omega (arith, r.fewer_if m, h (ground arith)))
                      (omega (arith, h (ground arith), one)))
                    λ out' m. record {
                      marketed = record {
                        book = m.marketed.book;
                        fewer = omega (arith, m.marketed.fewer, r.fewer);
                        shrinks = λ s p e. m.marketed.shrinks s p (r.shrinks s p e);
                        swept = m.marketed.swept;
                      };
                      takes = round-Takes b sd remaining out out' r m.takes;
                    }))
    ]

-- The ladder that a market order takes from.
abbrev pub opposite : OrderRequest → Ladder
opposite req = if req.side == bid then asks else bids

match_market-Market :
    (b : Book) (req : OrderRequest)
    → IsBook b
    → (req.side ≡ bid) ⊎ (req.side ≡ ask)
    → Returns (Market b (opposite req) req.quantity) (match_market list_levels b req)
unfolding match_market
match_market-Market b req v (inl e) =
    let buys : (req.side == bid) ≡ true = ground arith in
    rw buys (
      market_loop-Returns (suc (length b.orders)) b asks req req.quantity v (λ _. omega arith)
        (omega arith))
match_market-Market b req v (inr e) =
    let not_buys : (req.side == bid) ≡ false = ground arith in
    let sells : (req.side == ask) ≡ true = ground arith in
    rw (not_buys, sells)
      (market_loop-Returns (suc (length b.orders)) b bids req req.quantity v (λ _. omega arith)
        (omega arith))

-- From a well-formed book `matchMarket` of a buy or a sell returns, with no fault and within its fuel.
-- It leaves a well-formed book with no more orders than before, in which an empty level stays empty,
-- and reports `true` or has emptied the other side.
pub match_market-Returns :
    (b : Book) (req : OrderRequest)
    → IsBook b
    → (req.side ≡ bid) ⊎ (req.side ≡ ask)
    → Returns (Marketed b (opposite req)) (match_market list_levels b req)
match_market-Returns b req v e =
    Returns-weaken _ _ (match_market list_levels b req) (match_market-Market b req v e)
      λ out m. m.marketed

-- From a well-formed book `matchMarket` of a buy or a sell returns. The quantity that rests on the other
-- side, summed over the orders of the map, falls by an amount of at most the quantity of the request,
-- and by all of it exactly when the answer is `true`; what rests on the request's own side stays as it
-- was. Orders leave the front of their level only, behind the first that is left on a level no order has
-- changed, and while a better level of the other side holds an order, none of a level has changed or
-- left.
pub match_market-Takes :
    (b : Book) (req : OrderRequest)
    → IsBook b
    → (req.side ≡ bid) ⊎ (req.side ≡ ask)
    → Returns (Takes b (opposite req) req.quantity) (match_market list_levels b req)
match_market-Takes b req v e =
    Returns-weaken _ _ (match_market list_levels b req) (match_market-Market b req v e)
      λ out m. m.takes
