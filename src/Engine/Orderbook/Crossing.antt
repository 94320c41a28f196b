-- ===== src/Engine/Orderbook/Crossing.antt =====
-- `matchOrders` ends, and leaves a well-formed book that is not crossed.
use mathlib.Core.Bool.{false≢true}
use client_exchange_simulati.Prelude.{
  ℕ, zero, suc, ◌≤◌, ◌<◌, ◌≡◌, refl, sym, subst, ◌⊎◌, inl, inr, Bool, true, false, arith, ltb, ◌&&◌,
  length, Bool-cases,
}
use client_exchange_simulati.Prelude.Result.{ok, Returns, Returns-bind, Returns-weaken}
use client_exchange_simulati.Engine.Levels.{Ladder, bids, asks, list_levels}
use client_exchange_simulati.Engine.Orderbook.State.{in_ladder}
use client_exchange_simulati.Engine.Orderbook.Matching.{match_levels, match_loop, match_orders}
use client_exchange_simulati.Engine.Orderbook.Invariant.{
  Book, Settled, IsBook, IsUncrossed, IsUncrossed-of_best,
}
use client_exchange_simulati.Engine.Orderbook.Priority.{Priority-refl, Priority-trans}
use client_exchange_simulati.Engine.Orderbook.Fronts.{Prior}
use client_exchange_simulati.Engine.Orderbook.Conserving.{Trades}
use client_exchange_simulati.Engine.Orderbook.Exhausting.{
  Matched, Trades-trans, match_levels-Returns,
}

-- What the outer loop leaves.
record Matching (b : Book) (any : Bool) (out : Bool × Book) : Type 0 where
  pub book : IsBook out.1
  pub uncrossed : IsUncrossed out.1
  pub fewer : length out.1.orders ≤ length b.orders
  pub reports : any ≡ true → out.0 ≡ true
  pub idle : out.0 ≡ false → out.1 ≡ b
  pub progress : out.0 ≡ true → (any ≡ true) ⊎ (length out.1.orders < length b.orders)
  pub traded : (q : ℕ) × Trades b out.1 q
  pub prior : (sd : Ladder) → Prior b out.1 sd

pub best_in_ladder : (b : Book) (sd : Ladder) → Settled b sd → in_ladder (b.best sd) ≡ true
best_in_ladder b sd v = ground (arith, v.low, v.high)

match_loop-Returns :
    (fuel : ℕ) (b : Book) (any : Bool)
    → IsBook b
    → length b.orders < fuel
    → Returns (Matching b any) (match_loop list_levels fuel b any)
unfolding match_loop
match_loop-Returns zero b any v h = absurd (omega arith)
match_loop-Returns (suc fuel) b any v h =
    elim (Bool-cases (ltb 0 (b.non_empty bids) && ltb 0 (b.non_empty asks))) [
      | inr one_side ↦ rw one_side (record {
        book = v;
        uncrossed = IsUncrossed-of_best b v (λ p q. absurd (ground arith));
        fewer = omega arith;
        reports = λ e. e;
        idle = λ e. refl;
        progress = λ e. inl e;
        traded = (0, λ sd. omega arith);
        prior = λ sd. Priority-refl;
      })
      | inl two_sides ↦
          let inside : (in_ladder (b.best bids) && in_ladder (b.best asks)) ≡ true =
            rw (best_in_ladder b bids (v.settled bids), best_in_ladder b asks (v.settled asks))
              refl in
          rw (two_sides, inside)
            (Returns-bind _ _
              (match_levels list_levels (suc (length b.orders)) b (b.best bids) (b.best asks) false)
              _
              (match_levels-Returns (suc (length b.orders)) b (b.best bids) (b.best asks) false v
                (omega arith))
              λ out m. continue out.0 out.1 m (match_loop-Returns fuel out.1 true))
    ]
  where
    continue :
        (matched : Bool) (b' : Book)
        → Matched b (b.best bids) (b.best asks) false (matched, b')
        → (IsBook b'
            → length b'.orders < fuel
            → Returns (Matching b' true) (match_loop list_levels fuel b' true))
        → Returns
            (Matching b any)
            (elim matched [ true ↦ match_loop list_levels fuel b' true | false ↦ ok (any, b') ])
    continue true b' m ih =
        let less : length b'.orders < length b.orders = ground (arith, m.progress refl) in
        Returns-weaken _ _ (match_loop list_levels fuel b' true) (ih m.book (omega arith)) λ out r.
          record {
            book = r.book;
            uncrossed = r.uncrossed;
            fewer = omega (arith, r.fewer);
            reports = λ _. r.reports refl;
            idle = λ e. cc (r.reports refl);
            progress = λ _. inr (omega (arith, r.fewer));
            traded = Trades-trans b b' out.1 m.traded r.traded;
            prior = λ sd.
                Priority-trans (m.prior (v.settled bids).beyond (v.settled asks).beyond sd)
                  (r.prior sd);
          }
    continue false b' m ih =
        let same = m.idle refl in
        record {
          book = m.book;
          uncrossed = subst IsUncrossed (sym same.1) (
              IsUncrossed-of_best b v
                λ p q. ground (arith, same.2, (v.settled bids).top p, (v.settled asks).top q));
          fewer = m.fewer;
          reports = λ e. e;
          idle = λ e. same.1;
          progress = λ e. inl e;
          traded = m.traded;
          prior = m.prior (v.settled bids).beyond (v.settled asks).beyond;
        }

match_orders-Matching :
    (b : Book) → IsBook b → Returns (Matching b false) (match_orders list_levels b)
unfolding match_orders
match_orders-Matching b v = match_loop-Returns (suc (length b.orders)) b false v (omega arith)

-- What `matchOrders` leaves: the book as it was, or one with fewer orders.
pub record Crossed (b : Book) (out : Bool × Book) : Type 0 where
  pub book : IsBook out.1
  pub uncrossed : IsUncrossed out.1
  pub outcome :
      ((out.0 ≡ false) × (out.1 ≡ b)) ⊎ ((out.0 ≡ true) × (length out.1.orders < length b.orders))

-- From a well-formed book `matchOrders` returns, with no fault and within its fuel. It leaves a
-- well-formed book in which no bid reaches an ask. Either it reports `false` and has changed nothing,
-- or it reports `true` and fewer orders are left.
pub match_orders-Returns : (b : Book) → IsBook b → Returns (Crossed b) (match_orders list_levels b)
match_orders-Returns b v =
    Returns-weaken (Matching b false) (Crossed b) (match_orders list_levels b)
      (match_orders-Matching b v)
      λ out m. record {
        book = m.book;
        uncrossed = m.uncrossed;
        outcome = elim (Bool-cases out.0) [
          | inr quiet ↦ inl (quiet, m.idle quiet)
          | inl traded ↦
              inr (
                traded,
                elim (m.progress traded) [ inl e ↦ absurd (false≢true e) | inr less ↦ less ],
              )
        ];
      }

-- What `matchOrders` does to the two sides: what they lose, and in which order.
pub record Traded (b : Book) (out : Bool × Book) : Type 0 where
  pub amount : ℕ
  pub falls : Trades b out.1 amount
  pub prior : (sd : Ladder) → Prior b out.1 sd

-- From a well-formed book `matchOrders` returns, and takes from the quantity that rests on the bids,
-- summed over the orders of the map, as much as from that on the asks. On both sides it keeps
-- price-time priority: orders leave the front of their level only, behind the first that is left on a
-- level no order has changed, and while a better level of the side holds an order, none of a level has
-- changed or left.
pub match_orders-Traded : (b : Book) → IsBook b → Returns (Traded b) (match_orders list_levels b)
match_orders-Traded b v =
    Returns-weaken _ _ (match_orders list_levels b) (match_orders-Matching b v)
      λ out m. record { amount = m.traded.0; falls = m.traded.1; prior = m.prior }
