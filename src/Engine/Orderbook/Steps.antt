-- ===== src/Engine/Orderbook/Steps.antt =====
-- The small steps of the book's operations, and what each keeps of the invariant.
use client_exchange_simulati.Prelude.{
  ℕ, ◌-◌, ◌≤◌, ◌<◌, ◌≡◌, ◌≢◌, refl, sym, subst, inl, inr, Bool, true, false, List, ◌∷◌, arith, ltb,
  ◌==◌, length, is_nil, Bool-cases, Distinct,
}
use client_exchange_simulati.Prelude.Result.{ok}
use client_exchange_simulati.Wire.{OutboundMessage, Quantity}
use client_exchange_simulati.Engine.Order.{Order, is_filled, fill}
use client_exchange_simulati.Engine.OrderPool.{write, deallocate}
use client_exchange_simulati.Engine.Levels.{Ladder, on, list_levels}
use client_exchange_simulati.Engine.Orderbook.State.{
  order_at, set_order, push_message, pop_filled, pop_if_filled, drop_level, drop_if_empty,
  update_best, fill_at, decrement,
}
use client_exchange_simulati.Engine.Orderbook.Orders.{length-erase_key}
use client_exchange_simulati.Engine.Orderbook.Ladders.{
  reduce-IsPending, keep-IsLadder, drop-IsLadder, best_after,
}
use client_exchange_simulati.Engine.Orderbook.Core.{
  Without, pop-Without, leave-IsCore, set_level-cases,
}
use client_exchange_simulati.Engine.Orderbook.Entering.{SamePlace, same-IsCore}
use client_exchange_simulati.Engine.Orderbook.Invariant.{
  Book, Core, Settled, Pending, IsBook, Shrinks, SameSide, on_self, on-other, on-same,
  Settled-Pending,
}

-- `if (order->is_filled()) …` at the front of a level.
pub record Popped (b b' : Book) (sd : Ladder) (p x : ℕ) : Type 0 where
  pub core : Core b'
  pub pending : Pending b' sd p
  pub fewer : length b'.orders ≤ length b.orders
  pub fewer_if : is_filled (order_at list_levels b x) ≡ true → length b'.orders < length b.orders
  pub same_arena : b'.pool.arena ≡ b.pool.arena
  pub same_best : b'.best ≡ b.best
  pub across : (sd' : Ladder) → sd ≢ sd' → SameSide b b' sd'
  pub shrinks : Shrinks b b'

pub pop_if_filled_lem :
    (b : Book) (sd : Ladder) (p x : ℕ) (ys : List ℕ)
    → Core b
    → Settled b sd
    → b.levels sd p ≡ x ∷ ys
    → Popped b (pop_if_filled list_levels b sd p x) sd p x
unfolding pop_filled deallocate
pop_if_filled_lem b sd p x ys c v e =
    let full : is_nil (b.levels sd p) ≡ false = rw e in
    elim (Bool-cases (is_filled (order_at list_levels b x))) [
      | inl done ↦
          let w : Without x (b.levels sd p) ys =
            subst (λ xs. Without x xs ys) (sym e)
              (pop-Without x ys (subst Distinct e (c.distinct sd p))) in
          let gone =
            length-erase_key (order_at list_levels b x).id x b.orders
              (c.resting sd p x w.member).found in
          rw (done, e)
            (record {
              core = leave-IsCore c sd p x ys w;
              pending = rw (on_self sd) (reduce-IsPending p ys v full);
              fewer = omega (arith, gone);
              fewer_if = λ _. omega (arith, gone);
              same_arena = refl;
              same_best = refl;
              across =
                  λ sd' ne. record { levels = on-other sd sd' _ _ ne; best = refl; count = refl };
              shrinks = λ sd' p' gone. elim (set_level-cases b.levels sd p ys sd' p') [
                | inr (ne, q) ↦ rw q gone
                | inl (es, ep, q) ↦ cc (
                    subst (λ s. is_nil (b.levels s p') ≡ false) es
                      (subst (λ r. is_nil (b.levels sd r) ≡ false) ep full))
              ];
            })
      | inr not_done ↦ rw not_done (record {
        core = c;
        pending = Settled-Pending b sd p v full;
        fewer = omega arith;
        fewer_if = λ h. cc;
        same_arena = refl;
        same_best = refl;
        across = λ sd' ne. record { levels = refl; best = refl; count = refl };
        shrinks = λ sd' p' gone. gone;
      })
    ]

pub drop_level_lem :
    (b : Book) (sd : Ladder) (stale : Bool)
    → drop_level list_levels b sd stale ≡ record b {
      non_empty = on sd (decrement (b.non_empty sd)) b.non_empty;
      best =
          on sd (best_after sd (b.levels sd) (b.best sd) (decrement (b.non_empty sd)) stale) b.best;
    }
unfolding drop_level update_best
drop_level_lem b sd stale = elim (Bool-cases (decrement (b.non_empty sd) == 0)) [
  | inl e ↦ rw (e, drop_level)
  | inr e ↦ elim (Bool-cases stale) [
    | inl s ↦ rw (e, s, drop_level)
    | inr s ↦ rw (e, s, on-same sd b.best, drop_level)
  ]
]

-- `if (level_done) …` at a level that orders have left.
pub record Dropped (b b' : Book) (sd : Ladder) : Type 0 where
  pub settled : Settled b' sd
  pub same_pool : b'.pool ≡ b.pool
  pub same_levels : b'.levels ≡ b.levels
  pub same_orders : b'.orders ≡ b.orders
  pub across : (sd' : Ladder) → sd ≢ sd' → SameSide b b' sd'

pub drop_level-Dropped :
    (b : Book) (sd : Ladder) (p : ℕ) (stale : Bool)
    → Pending b sd p
    → is_nil (b.levels sd p) ≡ true
    → (stale ≡ false → b.best sd ≢ p)
    → Dropped b (drop_level list_levels b sd stale) sd
drop_level-Dropped b sd p stale v gone fresh = rw (drop_level_lem b sd stale) (record {
  settled = rw (on_self sd, on_self sd) (drop-IsLadder stale v gone fresh);
  same_pool = refl;
  same_levels = refl;
  same_orders = refl;
  across = λ sd' ne. record {
    levels = refl;
    best = on-other sd sd' _ _ ne;
    count = on-other sd sd' _ _ ne;
  };
})

pub drop_if_empty_lem :
    (b : Book) (sd : Ladder) (p : ℕ)
    → Pending b sd p
    → Dropped b (drop_if_empty list_levels b sd p) sd
drop_if_empty_lem b sd p v = elim (Bool-cases (is_nil (b.levels sd p))) [
  | inl gone ↦ rw gone (drop_level-Dropped b sd p true v gone (λ e. cc))
  | inr full ↦ rw full (record {
    settled = keep-IsLadder v full;
    same_pool = refl;
    same_levels = refl;
    same_orders = refl;
    across = λ sd' ne. record { levels = refl; best = refl; count = refl };
  })
]

-- An order with part of its quantity filled.
abbrev pub filled_by : Order → Quantity → Order
filled_by o q = record o { remaining_quantity = o.remaining_quantity - q }

pub fill_at_lem :
    (b : Book) (x q : ℕ)
    → q ≤ (order_at list_levels b x).remaining_quantity
    → fill_at list_levels b x q
      ≡ ok (set_order list_levels b x (filled_by (order_at list_levels b x) q))
unfolding fill_at fill
fill_at_lem b x q h =
    let fits : ltb (order_at list_levels b x).remaining_quantity q ≡ false = ground arith in rw fits

pub write-SamePlace :
    (a : ℕ → Order) (x : ℕ) (o : Order)
    → SamePlace (a x) o
    → (y : ℕ) → SamePlace (a y) (write a x o y)
write-SamePlace a x o s y = elim (Bool-cases (y == x)) [
  | inl e ↦ let same : y ≡ x = ground arith in rw (e, same) s
  | inr e ↦ rw e (record { same_id = refl; same_side = refl; same_price = refl })
]

-- An order that stays in its place changes: the book stays well formed.
pub set_order-IsBook :
    (b : Book) (x : ℕ) (o : Order)
    → IsBook b
    → SamePlace (order_at list_levels b x) o
    → IsBook (set_order list_levels b x o)
set_order-IsBook b x o v s = record {
  core = same-IsCore v.core (write-SamePlace b.pool.arena x o s);
  settled = v.settled;
}

pub push_message-IsBook :
    (b : Book) (m : OutboundMessage) → IsBook b → IsBook (push_message list_levels b m)
unfolding push_message
push_message-IsBook b m v = record { core = v.core; settled = v.settled }
