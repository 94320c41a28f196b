-- ===== src/Engine/Orderbook/Starting.antt =====
-- The book that the constructor makes.
use client_exchange_simulati.Prelude.{
  ℕ, zero, suc, ◌≤◌, ◌≡◌, refl, ap, inl, inr, [], arith, length, In, Distinct,
}
use client_exchange_simulati.RingBuffer.{RingBuffer}
use client_exchange_simulati.Wire.{OutboundMessage}
use client_exchange_simulati.Engine.Config.{max_price}
use client_exchange_simulati.Engine.Order.{Order}
use client_exchange_simulati.Engine.OrderPool
use client_exchange_simulati.Engine.OrderPool.{push_slots}
use client_exchange_simulati.Engine.Levels.{Ladder, list_levels, Queues}
use client_exchange_simulati.Engine.Orderbook.Orders.{find}
use client_exchange_simulati.Engine.Orderbook.State.{idle_price}
use client_exchange_simulati.Engine.Orderbook.Requests.{init_with}
use client_exchange_simulati.Engine.Orderbook.Counting.{filled-zero}
use client_exchange_simulati.Engine.Orderbook.Ladders.{IsLadder}
use client_exchange_simulati.Engine.Orderbook.Good.{IsGood}

push_slots-low : (x lo n : ℕ) → In x (push_slots lo n) → lo ≤ x
unfolding push_slots
push_slots-low x lo zero i = absurd i
push_slots-low x lo (suc n) (inl e) = omega arith
push_slots-low x lo (suc n) (inr i) = omega (arith, push_slots-low x (suc lo) n i)

push_slots-Distinct : (lo n : ℕ) → Distinct (push_slots lo n)
unfolding push_slots
push_slots-Distinct lo zero = tt
push_slots-Distinct lo (suc n) =
    (λ i. omega (arith, push_slots-low lo (suc lo) n i), push_slots-Distinct (suc lo) n)

length-push_slots : (lo n : ℕ) → length (push_slots lo n) ≡ n
unfolding push_slots
length-push_slots lo zero = refl
length-push_slots lo (suc n) = ap suc (length-push_slots (suc lo) n)

-- No level holds an order.
abbrev pub no_orders : Queues
no_orders = λ sd p. []

idle-IsLadder : (sd : Ladder) → IsLadder sd (λ p. []) (idle_price sd) 0
idle-IsLadder sd = record {
  counted = filled-zero (λ p. []) max_price (λ p a b. refl);
  low = ground arith;
  high = ground arith;
  beyond = λ p e. refl;
  outside = λ p e. refl;
  top = λ ne. absurd (ne refl);
  idle = λ e. refl;
}

-- The book of the constructor is well formed and uncrossed, whatever its arena holds, for every
-- capacity of its pool.
pub init_with-IsGood :
    (arena : ℕ → Order) (capacity : ℕ) (ring : RingBuffer OutboundMessage)
    → IsGood (init_with list_levels no_orders arena capacity ring)
unfolding init_with OrderPool.init find
init_with-IsGood arena capacity ring = record {
  book = record {
    core = record {
      resting = λ sd p x i. absurd i;
      listed = λ id x e. ground arith;
      distinct = λ sd p. tt;
      keys = tt;
      free_distinct = push_slots-Distinct 0 capacity;
      free_unused = λ x id i e. ground arith;
      slots = omega (arith, length-push_slots 0 capacity);
    };
    settled = idle-IsLadder;
  };
  uncrossed = λ p q bid ask. ground arith;
}
