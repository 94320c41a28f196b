-- ===== src/Engine/PriceLevelQueue.antt =====
-- exchange/engine/include/price_level_queue.hpp: the orders of one price level, an intrusive doubly
-- linked list. The links of the orders (`prev_` and `next_` of exchange/engine/include/order.hpp) are
-- one store, shared by all the levels; a pointer is the slot of an order, or none.
pub mod Chain
pub mod Removal
pub mod Refine
use client_exchange_simulati.Prelude.{
  ℕ, ◌+◌, ◌-◌, ◌%◌, ◌^◌, Bool, true, false, Option, none, some, ◌==◌, if◌then◌else◌,
}

pub record Links : Type 0 where
  pub prev : ℕ → Option ℕ
  pub next : ℕ → Option ℕ

pub record PriceLevelQueue : Type 0 where
  pub head : Option ℕ
  pub tail : Option ℕ
  pub size : ℕ

-- The default constructor.
abbrev pub empty_queue : PriceLevelQueue
empty_queue = record { head = none; tail = none; size = 0 }

-- One pointer of one order, overwritten.
abbrev pub assign : (ℕ → Option ℕ) → ℕ → Option ℕ → ℕ → Option ℕ
assign f x o y = if y == x then o else f y

abbrev pub set_prev : Links → ℕ → Option ℕ → Links
set_prev l x o = record l { prev = assign l.prev x o }

abbrev pub set_next : Links → ℕ → Option ℕ → Links
set_next l x o = record l { next = assign l.next x o }

-- What `*slot = Order{…}` does to the links of a slot.
abbrev pub reset_links : Links → ℕ → Links
reset_links l x = record { prev = assign l.prev x none; next = assign l.next x none }

-- `if (tail) { tail->set_next(new_order); new_order->set_prev(tail); }`
abbrev pub link_after : Option ℕ → ℕ → Links → Links
link_after none x l = l
link_after (some t) x l = set_prev (set_next l t (some x)) x (some t)

abbrev pub or_else : Option ℕ → Option ℕ → Option ℕ
or_else none o = o
or_else (some x) o = some x

unfoldable pub push : Links → PriceLevelQueue → ℕ → Links × PriceLevelQueue
push l q x = (
  link_after q.tail x l,
  record { head = or_else q.head (some x); tail = some x; size = (q.size + 1) % 2 ^ 64 },
)

-- The part of `pop` on a queue with the head `x`, whose next order is the second argument.
abbrev pub pop_head : Links → PriceLevelQueue → Option ℕ → Links × PriceLevelQueue
pop_head l q none = (l, record { head = none; tail = none; size = (q.size + 2 ^ 64 - 1) % 2 ^ 64 })
pop_head l q (some y) =
    (set_prev l y none, record q { head = some y; size = (q.size + 2 ^ 64 - 1) % 2 ^ 64 })

abbrev pub pop_from : Links → PriceLevelQueue → Option ℕ → Option ℕ × Links × PriceLevelQueue
pop_from l q none = (none, l, q)
pop_from l q (some x) = let (l', q') = pop_head l q (l.next x) in (some x, l', q')

unfoldable pub pop : Links → PriceLevelQueue → Option ℕ × Links × PriceLevelQueue
pop l q = pop_from l q q.head

abbrev pub front : PriceLevelQueue → Option ℕ
front q = q.head

-- `if (prev) prev->set_next(next);`
abbrev pub relink_next : Option ℕ → Option ℕ → Links → Links
relink_next none o l = l
relink_next (some p) o l = set_next l p o

-- `if (next) next->set_prev(prev);`
abbrev pub relink_prev : Option ℕ → Option ℕ → Links → Links
relink_prev none o l = l
relink_prev (some n) o l = set_prev l n o

-- `if (!p) end = o;`
abbrev pub move_end : Option ℕ → Option ℕ → Option ℕ → Option ℕ
move_end none o end = o
move_end (some p) o end = end

unfoldable pub remove : Links → PriceLevelQueue → ℕ → Links × PriceLevelQueue
remove l q x =
    let prev = l.prev x in
    let next = l.next x in
    (
      relink_prev next prev (relink_next prev next l),
      record {
        head = move_end prev next q.head;
        tail = move_end next prev q.tail;
        size = (q.size + 2 ^ 64 - 1) % 2 ^ 64;
      },
    )

unfoldable pub empty : PriceLevelQueue → Bool
empty q = elim q.head [ none ↦ true | some x ↦ false ]
