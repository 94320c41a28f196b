-- ===== src/Engine/OrderPool.antt =====
-- exchange/engine/include/order_pool.hpp: the arena of orders and the stack of its free slots. A
-- pointer `Order*` is the index of its slot.
use client_exchange_simulati.Prelude.{
  ℕ, zero, suc, ◌-◌, Option, none, some, List, [], ◌∷◌, ◌==◌, if◌then◌else◌, length,
}
use client_exchange_simulati.Wire.{OrderId}
use client_exchange_simulati.Engine.Order.{Order, OrderRequest, make_order}

pub record OrderPool : Type 0 where
  pub arena : ℕ → Order
  pub arena_size : ℕ
  -- the head of the list is the back of the vector
  pub free_list : List ℕ

-- `*slot = order`
abbrev pub write : (ℕ → Order) → ℕ → Order → ℕ → Order
write arena slot o x = if x == slot then o else arena x

-- The slots pushed by `for (size_t i = capacity; i-- > 0;)` once `i` has come down to `lo`.
unfoldable pub push_slots : ℕ → ℕ → List ℕ
push_slots lo zero = []
push_slots lo (suc n) = lo ∷ push_slots (suc lo) n

-- The constructor. The slots are pushed in reverse, so the lowest is on top.
unfoldable pub init : (ℕ → Order) → ℕ → OrderPool
init arena capacity = record {
  arena = arena;
  arena_size = capacity;
  free_list = push_slots 0 capacity;
}

take_slot : List ℕ → OrderPool → OrderId → OrderRequest → Option (ℕ × OrderPool)
take_slot [] pool id req = none
take_slot (slot ∷ rest) pool id req =
    some (slot, record pool { arena = write pool.arena slot (make_order id req); free_list = rest })

unfoldable pub allocate : OrderPool → OrderId → OrderRequest → Option (ℕ × OrderPool)
unfolding take_slot
allocate pool id req = take_slot pool.free_list pool id req

unfoldable pub deallocate : OrderPool → ℕ → OrderPool
deallocate pool slot = record pool { free_list = slot ∷ pool.free_list }

unfoldable pub available : OrderPool → ℕ
available pool = length pool.free_list

unfoldable pub in_use : OrderPool → ℕ
in_use pool = pool.arena_size - length pool.free_list
