-- ===== src/Engine/Orderbook/Cancelling.antt =====
-- `cancelOrder` takes exactly one order out of a well-formed book.
use client_exchange_simulati.Prelude.{
  ℕ, suc, ◌≡◌, ◌≢◌, refl, sym, subst, inl, inr, true, false, none, some, List, [], ◌∷◌, arith, ◌==◌,
  length, is_nil, Bool-cases, erase, In, is_nil-erase,
}
use client_exchange_simulati.Prelude.Result.{ok, Returns}
use client_exchange_simulati.Engine.OrderPool.{deallocate}
use client_exchange_simulati.Engine.Levels.{Ladder, ladder, list_levels}
use client_exchange_simulati.Engine.Orderbook.State.{in_ladder, order_at}
use client_exchange_simulati.Engine.Orderbook.Requests.{unlink_order, cancel_order}
use client_exchange_simulati.Engine.Orderbook.Orders.{
  find, erase_key, find-erase_key, length-erase_key,
}
use client_exchange_simulati.Engine.Orderbook.Ladders.{reduce-IsPending, keep-IsLadder}
use client_exchange_simulati.Engine.Orderbook.Core.{erase-Without, leave-IsCore, set_level-cases}
use client_exchange_simulati.Engine.Orderbook.Invariant.{
  Book, Core, Settled, Pending, IsBook, SameSide-Settled, Shrinks, on_self, on-other,
}
use client_exchange_simulati.Engine.Orderbook.Steps.{Dropped, drop_level-Dropped}
use client_exchange_simulati.Engine.Orderbook.Tally.{portion, tally-erase_key}
use client_exchange_simulati.Engine.Orderbook.Conserving.{Falls}
use client_exchange_simulati.Engine.Orderbook.Rounds.{side_cases}

not-is_nil_of_In : (x : ℕ) (xs : List ℕ) → In x xs → is_nil xs ≡ false
not-is_nil_of_In x [] i = elim i [ ]
not-is_nil_of_In x (y ∷ xs) i = refl

module _ (b : Book) (id x : ℕ) (v : IsBook b) (known : find id b.orders ≡ some x) where
  abbrev sd : Ladder
  sd = ladder (order_at list_levels b x).side

  abbrev p : ℕ
  p = (order_at list_levels b x).price

  at_home : In x (b.levels sd p)
  at_home = (v.core.listed id x known).1

  full : is_nil (b.levels sd p) ≡ false
  full = not-is_nil_of_In x (b.levels sd p) at_home

  inside : in_ladder p ≡ true
  inside = (reduce-IsPending p [] (v.settled sd) full).inside

  -- The book with the order off its level.
  abbrev removed : Book
  removed = record b { levels = list_levels.remove b.levels sd p x }

  removed-Pending : Pending removed sd p
  removed-Pending =
      rw (on_self sd) (reduce-IsPending p (erase x (b.levels sd p)) (v.settled sd) full)

  unlink-Dropped : Dropped removed (unlink_order list_levels b x) sd
  unfolding unlink_order
  unlink-Dropped = elim (Bool-cases (is_nil (removed.levels sd p))) [
    | inl gone ↦
        rw gone (
          drop_level-Dropped removed sd p (p == b.best sd) removed-Pending gone (λ e. ground arith))
    | inr left ↦ rw left (record {
      settled = keep-IsLadder removed-Pending left;
      same_pool = refl;
      same_levels = refl;
      same_orders = refl;
      across = λ sd' ne. record { levels = refl; best = refl; count = refl };
    })
  ]

  -- What the cancellation leaves.
  pub record Cancelled (b' : Book) : Type 0 where
    pub book : IsBook b'
    pub gone : find id b'.orders ≡ none
    pub others : (j : ℕ) → j ≢ id → find j b'.orders ≡ find j b.orders
    pub one_less : suc (length b'.orders) ≡ length b.orders
    pub shrinks : Shrinks b b'
    pub same_orders : b'.pool.arena ≡ b.pool.arena
    pub freed : b'.pool.free_list ≡ x ∷ b.pool.free_list
    pub withdrawn : Falls b b' (portion (order_at list_levels b x))

  abbrev after : Book
  after =
      let b' = unlink_order list_levels b x in
      record b' { orders = erase_key id b'.orders; pool = deallocate b'.pool x }

  cancel_order_lem : cancel_order list_levels b id ≡ ok after
  unfolding cancel_order
  cancel_order_lem = rw known (rw inside refl)

  after-Settled : (sd' : Ladder) → Settled after sd'
  after-Settled sd' = elim (side_cases sd sd') [
    | inl e ↦ subst (Settled after) e unlink-Dropped.settled
    | inr ne ↦
        SameSide-Settled {b = removed} (unlink-Dropped.across sd' ne)
          (rw (on-other sd sd' _ _ ne) (v.settled sd'))
  ]

  after-Core : Core after
  unfolding deallocate
  after-Core =
      let w = erase-Without x (b.levels sd p) (v.core.distinct sd p) at_home in
      rw
        (
          unlink-Dropped.same_pool,
          unlink-Dropped.same_levels,
          unlink-Dropped.same_orders,
          ← (v.core.listed id x known).0,
        )
        (leave-IsCore v.core sd p x (erase x (b.levels sd p)) w)

  after-Shrinks : Shrinks b after
  after-Shrinks sd' q empty =
      rw unlink-Dropped.same_levels
        (elim (set_level-cases b.levels sd p (erase x (b.levels sd p)) sd' q) [
          | inr (ne, e) ↦ rw e empty
          | inl (es, ep, e) ↦ rw e (
              is_nil-erase x (b.levels sd p) (
                subst (λ s. is_nil (b.levels s p) ≡ true) (sym es)
                  (subst (λ r. is_nil (b.levels sd' r) ≡ true) (sym ep) empty)))
        ])

  -- `cancelOrder` of an id that the map of a well-formed book knows returns, with no fault, a
  -- well-formed book with one order fewer: the id is unknown, every other id finds what it found
  -- before, an empty level stays empty, the orders in the arena are the same, and the slot is on top of
  -- the free list. The quantity that rests on the order's side, summed over the orders of the map,
  -- falls by what the order still wanted, and that on the other side stays as it was.
  pub cancel_order-Returns : Returns Cancelled (cancel_order list_levels b id)
  unfolding deallocate
  cancel_order-Returns = rw cancel_order_lem (record {
    book = record { core = after-Core; settled = after-Settled };
    gone = ground (arith, unlink-Dropped.same_orders, find-erase_key id id b.orders v.core.keys);
    others = λ j ne.
        ground (arith, unlink-Dropped.same_orders, find-erase_key id j b.orders v.core.keys);
    one_less = rw unlink-Dropped.same_orders (length-erase_key id x b.orders known);
    shrinks = after-Shrinks;
    same_orders = rw unlink-Dropped.same_pool refl;
    freed = rw unlink-Dropped.same_pool refl;
    withdrawn = λ sd'.
        rw (unlink-Dropped.same_pool, unlink-Dropped.same_orders)
          (tally-erase_key b.pool.arena id x b.orders sd' known);
  })
