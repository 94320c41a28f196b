-- ===== src/Engine/Orderbook/Adding.antt =====
-- `addOrder` of a limit order: rejected, or entered at the back of its level and matched.
use client_exchange_simulati.Prelude.{
  ℕ, ◌+◌, ◌∙◌, ◌≡◌, ◌≢◌, refl, subst, ◌⊎◌, inl, inr, Bool, true, false, none, some, List, [], ◌∷◌,
  ◌++◌, arith, if◌then◌else◌, is_nil, Option-cases, eq_self,
}
use client_exchange_simulati.Prelude.Result.{ok, Returns, Returns-weaken}
use client_exchange_simulati.Engine.Order.{OrderRequest, make_order}
use client_exchange_simulati.Engine.OrderPool.{write, allocate}
use client_exchange_simulati.Engine.Levels.{Ladder, ladder, on, set_level, list_levels}
use client_exchange_simulati.Engine.Orderbook.State.{in_ladder, better, increment}
use client_exchange_simulati.Engine.Orderbook.Matching.{match_orders}
use client_exchange_simulati.Engine.Orderbook.Requests.{add_limit, rest_order}
use client_exchange_simulati.Engine.Orderbook.Orders.{find, contains}
use client_exchange_simulati.Engine.Orderbook.Ladders.{push-IsLadder}
use client_exchange_simulati.Engine.Orderbook.Core.{IsCore}
use client_exchange_simulati.Engine.Orderbook.Entering.{enter-IsCore}
use client_exchange_simulati.Engine.Orderbook.Invariant.{
  Book, Settled, IsBook, IsUncrossed, on_self, on-other,
}
use client_exchange_simulati.Engine.Orderbook.Rounds.{side_cases}
use client_exchange_simulati.Engine.Orderbook.Crossing.{match_orders-Returns, match_orders-Traded}
use client_exchange_simulati.Engine.Orderbook.Tally.{only, tally, tally-write_absent}
use client_exchange_simulati.Engine.Orderbook.Conserving.{resting_quantity}

-- The book with the order of a request in slot `x`, at the back of its level.
abbrev pub entered : Book → OrderRequest → ℕ → List ℕ → Book
entered b req x free =
    let sd = ladder req.side in
    let p = req.price in
    record b {
      pool = record b.pool {
        arena = write b.pool.arena x (make_order req.order_id req);
        free_list = free;
      };
      levels = set_level b.levels sd p (b.levels sd p ++ x ∷ []);
      orders = (req.order_id, x) ∷ b.orders;
      non_empty =
          if is_nil (b.levels sd p)
          then on sd (increment (b.non_empty sd)) b.non_empty
          else b.non_empty;
      best = if better sd p (b.best sd) then on sd p b.best else b.best;
    }

if_at {ℓ} :
    {A : Type ℓ} (c : Bool) (sd : Ladder) (a : A) (f : Ladder → A)
    → (if c then on sd a f else f) sd ≡ (if c then a else f sd)
if_at true sd a f = on_self sd a f
if_at false sd a f = refl

if_off {ℓ} :
    {A : Type ℓ} (c : Bool) (sd sd' : Ladder) (a : A) (f : Ladder → A)
    → sd ≢ sd'
    → (if c then on sd a f else f) sd' ≡ f sd'
if_off true sd sd' a f ne = on-other sd sd' a f ne
if_off false sd sd' a f ne = refl

module _ (b : Book) (req : OrderRequest) (x : ℕ) (free : List ℕ) (v : IsBook b)
    (unknown : find req.order_id b.orders ≡ none) (top : b.pool.free_list ≡ x ∷ free)
    (inside : in_ladder req.price ≡ true) where
  entered-Settled : (sd' : Ladder) → Settled (entered b req x free) sd'
  entered-Settled sd' =
      let sd = ladder req.side in
      let p = req.price in
      elim (side_cases sd sd') [
        | inl e ↦ subst (Settled (entered b req x free)) e (
            rw
              (
                on_self sd,
                if_at (better sd p (b.best sd)) sd p b.best,
                if_at (is_nil (b.levels sd p)) sd (increment (b.non_empty sd)) b.non_empty,
              )
              (push-IsLadder p x (v.settled sd) inside))
        | inr ne ↦
            rw
              (
                on-other sd sd' _ _ ne,
                if_off (better sd p (b.best sd)) sd sd' p b.best ne,
                if_off (is_nil (b.levels sd p)) sd sd' (increment (b.non_empty sd)) b.non_empty ne,
              )
              (v.settled sd')
      ]

  pub entered-IsBook : IsBook (entered b req x free)
  entered-IsBook = record {
    core =
        enter-IsCore (make_order req.order_id req)
          (subst (λ l. IsCore b.pool.arena b.levels b.orders l b.pool.arena_size) top v.core)
          unknown;
    settled = entered-Settled;
  }

  -- What rests grows by the order's quantity on its side.
  pub entered-resting :
      (sd : Ladder)
      → resting_quantity (entered b req x free) sd
        ≡ only (ladder req.side) req.quantity sd + resting_quantity b sd
  unfolding tally
  entered-resting sd =
      let o = make_order req.order_id req in
      let others =
        tally-write_absent b.pool.arena x o b.orders sd v.core.keys
          (λ j. v.core.free_unused x j (rw top (inl refl))) in
      let here : write b.pool.arena x o x ≡ o = ground arith in rw here (omega (arith, others))

  allocate_lem :
      allocate b.pool req.order_id req
      ≡ some (
        x,
        record b.pool {
          arena = write b.pool.arena x (make_order req.order_id req);
          free_list = free;
        },
      )
  unfolding allocate
  allocate_lem = rw top refl

  add_limit_lem : add_limit list_levels b req ≡ match_orders list_levels (entered b req x free)
  unfolding add_limit contains rest_order
  add_limit_lem = rw (unknown, allocate_lem) (rw (eq_self x) (rw inside refl))

known_lem :
    (b : Book) (req : OrderRequest) (y : ℕ)
    → find req.order_id b.orders ≡ some y
    → add_limit list_levels b req ≡ ok (false, b)
unfolding add_limit contains
known_lem b req y e = rw e refl

allocate-none :
    (b : Book) (req : OrderRequest)
    → b.pool.free_list ≡ []
    → allocate b.pool req.order_id req ≡ none
unfolding allocate
allocate-none b req f = rw f refl

exhausted_lem :
    (b : Book) (req : OrderRequest)
    → find req.order_id b.orders ≡ none
    → b.pool.free_list ≡ []
    → add_limit list_levels b req ≡ ok (false, b)
unfolding add_limit contains
exhausted_lem b req e f = rw (e, allocate-none b req f) refl

-- What `addOrder` leaves of a limit order. A rejected order changes nothing; an order that gets a slot
-- trades, or rests whole at the back of its level.
pub record Added (b : Book) (req : OrderRequest) (out : Bool × Book) : Type 0 where
  pub book : IsBook out.1
  pub uncrossed : IsUncrossed out.1
  pub outcome :
      (((find req.order_id b.orders ≢ none) ⊎ (b.pool.free_list ≡ [])) × (out ≡ (false, b)))
      ⊎ ((x : ℕ) × (free : List ℕ) × (find req.order_id b.orders ≡ none)
          × (b.pool.free_list ≡ x ∷ free)
          × ((out.0 ≡ true) ⊎ (out ≡ (false, entered b req x free))))

list-cases : (xs : List ℕ) → (xs ≡ []) ⊎ ((x : ℕ) × (ys : List ℕ) × (xs ≡ x ∷ ys))
list-cases [] = inl refl
list-cases (x ∷ ys) = inr (x, ys, refl)

pair_eq : {x y : Bool} {b c : Book} → x ≡ y → b ≡ c → Path (Bool × Book) (x, b) (y, c)
pair_eq {x} {y} {b} {c} p q = cc

-- A book that the request leaves alone.
unchanged :
    (b : Book) (req : OrderRequest)
    → IsBook b
    → IsUncrossed b
    → (find req.order_id b.orders ≢ none) ⊎ (b.pool.free_list ≡ [])
    → Added b req (false, b)
unchanged b req v u why = record { book = v; uncrossed = u; outcome = inl (why, refl) }

-- From a well-formed and uncrossed book, `addOrder` of a limit order whose price is a tick of the
-- ladders returns with no fault, and leaves such a book. A known id or an exhausted pool reject the
-- order and change nothing; any other order gets a slot, and trades or rests whole at the back of its
-- level.
pub add_limit-Returns :
    (b : Book) (req : OrderRequest)
    → IsBook b
    → IsUncrossed b
    → in_ladder req.price ≡ true
    → Returns (Added b req) (add_limit list_levels b req)
add_limit-Returns b req v u inside = elim (Option-cases (find req.order_id b.orders)) [
  | inr (y, known) ↦ rw (known_lem b req y known) (unchanged b req v u (inl (λ e. ground arith)))
  | inl unknown ↦ elim (list-cases b.pool.free_list) [
    | inl exhausted ↦
        rw (exhausted_lem b req unknown exhausted) (unchanged b req v u (inr exhausted))
    | inr (x, free, top) ↦ rw (add_limit_lem b req x free v unknown top inside) (
        Returns-weaken _ _ (match_orders list_levels (entered b req x free))
          (match_orders-Returns (entered b req x free)
            (entered-IsBook b req x free v unknown top inside))
          λ out m. record {
            book = m.book;
            uncrossed = m.uncrossed;
            outcome = inr (
              x,
              free,
              unknown,
              top,
              elim m.outcome [
                | inl quiet ↦ inr (pair_eq quiet.0 quiet.1)
                | inr traded ↦ inl traded.0
              ],
            );
          })
  ]
]

-- What `addOrder` does to the quantity that rests on the two sides: nothing if it rejects the order;
-- otherwise the order's quantity comes to its side, and the same amount is traded on both.
abbrev pub Balanced : Book → OrderRequest → Bool × Book → Type 0
Balanced b req out =
    (out ≡ (false, b))
    ⊎ ((q : ℕ) × ((sd : Ladder)
          → resting_quantity out.1 sd + q
            ≡ only (ladder req.side) req.quantity sd + resting_quantity b sd))

-- From a well-formed book, `addOrder` of a limit order whose price is a tick of the ladders returns. It
-- rejects the order and changes nothing, or the quantity that rests, summed over the orders of the
-- map, grows by the quantity of the order on its side and then falls by one amount on both sides.
pub add_limit-Balanced :
    (b : Book) (req : OrderRequest)
    → IsBook b
    → in_ladder req.price ≡ true
    → Returns (Balanced b req) (add_limit list_levels b req)
add_limit-Balanced b req v inside = elim (Option-cases (find req.order_id b.orders)) [
  | inr (y, known) ↦ rw (known_lem b req y known) (inl refl)
  | inl unknown ↦ elim (list-cases b.pool.free_list) [
    | inl exhausted ↦ rw (exhausted_lem b req unknown exhausted) (inl refl)
    | inr (x, free, top) ↦ rw (add_limit_lem b req x free v unknown top inside) (
        Returns-weaken _ _ (match_orders list_levels (entered b req x free))
          (match_orders-Traded (entered b req x free)
            (entered-IsBook b req x free v unknown top inside))
          λ out m.
            inr (m.amount, λ sd. m.falls sd ∙ entered-resting b req x free v unknown top inside sd))
  ]
]
