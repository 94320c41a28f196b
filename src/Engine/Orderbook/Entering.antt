-- ===== src/Engine/Orderbook/Entering.antt =====
-- Two more changes of the core: orders change what the book does not look at, and an order enters.
use client_exchange_simulati.Prelude.{
  ℕ, ◌≡◌, ◌≢◌, refl, sym, subst, Bool-cases, inl, inr, none, some, List, [], ◌∷◌, ◌++◌, arith, ◌==◌,
  In, Distinct, In-append, In-append_left, In-append_right, Distinct-append_one,
}
use client_exchange_simulati.Engine.Order.{Order}
use client_exchange_simulati.Engine.OrderPool.{write}
use client_exchange_simulati.Engine.Levels.{Ladder, ladder, Queues, set_level}
use client_exchange_simulati.Engine.Orderbook.Orders.{OrderMap, find}
use client_exchange_simulati.Engine.Orderbook.Core.{IsCore, Rests, set_level-cases}

-- The same identity, side and price.
pub record SamePlace (o o' : Order) : Type 0 where
  pub same_id : o'.id ≡ o.id
  pub same_side : o'.side ≡ o.side
  pub same_price : o'.price ≡ o.price

-- Filling orders or stamping them keeps the core.
pub same-IsCore :
    {a a' : ℕ → Order} {v : Queues} {m : OrderMap} {free : List ℕ} {size : ℕ}
    → IsCore a v m free size
    → ((x : ℕ) → SamePlace (a x) (a' x))
    → IsCore a' v m free size
same-IsCore {a} {a'} {v} {m} c same = record {
  resting = λ sd p x i.
      let r = c.resting sd p x i in
      let s = same x in
      record {
        on_side = rw s.same_side r.on_side;
        at_price = rw s.same_price r.at_price;
        found = rw s.same_id r.found;
      };
  listed = λ id x e.
      let l = c.listed id x e in
      let s = same x in (rw s.same_id l.0, rw (s.same_side, s.same_price) l.1);
  distinct = c.distinct;
  keys = c.keys;
  free_distinct = c.free_distinct;
  free_unused = c.free_unused;
  slots = c.slots;
}

-- An order with a new id takes the slot on top of the free list and goes to the back of its level.
module _ {a : ℕ → Order} {v : Queues} {m : OrderMap} {free : List ℕ} {size x : ℕ} (o : Order)
    (c : IsCore a v m (x ∷ free) size) (unknown : find o.id m ≡ none) where
  abbrev grown : List ℕ
  grown = v (ladder o.side) o.price ++ x ∷ []

  abbrev home : Queues
  home = set_level v (ladder o.side) o.price grown

  -- The slot was on no level.
  not_resting : (sd : Ladder) (p : ℕ) → ¬ In x (v sd p)
  not_resting sd p i = c.free_unused x (a x).id (inl refl) (c.resting sd p x i).found

  old-Rests : (sd : Ladder) (p y : ℕ) → In y (v sd p) → Rests (write a x o) ((o.id, x) ∷ m) sd p y
  unfolding find
  old-Rests sd p y i =
      let r = c.resting sd p y i in
      let ne : y ≢ x = λ e. not_resting sd p (subst (λ z. In z (v sd p)) e i) in
      record {
        on_side = ground (arith, r.on_side);
        at_price = ground (arith, r.at_price);
        found = ground (arith, r.found);
      }

  new-Rests : Rests (write a x o) ((o.id, x) ∷ m) (ladder o.side) o.price x
  unfolding find
  new-Rests = record { on_side = ground arith; at_price = ground arith; found = ground arith }

  enter_resting :
      (sd : Ladder) (p y : ℕ) → In y (home sd p) → Rests (write a x o) ((o.id, x) ∷ m) sd p y
  enter_resting sd p y i = elim (set_level-cases v (ladder o.side) o.price grown sd p) [
    | inr (ne, e) ↦ old-Rests sd p y (subst (In y) e i)
    | inl (es, ep, e) ↦ elim (In-append y (v (ladder o.side) o.price) (x ∷ []) (subst (In y) e i)) [
      | inl j ↦
          old-Rests sd p y
            (subst (λ s. In y (v s p)) es (subst (λ q. In y (v (ladder o.side) q)) ep j))
      | inr j ↦ elim j [
        | inl same ↦
            subst (λ s. Rests (write a x o) ((o.id, x) ∷ m) s p y) es
              (subst (λ q. Rests (write a x o) ((o.id, x) ∷ m) (ladder o.side) q y) ep
                (subst (λ z. Rests (write a x o) ((o.id, x) ∷ m) (ladder o.side) o.price z)
                  (sym same) new-Rests))
        | inr none_left ↦ absurd none_left
      ]
    ]
  ]

  -- Every level keeps what it had, and the home level has the new slot too.
  kept : (sd : Ladder) (p y : ℕ) → In y (v sd p) → In y (home sd p)
  kept sd p y i = elim (set_level-cases v (ladder o.side) o.price grown sd p) [
    | inr (ne, e) ↦ subst (In y) (sym e) i
    | inl (es, ep, e) ↦ subst (In y) (sym e) (
        In-append_left y _ (x ∷ [])
          (subst (λ s. In y (v s o.price)) (sym es) (subst (λ q. In y (v sd q)) (sym ep) i)))
  ]

  arrived : In x (home (ladder o.side) o.price)
  arrived = elim (set_level-cases v (ladder o.side) o.price grown (ladder o.side) o.price) [
    | inr (ne, e) ↦ absurd (ne refl refl)
    | inl (es, ep, e) ↦ subst (In x) (sym e) (In-append_right x _ (x ∷ []) (inl refl))
  ]

  enter_listed :
      (id y : ℕ)
      → find id ((o.id, x) ∷ m) ≡ some y
      → ((write a x o y).id ≡ id) × In y (home (ladder (write a x o y).side) (write a x o y).price)
  unfolding find
  enter_listed id y e = elim (Bool-cases (o.id == id)) [
    | inl hit ↦
        let same : y ≡ x = ground arith in
        let at_home : write a x o y ≡ o = ground arith in (ground arith, rw (at_home, same) arrived)
    | inr miss ↦
        let older : find id m ≡ some y = ground arith in
        let l = c.listed id y older in
        let ne : y ≢ x = λ s. c.free_unused x id (inl refl) (ground (arith, older, s)) in
        let stays : write a x o y ≡ a y = ground arith in
        (ground (arith, l.0), rw stays (kept _ _ y l.1))
  ]

  pub enter-IsCore : IsCore (write a x o) home ((o.id, x) ∷ m) free size
  unfolding find
  enter-IsCore = record {
    resting = enter_resting;
    listed = enter_listed;
    distinct = λ sd p. elim (set_level-cases v (ladder o.side) o.price grown sd p) [
      | inr (ne, e) ↦ subst Distinct (sym e) (c.distinct sd p)
      | inl (es, ep, e) ↦
          subst Distinct (sym e)
            (Distinct-append_one x _ (c.distinct (ladder o.side) o.price) (not_resting _ _))
    ];
    keys = (unknown, c.keys);
    free_distinct = c.free_distinct.1;
    free_unused = λ y id i e. elim (Bool-cases (o.id == id)) [
      | inl hit ↦ c.free_distinct.0 (subst (λ z. In z free) (ground arith) i)
      | inr miss ↦ c.free_unused y id (inr i) (ground arith)
    ];
    slots = omega (arith, c.slots);
  }
