-- ===== src/Engine/Orderbook/Core.antt =====
-- What ties the arena, the levels, the map and the free list of a book together, and the changes of
-- these four that keep it.
use client_exchange_simulati.Prelude.{
  ℕ, ◌+◌, ◌≡◌, ◌≢◌, refl, sym, ap, ◌∙◌, subst, ◌⊎◌, inl, inr, some, List, ◌∷◌, arith, length, In,
  Distinct, erase, In-erase, In-erase_ne, not-In-erase, Distinct-erase,
}
use client_exchange_simulati.Engine.Order.{Order}
use client_exchange_simulati.Engine.Levels.{Ladder, bids, asks, ladder, Queues, set_level}
use client_exchange_simulati.Engine.Orderbook.Orders.{
  OrderMap, find, erase_key, Keys, find-erase_key, Keys-erase_key, length-erase_key,
}

-- A level after an assignment to one of them.
pub set_level-cases :
    (v : Queues) (sd : Ladder) (p : ℕ) (xs : List ℕ) (sd' : Ladder) (p' : ℕ)
    → ((sd ≡ sd') × (p ≡ p') × (set_level v sd p xs sd' p' ≡ xs))
      ⊎ ((sd ≡ sd' → p ≢ p') × (set_level v sd p xs sd' p' ≡ v sd' p'))
set_level-cases v bids p xs bids p' = ground arith
set_level-cases v bids p xs asks p' = inr (λ e. cc, refl)
set_level-cases v asks p xs bids p' = inr (λ e. cc, refl)
set_level-cases v asks p xs asks p' = ground arith

-- The slot `x` rests on the level of its order's side and price, and the map finds it by its id.
pub record Rests (a : ℕ → Order) (m : OrderMap) (sd : Ladder) (p x : ℕ) : Type 0 where
  pub on_side : ladder (a x).side ≡ sd
  pub at_price : (a x).price ≡ p
  pub found : find (a x).id m ≡ some x

pub record IsCore (a : ℕ → Order) (v : Queues) (m : OrderMap) (free : List ℕ) (size : ℕ)
    : Type 0 where
  pub resting : (sd : Ladder) (p x : ℕ) → In x (v sd p) → Rests a m sd p x
  pub listed :
      (id x : ℕ) → find id m ≡ some x → ((a x).id ≡ id) × In x (v (ladder (a x).side) (a x).price)
  pub distinct : (sd : Ladder) (p : ℕ) → Distinct (v sd p)
  pub keys : Keys m
  pub free_distinct : Distinct free
  pub free_unused : (x id : ℕ) → In x free → find id m ≢ some x
  pub slots : length free + length m ≡ size

-- `ys` is the level `xs` without `x`.
pub record Without (x : ℕ) (xs ys : List ℕ) : Type 0 where
  pub member : In x xs
  pub less : (y : ℕ) → In y ys → In y xs × (y ≢ x)
  pub others : (y : ℕ) → In y xs → y ≢ x → In y ys
  pub distinct : Distinct ys

pub pop-Without : (x : ℕ) (ys : List ℕ) → Distinct (x ∷ ys) → Without x (x ∷ ys) ys
pop-Without x ys d = record {
  member = inl refl;
  less = λ y i. (inr i, λ e. d.0 (subst (λ z. In z ys) e i));
  others = λ y i ne. elim i [ inl e ↦ absurd (ne e) | inr j ↦ j ];
  distinct = d.1;
}

pub erase-Without : (x : ℕ) (xs : List ℕ) → Distinct xs → In x xs → Without x xs (erase x xs)
erase-Without x xs d i = record {
  member = i;
  less = λ y j. (In-erase y x xs j, λ e. not-In-erase x xs d (subst (λ z. In z (erase x xs)) e j));
  others = λ y j ne. In-erase_ne y x xs ne j;
  distinct = Distinct-erase x xs d;
}

-- An order leaves the book: its level, the map, and its slot is free again.
module _ {a : ℕ → Order} {v : Queues} {m : OrderMap} {free : List ℕ} {size : ℕ}
    (c : IsCore a v m free size) (sd : Ladder) (p x : ℕ) (ys : List ℕ)
    (w : Without x (v sd p) ys) where
  here : Rests a m sd p x
  here = c.resting sd p x w.member

  -- Another resting order has another id.
  other_id : (sd' : Ladder) (p' y : ℕ) → In y (v sd' p') → y ≢ x → (a x).id ≢ (a y).id
  other_id sd' p' y i ne e =
      let there = c.resting sd' p' y i in ground (arith, here.found, there.found)

  still_found :
      (sd' : Ladder) (p' y : ℕ) → In y (v sd' p') → y ≢ x → Rests a (erase_key (a x).id m) sd' p' y
  still_found sd' p' y i ne =
      let there = c.resting sd' p' y i in
      record {
        on_side = there.on_side;
        at_price = there.at_price;
        found =
            ground (
              arith,
              find-erase_key (a x).id (a y).id m c.keys,
              other_id sd' p' y i ne,
              there.found,
            );
      }

  leave_resting :
      (sd' : Ladder) (p' y : ℕ)
      → In y (set_level v sd p ys sd' p')
      → Rests a (erase_key (a x).id m) sd' p' y
  leave_resting sd' p' y i = elim (set_level-cases v sd p ys sd' p') [
    | inl (es, ep, e) ↦
        let j = w.less y (subst (In y) e i) in
        still_found sd' p' y (subst (λ s. In y (v s p')) es (subst (λ q. In y (v sd q)) ep j.0)) j.1
    | inr (ne, e) ↦
        let j : In y (v sd' p') = subst (In y) e i in
        let there = c.resting sd' p' y j in
        still_found sd' p' y j λ same.
          ne (sym here.on_side ∙ (ap (λ z. ladder (a z).side) (sym same) ∙ there.on_side))
            (sym here.at_price ∙ (ap (λ z. (a z).price) (sym same) ∙ there.at_price))
  ]

  leave_listed :
      (id y : ℕ) → find id (erase_key (a x).id m) ≡ some y → (find id m ≡ some y) × ((a x).id ≢ id)
  leave_listed id y e = ground (arith, find-erase_key (a x).id id m c.keys)

  pub leave-IsCore : IsCore a (set_level v sd p ys) (erase_key (a x).id m) (x ∷ free) size
  leave-IsCore = record {
    resting = leave_resting;
    listed = λ id y e.
        let was = leave_listed id y e in
        let old = c.listed id y was.0 in
        (
          old.0,
          elim (set_level-cases v sd p ys (ladder (a y).side) (a y).price) [
            | inl (es, ep, e') ↦ subst (In y) (sym e') (
                w.others y
                  (subst (λ s. In y (v s p)) (sym es)
                    (subst (λ q. In y (v (ladder (a y).side) q)) (sym ep) old.1))
                  λ same. was.1 (ap (λ z. (a z).id) (sym same) ∙ old.0))
            | inr (ne, e') ↦ subst (In y) (sym e') old.1
          ],
        );
    distinct = λ sd' p'. elim (set_level-cases v sd p ys sd' p') [
      | inl (es, ep, e) ↦ subst Distinct (sym e) w.distinct
      | inr (ne, e) ↦ subst Distinct (sym e) (c.distinct sd' p')
    ];
    keys = Keys-erase_key (a x).id m c.keys;
    free_distinct = (λ i. c.free_unused x (a x).id i here.found, c.free_distinct);
    free_unused = λ y id i e.
        let was = leave_listed id y e in
        elim i [
          | inl same ↦ was.1 (ap (λ z. (a z).id) (sym same) ∙ (c.listed id y was.0).0)
          | inr j ↦ c.free_unused y id j was.0
        ];
    slots = omega (arith, length-erase_key (a x).id x m here.found, c.slots);
  }
