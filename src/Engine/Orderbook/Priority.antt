-- ===== src/Engine/Orderbook/Priority.antt =====
-- Price-time priority on one side of the book: which orders may have changed.
use client_exchange_simulati.Prelude.{
  ℕ, ◌≡◌, ◌≢◌, refl, sym, ap, subst, ◌∙◌, ◌⊎◌, inl, inr, Bool-cases, true, false, List, [], ◌∷◌,
  ◌++◌, arith, ◌==◌, is_nil, In, In-append_right, Distinct, append_assoc, eq_self,
}
use native.Mathlib.Decide.{ℕ_discrete}
use client_exchange_simulati.Engine.Order.{Order}
use client_exchange_simulati.Engine.Levels.{Ladder, set_at, rest}
use client_exchange_simulati.Engine.Orderbook.State.{better}

-- Levels and orders that have become others: orders leave the front of their levels only; behind the
-- first that is left on a level no order has changed; and while a better level holds an order, none of
-- a level has changed or left.
pub record Priority (sd : Ladder) (f : ℕ → List ℕ) (a : ℕ → Order) (f' : ℕ → List ℕ)
    (a' : ℕ → Order) : Type 0 where
  pub suffix : (p : ℕ) → (gone : List ℕ) × (f p ≡ gone ++ f' p)
  pub behind : (p x : ℕ) (ys : List ℕ) → f' p ≡ x ∷ ys → (y : ℕ) → In y ys → a' y ≡ a y
  pub price :
      (p q : ℕ)
      → better sd q p ≡ true
      → is_nil (f' q) ≡ false
      → (f' p ≡ f p) × ((y : ℕ) → In y (f p) → a' y ≡ a y)

pub Priority-refl : {sd : Ladder} {f : ℕ → List ℕ} {a : ℕ → Order} → Priority sd f a f a
Priority-refl = record {
  suffix = λ p. ([], refl);
  behind = λ p x ys e y i. refl;
  price = λ p q h full. (refl, λ y i. refl);
}

not_nil-append : (xs ys : List ℕ) → is_nil ys ≡ false → is_nil (xs ++ ys) ≡ false
not_nil-append [] ys e = e
not_nil-append (x ∷ xs) ys e = refl

-- An empty level stays empty.
pub Priority-empty :
    {sd : Ladder} {f f' : ℕ → List ℕ} {a a' : ℕ → Order} (p : ℕ)
    → Priority sd f a f' a'
    → is_nil (f p) ≡ true
    → is_nil (f' p) ≡ true
Priority-empty {f' = f'} p v empty = elim (Bool-cases (is_nil (f' p))) [
  | inl e ↦ e
  | inr full ↦
      let (gone, e) = v.suffix p in cc (sym empty ∙ (ap is_nil e ∙ not_nil-append gone (f' p) full))
]

-- What stands behind the first of a suffix stands behind the first.
behind_suffix :
    (P : ℕ → Type 0) (xs gone : List ℕ) (x : ℕ) (ys : List ℕ)
    → xs ≡ gone ++ x ∷ ys
    → ((z : ℕ) (zs : List ℕ) → xs ≡ z ∷ zs → (y : ℕ) → In y zs → P y)
    → (y : ℕ) → In y ys
    → P y
behind_suffix P xs [] x ys e h y i = h x ys e y i
behind_suffix P xs (z ∷ gone) x ys e h y i =
    h z (gone ++ x ∷ ys) e y (In-append_right y gone (x ∷ ys) (inr i))

module _ {sd : Ladder} {f g h : ℕ → List ℕ} {a b c : ℕ → Order} where
  pub Priority-trans : Priority sd f a g b → Priority sd g b h c → Priority sd f a h c
  Priority-trans u v = record {
    suffix = λ p.
        let (xs, e) = u.suffix p in
        let (ys, e') = v.suffix p in
        (xs ++ ys, e ∙ (ap (λ l. xs ++ l) e' ∙ sym (append_assoc xs ys (h p))));
    behind = λ p x ys e y i.
        let (gone, s) = v.suffix p in
        v.behind p x ys e y i
        ∙ behind_suffix (λ z. b z ≡ a z) (g p) gone x ys (s ∙ ap (λ l. gone ++ l) e) (u.behind p) y
            i;
    price = λ p q worse full.
        let (gone, s) = v.suffix q in
        let still : is_nil (g q) ≡ false = ap is_nil s ∙ not_nil-append gone (h q) full in
        let first = u.price p q worse still in
        let second = v.price p q worse full in
        (second.0 ∙ first.0, λ y i. second.1 y (subst (In y) (sym first.0) i) ∙ first.1 y i);
  }

-- A level that has lost its first order, or not.
abbrev pub Lost : (ℕ → List ℕ) → ℕ → List ℕ → (ℕ → List ℕ) → Type 0
Lost f p xs f' = (f' ≡ f) ⊎ (f' ≡ set_at f p xs)

-- The first order of the best level changes, and may leave.
module _ (sd : Ladder) (f : ℕ → List ℕ) (a : ℕ → Order) (p x : ℕ) (xs : List ℕ)
    (front : f p ≡ x ∷ xs) (best : (q : ℕ) → better sd q p ≡ true → is_nil (f q) ≡ true)
    (once : Distinct (f p)) (alone : (q : ℕ) → In x (f q) → q ≡ p) where
  abbrev Others : (ℕ → Order) → Type 0
  Others a' = (q y : ℕ) → In y (f q) → y ≢ x → a' y ≡ a y

  at_front : (f' : ℕ → List ℕ) → Lost f p xs f' → (f' p ≡ x ∷ xs) ⊎ (f' p ≡ xs)
  at_front f' lost = elim lost [
    | inl e ↦ inl (ap (λ g. g p) e ∙ front)
    | inr e ↦ let hit : (p == p) ≡ true = eq_self p in inr (ap (λ g. g p) e ∙ rw hit refl)
  ]

  elsewhere : (f' : ℕ → List ℕ) → Lost f p xs f' → (q : ℕ) → q ≢ p → f' q ≡ f q
  elsewhere f' lost q ne = elim lost [
    | inl e ↦ ap (λ g. g q) e
    | inr e ↦ let miss : (q == p) ≡ false = ground arith in ap (λ g. g q) e ∙ rw miss refl
  ]

  not_first : (y : ℕ) → In y xs → y ≢ x
  not_first y i e = (subst Distinct front once).0 (subst (λ z. In z xs) e i)

  -- What an order of another level is not.
  not_there : (q y : ℕ) → q ≢ p → In y (f q) → y ≢ x
  not_there q y ne i e = ne (alone q (subst (λ z. In z (f q)) e i))

  front_suffix :
      (f' : ℕ → List ℕ) → Lost f p xs f' → (q : ℕ) → (gone : List ℕ) × (f q ≡ gone ++ f' q)
  front_suffix f' lost q = elim (ℕ_discrete q p) [
    | no ne ↦ ([], sym (elsewhere f' lost q ne))
    | yes same ↦ elim (at_front f' lost) [
      | inl e ↦ ([], ap f same ∙ (front ∙ sym (ap f' same ∙ e)))
      | inr e ↦ (x ∷ [], ap f same ∙ (front ∙ ap (λ l. x ∷ l) (sym (ap f' same ∙ e))))
    ]
  ]

  front_behind :
      (f' : ℕ → List ℕ) (a' : ℕ → Order)
      → Lost f p xs f'
      → Others a'
      → (q z : ℕ) (ys : List ℕ) → f' q ≡ z ∷ ys
      → (y : ℕ) → In y ys
      → a' y ≡ a y
  front_behind f' a' lost others q z ys e y i = elim (ℕ_discrete q p) [
    | no ne ↦
        let there : In y (f q) = subst (In y) (sym e ∙ elsewhere f' lost q ne) (inr i) in
        others q y there (not_there q y ne there)
    | yes same ↦
        let first : f' p ≡ z ∷ ys = ap f' (sym same) ∙ e in
        let there : In y xs = elim (at_front f' lost) [
          | inl k ↦ subst (In y) (ap rest (sym first ∙ k)) i
          | inr k ↦ subst (In y) (sym first ∙ k) (inr i)
        ] in
        others p y (subst (In y) (sym front) (inr there)) (not_first y there)
  ]

  pub front-Priority :
      (f' : ℕ → List ℕ) (a' : ℕ → Order) → Lost f p xs f' → Others a' → Priority sd f a f' a'
  front-Priority f' a' lost others = record {
    suffix = front_suffix f' lost;
    behind = front_behind f' a' lost others;
    price = λ q r worse full. elim (ℕ_discrete q p) [
      | no ne ↦ (elsewhere f' lost q ne, λ y i. others q y i (not_there q y ne i))
      | yes same ↦
          let empty : is_nil (f r) ≡ true = best r (ap (better sd r) (sym same) ∙ worse) in
          let (gone, e) = front_suffix f' lost r in
          cc (sym empty ∙ (ap is_nil e ∙ not_nil-append gone (f' r) full))
    ];
  }
