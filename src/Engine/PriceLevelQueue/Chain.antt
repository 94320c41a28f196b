-- ===== src/Engine/PriceLevelQueue/Chain.antt =====
-- When the links of some orders spell a list.
use client_exchange_simulati.Prelude.{
  ℕ, ◌%◌, ◌^◌, ◌≡◌, ◌≢◌, refl, sym, ap, ◌∙◌, ◌⊎◌, inl, inr, Option, none, some, List, [], ◌∷◌, ◌++◌,
  arith, length, In, Distinct,
}
use client_exchange_simulati.Engine.Levels.{first}
use client_exchange_simulati.Engine.PriceLevelQueue.{Links, PriceLevelQueue, assign}

-- From an order that follows `before`, the links run through the list.
abbrev pub Chain : Links → Option ℕ → List ℕ → Type 0
Chain l before [] = Unit {0}
Chain l before (x ∷ xs) = (l.prev x ≡ before) × (l.next x ≡ first xs) × Chain l (some x) xs

abbrev pub last : Option ℕ → List ℕ → Option ℕ
last before [] = before
last before (x ∷ xs) = last (some x) xs

-- The queue stands for the list.
pub record Represents (l : Links) (q : PriceLevelQueue) (xs : List ℕ) : Type 0 where
  pub head : q.head ≡ first xs
  pub tail : q.tail ≡ last none xs
  pub size : q.size ≡ length xs % 2 ^ 64
  pub chain : Chain l none xs
  pub distinct : Distinct xs

-- Two stores with the same links on a list.
abbrev pub Agree : Links → Links → List ℕ → Type 0
Agree l l' [] = Unit {0}
Agree l l' (x ∷ xs) = (l'.prev x ≡ l.prev x) × (l'.next x ≡ l.next x) × Agree l l' xs

pub Agree-Chain :
    (l l' : Links) (before : Option ℕ) (xs : List ℕ)
    → Agree l l' xs
    → Chain l before xs
    → Chain l' before xs
Agree-Chain l l' before [] a c = tt
Agree-Chain l l' before (x ∷ xs) a c = (a.0 ∙ c.0, a.1 ∙ c.1, Agree-Chain l l' (some x) xs a.2 c.2)

pub Agree-all :
    (l l' : Links) (xs : List ℕ)
    → ((x : ℕ) → In x xs → (l'.prev x ≡ l.prev x) × (l'.next x ≡ l.next x))
    → Agree l l' xs
Agree-all l l' [] h = tt
Agree-all l l' (x ∷ xs) h =
    ((h x (inl refl)).0, (h x (inl refl)).1, Agree-all l l' xs (λ y i. h y (inr i)))

pub some-inj : {a b : ℕ} → some a ≡ some b → a ≡ b
some-inj e = cc

pub assign-same : (f : ℕ → Option ℕ) (x : ℕ) (o : Option ℕ) → assign f x o x ≡ o
assign-same f x o = ground arith

pub assign-other : (f : ℕ → Option ℕ) (x y : ℕ) (o : Option ℕ) → y ≢ x → assign f x o y ≡ f y
assign-other f x y o ne = ground arith

-- The successor of an order of the list is in the rest of the list.
pub next-In :
    (l : Links) (before : Option ℕ) (xs : List ℕ) (x n : ℕ)
    → Chain l before xs
    → In x xs
    → l.next x ≡ some n
    → In n xs
next-In l before [] x n c i e = absurd i
next-In l before (y ∷ []) x n c (inl s) e = absurd (ground (arith, sym (ap l.next s) ∙ e, c.1))
next-In l before (y ∷ z ∷ zs) x n c (inl s) e = inr (inl (some-inj (sym e ∙ ap l.next s ∙ c.1)))
next-In l before (y ∷ ys) x n c (inr i) e = inr (next-In l (some y) ys x n c.2 i e)

-- Its predecessor is in the list, or stands before it.
pub prev-In :
    (l : Links) (before : Option ℕ) (xs : List ℕ) (x p : ℕ)
    → Chain l before xs
    → In x xs
    → l.prev x ≡ some p
    → (before ≡ some p) ⊎ In p xs
prev-In l before [] x p c i e = absurd i
prev-In l before (y ∷ ys) x p c (inl s) e = inl (sym c.0 ∙ sym (ap l.prev s) ∙ e)
prev-In l before (y ∷ ys) x p c (inr i) e = elim (prev-In l (some y) ys x p c.2 i e) [
  | inl s ↦ inr (inl (sym (some-inj s)))
  | inr j ↦ inr (inr j)
]

pub last-append : (before : Option ℕ) (xs : List ℕ) (x : ℕ) → last before (xs ++ x ∷ []) ≡ some x
last-append before [] x = refl
last-append before (y ∷ ys) x = last-append (some y) ys x

-- The last order of a list is in it.
pub last-In : (t y : ℕ) (ys : List ℕ) → last (some y) ys ≡ some t → (t ≡ y) ⊎ In t ys
last-In t y [] e = inl (sym (some-inj e))
last-In t y (z ∷ zs) e = elim (last-In t z zs e) [ inl s ↦ inr (inl s) | inr i ↦ inr (inr i) ]
