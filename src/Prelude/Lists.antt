-- ===== src/Prelude/Lists.antt =====
-- Lists measured by native numbers, membership by recursion, and association lists keyed by numbers.
use Prim.Native.Nat.{ℕ, suc, ◌+◌}
use mathlib.Core.Path.{◌≡◌, refl}
use mathlib.Core.Logic.{◌≢◌, ◌⊎◌, inl, inr}
use mathlib.Core.Bool.{Bool, true, false}
use mathlib.Core.List.{List, [], ◌∷◌, ◌++◌}
use native.Mathlib.Omega.{arith}
use client_exchange_simulati.Prelude.Tests.{◌==◌, if◌then◌else◌}

module _ {ℓ} {A : Type ℓ} where
  abbrev pub length : List A → ℕ
  length [] = 0
  length (x ∷ xs) = suc (length xs)

  abbrev pub is_nil : List A → Bool
  is_nil [] = true
  is_nil (x ∷ xs) = false

  pub length-append : (xs ys : List A) → length (xs ++ ys) ≡ length xs + length ys
  length-append [] ys = omega arith
  length-append (x ∷ xs) ys = omega (arith, length-append xs ys)

-- Membership, computing to a sum.
abbrev pub In : ℕ → List ℕ → Type 0
In a [] = ⊥
In a (x ∷ xs) = (a ≡ x) ⊎ In a xs

-- No number stands twice.
abbrev pub Distinct : List ℕ → Type 0
Distinct [] = Unit {0}
Distinct (x ∷ xs) = (¬ In x xs) × Distinct xs

pub In-append : (a : ℕ) (xs ys : List ℕ) → In a (xs ++ ys) → In a xs ⊎ In a ys
In-append a [] ys i = inr i
In-append a (x ∷ xs) ys (inl e) = inl (inl e)
In-append a (x ∷ xs) ys (inr i) = elim (In-append a xs ys i) [ inl j ↦ inl (inr j) | inr j ↦ inr j ]

pub In-append_left : (a : ℕ) (xs ys : List ℕ) → In a xs → In a (xs ++ ys)
In-append_left a [] ys i = elim i [ ]
In-append_left a (x ∷ xs) ys (inl e) = inl e
In-append_left a (x ∷ xs) ys (inr i) = inr (In-append_left a xs ys i)

pub In-append_right : (a : ℕ) (xs ys : List ℕ) → In a ys → In a (xs ++ ys)
In-append_right a [] ys i = i
In-append_right a (x ∷ xs) ys i = inr (In-append_right a xs ys i)

pub Distinct-append_one :
    (a : ℕ) (xs : List ℕ) → Distinct xs → (¬ In a xs) → Distinct (xs ++ a ∷ [])
Distinct-append_one a [] d out = (λ i. elim i [ ], tt)
Distinct-append_one a (x ∷ xs) d out = (
  λ i. elim (In-append x xs (a ∷ []) i) [
    | inl j ↦ d.0 j
    | inr j ↦ elim j [ inl e ↦ out (inl (omega arith)) | inr k ↦ k ]
  ],
  Distinct-append_one a xs d.1 (λ i. out (inr i)),
)

-- The list without the first `a`.
pub erase : ℕ → List ℕ → List ℕ
erase a [] = []
erase a (x ∷ xs) = if x == a then xs else x ∷ erase a xs

pub erase-same : (x y : ℕ) (ys : List ℕ) → x ≡ y → erase x (y ∷ ys) ≡ ys
unfolding erase
erase-same x y ys e = ground arith

pub erase-later : (x y : ℕ) (ys : List ℕ) → y ≢ x → erase x (y ∷ ys) ≡ y ∷ erase x ys
unfolding erase
erase-later x y ys ne = ground arith

pub length-erase : (x : ℕ) (xs : List ℕ) → In x xs → suc (length (erase x xs)) ≡ length xs
unfolding erase
length-erase x [] i = absurd i
length-erase x (y ∷ ys) i = ground (arith, length-erase x ys)

pub In-erase : (b a : ℕ) (xs : List ℕ) → In b (erase a xs) → In b xs
unfolding erase
In-erase b a [] i = i
In-erase b a (x ∷ xs) i = ground (arith, In-erase b a xs)

pub In-erase_ne : (b a : ℕ) (xs : List ℕ) → b ≢ a → In b xs → In b (erase a xs)
unfolding erase
In-erase_ne b a [] ne i = i
In-erase_ne b a (x ∷ xs) ne i = ground (arith, In-erase_ne b a xs ne)

pub not-In-erase : (a : ℕ) (xs : List ℕ) → Distinct xs → ¬ In a (erase a xs)
unfolding erase
not-In-erase a [] d i = i
not-In-erase a (x ∷ xs) d i = ground (arith, not-In-erase a xs d.1, d.0)

pub Distinct-erase : (a : ℕ) (xs : List ℕ) → Distinct xs → Distinct (erase a xs)
unfolding erase
Distinct-erase a [] d = tt
Distinct-erase a (x ∷ xs) d =
    ground (arith, Distinct-erase a xs d.1, d.0, λ (i : In x (erase a xs)). d.0 (In-erase x a xs i))

pub is_nil-erase : (x : ℕ) (xs : List ℕ) → is_nil xs ≡ true → is_nil (erase x xs) ≡ true
unfolding erase
is_nil-erase x [] e = refl
is_nil-erase x (y ∷ xs) e = cc
