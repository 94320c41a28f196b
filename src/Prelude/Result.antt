-- ===== src/Prelude/Result.antt =====
-- Results of code that may throw, or whose behaviour may be undefined.
use mathlib.Core.Bool.{Bool, true, false}
use mathlib.Core.Option.{Option, none, some}
use mathlib.Core.Path.{◌≡◌, refl}
use client_exchange_simulati.Prelude.Tests.{if◌then◌else◌}

-- `out_of_range` is thrown by `unordered_map::at`, `logic_error` by `Order::fill`. A `bad_index` into
-- a `std::array` and a dereferenced `null_pointer` are undefined behaviour. `out_of_fuel` is the
-- model's own: a loop has used up the rounds it was given.
pub data Fault : Type 0 where
  out_of_range logic_error bad_index null_pointer out_of_fuel : Fault

pub data Result {ℓ} (A : Type ℓ) : Type ℓ where
  ok : A → Result A
  err : Fault → Result A

infixl 5 ◌>>=◌
abbrev pub ◌>>=◌ {ℓ κ} : {A : Type ℓ} {B : Type κ} → Result A → (A → Result B) → Result B
err fault >>= next = err fault
ok a >>= next = next a

-- Going on only where the test holds.
abbrev pub guard : Bool → Fault → Result (Unit {0})
guard false fault = err fault
guard true fault = ok tt

infixl 5 ◌>>◌
abbrev pub ◌>>◌ {κ} : {B : Type κ} → Result (Unit {0}) → Result B → Result B
first >> second = first >>= λ done. second

abbrev pub or_fault {ℓ} : {A : Type ℓ} → Option A → Fault → Result A
or_fault none e = err e
or_fault (some a) e = ok a

-- Total correctness: the code returns, and what it returns satisfies `P`.
abbrev pub Returns {ℓ} : {A : Type ℓ} → (A → Type 0) → Result A → Type 0
Returns P (ok a) = P a
Returns P (err e) = ⊥

-- The rule for a sequence.
pub Returns-bind {ℓ κ} :
    {A : Type ℓ} {B : Type κ} (P : A → Type 0) (Q : B → Type 0) (m : Result A) (f : A → Result B)
    → Returns P m
    → ((a : A) → P a → Returns Q (f a))
    → Returns Q (m >>= f)
Returns-bind P Q (ok a) f h next = next a h
Returns-bind P Q (err e) f h next = absurd h

pub Returns-weaken {ℓ} :
    {A : Type ℓ} (P Q : A → Type 0) (m : Result A)
    → Returns P m
    → ((a : A) → P a → Q a)
    → Returns Q m
Returns-weaken P Q (ok a) h weaken = weaken a h
Returns-weaken P Q (err e) h weaken = h

-- The value of a result, or another when there is none.
abbrev pub value_or {ℓ} : {A : Type ℓ} → A → Result A → A
value_or d (ok a) = a
value_or d (err e) = d

pub Returns-value_or {ℓ} :
    {A : Type ℓ} (P : A → Type 0) (d : A) (m : Result A) → Returns P m → P (value_or d m)
Returns-value_or P d (ok a) h = h
Returns-value_or P d (err e) h = absurd h

-- Partial correctness: what the code returns, if it returns, satisfies `P`.
abbrev pub Ensures {ℓ} : {A : Type ℓ} → (A → Type 0) → Result A → Type 0
Ensures P (ok a) = P a
Ensures P (err e) = Unit

pub Ensures-bind {ℓ κ} :
    {A : Type ℓ} {B : Type κ} (Q : B → Type 0) (m : Result A) (f : A → Result B)
    → ((a : A) → Ensures Q (f a))
    → Ensures Q (m >>= f)
Ensures-bind Q (ok a) f next = next a
Ensures-bind Q (err e) f next = tt

-- The rule for a conditional.
pub Returns-if {ℓ} :
    {A : Type ℓ} (P : A → Type 0) (c : Bool) (m n : Result A)
    → (c ≡ true → Returns P m)
    → (c ≡ false → Returns P n)
    → Returns P (if c then m else n)
Returns-if P true m n on off = on refl
Returns-if P false m n on off = off refl
