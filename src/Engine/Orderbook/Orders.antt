-- ===== src/Engine/Orderbook/Orders.antt =====
-- `OrderMap`, a `std::unordered_map<OrderId, Order*>`, as an association list. Nothing in the code
-- depends on the order of its entries.
use client_exchange_simulati.Prelude.{
  ℕ, suc, ◌≡◌, Bool, true, false, Option, none, some, List, [], ◌∷◌, arith, ◌==◌, if◌then◌else◌,
  length,
}

abbrev pub OrderMap : Type 0
OrderMap = List (ℕ × ℕ)

unfoldable pub find : ℕ → OrderMap → Option ℕ
find k [] = none
find k ((j, x) ∷ m) = if j == k then some x else find k m

abbrev pub is_some : Option ℕ → Bool
is_some none = false
is_some (some x) = true

unfoldable pub contains : ℕ → OrderMap → Bool
contains k m = is_some (find k m)

unfoldable pub erase_key : ℕ → OrderMap → OrderMap
erase_key k [] = []
erase_key k ((j, x) ∷ m) = if j == k then m else (j, x) ∷ erase_key k m

-- No key stands twice.
abbrev pub Keys : OrderMap → Type 0
Keys [] = Unit {0}
Keys ((j, x) ∷ m) = (find j m ≡ none) × Keys m

pub find-erase_key :
    (k j : ℕ) (m : OrderMap) → Keys m → find j (erase_key k m) ≡ (if k == j then none else find j m)
unfolding find erase_key
find-erase_key k j [] u = ground arith
find-erase_key k j ((i, x) ∷ m) u = ground (arith, find-erase_key k j m u.1)

pub Keys-erase_key : (k : ℕ) (m : OrderMap) → Keys m → Keys (erase_key k m)
unfolding find erase_key
Keys-erase_key k [] u = tt
Keys-erase_key k ((i, x) ∷ m) u = ground (arith, Keys-erase_key k m u.1, find-erase_key k i m u.1)

pub length-erase_key :
    (k x : ℕ) (m : OrderMap) → find k m ≡ some x → suc (length (erase_key k m)) ≡ length m
unfolding find erase_key
length-erase_key k x [] e = cc
length-erase_key k x ((i, y) ∷ m) e = ground (arith, length-erase_key k x m)
