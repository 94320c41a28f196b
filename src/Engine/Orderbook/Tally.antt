-- ===== src/Engine/Orderbook/Tally.antt =====
-- How much the orders of a map still want on each side, and what one change does to it.
use client_exchange_simulati.Prelude.{
  ℕ, ◌+◌, ◌≡◌, ◌≢◌, refl, Bool-cases, inl, inr, some, [], ◌∷◌, arith, ◌==◌,
}
use client_exchange_simulati.Engine.Order.{Order}
use client_exchange_simulati.Engine.OrderPool.{write}
use client_exchange_simulati.Engine.Levels.{Ladder, bids, asks, ladder, on}
use client_exchange_simulati.Engine.Orderbook.Orders.{OrderMap, find, erase_key, Keys}

-- An amount that counts for one ladder only.
abbrev pub only : Ladder → ℕ → Ladder → ℕ
only sd n = on sd n (λ _. 0)

pub only-zero : (sd sd' : Ladder) → only sd 0 sd' ≡ 0
only-zero bids bids = refl
only-zero bids asks = refl
only-zero asks bids = refl
only-zero asks asks = refl

pub only-plus : (sd sd' : Ladder) (n m : ℕ) → only sd n sd' + only sd m sd' ≡ only sd (n + m) sd'
only-plus bids bids n m = refl
only-plus bids asks n m = refl
only-plus asks bids n m = refl
only-plus asks asks n m = refl

abbrev pub portion : Order → Ladder → ℕ
portion o = only (ladder o.side) o.remaining_quantity

unfoldable pub tally : (ℕ → Order) → OrderMap → Ladder → ℕ
tally a [] sd = 0
tally a ((id, x) ∷ m) sd = portion (a x) sd + tally a m sd

pub tally-erase_key :
    (a : ℕ → Order) (k x : ℕ) (m : OrderMap) (sd : Ladder)
    → find k m ≡ some x
    → tally a (erase_key k m) sd + portion (a x) sd ≡ tally a m sd
unfolding tally find erase_key
tally-erase_key a k x [] sd e = cc
tally-erase_key a k x ((j, y) ∷ m) sd e = elim (Bool-cases (j == k)) [
  | inl hit ↦ let same : y ≡ x = ground arith in rw (hit, same) (omega arith)
  | inr miss ↦
      let older : find k m ≡ some x = ground arith in
      rw miss (omega (arith, tally-erase_key a k x m sd older))
]

-- An order that the map does not lead to is not counted.
pub tally-write_absent :
    (a : ℕ → Order) (x : ℕ) (o : Order) (m : OrderMap) (sd : Ladder)
    → Keys m
    → ((j : ℕ) → find j m ≢ some x)
    → tally (write a x o) m sd ≡ tally a m sd
unfolding tally find
tally-write_absent a x o [] sd u absent = refl
tally-write_absent a x o ((j, y) ∷ m) sd u absent =
    let other : y ≢ x = λ same. absent j (ground arith) in
    let stays : write a x o y ≡ a y = ground arith in
    let fewer : (i : ℕ) → find i m ≢ some x = λ i f. absent i (ground (arith, u.0)) in
    rw stays (omega (arith, tally-write_absent a x o m sd u.1 fewer))

-- An order that one key leads to is counted once.
pub tally-write :
    (a : ℕ → Order) (k x : ℕ) (o : Order) (m : OrderMap) (sd : Ladder)
    → Keys m
    → find k m ≡ some x
    → ((j : ℕ) → find j m ≡ some x → j ≡ k)
    → tally (write a x o) m sd + portion (a x) sd ≡ tally a m sd + portion o sd
unfolding tally find
tally-write a k x o [] sd u e alone = cc
tally-write a k x o ((j, y) ∷ m) sd u e alone = elim (Bool-cases (j == k)) [
  | inl hit ↦
      let same : y ≡ x = ground arith in
      let gone : (i : ℕ) → find i m ≢ some x =
        λ i f. let again : i ≡ k = alone i (ground (arith, u.0)) in ground (arith, u.0) in
      let here : write a x o y ≡ o = ground arith in
      rw (here, same) (omega (arith, tally-write_absent a x o m sd u.1 gone))
  | inr miss ↦
      let older : find k m ≡ some x = ground arith in
      let other : y ≢ x = λ same. let again : j ≡ k = alone j (ground arith) in ground arith in
      let stays : write a x o y ≡ a y = ground arith in
      let rest : (i : ℕ) → find i m ≡ some x → i ≡ k = λ i f. alone i (ground (arith, u.0)) in
      rw stays (omega (arith, tally-write a k x o m sd u.1 older rest))
]
