-- ===== src/Engine/Orderbook/Counting.antt =====
-- How many levels of a ladder are not empty, and where the scan for the best price stops.
use client_exchange_simulati.Prelude.{
  ℕ, zero, suc, ◌+◌, ◌-◌, ◌≤◌, ◌<◌, ◌≡◌, refl, ◌⊎◌, inl, inr, true, false, ◌&&◌, List, [], ◌∷◌,
  arith, Bool-cases, ltb, if◌then◌else◌, is_nil,
}
use native.Mathlib.Decide.{dec_lt}
use client_exchange_simulati.Engine.Config.{min_price, max_price}
use client_exchange_simulati.Engine.Levels.{bids, asks, set_at}
use client_exchange_simulati.Engine.Orderbook.State.{scan}

abbrev pub occupied : List ℕ → ℕ
occupied xs = if is_nil xs then 0 else 1

-- The levels at the prices 1 to n that hold an order.
pub filled : (ℕ → List ℕ) → ℕ → ℕ
filled f zero = 0
filled f (suc n) = occupied (f (suc n)) + filled f n

pub eq_of_is_nil : (xs : List ℕ) → is_nil xs ≡ true → xs ≡ []
eq_of_is_nil [] e = refl
eq_of_is_nil (x ∷ xs) e = cc

pub filled-le : (f : ℕ → List ℕ) (n : ℕ) → filled f n ≤ n
unfolding filled
filled-le f zero = omega arith
filled-le f (suc n) = ground (arith, filled-le f n)

filled-set_above :
    (f : ℕ → List ℕ) (p : ℕ) (xs : List ℕ) (n : ℕ) → n < p → filled (set_at f p xs) n ≡ filled f n
unfolding filled
filled-set_above f p xs zero h = refl
filled-set_above f p xs (suc n) h = ground (arith, filled-set_above f p xs n)

pub filled-set :
    (f : ℕ → List ℕ) (p : ℕ) (xs : List ℕ) (n : ℕ)
    → 1 ≤ p
    → p ≤ n
    → filled (set_at f p xs) n + occupied (f p) ≡ filled f n + occupied xs
unfolding filled
filled-set f p xs zero h k = absurd (omega arith)
filled-set f p xs (suc n) h k = ground (arith, filled-set f p xs n h, filled-set_above f p xs n)

pub filled-pos : (f : ℕ → List ℕ) (p n : ℕ) → 1 ≤ p → p ≤ n → is_nil (f p) ≡ false → 0 < filled f n
unfolding filled
filled-pos f p zero h k e = absurd (omega arith)
filled-pos f p (suc n) h k e = ground (arith, filled-pos f p n h)

pub filled-zero :
    (f : ℕ → List ℕ) (n : ℕ) → ((p : ℕ) → 1 ≤ p → p ≤ n → is_nil (f p) ≡ true) → filled f n ≡ 0
unfolding filled
filled-zero f zero h = refl
filled-zero f (suc n) h =
    let rest = filled-zero f n (λ p a b. h p a (omega arith)) in
    ground (arith, h (suc n) (omega arith) (omega arith))

-- Where a scan stops, towards `end`: on a level that is not empty, or at the end; it has passed
-- empty levels only.
pub record StopsDown (f : ℕ → List ℕ) (p q : ℕ) : Type 0 where
  pub floor : min_price ≤ q
  pub below : q ≤ p
  pub passed : (r : ℕ) → q < r → r ≤ p → is_nil (f r) ≡ true
  pub stopped : (q ≡ min_price) ⊎ (is_nil (f q) ≡ false)

pub record StopsUp (f : ℕ → List ℕ) (p q : ℕ) : Type 0 where
  pub ceiling : q ≤ max_price
  pub above : p ≤ q
  pub passed : (r : ℕ) → p ≤ r → r < q → is_nil (f r) ≡ true
  pub stopped : (q ≡ max_price) ⊎ (is_nil (f q) ≡ false)

pub scan-StopsDown :
    (f : ℕ → List ℕ) (n p : ℕ)
    → p ≡ min_price + n
    → StopsDown f p (scan bids (λ r. is_nil (f r)) n p)
unfolding scan
scan-StopsDown f zero p e = record {
  floor = omega arith;
  below = omega arith;
  passed = λ r a b. absurd (omega arith);
  stopped = inl (omega arith);
}
scan-StopsDown f (suc n) p e = elim (Bool-cases (is_nil (f p))) [
  | inl empty ↦
      let go : (ltb min_price p && is_nil (f p)) ≡ true = ground arith in
      let rest = scan-StopsDown f n (p - 1) (omega arith) in
      rw go (record {
        floor = rest.floor;
        below = omega arith;
        passed = λ r a b. elim (dec_lt r p) [
          | yes h ↦ rest.passed r a (omega arith)
          | no h ↦ ground arith
        ];
        stopped = rest.stopped;
      })
  | inr full ↦
      let halt : (ltb min_price p && is_nil (f p)) ≡ false = ground arith in
      rw halt (record {
        floor = omega arith;
        below = omega arith;
        passed = λ r a b. absurd (omega arith);
        stopped = inr full;
      })
]

pub scan-StopsUp :
    (f : ℕ → List ℕ) (n p : ℕ) → p + n ≡ max_price → StopsUp f p (scan asks (λ r. is_nil (f r)) n p)
unfolding scan
scan-StopsUp f zero p e = record {
  ceiling = omega arith;
  above = omega arith;
  passed = λ r a b. absurd (omega arith);
  stopped = inl (omega arith);
}
scan-StopsUp f (suc n) p e = elim (Bool-cases (is_nil (f p))) [
  | inl empty ↦
      let go : (ltb p max_price && is_nil (f p)) ≡ true = ground arith in
      let rest = scan-StopsUp f n (p + 1) (omega arith) in
      rw go (record {
        ceiling = rest.ceiling;
        above = omega arith;
        passed = λ r a b. elim (dec_lt p r) [
          | yes h ↦ rest.passed r (omega arith) b
          | no h ↦ ground arith
        ];
        stopped = rest.stopped;
      })
  | inr full ↦
      let halt : (ltb p max_price && is_nil (f p)) ≡ false = ground arith in
      rw halt (record {
        ceiling = omega arith;
        above = omega arith;
        passed = λ r a b. absurd (omega arith);
        stopped = inr full;
      })
]
