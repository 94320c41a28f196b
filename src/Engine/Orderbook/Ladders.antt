-- ===== src/Engine/Orderbook/Ladders.antt =====
-- One ladder of the book: its count of levels and its best price agree with the levels themselves.
use client_exchange_simulati.Prelude.{
  ℕ, ◌+◌, ◌-◌, ◌≤◌, ◌≡◌, ◌≢◌, refl, ◌⊎◌, inl, inr, Bool, true, false, List, [], ◌∷◌, ◌++◌, arith,
  Bool-cases, ◌==◌, if◌then◌else◌, is_nil,
}
use native.Mathlib.Decide.{dec_lt, ℕ_discrete}
use client_exchange_simulati.Engine.Config.{min_price, max_price}
use client_exchange_simulati.Engine.Levels.{Ladder, bids, asks, set_at}
use client_exchange_simulati.Engine.Orderbook.State.{
  scan, ticks_left, idle_price, better, in_ladder, decrement, increment,
}
use client_exchange_simulati.Engine.Orderbook.Counting.{
  filled, filled-le, filled-set, filled-pos, filled-zero, scan-StopsDown, scan-StopsUp,
}

-- `best` is the best price with an order, or the idle price when there is none; `count` levels are
-- not empty.
pub record IsLadder (sd : Ladder) (f : ℕ → List ℕ) (best count : ℕ) : Type 0 where
  pub counted : filled f max_price ≡ count
  pub low : min_price ≤ best
  pub high : best ≤ max_price
  pub beyond : (p : ℕ) → better sd p best ≡ true → is_nil (f p) ≡ true
  pub outside : (p : ℕ) → in_ladder p ≡ false → is_nil (f p) ≡ true
  pub top : count ≢ 0 → is_nil (f best) ≡ false
  pub idle : count ≡ 0 → best ≡ idle_price sd

abbrev pub missing : List ℕ → ℕ
missing xs = if is_nil xs then 1 else 0

-- With no level counted there is no order.
pub none_at :
    {sd : Ladder} {f : ℕ → List ℕ} {best count : ℕ} (p : ℕ)
    → IsLadder sd f best count
    → count ≡ 0
    → is_nil (f p) ≡ true
none_at {sd} {f} {best} {count} p v e = elim (Bool-cases (is_nil (f p))) [
  | inl empty ↦ empty
  | inr full ↦
      let inside : in_ladder p ≡ true = ground (arith, v.outside p) in
      absurd (omega (arith, v.counted, filled-pos f p max_price (ground arith) (ground arith) full))
]

-- The same after orders have left the level `at`, which was not empty: the count and the best price
-- may still speak of it.
pub record IsPending (sd : Ladder) (f : ℕ → List ℕ) (best count at : ℕ) : Type 0 where
  pub counted : filled f max_price + missing (f at) ≡ count
  pub low : min_price ≤ best
  pub high : best ≤ max_price
  pub inside : in_ladder at ≡ true
  pub beyond : (p : ℕ) → better sd p best ≡ true → is_nil (f p) ≡ true
  pub outside : (p : ℕ) → in_ladder p ≡ false → is_nil (f p) ≡ true
  pub top : (best ≡ at) ⊎ (is_nil (f best) ≡ false)

pub reduce-IsPending :
    {sd : Ladder} {f : ℕ → List ℕ} {best count : ℕ} (at : ℕ) (xs : List ℕ)
    → IsLadder sd f best count
    → is_nil (f at) ≡ false
    → IsPending sd (set_at f at xs) best count at
reduce-IsPending {sd} {f} {best} {count} at xs v full =
    let inside : in_ladder at ≡ true = ground (arith, v.outside at) in
    let one : 1 ≤ at = ground arith in
    let last : at ≤ max_price = ground arith in
    let some_left = filled-pos f at max_price one last full in
    record {
      counted = ground (arith, filled-set f at xs max_price one last, v.counted);
      low = v.low;
      high = v.high;
      inside = inside;
      beyond = λ p h. ground (arith, v.beyond p h, v.beyond at);
      outside = λ p h. ground (arith, v.outside p h);
      top = ground (arith, v.top, v.counted);
    }

-- The level kept an order: nothing else has to change.
pub keep-IsLadder :
    {sd : Ladder} {f : ℕ → List ℕ} {best count at : ℕ}
    → IsPending sd f best count at
    → is_nil (f at) ≡ false
    → IsLadder sd f best count
keep-IsLadder {sd} {f} {best} {count} {at} v full =
    let one : 1 ≤ at = ground (arith, v.inside) in
    let last : at ≤ max_price = ground (arith, v.inside) in
    let some_left = filled-pos f at max_price one last full in
    record {
      counted = ground (arith, v.counted);
      low = v.low;
      high = v.high;
      beyond = v.beyond;
      outside = v.outside;
      top = ground (arith, v.top);
      idle = λ e. absurd (ground (arith, v.counted));
    }

-- The last order of the ladder left: the best price is reset.
pub reset-IsLadder :
    (sd : Ladder) (f : ℕ → List ℕ)
    → filled f max_price ≡ 0
    → ((p : ℕ) → in_ladder p ≡ false → is_nil (f p) ≡ true)
    → IsLadder sd f (idle_price sd) 0
reset-IsLadder sd f none_left outside = record {
  counted = none_left;
  low = low_idle sd;
  high = high_idle sd;
  beyond = λ p h. every p;
  outside = outside;
  top = λ h. absurd (h refl);
  idle = λ e. refl;
}
  where
    low_idle : (s : Ladder) → min_price ≤ idle_price s
    low_idle bids = omega arith
    low_idle asks = omega arith

    high_idle : (s : Ladder) → idle_price s ≤ max_price
    high_idle bids = omega arith
    high_idle asks = omega arith

    every : (p : ℕ) → is_nil (f p) ≡ true
    every p = elim (Bool-cases (in_ladder p)) [
      | inl inside ↦ elim (Bool-cases (is_nil (f p))) [
        | inl e ↦ e
        | inr full ↦
            absurd (
              omega (arith, none_left, filled-pos f p max_price (ground arith) (ground arith) full))
      ]
      | inr out ↦ outside p out
    ]

-- The best level left, and other levels remain: the scan finds the next best price.
pub scan-IsLadder :
    {sd : Ladder} {f : ℕ → List ℕ} {best count at : ℕ}
    → IsPending sd f best count at
    → filled f max_price ≢ 0
    → IsLadder sd f (scan sd (λ r. is_nil (f r)) (ticks_left sd best) best) (filled f max_price)
scan-IsLadder {sd = bids} {f} {best} v some_left =
    let s = scan-StopsDown f (best - min_price) best (omega (arith, v.low)) in
    let q = scan bids (λ r. is_nil (f r)) (best - min_price) best in
    let beyond : (p : ℕ) → better bids p q ≡ true → is_nil (f p) ≡ true = λ p h.
      elim (dec_lt best p) [
        | yes far ↦ v.beyond p (ground arith)
        | no near ↦ s.passed p (ground arith) (omega arith)
      ] in
    record {
      counted = refl;
      low = s.floor;
      high = omega (arith, s.below, v.high);
      beyond = beyond;
      outside = v.outside;
      top = λ _. elim s.stopped [
        | inl e ↦ elim (Bool-cases (is_nil (f q))) [
          | inl empty ↦ absurd (
              some_left (
                filled-zero f max_price λ p a b. elim (dec_lt q p) [
                  | yes h ↦ beyond p (ground arith)
                  | no h ↦ ground arith
                ]))
          | inr full ↦ full
        ]
        | inr full ↦ full
      ];
      idle = λ e. absurd (some_left e);
    }
scan-IsLadder {sd = asks} {f} {best} v some_left =
    let s = scan-StopsUp f (max_price - best) best (omega (arith, v.high)) in
    let q = scan asks (λ r. is_nil (f r)) (max_price - best) best in
    let beyond : (p : ℕ) → better asks p q ≡ true → is_nil (f p) ≡ true = λ p h.
      elim (dec_lt p best) [
        | yes far ↦ v.beyond p (ground arith)
        | no near ↦ s.passed p (omega arith) (ground arith)
      ] in
    record {
      counted = refl;
      low = omega (arith, s.above, v.low);
      high = s.ceiling;
      beyond = beyond;
      outside = v.outside;
      top = λ _. elim s.stopped [
        | inl e ↦ elim (Bool-cases (is_nil (f q))) [
          | inl empty ↦ absurd (
              some_left (
                filled-zero f max_price λ p a b. elim (dec_lt p q) [
                  | yes h ↦ beyond p (ground arith)
                  | no h ↦ ground arith
                ]))
          | inr full ↦ full
        ]
        | inr full ↦ full
      ];
      idle = λ e. absurd (some_left e);
    }

-- What `drop_level` makes of the best price.
abbrev pub best_after : Ladder → (ℕ → List ℕ) → ℕ → ℕ → Bool → ℕ
best_after sd f best n stale =
    if n == 0
    then idle_price sd
    else if stale
    then scan sd (λ r. is_nil (f r)) (ticks_left sd best) best
    else best

-- The emptied level is taken off the count, and the best price is looked for again if it was there.
pub drop-IsLadder :
    {sd : Ladder} {f : ℕ → List ℕ} {best count at : ℕ} (stale : Bool)
    → IsPending sd f best count at
    → is_nil (f at) ≡ true
    → (stale ≡ false → best ≢ at)
    → IsLadder sd f (best_after sd f best (decrement count) stale) (decrement count)
drop-IsLadder {sd} {f} {best} {count} {at} stale v gone fresh =
    let one_less : decrement count ≡ filled f max_price =
      ground (arith, v.counted, filled-le f max_price) in
    rw one_less (elim (ℕ_discrete (filled f max_price) 0) [
      | yes e ↦ rw e (reset-IsLadder sd f e v.outside)
      | no ne ↦
          let left : (filled f max_price == 0) ≡ false = ground arith in
          elim (Bool-cases stale) [
            | inl s ↦ rw (left, s) (scan-IsLadder v ne)
            | inr s ↦
                rw (left, s)
                  (record {
                    counted = refl;
                    low = v.low;
                    high = v.high;
                    beyond = v.beyond;
                    outside = v.outside;
                    top = λ _. ground (arith, v.top, fresh s);
                    idle = λ e. absurd (ne e);
                  })
          ]
    ])

not-is_nil-append : (xs : List ℕ) (x : ℕ) → is_nil (xs ++ x ∷ []) ≡ false
not-is_nil-append [] x = refl
not-is_nil-append (y ∷ xs) x = refl

push_best :
    (sd : Ladder) (p best : ℕ)
    → min_price ≤ p
    → p ≤ max_price
    → min_price ≤ best
    → best ≤ max_price
    → (min_price ≤ (if better sd p best then p else best))
      × ((if better sd p best then p else best) ≤ max_price)
push_best bids p best a b c d = ground arith
push_best asks p best a b c d = ground arith

-- Nothing that is better than the new best price was not better than the old one.
push_beyond :
    (sd : Ladder) (p q best : ℕ)
    → better sd q (if better sd p best then p else best) ≡ true
    → (better sd q best ≡ true) × (q ≢ p)
push_beyond bids p q best h = ground arith
push_beyond asks p q best h = ground arith

-- A price that is not better than the idle price is the idle price.
worst_idle :
    (sd : Ladder) (p : ℕ)
    → min_price ≤ p
    → p ≤ max_price
    → better sd p (idle_price sd) ≡ false
    → p ≡ idle_price sd
worst_idle bids p a b h = ground arith
worst_idle asks p a b h = ground arith

-- A new order at the back of the level `p`.
pub push-IsLadder :
    {sd : Ladder} {f : ℕ → List ℕ} {best count : ℕ} (p x : ℕ)
    → IsLadder sd f best count
    → in_ladder p ≡ true
    → IsLadder sd
        (set_at f p (f p ++ x ∷ []))
        (if better sd p best then p else best)
        (if is_nil (f p) then increment count else count)
push-IsLadder {sd} {f} {best} {count} p x v inside =
    let xs = f p ++ x ∷ [] in
    let one : 1 ≤ p = ground arith in
    let last : p ≤ max_price = ground arith in
    let full = not-is_nil-append (f p) x in
    let bounds = push_best sd p best one last v.low v.high in
    record {
      counted =
          ground (arith, filled-set f p xs max_price one last, filled-le f max_price, v.counted);
      low = bounds.0;
      high = bounds.1;
      beyond = λ q h. let older = push_beyond sd p q best h in ground (arith, v.beyond q older.0);
      outside = λ q h. ground (arith, v.outside q h);
      top = λ _. elim (Bool-cases (better sd p best)) [
        | inl b ↦ rw b (ground arith)
        | inr b ↦
            let at_idle = worst_idle sd p one last in rw b (ground (arith, v.top, v.idle, at_idle))
      ];
      idle = λ e.
          absurd
            (ground (arith, v.counted, filled-le f max_price, filled-pos f p max_price one last));
    }
