-- ===== src/Engine/Orderbook/Invariant.antt =====
-- The invariant of the book over lists of slots.
use client_exchange_simulati.Prelude.{
  ℕ, ◌≡◌, ◌≢◌, ◌<◌, refl, fun_ext, inl, inr, true, false, Bool-cases, [], arith, is_nil,
}
use client_exchange_simulati.Engine.Config.{max_price}
use client_exchange_simulati.Engine.Levels.{Ladder, bids, asks, on, Queues}
use client_exchange_simulati.Engine.Orderbook.State.{Orderbook}
use client_exchange_simulati.Engine.Orderbook.Counting.{filled-pos}
use client_exchange_simulati.Engine.Orderbook.Ladders.{
  IsLadder, none_at, IsPending, reduce-IsPending,
}
use client_exchange_simulati.Engine.Orderbook.Core.{IsCore}

-- The book whose levels are lists of slots.
abbrev pub Book : Type 0
Book = Orderbook Queues

abbrev pub Core : Book → Type 0
Core b = IsCore b.pool.arena b.levels b.orders b.pool.free_list b.pool.arena_size

abbrev pub Settled : Book → Ladder → Type 0
Settled b sd = IsLadder sd (b.levels sd) (b.best sd) (b.non_empty sd)

abbrev pub Pending : Book → Ladder → ℕ → Type 0
Pending b sd p = IsPending sd (b.levels sd) (b.best sd) (b.non_empty sd) p

pub record IsBook (b : Book) : Type 0 where
  pub core : Core b
  pub settled : (sd : Ladder) → Settled b sd

pub on_self {ℓ} : {A : Type ℓ} (sd : Ladder) (a : A) (f : Ladder → A) → on sd a f sd ≡ a
on_self bids a f = refl
on_self asks a f = refl

-- No resting bid reaches a resting ask.
abbrev pub IsUncrossed : Book → Type 0
IsUncrossed b =
    (p q : ℕ) → is_nil (b.levels bids p) ≡ false → is_nil (b.levels asks q) ≡ false → p < q

-- In a well-formed book that is what the best prices say.
pub IsUncrossed-of_best :
    (b : Book)
    → IsBook b
    → (b.non_empty bids ≢ 0 → b.non_empty asks ≢ 0 → b.best bids < b.best asks)
    → IsUncrossed b
IsUncrossed-of_best b v apart p q fp fq =
    let bv = v.settled bids in
    let av = v.settled asks in
    let some_bid : b.non_empty bids ≢ 0 = λ e. ground (arith, none_at p bv e) in
    let some_ask : b.non_empty asks ≢ 0 = λ e. ground (arith, none_at q av e) in
    ground (arith, apart some_bid some_ask, bv.beyond p, av.beyond q)

-- Orders only leave: an empty level stays empty.
abbrev pub Shrinks : Book → Book → Type 0
Shrinks b b' =
    (sd : Ladder) (p : ℕ) → is_nil (b.levels sd p) ≡ true → is_nil (b'.levels sd p) ≡ true

pub Shrinks-IsUncrossed : (b b' : Book) → Shrinks b b' → IsUncrossed b → IsUncrossed b'
Shrinks-IsUncrossed b b' s u p q fp fq = u p q (still bids p fp) (still asks q fq)
  where
    still : (sd : Ladder) (r : ℕ) → is_nil (b'.levels sd r) ≡ false → is_nil (b.levels sd r) ≡ false
    still sd r f = elim (Bool-cases (is_nil (b.levels sd r))) [ inl e ↦ cc (s sd r e) | inr e ↦ e ]

-- What a step on one ladder leaves alone on the other.
pub record SameSide (b b' : Book) (sd : Ladder) : Type 0 where
  pub levels : b'.levels sd ≡ b.levels sd
  pub best : b'.best sd ≡ b.best sd
  pub count : b'.non_empty sd ≡ b.non_empty sd

pub SameSide-Settled : {b b' : Book} {sd : Ladder} → SameSide b b' sd → Settled b sd → Settled b' sd
SameSide-Settled s v = rw (s.levels, s.best, s.count) v

pub SameSide-Pending :
    {b b' : Book} {sd : Ladder} {p : ℕ} → SameSide b b' sd → Pending b sd p → Pending b' sd p
SameSide-Pending s v = rw (s.levels, s.best, s.count) v

pub on-other {ℓ} :
    {A : Type ℓ} (sd sd' : Ladder) (a : A) (f : Ladder → A) → sd ≢ sd' → on sd a f sd' ≡ f sd'
on-other bids bids a f ne = absurd (ne refl)
on-other bids asks a f ne = refl
on-other asks bids a f ne = refl
on-other asks asks a f ne = absurd (ne refl)

on-same_at {ℓ} : {A : Type ℓ} (sd sd' : Ladder) (f : Ladder → A) → on sd (f sd) f sd' ≡ f sd'
on-same_at bids bids f = refl
on-same_at bids asks f = refl
on-same_at asks bids f = refl
on-same_at asks asks f = refl

pub on-same {ℓ} : {A : Type ℓ} (sd : Ladder) (f : Ladder → A) → on sd (f sd) f ≡ f
on-same sd f = fun_ext (λ sd'. on-same_at sd sd' f)

pub Settled-Pending :
    (b : Book) (sd : Ladder) (p : ℕ)
    → Settled b sd
    → is_nil (b.levels sd p) ≡ false
    → Pending b sd p
Settled-Pending b sd p v full =
    let inside = (reduce-IsPending p [] v full).inside in
    let some_left = filled-pos (b.levels sd) p max_price (ground arith) (ground arith) full in
    record {
      counted = ground (arith, v.counted);
      low = v.low;
      high = v.high;
      inside = inside;
      beyond = v.beyond;
      outside = v.outside;
      top = inr (v.top (λ e. absurd (omega (arith, v.counted))));
    }
