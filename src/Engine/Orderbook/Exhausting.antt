-- ===== src/Engine/Orderbook/Exhausting.antt =====
-- The inner loop of `matchOrders`, over two levels.
use client_exchange_simulati.Prelude.{
  ℕ, zero, suc, ◌+◌, ◌≤◌, ◌<◌, ◌≡◌, refl, ◌⊎◌, inl, inr, Bool, true, false, List, [], ◌∷◌, arith,
  ltb, ◌||◌, length, is_nil, Bool-cases,
}
use client_exchange_simulati.Prelude.Result.{ok, Returns, Returns-bind, Returns-weaken}
use client_exchange_simulati.Engine.Levels.{Ladder, bids, asks, list_levels}
use client_exchange_simulati.Engine.Orderbook.Matching.{match_round, match_levels}
use client_exchange_simulati.Engine.Orderbook.Invariant.{Book, IsBook}
use client_exchange_simulati.Engine.Orderbook.Priority.{Priority-refl, Priority-trans}
use client_exchange_simulati.Engine.Orderbook.Fronts.{Prior, IsBest, Prior-IsBest}
use client_exchange_simulati.Engine.Orderbook.Conserving.{Trades}
use client_exchange_simulati.Engine.Orderbook.Rounds.{match_round-Returns}

-- What the inner loop leaves: a match takes orders out, and without one nothing has happened.
pub record Matched (b : Book) (pb pa : ℕ) (before : Bool) (out : Bool × Book) : Type 0 where
  pub book : IsBook out.1
  pub fewer : length out.1.orders ≤ length b.orders
  pub progress : out.0 ≡ true → (before ≡ true) ⊎ (length out.1.orders < length b.orders)
  pub idle :
      out.0 ≡ false
      → (before ≡ false)
        × (out.1 ≡ b)
        × ((is_nil (b.levels bids pb) ≡ true)
            ⊎ ((is_nil (b.levels asks pa) ≡ true) ⊎ (b.best bids < b.best asks)))
  pub traded : (q : ℕ) × Trades b out.1 q
  pub prior : IsBest b bids pb → IsBest b asks pa → (sd : Ladder) → Prior b out.1 sd

pub Trades-trans :
    (b b1 b2 : Book) → (q : ℕ) × Trades b b1 q → (q : ℕ) × Trades b1 b2 q → (q : ℕ) × Trades b b2 q
Trades-trans b b1 b2 (q, f) (r, g) = (q + r, λ sd. omega (arith, f sd, g sd))

pub not-is_nil : (xs : List ℕ) → is_nil xs ≡ false → (x : ℕ) × (ys : List ℕ) × (xs ≡ x ∷ ys)
not-is_nil [] e = cc
not-is_nil (x ∷ ys) e = (x, ys, refl)

-- A round, and the rounds after it.
after_round :
    (b b' : Book) (pb pa : ℕ) (before : Bool) (out : Bool × Book)
    → length b'.orders < length b.orders
    → (q : ℕ) × Trades b b' q
    → (IsBest b bids pb → IsBest b asks pa → (sd : Ladder) → Prior b b' sd)
    → Matched b' pb pa true out
    → Matched b pb pa before out
after_round b b' pb pa before out h t first m = record {
  book = m.book;
  fewer = omega (arith, m.fewer);
  progress = λ _. inr (omega (arith, m.fewer));
  idle = λ f. cc (m.idle f).0;
  traded = Trades-trans b b' out.1 t m.traded;
  prior = λ u w sd.
      let now = first u w in
      Priority-trans (now sd) (
        m.prior (Prior-IsBest b b' bids pb (now bids) u) (Prior-IsBest b b' asks pa (now asks) w)
          sd);
}

pub match_levels-Returns :
    (fuel : ℕ) (b : Book) (pb pa : ℕ) (before : Bool)
    → IsBook b
    → length b.orders < fuel
    → Returns (Matched b pb pa before) (match_levels list_levels fuel b pb pa before)
unfolding match_levels
match_levels-Returns zero b pb pa before v h = absurd (omega arith)
match_levels-Returns (suc fuel) b pb pa before v h =
    elim (Bool-cases (is_nil (b.levels bids pb) || is_nil (b.levels asks pa))) [
      | inl stop ↦ rw stop (stopped (ground arith))
      | inr go ↦ elim (Bool-cases (ltb (b.best bids) (b.best asks))) [
        | inl apart ↦ rw (go, apart) (stopped (inr (inr (ground arith))))
        | inr crossed ↦
            let (x, xs, ex) = not-is_nil (b.levels bids pb) (ground arith) in
            let (y, ys, ey) = not-is_nil (b.levels asks pa) (ground arith) in
            rw (go, crossed)
              (Returns-bind _ _ (match_round list_levels b pb pa) _
                (match_round-Returns b pb pa x y xs ys v ex ey)
                λ out r. continue out.0 out.1 r (match_levels-Returns fuel out.1 pb pa true))
      ]
    ]
  where
    stopped :
        (is_nil (b.levels bids pb) ≡ true)
          ⊎ ((is_nil (b.levels asks pa) ≡ true) ⊎ (b.best bids < b.best asks))
        → Matched b pb pa before (before, b)
    stopped why = record {
      book = v;
      fewer = omega arith;
      progress = λ e. inl e;
      idle = λ e. (e, refl, why);
      traded = (0, λ sd. omega arith);
      prior = λ u w sd. Priority-refl;
    }

    continue :
        (done : Bool) (b' : Book)
        → IsBook b'
          × (length b'.orders < length b.orders)
          × ((q : ℕ) × Trades b b' q)
          × (IsBest b bids pb → IsBest b asks pa → (sd : Ladder) → Prior b b' sd)
        → (IsBook b'
            → length b'.orders < fuel
            → Returns (Matched b' pb pa true) (match_levels list_levels fuel b' pb pa true))
        → Returns (Matched b pb pa before) (elim done [
          | true ↦ ok (true, b')
          | false ↦ match_levels list_levels fuel b' pb pa true
        ])
    continue true b' r ih = record {
      book = r.0;
      fewer = omega (arith, r.1);
      progress = λ _. inr r.1;
      idle = λ f. cc;
      traded = r.2;
      prior = r.3;
    }
    continue false b' r ih =
        Returns-weaken _ _ (match_levels list_levels fuel b' pb pa true)
          (ih r.0 (omega (arith, r.1))) λ out m. after_round b b' pb pa before out r.1 r.2 r.3 m
