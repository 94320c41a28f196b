-- ===== src/Engine/Orderbook/Fronts.antt =====
-- The orders that a round of matching may change: the first of the best level of a side.
use client_exchange_simulati.Prelude.{
  ℕ, ◌≡◌, ◌≢◌, refl, sym, ap, subst, ◌∙◌, Bool-cases, inl, inr, true, List, ◌∷◌, is_nil, In,
}
use client_exchange_simulati.Engine.Order.{is_filled}
use client_exchange_simulati.Engine.OrderPool.{deallocate}
use client_exchange_simulati.Engine.Levels.{Ladder, bids, asks, set_at, rest, list_levels}
use client_exchange_simulati.Engine.Orderbook.State.{
  better, order_at, pop_filled, pop_if_filled, drop_if_empty,
}
use client_exchange_simulati.Engine.Orderbook.Matching.{settle}
use client_exchange_simulati.Engine.Orderbook.Steps.{drop_level_lem}
use client_exchange_simulati.Engine.Orderbook.Priority.{
  Priority, Priority-empty, Lost, front-Priority,
}
use client_exchange_simulati.Engine.Orderbook.Invariant.{Book, Core, on_self, on-other}

abbrev pub Prior : Book → Book → Ladder → Type 0
Prior b b' sd = Priority sd (b.levels sd) b.pool.arena (b'.levels sd) b'.pool.arena

-- No order rests at a better price.
abbrev pub IsBest : Book → Ladder → ℕ → Type 0
IsBest b sd p = (q : ℕ) → better sd q p ≡ true → is_nil (b.levels sd q) ≡ true

pub Prior-IsBest :
    (b b' : Book) (sd : Ladder) (p : ℕ) → Prior b b' sd → IsBest b sd p → IsBest b' sd p
Prior-IsBest b b' sd p v best q h = Priority-empty q v (best q h)

pub pop_if_filled-Lost :
    (b : Book) (sd : Ladder) (p x : ℕ) (xs : List ℕ)
    → b.levels sd p ≡ x ∷ xs
    → Lost (b.levels sd) p xs ((pop_if_filled list_levels b sd p x).levels sd)
unfolding pop_filled deallocate
pop_if_filled-Lost b sd p x xs e = elim (Bool-cases (is_filled (order_at list_levels b x))) [
  | inl done ↦ rw done (inr (on_self sd _ _ ∙ ap (λ l. set_at (b.levels sd) p (rest l)) e))
  | inr not_done ↦ rw not_done (inl refl)
]

pub pop_if_filled-other :
    (b : Book) (sd sd' : Ladder) (p x : ℕ)
    → sd ≢ sd'
    → (pop_if_filled list_levels b sd p x).levels sd' ≡ b.levels sd'
unfolding pop_filled
pop_if_filled-other b sd sd' p x ne = elim (Bool-cases (is_filled (order_at list_levels b x))) [
  | inl done ↦ rw done (on-other sd sd' _ _ ne)
  | inr not_done ↦ rw not_done refl
]

pub arena-pop_if_filled :
    (b : Book) (sd : Ladder) (p x : ℕ)
    → (pop_if_filled list_levels b sd p x).pool.arena ≡ b.pool.arena
unfolding pop_filled deallocate
arena-pop_if_filled b sd p x = elim (Bool-cases (is_filled (order_at list_levels b x))) [
  | inl done ↦ rw done refl
  | inr not_done ↦ rw not_done refl
]

pub drop_if_empty-keeps :
    (b : Book) (sd : Ladder) (p : ℕ)
    → ((drop_if_empty list_levels b sd p).levels ≡ b.levels)
      × ((drop_if_empty list_levels b sd p).pool ≡ b.pool)
drop_if_empty-keeps b sd p = elim (Bool-cases (is_nil (b.levels sd p))) [
  | inl gone ↦ rw (gone, drop_level_lem b sd true) (refl, refl)
  | inr full ↦ rw full (refl, refl)
]

-- What follows the fills of a round takes away the first orders at most.
pub record Fronts (b b' : Book) (pb pa : ℕ) (xs ys : List ℕ) : Type 0 where
  pub bid : Lost (b.levels bids) pb xs (b'.levels bids)
  pub ask : Lost (b.levels asks) pa ys (b'.levels asks)
  pub arena : b'.pool.arena ≡ b.pool.arena

pub settle-Fronts :
    (b : Book) (pb pa x y : ℕ) (xs ys : List ℕ)
    → b.levels bids pb ≡ x ∷ xs
    → b.levels asks pa ≡ y ∷ ys
    → Fronts b (settle list_levels b pb pa x y).1 pb pa xs ys
unfolding settle
settle-Fronts b pb pa x y xs ys ex ey =
    let b1 = pop_if_filled list_levels b bids pb x in
    let b2 = pop_if_filled list_levels b1 asks pa y in
    let b3 = drop_if_empty list_levels b2 bids pb in
    let drop = drop_if_empty-keeps b2 bids pb in
    let drop' = drop_if_empty-keeps b3 asks pa in
    let levels = drop'.0 ∙ drop.0 in
    let bids_kept = pop_if_filled-other b1 asks bids pa y (λ e. cc) in
    let asks_kept = pop_if_filled-other b bids asks pb x (λ e. cc) in
    record {
      bid =
          subst (Lost (b.levels bids) pb xs) (sym (ap (λ l. l bids) levels ∙ bids_kept))
            (pop_if_filled-Lost b bids pb x xs ex);
      ask = subst (Lost (b.levels asks) pa ys) (sym (ap (λ l. l asks) levels)) (
          subst (λ l. Lost l pa ys (b2.levels asks)) asks_kept
            (pop_if_filled-Lost b1 asks pa y ys (ap (λ l. l pa) asks_kept ∙ ey)));
      arena =
          ap (λ p. p.arena) (drop'.1 ∙ drop.1)
          ∙ (arena-pop_if_filled b1 asks pa y ∙ arena-pop_if_filled b bids pb x);
    }

-- The first order of the best level changes, and may leave.
pub front-Prior :
    (b b' : Book) (sd : Ladder) (p x : ℕ) (xs : List ℕ)
    → Core b
    → b.levels sd p ≡ x ∷ xs
    → IsBest b sd p
    → Lost (b.levels sd) p xs (b'.levels sd)
    → ((q y : ℕ) → In y (b.levels sd q) → y ≢ x → b'.pool.arena y ≡ b.pool.arena y)
    → Prior b b' sd
front-Prior b b' sd p x xs c e best lost others =
    let first : In x (b.levels sd p) = rw e (inl refl) in
    front-Priority sd (b.levels sd) b.pool.arena p x xs e best (c.distinct sd p)
      (λ q i. sym (c.resting sd q x i).at_price ∙ (c.resting sd p x first).at_price) (b'.levels sd)
      b'.pool.arena lost others
