-- ===== src/Engine/PriceLevelQueue/Removal.antt =====
-- Taking an order out of a chain.
use client_exchange_simulati.Prelude.{
  ℕ, ◌≡◌, ◌≢◌, refl, sym, ap, ◌∙◌, subst, inl, inr, Option, none, some, Option-cases, List, [], ◌∷◌,
  arith, In, Distinct, erase, erase-same, erase-later,
}
use client_exchange_simulati.Engine.Levels.{first}
use client_exchange_simulati.Engine.PriceLevelQueue.{Links, relink_next, relink_prev, move_end}
use client_exchange_simulati.Engine.PriceLevelQueue.Chain.{
  Chain, last, Agree-all, Agree-Chain, some-inj, next-In, prev-In,
}

-- The links after `remove`.
abbrev pub unlinked : Links → ℕ → Links
unlinked l x = relink_prev (l.next x) (l.prev x) (relink_next (l.prev x) (l.next x) l)

-- The links of an order change only next to the removed one.
pub unlinked-prev : (l : Links) (x y : ℕ) → l.next x ≢ some y → (unlinked l x).prev y ≡ l.prev y
unlinked-prev l x y ne = ground arith

pub unlinked-next : (l : Links) (x y : ℕ) → l.prev x ≢ some y → (unlinked l x).next y ≡ l.next y
unlinked-next l x y ne = ground arith

unlinked-prev_next : (l : Links) (x y : ℕ) → l.next x ≡ some y → (unlinked l x).prev y ≡ l.prev x
unlinked-prev_next l x y e = ground arith

unlinked-next_prev : (l : Links) (x y : ℕ) → l.prev x ≡ some y → (unlinked l x).next y ≡ l.next x
unlinked-next_prev l x y e = ground arith

later-ne : (x y : ℕ) (ys : List ℕ) → Distinct (y ∷ ys) → In x ys → y ≢ x
later-ne x y ys d i e = d.0 (subst (λ z. In z ys) (sym e) i)

-- An order that is not the first has one before it.
prev-some :
    (l : Links) (b : ℕ) (xs : List ℕ) (x : ℕ) → Chain l (some b) xs → In x xs → l.prev x ≢ none
prev-some l b [] x c i = absurd i
prev-some l b (y ∷ ys) x c (inl s) = λ e. ground (arith, sym c.0 ∙ ap l.prev (sym s) ∙ e)
prev-some l b (y ∷ ys) x c (inr i) = prev-some l y ys x c.2 i

module _ (l : Links) (x : ℕ) where
  unlinked-Chain-first :
      (before : Option ℕ) (ys : List ℕ)
      → l.prev x ≡ before
      → l.next x ≡ first ys
      → Distinct ys
      → ((b : ℕ) → before ≡ some b → ¬ In b ys)
      → Chain l (some x) ys
      → Chain (unlinked l x) before ys
  unlinked-Chain-first before [] p n d out c = tt
  unlinked-Chain-first before (z ∷ zs) p n d out c = (
    unlinked-prev_next l x z n ∙ p,
    unlinked-next l x z (λ e. out z (sym p ∙ e) (inl refl)) ∙ c.1,
    Agree-Chain l (unlinked l x) (some z) zs
        (Agree-all l (unlinked l x) zs λ w i. (
          unlinked-prev l x w (λ e. d.0 (subst (λ u. In u zs) (sym (some-inj (sym n ∙ e))) i)),
          unlinked-next l x w (λ e. out w (sym p ∙ e) (inr i)),
        ))
        c.2,
  )

  -- The link out of the order before the rest of the chain.
  next-unlinked :
      (y : ℕ) (ys : List ℕ)
      → Distinct (y ∷ ys)
      → l.next y ≡ first ys
      → Chain l (some y) ys
      → In x ys
      → (unlinked l x).next y ≡ first (erase x ys)
  next-unlinked y [] d n c i = absurd i
  next-unlinked y (z ∷ zs) d n c (inl s) =
      unlinked-next_prev l x y (ap l.prev s ∙ c.0)
      ∙ ap l.next s
      ∙ c.1
      ∙ ap first (sym (erase-same x z zs s))
  next-unlinked y (z ∷ zs) d n c (inr i) =
      unlinked-next l x y (λ e. elim (prev-In l (some z) zs x y c.2 i e) [
        | inl s ↦ d.0 (inl (sym (some-inj s)))
        | inr j ↦ d.0 (inr j)
      ])
      ∙ n
      ∙ ap first (sym (erase-later x z zs (later-ne x z zs d.1 i)))

  pub unlinked-Chain :
      (before : Option ℕ) (xs : List ℕ)
      → Distinct xs
      → ((b : ℕ) → before ≡ some b → ¬ In b xs)
      → In x xs
      → Chain l before xs
      → Chain (unlinked l x) before (erase x xs)
  unlinked-Chain before [] d out i c = absurd i
  unlinked-Chain before (y ∷ ys) d out (inl s) c =
      subst (Chain (unlinked l x) before) (sym (erase-same x y ys s)) (
        unlinked-Chain-first before ys (ap l.prev s ∙ c.0) (ap l.next s ∙ c.1) d.1
          (λ b e j. out b e (inr j)) (subst (λ z. Chain l (some z) ys) (sym s) c.2))
  unlinked-Chain before (y ∷ ys) d out (inr i) c =
      subst (Chain (unlinked l x) before) (sym (erase-later x y ys (later-ne x y ys d i))) (
        unlinked-prev l x y (λ e. d.0 (next-In l (some y) ys x y c.2 i e)) ∙ c.0,
        next-unlinked y ys d c.1 c.2 i,
        unlinked-Chain (some y) ys d.1 (λ b e j. d.0 (subst (λ z. In z ys) (sym (some-inj e)) j)) i
            c.2,
      )

  pub unlinked-first :
      (xs : List ℕ)
      → Distinct xs
      → In x xs
      → Chain l none xs
      → move_end (l.prev x) (l.next x) (first xs) ≡ first (erase x xs)
  unlinked-first [] d i c = absurd i
  unlinked-first (y ∷ ys) d (inl s) c =
      rw (ap l.prev s ∙ c.0, ap l.next s ∙ c.1, erase-same x y ys s) refl
  unlinked-first (y ∷ ys) d (inr i) c = elim (Option-cases (l.prev x)) [
    | inl e ↦ absurd (prev-some l y ys x c.2 i e)
    | inr (p, e) ↦ rw (e, erase-later x y ys (later-ne x y ys d i)) refl
  ]

  last-unlinked_first :
      (before : Option ℕ) (ys : List ℕ)
      → l.prev x ≡ before
      → l.next x ≡ first ys
      → move_end (l.next x) (l.prev x) (last (some x) ys) ≡ last before ys
  last-unlinked_first before [] p n = rw (n, p) refl
  last-unlinked_first before (z ∷ zs) p n = rw n refl

  pub unlinked-last :
      (before : Option ℕ) (xs : List ℕ)
      → Distinct xs
      → In x xs
      → Chain l before xs
      → move_end (l.next x) (l.prev x) (last before xs) ≡ last before (erase x xs)
  unlinked-last before [] d i c = absurd i
  unlinked-last before (y ∷ ys) d (inl s) c =
      ap (λ z. move_end (l.next x) (l.prev x) (last (some z) ys)) (sym s)
      ∙ last-unlinked_first before ys (ap l.prev s ∙ c.0) (ap l.next s ∙ c.1)
      ∙ ap (last before) (sym (erase-same x y ys s))
  unlinked-last before (y ∷ ys) d (inr i) c =
      unlinked-last (some y) ys d.1 i c.2
      ∙ ap (last before) (sym (erase-later x y ys (later-ne x y ys d i)))
