-- ===== src/Engine/PriceLevelQueue/Refine.antt =====
-- The linked list of a price level is the list of its orders, first to match first.
use client_exchange_simulati.Prelude.{
  ℕ, ◌≡◌, ◌≢◌, refl, sym, ap, ◌∙◌, subst, inl, inr, Option, none, some, Option-cases, List, [], ◌∷◌,
  ◌++◌, arith, length-append, length-erase, is_nil, In, Distinct, Distinct-append_one, erase,
  Distinct-erase,
}
use client_exchange_simulati.Engine.Levels.{first, rest}
use client_exchange_simulati.Engine.PriceLevelQueue.{
  Links, PriceLevelQueue, empty_queue, assign, set_prev, set_next, link_after, or_else, push,
  pop_head, pop_from, pop, front, remove, empty,
}
use client_exchange_simulati.Engine.PriceLevelQueue.Chain.{
  Chain, last, Represents, Agree-all, Agree-Chain, some-inj, assign-same, assign-other, last-append,
  last-In,
}
use client_exchange_simulati.Engine.PriceLevelQueue.Removal.{
  unlinked-Chain, unlinked-first, unlinked-last,
}

-- The new order linked after `t`, the last of the chain.
link_after-Chain :
    (l : Links) (before : Option ℕ) (xs : List ℕ) (t x : ℕ)
    → Distinct xs
    → ((b : ℕ) → before ≡ some b → (b ≢ x) × (¬ In b xs))
    → ¬ In x xs
    → last before xs ≡ some t
    → l.next x ≡ none
    → Chain l before xs
    → Chain (link_after (some t) x l) before (xs ++ x ∷ [])
link_after-Chain l before [] t x d out new e n c = (
  assign-same (set_next l t (some x)).prev x (some t) ∙ sym e,
  assign-other l.next t x (some x) (λ s. (out t e).0 (sym s)) ∙ n,
  tt,
)
link_after-Chain l before (y ∷ []) t x d out new e n c =
    let same : y ≡ t = some-inj e in
    (
      assign-other (set_next l t (some x)).prev x y (some t) (λ s. new (inl (sym s))) ∙ c.0,
      ap (assign l.next t (some x)) same ∙ assign-same l.next t (some x),
      link_after-Chain l (some y) [] t x tt (λ b s. (λ q. new (inl (sym (some-inj s ∙ q))), λ i. i))
          (λ i. i) e n tt,
    )
link_after-Chain l before (y ∷ z ∷ zs) t x d out new e n c =
    let other : y ≢ t = λ s. elim (last-In t z zs e) [
      | inl q ↦ d.0 (inl (s ∙ q))
      | inr i ↦ d.0 (inr (subst (λ u. In u zs) (sym s) i))
    ] in
    (
      assign-other (set_next l t (some x)).prev x y (some t) (λ s. new (inl (sym s))) ∙ c.0,
      assign-other l.next t y (some x) other ∙ c.1,
      link_after-Chain l (some y) (z ∷ zs) t x d.1
          (λ b s. (
            λ q. new (inl (sym (some-inj s ∙ q))),
            λ i. d.0 (subst (λ u. In u (z ∷ zs)) (sym (some-inj s)) i),
          ))
          (λ i. new (inr i)) e n c.2,
    )

pushed-Chain :
    (l : Links) (xs : List ℕ) (x : ℕ)
    → Distinct xs
    → ¬ In x xs
    → l.prev x ≡ none
    → l.next x ≡ none
    → Chain l none xs
    → Chain (link_after (last none xs) x l) none (xs ++ x ∷ [])
pushed-Chain l [] x d new p n c = (p, n, tt)
pushed-Chain l (y ∷ ys) x d new p n c = elim (Option-cases (last (some y) ys)) [
  | inl e ↦ absurd (last-some y ys e)
  | inr (t, e) ↦
      subst (λ o. Chain (link_after o x l) none (y ∷ ys ++ x ∷ [])) (sym e)
        (link_after-Chain l none (y ∷ ys) t x d (λ b s. absurd (ground arith)) new e n c)
]
  where
    last-some : (y : ℕ) (ys : List ℕ) → last (some y) ys ≢ none
    last-some y [] = λ e. ground arith
    last-some y (z ∷ zs) = last-some z zs

or_else-first : (xs : List ℕ) (x : ℕ) → or_else (first xs) (some x) ≡ first (xs ++ x ∷ [])
or_else-first [] x = refl
or_else-first (y ∷ ys) x = refl

empty_queue-Represents : (l : Links) → Represents l empty_queue []
empty_queue-Represents l = record {
  head = refl;
  tail = refl;
  size = refl;
  chain = tt;
  distinct = tt;
}

-- `push` of an order that is not in the list that the queue stands for, and whose links are null, makes
-- it stand for the list with that order at the end.
pub push-Represents :
    (l : Links) (q : PriceLevelQueue) (xs : List ℕ) (x : ℕ)
    → Represents l q xs
    → ¬ In x xs
    → l.prev x ≡ none
    → l.next x ≡ none
    → let (l', q') = push l q x in Represents l' q' (xs ++ x ∷ [])
unfolding push
push-Represents l q xs x r new p n = record {
  head = ap (λ h. or_else h (some x)) r.head ∙ or_else-first xs x;
  tail = sym (last-append none xs x);
  size = omega (arith, r.size, length-append xs (x ∷ []));
  chain = rw r.tail (pushed-Chain l xs x r.distinct new p n r.chain);
  distinct = Distinct-append_one x xs r.distinct new;
}

pop_head-Represents :
    (l : Links) (q : PriceLevelQueue) (x : ℕ) (xs : List ℕ)
    → Represents l q (x ∷ xs)
    → let (l', q') = pop_head l q (first xs) in Represents l' q' xs
pop_head-Represents l q x [] r = record {
  head = refl;
  tail = refl;
  size = omega (arith, r.size);
  chain = tt;
  distinct = tt;
}
pop_head-Represents l q x (y ∷ ys) r = record {
  head = refl;
  tail = r.tail;
  size = omega (arith, r.size);
  chain = (
    assign-same l.prev y none,
    r.chain.2.1,
    Agree-Chain l (set_prev l y none) (some y) ys
        (Agree-all l (set_prev l y none) ys λ w i.
          (assign-other l.prev y w none (λ s. r.distinct.1.0 (subst (λ u. In u ys) s i)), refl))
        r.chain.2.2,
  );
  distinct = r.distinct.1;
}

-- `pop` answers the first order of the list that the queue stands for, or none of an empty list, and
-- makes the queue stand for the rest.
pub pop-Represents :
    (l : Links) (q : PriceLevelQueue) (xs : List ℕ)
    → Represents l q xs
    → let (out, l', q') = pop l q in (out ≡ first xs) × Represents l' q' (rest xs)
unfolding pop
pop-Represents l q xs r =
    subst (λ h. let (out, l', q') = pop_from l q h in (out ≡ first xs) × Represents l' q' (rest xs))
      (sym r.head) (taken l q xs r)
  where
    taken :
        (l : Links) (q : PriceLevelQueue) (xs : List ℕ)
        → Represents l q xs
        → let (out, l', q') = pop_from l q (first xs) in
          (out ≡ first xs) × Represents l' q' (rest xs)
    taken l q [] r = (refl, r)
    taken l q (x ∷ xs) r = (
      refl,
      subst (λ n. let (l', q') = pop_head l q n in Represents l' q' xs) (sym r.chain.1)
          (pop_head-Represents l q x xs r),
    )

-- `remove` of an order of the list that the queue stands for makes it stand for the list without that
-- order, the others in their order.
pub remove-Represents :
    (l : Links) (q : PriceLevelQueue) (xs : List ℕ) (x : ℕ)
    → Represents l q xs
    → In x xs
    → let (l', q') = remove l q x in Represents l' q' (erase x xs)
unfolding remove
remove-Represents l q xs x r i = record {
  head = rw r.head (unlinked-first l x xs r.distinct i r.chain);
  tail = rw r.tail (unlinked-last l x none xs r.distinct i r.chain);
  size = omega (arith, r.size, length-erase x xs i);
  chain = unlinked-Chain l x none xs r.distinct (λ b e. absurd (ground arith)) i r.chain;
  distinct = Distinct-erase x xs r.distinct;
}

-- `empty` and `front` look at the first order.
pub empty-front_lem :
    (l : Links) (q : PriceLevelQueue) (xs : List ℕ)
    → Represents l q xs
    → (empty q ≡ is_nil xs) × (front q ≡ first xs)
unfolding empty
empty-front_lem l q [] r = rw r.head (refl, refl)
empty-front_lem l q (x ∷ xs) r = rw r.head (refl, refl)
