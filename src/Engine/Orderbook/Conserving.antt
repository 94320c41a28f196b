-- ===== src/Engine/Orderbook/Conserving.antt =====
-- What the small steps of the book do to the quantity that rests on each side.
use client_exchange_simulati.Prelude.{
  ℕ, ◌+◌, ◌-◌, ◌≤◌, ◌≡◌, refl, sym, ap, ◌∙◌, Bool-cases, inl, inr, arith, In,
}
use client_exchange_simulati.Wire.{OutboundMessage, Quantity}
use client_exchange_simulati.Engine.Order.{is_filled}
use client_exchange_simulati.Engine.OrderPool.{deallocate}
use client_exchange_simulati.Engine.Levels.{Ladder, bids, asks, ladder, list_levels}
use client_exchange_simulati.Engine.Orderbook.State.{
  order_at, set_order, push_message, pop_filled, pop_if_filled,
}
use client_exchange_simulati.Engine.Orderbook.Tally.{
  only, only-zero, tally, tally-erase_key, tally-write,
}
use client_exchange_simulati.Engine.Orderbook.Invariant.{Book, Core}
use client_exchange_simulati.Engine.Orderbook.Steps.{Dropped, filled_by}

-- What the orders of a side still want, in all.
abbrev pub resting_quantity : Book → Ladder → ℕ
resting_quantity b = tally b.pool.arena b.orders

-- On each side the quantity falls by the amount given for it.
abbrev pub Falls : Book → Book → (Ladder → ℕ) → Type 0
Falls b b' n = (sd : Ladder) → resting_quantity b' sd + n sd ≡ resting_quantity b sd

-- The quantity falls by the same amount on both sides: so much was traded.
abbrev pub Trades : Book → Book → ℕ → Type 0
Trades b b' q = Falls b b' (λ _. q)

pub only_both : (sd : Ladder) (q : ℕ) → only bids q sd + only asks q sd ≡ q
only_both bids q = omega arith
only_both asks q = omega arith

pub Dropped-Falls : {b b' : Book} {sd : Ladder} → Dropped b b' sd → Falls b b' (λ _. 0)
Dropped-Falls d sd' = rw (d.same_pool, d.same_orders) (omega arith)

only-minus :
    (sd sd' : Ladder) (n q : ℕ) → q ≤ n → only sd (n - q) sd' + only sd q sd' ≡ only sd n sd'
only-minus bids bids n q h = omega (arith, h)
only-minus bids asks n q h = refl
only-minus asks bids n q h = refl
only-minus asks asks n q h = omega (arith, h)

-- An order that rests on `sd` is filled by `q`.
pub fill-Falls :
    (b : Book) (sd : Ladder) (p x : ℕ) (q : Quantity)
    → Core b
    → In x (b.levels sd p)
    → q ≤ (order_at list_levels b x).remaining_quantity
    → Falls b (set_order list_levels b x (filled_by (order_at list_levels b x) q)) (only sd q)
fill-Falls b sd p x q c i h sd' =
    let o = order_at list_levels b x in
    let here = c.resting sd p x i in
    let moved =
      tally-write b.pool.arena o.id x (filled_by o q) b.orders sd' c.keys here.found
        (λ j f. sym (c.listed j x f).0) in
    let parts = only-minus (ladder o.side) sd' o.remaining_quantity q h in
    let mine : only (ladder o.side) q sd' ≡ only sd q sd' = ap (λ s. only s q sd') here.on_side in
    omega (arith, moved, parts, mine)

-- A filled order that leaves takes nothing with it.
pub pop_if_filled-Falls :
    (b : Book) (sd : Ladder) (p x : ℕ)
    → Core b
    → In x (b.levels sd p)
    → Falls b (pop_if_filled list_levels b sd p x) (λ _. 0)
unfolding pop_filled deallocate
pop_if_filled-Falls b sd p x c i sd' =
    let o = order_at list_levels b x in
    elim (Bool-cases (is_filled o)) [
      | inl done ↦
          let left = tally-erase_key b.pool.arena o.id x b.orders sd' (c.resting sd p x i).found in
          let none_left : o.remaining_quantity ≡ 0 = ground arith in
          let empty : only (ladder o.side) o.remaining_quantity sd' ≡ 0 =
            ap (λ n. only (ladder o.side) n sd') none_left ∙ only-zero (ladder o.side) sd' in
          rw done (omega (arith, left, empty))
      | inr not_done ↦ rw not_done (omega arith)
    ]

pub push_message-Falls :
    (b : Book) (m : OutboundMessage) → Falls b (push_message list_levels b m) (λ _. 0)
unfolding push_message
push_message-Falls b m sd = omega arith
