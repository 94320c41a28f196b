-- ===== src/Engine/Driver/Pipeline.antt =====
-- The loops of the engine against the plain sequence of the messages.
use client_exchange_simulati.Prelude.{
  ℕ, zero, suc, ◌<◌, ◌≡◌, refl, sym, ap, ◌∙◌, Option, none, some, List, [], ◌∷◌, arith, length,
}
use client_exchange_simulati.Prelude.Result.{Result, ok, err, ◌>>=◌, Returns, Returns-bind}
use client_exchange_simulati.RingBuffer.{RingBuffer, pop}
use client_exchange_simulati.RingBuffer.Inv.{IsValid, pop-IsValid}
use client_exchange_simulati.RingBuffer.Refine.{contents, pop-nil, pop-cons, size_lem}
use client_exchange_simulati.Wire.{InboundMessage}
use client_exchange_simulati.Engine.Levels.{LevelStore, list_levels, Queues}
use client_exchange_simulati.Engine.Orderbook.Good.{IsGood}
use client_exchange_simulati.Engine.Driver.{
  Engine, execute_request, step_loop, step, execute_ahead, matching_round,
}
use client_exchange_simulati.Engine.Driver.Execute.{IsExecutable, execute_request-Returns}

bind-cong {ℓ κ} :
    {A : Type ℓ} {B : Type κ} (m : Result A) (f g : A → Result B)
    → ((a : A) → f a ≡ g a)
    → (m >>= f) ≡ (m >>= g)
bind-cong (ok a) f g h = h a
bind-cong (err x) f g h = refl

bind_assoc {ℓ κ μ} :
    {A : Type ℓ} {B : Type κ} {C : Type μ} (m : Result A) (f : A → Result B) (g : B → Result C)
    → ((m >>= f) >>= g) ≡ (m >>= λ a. f a >>= g)
bind_assoc (ok a) f g = refl
bind_assoc (err x) f g = refl

module _ (L : LevelStore) where
  -- The specification: the messages of a list, in order.
  unfoldable pub execute_all : Engine L.Store → List InboundMessage → Result (Engine L.Store)
  execute_all e [] = ok e
  execute_all e (m ∷ ms) = do e' ← execute_request L e m; execute_all e' ms

  -- What an observer sees of a step: the messages still to be executed, and the engine.
  abbrev pub left_over :
      RingBuffer InboundMessage × Engine L.Store → Result (List InboundMessage × Engine L.Store)
  left_over (r, e) = ok (contents r, e)

  step_loop_refines :
      (fuel : ℕ) (q : List InboundMessage) {width : ℕ} (r : RingBuffer InboundMessage)
      (e : Engine L.Store)
      → IsValid width r
      → contents r ≡ q
      → length q < fuel
      → (step_loop L fuel r e >>= left_over) ≡ (execute_all e q >>= λ e'. ok ([], e'))
  unfolding step_loop execute_all
  step_loop_refines zero q r e v c n = absurd (omega arith)
  step_loop_refines (suc fuel) [] r e v c n =
      rw (◌>>=◌, (pop-nil v c).0) (ap (λ l. ok (l, e)) (pop-nil v c).1)
  step_loop_refines (suc fuel) (m ∷ ms) r e v c n =
      rw (◌>>=◌, (pop-cons v c).0)
        (bind_assoc (execute_request L e m) _ _
          ∙ bind-cong (execute_request L e m) _ _ (λ e'.
            step_loop_refines fuel ms (pop r).1 e' (pop-IsValid v) (pop-cons v c).1 (omega arith))
          ∙ sym (bind_assoc (execute_request L e m) _ _))

  -- For any store of levels, `step` on a valid ring executes the messages that the ring holds, oldest
  -- first, until the ring is empty or one of them faults. It never runs out of fuel.
  pub step_refines :
      {width : ℕ} (r : RingBuffer InboundMessage) (e : Engine L.Store)
      → IsValid width r
      → (step L r e >>= left_over) ≡ (execute_all e (contents r) >>= λ e'. ok ([], e'))
  unfolding step
  step_refines r e v =
      step_loop_refines (suc r.mask) (contents r) r e v refl (omega (arith, size_lem v))

  -- The messages that the matching thread has still to execute: the one it took ahead, then those on
  -- the ring.
  abbrev pub pending : Option InboundMessage → RingBuffer InboundMessage → List InboundMessage
  pending none r = contents r
  pending (some cur) r = cur ∷ contents r

  abbrev pub pending_after :
      Option InboundMessage × RingBuffer InboundMessage × Engine L.Store
      → Result (List InboundMessage × Engine L.Store)
  pending_after (have, r, e) = ok (pending have r, e)

  -- The specification of a round: the first message, if there is one.
  abbrev pub execute_first :
      List InboundMessage → Engine L.Store → Result (List InboundMessage × Engine L.Store)
  execute_first [] e = ok ([], e)
  execute_first (m ∷ ms) e = execute_request L e m >>= λ e'. ok (ms, e')

  pending-pop :
      {width : ℕ} (r : RingBuffer InboundMessage) (q : List InboundMessage)
      → IsValid width r
      → contents r ≡ q
      → pending (pop r).0 (pop r).1 ≡ q
  pending-pop r [] v c = rw ((pop-nil v c).0, (pop-nil v c).1) refl
  pending-pop r (m ∷ ms) v c = rw ((pop-cons v c).0, (pop-cons v c).1) refl

  execute_ahead_lem :
      {width : ℕ} (cur : InboundMessage) (r : RingBuffer InboundMessage) (e : Engine L.Store)
      → IsValid width r
      → (execute_ahead L cur r e >>= pending_after) ≡ execute_first (cur ∷ contents r) e
  unfolding execute_ahead
  execute_ahead_lem cur r e v =
      bind_assoc (execute_request L e cur) _ _
      ∙ bind-cong (execute_request L e cur) _ _
          (λ e'. ap (λ q. ok (q, e')) (pending-pop r (contents r) v refl))

  round_from_ring :
      {width : ℕ} (r : RingBuffer InboundMessage) (e : Engine L.Store) (q : List InboundMessage)
      → IsValid width r
      → contents r ≡ q
      → (matching_round L none r e >>= pending_after) ≡ execute_first q e
  unfolding matching_round
  round_from_ring r e [] v c = rw (◌>>=◌, (pop-nil v c).0) (ap (λ l. ok (l, e)) (pop-nil v c).1)
  round_from_ring r e (m ∷ ms) v c =
      rw (◌>>=◌, (pop-cons v c).0)
        (execute_ahead_lem m (pop r).1 e (pop-IsValid v)
          ∙ ap (λ q. execute_first (m ∷ q) e) (pop-cons v c).1)

  -- A round of the matching thread executes the oldest message that it has taken ahead or that the
  -- ring holds, and leaves the others in their order; with none it changes nothing. The messages taken
  -- ahead are neither lost nor reordered. The ring is valid; the levels are any store.
  pub matching_round_refines :
      {width : ℕ} (have : Option InboundMessage) (r : RingBuffer InboundMessage)
      (e : Engine L.Store)
      → IsValid width r
      → (matching_round L have r e >>= pending_after) ≡ execute_first (pending have r) e
  unfolding matching_round
  matching_round_refines none r e v = round_from_ring r e (contents r) v refl
  matching_round_refines (some cur) r e v = execute_ahead_lem cur r e v

-- Every message of a list can be executed.
abbrev pub AllExecutable : List InboundMessage → Type 0
AllExecutable [] = Unit {0}
AllExecutable (m ∷ ms) = IsExecutable m × AllExecutable ms

-- From an engine with a well-formed and uncrossed book, any sequence of validated messages with
-- prices on the ladder runs to its end with no fault, and leaves such a book.
pub execute_all-Returns :
    (e : Engine Queues) (ms : List InboundMessage)
    → IsGood e.book
    → AllExecutable ms
    → Returns (λ e'. IsGood e'.book) (execute_all list_levels e ms)
unfolding execute_all
execute_all-Returns e [] g a = g
execute_all-Returns e (m ∷ ms) g a =
    Returns-bind _ _ (execute_request list_levels e m) _ (execute_request-Returns e m g a.0)
      λ e' x. execute_all-Returns e' ms x.good a.1
