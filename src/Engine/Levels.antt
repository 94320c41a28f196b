-- ===== src/Engine/Levels.antt =====
-- What the order book asks of its price levels: `bids_` and `asks_` as one store of queues, the queue
-- of side `sd` at price `p` standing for `bids_[p - MIN_PRICE]` or `asks_[p - MIN_PRICE]`. Here
-- the lists of slots fill it, which the linked lists of the code (`PriceLevelQueue`) stand for.
use client_exchange_simulati.Prelude.{
  ℕ, Bool, Option, none, some, List, [], ◌∷◌, ◌++◌, ◌==◌, if◌then◌else◌, is_nil, erase,
}
use client_exchange_simulati.Wire.{Side, bid}

-- The two ladders of the book.
pub data Ladder : Type 0 where
  bids asks : Ladder

-- The ladder that an order's side selects, `side == Side::BID ? bids_ : asks_`.
abbrev pub ladder : Side → Ladder
ladder s = if s == bid then bids else asks

-- Assignment to one of the two sides.
abbrev pub on {ℓ} : {A : Type ℓ} → Ladder → A → (Ladder → A) → Ladder → A
on bids a f bids = a
on bids a f asks = f asks
on asks a f bids = f bids
on asks a f asks = a

pub record LevelStore : Type 1 where
  pub Store : Type 0
  -- a slot whose links the pool has reset
  pub fresh : Store → ℕ → Store
  pub empty : Store → Ladder → ℕ → Bool
  pub front : Store → Ladder → ℕ → Option ℕ
  pub push : Store → Ladder → ℕ → ℕ → Store
  pub pop : Store → Ladder → ℕ → Store
  pub remove : Store → Ladder → ℕ → ℕ → Store

-- The lists of slots, first to match first.
abbrev pub Queues : Type 0
Queues = Ladder → ℕ → List ℕ

abbrev pub set_at : (ℕ → List ℕ) → ℕ → List ℕ → ℕ → List ℕ
set_at f p xs q = if q == p then xs else f q

abbrev pub set_level : Queues → Ladder → ℕ → List ℕ → Queues
set_level v sd p xs = on sd (set_at (v sd) p xs) v

abbrev pub first : List ℕ → Option ℕ
first [] = none
first (x ∷ xs) = some x

abbrev pub rest : List ℕ → List ℕ
rest [] = []
rest (x ∷ xs) = xs

abbrev pub list_levels : LevelStore
list_levels = record {
  Store = Queues;
  fresh = λ v x. v;
  empty = λ v sd p. is_nil (v sd p);
  front = λ v sd p. first (v sd p);
  push = λ v sd p x. set_level v sd p (v sd p ++ x ∷ []);
  pop = λ v sd p. set_level v sd p (rest (v sd p));
  remove = λ v sd p x. set_level v sd p (erase x (v sd p));
}
