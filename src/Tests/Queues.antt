-- ===== src/Tests/Queues.antt =====
-- The queue of a price level, at three orders.
use client_exchange_simulati.Prelude.{
  refl, inl, inr, ◌≡◌, [], ◌∷◌, some, none, arith, erase, ◌==◌, if◌then◌else◌,
}
use client_exchange_simulati.Engine.PriceLevelQueue.{Links, PriceLevelQueue, push, pop, remove}
use client_exchange_simulati.Engine.PriceLevelQueue.Chain.{Represents}
use client_exchange_simulati.Engine.PriceLevelQueue.Refine.{
  push-Represents, pop-Represents, remove-Represents,
}

-- The orders in the slots 4, 2 and 9, in this order.
abbrev pub links : Links
links = record {
  prev = λ x. if x == 2 then some 4 else if x == 9 then some 2 else none;
  next = λ x. if x == 4 then some 2 else if x == 2 then some 9 else none;
}

abbrev pub three : PriceLevelQueue
three = record { head = some 4; tail = some 9; size = 3 }

three-Represents : Represents links three (4 ∷ 2 ∷ 9 ∷ [])
three-Represents = record {
  head = refl;
  tail = refl;
  size = refl;
  chain = ((refl, refl, (refl, refl, (refl, refl, tt))));
  distinct = ground arith;
}

push-Represents_example : let (l, q) = push links three 5 in Represents l q (4 ∷ 2 ∷ 9 ∷ 5 ∷ [])
push-Represents_example =
    push-Represents links three (4 ∷ 2 ∷ 9 ∷ []) 5 three-Represents (ground arith) refl refl

pop-Represents_example :
    let (out, l, q) = pop links three in (out ≡ some 4) × Represents l q (2 ∷ 9 ∷ [])
pop-Represents_example = pop-Represents links three (4 ∷ 2 ∷ 9 ∷ []) three-Represents

remove-Represents_example :
    let (l, q) = remove links three 2 in Represents l q (erase 2 (4 ∷ 2 ∷ 9 ∷ []))
remove-Represents_example =
    remove-Represents links three (4 ∷ 2 ∷ 9 ∷ []) 2 three-Represents (inr (inl refl))
