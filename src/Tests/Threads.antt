-- ===== src/Tests/Threads.antt =====
-- Rounds of the gateway's two threads with one client.
use client_exchange_simulati.Prelude.{ℕ, ◌==◌, inl, inr, Bool-cases, false, List, [], ◌∷◌, arith}
use client_exchange_simulati.Prelude.Result.{Returns}
use client_exchange_simulati.Server.Closing.{start_server}
use client_exchange_simulati.Server.Rounds.{
  Round, receives, responds, engine_takes, engine_gives, rounds, poll_events, poll_interrupted,
  arrives, at_client,
}
use client_exchange_simulati.Server.Rounds.Sound.{Widths, IsSound, IsPlace}
use client_exchange_simulati.Server.Rounds.Health.{rounds-Returns}
use client_exchange_simulati.Tests.Samples.{empty_ring, empty_ring-IsValid, sell}
use client_exchange_simulati.Tests.Servers.{
  no_samples, fill_of_7, routed_7, drip, drip-le, accepted_5, system, sips-le,
}

-- A client connects and sends a byte; the engine answers it; it gets the answer and hangs up.
abbrev visit : List Round
visit =
    receives (poll_events (arrives (accepted_5 ∷ []) ∷ at_client 5 false (λ k. drip) (λ k. 3) ∷ []))
    ∷ engine_takes
    ∷ engine_gives fill_of_7
    ∷ responds system system (poll_events ((5, false) ∷ []))
    ∷ receives poll_interrupted
    ∷ []

abbrev small : Widths
small = record { in_width = 3; error_width = 3; out_width = 3 }

led_places : (cid : ℕ) → IsPlace (routed_7.client_map cid)
led_places cid = elim (Bool-cases (cid == 7)) [
  | inl here ↦ rw here (omega arith)
  | inr other ↦ rw other tt
]

rounds-Returns_example :
    Returns (IsSound small) (rounds visit (start_server routed_7 (empty_ring fill_of_7) no_samples))
rounds-Returns_example =
    rounds-Returns small routed_7 (empty_ring fill_of_7) no_samples visit (empty_ring-IsValid sell)
      (empty_ring-IsValid (record { fd = 0; error = 0 })) (empty_ring-IsValid fill_of_7) led_places
      (
        ((omega arith, tt), ((omega arith, λ k. drip-le), tt)),
        (tt, (tt, (((λ fd. sips-le), (λ fd. sips-le), (omega arith, tt)), (tt, tt)))),
      )
