-- ===== src/Tests/Drivers.antt =====
-- The engine, at a book with one resting ask.
use client_exchange_simulati.Prelude.{refl, ◌≡◌, ◌↔◌, [], ◌∷◌, some, arith}
use client_exchange_simulati.Prelude.Result.{ok, err, bad_index, ◌>>=◌, Returns}
use client_exchange_simulati.RingBuffer.{RingBuffer}
use client_exchange_simulati.RingBuffer.Inv.{IsValid}
use client_exchange_simulati.RingBuffer.Refine.{contents}
use client_exchange_simulati.Wire.{InboundMessage}
use client_exchange_simulati.Server.Validation.{validate_message, validate_new, validate_cancel}
use client_exchange_simulati.Engine.Levels.{list_levels, Queues}
use client_exchange_simulati.Engine.Orderbook.Good.{IsGood}
use client_exchange_simulati.Engine.Driver.{Engine, execute_request, step, matching_round}
use client_exchange_simulati.Engine.Driver.Execute.{IsExecutable, Executed, execute_request-Returns}
use client_exchange_simulati.Engine.Driver.Overpriced.{IsOffLadder, execute_request-faults}
use client_exchange_simulati.Engine.Driver.Pipeline.{
  execute_all, left_over, step_refines, pending_after, execute_first, matching_round_refines,
  execute_all-Returns,
}
use client_exchange_simulati.Tests.Samples.{empty_ring, sell, buy, sweep, withdraw}
use client_exchange_simulati.Tests.Books.{empty_book, book, book-IsGood, empty_book-IsGood}

abbrev pub engine : Engine Queues
engine = record { book = book; next_id = 1 }

abbrev pub fresh_engine : Engine Queues
fresh_engine = record { book = empty_book; next_id = 0 }

-- Two messages in a ring of eight places.
abbrev pub inbound : RingBuffer InboundMessage
inbound = record (empty_ring buy) { write_idx = 1; read_idx = 7 }

inbound-IsValid : IsValid 3 inbound
inbound-IsValid = record {
  sized = refl;
  small = omega arith;
  write_in = omega arith;
  read_in = omega arith;
}

sell-IsExecutable : IsExecutable sell
unfolding validate_message validate_new
sell-IsExecutable = record { validated = refl; below_max = λ _ _. omega arith }

buy-IsExecutable : IsExecutable buy
unfolding validate_message validate_new
buy-IsExecutable = record { validated = refl; below_max = λ _ _. omega arith }

sweep-IsExecutable : IsExecutable sweep
unfolding validate_message validate_new
sweep-IsExecutable = record { validated = refl; below_max = λ _ _. omega arith }

withdraw-IsExecutable : IsExecutable withdraw
unfolding validate_message validate_cancel
withdraw-IsExecutable = record { validated = refl; below_max = λ _ _. omega arith }

execute_request-Returns_example :
    Returns (Executed engine buy) (execute_request list_levels engine buy)
execute_request-Returns_example = execute_request-Returns engine buy book-IsGood buy-IsExecutable

execute_all-Returns_example :
    Returns
      (λ e. IsGood e.book)
      (execute_all list_levels fresh_engine (sell ∷ buy ∷ sweep ∷ withdraw ∷ []))
execute_all-Returns_example =
    execute_all-Returns fresh_engine (sell ∷ buy ∷ sweep ∷ withdraw ∷ []) empty_book-IsGood
      (sell-IsExecutable, (buy-IsExecutable, (sweep-IsExecutable, (withdraw-IsExecutable, tt))))

step_refines_example :
    (step list_levels inbound engine >>= left_over list_levels)
    ≡ (execute_all list_levels engine (contents inbound) >>= λ e. ok ([], e))
step_refines_example = step_refines list_levels inbound engine inbound-IsValid

matching_round_refines_example :
    (matching_round list_levels (some withdraw) inbound engine >>= pending_after list_levels)
    ≡ execute_first list_levels (withdraw ∷ contents inbound) engine
matching_round_refines_example =
    matching_round_refines list_levels (some withdraw) inbound engine inbound-IsValid

-- The buy at a price above the last tick, which validation lets through.
abbrev pub overpriced : InboundMessage
overpriced = record buy { price = 100_001 }

execute_request-faults_example :
    (execute_request list_levels engine overpriced ≡ err bad_index) ↔ IsOffLadder engine overpriced
unfolding validate_message validate_new
execute_request-faults_example = execute_request-faults engine overpriced book-IsGood refl refl refl
