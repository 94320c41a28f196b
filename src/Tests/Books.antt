-- ===== src/Tests/Books.antt =====
-- The theorems on the order book, at a book with one resting ask.
use client_exchange_simulati.Prelude.{refl, inl, [], ◌∷◌, arith, ◌≡◌, some}
use client_exchange_simulati.Prelude.Result.{Returns}
use client_exchange_simulati.Wire.{zero_outbound}
use client_exchange_simulati.Engine.OrderPool
use client_exchange_simulati.Engine.Levels.{list_levels}
use client_exchange_simulati.Engine.Orderbook.Orders.{find}
use client_exchange_simulati.Engine.Orderbook.Matching.{match_orders, match_market}
use client_exchange_simulati.Engine.Orderbook.Requests.{add_limit, cancel_order, process, init_with}
use client_exchange_simulati.Engine.Orderbook.Invariant.{Book, IsBook}
use client_exchange_simulati.Engine.Orderbook.Crossing.{
  Crossed, match_orders-Returns, Traded, match_orders-Traded,
}
use client_exchange_simulati.Engine.Orderbook.Market.{
  Marketed, opposite, match_market-Returns, Takes, match_market-Takes,
}
use client_exchange_simulati.Engine.Orderbook.Cancelling.{Cancelled, cancel_order-Returns}
use client_exchange_simulati.Engine.Orderbook.Adding.{
  Added, entered, entered-IsBook, add_limit-Returns, Balanced, add_limit-Balanced,
}
use client_exchange_simulati.Engine.Orderbook.Good.{IsGood}
use client_exchange_simulati.Engine.Orderbook.Processing.{Processed, process-Returns}
use client_exchange_simulati.Engine.Orderbook.Starting.{no_orders, init_with-IsGood}
use client_exchange_simulati.Engine.Driver.{request_of}
use client_exchange_simulati.Tests.Samples.{empty_ring, arena, sell_request, buy_request, sweep}

-- A book with four slots.
abbrev pub empty_book : Book
empty_book = init_with list_levels no_orders arena 4 (empty_ring zero_outbound)

init_with-IsGood_example : IsGood empty_book
init_with-IsGood_example = init_with-IsGood arena 4 (empty_ring zero_outbound)

-- The same fact, for the other examples.
pub empty_book-IsGood : IsGood empty_book
empty_book-IsGood = init_with-IsGood arena 4 (empty_ring zero_outbound)

-- The book with the sell order at 105 in slot 0.
abbrev pub book : Book
book = entered empty_book sell_request 0 (1 ∷ 2 ∷ 3 ∷ [])

pub book-IsGood : IsGood book
unfolding init_with find OrderPool.init OrderPool.push_slots
book-IsGood = record {
  book =
      entered-IsBook empty_book sell_request 0 (1 ∷ 2 ∷ 3 ∷ []) empty_book-IsGood.book refl refl
        refl;
  uncrossed = λ p q bid ask. ground arith;
}

match_orders-Returns_example : Returns (Crossed book) (match_orders list_levels book)
match_orders-Returns_example = match_orders-Returns book book-IsGood.book

match_market-Returns_example :
    Returns
      (Marketed book (opposite (request_of 1 sweep)))
      (match_market list_levels book (request_of 1 sweep))
match_market-Returns_example =
    match_market-Returns book (request_of 1 sweep) book-IsGood.book (inl refl)

-- A buy that reaches the resting sell.
abbrev crossed : Book
crossed = entered book buy_request 1 (2 ∷ 3 ∷ [])

crossed-IsBook : IsBook crossed
unfolding init_with find OrderPool.init OrderPool.push_slots
crossed-IsBook = entered-IsBook book buy_request 1 (2 ∷ 3 ∷ []) book-IsGood.book refl refl refl

match_orders-Traded_example : Returns (Traded crossed) (match_orders list_levels crossed)
match_orders-Traded_example = match_orders-Traded crossed crossed-IsBook

match_market-Takes_example :
    Returns
      (Takes book (opposite (request_of 1 sweep)) (request_of 1 sweep).quantity)
      (match_market list_levels book (request_of 1 sweep))
match_market-Takes_example =
    match_market-Takes book (request_of 1 sweep) book-IsGood.book (inl refl)

add_limit-Balanced_example :
    Returns (Balanced book buy_request) (add_limit list_levels book buy_request)
add_limit-Balanced_example = add_limit-Balanced book buy_request book-IsGood.book refl

book-known : find 0 book.orders ≡ some 0
unfolding find
book-known = refl

cancel_order-Returns_example :
    Returns (Cancelled book 0 0 book-IsGood.book book-known) (cancel_order list_levels book 0)
cancel_order-Returns_example = cancel_order-Returns book 0 0 book-IsGood.book book-known

add_limit-Returns_example :
    Returns (Added book buy_request) (add_limit list_levels book buy_request)
add_limit-Returns_example =
    add_limit-Returns book buy_request book-IsGood.book book-IsGood.uncrossed refl

process-Returns_example :
    Returns (Processed book buy_request) (process list_levels book buy_request)
process-Returns_example =
    process-Returns book buy_request book-IsGood
      (λ _. record { side_known = inl refl; on_tick = λ _. refl })
