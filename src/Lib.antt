-- ===== src/Lib.antt =====
-- The exchange of this repository: a matching engine with one order book (exchange/engine), fed and
-- drained through two single-producer single-consumer rings (exchange/include/ring_buffer.hpp) by a
-- gateway (exchange/server), the messages that they share (infra), and the load generator that sends
-- them requests (client).
--
--   Prelude          shared names, Boolean tests, lists, and results that may be a fault
--   RingBuffer       exchange/include/ring_buffer.hpp: `init`, `push`, `pop`, `size`, `empty`; its
--                    child Threads is `push` and `pop` one memory access at a time
--   Wire             infra/order_types.hpp and infra/communication_types.hpp
--   Buffer           infra/buffer.hpp, with `recv` and `send` as parameters
--   Server           exchange/server, with the frames of infra/protocol.hpp:
--     Validation       include/validation.hpp
--     Latency          include/latency.hpp
--     State            the members of include/server.hpp, `condemnConnection` and the two
--                      `handleDisconnects` of src/server.cpp
--     Connecting       `registerConnections`, `readAndProcessBytes`, `readRequest`
--     Gateway          `processRequest`
--     Routing          `routeOutboundMessages`
--     Responses        `appendResponse`, and `OutboundState` of include/connection_info.hpp
--     Sending          `beginSends`, `sendResponse`, `finishBatch`
--     Closing          the steps of the two threads on a descriptor
--     Rounds           the rounds of the loops of `handleRequests` and `serveResponses`
--   Client           client: Factory is include/order_factory.hpp, State is include/client_state.hpp
--                    with `connectClient`, `reconnect` and `stats` of src/load_generator.cpp, Sending is
--                    its `buildBatch`, `flushWrite` and `handleConnect`, Receiving `handleReadable`,
--                    Running the rounds of `run` and how long it sleeps; Pipeline holds the proofs
--   Engine           exchange/engine:
--     Config           exchange/config/config.hpp
--     Order            include/order.hpp and include/order_request.hpp
--     OrderPool        include/order_pool.hpp
--     PriceLevelQueue  include/price_level_queue.hpp, with its links in a store of their own
--     Levels           what the book asks of its price levels, as an interface
--     Orderbook        include/orderbook.hpp and src/orderbook.cpp; State, Matching and Requests are
--                      the code, the other children its proofs
--     Driver           include/engine.hpp and src/engine.cpp: `executeRequest`, `step`, and one round
--                      of `handleMatching`
--   Exchange         the gateway and the engine together
--   Tests            sample books, rings, queues, buffers and messages
--
-- State is passed along. A pointer to an order is the slot of the order in the arena of the pool. The
-- code writes its two sides, bids and asks, as two copies of the same lines; here there is one
-- definition over a `Ladder`. The book is defined over any store of price levels; the proofs about it
-- take the store of lists of slots; PriceLevelQueue.Refine is about the linked lists of the code and
-- such lists. That the whole book over linked lists refines the book over lists is not
-- proved. An exception, an index out of bounds and a null pointer are values of `Fault`. Counters and
-- ids wrap as their types do; prices and quantities are bounded by what the code compares them with.
--
-- The loops of `matchOrders` and `matchMarket` have as many rounds as there are orders in the map, and
-- one more, which is enough since a round that does not end the loop fills an order. `step` has N
-- rounds for a ring of N places. The scans for the best price have the ticks left to the end of the
-- ladder. `processRequest` has as many rounds as there are bytes to be read, and one more; each takes
-- a frame. The loop of `readRequest` has a round for each place of the buffer, those of `sendResponse`
-- and `flushWrite` one for each byte to be sent, and one more, since each round but the last moves a
-- byte. The write buffer has room for 32 frames, so 33 rounds fill it; the routing has as many rounds as
-- the ring has places. The pipeline of a client takes 32 requests, so 33 rounds of `buildBatch` fill it.
--
-- `accept`, `recv`, `send`, `epoll_ctl`, `connect`, the clock and the generator of random numbers are
-- arguments: functions that give their answers. The two threads of the gateway share its state; in
-- Closing their steps, and in Rounds their rounds, come in any order, each as a whole. The arrays of the
-- server, of MAX_CLIENTS + 10 places, are total functions of the descriptor: `bad_index` stands for an
-- access beyond them where a descriptor comes from `accept` or `epoll_wait`, and the places where the code
-- indexes them with a descriptor that it kept, in routing and sending, have no such check.
--
-- Not modelled: the creation of sockets and epoll instances, the starting and stopping of the threads,
-- the floating-point mid-price of the client, the histogram of the latencies, the main
-- programs, software prefetch, thread placement, and what LOGGING, DIAGNOSTICS and TESTING add to a
-- build, but for `Engine::step`, which only TESTING compiles and which is modelled. Outside
-- RingBuffer.Threads each call of a ring is one step. There memory is one state that both threads see: the memory orderings of the atomics are not part of the model.
pub mod Prelude
pub mod RingBuffer
pub mod Buffer
pub mod Wire
pub mod Server
pub mod Exchange
pub mod Client
pub mod Engine
pub mod Tests
