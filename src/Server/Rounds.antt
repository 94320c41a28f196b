-- ===== src/Server/Rounds.antt =====
-- `handleRequests` and `serveResponses` of exchange/server/src/server.cpp, a round of their loops at a time.
-- The engine at the other ends of the rings is an environment that takes and gives messages.
pub mod Sound
pub mod Inbound
pub mod Outbound
pub mod Health
use client_exchange_simulati.Prelude.{ℕ, Bool, true, false, none, some, List, [], ◌∷◌, ltb}
use client_exchange_simulati.Prelude.Result.{Result, ok, ◌>>=◌, ◌>>◌, guard, bad_index}
use client_exchange_simulati.RingBuffer.{push, pop}
use client_exchange_simulati.Wire.{OutboundMessage, Timestamp}
use client_exchange_simulati.Server.State.{
  Server, slot_count, handle_disconnects_inbound, handle_disconnects_outbound,
}
use client_exchange_simulati.Server.Connecting.{
  Accepted, Reader, register_connections, handle_event,
}
use client_exchange_simulati.Server.Routing.{route_outbound_messages}
use client_exchange_simulati.Server.Sending.{System, begin_sends, handle_writable}

-- What `epoll_wait` answers: -1 with EINTR, -1 with another error, or the events.
pub data Polled (E : Type 0) : Type 0 where
  poll_interrupted poll_failed : Polled E
  poll_events : List E → Polled E

-- An event of `epoll_in_`: on the listening socket, with the answers of `accept`; or on a client, hung up
-- or not, with the answers of `recv` and the clock.
pub data InEvent : Type 0 where
  arrives : List Accepted → InEvent
  at_client : ℕ → Bool → (ℕ → Reader) → (ℕ → Timestamp) → InEvent

-- `readRequest` answers `false`, so one round of the loop around it is enough.
unfoldable pub in_event : Server → InEvent → Result Server
in_event s (arrives accepted) = register_connections s accepted
in_event s (at_client fd hung_up net now) = handle_event 1 net now s fd hung_up

unfoldable pub in_events : List InEvent → Server → Result Server
in_events [] s = ok s
in_events (e ∷ es) s = do s' ← in_event s e; in_events es s'

-- A round of the loop of `handleRequests`. The Boolean is false if the thread ends.
unfoldable pub inbound_round : Polled InEvent → Server → Result (Bool × Server)
inbound_round poll_interrupted s = ok (true, handle_disconnects_inbound s)
inbound_round poll_failed s = ok (false, handle_disconnects_inbound s)
inbound_round (poll_events es) s = do
  s' ← in_events es (handle_disconnects_inbound s)
  ok (true, s')

-- An event of `epoll_out_`: the descriptor, and whether it hung up.
abbrev pub OutEvent : Type 0
OutEvent = ℕ × Bool

unfoldable pub out_events : System → List OutEvent → Server → Result Server
out_events sys [] s = ok s
out_events sys ((fd, hung_up) ∷ es) s = do
  guard (ltb fd slot_count) bad_index
  s' ← handle_writable sys s fd hung_up
  out_events sys es s'

-- After `epoll_wait`; with EINTR there is no event to handle.
unfoldable pub after_poll : System → Polled OutEvent → Server → Result (Bool × Server)
after_poll sys poll_interrupted s = ok (true, s)
after_poll sys poll_failed s = ok (false, s)
after_poll sys (poll_events es) s = do s' ← out_events sys es s; ok (true, s')

-- A round of the loop of `serveResponses`, with what the system answers before and after it polls.
unfoldable pub outbound_round : System → System → Polled OutEvent → Server → Result (Bool × Server)
outbound_round sys sys' polled s = do
  s1 ← route_outbound_messages (handle_disconnects_outbound s)
  s2 ← begin_sends sys s1
  after_poll sys' polled s2

-- What happens to the gateway: a round of one of its threads, or the engine at one of the rings.
pub data Round : Type 0 where
  receives : Polled InEvent → Round
  responds : System → System → Polled OutEvent → Round
  engine_takes : Round
  engine_gives : OutboundMessage → Round

unfoldable pub one_round : Server → Round → Result Server
one_round s (receives polled) = do (on, s') ← inbound_round polled s; ok s'
one_round s (responds sys sys' polled) = do (on, s') ← outbound_round sys sys' polled s; ok s'
one_round s engine_takes =
    ok (record s { gateway = record s.gateway { in_ring = (pop s.gateway.in_ring).1 } })
one_round s (engine_gives m) = ok (record s { out_ring = (push s.out_ring m).1 })

unfoldable pub rounds : List Round → Server → Result Server
rounds [] s = ok s
rounds (r ∷ rs) s = do s' ← one_round s r; rounds rs s'
