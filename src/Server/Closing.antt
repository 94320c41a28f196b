-- ===== src/Server/Closing.antt =====
-- How the threads of exchange/server/src/server.cpp open and close a connection between them. A step is
-- what one thread does to one descriptor; the steps of the two threads come in any order.
pub mod Phases
pub mod Reach
pub mod Sweeps
use client_exchange_simulati.Prelude.{ℕ, ◌≡◌, Bool, true, false, Option, none, some, List, [], ◌∷◌}
use client_exchange_simulati.Prelude.Result.{Result, ok}
use client_exchange_simulati.RingBuffer
use client_exchange_simulati.RingBuffer.{RingBuffer}
use client_exchange_simulati.Wire.{OutboundMessage, Timestamp}
use client_exchange_simulati.Server.Gateway.{Connection, PendingError, Gateway}
use client_exchange_simulati.Server.Latency.{LatencyHandler}
use client_exchange_simulati.Server.Responses.{Outbound}
use client_exchange_simulati.Server.State.{
  Server, condemn_inbound, sweep_outbound_at, sweep_inbound_at,
}
use client_exchange_simulati.Server.Connecting.{
  Accepted, register_connections, Reader, read_request,
}
use client_exchange_simulati.Server.Routing.{deliver_to}
use client_exchange_simulati.Server.Sending.{System, send_turn, handle_writable}

-- The system answers `accept` with a descriptor that is not open, and reports events only of open ones.
pub data Step (s : Server) : Server → Type 0 where
  accepts :
      (a : Accepted) (s' : Server)
      → s.inbound_map a.fd ≡ none
      → register_connections s (a ∷ []) ≡ ok s'
      → Step s s'
  hangs_up : (fd : ℕ) → Step s (condemn_inbound s fd)
  reads :
      (net : Reader) (now : Timestamp) (fd : ℕ) (c : Connection) (again : Bool) (s' : Server)
      → s.inbound_map fd ≡ some c
      → read_request net now s fd c ≡ ok (again, s')
      → Step s s'
  closes : (fd : ℕ) → Step s (sweep_inbound_at s fd)
  releases : (fd : ℕ) → Step s (sweep_outbound_at s fd)
  polls : (ring : RingBuffer OutboundMessage) → Step s (record s { out_ring = ring })
  delivers : (m : OutboundMessage) (to : Option ℕ) → Step s (deliver_to s m to)
  sends : (sys : System) (fd : ℕ) (s' : Server) → send_turn sys s fd ≡ ok s' → Step s s'
  drains :
      (sys : System) (fd : ℕ) (o : Outbound) (hung_up : Bool) (s' : Server)
      → s.outbound_map fd ≡ some o
      → handle_writable sys s fd hung_up ≡ ok s'
      → Step s s'

-- The server before the first connection
abbrev pub start_server : Gateway → RingBuffer OutboundMessage → LatencyHandler → Server
start_server g ring h = record {
  gateway = g;
  out_ring = ring;
  inbound_map = λ fd. none;
  outbound_map = λ fd. none;
  condemned_inbound = λ fd. false;
  condemned_outbound = λ fd. false;
  writable_fds = [];
  epollout_armed = λ fd. false;
  latency_handler = h;
}

-- The states that the steps lead to.
pub data Reachable : Server → Type 0 where
  start :
      (g : Gateway) (ring : RingBuffer OutboundMessage) (h : LatencyHandler)
      → Reachable (start_server g ring h)
  next : (s s' : Server) → Reachable s → Step s s' → Reachable s'
