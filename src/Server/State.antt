-- ===== src/Server/State.antt =====
-- The state of exchange/server/include/server.hpp and the changes of it that several handlers of
-- exchange/server/src/server.cpp make. The maps and flags are arrays over descriptors; MAX_CLIENTS + 10
-- of their places exist. The epoll instances, the sockets and the threads are the system's.
use client_exchange_simulati.Prelude.{
  ℕ, zero, suc, ◌+◌, Bool, true, false, Option, none, some, List, ltb, if◌then◌else◌, erase,
}
use client_exchange_simulati.RingBuffer.{RingBuffer, store}
use client_exchange_simulati.Wire.{OutboundMessage, ClientId}
use client_exchange_simulati.Server.Gateway.{Gateway, Connection}
use client_exchange_simulati.Server.Latency.{LatencyHandler}
use client_exchange_simulati.Server.Responses.{Outbound}

pub record Server : Type 0 where
  -- `client_map_`, `in_ring_` and `error_channel_`
  pub gateway : Gateway
  pub out_ring : RingBuffer OutboundMessage
  pub inbound_map : ℕ → Option Connection
  pub outbound_map : ℕ → Option Outbound
  pub condemned_inbound : ℕ → Bool
  pub condemned_outbound : ℕ → Bool
  pub writable_fds : List ℕ
  pub epollout_armed : ℕ → Bool
  pub latency_handler : LatencyHandler

-- `MAX_CLIENTS + 10`, the size of the arrays
abbrev pub slot_count : ℕ
slot_count = 64 + 10

-- `condemnConnection(fd, true)`
unfoldable pub condemn_inbound : Server → ℕ → Server
condemn_inbound s fd = record s { condemned_inbound = store s.condemned_inbound fd true }

-- `condemnConnection(fd, false)`
unfoldable pub condemn_outbound : Server → ℕ → Server
condemn_outbound s fd = record s {
  writable_fds = erase fd s.writable_fds;
  epollout_armed = store s.epollout_armed fd false;
  outbound_map = store s.outbound_map fd none;
  condemned_outbound = store s.condemned_outbound fd true;
}

-- The body of the loop of `handleDisconnectsOutbound`, which does what `condemnConnection` does.
unfoldable pub sweep_outbound_at : Server → ℕ → Server
sweep_outbound_at s fd =
    if s.condemned_inbound fd
    then elim (s.outbound_map fd) [ none ↦ s | some o ↦ condemn_outbound s fd ]
    else s

-- `map_it->second.store(-1)`. An entry -1 is read like no entry.
abbrev pub unroute : Gateway → ClientId → Gateway
unroute g cid = if ltb 0 cid then record g { client_map = store g.client_map cid none } else g

-- The body of the loop of `handleDisconnectsInbound`, on a connection.
abbrev pub close_inbound : Server → ℕ → Connection → Server
close_inbound s fd c = record s {
  gateway = unroute s.gateway c.inbound.client_id;
  inbound_map = store s.inbound_map fd none;
  condemned_inbound = store s.condemned_inbound fd false;
  condemned_outbound = store s.condemned_outbound fd false;
}

unfoldable pub sweep_inbound_at : Server → ℕ → Server
sweep_inbound_at s fd =
    if s.condemned_outbound fd
    then elim (s.inbound_map fd) [ none ↦ s | some c ↦ close_inbound s fd c ]
    else s

-- `for (int fd = 0; fd < size; ++fd)`, with the number of descriptors left
abbrev pub for_fds : (Server → ℕ → Server) → ℕ → ℕ → Server → Server
for_fds body fd zero s = s
for_fds body fd (suc n) s = for_fds body (suc fd) n (body s fd)

-- `handleDisconnectsOutbound`
unfoldable pub handle_disconnects_outbound : Server → Server
handle_disconnects_outbound s = for_fds sweep_outbound_at 0 slot_count s

-- `handleDisconnectsInbound`
unfoldable pub handle_disconnects_inbound : Server → Server
handle_disconnects_inbound s = for_fds sweep_inbound_at 0 slot_count s
