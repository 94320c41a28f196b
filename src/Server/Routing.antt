-- ===== src/Server/Routing.antt =====
-- `routeOutboundMessages` of exchange/server/src/server.cpp: the outbound thread hands the messages of the
-- engine, and the errors of the inbound thread, to the connections of their clients.
pub mod Delivery
pub mod Errors
pub mod Staging
use client_exchange_simulati.Prelude.{
  ℕ, zero, suc, Bool, true, false, Option, none, some, List, [], ◌∷◌, ltb, ◌==◌, if◌then◌else◌,
}
use client_exchange_simulati.Prelude.Result.{Result, ok, err, ◌>>=◌, out_of_fuel}
use client_exchange_simulati.RingBuffer
use client_exchange_simulati.RingBuffer.{RingBuffer, store}
use client_exchange_simulati.Wire.{OutboundMessage, zero_outbound, failure}
use client_exchange_simulati.Server.Gateway.{Gateway, PendingError}
use client_exchange_simulati.Server.Responses.{Outbound, push_outbound}
use client_exchange_simulati.Server.State.{Server}

abbrev pub positive_fd : Option ℕ → Option ℕ
positive_fd none = none
positive_fd (some fd) = if ltb 0 fd then some fd else none

-- The lambda `resolve`; no destination is -1.
abbrev pub resolve : Gateway → OutboundMessage → Option ℕ
resolve g m = positive_fd (g.client_map m.client_id)

abbrev pub contains_fd : ℕ → List ℕ → Bool
contains_fd fd [] = false
contains_fd fd (x ∷ xs) = if x == fd then true else contains_fd fd xs

-- `writable_fds_.insert(fd)`
abbrev pub insert_fd : ℕ → List ℕ → List ℕ
insert_fd fd xs = if contains_fd fd xs then xs else fd ∷ xs

-- `ostate->push_outbound(…); writable_fds_.insert(fd);`
abbrev pub stage_at : Server → ℕ → Outbound → OutboundMessage → Server
stage_at s fd o m = record s {
  outbound_map = store s.outbound_map fd (some (push_outbound o m));
  writable_fds = insert_fd fd s.writable_fds;
}

abbrev pub stage : Server → ℕ → Option Outbound → OutboundMessage → Server
stage s fd none m = s
stage s fd (some o) m = stage_at s fd o m

-- What is done with a message and its destination.
unfoldable pub deliver_to : Server → OutboundMessage → Option ℕ → Server
deliver_to s m none = s
deliver_to s m (some fd) = if s.condemned_inbound fd then s else stage s fd (s.outbound_map fd) m

-- The loop over the outbound ring. The destination of the next message is looked up before the current
-- one is delivered.
unfoldable pub route_loop : ℕ → Server → OutboundMessage → Option ℕ → Result Server
route_loop zero s cur cur_fd = err out_of_fuel
route_loop (suc fuel) s cur cur_fd =
    let (out, ring) = RingBuffer.pop s.out_ring in
    let s' = record s { out_ring = ring } in
    elim out [
      | none ↦ ok (deliver_to s' cur cur_fd)
      | some nxt ↦ route_loop fuel (deliver_to s' cur cur_fd) nxt (resolve s'.gateway nxt)
    ]

unfoldable pub route_messages : Server → Result Server
route_messages s =
    let (out, ring) = RingBuffer.pop s.out_ring in
    let s' = record s { out_ring = ring } in
    elim out [
      | none ↦ ok s'
      | some cur ↦ route_loop (suc s.out_ring.mask) s' cur (resolve s'.gateway cur)
    ]

-- The message of an error of the inbound thread
abbrev pub error_message : PendingError → OutboundMessage
error_message pe = record zero_outbound { status = failure; server_error = pe.error }

unfoldable pub deliver_error : Server → PendingError → Server
unfolding deliver_to
deliver_error s pe = deliver_to s (error_message pe) (some pe.fd)

-- The loop over the error channel
unfoldable pub error_loop : ℕ → Server → Result Server
error_loop zero s = err out_of_fuel
error_loop (suc fuel) s =
    let (out, channel) = RingBuffer.pop s.gateway.error_channel in
    let s' = record s { gateway = record s.gateway { error_channel = channel } } in
    elim out [ none ↦ ok s' | some pe ↦ error_loop fuel (deliver_error s' pe) ]

unfoldable pub route_errors : Server → Result Server
route_errors s = error_loop (suc s.gateway.error_channel.mask) s

-- `routeOutboundMessages`
unfoldable pub route_outbound_messages : Server → Result Server
route_outbound_messages s = do s' ← route_messages s; route_errors s'
