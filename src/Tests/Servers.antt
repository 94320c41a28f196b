-- ===== src/Tests/Servers.antt =====
-- The connections of the gateway: routing, reading, sending and closing, at one descriptor.
use client_exchange_simulati.Prelude.{
  inr, Bool-cases, ℕ, zero, suc, refl, ◌≡◌, ◌≤◌, ◌==◌, true, false, none, some, List, [], ◌∷◌,
  arith, length, inl, ◌+◌, if◌then◌else◌, ◌⊎◌,
}
use client_exchange_simulati.Prelude.Result.{Returns}
use client_exchange_simulati.Buffer.Reading.{received}
use client_exchange_simulati.Buffer.Writing.{sent}
use client_exchange_simulati.Wire.{OutboundMessage, zero_outbound, malformed_request}
use client_exchange_simulati.Server.Latency.{LatencyHandler, LatencySample}
use client_exchange_simulati.Server.Responses.{Outbound}
use client_exchange_simulati.Server.Gateway.{Gateway}
use client_exchange_simulati.Server.State.{
  Server, condemn_inbound, handle_disconnects_inbound, handle_disconnects_outbound,
}
use client_exchange_simulati.Server.Sending.{begin_sends, Sender, System, send_response, fill_loop}
use client_exchange_simulati.Server.Sending.Batches.{
  Filled, fill_loop-Returns, Responding, send_response-Returns,
}
use client_exchange_simulati.Server.Sending.Turns.{IsEntry, IsServing, begin_sends-Returns}
use client_exchange_simulati.Server.Routing.{route_outbound_messages}
use client_exchange_simulati.Server.Routing.Staging.{Staged, route_outbound_messages-Returns}
use client_exchange_simulati.Server.Connecting.{
  new_outbound, staging_ring, staging_ring, Reader, Accepted, register_at, register_connections,
  new_connection, read_request,
}
use client_exchange_simulati.Server.Connecting.Draining.{Processed, Condemned, read_request-Returns}
use client_exchange_simulati.Server.Closing.{
  Reachable, start, next, accepts, hangs_up, start_server,
}
use client_exchange_simulati.Server.Closing.Phases.{phase_at}
use client_exchange_simulati.Server.Closing.Reach.{Reachable-phase}
use client_exchange_simulati.Server.Closing.Sweeps.{entries, vacant, two_sweeps-close}
use client_exchange_simulati.Tests.Samples.{empty_ring}
use client_exchange_simulati.Tests.Buffers.{gateway, outbound, outbound-IsOutbound}

abbrev pub no_samples : LatencyHandler
no_samples = record {
  samples = λ _. record { t0 = 0; t1 = 0; t2 = 0; t3 = 0; t4 = 0; t5 = 0; t6 = 0; t7 = 0 };
  count = 0;
}

-- A message of client 7, who is at descriptor 5.
abbrev pub fill_of_7 : OutboundMessage
fill_of_7 = record zero_outbound { client_id = 7 }

abbrev pub routed_7 : Gateway
routed_7 = record gateway { client_map = λ cid. if cid == 7 then some 5 else none }

abbrev pub idle : Server
idle = start_server routed_7 (record (empty_ring fill_of_7) { write_idx = 1 }) no_samples

abbrev pub serving : Server
serving = register_at idle 5

-- The same with an error for descriptor 5.
abbrev erring : Server
erring = record serving {
  gateway = record serving.gateway {
    error_channel = record (empty_ring (record { fd = 5; error = malformed_request })) {
      write_idx = 1;
    };
  };
}

erring-IsEntry : (fd : ℕ) → IsEntry (erring.outbound_map fd)
erring-IsEntry fd = elim (Bool-cases (fd == 5)) [
  | inr other ↦ rw other tt
  | inl here ↦ rw here (record {
    staged = record {
      sized = refl;
      small = omega arith;
      write_in = omega arith;
      read_in = omega arith;
    };
    writing = record { written_in = omega arith; len_in = omega arith };
    entries = refl;
  })
]

route_outbound_messages-Returns_example :
    Returns (Staged 3 3 erring) (route_outbound_messages erring)
route_outbound_messages-Returns_example =
    route_outbound_messages-Returns 3 3 erring
      (record { sized = refl; small = omega arith; write_in = omega arith; read_in = omega arith })
      (record { sized = refl; small = omega arith; write_in = omega arith; read_in = omega arith })
      erring-IsEntry

-- A socket that brings a byte, and has no more then.
abbrev pub drip : Reader
drip zero zero = record { bytes = some []; again = false }
drip zero (suc k) = record { bytes = some (9 ∷ []); again = false }
drip (suc call) k = record { bytes = none; again = true }

pub drip-le : (call k : ℕ) → length (received (drip call k).bytes) ≤ k
drip-le zero zero = omega arith
drip-le zero (suc k) = omega arith
drip-le (suc call) k = omega arith

read_request-Returns_example :
    Returns
      (λ out.
        (out.0 ≡ false)
        × (Processed drip 3 serving 5 (new_connection 5) out.1
            ⊎ Condemned drip serving 5 (new_connection 5) out.1))
      (read_request drip 3 serving 5 (new_connection 5))
read_request-Returns_example =
    read_request-Returns drip 3 serving 5 (new_connection 5)
      (record {
        reading = record { off_in = omega arith; len_in = omega arith };
        whole = refl;
        started = inl refl;
      })
      drip-le

abbrev pub accepted_5 : Accepted
accepted_5 = record { fd = 5; non_blocking = true; added = true }

serving-Reachable : Reachable serving
unfolding register_connections
serving-Reachable =
    next idle serving (start routed_7 (record (empty_ring fill_of_7) { write_idx = 1 }) no_samples)
      (accepts accepted_5 serving refl refl)

Reachable-phase_example : phase_at serving 5 ≡ true
Reachable-phase_example = Reachable-phase serving serving-Reachable 5

two_sweeps-close_example :
    entries (handle_disconnects_inbound (handle_disconnects_outbound (condemn_inbound serving 5))) 5
    ≡ vacant
unfolding condemn_inbound
two_sweeps-close_example =
    two_sweeps-close (condemn_inbound serving 5) 5 (new_connection 5)
      (next serving (condemn_inbound serving 5) serving-Reachable (hangs_up 5)) (omega arith) refl
      refl

-- A socket that takes a byte at a time.
abbrev pub sips : Sender
sips call [] = record { count = some 0; again = false }
sips call (x ∷ xs) = record { count = some 1; again = false }

pub sips-le : (call : ℕ) (xs : List ℕ) → sent (sips call xs).count ≤ length xs
sips-le call [] = omega arith
sips-le call (x ∷ xs) = omega arith

fill_loop-Returns_example : Returns (Filled 3 outbound) (fill_loop 33 outbound)
fill_loop-Returns_example = fill_loop-Returns 3 33 outbound outbound-IsOutbound (omega arith)

abbrev pub system : System
system = record { send = λ fd. sips; arm = λ fd. true; clock = λ fd. 9 + fd }

send_response-Returns_example :
    Returns (Responding 3 sips outbound) (send_response system 5 false no_samples outbound)
send_response-Returns_example =
    send_response-Returns 3 system 5 false no_samples outbound outbound-IsOutbound sips-le

abbrev pub sample : LatencySample
sample = record { t0 = 1; t1 = 0; t2 = 0; t3 = 0; t4 = 0; t5 = 0; t6 = 0; t7 = 4 }

abbrev pub staged_one : Outbound
staged_one = record new_outbound { staging = record staging_ring { write_idx = 1 } }

-- A server with a response staged at descriptor 5.
abbrev pub sending : Server
sending = record idle {
  outbound_map = λ fd. if fd == 5 then some staged_one else none;
  writable_fds = 5 ∷ [];
}

sending-IsEntry : (fd : ℕ) → IsEntry (sending.outbound_map fd)
sending-IsEntry fd = elim (Bool-cases (fd == 5)) [
  | inr other ↦ rw other tt
  | inl here ↦ rw here (record {
    staged = record {
      sized = refl;
      small = omega arith;
      write_in = omega arith;
      read_in = omega arith;
    };
    writing = record { written_in = omega arith; len_in = omega arith };
    entries = refl;
  })
]

begin_sends-Returns_example : Returns (IsServing sending) (begin_sends system sending)
begin_sends-Returns_example = begin_sends-Returns system sending sending-IsEntry (λ fd. sips-le)
