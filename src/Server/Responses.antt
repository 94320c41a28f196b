-- ===== src/Server/Responses.antt =====
-- `appendResponse` of exchange/server/src/server.cpp: a response staged for a connection becomes a
-- frame in its write buffer. The frame and the strings are those of infra/protocol.hpp, the connection
-- is `OutboundState` of exchange/server/include/connection_info.hpp with its latency entries.
pub mod Frames
use client_exchange_simulati.Server.Latency.{PendingLatency}
use client_exchange_simulati.Prelude.{
  Bool, not, ◌&&◌, ltb, length, ℕ, zero, suc, ◌+◌, ◌*◌, ◌/◌, ◌%◌, Option, none, some, List, [], ◌∷◌,
  ◌++◌, ◌==◌, if◌then◌else◌,
}
use client_exchange_simulati.RingBuffer
use client_exchange_simulati.RingBuffer.{RingBuffer}
use client_exchange_simulati.Buffer
use client_exchange_simulati.Buffer.{Buffer}
use client_exchange_simulati.Wire.{
  OutboundMessage, zero_outbound, ServerError, match, no_error, malformed_request, invalid_order,
  system_error, execution_error,
}

-- `OUTBOUND_BSIZE`
abbrev pub outbound_bsize : ℕ
outbound_bsize = 32

-- The capacity of a `WriteBuffer`, `PIPELINE_DEPTH * OUTBOUND_BSIZE`
abbrev pub write_capacity : ℕ
write_capacity = 32 * 32

-- "EXCHANGE\nOK\n", "EXCHANGE\nMATCH\n" and "EXCHANGE\nERROR\n"
abbrev pub ok_status : List ℕ
ok_status = 69 ∷ 88 ∷ 67 ∷ 72 ∷ 65 ∷ 78 ∷ 71 ∷ 69 ∷ 10 ∷ 79 ∷ 75 ∷ 10 ∷ []

abbrev pub match_status : List ℕ
match_status = 69 ∷ 88 ∷ 67 ∷ 72 ∷ 65 ∷ 78 ∷ 71 ∷ 69 ∷ 10 ∷ 77 ∷ 65 ∷ 84 ∷ 67 ∷ 72 ∷ 10 ∷ []

abbrev pub error_status : List ℕ
error_status = 69 ∷ 88 ∷ 67 ∷ 72 ∷ 65 ∷ 78 ∷ 71 ∷ 69 ∷ 10 ∷ 69 ∷ 82 ∷ 82 ∷ 79 ∷ 82 ∷ 10 ∷ []

-- "malformed req", "invalid order", "system error", "execution error" and "null"
abbrev pub server_error_string : ServerError → List ℕ
server_error_string e =
    if e == malformed_request
    then 109 ∷ 97 ∷ 108 ∷ 102 ∷ 111 ∷ 114 ∷ 109 ∷ 101 ∷ 100 ∷ 32 ∷ 114 ∷ 101 ∷ 113 ∷ []
    else if e == invalid_order
    then 105 ∷ 110 ∷ 118 ∷ 97 ∷ 108 ∷ 105 ∷ 100 ∷ 32 ∷ 111 ∷ 114 ∷ 100 ∷ 101 ∷ 114 ∷ []
    else if e == system_error
    then 115 ∷ 121 ∷ 115 ∷ 116 ∷ 101 ∷ 109 ∷ 32 ∷ 101 ∷ 114 ∷ 114 ∷ 111 ∷ 114 ∷ []
    else if e == execution_error
    then 101 ∷ 120 ∷ 101 ∷ 99 ∷ 117 ∷ 116 ∷ 105 ∷ 111 ∷ 110 ∷ 32 ∷ 101 ∷ 114 ∷ 114 ∷ 111 ∷ 114 ∷ []
    else 110 ∷ 117 ∷ 108 ∷ 108 ∷ []

-- The `n` lowest bytes of a number, the lowest first.
abbrev pub bytes_of : ℕ → ℕ → List ℕ
bytes_of zero x = []
bytes_of (suc n) x = x % 256 ∷ bytes_of n (x / 256)

-- What is written at the front of an array of `n` zeros.
abbrev pub padded : ℕ → List ℕ → List ℕ
padded zero xs = []
padded (suc n) [] = 0 ∷ padded n []
padded (suc n) (x ∷ xs) = x ∷ padded n xs

unfoldable pub response_frame : OutboundMessage → List ℕ
response_frame msg = padded outbound_bsize (
    if msg.message_type == match
    then match_status ++ bytes_of 4 msg.client_id ++ bytes_of 8 msg.order_id
    else if msg.server_error == no_error
    then ok_status ++ bytes_of 4 msg.client_id ++ bytes_of 8 msg.order_id
    else error_status ++ server_error_string msg.server_error ++ 10 ∷ [])

-- `OutboundState`. `latency_batch` holds the first `latency_count_` places of its array.
pub record Outbound : Type 0 where
  pub write_buffer : Buffer
  pub staging : RingBuffer OutboundMessage
  pub latency_batch : List PendingLatency

-- `pop_outbound`: an empty message when nothing is staged
abbrev pub message_or_zero : Option OutboundMessage → OutboundMessage
message_or_zero none = zero_outbound
message_or_zero (some msg) = msg

-- `push_outbound`. Whether the message was staged is not looked at.
unfoldable pub push_outbound : Outbound → OutboundMessage → Outbound
push_outbound o msg = record o { staging = (RingBuffer.push o.staging msg).1 }

abbrev pub has_pending_outbound : Outbound → Bool
has_pending_outbound o = not (RingBuffer.empty o.staging)

-- `PIPELINE_DEPTH`, the size of `latency_batch_`
abbrev pub pipeline_depth : ℕ
pipeline_depth = 32

-- `push_latency`: an entry beyond the array is dropped.
abbrev pub push_entry : List PendingLatency → PendingLatency → List PendingLatency
push_entry es e = if ltb (length es) pipeline_depth then es ++ e ∷ [] else es

abbrev pub push_latency : Outbound → PendingLatency → Outbound
push_latency o e = record o { latency_batch = push_entry o.latency_batch e }

abbrev pub latency_of : OutboundMessage → PendingLatency
latency_of msg = record {
  read_begin_tsc = msg.read_begin_tsc;
  recv_tsc = 0;
  server_push_tsc = 0;
  engine_pop_tsc = 0;
  engine_push_tsc = 0;
  server_pop = 0;
  is_recorded = msg.server_error == no_error && not (msg.message_type == match);
}

unfoldable pub append_response : Outbound → Outbound
append_response o =
    let (out, staging) = RingBuffer.pop o.staging in
    let msg = message_or_zero out in
    let written = (Buffer.append write_capacity o.write_buffer (response_frame msg)).1 in
    push_latency (record o { write_buffer = written; staging = staging }) (latency_of msg)
