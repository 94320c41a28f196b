-- ===== src/Server/Gateway.antt =====
-- `processRequest` of exchange/server/src/server.cpp: the inbound thread cuts the bytes of a connection
-- into frames, and turns each into a message for the engine or an error for the client. The frame is
-- that of infra/protocol.hpp; the connection is `InboundState` of
-- exchange/server/include/connection_info.hpp.
pub mod Framing
pub mod Pushes
use client_exchange_simulati.Prelude.{
  ℕ, zero, suc, ◌+◌, ◌*◌, Bool, true, false, ◌&&◌, not, Option, some, List, [], ◌∷◌, leb, ◌==◌,
  if◌then◌else◌,
}
use client_exchange_simulati.Prelude.Result.{Result, ok, err, out_of_fuel}
use client_exchange_simulati.RingBuffer
use client_exchange_simulati.RingBuffer.{RingBuffer}
use client_exchange_simulati.Buffer.{Buffer, view, unread_length, advance}
use client_exchange_simulati.Buffer.Bytes.{drop}
use client_exchange_simulati.Wire.{
  InboundMessage, ServerError, Timestamp, malformed_request, invalid_order,
}
use client_exchange_simulati.Server.Validation.{validate_message}

-- `INBOUND_BSIZE`
abbrev pub inbound_bsize : ℕ
inbound_bsize = 72

-- "EXCHANGE\n"
abbrev pub header : List ℕ
header = 69 ∷ 88 ∷ 67 ∷ 72 ∷ 65 ∷ 78 ∷ 71 ∷ 69 ∷ 10 ∷ []

-- `memcmp(bytes, expected, length of expected) == 0`
abbrev pub starts_with : List ℕ → List ℕ → Bool
starts_with bytes [] = true
starts_with [] (e ∷ expected) = false
starts_with (d ∷ bytes) (e ∷ expected) = d == e && starts_with bytes expected

-- The number in the first bytes, the lowest byte first.
abbrev pub little_endian : ℕ → List ℕ → ℕ
little_endian zero xs = 0
little_endian (suc n) [] = 0
little_endian (suc n) (x ∷ xs) = x + 256 * little_endian n xs

-- `memcpy(&msg, bytes, sizeof(InboundMessage))`, by the offsets of the members
unfoldable pub decode : List ℕ → InboundMessage
decode bytes = record {
  read_begin_tsc = little_endian 8 bytes;
  recv_tsc = little_endian 8 (drop 8 bytes);
  server_push = little_endian 8 (drop 16 bytes);
  order_id = little_endian 8 (drop 24 bytes);
  client_id = little_endian 4 (drop 32 bytes);
  price = little_endian 4 (drop 36 bytes);
  quantity = little_endian 4 (drop 40 bytes);
  message_type = little_endian 1 (drop 44 bytes);
  side = little_endian 1 (drop 45 bytes);
  order_type = little_endian 1 (drop 46 bytes);
}

pub record PendingError : Type 0 where
  pub fd : ℕ
  pub error : ServerError

-- What the inbound thread writes for the other threads.
pub record Gateway : Type 0 where
  pub in_ring : RingBuffer InboundMessage
  pub error_channel : RingBuffer PendingError
  pub client_map : ℕ → Option ℕ

-- `InboundState`
pub record Connection : Type 0 where
  pub fd : ℕ
  pub read_buffer : Buffer
  pub inbound : InboundMessage
  pub read_begin_tsc : Timestamp

-- `error_channel_.push({fd, error})`
abbrev pub report : Gateway → ℕ → ServerError → Gateway
report g fd e = record g {
  error_channel = (RingBuffer.push g.error_channel (record { fd = fd; error = e })).1;
}

-- `client_map_` leads the client to the connection, and the message goes to the engine.
abbrev pub admit : Gateway → ℕ → InboundMessage → Gateway
admit g fd msg = record g {
  client_map = λ cid. if cid == msg.client_id then some fd else g.client_map cid;
  in_ring = (RingBuffer.push g.in_ring msg).1;
}

-- A round of the loop of `processRequest`, on a buffer that holds a whole frame.
unfoldable pub frame_round : Gateway → Connection → Gateway × Connection
frame_round g c =
    let bytes = view c.read_buffer in
    let c' = record c { read_buffer = advance c.read_buffer inbound_bsize } in
    if not (starts_with bytes header)
    then (report g c.fd malformed_request, c')
    else let msg = record (decode (drop 9 bytes)) { read_begin_tsc = c.read_begin_tsc } in
      if not (validate_message msg)
      then (report g c.fd invalid_order, c')
      else (admit g c.fd msg, record c' { inbound = msg })

unfoldable pub process_loop : ℕ → Gateway → Connection → Result (Gateway × Connection)
process_loop zero g c = err out_of_fuel
process_loop (suc fuel) g c =
    let (g', c') = frame_round g c in
    let rest = process_loop fuel g' c' in
    if leb inbound_bsize (unread_length c.read_buffer) then rest else ok (g, c)

-- Each round consumes bytes.
unfoldable pub process_request : Gateway → Connection → Result (Gateway × Connection)
process_request g c = process_loop (suc (unread_length c.read_buffer)) g c
