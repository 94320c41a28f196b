-- ===== src/Server/Connecting.antt =====
-- `registerConnections`, `readAndProcessBytes` and `readRequest` of exchange/server/src/server.cpp: the
-- inbound thread accepts connections and reads them. What the system answers is an argument.
pub mod Reading
pub mod Draining
use client_exchange_simulati.Prelude.{
  ℕ, zero, suc, ◌+◌, ◌-◌, ◌*◌, Bool, true, false, ◌&&◌, not, Option, none, some, List, [], ◌∷◌, ltb,
  leb, ◌==◌, if◌then◌else◌, is_nil,
}
use client_exchange_simulati.Prelude.Result.{
  Result, ok, err, ◌>>=◌, ◌>>◌, guard, bad_index, out_of_fuel,
}
use client_exchange_simulati.RingBuffer.{RingBuffer, store}
use client_exchange_simulati.Buffer.{Buffer, empty_buffer, read_from, remaining_capacity}
use client_exchange_simulati.Wire.{
  InboundMessage, zero_inbound, OutboundMessage, zero_outbound, Timestamp,
}
use client_exchange_simulati.Server.Gateway.{Connection, process_request, inbound_bsize}
use client_exchange_simulati.Server.Responses.{Outbound, pipeline_depth}
use client_exchange_simulati.Server.State.{Server, slot_count, condemn_inbound}

-- `StagingQueue staging_{RINGBUF_SIZE}`
abbrev pub staging_ring : RingBuffer OutboundMessage
staging_ring = record { write_idx = 0; read_idx = 0; mask = 63; buffer = λ _. zero_outbound }

-- `OutboundState()` and `InboundState(sock)`
abbrev pub new_outbound : Outbound
new_outbound = record { write_buffer = empty_buffer; staging = staging_ring; latency_batch = [] }

abbrev pub new_connection : ℕ → Connection
new_connection fd = record {
  fd = fd;
  read_buffer = empty_buffer;
  inbound = zero_inbound;
  read_begin_tsc = 0;
}

-- The end of a round of `registerConnections`
abbrev pub register_at : Server → ℕ → Server
register_at s fd = record s {
  condemned_inbound = store s.condemned_inbound fd false;
  condemned_outbound = store s.condemned_outbound fd false;
  outbound_map = store s.outbound_map fd (some new_outbound);
  inbound_map = store s.inbound_map fd (some (new_connection fd));
}

-- A descriptor that `accept` answers, whether `fcntl` could make it non-blocking, and whether
-- `epoll_ctl` could add it.
pub record Accepted : Type 0 where
  pub fd : ℕ
  pub non_blocking : Bool
  pub added : Bool

-- `registerConnections`, with the answers of `accept` until it fails
unfoldable pub register_connections : Server → List Accepted → Result Server
register_connections s [] = ok s
register_connections s (a ∷ rest) =
    let skipped = register_connections s rest in
    let registered = register_connections (register_at s a.fd) rest in
    if not a.non_blocking
    then skipped
    else if not a.added
    then ok s
    else (do guard (ltb a.fd slot_count) bad_index; registered)

-- What a call of `recv` answers on so many free bytes, and whether `errno` is EAGAIN or EWOULDBLOCK.
pub record ReadAnswer : Type 0 where
  pub bytes : Option (List ℕ)
  pub again : Bool

abbrev pub Reader : Type 0
Reader = ℕ → ℕ → ReadAnswer

-- How the loop of `readRequest` ends.
pub data ReadEnd : Type 0 where
  filled drained failed : ReadEnd

abbrev pub is_some_bytes : Option (List ℕ) → Bool
is_some_bytes none = false
is_some_bytes (some xs) = not (is_nil xs)

-- `PIPELINE_DEPTH * INBOUND_BSIZE`, the capacity of a `ReadBuffer`
abbrev pub read_capacity : ℕ
read_capacity = 32 * 72

unfoldable pub read_loop : ℕ → Reader → ℕ → Buffer → Result (ReadEnd × Buffer)
read_loop zero net call b = err out_of_fuel
read_loop (suc fuel) net call b =
    let (n, b') = read_from read_capacity (λ k. (net call k).bytes) b in
    let rest = read_loop fuel net (suc call) b' in
    if ltb 0 (remaining_capacity read_capacity b)
    then if is_some_bytes n
      then rest
      else if (net call (remaining_capacity read_capacity b)).again
      then ok (drained, b')
      else ok (failed, b')
    else ok (filled, b)

-- `readRequest` after its loop
abbrev pub after_read : Server → ℕ → Connection → ReadEnd → Result (Bool × Server)
after_read s fd c failed =
    ok (false, condemn_inbound (record s { inbound_map = store s.inbound_map fd (some c) }) fd)
after_read s fd c end = do
  (g, c') ← process_request s.gateway c
  let s' = record s { gateway = g; inbound_map = store s.inbound_map fd (some c') }
  ok (leb (remaining_capacity read_capacity c'.read_buffer) 0, s')

-- `readRequest` at a time. Each answer but the last brings a byte.
unfoldable pub read_request : Reader → Timestamp → Server → ℕ → Connection → Result (Bool × Server)
read_request net now s fd c = do
  (end, b) ← read_loop (suc read_capacity) net 0 c.read_buffer
  after_read s fd (record c { read_buffer = b; read_begin_tsc = now }) end

-- `while (readRequest(*istate));`, with the answers and the time of each round
unfoldable pub read_rounds : ℕ → (ℕ → Reader) → (ℕ → Timestamp) → Server → ℕ → Result Server
read_rounds zero net now s fd = err out_of_fuel
read_rounds (suc fuel) net now s fd = elim (s.inbound_map fd) [
  | none ↦ ok s
  | some c ↦ do
    (again, s') ← read_request (net fuel) (now fuel) s fd c
    elim again [ true ↦ read_rounds fuel net now s' fd | false ↦ ok s' ]
]

-- `readAndProcessBytes`, within so many rounds
unfoldable pub read_and_process_bytes :
    ℕ → (ℕ → Reader) → (ℕ → Timestamp) → Server → ℕ → Result Server
read_and_process_bytes fuel net now s fd =
    if s.condemned_inbound fd
    then ok s
    else if s.condemned_outbound fd
    then ok s
    else read_rounds fuel net now s fd

-- An event of `epoll_in_` on a client's descriptor in `handleRequests`
unfoldable pub handle_event : ℕ → (ℕ → Reader) → (ℕ → Timestamp) → Server → ℕ → Bool → Result Server
unfolding condemn_inbound
handle_event fuel net now s fd hung_up = do
  guard (ltb fd slot_count) bad_index
  if hung_up then ok (condemn_inbound s fd) else read_and_process_bytes fuel net now s fd
