-- ===== src/Client/State.antt =====
-- `ClientState` of client/include/client_state.hpp, and the changes of it that several handlers of
-- client/src/load_generator.cpp make. Unsigned counters wrap around; `orders_in_flight` is in two's
-- complement. A descriptor -1 is none.
use client_exchange_simulati.Prelude.{
  ℕ, ◌+◌, ◌-◌, ◌*◌, ◌%◌, ◌^◌, Bool, true, false, Option, none, some, List, [], ◌∷◌, ltb,
  if◌then◌else◌,
}
use client_exchange_simulati.Buffer.{Buffer, empty_buffer, clear}
use client_exchange_simulati.Wire.{MessageType, OrderId, ClientId}

pub record Client : Type 0 where
  pub client_id : ClientId
  pub fd : Option ℕ
  pub connecting : Bool
  pub write_buf : Buffer
  pub read_buf : Buffer
  pub acks_pending : ℕ
  pub next_send_ns : ℕ
  pub reconnect_at_ns : ℕ
  pub reconnect_backoff_ms : ℕ
  pub pending_types : ℕ → MessageType
  pub pending_head : ℕ
  pub pending_tail : ℕ
  pub active_orders : ℕ → OrderId
  pub active_write : ℕ
  pub active_count : ℕ
  pub active_read : ℕ
  pub requests_sent : ℕ
  pub responses_ack : ℕ
  pub responses_match : ℕ
  pub responses_err : ℕ
  pub orders_in_flight : ℕ

-- `fd != -1`
abbrev pub is_held : Option ℕ → Bool
is_held none = false
is_held (some fd) = true

-- `ClientState{}` with its number
abbrev pub new_client : ClientId → Client
new_client cid = record {
  client_id = cid;
  fd = none;
  connecting = false;
  write_buf = empty_buffer;
  read_buf = empty_buffer;
  acks_pending = 0;
  next_send_ns = 0;
  reconnect_at_ns = 0;
  reconnect_backoff_ms = 0;
  pending_types = λ _. 0;
  pending_head = 0;
  pending_tail = 0;
  active_orders = λ _. 0;
  active_write = 0;
  active_count = 0;
  active_read = 0;
  requests_sent = 0;
  responses_ack = 0;
  responses_match = 0;
  responses_err = 0;
  orders_in_flight = 0;
}

-- `PIPELINE_DEPTH` and `MAX_ACTIVE_ORDERS`
abbrev pub client_depth : ℕ
client_depth = 32

abbrev pub max_active_orders : ℕ
max_active_orders = 32

-- `++` on 32 and on 64 bits, and `-` on 64 bits
abbrev pub next_32 : ℕ → ℕ
next_32 x = (x + 1) % 2 ^ 32

abbrev pub next_64 : ℕ → ℕ
next_64 x = (x + 1) % 2 ^ 64

abbrev pub minus_64 : ℕ → ℕ → ℕ
minus_64 x y = (x + (2 ^ 64 - y)) % 2 ^ 64

-- `RECONNECT_DELAY_MS`
abbrev pub reconnect_delay_ms : ℕ
reconnect_delay_ms = 1000

abbrev pub next_backoff : ℕ → ℕ
next_backoff ms = if ltb ms reconnect_delay_ms then ms + 50 else ms

-- `reconnect`, at a time
unfoldable pub reconnect : ℕ → Client → Client
reconnect now cs = elim cs.fd [
  | none ↦ cs
  | some fd ↦ record cs {
    fd = none;
    orders_in_flight = minus_64 cs.orders_in_flight cs.acks_pending;
    acks_pending = 0;
    reconnect_backoff_ms = next_backoff cs.reconnect_backoff_ms;
    reconnect_at_ns = (now + next_backoff cs.reconnect_backoff_ms * 1_000_000) % 2 ^ 64;
  }
]

-- The descriptor that `socket` answers, and whether `connect` succeeds or goes on.
pub record Connecting : Type 0 where
  pub socket : Option ℕ
  pub connected : Bool

abbrev pub opened : Client → ℕ → Client
opened cs fd = record cs {
  fd = some fd;
  connecting = true;
  write_buf = clear cs.write_buf;
  read_buf = clear cs.read_buf;
  acks_pending = 0;
  pending_head = 0;
  pending_tail = 0;
  active_write = 0;
  active_count = 0;
  active_read = 0;
}

-- `connectClient`
unfoldable pub connect_client : Connecting → Client → Bool × Client
connect_client a cs = elim a.socket [
  | none ↦ (false, cs)
  | some fd ↦
      if a.connected then (true, opened cs fd) else (false, record (opened cs fd) { fd = none })
]

-- `Stats` and `stats`
pub record Stats : Type 0 where
  pub requests_sent : ℕ
  pub responses_ack : ℕ
  pub responses_match : ℕ
  pub responses_err : ℕ
  pub orders_in_flight : ℕ

abbrev pub no_stats : Stats
no_stats = record {
  requests_sent = 0;
  responses_ack = 0;
  responses_match = 0;
  responses_err = 0;
  orders_in_flight = 0;
}

abbrev pub plus_64 : ℕ → ℕ → ℕ
plus_64 x y = (x + y) % 2 ^ 64

abbrev pub add_stats : Stats → Client → Stats
add_stats s cs = record {
  requests_sent = plus_64 s.requests_sent cs.requests_sent;
  responses_ack = plus_64 s.responses_ack cs.responses_ack;
  responses_match = plus_64 s.responses_match cs.responses_match;
  responses_err = plus_64 s.responses_err cs.responses_err;
  orders_in_flight = plus_64 s.orders_in_flight cs.orders_in_flight;
}

unfoldable pub stats_from : Stats → List Client → Stats
stats_from s [] = s
stats_from s (cs ∷ rest) = stats_from (add_stats s cs) rest
