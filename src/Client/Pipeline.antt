-- ===== src/Client/Pipeline.antt =====
-- The pipeline of a connection: at most 32 requests are in flight, and the counters agree.
pub mod Filling
pub mod Answers
use client_exchange_simulati.Prelude.{
  ℕ, zero, suc, ◌+◌, ◌-◌, ◌*◌, ◌%◌, ◌^◌, ◌≤◌, ◌<◌, ◌≡◌, ◌≢◌, refl, sym, ap, ◌∙◌, subst, ◌⊎◌, inl,
  inr, Bool, true, false, Bool-cases, Option, none, some, List, arith, length, ltb, leb, ◌==◌,
  if◌then◌else◌,
}
use client_exchange_simulati.Buffer.{Buffer, clear}
use client_exchange_simulati.Buffer.Reading.{IsReading}
use client_exchange_simulati.Buffer.Writing.{IsWriting}
use client_exchange_simulati.Client.State.{
  is_held, Client, client_depth, max_active_orders, reconnect, Connecting, opened, connect_client,
  new_client, minus_64, next_backoff,
}
use client_exchange_simulati.Client.Sending.{request_capacity}
use client_exchange_simulati.Client.Receiving.{response_capacity}

-- The buffers of a client, and its ring of targets.
pub record HasBuffers (cs : Client) : Type 0 where
  pub stored : cs.active_count ≤ max_active_orders
  pub reading : IsReading response_capacity cs.read_buf
  pub writing : IsWriting request_capacity cs.write_buf
  pub front : cs.write_buf.read_off ≡ 0

-- A client with a connection: the ring of the sent types holds one entry for each request in flight.
pub record IsOpen (cs : Client) : Type 0 where
  pub depth : cs.acks_pending ≤ client_depth
  pub counted : cs.orders_in_flight ≡ cs.acks_pending
  pub ring : cs.pending_tail ≡ (cs.pending_head + cs.acks_pending) % 2 ^ 32
  pub buffers : HasBuffers cs
  pub held : is_held cs.fd ≡ true

-- A client without a connection: nothing is in flight.
pub record IsClosed (cs : Client) : Type 0 where
  pub no_fd : cs.fd ≡ none
  pub none_pending : cs.acks_pending ≡ 0
  pub none_counted : cs.orders_in_flight ≡ 0
  pub buffers : HasBuffers cs

abbrev pub IsPipelined : Client → Type 0
IsPipelined cs = IsOpen cs ⊎ IsClosed cs

-- `reconnect` leaves nothing in flight, whatever the time.
pub reconnect-IsPipelined : (now : ℕ) (cs : Client) → IsOpen cs → IsPipelined (reconnect now cs)
unfolding reconnect
reconnect-IsPipelined now cs v = go cs.fd
  where
    go :
        (fd : Option ℕ)
        → IsPipelined (elim fd [
          | none ↦ cs
          | some x ↦ record cs {
            fd = none;
            orders_in_flight = minus_64 cs.orders_in_flight cs.acks_pending;
            acks_pending = 0;
            reconnect_backoff_ms = next_backoff cs.reconnect_backoff_ms;
            reconnect_at_ns = (now + next_backoff cs.reconnect_backoff_ms * 1_000_000) % 2 ^ 64;
          }
        ])
    go none = inl v
    go (some x) = inr (record {
      no_fd = refl;
      none_pending = refl;
      none_counted = omega (arith, v.counted, v.depth);
      buffers = record {
        stored = v.buffers.stored;
        reading = v.buffers.reading;
        writing = v.buffers.writing;
        front = v.buffers.front;
      };
    })

cleared-HasBuffers : (cs : Client) (fd : ℕ) → HasBuffers (opened cs fd)
cleared-HasBuffers cs fd = record {
  stored = omega arith;
  reading = record { off_in = omega arith; len_in = omega arith };
  writing = record { written_in = omega arith; len_in = omega arith };
  front = refl;
}

-- `connectClient` starts with an empty pipeline.
pub connect_client-IsPipelined :
    (a : Connecting) (cs : Client) → IsClosed cs → IsPipelined (connect_client a cs).1
unfolding connect_client
connect_client-IsPipelined a cs v = go a.socket a.connected
  where
    go :
        (fd : Option ℕ) (connected : Bool)
        → IsPipelined
            (elim fd as (λ x. Bool × Client) [
              | none ↦ (false, cs)
              | some x ↦
                  if connected
                  then (true, opened cs x)
                  else (false, record (opened cs x) { fd = none })
            ]).1
    go none connected = inr v
    go (some x) true = inl (record {
      depth = omega arith;
      counted = v.none_counted;
      ring = omega arith;
      buffers = cleared-HasBuffers cs x;
      held = refl;
    })
    go (some x) false = inr (record {
      no_fd = refl;
      none_pending = refl;
      none_counted = v.none_counted;
      buffers = record {
        stored = omega arith;
        reading = (cleared-HasBuffers cs x).reading;
        writing = (cleared-HasBuffers cs x).writing;
        front = refl;
      };
    })
