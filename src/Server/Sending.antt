-- ===== src/Server/Sending.antt =====
-- `beginSends`, `sendResponse` and `finishBatch` of exchange/server/src/server.cpp: the outbound thread
-- turns staged responses into bytes and sends them. What `send` answers is an argument.
pub mod Progress
pub mod Batches
pub mod Turns
use client_exchange_simulati.Prelude.{
  ℕ, zero, suc, ◌+◌, ◌-◌, Bool, true, false, ◌&&◌, ◌||◌, not, Option, none, some, List, [], ◌∷◌,
  ltb, ◌==◌, if◌then◌else◌, erase,
}
use client_exchange_simulati.Prelude.Result.{Result, ok, err, ◌>>=◌, out_of_fuel}
use client_exchange_simulati.RingBuffer.{store}
use client_exchange_simulati.Buffer.{
  Buffer, unsent, write_to, try_reset, remaining_to_send, has_room,
}
use client_exchange_simulati.Wire.{Timestamp}
use client_exchange_simulati.Server.Latency.{PendingLatency, LatencyHandler, sample_of, push_sample}
use client_exchange_simulati.Server.Responses.{
  Outbound, append_response, has_pending_outbound, outbound_bsize, write_capacity,
}
use client_exchange_simulati.Server.State.{Server, condemn_outbound}

-- What a call of `send` answers, and whether `errno` is EAGAIN or EWOULDBLOCK after it.
pub record SendAnswer : Type 0 where
  pub count : Option ℕ
  pub again : Bool

-- The answers of one socket: to the call of this number, with these bytes.
abbrev pub Sender : Type 0
Sender = ℕ → List ℕ → SendAnswer

-- How the loop of `sendResponse` ends.
pub data SendEnd : Type 0 where
  complete blocked broken : SendEnd

abbrev pub is_positive : Option ℕ → Bool
is_positive none = false
is_positive (some n) = ltb 0 n

unfoldable pub send_loop : ℕ → Sender → ℕ → Buffer → Result (SendEnd × Buffer)
send_loop zero net call b = err out_of_fuel
send_loop (suc fuel) net call b =
    let (n, b') = write_to (λ xs. (net call xs).count) b in
    let rest = send_loop fuel net (suc call) b' in
    if ltb 0 (remaining_to_send b)
    then if is_positive n
      then rest
      else if (net call (unsent b)).again
      then ok (blocked, b')
      else ok (broken, b')
    else ok (complete, b)

-- The loop of `finishBatch` over the latency entries
unfoldable pub push_samples : Timestamp → LatencyHandler → List PendingLatency → LatencyHandler
push_samples t7 h [] = h
push_samples t7 h (e ∷ es) =
    push_samples t7 (if e.is_recorded then push_sample h (sample_of e.read_begin_tsc t7) else h) es

-- What `finishBatch` does to the connection
unfoldable pub finish_batch : Outbound → Outbound
finish_batch o = record o { latency_batch = []; write_buffer = try_reset o.write_buffer }

-- What one call of `sendResponse` and the system make of a connection.
pub record Sending : Type 0 where
  pub ok_sent : Bool
  pub armed : Bool
  pub handler : LatencyHandler
  pub outbound : Outbound

-- What the system answers in a round of the outbound thread: on each socket, to arming it, and the
-- clock when the batch of the descriptor is finished.
pub record System : Type 0 where
  pub send : ℕ → Sender
  pub arm : ℕ → Bool
  pub clock : ℕ → Timestamp

-- `sendResponse`, from the flag `epollout_armed_[fd]`
unfoldable pub send_response : System → ℕ → Bool → LatencyHandler → Outbound → Result Sending
unfolding finish_batch
send_response sys fd armed h o = do
  (end, b) ← send_loop (suc (remaining_to_send o.write_buffer)) (sys.send fd) 0 o.write_buffer
  let sent = record o { write_buffer = b }
  elim end [
    | complete ↦ ok (record {
      ok_sent = true;
      armed = armed;
      handler = push_samples (sys.clock fd) h o.latency_batch;
      outbound = finish_batch sent;
    })
    | blocked ↦
        ok (record { ok_sent = true; armed = armed || sys.arm fd; handler = h; outbound = sent })
    | broken ↦ ok (record { ok_sent = false; armed = armed; handler = h; outbound = sent })
  ]

-- The loop of `beginSends` that fills the write buffer
unfoldable pub fill_loop : ℕ → Outbound → Result Outbound
fill_loop zero o = err out_of_fuel
fill_loop (suc fuel) o =
    let rest = fill_loop fuel (append_response o) in
    if has_pending_outbound o && has_room write_capacity o.write_buffer outbound_bsize
    then rest
    else ok o

-- A frame takes one of the 32 places of the buffer.
abbrev pub fill_buffer : Outbound → Result Outbound
fill_buffer o = fill_loop 33 o

-- `writable_fds_.erase(fd)`
abbrev pub leave : Server → ℕ → Server
leave s fd = record s { writable_fds = erase fd s.writable_fds }

-- What `sendResponse` changed, written back.
abbrev pub store_sending : Server → ℕ → Sending → Server
store_sending s fd r = record s {
  outbound_map = store s.outbound_map fd (some r.outbound);
  epollout_armed = store s.epollout_armed fd r.armed;
  latency_handler = r.handler;
}

-- The end of a turn: the descriptor stays while there is something to send.
abbrev pub end_turn : Server → ℕ → Outbound → Server
end_turn s fd o =
    if s.condemned_inbound fd
      || (remaining_to_send o.write_buffer == 0 && not (has_pending_outbound o))
    then leave s fd
    else s

abbrev pub after_send : Server → ℕ → Sending → Server
after_send s fd r =
    let s' = store_sending s fd r in
    if not r.ok_sent then condemn_outbound (leave s' fd) fd else end_turn s' fd r.outbound

abbrev pub send_filled : System → Server → ℕ → Outbound → Result Server
send_filled sys s fd o =
    if ltb 0 (remaining_to_send o.write_buffer)
    then (do
      r ← send_response sys fd (s.epollout_armed fd) s.latency_handler o
      ok (after_send s fd r))
    else ok (end_turn (record s { outbound_map = store s.outbound_map fd (some o) }) fd o)

-- The body of the loop of `beginSends`
unfoldable pub send_turn : System → Server → ℕ → Result Server
send_turn sys s fd = if s.condemned_inbound fd then ok (leave s fd) else elim (s.outbound_map fd) [
  | none ↦ ok (leave s fd)
  | some o ↦ do o' ← fill_buffer o; send_filled sys s fd o'
]

-- A turn changes no other descriptor's membership, so the loop is over the descriptors at its start.
unfoldable pub send_turns : System → List ℕ → Server → Result Server
send_turns sys [] s = ok s
send_turns sys (fd ∷ fds) s = do s' ← send_turn sys s fd; send_turns sys fds s'

-- `beginSends`
unfoldable pub begin_sends : System → Server → Result Server
begin_sends sys s = send_turns sys s.writable_fds s

-- An event of `epoll_out_` in `serveResponses`
unfoldable pub handle_writable : System → Server → ℕ → Bool → Result Server
handle_writable sys s fd hung_up =
    if s.condemned_inbound fd
    then ok s
    else if hung_up
    then ok (condemn_outbound s fd)
    else elim (s.outbound_map fd) [
      | none ↦ ok s
      | some o ↦ do
        r ← send_response sys fd (s.epollout_armed fd) s.latency_handler o
        let s' = store_sending s fd r
        let disarmed = record s' { epollout_armed = store s'.epollout_armed fd false }
        let done = r.armed && remaining_to_send r.outbound.write_buffer == 0
        ok (if not r.ok_sent then condemn_outbound s' fd else if done then disarmed else s')
    ]
