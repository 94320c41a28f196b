-- ===== src/Server/Connecting/Draining.antt =====
-- What one call of `readRequest` does with the bytes that the system brings.
use client_exchange_simulati.Prelude.{
  ℕ, zero, suc, ◌-◌, ◌/◌, ◌≤◌, ◌<◌, ◌≡◌, ◌≢◌, refl, sym, ap, ◌∙◌, subst, ◌⊎◌, inl, inr, Bool, true,
  false, Bool-cases, some, List, ◌++◌, arith, length, leb,
}
use client_exchange_simulati.Prelude.Result.{
  Result, ok, err, ◌>>=◌, Returns, Returns-bind, Returns-weaken,
}
use client_exchange_simulati.RingBuffer.{store, store-same}
use client_exchange_simulati.Buffer.{Buffer, view, remaining_capacity}
use client_exchange_simulati.Buffer.Reading.{advance-shorter}
use client_exchange_simulati.Buffer.Bytes.{length-slice}
use client_exchange_simulati.Wire.{Timestamp}
use client_exchange_simulati.Server.Gateway.{
  Gateway, Connection, inbound_bsize, frame_round, process_loop, process_request,
}
use client_exchange_simulati.Server.Gateway.Framing.{
  verdicts, drop_frames, deliver_all, process_request_lem, frame_round-read_buffer, fd-frame_round,
}
use client_exchange_simulati.Server.State.{Server, condemn_inbound}
use client_exchange_simulati.Server.Connecting.{
  Reader, ReadEnd, filled, drained, failed, read_capacity, read_loop, after_read, read_request,
}
use client_exchange_simulati.Server.Connecting.Reading.{
  AllFit, IsSettled, advance-IsSettled, Brings, HasRead, read_loop-Returns,
}

pub Returns-both {ℓ} :
    {A : Type ℓ} (P Q : A → Type 0) (m : Result A)
    → Returns P m
    → Returns Q m
    → Returns (λ a. P a × Q a) m
Returns-both P Q (ok a) p q = (p, q)
Returns-both P Q (err e) p q = p

pub process_loop-IsSettled :
    (fuel : ℕ) (g : Gateway) (c : Connection)
    → IsSettled c.read_buffer
    → c.read_buffer.len - c.read_buffer.read_off < fuel
    → Returns (λ out. IsSettled out.1.read_buffer × (out.1.fd ≡ c.fd)) (process_loop fuel g c)
unfolding process_loop
process_loop-IsSettled zero g c v h = absurd (omega arith)
process_loop-IsSettled (suc fuel) g c v h =
    let b = c.read_buffer in
    elim (Bool-cases (leb inbound_bsize (b.len - b.read_off))) [
      | inr short ↦ rw short (v, refl)
      | inl whole ↦
          let next = frame_round-read_buffer g c in
          let enough : 72 ≤ b.len - b.read_off = ground arith in
          rw whole (
            Returns-weaken _ _ (process_loop fuel (frame_round g c).0 (frame_round g c).1)
              (process_loop-IsSettled fuel (frame_round g c).0 (frame_round g c).1
                (subst IsSettled (sym next) (advance-IsSettled b v enough))
                (subst (λ b'. b'.len - b'.read_off < fuel) (sym next)
                  (omega (arith, advance-shorter b 72 (omega arith) enough))))
              λ out r. (r.0, r.1 ∙ fd-frame_round g c))
    ]

-- A settled buffer that holds less than a frame has room.
settled_room :
    (b : Buffer)
    → IsSettled b
    → length (view b) < inbound_bsize
    → 0 < remaining_capacity read_capacity b
settled_room b v h =
    let count = length-slice b.bytes b.read_off (b.len - b.read_off) in
    elim v.started [
      | inl none_read ↦ omega (arith, count)
      | inr behind ↦ omega (arith, count, v.whole, v.reading.len_in)
    ]

-- The connection after a read that did not fail: `got` is what `recv` brought, every whole frame was
-- judged and its message or error pushed, and less than a frame waits for the rest of its bytes.
pub record Processed (net : Reader) (now : Timestamp) (s : Server) (fd : ℕ) (c : Connection)
    (s' : Server) : Type 0 where
  pub got : List ℕ
  pub end : ReadEnd
  pub brings : Brings net 0 (remaining_capacity read_capacity c.read_buffer) got end
  pub sound : end ≢ failed
  pub connection : Connection
  pub stored : s'.inbound_map fd ≡ some connection
  pub delivered :
      s'.gateway
      ≡ deliver_all c.fd s.gateway (
          verdicts
            (length (view c.read_buffer ++ got) / inbound_bsize)
            now
            (view c.read_buffer ++ got))
  pub left :
      view connection.read_buffer
      ≡ drop_frames (length (view c.read_buffer ++ got) / inbound_bsize) (view c.read_buffer ++ got)
  pub partial : length (view connection.read_buffer) < inbound_bsize
  pub settled : IsSettled connection.read_buffer
  pub condemned : s'.condemned_inbound ≡ s.condemned_inbound

-- The connection after a read that failed: condemned, with nothing pushed.
pub record Condemned (net : Reader) (s : Server) (fd : ℕ) (c : Connection) (s' : Server)
    : Type 0 where
  pub got : List ℕ
  pub brings : Brings net 0 (remaining_capacity read_capacity c.read_buffer) got failed
  pub flag : s'.condemned_inbound fd ≡ true
  pub gateway : s'.gateway ≡ s.gateway

-- What `readRequest` answers, and what it leaves.
abbrev pub Requested : Reader → Timestamp → Server → ℕ → Connection → Bool × Server → Type 0
Requested net now s fd c out =
    (out.0 ≡ false) × (Processed net now s fd c out.1 ⊎ Condemned net s fd c out.1)

full_lem : {n : ℕ} → 0 < n → leb n 0 ≡ false
full_lem h = ground arith

processed_lem :
    (net : Reader) (now : Timestamp) (s : Server) (fd : ℕ) (c : Connection) (end : ReadEnd)
    (b : Buffer)
    → HasRead net 0 c.read_buffer (end, b)
    → end ≢ failed
    → Returns (Requested net now s fd c) (do
      (g, c') ← process_request s.gateway (record c { read_buffer = b; read_begin_tsc = now })
      ok (
        leb (remaining_capacity read_capacity c'.read_buffer) 0,
        record s { gateway = g; inbound_map = store s.inbound_map fd (some c') },
      ))
unfolding process_request
processed_lem net now s fd c end b r fine =
    let c1 = record c { read_buffer = b; read_begin_tsc = now } in
    Returns-bind _ _ (process_request s.gateway c1) _
      (Returns-both _ _ (process_request s.gateway c1)
        (process_request_lem read_capacity s.gateway c1 r.settled.reading)
        (process_loop-IsSettled (suc (b.len - b.read_off)) s.gateway c1 r.settled (omega arith)))
      λ out h. (
        full_lem (settled_room out.1.read_buffer h.1.0 h.0.partial),
        inl (record {
          got = r.got;
          end = end;
          brings = r.brings;
          sound = fine;
          connection = out.1;
          stored = store-same s.inbound_map fd (some out.1);
          delivered =
              h.0.delivered
              ∙ ap
                  (λ bytes.
                    deliver_all c.fd s.gateway (verdicts (length bytes / inbound_bsize) now bytes))
                  r.appended;
          left =
              h.0.left ∙ ap (λ bytes. drop_frames (length bytes / inbound_bsize) bytes) r.appended;
          partial = h.0.partial;
          settled = h.1.0;
          condemned = refl;
        }),
      )

filled-ne : filled ≢ failed
filled-ne e = ground arith

drained-ne : drained ≢ failed
drained-ne e = ground arith

after_read_lem :
    (net : Reader) (now : Timestamp) (s : Server) (fd : ℕ) (c : Connection) (end : ReadEnd)
    (b : Buffer)
    → HasRead net 0 c.read_buffer (end, b)
    → Returns
        (Requested net now s fd c)
        (after_read s fd (record c { read_buffer = b; read_begin_tsc = now }) end)
unfolding condemn_inbound
after_read_lem net now s fd c filled b r = processed_lem net now s fd c filled b r filled-ne
after_read_lem net now s fd c drained b r = processed_lem net now s fd c drained b r drained-ne
after_read_lem net now s fd c failed b r = (
  refl,
  inr (record {
    got = r.got;
    brings = r.brings;
    flag = store-same s.condemned_inbound fd true;
    gateway = refl;
  }),
)

-- On a connection with a settled read buffer, and whatever `recv` answers as long as it brings no more
-- bytes than there is room for, `readRequest` returns within its fuel and answers `false`. It asks `recv`
-- for as many bytes as there is room left, until there is none or a call brings none. If the last call
-- did not fail, it judged every whole frame of the bytes that were to be read and all those that `recv`
-- brought, in order, pushed one error or one message for each, which a full ring drops, left the buffer
-- settled with less than a frame, and condemned no connection. If it failed, the connection is condemned
-- with nothing pushed.
pub read_request-Returns :
    (net : Reader) (now : Timestamp) (s : Server) (fd : ℕ) (c : Connection)
    → IsSettled c.read_buffer
    → AllFit net
    → Returns
        (λ out. (out.0 ≡ false) × (Processed net now s fd c out.1 ⊎ Condemned net s fd c out.1))
        (read_request net now s fd c)
unfolding read_request
read_request-Returns net now s fd c v fit =
    Returns-bind (HasRead net 0 c.read_buffer) _ (read_loop (suc read_capacity) net 0 c.read_buffer)
      _ (read_loop-Returns (suc read_capacity) net 0 c.read_buffer v fit (omega arith))
      λ out r. after_read_lem net now s fd c out.0 out.1 r
