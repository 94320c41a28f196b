-- ===== src/Server/Gateway/Framing.antt =====
-- What `processRequest` makes of the bytes of a connection.
use client_exchange_simulati.Prelude.{
  ℕ, zero, suc, ◌-◌, ◌/◌, ◌≤◌, ◌<◌, ◌≡◌, refl, ap, ◌∙◌, inl, inr, Bool-cases, List, [], ◌∷◌, arith,
  length, leb, if◌then◌else◌,
}
use client_exchange_simulati.Prelude.Result.{Returns, Returns-weaken}
use client_exchange_simulati.Buffer.{view, advance}
use client_exchange_simulati.Buffer.Bytes.{drop, length-slice}
use client_exchange_simulati.Buffer.Reading.{IsReading, advance-view}
use client_exchange_simulati.Wire.{InboundMessage, Timestamp, malformed_request, invalid_order}
use client_exchange_simulati.Server.Validation.{validate_message}
use client_exchange_simulati.Server.Gateway.{
  inbound_bsize, header, starts_with, decode, Gateway, Connection, report, admit, frame_round,
  process_loop, process_request,
}

-- What becomes of a frame.
pub data Verdict : Type 0 where
  malformed invalid : Verdict
  accepted : InboundMessage → Verdict

abbrev pub judge_message : InboundMessage → Verdict
judge_message msg = if validate_message msg then accepted msg else invalid

-- The verdict on the frame at the front of the bytes.
abbrev pub judge : Timestamp → List ℕ → Verdict
judge tsc bytes =
    if starts_with bytes header
    then judge_message (record (decode (drop 9 bytes)) { read_begin_tsc = tsc })
    else malformed

-- The verdicts on so many frames.
abbrev pub verdicts : ℕ → Timestamp → List ℕ → List Verdict
verdicts zero tsc bytes = []
verdicts (suc k) tsc bytes = judge tsc bytes ∷ verdicts k tsc (drop inbound_bsize bytes)

-- The bytes behind so many frames.
abbrev pub drop_frames : ℕ → List ℕ → List ℕ
drop_frames zero bytes = bytes
drop_frames (suc k) bytes = drop_frames k (drop inbound_bsize bytes)

-- A verdict goes to the client as an error, or to the engine as a message.
abbrev pub deliver : ℕ → Gateway → Verdict → Gateway
deliver fd g malformed = report g fd malformed_request
deliver fd g invalid = report g fd invalid_order
deliver fd g (accepted msg) = admit g fd msg

abbrev pub deliver_all : ℕ → Gateway → List Verdict → Gateway
deliver_all fd g [] = g
deliver_all fd g (v ∷ vs) = deliver_all fd (deliver fd g v) vs

abbrev last_accepted : InboundMessage → Verdict → InboundMessage
last_accepted m malformed = m
last_accepted m invalid = m
last_accepted m (accepted msg) = msg

abbrev after_frame : Connection → Connection
after_frame c = record c {
  read_buffer = advance c.read_buffer inbound_bsize;
  inbound = last_accepted c.inbound (judge c.read_begin_tsc (view c.read_buffer));
}

frame_round_lem :
    (g : Gateway) (c : Connection)
    → frame_round g c
      ≡ (deliver c.fd g (judge c.read_begin_tsc (view c.read_buffer)), after_frame c)
unfolding frame_round
frame_round_lem g c =
    let bytes = view c.read_buffer in
    let msg = record (decode (drop 9 bytes)) { read_begin_tsc = c.read_begin_tsc } in
    elim (Bool-cases (starts_with bytes header)) [
      | inr bad ↦ rw bad refl
      | inl good ↦ elim (Bool-cases (validate_message msg)) [
        | inr refused ↦ rw good (rw refused refl)
        | inl fine ↦ rw good (rw fine refl)
      ]
    ]

-- A round of the loop takes a frame from the buffer.
pub frame_round-read_buffer :
    (g : Gateway) (c : Connection)
    → (frame_round g c).1.read_buffer ≡ advance c.read_buffer inbound_bsize
frame_round-read_buffer g c = ap (λ p. p.1.read_buffer) (frame_round_lem g c)

-- A round of the loop keeps the descriptor.
pub fd-frame_round : (g : Gateway) (c : Connection) → (frame_round g c).1.fd ≡ c.fd
fd-frame_round g c = ap (λ p. p.1.fd) (frame_round_lem g c)

length-drop : (k : ℕ) (xs : List ℕ) → length (drop k xs) ≡ length xs - k
length-drop zero xs = omega arith
length-drop (suc k) [] = omega arith
length-drop (suc k) (x ∷ xs) = omega (arith, length-drop k xs)

-- What is left after `processRequest`.
pub record Framed (n : ℕ) (g : Gateway) (c : Connection) (out : Gateway × Connection) : Type 0 where
  pub delivered :
      out.0
      ≡ deliver_all c.fd g (
          verdicts
            (length (view c.read_buffer) / inbound_bsize)
            c.read_begin_tsc
            (view c.read_buffer))
  pub left :
      view out.1.read_buffer
      ≡ drop_frames (length (view c.read_buffer) / inbound_bsize) (view c.read_buffer)
  pub partial : length (view out.1.read_buffer) < inbound_bsize
  pub valid : IsReading n out.1.read_buffer

process_loop-Returns :
    (n fuel : ℕ) (g : Gateway) (c : Connection)
    → IsReading n c.read_buffer
    → length (view c.read_buffer) < fuel
    → Returns (Framed n g c) (process_loop fuel g c)
unfolding process_loop
process_loop-Returns n zero g c v h = absurd (omega arith)
process_loop-Returns n (suc fuel) g c v h =
    let bytes = view c.read_buffer in
    let count =
      length-slice c.read_buffer.bytes c.read_buffer.read_off
        (c.read_buffer.len - c.read_buffer.read_off) in
    elim (Bool-cases (leb inbound_bsize (c.read_buffer.len - c.read_buffer.read_off))) [
      | inr short ↦
          let none_whole : length bytes / inbound_bsize ≡ 0 = ground arith in
          rw short (record {
            delivered = rw none_whole refl;
            left = rw none_whole refl;
            partial = ground arith;
            valid = v;
          })
      | inl whole ↦
          let g' = deliver c.fd g (judge c.read_begin_tsc bytes) in
          let c' = after_frame c in
          let left_bytes = view (advance c.read_buffer inbound_bsize) in
          let enough : inbound_bsize ≤ length bytes = ground arith in
          let moved = advance-view n c.read_buffer inbound_bsize v enough in
          let shorter : length left_bytes ≡ length bytes - inbound_bsize =
            ap length moved.0 ∙ length-drop inbound_bsize bytes in
          let frames : length bytes / inbound_bsize ≡ suc (length left_bytes / inbound_bsize) =
            omega (arith, shorter) in
          rw (whole, frame_round_lem g c)
            (Returns-weaken (Framed n g' c') (Framed n g c) (process_loop fuel g' c')
              (process_loop-Returns n fuel g' c' moved.1 (omega (arith, shorter)))
              λ out f. record {
                delivered = rw frames (
                    f.delivered
                    ∙ ap
                        (λ d.
                          deliver_all c.fd g'
                            (verdicts (length left_bytes / inbound_bsize) c.read_begin_tsc d))
                        moved.0);
                left =
                    rw frames
                      (f.left ∙ ap (drop_frames (length left_bytes / inbound_bsize)) moved.0);
                partial = f.partial;
                valid = f.valid;
              })
    ]

-- `processRequest` returns. It judges each whole frame of the bytes to be read, in order, and pushes
-- one error or one message for each, whether or not there is room on the ring; what is left to be read is the part of a frame behind them. The
-- indices of the buffer are valid before and after.
pub process_request_lem :
    (n : ℕ) (g : Gateway) (c : Connection)
    → IsReading n c.read_buffer
    → Returns (Framed n g c) (process_request g c)
unfolding process_request
process_request_lem n g c v =
    process_loop-Returns n (suc (c.read_buffer.len - c.read_buffer.read_off)) g c v (
      omega (
        arith,
        length-slice c.read_buffer.bytes c.read_buffer.read_off
            (c.read_buffer.len - c.read_buffer.read_off),
      ))
