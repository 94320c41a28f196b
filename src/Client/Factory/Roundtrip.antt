-- ===== src/Client/Factory/Roundtrip.antt =====
-- The server reads what the load generator writes.
use client_exchange_simulati.Prelude.{
  ℕ, zero, suc, ◌/◌, ◌^◌, ◌≤◌, ◌<◌, ◌≡◌, ◌≢◌, ◌⊎◌, refl, ap, ◌∙◌, inl, inr, true, Bool-cases, List,
  ◌∷◌, ◌++◌, arith, ltb, length, length-append,
}
use client_exchange_simulati.Buffer.Bytes.{drop}
use client_exchange_simulati.Wire.{InboundMessage, ClientId, OrderId, Timestamp, limit, new, modify}
use client_exchange_simulati.Server.Validation.{validate_message, complete}
use client_exchange_simulati.Server.Gateway.{inbound_bsize, little_endian, decode}
use client_exchange_simulati.Server.Gateway.Framing.{judge, judge_message, accepted}
use client_exchange_simulati.Server.Responses.{bytes_of}
use client_exchange_simulati.Client.Factory.{
  Draws, FrameKind, new_frame, cancel_frame, modify_frame, make_new, make_cancel, make_modify,
  encode, Leftover, frame_message, Built, build_frame,
}

-- The members of a message fit their widths.
pub record IsWire (msg : InboundMessage) : Type 0 where
  pub read_begin_tsc : msg.read_begin_tsc < 256 ^ 8
  pub recv_tsc : msg.recv_tsc < 256 ^ 8
  pub server_push : msg.server_push < 256 ^ 8
  pub order_id : msg.order_id < 256 ^ 8
  pub client_id : msg.client_id < 256 ^ 4
  pub price : msg.price < 256 ^ 4
  pub quantity : msg.quantity < 256 ^ 4
  pub message_type : msg.message_type < 256 ^ 1
  pub side : msg.side < 256 ^ 1
  pub order_type : msg.order_type < 256 ^ 1

-- Reading the bytes of a number that fits gives the number.
pub little_endian-bytes_of :
    (n x : ℕ) (rest : List ℕ) → x < 256 ^ n → little_endian n (bytes_of n x ++ rest) ≡ x
little_endian-bytes_of zero x rest h = omega arith
little_endian-bytes_of (suc n) x rest h =
    let ih = little_endian-bytes_of n (x / 256) rest (omega arith) in omega (arith, ih)

decode-encode :
    (msg : InboundMessage) (rest : List ℕ) → IsWire msg → decode (encode msg ++ rest) ≡ msg
unfolding decode
decode-encode msg rest w =
    let bytes = encode msg ++ rest in
    λ i. record {
      read_begin_tsc =
          little_endian-bytes_of 8 msg.read_begin_tsc (drop 8 bytes) w.read_begin_tsc i;
      recv_tsc = little_endian-bytes_of 8 msg.recv_tsc (drop 16 bytes) w.recv_tsc i;
      server_push = little_endian-bytes_of 8 msg.server_push (drop 24 bytes) w.server_push i;
      order_id = little_endian-bytes_of 8 msg.order_id (drop 32 bytes) w.order_id i;
      client_id = little_endian-bytes_of 4 msg.client_id (drop 36 bytes) w.client_id i;
      price = little_endian-bytes_of 4 msg.price (drop 40 bytes) w.price i;
      quantity = little_endian-bytes_of 4 msg.quantity (drop 44 bytes) w.quantity i;
      message_type = little_endian-bytes_of 1 msg.message_type (drop 45 bytes) w.message_type i;
      side = little_endian-bytes_of 1 msg.side (drop 46 bytes) w.side i;
      order_type = little_endian-bytes_of 1 msg.order_type (drop 47 bytes) w.order_type i;
    }

-- The numbers of a frame fit their widths; the price is none.
pub record IsDrawn (d : Draws) (cid : ClientId) (active_order : OrderId) : Type 0 where
  pub side_known : d.side ≤ 1
  pub type_known : d.order_type ≤ 1
  pub priced : (0 < d.limit_price d.side) × (d.limit_price d.side < 256 ^ 4)
  pub bounded : d.quantity ≤ 1_000_000
  pub client : cid < 256 ^ 4
  pub order : active_order < 256 ^ 8

framed_judge :
    (tsc : Timestamp) (msg : InboundMessage) (left : Leftover)
    → IsWire msg
    → validate_message (record msg { read_begin_tsc = tsc }) ≡ true
    → judge tsc (frame_message msg left) ≡ accepted (record msg { read_begin_tsc = tsc })
unfolding frame_message
framed_judge tsc msg left w valid =
    ap (λ m. judge_message (record m { read_begin_tsc = tsc }))
      (decode-encode msg (left.padding ++ 10 ∷ left.behind) w)
    ∙ rw valid refl

-- The bytes that the code leaves open are those of the frame that it does not write.
pub record IsLeft (left : Leftover) : Type 0 where
  pub padding : length left.padding ≡ 9
  pub behind : length left.behind ≡ 6

length-frame_message :
    (msg : InboundMessage) (left : Leftover) → IsLeft left → length (frame_message msg left) ≡ 72
unfolding frame_message
length-frame_message msg left l =
    omega (arith, length-append left.padding (10 ∷ left.behind), l.padding, l.behind)

-- Every frame is of the one size.
pub length-build_frame :
    (d : Draws) (left : Leftover) (cid : ClientId) (oid : OrderId)
    → IsLeft left
    → length (build_frame d left cid oid).frame ≡ 72
unfolding build_frame
length-build_frame d left cid oid l = elim (Bool-cases (ltb 20 d.roll)) [
  | inl high ↦ rw high (length-frame_message (make_new d cid) left l)
  | inr low ↦ elim (Bool-cases (ltb 8 d.roll)) [
    | inl middle ↦ rw low (rw middle (length-frame_message (make_cancel cid oid) left l))
    | inr rest ↦ rw low (rw rest (length-frame_message (make_modify d cid oid) left l))
  ]
]

-- A drawn order is well formed.
drawn :
    (msg : InboundMessage)
    → ((msg.message_type ≡ new) ⊎ (msg.message_type ≡ modify))
    → msg.side ≤ 1
    → msg.order_type ≤ 1
    → (msg.order_type ≡ limit → msg.price ≢ 0)
    → msg.quantity ≤ 1_000_000
    → validate_message msg ≡ true
drawn msg kind side type priced bounded = complete msg (
    inr (
      kind,
      record {
        side_known = ground arith;
        type_known = ground arith;
        priced = priced;
        bounded = bounded;
      },
    ))

module _ {d : Draws} {cid : ClientId} {oid : OrderId} (w : IsDrawn d cid oid)
    (tsc : Timestamp) where
  -- The property of a message that its frame is accepted.
  abbrev Fine : InboundMessage → Type 0
  Fine msg = IsWire msg × (validate_message (record msg { read_begin_tsc = tsc }) ≡ true)

  made_new : Fine (make_new d cid)
  unfolding make_new
  made_new = (
    record {
      read_begin_tsc = omega arith;
      recv_tsc = omega arith;
      server_push = omega arith;
      order_id = omega arith;
      client_id = w.client;
      price = ground (arith, w.priced.1);
      quantity = omega (arith, w.bounded);
      message_type = omega arith;
      side = omega (arith, w.side_known);
      order_type = omega (arith, w.type_known);
    },
    drawn _ (inl refl) w.side_known w.type_known (λ e. ground (arith, w.priced.0, e)) w.bounded,
  )

  made_cancel : Fine (make_cancel cid oid)
  unfolding make_cancel
  made_cancel = (
    record {
      read_begin_tsc = omega arith;
      recv_tsc = omega arith;
      server_push = omega arith;
      order_id = w.order;
      client_id = w.client;
      price = omega arith;
      quantity = omega arith;
      message_type = omega arith;
      side = omega arith;
      order_type = omega arith;
    },
    complete _ (inl refl),
  )

  made_modify : Fine (make_modify d cid oid)
  unfolding make_modify
  made_modify = (
    record {
      read_begin_tsc = omega arith;
      recv_tsc = omega arith;
      server_push = omega arith;
      order_id = w.order;
      client_id = w.client;
      price = w.priced.1;
      quantity = omega (arith, w.bounded);
      message_type = omega arith;
      side = omega (arith, w.side_known);
      order_type = omega arith;
    },
    drawn _ (inr refl) w.side_known (omega arith) (λ e. omega (arith, w.priced.0)) w.bounded,
  )

-- What the server makes of a frame.
abbrev pub IsRead : Timestamp → Built → Type 0
IsRead tsc b =
    (length b.frame ≡ inbound_bsize)
    × (judge tsc b.frame ≡ accepted (record b.message { read_begin_tsc = tsc }))

read_lem :
    (tsc : Timestamp) (kind : FrameKind) (msg : InboundMessage) (left : Leftover)
    → IsLeft left
    → IsWire msg × (validate_message (record msg { read_begin_tsc = tsc }) ≡ true)
    → IsRead tsc (record { kind = kind; message = msg; frame = frame_message msg left })
read_lem tsc kind msg left l (w, valid) =
    (length-frame_message msg left l, framed_judge tsc msg left w valid)

-- Every frame that `build_frame` writes has INBOUND_BSIZE bytes, and the server reads it as the message
-- that was built, up to the time stamp it sets, and accepts it. This takes draws of a known side and
-- type, a price from 1 to 2^32 - 1 and at most a million in quantity, ids that fit their types, and
-- the sizes of the bytes that the code leaves open; their values do not matter.
pub build_frame-judge :
    (tsc : Timestamp) (d : Draws) (left : Leftover) (cid : ClientId) (oid : OrderId)
    → IsDrawn d cid oid
    → IsLeft left
    → let b = build_frame d left cid oid in
      (length b.frame ≡ inbound_bsize)
      × (judge tsc b.frame ≡ accepted (record b.message { read_begin_tsc = tsc }))
unfolding build_frame
build_frame-judge tsc d left cid oid w l = elim (Bool-cases (ltb 20 d.roll)) [
  | inl high ↦ rw high (read_lem tsc new_frame (make_new d cid) left l (made_new w tsc))
  | inr low ↦ elim (Bool-cases (ltb 8 d.roll)) [
    | inl middle ↦
        rw low
          (rw middle (read_lem tsc cancel_frame (make_cancel cid oid) left l (made_cancel w tsc)))
    | inr rest ↦
        rw low
          (rw rest (read_lem tsc modify_frame (make_modify d cid oid) left l (made_modify w tsc)))
  ]
]
