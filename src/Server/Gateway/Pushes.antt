-- ===== src/Server/Gateway/Pushes.antt =====
-- What `processRequest` puts on the two rings that it writes, which drop what comes when they are full.
use client_exchange_simulati.Prelude.{
  ℕ, ◌/◌, ◌<◌, ◌≡◌, refl, sym, ap, ◌∙◌, subst, Option, some, List, [], ◌∷◌, length, ◌==◌,
  if◌then◌else◌,
}
use client_exchange_simulati.Prelude.Result.{Returns, Returns-weaken}
use client_exchange_simulati.RingBuffer.Inv.{IsValid}
use client_exchange_simulati.RingBuffer.Refine.{contents}
use client_exchange_simulati.RingBuffer.Drops.{offer_all, push_each, push_each_refines}
use client_exchange_simulati.Buffer.{view}
use client_exchange_simulati.Buffer.Reading.{IsReading}
use client_exchange_simulati.Wire.{InboundMessage, malformed_request, invalid_order}
use client_exchange_simulati.Server.Gateway.{
  inbound_bsize, Gateway, Connection, PendingError, process_request,
}
use client_exchange_simulati.Server.Gateway.Framing.{
  Verdict, malformed, invalid, accepted, verdicts, drop_frames, deliver, deliver_all,
  process_request_lem,
}

-- The messages of the frames that were accepted, in order.
abbrev pub messages_of : List Verdict → List InboundMessage
messages_of [] = []
messages_of (malformed ∷ vs) = messages_of vs
messages_of (invalid ∷ vs) = messages_of vs
messages_of (accepted msg ∷ vs) = msg ∷ messages_of vs

-- The errors for the frames that were refused, in order, for the client at this descriptor.
abbrev pub errors_of : ℕ → List Verdict → List PendingError
errors_of fd [] = []
errors_of fd (malformed ∷ vs) = record { fd = fd; error = malformed_request } ∷ errors_of fd vs
errors_of fd (invalid ∷ vs) = record { fd = fd; error = invalid_order } ∷ errors_of fd vs
errors_of fd (accepted msg ∷ vs) = errors_of fd vs

in_ring-deliver_all :
    (fd : ℕ) (g : Gateway) (vs : List Verdict)
    → (deliver_all fd g vs).in_ring ≡ push_each g.in_ring (messages_of vs)
in_ring-deliver_all fd g [] = refl
in_ring-deliver_all fd g (malformed ∷ vs) = in_ring-deliver_all fd (deliver fd g malformed) vs
in_ring-deliver_all fd g (invalid ∷ vs) = in_ring-deliver_all fd (deliver fd g invalid) vs
in_ring-deliver_all fd g (accepted msg ∷ vs) =
    in_ring-deliver_all fd (deliver fd g (accepted msg)) vs

error_channel-deliver_all :
    (fd : ℕ) (g : Gateway) (vs : List Verdict)
    → (deliver_all fd g vs).error_channel ≡ push_each g.error_channel (errors_of fd vs)
error_channel-deliver_all fd g [] = refl
error_channel-deliver_all fd g (malformed ∷ vs) =
    error_channel-deliver_all fd (deliver fd g malformed) vs
error_channel-deliver_all fd g (invalid ∷ vs) =
    error_channel-deliver_all fd (deliver fd g invalid) vs
error_channel-deliver_all fd g (accepted msg ∷ vs) =
    error_channel-deliver_all fd (deliver fd g (accepted msg)) vs

-- Whose connection it is that a client is led to, when messages come from the connection `fd`: those
-- that sent one are led to it.
abbrev pub leads : ℕ → (ℕ → Option ℕ) → List InboundMessage → ℕ → Option ℕ
leads fd f [] cid = f cid
leads fd f (msg ∷ msgs) cid = leads fd (λ c. if c == msg.client_id then some fd else f c) msgs cid

client_map-deliver_all :
    (fd : ℕ) (g : Gateway) (vs : List Verdict) (cid : ℕ)
    → (deliver_all fd g vs).client_map cid ≡ leads fd g.client_map (messages_of vs) cid
client_map-deliver_all fd g [] cid = refl
client_map-deliver_all fd g (malformed ∷ vs) cid =
    client_map-deliver_all fd (deliver fd g malformed) vs cid
client_map-deliver_all fd g (invalid ∷ vs) cid =
    client_map-deliver_all fd (deliver fd g invalid) vs cid
client_map-deliver_all fd g (accepted msg ∷ vs) cid =
    client_map-deliver_all fd (deliver fd g (accepted msg)) vs cid

-- The verdicts on the whole frames that wait in the read buffer of a connection.
abbrev pub waiting_verdicts : Connection → List Verdict
waiting_verdicts c =
    verdicts (length (view c.read_buffer) / inbound_bsize) c.read_begin_tsc (view c.read_buffer)

-- What `processRequest` leaves of the gateway and the connection.
pub record Pushed (width depth n : ℕ) (g : Gateway) (c : Connection) (out : Gateway × Connection)
    : Type 0 where
  pub in_ring :
      contents out.0.in_ring
      ≡ offer_all g.in_ring.mask (contents g.in_ring) (messages_of (waiting_verdicts c))
  pub in_valid : IsValid width out.0.in_ring
  pub errors :
      contents out.0.error_channel
      ≡ offer_all g.error_channel.mask
          (contents g.error_channel)
          (errors_of c.fd (waiting_verdicts c))
  pub errors_valid : IsValid depth out.0.error_channel
  pub led :
      (cid : ℕ)
      → out.0.client_map cid ≡ leads c.fd g.client_map (messages_of (waiting_verdicts c)) cid
  pub left :
      view out.1.read_buffer
      ≡ drop_frames (length (view c.read_buffer) / inbound_bsize) (view c.read_buffer)
  pub partial : length (view out.1.read_buffer) < inbound_bsize
  pub reading : IsReading n out.1.read_buffer

-- With a valid read buffer and valid rings, `processRequest` returns. It judges each whole frame of the
-- bytes to be read, in order. The inbound ring then holds what a queue of its capacity holds that the
-- messages of the accepted frames were offered to in order, and the error channel the same for one
-- error for each frame that was refused: what comes to a full ring is dropped. The client of an
-- accepted frame is led to the connection, also when its message is dropped. What is left to be read is
-- the part of a frame behind the whole ones, and the buffer and the rings stay valid.
pub process_request-Returns :
    (width depth n : ℕ) (g : Gateway) (c : Connection)
    → IsReading n c.read_buffer
    → IsValid width g.in_ring
    → IsValid depth g.error_channel
    → Returns (Pushed width depth n g c) (process_request g c)
process_request-Returns width depth n g c reads a b =
    let vs = waiting_verdicts c in
    let msgs = push_each_refines g.in_ring (messages_of vs) a in
    let errs = push_each_refines g.error_channel (errors_of c.fd vs) b in
    Returns-weaken _ _ (process_request g c) (process_request_lem n g c reads) λ out f.
      let into = ap (λ g'. g'.in_ring) f.delivered ∙ in_ring-deliver_all c.fd g vs in
      let away = ap (λ g'. g'.error_channel) f.delivered ∙ error_channel-deliver_all c.fd g vs in
      record {
        in_ring = ap contents into ∙ msgs.0;
        in_valid = subst (IsValid width) (sym into) msgs.1;
        errors = ap contents away ∙ errs.0;
        errors_valid = subst (IsValid depth) (sym away) errs.1;
        led =
            λ cid. ap (λ g'. g'.client_map cid) f.delivered ∙ client_map-deliver_all c.fd g vs cid;
        left = f.left;
        partial = f.partial;
        reading = f.valid;
      }
