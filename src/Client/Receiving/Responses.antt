-- ===== src/Client/Receiving/Responses.antt =====
-- The load generator reads what the server writes.
use client_exchange_simulati.Prelude.{
  ◌^◌, ◌<◌, ◌≡◌, refl, ap, inl, inr, Bool-cases, some, [], ◌==◌, if◌then◌else◌,
}
use client_exchange_simulati.Wire.{OutboundMessage, match, no_error}
use client_exchange_simulati.Server.Responses.{response_frame, padded}
use client_exchange_simulati.Client.State.{Client}
use client_exchange_simulati.Client.Factory.Roundtrip.{little_endian-bytes_of}
use client_exchange_simulati.Client.Receiving.{acknowledge, take_match, take_error, take_frame}

-- What a response means to the client.
abbrev pub understood : Client → OutboundMessage → Client
understood cs msg =
    if msg.message_type == match
    then take_match cs
    else if msg.server_error == no_error
    then acknowledge cs msg.order_id
    else take_error cs

-- The client understands the frame of every response that the server writes: it counts a match, takes an
-- acknowledgement together with its order id, and counts an error. The order id fits its type.
pub take_frame-response_frame :
    (cs : Client) (msg : OutboundMessage)
    → msg.order_id < 256 ^ 8
    → take_frame cs (response_frame msg) ≡ some (understood cs msg)
unfolding take_frame response_frame
take_frame-response_frame cs msg h = elim (Bool-cases (msg.message_type == match)) [
  | inl fill ↦ rw fill refl
  | inr reply ↦ elim (Bool-cases (msg.server_error == no_error)) [
    | inl fine ↦ rw reply (
        rw fine (
          ap (λ oid. some (acknowledge cs oid))
            (little_endian-bytes_of 8 msg.order_id (padded 8 []) h)))
    | inr bad ↦ rw reply (rw bad refl)
  ]
]
