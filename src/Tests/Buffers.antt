-- ===== src/Tests/Buffers.antt =====
-- The byte buffer, and the framing and the responses of the gateway, at small buffers.
use client_exchange_simulati.Prelude.{
  ℕ, refl, zero, suc, ◌≡◌, ◌≤◌, none, some, List, [], ◌∷◌, ◌++◌, arith, length,
}
use client_exchange_simulati.Prelude.Result.{Returns}
use client_exchange_simulati.Buffer.{Buffer, view, unsent, Receive, read_from, Send, write_to}
use client_exchange_simulati.Buffer.Bytes.{drop, blit}
use client_exchange_simulati.Buffer.Reading.{IsReading, received, read_from-view}
use client_exchange_simulati.Buffer.Writing.{IsWriting, sent, write_to-unsent}
use client_exchange_simulati.Wire.{zero_outbound}
use client_exchange_simulati.Server.Responses.{Outbound, append_response, latency_of}
use client_exchange_simulati.Server.Responses.Frames.{
  IsOutbound, Responded, append_response-Responded,
}
use client_exchange_simulati.Server.Gateway.{Gateway, Connection, header, process_request}
use client_exchange_simulati.Server.Gateway.Pushes.{Pushed, process_request-Returns}
use client_exchange_simulati.Tests.Samples.{empty_ring, empty_ring-IsValid, sell}

-- A buffer of four bytes, full, of which one is read and two are sent.
abbrev pub four : Buffer
four = record { bytes = λ i. i; len = 4; bytes_written = 2; read_off = 1 }

four-IsReading : IsReading 4 four
four-IsReading = record { off_in = omega arith; len_in = omega arith }

four-IsWriting : IsWriting 4 four
four-IsWriting = record { written_in = omega arith; len_in = omega arith }

-- A connection that brings one byte at a time.
abbrev pub trickle : Receive
trickle zero = some []
trickle (suc k) = some (9 ∷ [])

trickle-le : (k : ℕ) → length (received (trickle k)) ≤ k
trickle-le zero = omega arith
trickle-le (suc k) = omega arith

read_from-view_example :
    let (answer, b) = read_from 4 trickle four in
    (view b ≡ view four ++ received answer) × IsReading 4 b
read_from-view_example = read_from-view 4 trickle four four-IsReading trickle-le

-- A peer that takes one byte at a time.
abbrev pub sip : Send
sip [] = some 0
sip (x ∷ xs) = some 1

sip-le : (xs : List ℕ) → sent (sip xs) ≤ length xs
sip-le [] = omega arith
sip-le (x ∷ xs) = omega arith

write_to-unsent_example :
    let (answer, b) = write_to sip four in
    (unsent b ≡ drop (sent answer) (unsent four)) × IsWriting 4 b
write_to-unsent_example = write_to-unsent 4 sip four four-IsWriting sip-le

abbrev pub gateway : Gateway
gateway = record {
  in_ring = empty_ring sell;
  error_channel = empty_ring (record { fd = 0; error = 0 });
  client_map = λ _. none;
}

-- A frame with the header and no more than zeros behind it, and a part of another.
abbrev pub connection : Connection
connection = record {
  fd = 5;
  read_buffer = record {
    bytes = blit (λ _. 0) 0 header;
    len = 80;
    bytes_written = 0;
    read_off = 0;
  };
  inbound = sell;
  read_begin_tsc = 1;
}

process_request-Returns_example :
    Returns (Pushed 3 3 2304 gateway connection) (process_request gateway connection)
process_request-Returns_example =
    process_request-Returns 3 3 2304 gateway connection
      (record { off_in = omega arith; len_in = omega arith }) (empty_ring-IsValid sell)
      (empty_ring-IsValid _)

-- One response staged, and part of a frame still to be sent.
abbrev pub outbound : Outbound
outbound = record {
  write_buffer = record { bytes = λ _. 1; len = 32; bytes_written = 10; read_off = 0 };
  staging = record (empty_ring zero_outbound) { write_idx = 1 };
  latency_batch = latency_of zero_outbound ∷ [];
}

pub outbound-IsOutbound : IsOutbound 3 outbound
outbound-IsOutbound = record {
  staged = record {
    sized = refl;
    small = omega arith;
    write_in = omega arith;
    read_in = omega arith;
  };
  writing = record { written_in = omega arith; len_in = omega arith };
  entries = refl;
}

append_response-Responded_example : Responded 3 outbound zero_outbound [] (append_response outbound)
append_response-Responded_example =
    append_response-Responded {width = 3} outbound zero_outbound [] outbound-IsOutbound refl refl
