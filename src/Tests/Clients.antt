-- ===== src/Tests/Clients.antt =====
-- The load generator at one client.
use client_exchange_simulati.Prelude.{
  refl, List, ◌≡◌, some, [], ◌∷◌, arith, length, true, false, none,
}
use client_exchange_simulati.Prelude.Result.{Returns}
use client_exchange_simulati.Buffer.{clear}
use client_exchange_simulati.Wire.{zero_outbound}
use client_exchange_simulati.Server.Gateway.{inbound_bsize}
use client_exchange_simulati.Server.Gateway.Framing.{judge, accepted}
use client_exchange_simulati.Server.Responses.{response_frame}
use client_exchange_simulati.Client.Factory.{Draws, Leftover, build_frame}
use client_exchange_simulati.Client.Factory.Roundtrip.{IsLeft, build_frame-judge}
use client_exchange_simulati.Client.State.{Client, new_client, opened}
use client_exchange_simulati.Client.Sending.{Outside, slots_of, build_loop}
use client_exchange_simulati.Client.Receiving.{take_frame}
use client_exchange_simulati.Client.Receiving.Responses.{understood, take_frame-response_frame}
use client_exchange_simulati.Client.Pipeline.{IsOpen, IsPipelined}
use client_exchange_simulati.Client.Pipeline.Filling.{Packed, build_loop-Packed}
use client_exchange_simulati.Client.Running.Deadlines.{
  deadline, min_deadline, no_deadline, timeout_ms, AllKept, AllIdle, timeout_ms-Kept,
}
use client_exchange_simulati.Client.Running.{Round, client_rounds}
use client_exchange_simulati.Client.Running.Rounds.{IsOutside, client_rounds-Returns}
use client_exchange_simulati.Tests.Servers.{sips, sips-le, drip, drip-le}

-- A modification of an order to 50 at 101.
abbrev pub draws : Draws
draws = record { roll = 5; side = 1; order_type = 1; limit_price = λ side. 101; quantity = 50 }

abbrev pub left : Leftover
left = record {
  padding = 0 ∷ 0 ∷ 0 ∷ 0 ∷ 1 ∷ 2 ∷ 3 ∷ 4 ∷ 5 ∷ [];
  behind = 6 ∷ 7 ∷ 8 ∷ 9 ∷ 10 ∷ 11 ∷ [];
}

left-IsLeft : IsLeft left
left-IsLeft = record { padding = refl; behind = refl }

build_frame-judge_example :
    let b = build_frame draws left 7 40 in
    (length b.frame ≡ inbound_bsize)
    × (judge 3 b.frame ≡ accepted (record b.message { read_begin_tsc = 3 }))
build_frame-judge_example =
    build_frame-judge 3 draws left 7 40
      (record {
        side_known = omega arith;
        type_known = omega arith;
        priced = (omega arith, omega arith);
        bounded = omega arith;
        client = omega arith;
        order = omega arith;
      })
      left-IsLeft

-- A client with a connection and nothing in flight.
abbrev pub client_7 : Client
client_7 = opened (new_client 7) 5

client_7-IsOpen : IsOpen client_7
client_7-IsOpen = record {
  depth = omega arith;
  counted = refl;
  ring = refl;
  held = refl;
  buffers = record {
    stored = omega arith;
    reading = record { off_in = omega arith; len_in = omega arith };
    writing = record { written_in = omega arith; len_in = omega arith };
    front = refl;
  };
}

take_frame-response_frame_example :
    take_frame client_7 (response_frame (record zero_outbound { order_id = 258; client_id = 7 }))
    ≡ some (understood client_7 (record zero_outbound { order_id = 258; client_id = 7 }))
take_frame-response_frame_example =
    take_frame-response_frame client_7 (record zero_outbound { order_id = 258; client_id = 7 })
      (omega arith)

abbrev pub outside : Outside
outside = record {
  slot_now = 100;
  batch_now = 104;
  reconnect_now = 107;
  draws = λ k. draws;
  leftover = λ k. left;
  send = sips;
  inter_arrival_ns = 0;
}

build_loop-Packed_example :
    let ready = record client_7 { write_buf = clear client_7.write_buf } in
    Returns (Packed (slots_of outside) ready) (build_loop 33 outside (slots_of outside) 0 ready)
build_loop-Packed_example = build_loop-Packed outside client_7 client_7-IsOpen (λ k. left-IsLeft)

-- A round that connects the client, and one that has read and sends.
abbrev pub first_round : Round
first_round = record {
  first = outside;
  second = outside;
  net = drip;
  event = none;
  after = 100;
  connecting = record { socket = some 5; connected = true };
  last = outside;
}

abbrev pub second_round : Round
second_round = record first_round {
  event = some (record { hung_up = false; writable = true; readable = true; refused = false });
}

outside-IsOutside : IsOutside outside
outside-IsOutside = record { left = λ k. left-IsLeft; takes = sips-le }

client_rounds-Returns_example :
    Returns IsPipelined (client_rounds (first_round ∷ second_round ∷ []) (new_client 7))
client_rounds-Returns_example = client_rounds-Returns 7 (first_round ∷ second_round ∷ []) (
  record {
    first = outside-IsOutside;
    second = outside-IsOutside;
    fits = drip-le 0;
    last = outside-IsOutside;
  },
  (
    record {
      first = outside-IsOutside;
      second = outside-IsOutside;
      fits = drip-le 0;
      last = outside-IsOutside;
    },
    tt,
  ),
)

-- A client whose next request is due in two milliseconds and a half, and one that waits to reconnect.
abbrev waiting_clients : List Client
waiting_clients =
    record client_7 { connecting = false; next_send_ns = 9_000_000 }
    ∷ record (new_client 8) { reconnect_at_ns = 20_000_000 }
    ∷ []

timeout_ms-Kept_example :
    let sleep = timeout_ms 6_500_000 (min_deadline 1_000 no_deadline waiting_clients) in
    AllKept 6_500_000 1_000 sleep waiting_clients × (AllIdle 1_000 waiting_clients → sleep ≡ none)
unfolding deadline
timeout_ms-Kept_example =
    timeout_ms-Kept 6_500_000 1_000 waiting_clients (omega arith)
      ((omega arith, omega arith), ((omega arith, omega arith), tt))
