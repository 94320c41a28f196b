-- ===== src/Tests/Exchanges.antt =====
-- The gateway and the engine together, at the frame of an order.
use client_exchange_simulati.Prelude.{◌++◌, refl, arith}
use client_exchange_simulati.Prelude.Result.{Returns}
use client_exchange_simulati.Buffer.Bytes.{blit}
use client_exchange_simulati.Engine.Levels.{list_levels}
use client_exchange_simulati.Engine.Driver.{step}
use client_exchange_simulati.Server.Gateway.{Connection, header, decode, process_request}
use client_exchange_simulati.Server.Validation.{validate_message, validate_new}
use client_exchange_simulati.Client.Factory.{encode}
use client_exchange_simulati.Exchange.{Served, exchange-Served}
use client_exchange_simulati.Tests.Samples.{empty_ring-IsValid, buy, sell}
use client_exchange_simulati.Tests.Buffers.{gateway, connection}
use client_exchange_simulati.Tests.Drivers.{engine}
use client_exchange_simulati.Tests.Books.{book-IsGood}

-- A whole frame with a buy at 106.
abbrev buyer : Connection
buyer = record connection {
  read_buffer = record connection.read_buffer {
    bytes = blit (λ _. 0) 0 (header ++ encode buy);
    len = 80;
  };
}

exchange-Served_example :
    Returns
      (λ out. Returns Served (step list_levels out.0.in_ring engine))
      (process_request gateway buyer)
unfolding decode validate_message validate_new
exchange-Served_example =
    exchange-Served 2304 gateway buyer engine
      (record { off_in = omega arith; len_in = omega arith }) (empty_ring-IsValid sell) refl
      book-IsGood (λ cancels limits. omega arith, tt)
