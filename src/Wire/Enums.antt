-- ===== src/Wire/Enums.antt =====
-- The enumerations of infra/order_types.hpp and infra/communication_types.hpp, each over one byte.
use client_exchange_simulati.Prelude.{ℕ}

abbrev pub Side : Type 0
Side = ℕ

abbrev pub bid : Side
bid = 0

abbrev pub ask : Side
ask = 1

abbrev pub OrderType : Type 0
OrderType = ℕ

abbrev pub market : OrderType
market = 0

abbrev pub limit : OrderType
limit = 1

abbrev pub MessageType : Type 0
MessageType = ℕ

abbrev pub new : MessageType
new = 0

abbrev pub cancel : MessageType
cancel = 1

abbrev pub modify : MessageType
modify = 2

abbrev pub match : MessageType
match = 4

abbrev pub Status : Type 0
Status = ℕ

abbrev pub failure : Status
failure = 0

abbrev pub success : Status
success = 1

abbrev pub ServerError : Type 0
ServerError = ℕ

abbrev pub no_error : ServerError
no_error = 0

abbrev pub malformed_request : ServerError
malformed_request = 1

abbrev pub invalid_order : ServerError
invalid_order = 2

abbrev pub system_error : ServerError
system_error = 3

abbrev pub execution_error : ServerError
execution_error = 4
