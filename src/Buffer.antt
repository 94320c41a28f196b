-- ===== src/Buffer.antt =====
-- infra/buffer.hpp: the byte buffer of a connection. The capacity `N` is an argument; `recv` and `send`
-- are the system's, so what they answer is an argument of `read_from` and `write_to`.
pub mod Bytes
pub mod Reading
pub mod Writing
use client_exchange_simulati.Prelude.{
  ℕ, ◌+◌, ◌-◌, Bool, true, false, ◌&&◌, not, Option, none, some, List, ltb, leb, ◌==◌,
  if◌then◌else◌, length,
}
use client_exchange_simulati.Buffer.Bytes.{blit, slide, slice}

-- `data_` is the array `char[N]`, of which only the indices below N are used.
pub record Buffer : Type 0 where
  pub bytes : ℕ → ℕ
  pub len : ℕ
  pub bytes_written : ℕ
  pub read_off : ℕ

-- `Buffer()`
abbrev pub empty_buffer : Buffer
empty_buffer = record { bytes = λ _. 0; len = 0; bytes_written = 0; read_off = 0 }

abbrev pub unread_length : Buffer → ℕ
unread_length b = b.len - b.read_off

abbrev pub remaining_capacity : ℕ → Buffer → ℕ
remaining_capacity n b = n - b.len

-- `view()`
abbrev pub view : Buffer → List ℕ
view b = slice b.bytes b.read_off (b.len - b.read_off)

-- `if (read_off_ > 0 && len_ == N) { … }`. A `memmove` of no bytes changes nothing.
unfoldable pub compact : ℕ → Buffer → Buffer
compact n b =
    if ltb 0 b.read_off && b.len == n
    then record b {
      bytes = slide b.bytes b.read_off (b.len - b.read_off);
      len = b.len - b.read_off;
      read_off = 0;
    }
    else b

-- What `recv` answers on a buffer with room for so many bytes: the bytes received, none of them at the
-- end of the stream; or -1.
abbrev pub Receive : Type 0
Receive = ℕ → Option (List ℕ)

-- `if (n > 0) len_ += n`, after `recv` has written its bytes behind the others.
abbrev pub take_in : Buffer → Option (List ℕ) → Buffer
take_in b none = b
take_in b (some xs) = record b { bytes = blit b.bytes b.len xs; len = b.len + length xs }

-- `read_from`, with the answer of `recv`
unfoldable pub read_from : ℕ → Receive → Buffer → Option (List ℕ) × Buffer
read_from n recv b =
    let b' = compact n b in let received = recv (n - b'.len) in (received, take_in b' received)

unfoldable pub advance : Buffer → ℕ → Buffer
advance b n =
    let off = b.read_off + n in
    if leb b.len off then record b { read_off = 0; len = 0 } else record b { read_off = off }

abbrev pub remaining_to_send : Buffer → ℕ
remaining_to_send b = b.len - b.bytes_written

-- The bytes still to be sent.
abbrev pub unsent : Buffer → List ℕ
unsent b = slice b.bytes b.bytes_written (b.len - b.bytes_written)

abbrev pub has_room : ℕ → Buffer → ℕ → Bool
has_room n b k = leb (b.len + k) n

unfoldable pub append : ℕ → Buffer → List ℕ → Bool × Buffer
append n b src =
    if not (has_room n b (length src))
    then (false, b)
    else (true, record b { bytes = blit b.bytes b.len src; len = b.len + length src })

-- What `send` answers on so many bytes: how many it took, or -1.
abbrev pub Send : Type 0
Send = List ℕ → Option ℕ

abbrev pub count_sent : Buffer → Option ℕ → Buffer
count_sent b none = b
count_sent b (some k) = record b { bytes_written = b.bytes_written + k }

unfoldable pub write_to : Send → Buffer → Option ℕ × Buffer
write_to send b = let sent = send (unsent b) in (sent, count_sent b sent)

unfoldable pub try_reset : Buffer → Buffer
try_reset b = if b.bytes_written == b.len then record b { len = 0; bytes_written = 0 } else b

abbrev pub clear : Buffer → Buffer
clear b = record b { len = 0; bytes_written = 0; read_off = 0 }
