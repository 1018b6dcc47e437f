-- ===== src/Io.antt =====
-- The stream format of include/citescoop/io.h: each message behind its size, a uint32_t in network
-- byte order. A stream is the list of its bytes.
pub mod RoundTrip
use citescoop.Prelude.{
  ℕ, ◌+◌, ◌-◌, ◌*◌, ◌/◌, ◌%◌, ◌^◌, Option, none, some, List, [], ◌∷◌, ◌++◌, take, ltb,
  if◌then◌else◌,
}
use citescoop.Prelude.Int.{ℤ, pos, negsuc}
use citescoop.Prelude.Text.{Text}
use citescoop.Numbers.{u32_mod, int_bound}

-- What a generated message class does: ByteSizeLong, SerializeToOstream, and
-- ParseFromCodedStream under PushLimit, of the bytes that the CodedInputStream still gives, with those
-- that it leaves.
pub record Codec (M : Type 0) : Type 0 where
  pub byte_size : M → ℕ
  pub serialize : M → Text
  pub parse_limited : ℤ → Text → M × Text

-- The bytes that htonl leaves in memory, and the number that ntohl makes of them.
unfoldable pub network_bytes : ℕ → Text
network_bytes n = (n / 16777216 % 256) ∷ (n / 65536 % 256) ∷ (n / 256 % 256) ∷ (n % 256) ∷ []

unfoldable pub host_number : ℕ → ℕ → ℕ → ℕ → ℕ
host_number a b c d = a * 16777216 + b * 65536 + c * 256 + d

-- static_cast<int>(size)
unfoldable pub to_int : ℕ → ℤ
to_int n = if ltb n int_bound then pos n else negsuc (u32_mod - 1 - n)

-- The bytes that a CodedInputStream gives in all, for all its messages together, unless it is told
-- otherwise: INT_MAX, as its documentation says.
abbrev pub total_bytes_limit : ℕ
total_bytes_limit = int_bound - 1

-- A MessageReader has one CodedInputStream: these are the bytes that it still gives.
pub record MessageReader : Type 0 where
  pub coded_stream : Text

unfoldable pub new_message_reader : Text → MessageReader
new_message_reader input = record { coded_stream = take total_bytes_limit input }

-- ReadRaw of the size, and ntohl, and the cast to the limit of the message.
unfoldable pub read_size : Text → Option (ℤ × Text)
unfolding host_number to_int
read_size (b0 ∷ b1 ∷ b2 ∷ b3 ∷ rest) = some (to_int (host_number b0 b1 b2 b3), rest)
read_size _ = none

module _ {M : Type 0} (c : Codec M) where
  -- The stream after WriteMessage, and the size that it returns.
  unfoldable pub write_message : M → Text → Text × ℕ
  unfolding network_bytes
  write_message message output =
      let size = c.byte_size message % u32_mod in
      ((output ++ network_bytes size) ++ c.serialize message, size)

  -- The message that ReadMessage returns, and the reader behind it; `none` where the bytes end within
  -- the size, which is then read uninitialised.
  unfoldable pub read_message : MessageReader → Option (M × MessageReader)
  unfolding read_size
  read_message reader = elim (read_size reader.coded_stream) [
    | none ↦ none
    | some (size, rest) ↦
        let parsed = c.parse_limited size rest in
        some (parsed.0, record { coded_stream = parsed.1 })
  ]

  unfoldable pub write_all : List M → Text → Text
  unfolding write_message
  write_all [] output = output
  write_all (m ∷ ms) output = write_all ms (write_message m output).0
