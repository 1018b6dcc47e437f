-- ===== src/Tests/StreamRuns.antt =====
-- Messages and streams.
use citescoop.Prelude.{
  ◌≡◌, ◌<◌, refl, some, List, [], ◌∷◌, ◌++◌, arith, length, take, drop, take-append, drop-append,
}
use citescoop.Prelude.Int.{ℤ, pos, negsuc}
use citescoop.Prelude.Text.{Text, codes}
use citescoop.Numbers.{int_bound, stol}
use citescoop.Numbers.Decimal.{decimal, stol-decimal}
use citescoop.Result.{ok}
use citescoop.Io.{Codec, write_message, write_all}
use citescoop.Io.RoundTrip.{CodecLaws, FitReader, read_all, read_all-write_all}

-- A message that is its own bytes.
abbrev parse_bytes : ℤ → Text → Text × Text
parse_bytes (pos n) input = (take n input, drop n input)
parse_bytes (negsuc n) input = (input, [])

abbrev bytes : Codec Text
bytes = record { byte_size = length; serialize = λ m. m; parse_limited = parse_bytes }

bytes-parse :
    (m rest : Text) → length m < int_bound → parse_bytes (pos (length m)) (m ++ rest) ≡ (m, rest)
bytes-parse m rest h = ground (arith, take-append m rest, drop-append m rest)

bytes-laws : CodecLaws bytes
bytes-laws = record { size = λ m. refl; parse = bytes-parse }

written :
    (write_message bytes (codes "abc") (codes "x")).0 ≡ codes "x" ++ (0 ∷ 0 ∷ 0 ∷ 3 ∷ codes "abc")
unfolding write_message
written = refl

abbrev two_messages : List Text
two_messages = codes "abc" ∷ codes "" ∷ []

two_messages_fit : FitReader bytes two_messages
unfolding write_all write_message
two_messages_fit = omega arith

read_all-write_all_example :
    read_all bytes 2 (write_all bytes two_messages [] ++ codes "z")
    ≡ some (two_messages, record { coded_stream = codes "z" })
unfolding write_all
read_all-write_all_example =
    read_all-write_all bytes bytes-laws two_messages (codes "z") two_messages_fit

stol-decimal_test : stol (decimal 20260101 ++ codes "Z") ≡ ok (pos 20260101)
stol-decimal_test = stol-decimal 20260101 (codes "Z") (omega arith) refl
