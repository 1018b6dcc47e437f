-- ===== src/Io/RoundTrip.antt =====
-- What a MessageWriter writes, a MessageReader reads.
use mathlib.Core.List.{append_assoc, append-nil}
use citescoop.Prelude.{
  ℕ, zero, suc, ◌+◌, ◌/◌, ◌%◌, ◌<◌, ◌≡◌, refl, sym, ap, ◌∙◌, Option, none, some, List, [], ◌∷◌,
  ◌++◌, length, arith, All, length-append, take, ◌-◌, ◌≤◌, take-append_more, take-nil,
}
use citescoop.Prelude.Int.{pos}
use citescoop.Prelude.Text.{Text}
use citescoop.Numbers.{u32_mod, int_bound}
use citescoop.Io.{
  Codec, host_number, to_int, write_message, read_message, write_all, network_bytes, read_size,
  total_bytes_limit, MessageReader, new_message_reader,
}

-- What is documented of the generated classes: ByteSizeLong is the number of the bytes that are
-- written, and where the stream still gives those bytes, reading under just that limit takes them and
-- gives the message back.
pub record CodecLaws {M : Type 0} (c : Codec M) : Type 0 where
  pub size : (m : M) → c.byte_size m ≡ length (c.serialize m)
  pub parse :
      (m : M) (rest : Text)
      → c.byte_size m < int_bound
      → c.parse_limited (pos (c.byte_size m)) (c.serialize m ++ rest) ≡ (m, rest)

host-network :
    (n : ℕ)
    → n < u32_mod
    → host_number (n / 16777216 % 256) (n / 65536 % 256) (n / 256 % 256) (n % 256) ≡ n
unfolding host_number
host-network n h = omega arith

to_int_small : (n : ℕ) → n < int_bound → to_int n ≡ pos n
unfolding to_int
to_int_small n h = ground arith

module _ {M : Type 0} (c : Codec M) where
  write_message-append :
      (m : M) (output : Text) → (write_message c m output).0 ≡ output ++ (write_message c m []).0
  unfolding write_message
  write_message-append m output = rw append_assoc

  pub write_all-append :
      (ms : List M) (output : Text) → write_all c ms output ≡ output ++ write_all c ms []
  unfolding write_all
  write_all-append [] output = sym (append-nil output)
  write_all-append (m ∷ ms) output =
      write_all-append ms (write_message c m output).0
      ∙ ap (λ t. t ++ write_all c ms []) (write_message-append m output)
      ∙ append_assoc output (write_message c m []).0 (write_all c ms [])
      ∙ ap (λ t. output ++ t) (sym (write_all-append ms (write_message c m []).0))

  pub write_all-append_list :
      (ms ns : List M) (output : Text)
      → write_all c (ms ++ ns) output ≡ write_all c ns (write_all c ms output)
  unfolding write_all
  write_all-append_list [] ns output = refl
  write_all-append_list (m ∷ ms) ns output =
      write_all-append_list ms ns (write_message c m output).0

  -- Read up to `n` messages, one after the other.
  pub read_messages : ℕ → MessageReader → Option (List M × MessageReader)
  read_messages zero reader = some ([], reader)
  read_messages (suc n) reader = elim (read_message c reader) [
    | none ↦ none
    | some (m, reader') ↦ elim (read_messages n reader') [
      | none ↦ none
      | some (ms, last) ↦ some (m ∷ ms, last)
    ]
  ]

  -- That, by a new reader of the bytes.
  unfoldable pub read_all : ℕ → Text → Option (List M × MessageReader)
  unfolding new_message_reader
  read_all n input = read_messages n (new_message_reader input)

  abbrev pub IsSmall : M → Type 0
  IsSmall m = c.byte_size m < int_bound

  write_all-cons :
      (m : M) (ms : List M) (rest : Text)
      → write_all c (m ∷ ms) [] ++ rest ≡ (write_message c m []).0 ++ (write_all c ms [] ++ rest)
  unfolding write_all
  write_all-cons m ms rest =
      ap (λ t. t ++ rest) (write_all-append ms (write_message c m []).0)
      ∙ append_assoc (write_message c m []).0 (write_all c ms []) rest

  read_messages-cons :
      (m : M) (ms : List M) (n : ℕ) (reader next last : MessageReader)
      → read_message c reader ≡ some (m, next)
      → read_messages n next ≡ some (ms, last)
      → read_messages (suc n) reader ≡ some (m ∷ ms, last)
  unfolding read_messages
  read_messages-cons m ms n reader next last p q = ground arith

  -- The message is small, and its class reads its bytes back.
  abbrev pub ReadsBack : M → Type 0
  ReadsBack m =
      IsSmall m
      × ((rest : Text) → c.parse_limited (pos (c.byte_size m)) (c.serialize m ++ rest) ≡ (m, rest))

  read-write :
      (m : M) (rest : Text)
      → ReadsBack m
      → read_message c (record { coded_stream = (write_message c m []).0 ++ rest })
        ≡ some (m, record { coded_stream = rest })
  unfolding read_message read_size write_message
  read-write m rest h =
      let exact : c.byte_size m % u32_mod ≡ c.byte_size m = omega (arith, h.0) in
      rw
        (exact, host-network (c.byte_size m) (omega (arith, h.0)), to_int_small (c.byte_size m) h.0)
        (ap (λ r. some (r.0, record { coded_stream = r.1 })) (h.1 rest))

  read_messages-write_all :
      (ms : List M) (rest : Text)
      → All ReadsBack ms
      → read_messages (length ms) (record { coded_stream = write_all c ms [] ++ rest })
        ≡ some (ms, record { coded_stream = rest })
  unfolding read_messages
  read_messages-write_all [] rest h = unfold write_all in refl
  read_messages-write_all (m ∷ ms) rest h = rw (write_all-cons m ms rest) (
      read_messages-cons m ms (length ms) _ (record { coded_stream = write_all c ms [] ++ rest })
        (record { coded_stream = rest }) (read-write m (write_all c ms [] ++ rest) h.0)
        (read_messages-write_all ms rest h.1))

  -- Together, with their sizes, the messages are no more bytes than a reader gives.
  abbrev pub FitReader : List M → Type 0
  FitReader ms = length (write_all c ms []) ≤ total_bytes_limit

  -- The reader behind the messages: what follows them, up to the limit of the bytes in all.
  abbrev pub reader_behind : List M → Text → MessageReader
  reader_behind ms rest = record {
    coded_stream = take (total_bytes_limit - length (write_all c ms [])) rest;
  }

  pub read_back :
      (ms : List M) (rest : Text)
      → All ReadsBack ms
      → FitReader ms
      → read_all (length ms) (write_all c ms [] ++ rest) ≡ some (ms, reader_behind ms rest)
  unfolding read_all new_message_reader
  read_back ms rest h fit =
      ap (λ bytes. read_messages (length ms) (record { coded_stream = bytes }))
        (take-append_more total_bytes_limit (write_all c ms []) rest fit)
      ∙ read_messages-write_all ms (take (total_bytes_limit - length (write_all c ms [])) rest) h

  -- Where nothing follows the messages, nothing is left.
  pub read_back_exactly :
      (ms : List M)
      → All ReadsBack ms
      → FitReader ms
      → read_all (length ms) (write_all c ms []) ≡ some (ms, record { coded_stream = [] })
  read_back_exactly ms h fit =
      ap (read_all (length ms)) (sym (append-nil (write_all c ms [])))
      ∙ read_back ms [] h fit
      ∙ ap (λ bytes. some (ms, record { coded_stream = bytes })) (take-nil _)

  module _ (laws : CodecLaws c) where
    FitReader-cons : (m : M) (ms : List M) → FitReader (m ∷ ms) → IsSmall m × FitReader ms
    unfolding write_all write_message network_bytes
    FitReader-cons m ms fit =
        let split : length (write_all c (m ∷ ms) [])
            ≡ length (write_message c m []).0 + length (write_all c ms []) =
          ap length (write_all-append ms (write_message c m []).0)
          ∙ length-append (write_message c m []).0 (write_all c ms []) in
        let one : length (write_message c m []).0 ≡ 4 + length (c.serialize m) = omega arith in
        (omega (arith, laws.size m, split, one, fit), omega (arith, split, fit))

    FitReader-ReadsBack : (ms : List M) → FitReader ms → All ReadsBack ms
    FitReader-ReadsBack [] fit = tt
    FitReader-ReadsBack (m ∷ ms) fit =
        let (small, others) = FitReader-cons m ms fit in
        ((small, λ rest. laws.parse m rest small), FitReader-ReadsBack ms others)

    -- Messages of a class that reads its own bytes back, that were written one after the other and
    -- are together, with their sizes, less than 2 ^ 31 bytes, are read back in their order by one
    -- reader; and of what follows them it still gives what is below that limit in all.
    pub read_all-write_all :
        (ms : List M) (rest : Text)
        → FitReader ms
        → read_all (length ms) (write_all c ms [] ++ rest) ≡ some (ms, reader_behind ms rest)
    read_all-write_all ms rest fit = read_back ms rest (FitReader-ReadsBack ms fit) fit

  -- For a message of less than 2 ^ 31 bytes whose class tells its size, WriteMessage adds four
  -- bytes and the serialized message, and returns the size of the latter.
  pub write_message-size :
      (m : M) (output : Text)
      → CodecLaws c
      → IsSmall m
      → (length (write_message c m output).0 ≡ length output + 4 + (write_message c m output).1)
        × ((write_message c m output).1 ≡ length (c.serialize m))
  unfolding write_message
  write_message-size m output laws h =
      let exact : c.byte_size m % u32_mod ≡ c.byte_size m = omega arith in
      (rw (length-append, length-append) (omega arith), exact ∙ laws.size m)
