-- ===== src/OpenAlex/Streams/ReadBack.antt =====
-- The three streams that a snapshot is written to, read by a MessageReader.
use citescoop.Prelude.{
  ◌≡◌, refl, sym, ap, subst, ◌∙◌, ◌%◌, Bool, none, some, List, [], ◌++◌, All, length,
}
use citescoop.Prelude.Text.{Text}
use citescoop.Result.{Result, ok, err}
use citescoop.Numbers.{u64_mod}
use citescoop.Io.{Codec, write_all}
use citescoop.Io.RoundTrip.{ReadsBack, read_all, FitReader, read_back_exactly, write_all-append}
use citescoop.OpenAlex.{JsonLibraries}
use citescoop.OpenAlex.Snapshot.{Snapshot, process_works_snapshot}
use citescoop.OpenAlex.Streams.{Counted, Outputs, Codecs, Ended, stream_works_snapshot}
use citescoop.OpenAlex.Streams.Agreement.{
  all_written, written, SameEnd, stream_works_snapshot-SameEnd,
}

-- Behind what was in the stream, a MessageReader reads the records and nothing is left, and the
-- counter is their number modulo 2 ^ 64.
pub record Readable {M : Type 0} (c : Codec M) (base : Text) (records : List M) (counted : Counted)
    : Type 0 where
  pub bytes : Text
  pub behind : counted.0 ≡ base ++ bytes
  pub read : read_all c (length records) bytes ≡ some (records, record { coded_stream = [] })
  pub number : counted.1 ≡ length records % u64_mod

all_written-Readable :
    {M : Type 0} (c : Codec M) (base : Text) (records : List M)
    → All (ReadsBack c) records × FitReader c records
    → Readable c base records (all_written c records base)
all_written-Readable c base records h = record {
  bytes = write_all c records [];
  behind = write_all-append c records base;
  read = read_back_exactly c records h.0 h.1;
  number = refl;
}

module _ (lib : JsonLibraries) (c : Codecs) (authors institutions works : Text) where
  -- The classes of the messages of the snapshot read them back from their bytes, and the messages
  -- of each stream are together no more bytes than a reader gives.
  abbrev pub AllReadBack : Snapshot → Type 0
  AllReadBack s =
      (All (ReadsBack c.authors) s.authors × FitReader c.authors s.authors)
      × (All (ReadsBack c.institutions) s.institutions × FitReader c.institutions s.institutions)
      × (All (ReadsBack c.works) s.works × FitReader c.works s.works)

  abbrev pub AllReadable : Snapshot → Outputs → Type 0
  AllReadable s outputs =
      Readable c.authors authors s.authors outputs.authors_output
      × Readable c.institutions institutions s.institutions outputs.institutions_output
      × Readable c.works works s.works outputs.works_output

  -- The call ended normally, with these ids seen and these records in its streams.
  abbrev pub EndsReadable : List Text → Snapshot → Ended → Type 0
  EndsReadable seen s (seen', outputs, none) = (seen' ≡ seen) × AllReadable s outputs
  EndsReadable seen s (seen', outputs, some x) = ⊥

  ends :
      (m : List Text × Result Snapshot) (end : Ended) (seen : List Text) (s : Snapshot)
      → m ≡ (seen, ok s)
      → AllReadBack s
      → SameEnd lib c authors institutions works m end
      → EndsReadable seen s end
  ends (before, ok t) (seen', outputs, none) seen s e h same =
      let seen_eq : before ≡ seen = cc in
      let s_eq : t ≡ s = cc in
      (
        sym same.0 ∙ seen_eq,
        subst (AllReadable s) (sym (same.1 ∙ ap (written lib c authors institutions works) s_eq)) (
          all_written-Readable c.authors authors s.authors h.0,
          all_written-Readable c.institutions institutions s.institutions h.1,
          all_written-Readable c.works works s.works h.2,
        ),
      )
  ends (before, ok t) (seen', outputs, some x) seen s e h same = same
  ends (before, err x) end seen s e h same = absurd (cc)

  -- Where the processing in memory returns a snapshot, with messages that their classes read back
  -- from their bytes and that are, for each of the three streams together and with their sizes,
  -- less than 2 ^ 31 bytes, the processing in streams ends without an exception and has seen the
  -- same ids; behind what was in each of the streams one MessageReader then reads just the authors,
  -- the institutions or the works of the snapshot, in their order, and nothing is left; and the
  -- three numbers are theirs modulo 2 ^ 64.
  pub stream_works_snapshot-EndsReadable :
      (from_left : Bool) (input : Text) (before seen : List Text) (s : Snapshot)
      → process_works_snapshot lib from_left input before ≡ (seen, ok s)
      → AllReadBack s
      → EndsReadable seen s
          (stream_works_snapshot lib c from_left input authors institutions works before)
  stream_works_snapshot-EndsReadable from_left input before seen s e h =
      ends (process_works_snapshot lib from_left input before) _ seen s e h
        (stream_works_snapshot-SameEnd lib c authors institutions works from_left input before)
