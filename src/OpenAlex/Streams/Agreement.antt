-- ===== src/OpenAlex/Streams/Agreement.antt =====
-- The snapshot in memory and the snapshot in streams are the same.
use citescoop.Prelude.{
  ℕ, ◌+◌, ◌%◌, ◌<◌, ◌≡◌, refl, sym, ap, ◌∙◌, Bool, none, some, List, [], ◌∷◌, ◌++◌, arith, length,
  length-append,
}
use citescoop.Prelude.Text.{Text}
use citescoop.Numbers.{u64_mod}
use citescoop.Result.{Result, ok, err}
use citescoop.Io.{Codec, write_message, write_all}
use citescoop.Io.RoundTrip.{write_all-append_list}
use citescoop.OpenAlex.{JsonLibraries}
use citescoop.OpenAlex.Snapshot.{
  continue, Line, Snapshot, no_records, add_line, process_line, process_lines,
  process_works_snapshot, lines_of,
}
use citescoop.OpenAlex.Streams.{
  Counted, write_counted, Outputs, Codecs, write_line, Ended, next_line, stream_lines,
  stream_works_snapshot,
}

-- A stream with all messages written behind what was in it, and their number.
abbrev pub all_written : {M : Type 0} → Codec M → List M → Text → Counted
all_written c ms base = (write_all c ms base, length ms % u64_mod)

write_counted-all :
    {M : Type 0} (c : Codec M) (ms : List M) (output : Text) (n : ℕ)
    → n < u64_mod
    → write_counted c ms (output, n) ≡ (write_all c ms output, (n + length ms) % u64_mod)
unfolding write_counted write_all
write_counted-all c [] output n h = ap (λ (k : ℕ). (output, k)) (omega (arith, h))
write_counted-all c (m ∷ ms) output n h =
    write_counted-all c ms (write_message c m output).0 ((n + 1) % u64_mod) (omega arith)
    ∙ ap (λ (k : ℕ). (write_all c ms (write_message c m output).0, k)) (omega arith)

write_counted-append :
    {M : Type 0} (c : Codec M) (xs ms : List M) (base : Text)
    → write_counted c ms (all_written c xs base) ≡ all_written c (xs ++ ms) base
write_counted-append c xs ms base =
    write_counted-all c ms (write_all c xs base) (length xs % u64_mod) (omega arith)
    ∙ ap (λ (t : Text). (t, (length xs % u64_mod + length ms) % u64_mod))
        (sym (write_all-append_list c xs ms base))
    ∙ ap (λ (k : ℕ). (write_all c (xs ++ ms) base, k)) (omega (arith, length-append xs ms))

module _ (lib : JsonLibraries) (c : Codecs) (authors institutions works : Text) where
  -- The streams with the records of a snapshot behind what was in them.
  abbrev pub written : Snapshot → Outputs
  written s = record {
    authors_output = all_written c.authors s.authors authors;
    institutions_output = all_written c.institutions s.institutions institutions;
    works_output = all_written c.works s.works works;
  }

  write_line-written :
      (line : Line) (s : Snapshot) → write_line c line (written s) ≡ written (add_line line s)
  unfolding write_line
  write_line-written line s =
      rw
        (
          write_counted-append c.authors s.authors line.authors authors,
          write_counted-append c.institutions s.institutions line.institutions institutions,
          write_counted-append c.works s.works (line.work ∷ []) works,
        )
        refl

  abbrev pub SameEnd : List Text × Result Snapshot → Ended → Type 0
  SameEnd (seen, ok s) (seen', outputs, none) = (seen ≡ seen') × (outputs ≡ written s)
  SameEnd (seen, err x) (seen', outputs, some y) = (seen ≡ seen') × (x ≡ y)
  SameEnd (seen, ok s) (seen', outputs, some y) = ⊥
  SameEnd (seen, err x) (seen', outputs, none) = ⊥

  module _ (from_left : Bool) where
    next-SameEnd :
        (lines : List Text) (s : Snapshot)
        → ((t : Snapshot) (seen : List Text)
            → SameEnd
                (process_lines lib from_left lines t seen)
                (stream_lines lib c from_left lines (written t) seen))
        → (r : List Text × Result Line)
        → SameEnd
            (continue r (λ read. process_lines lib from_left lines (add_line read s)))
            (next_line c (stream_lines lib c from_left lines) (written s) r)
    next-SameEnd lines s rest (seen, ok line) =
        rw (write_line-written line s) (rest (add_line line s) seen)
    next-SameEnd lines s rest (seen, err e) = (refl, refl)

    lines-SameEnd :
        (lines : List Text) (s : Snapshot) (seen : List Text)
        → SameEnd
            (process_lines lib from_left lines s seen)
            (stream_lines lib c from_left lines (written s) seen)
    unfolding process_lines stream_lines
    lines-SameEnd [] s seen = (refl, refl)
    lines-SameEnd ([] ∷ lines) s seen = lines-SameEnd lines s seen
    lines-SameEnd ((x ∷ line) ∷ lines) s seen =
        next-SameEnd lines s (lines-SameEnd lines) (process_line lib from_left (x ∷ line) seen)

    -- Whatever the input, the ids seen before and the order of the three extractions, the two
    -- ways to process a snapshot have seen the same ids at their end, and both end normally or
    -- both with the same exception. In the first case the three streams have the records that the
    -- other returns written behind what was in them, in their order, and the counters are the
    -- numbers of the records modulo 2 ^ 64.
    pub stream_works_snapshot-SameEnd :
        (input : Text) (seen : List Text)
        → SameEnd
            (process_works_snapshot lib from_left input seen)
            (stream_works_snapshot lib c from_left input authors institutions works seen)
    unfolding process_works_snapshot stream_works_snapshot write_all
    stream_works_snapshot-SameEnd input seen = lines-SameEnd (lines_of input) no_records seen
