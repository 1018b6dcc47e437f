-- ===== src/OpenAlex/Streams.antt =====
-- ProcessWorksSnapshot of the processor of OpenAlex snapshots, as it writes to three streams.
pub mod Agreement
pub mod ReadBack
use citescoop.Prelude.{ℕ, ◌+◌, ◌%◌, Bool, Option, none, some, List, [], ◌∷◌}
use citescoop.Prelude.Text.{Text}
use citescoop.Proto.{Author, Institution, Work}
use citescoop.Numbers.{u64_mod}
use citescoop.Result.{Error, Result, ok, err}
use citescoop.Io.{Codec, write_message}
use citescoop.OpenAlex.{JsonLibraries}
use citescoop.OpenAlex.Snapshot.{Step, Line, process_line, lines_of}

-- A stream and the counter of its messages, a uint64_t.
abbrev pub Counted : Type 0
Counted = Text × ℕ

unfoldable pub write_counted : {M : Type 0} → Codec M → List M → Counted → Counted
unfolding write_message
write_counted c [] counted = counted
write_counted c (m ∷ ms) counted =
    write_counted c ms ((write_message c m counted.0).0, (counted.1 + 1) % u64_mod)

pub record Outputs : Type 0 where
  pub authors_output : Counted
  pub institutions_output : Counted
  pub works_output : Counted

pub record Codecs : Type 0 where
  pub authors : Codec Author
  pub institutions : Codec Institution
  pub works : Codec Work

unfoldable pub write_line : Codecs → Line → Outputs → Outputs
unfolding write_counted
write_line c line outputs = record {
  authors_output = write_counted c.authors line.authors outputs.authors_output;
  institutions_output = write_counted c.institutions line.institutions outputs.institutions_output;
  works_output = write_counted c.works (line.work ∷ []) outputs.works_output;
}

-- The ids seen, the streams and their counters, and the exception that ended the loop.
abbrev pub Ended : Type 0
Ended = List Text × Outputs × Option Error

-- The loop goes on behind a line that was read, and ends with an exception.
abbrev pub next_line :
    Codecs → (Outputs → List Text → Ended) → Outputs → List Text × Result Line → Ended
next_line c go outputs (seen, ok line) = go (write_line c line outputs) seen
next_line c go outputs (seen, err e) = (seen, outputs, some e)

module _ (lib : JsonLibraries) (c : Codecs) where
  unfoldable pub stream_lines : Bool → List Text → Outputs → List Text → Ended
  unfolding process_line write_line
  stream_lines from_left [] outputs seen = (seen, outputs, none)
  stream_lines from_left ([] ∷ lines) outputs seen = stream_lines from_left lines outputs seen
  stream_lines from_left ((x ∷ line) ∷ lines) outputs seen =
      next_line c (stream_lines from_left lines) outputs
        (process_line lib from_left (x ∷ line) seen)

  abbrev pub new_outputs : Text → Text → Text → Outputs
  new_outputs authors institutions works = record {
    authors_output = (authors, 0);
    institutions_output = (institutions, 0);
    works_output = (works, 0);
  }

  unfoldable pub stream_works_snapshot : Bool → Text → Text → Text → Text → List Text → Ended
  unfolding stream_lines lines_of
  stream_works_snapshot from_left input authors institutions works =
      stream_lines from_left (lines_of input) (new_outputs authors institutions works)
