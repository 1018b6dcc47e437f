-- ===== src/Tests/SnapshotStreams.antt =====
-- The streams of a snapshot, read back.
use citescoop.Prelude.{refl, none, some, true, [], ◌∷◌, arith}
use citescoop.Prelude.Text.{codes}
use citescoop.Io.{write_all, write_message}
use citescoop.Io.RoundTrip.{FitReader}
use citescoop.OpenAlex.Streams.{Codecs, stream_works_snapshot}
use citescoop.OpenAlex.Streams.ReadBack.{
  AllReadBack, EndsReadable, stream_works_snapshot-EndsReadable,
}
use citescoop.Tests.OpenAlexRuns.{
  blank, json_libraries, read_work, processed, process_test, two_lines,
}

-- Classes of which every message has one byte and is read as that of the snapshot.
abbrev codecs : Codecs
codecs = record {
  authors =
      blank (record { openalex_id = codes "UNKNOWN_Ada"; name = some (codes "Ada"); orcid = none });
  institutions =
      blank (record { openalex_id = codes "UNKNOWN_R"; name = none; ror = some (codes "R") });
  works = blank read_work;
}

authors_fit : FitReader codecs.authors processed.authors
unfolding write_all write_message
authors_fit = omega arith

institutions_fit : FitReader codecs.institutions processed.institutions
unfolding write_all write_message
institutions_fit = omega arith

works_fit : FitReader codecs.works processed.works
unfolding write_all write_message
works_fit = omega arith

processed-AllReadBack : AllReadBack json_libraries codecs [] (codes "i") [] processed
processed-AllReadBack = (
  (((omega arith, λ rest. refl), tt), authors_fit),
  (((omega arith, λ rest. refl), tt), institutions_fit),
  (((omega arith, λ rest. refl), ((omega arith, λ rest. refl), tt)), works_fit),
)

stream_works_snapshot-EndsReadable_example :
    EndsReadable json_libraries codecs []
      (codes "i")
      []
      (codes "UNKNOWN_R" ∷ codes "UNKNOWN_Ada" ∷ [])
      processed
      (stream_works_snapshot json_libraries codecs true two_lines [] (codes "i") [] [])
stream_works_snapshot-EndsReadable_example =
    stream_works_snapshot-EndsReadable json_libraries codecs [] (codes "i") [] true two_lines []
      (codes "UNKNOWN_R" ∷ codes "UNKNOWN_Ada" ∷ []) processed process_test processed-AllReadBack
