-- ===== src/Dump/Extract/Agreement.antt =====
-- The two ways to parse a dump agree on every input.
use citescoop.Prelude.{◌≡◌, refl, Option, none, some, List, [], arith}
use citescoop.Prelude.Text.{Text}
use citescoop.Proto.{Revision, Page}
use citescoop.Result.{Error, Result, ok, err}
use citescoop.StdMap.{find}
use citescoop.StdMap.Keys.{number_ord}
use citescoop.Io.{Codec}
use citescoop.Dump.State.{DumpParser}
use citescoop.Dump.Handlers.{Event}
use citescoop.Dump.Run.{start_parser, Stored, nothing_stored, store_in_memory}
use citescoop.Dump.Run.Output.{with_output}
use citescoop.Dump.Extract.{
  Calls, services, finish, parse_xml, Streams, store_streaming, parse_xml_streaming,
}
use citescoop.Dump.Extract.Streaming.{
  Log, keep_log, replay, start_parser-log, entries_of, in_memory-pages, in_memory-revisions,
  streaming-Wrote, IsCounting, Agrees,
}

abbrev pub streams_at : Text → Text → Streams
streams_at pages_output revisions_output = record {
  pages_output = pages_output;
  revisions_output = revisions_output;
  pages_written = 0;
  revisions_written = 0;
}

module _ (pages : Codec Page) (revisions : Codec Revision) (before : Streams) where
  -- Both parses end normally, and what the second has written behind `before` is what the first
  -- returns, or both end with the same exception.
  abbrev pub EndsAlike : Result Stored → Streams × Option Error → Type 0
  EndsAlike (ok stored) (streams, none) = Agrees pages revisions stored before streams
  EndsAlike (ok stored) (streams, some x) = ⊥
  EndsAlike (err x) (streams, none) = ⊥
  EndsAlike (err x) (streams, some y) = x ≡ y

  module _ (counting : IsCounting pages revisions before) where
    log-Agrees :
        (log : Log)
        → Agrees pages revisions
            (replay store_in_memory nothing_stored log)
            before
            (replay (store_streaming pages revisions) before log)
    unfolding find
    log-Agrees log = record {
      entries = entries_of log;
      same_revisions = λ id. in_memory-revisions log nothing_stored id;
      wrote =
          rw (in_memory-pages log nothing_stored)
            (streaming-Wrote pages revisions log before counting);
    }

    pub ends-EndsAlike :
        (r : DumpParser Log × Option Error)
        → EndsAlike
            (finish
              (λ stored. stored)
              (with_output (replay store_in_memory nothing_stored) r.0, r.1))
            (replay (store_streaming pages revisions) before r.0.output, r.1)
    ends-EndsAlike (p, none) = log-Agrees p.output
    ends-EndsAlike (p, some x) = refl

module _ (pages : Codec Page) (revisions : Codec Revision) (c : Calls) (events : List Event)
    (out_pages out_revisions : Text) where
  abbrev pub SameEnd : Result Stored → Streams × Option Error → Type 0
  SameEnd = EndsAlike pages revisions (streams_at out_pages out_revisions)

  -- Whatever the events of a dump, the parse in memory and the streaming parse, from new objects,
  -- both end normally or both end with the same exception. In the first case the pages written
  -- behind what was in the first stream are those returned, in their order; the revisions written
  -- behind what was in the second stream have, for each id, the returned revision of that id as
  -- their first; and the counters are the numbers of both modulo 2 ^ 64.
  pub parse_xml-streaming :
      SameEnd
        (parse_xml c events)
        (parse_xml_streaming pages revisions c events out_pages out_revisions)
  unfolding parse_xml parse_xml_streaming
  parse_xml-streaming =
      rw
        (
          start_parser-log store_in_memory c events nothing_stored,
          start_parser-log (store_streaming pages revisions) c events
              (streams_at out_pages out_revisions),
        )
        (ends-EndsAlike pages revisions (streams_at out_pages out_revisions)
          (omega arith, omega arith) (start_parser (services keep_log c) events []))
