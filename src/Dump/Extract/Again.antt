-- ===== src/Dump/Extract/Again.antt =====
-- A dump parser that is used more than once.
use citescoop.Prelude.{◌≡◌, refl, false, sym, ap, subst, ◌∙◌, List, []}
use citescoop.Prelude.Text.{Text}
use citescoop.Proto.{Revision, Page}
use citescoop.Io.{Codec}
use citescoop.StdMap.Keys.{number_ord}
use citescoop.Dump.State.{DumpParser, initialize_parser}
use citescoop.Dump.Handlers.{Event}
use citescoop.Dump.Run.Output.{with_output, run-with_output}
use citescoop.Dump.Extract.Streaming.{Log, keep_log, replay, IsCounting}
use citescoop.Dump.Extract.Agreement.{EndsAlike, ends-EndsAlike}
use mathlib.Core.List.{foldl-append}
use citescoop.Dump.Run.{run, restart_parser, Stored, nothing_stored, store_in_memory}
use citescoop.Dump.Extract.{
  Calls, services, parse_xml, parse_xml_again, finish, Streams, store_streaming,
  parse_xml_streaming_again,
}
use citescoop.Dump.Extract.Pages.{PageXml, dump_events}
use citescoop.Dump.Extract.Ending.{between, ending}
use citescoop.Dump.Extract.Others.{ending-significant}
use citescoop.Dump.Extract.Padded.{fields_closed-padded, parse_xml-read_pages}
use citescoop.Dump.Extract.Significant.{significant}
use citescoop.Dump.Extract.Refines.{ending-pages}

-- On events that are those of a dump, in which each revision has an id and a text and the other
-- fields or not, but for the tags of elements that the dump parser does not know and for text
-- outside of fields: the parse in memory by an object that was used before, whatever its state, be
-- it after an exception in the middle of a page, returns or throws what that of a new object does.
-- Since each revision has a text, nothing of an earlier dump is among the pages or in their
-- citations.
pub parse_xml_again-dump_events :
    (c : Calls) (events : List Event) (xs : List PageXml) (p : DumpParser Stored)
    → significant false events ≡ dump_events xs
    → parse_xml_again c events p ≡ parse_xml c events
unfolding parse_xml_again restart_parser initialize_parser
parse_xml_again-dump_events c events xs p h =
    let start = between nothing_stored p.text_buf p.current_citations in
    let s = services store_in_memory c in
    ending-significant s events false start start (fields_closed-padded events xs h)
      (refl, p.text_buf, refl)
    ∙ ap (λ es. ending s es start) h
    ∙ ending-pages s xs nothing_stored p.text_buf p.current_citations
    ∙ sym (parse_xml-read_pages c events xs h)

-- The streams at the beginning of the next parse, with the counters of the parses before.
abbrev pub next_streams : Text → Text → DumpParser Streams → Streams
next_streams out_pages out_revisions p = record (p.output) {
  pages_output = out_pages;
  revisions_output = out_revisions;
}

module _ (pages : Codec Page) (revisions : Codec Revision) (c : Calls)
    (out_pages out_revisions : Text) (p : DumpParser Streams) where
  -- The object, with a log in the place of its streams.
  abbrev logging : DumpParser Log
  logging = with_output (λ streams. []) (initialize_parser p)

  streaming_log :
      (events : List Event)
      → parse_xml_streaming_again pages revisions c events out_pages out_revisions p ≡ (
        replay
            (store_streaming pages revisions)
            (next_streams out_pages out_revisions p)
            (run (services keep_log c) events logging).0.output,
        (run (services keep_log c) events logging).1,
      )
  unfolding parse_xml_streaming_again restart_parser initialize_parser
  streaming_log events =
      ap (λ r. (r.0.output, r.1))
        (run-with_output (services keep_log c) (store_streaming pages revisions)
          (replay (store_streaming pages revisions) (next_streams out_pages out_revisions p))
          (λ to_store page log. rw foldl-append) events logging)

  memory_log :
      (events : List Event)
      → parse_xml_again c events (with_output (λ streams. nothing_stored) p)
        ≡ finish
            (λ stored. stored)
            (
              with_output
                  (replay store_in_memory nothing_stored)
                  (run (services keep_log c) events logging).0,
              (run (services keep_log c) events logging).1,
            )
  unfolding parse_xml_again restart_parser initialize_parser
  memory_log events = ap (finish (λ stored. stored)) (
      run-with_output (services keep_log c) store_in_memory (replay store_in_memory nothing_stored)
        (λ to_store page log. rw foldl-append) events logging)

  -- On events that are those of a dump, in which each revision has an id and a text and the other
  -- fields or not, but for the tags of elements that the dump parser does not know and for text
  -- outside of fields: the streaming parse by an object that was used before, whatever its state,
  -- but with counters below 2 ^ 64, throws what the parse in memory by a new object throws, or both
  -- return. Then the pages returned stand behind what was in the new first stream, in their order,
  -- and revisions behind what was in the second of which the first of each id is the one returned
  -- for it; but the counters go on from those of the parses before, modulo 2 ^ 64.
  pub parse_xml_streaming_again-EndsAlike :
      (events : List Event) (xs : List PageXml)
      → significant false events ≡ dump_events xs
      → IsCounting pages revisions p.output
      → EndsAlike pages revisions
          (next_streams out_pages out_revisions p)
          (parse_xml c events)
          (parse_xml_streaming_again pages revisions c events out_pages out_revisions p)
  parse_xml_streaming_again-EndsAlike events xs h counting =
      subst
        (λ m.
          EndsAlike pages revisions (next_streams out_pages out_revisions p) m
            (parse_xml_streaming_again pages revisions c events out_pages out_revisions p))
        (parse_xml_again-dump_events c events xs (with_output (λ streams. nothing_stored) p) h)
        (rw (memory_log events, streaming_log events)
          (ends-EndsAlike pages revisions (next_streams out_pages out_revisions p) counting
            (run (services keep_log c) events logging)))
