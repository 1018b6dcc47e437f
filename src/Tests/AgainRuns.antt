-- ===== src/Tests/AgainRuns.antt =====
-- Dump parsers that are used again after an exception in the middle of a page.
use citescoop.Prelude.{true, false, ◌≡◌, refl, some, List, [], ◌∷◌, arith}
use citescoop.Prelude.Text.{codes, text_eq}
use citescoop.Proto.{empty_page, empty_revision, empty_citations}
use citescoop.Result.{invalid_argument}
use citescoop.Dump.State.{DumpParser, new_parser}
use citescoop.Dump.Handlers.{
  Event, start_element, parse_id, is_field, handle, on_start_element, on_characters, on_end_field,
  end_branch, on_end_element,
}
use citescoop.Dump.Run.{run, Stored, nothing_stored, store_in_memory}
use citescoop.Dump.Run.Field.{element}
use citescoop.Dump.Extract.{
  services, parse_xml, parse_xml_again, Streams, parse_xml_streaming_again,
}
use citescoop.Dump.Extract.Agreement.{EndsAlike}
use citescoop.Dump.Extract.Again.{
  next_streams, parse_xml_again-dump_events, parse_xml_streaming_again-EndsAlike,
}
use citescoop.Dump.Extract.Streaming.{IsCounting}
use citescoop.Tests.DumpPages.{padded, blank_page, padded-significant}
use citescoop.Tests.OpenAlexRuns.{blank}
use citescoop.Tests.Samples.{calls}

-- A page whose id is no number.
abbrev bad_page : List Event
bad_page = start_element (codes "page") ∷ element (codes "id") (codes "x" ∷ []) []

abbrev used : DumpParser Stored
used = (run (services store_in_memory calls) bad_page (new_parser nothing_stored)).0

used_threw :
    (run (services store_in_memory calls) bad_page (new_parser nothing_stored)).1
    ≡ some invalid_argument
unfolding run new_parser handle on_start_element on_characters on_end_element end_branch
    on_end_field is_field parse_id text_eq
used_threw = refl

parse_xml_again-dump_events_example : parse_xml_again calls padded used ≡ parse_xml calls padded
parse_xml_again-dump_events_example =
    parse_xml_again-dump_events calls padded blank_page used padded-significant

-- Streams to which three pages were written before.
abbrev three_pages : Streams
three_pages = record {
  pages_output = codes "p";
  revisions_output = codes "r";
  pages_written = 3;
  revisions_written = 0;
}

abbrev used_streaming : DumpParser Streams
used_streaming = record {
  in_page = true;
  in_revision = false;
  in_contributor = false;
  should_store = true;
  text_buf = codes "x";
  citations_by_revision = [];
  current_citations = empty_citations;
  current_page = empty_page;
  current_revision = empty_revision;
  current_page_revisions = [];
  revisions_to_store = [];
  output = three_pages;
}

three_pages-IsCounting : IsCounting (blank empty_page) (blank empty_revision) three_pages
three_pages-IsCounting = (omega arith, omega arith)

parse_xml_streaming_again-EndsAlike_example :
    EndsAlike
      (blank empty_page)
      (blank empty_revision)
      (next_streams (codes "q") [] used_streaming)
      (parse_xml calls padded)
      (parse_xml_streaming_again
        (blank empty_page)
        (blank empty_revision)
        calls
        padded
        (codes "q")
        []
        used_streaming)
parse_xml_streaming_again-EndsAlike_example =
    parse_xml_streaming_again-EndsAlike (blank empty_page) (blank empty_revision) calls (codes "q")
      [] used_streaming padded blank_page padded-significant three_pages-IsCounting
