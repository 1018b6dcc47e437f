-- ===== src/Tests/DumpPages.antt =====
-- A dump with two pages, and the whole parse of it.
use citescoop.Prelude.{
  ◌%◌, ◌≡◌, refl, true, false, Option, none, some, List, [], ◌∷◌, ◌++◌, arith, All,
}
use citescoop.Prelude.Text.{Text, codes, text_eq, text_lt}
use citescoop.Result.{Error, ok, Returns, IfReturns}
use citescoop.Dump.Handlers.{
  Event, start_element, end_element, characters, parse_id, is_field, handle, on_start_element,
  on_characters, on_end_element, end_branch, on_end_page, on_end_revision, on_end_field,
}
use citescoop.Dump.Citations.{make_page_citation_list}
use citescoop.StdMap.{find, insert, put, erase, insert_range}
use citescoop.StdMap.Keys.{number_ord}
use citescoop.Dump.Run.Field.{element}
use citescoop.Dump.Run.{Stored}
use citescoop.Dump.Run.{run, start_parser, nothing_stored, store_in_memory}
use citescoop.Dump.Run.RevisionElement.{RevisionXml}
use citescoop.Dump.Extract.{parse_xml, services, Streams, parse_xml_streaming}
use citescoop.Dump.Extract.Pages.{PageXml, dump_events, read_pages}
use citescoop.Dump.Extract.Readable.{PagesReadable, PagesOf, memory, parse_xml-PagesOf}
use citescoop.Dump.Extract.Significant.{is_known, opened, counts, fits, significant, fields_closed}
use citescoop.Dump.Extract.Others.{parse_xml-significant}
use citescoop.Dump.Extract.Padded.{parse_xml-read_pages, parse_xml-PagesOf_padded}
use citescoop.Dump.Extract.Named.{AllNamed, parse_xml-AllNamed}
use citescoop.Proto.{Revision, Page, empty_revision}
use citescoop.Numbers.{u64_mod}
use citescoop.Io.{write_all, write_message}
use citescoop.Io.RoundTrip.{ReadsBack, FitReader, read_all}
use citescoop.Dump.Extract.ReadBack.{parse_xml_streaming-read_all}
use citescoop.Tests.DumpRuns.{cite}
use citescoop.Tests.OpenAlexRuns.{blank}
use citescoop.Tests.Samples.{calls, insertion_sort-SortLaws}

-- A first revision has no parent.
abbrev pub version : Text → Option (List Text) → Text → Text → RevisionXml
version id parent_id time text = record {
  id = id ∷ [];
  parent_id = parent_id;
  timestamp = some (time ∷ []);
  contributor =
      some
        (record { username = some (codes "Ada" ∷ codes " L" ∷ []); id = some (codes "99" ∷ []) });
  text = text ∷ [];
}

abbrev pub newer : RevisionXml
newer = version (codes "8") (some (codes "7" ∷ [])) (codes "later") (codes "New")

abbrev pub older : RevisionXml
older = version (codes "7") none (codes "noon") (codes "Old")

-- A revision without a time, whose contributor is hidden.
abbrev hidden : RevisionXml
hidden = record {
  id = codes "9" ∷ [];
  parent_id = none;
  timestamp = none;
  contributor = some (record { username = none; id = none });
  text = codes "Old" ∷ [];
}

-- The first page has one revision; the second page has two, the later one first.
abbrev pub two_pages : List PageXml
two_pages =
    record { title = codes "Blank" ∷ []; id = codes "4" ∷ []; revisions = hidden ∷ [] }
    ∷ record {
      title = codes "Eng" ∷ codes "ines" ∷ [];
      id = codes " 5" ∷ [];
      revisions = newer ∷ older ∷ [];
    }
    ∷ []

two_pages-significant : significant false (dump_events two_pages) ≡ dump_events two_pages
unfolding significant opened counts is_known is_field text_eq
two_pages-significant = refl

two_pages_readable : PagesReadable (services store_in_memory calls) two_pages
unfolding parse_id
two_pages_readable = ((tt, ((tt, tt, tt), tt)), ((tt, ((tt, tt, tt), ((tt, tt, tt), tt))), tt))

-- A page as a dump has it, with white space and elements of no interest, and a tag of the whole
-- dump around the pages.
abbrev padded_contributor : List Event → List Event
padded_contributor es =
    start_element (codes "contributor")
    ∷ element (codes "username") (codes "Ada" ∷ codes " L" ∷ [])
        (element (codes "id") (codes "99" ∷ []) (end_element (codes "contributor") ∷ es))

abbrev padded_revision : List Event → List Event
padded_revision es =
    start_element (codes "revision")
    ∷ characters (codes " ")
    ∷ element (codes "id") (codes "7" ∷ []) (
        element (codes "timestamp") (codes "noon" ∷ []) (
          padded_contributor (
            element (codes "comment") (codes "new" ∷ []) (
              element (codes "model") (codes "wikitext" ∷ []) (
                element (codes "text") (codes "Old" ∷ []) (
                  element (codes "sha1") (codes "0" ∷ [])
                    (end_element (codes "revision") ∷ es)))))))

abbrev pub padded : List Event
padded =
    start_element (codes "mediawiki")
    ∷ characters (codes " ")
    ∷ start_element (codes "page")
    ∷ characters (codes " ")
    ∷ element (codes "title") (codes "Blank" ∷ []) (
        element (codes "ns") (codes "0" ∷ []) (
          element (codes "id") (codes "4" ∷ []) (
            characters (codes " ")
            ∷ padded_revision (end_element (codes "page") ∷ end_element (codes "mediawiki") ∷ []))))

abbrev pub blank_page : List PageXml
blank_page = record { title = codes "Blank" ∷ []; id = codes "4" ∷ []; revisions = older ∷ [] } ∷ []

pub padded-significant : significant false padded ≡ dump_events blank_page
unfolding significant opened counts is_known is_field text_eq
padded-significant = refl

parse_xml-read_pages_example :
    parse_xml calls padded ≡ read_pages (memory calls) blank_page nothing_stored
parse_xml-read_pages_example = parse_xml-read_pages calls padded blank_page padded-significant

padded_closed : fields_closed false padded ≡ true
unfolding fields_closed fits opened is_known is_field text_eq
padded_closed = refl

blank_page_readable : PagesReadable (memory calls) blank_page
unfolding parse_id
blank_page_readable = ((tt, ((tt, tt, tt), tt)), tt)

parse_xml-significant_example : parse_xml calls padded ≡ parse_xml calls (significant false padded)
parse_xml-significant_example = parse_xml-significant calls padded padded_closed

parse_xml-PagesOf_padded_example :
    Returns (parse_xml calls padded) (λ stored. PagesOf calls blank_page stored.pages)
parse_xml-PagesOf_padded_example =
    parse_xml-PagesOf_padded calls insertion_sort-SortLaws padded blank_page padded-significant
      blank_page_readable

two_pages-PagesOf :
    Returns
      (parse_xml calls (dump_events two_pages))
      (λ stored. PagesOf calls two_pages stored.pages)
two_pages-PagesOf = parse_xml-PagesOf calls insertion_sort-SortLaws two_pages two_pages_readable

parse_xml-AllNamed_example : IfReturns (parse_xml calls (dump_events two_pages)) AllNamed
parse_xml-AllNamed_example =
    parse_xml-AllNamed calls insertion_sort-SortLaws (dump_events two_pages)

abbrev pub read_older : Revision
read_older = record {
  revision_id = 7;
  parent_id = none;
  user = some (codes "Ada L");
  timestamp = some (calls.timestamp_from (codes "noon"));
}

abbrev blank_read : Page
blank_read = record {
  page_id = 4;
  title = some (codes "Blank");
  citations = cite (codes "Old") 7 none ∷ [];
}

abbrev blank_stored : Stored
blank_stored = record { pages = blank_read ∷ []; revisions = (7, read_older) ∷ [] }

padded_parse : parse_xml calls padded ≡ ok blank_stored
unfolding parse_xml start_parser run handle on_start_element on_characters on_end_element end_branch
    on_end_page on_end_revision on_end_field is_field parse_id store_in_memory
    make_page_citation_list text_eq text_lt find insert put erase insert_range
padded_parse = refl

blank-ReadsBack : All (ReadsBack (blank blank_read)) (blank_read ∷ [])
blank-ReadsBack = ((omega arith, λ rest. refl), tt)

blank_fits : FitReader (blank blank_read) (blank_read ∷ [])
unfolding write_all write_message
blank_fits = omega arith

abbrev streamed : Streams × Option Error
streamed =
    parse_xml_streaming (blank blank_read) (blank empty_revision) calls padded (codes "p")
      (codes "r")

parse_xml_streaming-read_all_example :
    (streamed.1 ≡ none)
    × ((written : Text) × (streamed.0.pages_output ≡ codes "p" ++ written)
        × (read_all (blank blank_read) 1 written
            ≡ some (blank_read ∷ [], record { coded_stream = [] })))
    × (streamed.0.pages_written ≡ 1 % u64_mod)
parse_xml_streaming-read_all_example =
    parse_xml_streaming-read_all (blank blank_read) (blank empty_revision) calls padded (codes "p")
      (codes "r") blank_stored padded_parse blank-ReadsBack blank_fits
