-- ===== src/Tests/DumpRuns.antt =====
-- The dump parser on small dumps.
use citescoop.Prelude.{ℕ, ◌≡◌, refl, Option, none, some, List, [], ◌∷◌, ◌++◌}
use citescoop.Prelude.Text.{Text, codes, text_eq, text_lt}
use citescoop.Proto.{Revision, Citation, Page, empty_page, empty_revision}
use citescoop.Result.{ok, Returns}
use citescoop.StdMap.{Map, find, insert, put, erase, insert_range}
use citescoop.StdMap.Keys.{number_ord}
use citescoop.Dump.Citations.{earlier, make_page_citation_list}
use citescoop.Dump.Citations.PageList.{
  AllStored, PageCitations, StoredRevisions, make_page_citation_list-PageCitations,
  make_page_citation_list-StoredRevisions,
}
use citescoop.Dump.State.{DumpParser, Services, new_parser}
use citescoop.Dump.Handlers.{
  Event, start_element, end_element, parse_id, is_field, on_start_element, on_characters,
  on_end_page, on_end_revision, on_end_field, end_branch, on_end_element, handle,
}
use citescoop.Dump.Run.{run, start_parser, Reach, begin, Stored, nothing_stored, store_in_memory}
use citescoop.Dump.Run.Consistent.{PageEnd, PageEnd-Returns, run-Reach}
use citescoop.Dump.Run.Field.{element, in_page_only}
use citescoop.Dump.Run.Optional.{read_parent}
use citescoop.Dump.Run.RevisionElement.{
  RevisionXml, revision_events, textless_events, run-revision_events, run-textless_events,
}
use citescoop.Dump.Extract.{parse_xml, services}
use citescoop.Tests.Samples.{
  insertion_sort, insertion_sort-SortLaws, extracted, revision, cited, calls,
}

-- Three revisions, given out of order: "a" stays, "b" is removed, "c" is added, and "a" is away
-- for the second.
abbrev history : List citescoop.Proto.RevisionCitations
history =
    cited 3 30 (codes "a" ∷ codes "c" ∷ [])
    ∷ cited 1 10 (codes "b" ∷ codes "a" ∷ [])
    ∷ cited 2 20 []
    ∷ []

abbrev revisions_known : Map ℕ Revision
revisions_known = (1, revision 1 10) ∷ (2, revision 2 20) ∷ (3, revision 3 30) ∷ []

abbrev pub cite : Text → ℕ → Option ℕ → Citation
cite key added removed = record {
  citation = extracted key;
  revision_added = added;
  revision_removed = removed;
}

history_list :
    make_page_citation_list insertion_sort revisions_known history [] empty_page
    ≡ ok (
      record {
        page_id = 0;
        title = none;
        citations =
            cite (codes "a") 1 none ∷ cite (codes "b") 1 (some 2) ∷ cite (codes "c") 3 none ∷ [];
      },
      revisions_known,
    )
unfolding make_page_citation_list text_eq text_lt find insert put erase
history_list = refl

history_known : AllStored revisions_known history
unfolding find
history_known = (refl, (refl, (refl, tt)))

make_page_citation_list-PageCitations_example :
    Returns
      (make_page_citation_list insertion_sort revisions_known history [] empty_page)
      (λ r. PageCitations (insertion_sort earlier history) r.0.citations)
make_page_citation_list-PageCitations_example =
    make_page_citation_list-PageCitations insertion_sort insertion_sort-SortLaws revisions_known
      history empty_page history_known refl

make_page_citation_list-StoredRevisions_example :
    Returns
      (make_page_citation_list insertion_sort revisions_known history [] empty_page)
      (λ r. StoredRevisions revisions_known r.0.citations r.1)
make_page_citation_list-StoredRevisions_example =
    make_page_citation_list-StoredRevisions insertion_sort insertion_sort-SortLaws revisions_known
      history empty_page history_known refl

abbrev memory : Services Stored
memory = services store_in_memory calls

abbrev first_revision : RevisionXml
first_revision = record {
  id = codes "7" ∷ [];
  parent_id = some (codes "6" ∷ []);
  timestamp = some (codes "noon" ∷ []);
  contributor =
      some
        (record { username = some (codes "Ada" ∷ codes " L" ∷ []); id = some (codes "99" ∷ []) });
  text = codes "On " ∷ codes "Engines" ∷ [];
}

abbrev in_title : List Event → List Event
in_title es = start_element (codes "page") ∷ element (codes "title") (codes "T" ∷ []) es

-- A page with one revision, up to its end tag.
abbrev page_body : List Event
page_body = in_title (revision_events first_revision [])

abbrev first_read : Revision
first_read = record {
  revision_id = 7;
  parent_id = some 6;
  user = some (codes "Ada L");
  timestamp = some (calls.timestamp_from (codes "noon"));
}

page_parse :
    parse_xml calls (in_title (revision_events first_revision (end_element (codes "page") ∷ [])))
    ≡ ok (record {
      pages =
          record {
            page_id = 0;
            title = some (codes "T");
            citations = cite (codes "On Engines") 7 none ∷ [];
          }
          ∷ [];
      revisions = (7, first_read) ∷ [];
    })
unfolding parse_xml start_parser run handle on_start_element on_characters on_end_element end_branch
    on_end_page on_end_revision on_end_field is_field parse_id store_in_memory
    make_page_citation_list text_eq text_lt find insert put erase insert_range
page_parse = refl

body_fine : (run memory page_body (new_parser nothing_stored)).1 ≡ none
unfolding run new_parser handle on_start_element on_characters on_end_element end_branch
    on_end_revision on_end_field is_field parse_id text_eq insert find
body_fine = refl

body_state : Reach memory nothing_stored (run memory page_body (new_parser nothing_stored)).0
body_state = run-Reach memory insertion_sort-SortLaws page_body _ begin body_fine

PageEnd-Returns_example :
    Returns
      (handle memory
        (end_element (codes "page"))
        (run memory page_body (new_parser nothing_stored)).0)
      (PageEnd memory (run memory page_body (new_parser nothing_stored)).0)
PageEnd-Returns_example = PageEnd-Returns memory insertion_sort-SortLaws body_state

-- A text that is one title, between the title and the end of the page.
abbrev titled : DumpParser Stored
titled = (run memory (in_title []) (new_parser nothing_stored)).0

id_read : parse_id (codes "7") ≡ ok 7
unfolding parse_id
id_read = refl

parent_read : read_parent (some (codes "6" ∷ [])) ≡ ok (some 6)
unfolding parse_id
parent_read = refl

run-revision_events_example :
    run memory
      (revision_events first_revision (end_element (codes "page") ∷ []))
      (in_page_only titled)
    ≡ run memory (end_element (codes "page") ∷ []) (
        in_page_only (record (titled) {
          text_buf = codes "On Engines";
          citations_by_revision =
              titled.citations_by_revision
              ++ record {
                revision = some first_read;
                citations = (codes "On Engines", extracted (codes "On Engines")) ∷ [];
              }
                ∷ [];
          current_citations = record {
            revision = some first_read;
            citations = (codes "On Engines", extracted (codes "On Engines")) ∷ [];
          };
          current_revision = empty_revision;
          current_page_revisions = insert 7 first_read titled.current_page_revisions;
        }))
run-revision_events_example =
    run-revision_events memory first_revision titled (end_element (codes "page") ∷ []) 7 (some 6)
      (record {
        revision = none;
        citations = (codes "On Engines", extracted (codes "On Engines")) ∷ [];
      })
      id_read parent_read refl

-- The same page with a second revision behind the first, without a text.
abbrev after_first : DumpParser Stored
after_first = (run memory page_body (new_parser nothing_stored)).0

run-textless_events_example :
    run memory (textless_events (codes "7" ∷ []) []) (in_page_only after_first)
    ≡ run memory [] (
        in_page_only (record (after_first) {
          text_buf = codes "7";
          citations_by_revision =
              after_first.citations_by_revision
              ++ record (after_first.current_citations) {
                revision = some (record (after_first.current_revision) { revision_id = 7 });
              }
                ∷ [];
          current_citations = record (after_first.current_citations) {
            revision = some (record (after_first.current_revision) { revision_id = 7 });
          };
          current_revision = empty_revision;
          current_page_revisions =
              insert 7
                (record (after_first.current_revision) { revision_id = 7 })
                after_first.current_page_revisions;
        }))
run-textless_events_example = run-textless_events memory (codes "7" ∷ []) 7 after_first [] id_read
