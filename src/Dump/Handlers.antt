-- ===== src/Dump/Handlers.antt =====
-- The handlers of the SAX events, with the two ends of an element that do the work.
use citescoop.Prelude.{ℕ, Bool, true, false, not, ◌&&◌, ◌||◌, some, [], ◌∷◌, ◌++◌, if◌then◌else◌}
use citescoop.Prelude.Text.{Text, codes, text_eq}
use citescoop.Proto.{empty_page, empty_revision}
use citescoop.Numbers.{stol, to_unsigned, u64_mod}
use citescoop.Result.{Result, ok, err, ◌>>=◌}
use citescoop.Exceptions.{dump_parse_error}
use citescoop.StdMap.{insert}
use citescoop.StdMap.Keys.{number_ord}
use citescoop.Dump.Citations.{make_page_citation_list}
use citescoop.Dump.State.{DumpParser, Services}

-- A call of a handler by the SAX parser.
pub data Event : Type 0 where
  start_element end_element characters warning error fatal_error : Text → Event

-- static_cast<uint64_t>(std::stol(text_buf_))
unfoldable pub parse_id : Text → Result ℕ
unfolding stol to_unsigned
parse_id text = do n ← stol text; ok (to_unsigned u64_mod n)

-- The elements whose text is kept, by the flags in_page_ and in_revision_.
unfoldable pub is_field : Bool → Bool → Text → Bool
is_field in_page in_revision name =
    in_page && text_eq name (codes "title")
    || in_page && text_eq name (codes "id")
    || in_revision && text_eq name (codes "id")
    || in_revision && text_eq name (codes "parentid")
    || in_revision && text_eq name (codes "username")
    || in_revision && text_eq name (codes "text")
    || in_revision && text_eq name (codes "timestamp")

module _ {O : Type 0} where
  -- The elements whose text is kept.
  unfoldable pub on_start_element : Text → DumpParser O → DumpParser O
  on_start_element name p =
      let q : DumpParser O = record p { text_buf = [] } in
      if text_eq name (codes "page")
      then record q { in_page = true }
      else if text_eq name (codes "revision")
      then record q { in_revision = true }
      else if text_eq name (codes "contributor")
      then record q { in_contributor = true }
      else if is_field q.in_page q.in_revision name
      then record q { should_store = true }
      else q

  unfoldable pub on_characters : Text → DumpParser O → DumpParser O
  on_characters text p = if p.should_store then record p { text_buf = p.text_buf ++ text } else p

  abbrev pub stop_storing : DumpParser O → DumpParser O
  stop_storing p = if p.should_store then record p { should_store = false } else p

  module _ (s : Services O) where
    unfoldable pub on_end_page : DumpParser O → Result (DumpParser O)
    on_end_page p = do
      (page, to_store) ←
          make_page_citation_list s.sort p.current_page_revisions p.citations_by_revision
            p.revisions_to_store p.current_page
      ok (record p {
        in_page = false;
        output = s.store to_store page p.output;
        current_page = empty_page;
        current_page_revisions = [];
        citations_by_revision = [];
        revisions_to_store = [];
      })

    unfoldable pub on_end_revision : DumpParser O → DumpParser O
    on_end_revision p =
        let citations = record (p.current_citations) { revision = some p.current_revision } in
        record p {
          in_revision = false;
          current_citations = citations;
          citations_by_revision = p.citations_by_revision ++ citations ∷ [];
          current_page_revisions =
              insert p.current_revision.revision_id p.current_revision p.current_page_revisions;
          current_revision = empty_revision;
        }

    unfoldable pub on_end_field : Text → DumpParser O → Result (DumpParser O)
    on_end_field name p =
        if p.in_page && text_eq name (codes "title")
        then ok (record p { current_page = record (p.current_page) { title = some p.text_buf } })
        else if p.in_page && not p.in_revision && not p.in_contributor && text_eq name (codes "id")
        then (do
          id ← parse_id p.text_buf
          ok (record p { current_page = record (p.current_page) { page_id = id } }))
        else if p.in_revision && not p.in_contributor && text_eq name (codes "id")
        then (do
          id ← parse_id p.text_buf
          ok (record p { current_revision = record (p.current_revision) { revision_id = id } }))
        else if p.in_revision && text_eq name (codes "parentid")
        then (do
          id ← parse_id p.text_buf
          ok (record p { current_revision = record (p.current_revision) { parent_id = some id } }))
        else if p.in_revision && text_eq name (codes "username")
        then ok
            (record p { current_revision = record (p.current_revision) { user = some p.text_buf } })
        else if p.in_revision && text_eq name (codes "text")
        then (do citations ← s.parse p.text_buf; ok (record p { current_citations = citations }))
        else if p.in_revision && text_eq name (codes "timestamp")
        then ok (record p {
          current_revision = record (p.current_revision) {
            timestamp = some (s.timestamp_from p.text_buf);
          };
        })
        else ok p

    -- The branches of on_end_element, by the name of the element.
    unfoldable pub end_branch : Text → DumpParser O → Result (DumpParser O)
    end_branch name p =
        if text_eq name (codes "page")
        then on_end_page p
        else if text_eq name (codes "revision")
        then ok (on_end_revision p)
        else if text_eq name (codes "contributor")
        then ok (record p { in_contributor = false })
        else on_end_field name p

    unfoldable pub on_end_element : Text → DumpParser O → Result (DumpParser O)
    on_end_element name p = do q ← end_branch name p; ok (stop_storing q)

    -- The events of malformed XML throw, whatever the state.
    abbrev pub on_warning : Text → Result (DumpParser O)
    on_warning text = err (dump_parse_error text)

    abbrev pub on_error : Text → Result (DumpParser O)
    on_error text = err (dump_parse_error text)

    abbrev pub on_fatal_error : Text → Result (DumpParser O)
    on_fatal_error text = err (dump_parse_error text)

    -- What one event does; the exception that it throws ends the parse.
    unfoldable pub handle : Event → DumpParser O → Result (DumpParser O)
    handle (start_element name) p = ok (on_start_element name p)
    handle (end_element name) p = on_end_element name p
    handle (characters text) p = ok (on_characters text p)
    handle (warning text) p = on_warning text
    handle (error text) p = on_error text
    handle (fatal_error text) p = on_fatal_error text
