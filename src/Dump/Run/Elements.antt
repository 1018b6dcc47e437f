-- ===== src/Dump/Run/Elements.antt =====
-- The elements within a revision of a dump, one step of the handlers after the other.
use citescoop.Prelude.{ℕ, ◌≡◌, refl, Bool, true, false, some, List, []}
use citescoop.Prelude.Text.{Text, codes, text_eq}
use citescoop.Proto.{Revision, RevisionCitations}
use citescoop.Result.{Error, ok, err}
use citescoop.StdMap.Keys.{number_ord}
use citescoop.Dump.State.{DumpParser, Services}
use citescoop.Dump.Handlers.{
  Event, start_element, end_element, parse_id, is_field, on_start_element, on_end_revision,
  on_end_field, end_branch, on_end_element, handle,
}
use citescoop.Dump.Run.{run}
use citescoop.Dump.Run.Field.{
  concat, element, in_page_only, storing, inside, run-field, run-field_err,
}

module _ {O : Type 0} (s : Services O) where
  module _ (pieces : List Text) (p : DumpParser O) (es : List Event) where
    abbrev pub text : Text
    text = concat pieces

    -- The state after a field of the revision, whose record is then `r`.
    abbrev pub with_revision : Bool → Revision → DumpParser O
    with_revision contributor r =
        inside contributor (record p { text_buf = concat pieces; current_revision = r })

    pub run-id :
        (n : ℕ)
        → parse_id text ≡ ok n
        → run s (element (codes "id") pieces es) (inside false p)
          ≡ run s es (with_revision false (record (p.current_revision) { revision_id = n }))
    unfolding text_eq is_field on_end_field
    run-id n h =
        run-field s (codes "id") refl refl refl pieces (inside false p) es refl
          (record (storing text (inside false p)) {
            current_revision = record (p.current_revision) { revision_id = n };
          })
          (rw h)

    pub run-parentid :
        (n : ℕ)
        → parse_id text ≡ ok n
        → run s (element (codes "parentid") pieces es) (inside false p)
          ≡ run s es (with_revision false (record (p.current_revision) { parent_id = some n }))
    unfolding text_eq is_field on_end_field
    run-parentid n h =
        run-field s (codes "parentid") refl refl refl pieces (inside false p) es refl
          (record (storing text (inside false p)) {
            current_revision = record (p.current_revision) { parent_id = some n };
          })
          (rw h)

    pub run-timestamp :
        run s (element (codes "timestamp") pieces es) (inside false p)
        ≡ run s es (
            with_revision false
              (record (p.current_revision) { timestamp = some (s.timestamp_from text) }))
    unfolding text_eq is_field on_end_field
    run-timestamp =
        run-field s (codes "timestamp") refl refl refl pieces (inside false p) es refl _ refl

    pub run-username :
        run s (element (codes "username") pieces es) (inside true p)
        ≡ run s es (with_revision true (record (p.current_revision) { user = some text }))
    unfolding text_eq is_field on_end_field
    run-username =
        run-field s (codes "username") refl refl refl pieces (inside true p) es refl _ refl

    pub run-contributor_id :
        run s (element (codes "id") pieces es) (inside true p)
        ≡ run s es (with_revision true p.current_revision)
    unfolding text_eq is_field on_end_field
    run-contributor_id =
        run-field s (codes "id") refl refl refl pieces (inside true p) es refl _ refl

    pub run-text :
        (citations : RevisionCitations)
        → s.parse text ≡ ok citations
        → run s (element (codes "text") pieces es) (inside false p)
          ≡ run s es (inside false (record p { text_buf = text; current_citations = citations }))
    unfolding text_eq is_field on_end_field
    run-text citations h =
        run-field s (codes "text") refl refl refl pieces (inside false p) es refl
          (record (storing text (inside false p)) { current_citations = citations }) (rw h)

    pub run-id_err :
        (x : Error)
        → parse_id text ≡ err x
        → run s (element (codes "id") pieces es) (inside false p)
          ≡ (storing text (inside false p), some x)
    unfolding text_eq is_field on_end_field
    run-id_err x h =
        run-field_err s (codes "id") refl refl refl pieces (inside false p) es refl x (rw h)

    pub run-parentid_err :
        (x : Error)
        → parse_id text ≡ err x
        → run s (element (codes "parentid") pieces es) (inside false p)
          ≡ (storing text (inside false p), some x)
    unfolding text_eq is_field on_end_field
    run-parentid_err x h =
        run-field_err s (codes "parentid") refl refl refl pieces (inside false p) es refl x (rw h)

    pub run-text_err :
        (x : Error)
        → s.parse text ≡ err x
        → run s (element (codes "text") pieces es) (inside false p)
          ≡ (storing text (inside false p), some x)
    unfolding text_eq is_field on_end_field
    run-text_err x h =
        run-field_err s (codes "text") refl refl refl pieces (inside false p) es refl x (rw h)

    -- The fields of a page.
    pub run-title :
        run s (element (codes "title") pieces es) (in_page_only p)
        ≡ run s es (
            in_page_only (record p {
              text_buf = text;
              current_page = record (p.current_page) { title = some text };
            }))
    unfolding text_eq is_field on_end_field
    run-title = run-field s (codes "title") refl refl refl pieces (in_page_only p) es refl _ refl

    pub run-page_id :
        (n : ℕ)
        → parse_id text ≡ ok n
        → run s (element (codes "id") pieces es) (in_page_only p)
          ≡ run s es (
              in_page_only (record p {
                text_buf = text;
                current_page = record (p.current_page) { page_id = n };
              }))
    unfolding text_eq is_field on_end_field
    run-page_id n h =
        run-field s (codes "id") refl refl refl pieces (in_page_only p) es refl
          (record (storing text (in_page_only p)) {
            current_page = record (p.current_page) { page_id = n };
          })
          (rw h)

    pub run-page_id_err :
        (x : Error)
        → parse_id text ≡ err x
        → run s (element (codes "id") pieces es) (in_page_only p)
          ≡ (storing text (in_page_only p), some x)
    unfolding text_eq is_field on_end_field
    run-page_id_err x h =
        run-field_err s (codes "id") refl refl refl pieces (in_page_only p) es refl x (rw h)

  module _ (p : DumpParser O) where
    pub start-revision :
        handle s (start_element (codes "revision")) (in_page_only p)
        ≡ ok (inside false (record p { text_buf = [] }))
    unfolding handle on_start_element text_eq
    start-revision = refl

    pub start-contributor :
        handle s (start_element (codes "contributor")) (inside false p)
        ≡ ok (inside true (record p { text_buf = [] }))
    unfolding handle on_start_element text_eq
    start-contributor = refl

    pub end-contributor :
        handle s (end_element (codes "contributor")) (inside true p) ≡ ok (inside false p)
    unfolding handle on_end_element end_branch text_eq
    end-contributor = refl

    pub end-revision :
        handle s (end_element (codes "revision")) (inside false p)
        ≡ ok (in_page_only (on_end_revision s p))
    unfolding handle on_end_element end_branch on_end_revision text_eq
    end-revision = refl
