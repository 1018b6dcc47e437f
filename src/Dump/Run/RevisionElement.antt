-- ===== src/Dump/Run/RevisionElement.antt =====
-- The events of a revision element of a dump, from its start to its end.
use citescoop.Prelude.{ℕ, ◌≡◌, ◌∙◌, false, Option, some, List, [], ◌∷◌, ◌++◌}
use citescoop.Prelude.Text.{Text, codes}
use citescoop.Proto.{Revision, RevisionCitations, empty_revision}
use citescoop.Result.{ok}
use citescoop.StdMap.{insert}
use citescoop.StdMap.Keys.{number_ord}
use citescoop.Dump.State.{DumpParser, Services}
use citescoop.Dump.Handlers.{Event, start_element, end_element, parse_id, on_end_revision}
use citescoop.Dump.Run.{run}
use citescoop.Dump.Run.Field.{concat, element, in_page_only, after, run-step}
use citescoop.Dump.Run.Field.{inside}
use citescoop.Dump.Run.Elements.{
  run-id, run-text, start-revision, end-revision, run-id_err, run-text_err,
}
use citescoop.Dump.Run.Optional.{
  ContributorXml, optional_element, contributor_events, read_parent, user_of, time_of, left,
  left_by, run-parent, run-time, run-contributor, run-parent_err,
}
use citescoop.StdMap.{or_else}
use citescoop.Result.{Error, err}

-- A revision as a dump has it: with an id and a text, and with its parent, its time and its
-- contributor or without them, as in the dumps of the tests (test/src/extract/data), where a first
-- revision has no parent. One without a text is `textless_events`.
pub record RevisionXml : Type 0 where
  pub id : List Text
  pub parent_id : Option (List Text)
  pub timestamp : Option (List Text)
  pub contributor : Option ContributorXml
  pub text : List Text

abbrev pub revision_events : RevisionXml → List Event → List Event
revision_events x es =
    start_element (codes "revision")
    ∷ element (codes "id") x.id (
        optional_element (codes "parentid") x.parent_id (
          optional_element (codes "timestamp") x.timestamp (
            contributor_events x.contributor
              (element (codes "text") x.text (end_element (codes "revision") ∷ es)))))

-- A revision of which the dump has the id alone.
abbrev pub textless_events : List Text → List Event → List Event
textless_events pieces es =
    start_element (codes "revision")
    ∷ element (codes "id") pieces (end_element (codes "revision") ∷ es)

module _ {O : Type 0} (s : Services O) where
  module _ (x : RevisionXml) (p : DumpParser O) (es : List Event) where
    -- The revision behind its elements before the text; what it has no element for stays.
    abbrev pub read_fields : ℕ → Option ℕ → Revision
    read_fields id parent_id = record {
      revision_id = id;
      parent_id = or_else parent_id p.current_revision.parent_id;
      user = or_else (user_of x.contributor) p.current_revision.user;
      timestamp = or_else (time_of s.timestamp_from x.timestamp) p.current_revision.timestamp;
    }

    -- The text in the buffer there.
    abbrev buffer : Text
    buffer = left_by x.contributor (left x.timestamp (left x.parent_id (concat x.id)))

    abbrev rest : List Event
    rest = element (codes "text") x.text (end_element (codes "revision") ∷ es)

    abbrev known : ℕ → Revision
    known id = record (p.current_revision) { revision_id = id }

    run-to_parent :
        (id : ℕ)
        → parse_id (concat x.id) ≡ ok id
        → run s (revision_events x es) (in_page_only p)
          ≡ run s
              (optional_element (codes "parentid") x.parent_id (
                optional_element
                  (codes "timestamp")
                  x.timestamp
                  (contributor_events x.contributor rest)))
              (inside false (after p (concat x.id) (known id)))
    run-to_parent id id_read =
        run-step s _ _ _ _ (start-revision s p)
        ∙ run-id s x.id (after p [] p.current_revision) _ id id_read

    run-to_text :
        (id : ℕ) (parent_id : Option ℕ)
        → parse_id (concat x.id) ≡ ok id
        → read_parent x.parent_id ≡ ok parent_id
        → run s (revision_events x es) (in_page_only p)
          ≡ run s rest (inside false (after p buffer (read_fields id parent_id)))
    run-to_text id parent_id id_read parent_read =
        let r = record (known id) { parent_id = or_else parent_id p.current_revision.parent_id } in
        let r' = record r {
          timestamp = or_else (time_of s.timestamp_from x.timestamp) p.current_revision.timestamp;
        } in
        run-to_parent id id_read
        ∙ run-parent s p (concat x.id) (known id) _ x.parent_id parent_id parent_read
        ∙ run-time s p (left x.parent_id (concat x.id)) r _ x.timestamp
        ∙ run-contributor s p (left x.timestamp (left x.parent_id (concat x.id))) r' _ x.contributor

    -- The exception of a field, with the state where it is thrown.
    pub run-id_fails :
        (e : Error)
        → parse_id (concat x.id) ≡ err e
        → (q : DumpParser O) × (run s (revision_events x es) (in_page_only p) ≡ (q, some e))
    run-id_fails e h = (
      _,
      run-step s _ _ _ _ (start-revision s p)
          ∙ run-id_err s x.id (after p [] p.current_revision) _ e h,
    )

    pub run-parent_fails :
        (id : ℕ) (e : Error)
        → parse_id (concat x.id) ≡ ok id
        → read_parent x.parent_id ≡ err e
        → (q : DumpParser O) × (run s (revision_events x es) (in_page_only p) ≡ (q, some e))
    run-parent_fails id e h k =
        let (q, thrown) = run-parent_err s p (concat x.id) (known id) _ x.parent_id e k in
        (q, run-to_parent id h ∙ thrown)

    pub run-text_fails :
        (id : ℕ) (parent_id : Option ℕ) (e : Error)
        → parse_id (concat x.id) ≡ ok id
        → read_parent x.parent_id ≡ ok parent_id
        → s.parse (concat x.text) ≡ err e
        → (q : DumpParser O) × (run s (revision_events x es) (in_page_only p) ≡ (q, some e))
    run-text_fails id parent_id e h k l = (
      _,
      run-to_text id parent_id h k
          ∙ run-text_err s x.text (after p buffer (read_fields id parent_id)) _ e l,
    )

    -- Within a page, a revision element with an id and a text, and with its parent, its time and
    -- its contributor or without them, in the order of the dumps, each in any number of pieces,
    -- whose ids are numbers and whose text parses, leaves one more revision on the page: with the
    -- id, the parent, the time and the user of the element, and not the id of the contributor, and
    -- with the citations of its text. What the element does not have stays as it was in the
    -- revision that the parser had begun.
    pub run-revision_events :
        (id : ℕ) (parent_id : Option ℕ) (citations : RevisionCitations)
        → parse_id (concat x.id) ≡ ok id
        → read_parent x.parent_id ≡ ok parent_id
        → s.parse (concat x.text) ≡ ok citations
        → run s (revision_events x es) (in_page_only p)
          ≡ run s es (
              in_page_only (record p {
                text_buf = concat x.text;
                citations_by_revision =
                    p.citations_by_revision
                    ++ record citations { revision = some (read_fields id parent_id) } ∷ [];
                current_citations = record citations { revision = some (read_fields id parent_id) };
                current_revision = empty_revision;
                current_page_revisions =
                    insert id (read_fields id parent_id) p.current_page_revisions;
              }))
    unfolding on_end_revision
    run-revision_events id parent_id citations id_read parent_read text_read =
        let r = read_fields id parent_id in
        let last = record (after p (concat x.text) r) { current_citations = citations } in
        run-to_text id parent_id id_read parent_read
        ∙ run-text s x.text (after p buffer r) _ citations text_read
        ∙ run-step s _ _ _ _ (end-revision s last)

  -- Within a page, a revision element that has an id, a number, and nothing else leaves one more
  -- revision on the page, with that id and with the citations of the text that was parsed last
  -- before it.
  pub run-textless_events :
      (pieces : List Text) (id : ℕ) (p : DumpParser O) (es : List Event)
      → parse_id (concat pieces) ≡ ok id
      → run s (textless_events pieces es) (in_page_only p)
        ≡ run s es (
            in_page_only (record p {
              text_buf = concat pieces;
              citations_by_revision =
                  p.citations_by_revision
                  ++ record (p.current_citations) {
                    revision = some (record (p.current_revision) { revision_id = id });
                  }
                    ∷ [];
              current_citations = record (p.current_citations) {
                revision = some (record (p.current_revision) { revision_id = id });
              };
              current_revision = empty_revision;
              current_page_revisions =
                  insert id
                    (record (p.current_revision) { revision_id = id })
                    p.current_page_revisions;
            }))
  unfolding on_end_revision
  run-textless_events pieces id p es h =
      run-step s _ _ _ _ (start-revision s p)
      ∙ run-id s pieces (after p [] p.current_revision) _ id h
      ∙ run-step s _ _ _ _ (
          end-revision s
            (after p (concat pieces) (record (p.current_revision) { revision_id = id })))
