-- ===== src/Dump/Extract/Ending.antt =====
-- How a parse of the events of a revision goes on, or ends with the exception of one of its fields.
use citescoop.Prelude.{
  ℕ, ◌≡◌, refl, ap, ◌∙◌, inl, inr, true, false, Option, some, List, [], ◌∷◌, ◌++◌,
}
use citescoop.Prelude.Text.{Text}
use citescoop.Proto.{Revision, RevisionCitations, Page, empty_page, empty_revision}
use citescoop.Result.{Error, Result, err, ◌>>=◌, Result-cases}
use citescoop.StdMap.{Map, insert}
use citescoop.StdMap.Keys.{number_ord}
use citescoop.Dump.State.{DumpParser, Services}
use citescoop.Dump.Handlers.{Event, parse_id, handle}
use citescoop.Dump.Run.{run}
use citescoop.Dump.Run.Field.{concat, in_page_only}
use citescoop.Dump.Run.Optional.{read_parent, user_of, time_of, or_else-none}
use citescoop.Dump.Run.RevisionElement.{
  RevisionXml, revision_events, read_fields, run-id_fails, run-parent_fails, run-text_fails,
  run-revision_events,
}
use citescoop.Dump.Extract.{finish}
use citescoop.Dump.Extract.Pages.{read_revision}

module _ {O : Type 0} where
  -- Within a page and outside of its revisions, with what was read of the page.
  abbrev pub on_page :
      O → Page → List RevisionCitations → Map ℕ Revision → Text → RevisionCitations → DumpParser O
  on_page output page citations revisions text current = record {
    in_page = true;
    in_revision = false;
    in_contributor = false;
    should_store = false;
    text_buf = text;
    citations_by_revision = citations;
    current_citations = current;
    current_page = page;
    current_revision = empty_revision;
    current_page_revisions = revisions;
    revisions_to_store = [];
    output = output;
  }

  -- Between two pages.
  abbrev pub between : O → Text → RevisionCitations → DumpParser O
  between output text current = record (on_page output empty_page [] [] text current) {
    in_page = false;
  }

module _ {O : Type 0} (s : Services O) where
  -- The output at the end of a parse, or the exception that ended it.
  abbrev pub ending : List Event → DumpParser O → Result O
  ending es p = finish (λ output. output) (run s es p)

  pub ending-step :
      (e : Event) (es : List Event) (p : DumpParser O)
      → ending (e ∷ es) p ≡ (handle s e p >>= ending es)
  unfolding run
  ending-step e es p = elim (Result-cases (handle s e p)) [
    | inl (q, fine) ↦ rw (fine, run)
    | inr (x, thrown) ↦ rw (thrown, run)
  ]

  module _ (x : RevisionXml) (before : DumpParser O) (es : List Event) where
    -- A page without a revision that was begun.
    abbrev p : DumpParser O
    p = record before { current_revision = empty_revision }

    abbrev pub with_read : Revision × RevisionCitations → DumpParser O
    with_read read = in_page_only (record p {
      text_buf = concat x.text;
      citations_by_revision = p.citations_by_revision ++ read.1 ∷ [];
      current_citations = read.1;
      current_revision = empty_revision;
      current_page_revisions = insert read.0.revision_id read.0 p.current_page_revisions;
    })

    abbrev pub Reads : Result (Revision × RevisionCitations) → Type 0
    Reads m =
        ending (revision_events x es) (in_page_only p) ≡ (m >>= λ read. ending es (with_read read))

    throws :
        (e : Error)
        → (q : DumpParser O) × (run s (revision_events x es) (in_page_only p) ≡ (q, some e))
        → Reads (err e)
    throws e (q, thrown) = ap (finish (λ o. o)) thrown

    fields :
        (id : ℕ) (parent_id : Option ℕ)
        → read_fields s x p es id parent_id ≡ record {
          revision_id = id;
          parent_id = parent_id;
          user = user_of x.contributor;
          timestamp = time_of s.timestamp_from x.timestamp;
        }
    fields id parent_id =
        rw
          (
            or_else-none parent_id,
            or_else-none (user_of x.contributor),
            or_else-none (time_of s.timestamp_from x.timestamp),
          )
          refl

    pub ending-revision : Reads (read_revision s x)
    unfolding read_revision
    ending-revision = elim (Result-cases (parse_id (concat x.id))) [
      | inr (e, h) ↦ rw h (throws e (run-id_fails s x p es e h))
      | inl (id, h) ↦ elim (Result-cases (read_parent x.parent_id)) [
        | inr (e, k) ↦ rw (h, k) (throws e (run-parent_fails s x p es id e h k))
        | inl (parent_id, k) ↦ elim (Result-cases (s.parse (concat x.text))) [
          | inr (e, l) ↦ rw (h, k, l) (throws e (run-text_fails s x p es id parent_id e h k l))
          | inl (citations, l) ↦
              rw (h, k, l)
                (ap (finish (λ o. o)) (run-revision_events s x p es id parent_id citations h k l)
                  ∙ ap (λ r. ending es (with_read (r, record citations { revision = some r })))
                      (fields id parent_id))
        ]
      ]
    ]
