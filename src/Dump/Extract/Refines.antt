-- ===== src/Dump/Extract/Refines.antt =====
-- A parse of the events of a dump returns what the dump says, or its first error.
use mathlib.Core.List.{append_assoc, append-nil}
use citescoop.Prelude.{ℕ, ◌≡◌, refl, sym, ap, subst, ◌∙◌, inl, inr, some, List, [], ◌∷◌, ◌++◌, map}
use citescoop.Prelude.Text.{Text, codes, text_eq}
use citescoop.Proto.{Revision, RevisionCitations, Page, empty_page, empty_citations}
use citescoop.Result.{Result, ok, err, ◌>>=◌, Result-cases, >>=-pointwise, >>=-assoc}
use citescoop.StdMap.{Map, insert}
use citescoop.StdMap.Keys.{number_ord}
use citescoop.Dump.Citations.{make_page_citation_list}
use citescoop.Dump.State.{Services, new_parser}
use citescoop.Dump.Handlers.{
  Event, start_element, end_element, parse_id, on_start_element, on_end_page, end_branch,
  stop_storing, on_end_element, handle,
}
use citescoop.Dump.Run.{run, start_parser, nothing_stored, store_in_memory}
use citescoop.Dump.Run.Field.{concat, run-step}
use citescoop.Dump.Run.Elements.{run-title, run-page_id, run-page_id_err}
use citescoop.Dump.Run.RevisionElement.{RevisionXml}
use citescoop.Dump.Extract.{Calls, services, finish, parse_xml}
use citescoop.Dump.Extract.Pages.{
  PageXml, revisions_events, page_events, dump_events, by_id, read_revision, read_revisions,
  read_page, read_pages,
}
use citescoop.Dump.Extract.Ending.{on_page, between, ending, ending-step, ending-revision}

module _ {O : Type 0} (s : Services O) where
  ending-revisions :
      (xs : List RevisionXml) (es : List Event) (output : O) (page : Page)
      (citations : List RevisionCitations) (revisions : Map ℕ Revision) (text : Text)
      (current : RevisionCitations) (next : List (Revision × RevisionCitations) → Result O)
      → ((read : List (Revision × RevisionCitations)) (t : Text) (c : RevisionCitations)
          → ending s es
              (on_page output page (citations ++ map (λ r. r.1) read) (by_id read revisions) t c)
            ≡ next read)
      → ending s (revisions_events xs es) (on_page output page citations revisions text current)
        ≡ (read_revisions s xs >>= next)
  unfolding read_revisions
  ending-revisions [] es output page citations revisions text current next h =
      subst (λ cs. ending s es (on_page output page cs revisions text current) ≡ next [])
        (append-nil citations) (h [] text current)
  ending-revisions (x ∷ xs) es output page citations revisions text current next h =
      ending-revision s x (on_page output page citations revisions text current)
        (revisions_events xs es)
      ∙ >>=-pointwise (read_revision s x) _ _ (λ read.
        ending-revisions xs es output page (citations ++ read.1 ∷ [])
          (insert read.0.revision_id read.0 revisions) (concat x.text) read.1
          (λ others. next (read ∷ others))
          (λ others t c.
            subst
              (λ cs.
                ending s es (on_page output page cs (by_id (read ∷ others) revisions) t c)
                ≡ next (read ∷ others))
              (sym (append_assoc citations (read.1 ∷ []) (map (λ r. r.1) others)))
              (h (read ∷ others) t c))
        ∙ sym (>>=-assoc (read_revisions s xs) (λ others. ok (read ∷ others)) next))
      ∙ sym (
          >>=-assoc (read_revision s x)
            (λ read. read_revisions s xs >>= λ others. ok (read ∷ others)) next)

  module _ (es : List Event) (output : O) (page : Page) (citations : List RevisionCitations)
      (revisions : Map ℕ Revision) (text : Text) (current : RevisionCitations) where
    ending-page_end :
        ending s
          (end_element (codes "page") ∷ es)
          (on_page output page citations revisions text current)
        ≡ (make_page_citation_list s.sort revisions citations [] page >>= λ made.
            ending s es (between (s.store made.1 made.0 output) text current))
    unfolding handle on_end_element end_branch on_end_page text_eq
    ending-page_end =
        ending-step s _ _ _ ∙ made (make_page_citation_list s.sort revisions citations [] page)
      where
        made :
            (m : Result (Page × Map ℕ Revision))
            → ((m >>= λ r. ok (between (s.store r.1 r.0 output) text current))
                >>= (λ q. ok (stop_storing q))
                >>= ending s es)
              ≡ (m >>= λ r. ending s es (between (s.store r.1 r.0 output) text current))
        made (ok r) = refl
        made (err x) = refl

  start-page :
      (output : O) (text : Text) (current : RevisionCitations)
      → handle s (start_element (codes "page")) (between output text current)
        ≡ ok (on_page output empty_page [] [] [] current)
  unfolding handle on_start_element text_eq
  start-page output text current = refl

  ending-page :
      (x : PageXml) (es : List Event) (output : O) (text : Text) (current : RevisionCitations)
      (next : O → Result O)
      → ((o : O) (t : Text) (c : RevisionCitations) → ending s es (between o t c) ≡ next o)
      → ending s (page_events x es) (between output text current)
        ≡ (read_page s x >>= λ made. next (s.store made.1 made.0 output))
  unfolding read_page
  ending-page x es output text current next h =
      let titled = record empty_page { title = some (concat x.title) } in
      let behind = revisions_events x.revisions (end_element (codes "page") ∷ es) in
      ap (finish (λ o. o)) (
        run-step s _ _ _ _ (start-page output text current)
        ∙ run-title s x.title (on_page output empty_page [] [] [] current) _)
      ∙ elim (Result-cases (parse_id (concat x.id))) [
        | inr (e, k) ↦ rw k (
            ap (finish (λ o. o)) (
              run-page_id_err s x.id (on_page output titled [] [] (concat x.title) current) behind e
                k))
        | inl (id, k) ↦
            let page = record titled { page_id = id } in
            rw k (
              ap (finish (λ o. o)) (
                run-page_id s x.id (on_page output titled [] [] (concat x.title) current) behind id
                  k)
              ∙ ending-revisions x.revisions _ output page [] [] (concat x.id) current
                  (λ read.
                    make_page_citation_list s.sort (by_id read []) (map (λ r. r.1) read) [] page
                    >>= λ made. next (s.store made.1 made.0 output))
                  (λ read t c.
                    ending-page_end es output page (map (λ r. r.1) read) (by_id read []) t c
                    ∙ >>=-pointwise
                        (make_page_citation_list s.sort (by_id read []) (map (λ r. r.1) read) []
                          page)
                        _ _ (λ made. h (s.store made.1 made.0 output) t c))
              ∙ sym (>>=-assoc (read_revisions s x.revisions) _ _))
      ]

  pub ending-pages :
      (xs : List PageXml) (output : O) (text : Text) (current : RevisionCitations)
      → ending s (dump_events xs) (between output text current) ≡ read_pages s xs output
  unfolding read_pages run
  ending-pages [] output text current = refl
  ending-pages (x ∷ xs) output text current =
      ending-page x (dump_events xs) output text current (read_pages s xs) (ending-pages xs)

-- The parse in memory of the events of a dump, without other elements and without text outside of
-- the fields.
pub parse_xml-dump_events :
    (c : Calls) (xs : List PageXml)
    → parse_xml c (dump_events xs) ≡ read_pages (services store_in_memory c) xs nothing_stored
unfolding parse_xml start_parser new_parser
parse_xml-dump_events c xs =
    ending-pages (services store_in_memory c) xs nothing_stored [] empty_citations
