-- ===== src/Dump/Extract/Named.antt =====
-- What a parse in memory returns refers to nothing else: the revisions that the citations of its
-- pages name are among its revisions.
use citescoop.Prelude.{
  ℕ, ◌≡◌, refl, sym, ap, subst, ◌⊎◌, inl, inr, false, Bool-cases, Option, none, some, List, [], ◌∷◌,
  arith, All, All-weaken, All-append,
}
use citescoop.Prelude.Permutation.{Passes-perm}
use mathlib.Core.List.Perm
use citescoop.Prelude.Text.{Text, codes, text_eq, text_eq_iff}
use citescoop.Proto.{Revision, Page, Citation}
use citescoop.Result.{Error, ok, Returns-at, IfReturns, >>=-eq-ok}
use citescoop.StdMap.{Map, contains, insert_range, find-insert_range}
use citescoop.StdMap.Keys.{number_ord}
use citescoop.Dump.Citations.{id_of, earlier}
use citescoop.Dump.Citations.Named.{NamesKnown, citations-NamesKnown}
use citescoop.Dump.Citations.PageList.{SortLaws}
use citescoop.Dump.State.{DumpParser, Services, new_parser}
use citescoop.Dump.Handlers.{
  Event, start_element, end_element, characters, on_start_element, on_characters, on_end_field,
  stop_storing, end_branch, on_end_element, on_end_revision, handle,
}
use citescoop.Dump.Run.{
  Reach, begin, step, run, start_parser, Stored, nothing_stored, store_in_memory,
}
use citescoop.Dump.Run.Consistent.{PageEnd, PageEnd-Returns, Reach-IsConsistent, run-Reach}
use citescoop.Dump.Extract.{Calls, services, finish, parse_xml}

module _ {O : Type 0} (s : Services O) where
  on_end_field-output :
      (name : Text) (p q : DumpParser O) → on_end_field s name p ≡ ok q → q.output ≡ p.output
  unfolding on_end_field
  on_end_field-output name p q e = ground arith

  on_start_element-output :
      (name : Text) (p : DumpParser O) → (on_start_element name p).output ≡ p.output
  unfolding on_start_element
  on_start_element-output name p = ground arith

  end_branch-output :
      (name : Text) (p q : DumpParser O)
      → text_eq name (codes "page") ≡ false
      → end_branch s name p ≡ ok q
      → q.output ≡ p.output
  unfolding end_branch on_end_revision
  end_branch-output name p q other e = ground (arith, on_end_field-output name p q)

  stop_storing-output : (p : DumpParser O) → (stop_storing p).output ≡ p.output
  stop_storing-output p = ground arith

  -- Only the end of a page changes what is stored.
  handle-output :
      (e : Event) (p q : DumpParser O)
      → handle s e p ≡ ok q
      → (e ≡ end_element (codes "page")) ⊎ (q.output ≡ p.output)
  unfolding handle on_end_element on_characters
  handle-output (start_element name) p q h = inr (ground (arith, on_start_element-output name p))
  handle-output (end_element name) p q h = elim (Bool-cases (text_eq name (codes "page"))) [
    | inl page ↦ inl (ap end_element ((text_eq_iff name (codes "page")).0 page))
    | inr other ↦
        let (r, branch, last) = >>=-eq-ok (end_branch s name p) _ h in
        inr (cc (stop_storing-output r, end_branch-output name p r other branch))
  ]
  handle-output (characters text) p q h = inr (ground arith)
  handle-output _ p q h = cc

-- Every citation of every page names revisions that are stored.
abbrev pub AllNamed : Stored → Type 0
AllNamed stored = All (λ page. All (NamesKnown stored.revisions) page.citations) stored.pages

module _ (c : Calls) (laws : SortLaws c.sort) where
  abbrev memory : Services Stored
  memory = services store_in_memory c

  NamesKnown-insert_range :
      (n m : Map ℕ Revision) (cite : Citation)
      → NamesKnown n cite
      → NamesKnown (insert_range n m) cite
  NamesKnown-insert_range n m cite h = (
    ground (arith, find-insert_range n m cite.revision_added, h.0),
    λ id removed. ground (arith, find-insert_range n m id, h.1 id removed),
  )

  NamesKnown-stored :
      (n m : Map ℕ Revision) (cite : Citation)
      → NamesKnown m cite
      → NamesKnown (insert_range n m) cite
  NamesKnown-stored n m cite h = (
    ground (arith, find-insert_range n m cite.revision_added, h.0),
    λ id removed. ground (arith, find-insert_range n m id, h.1 id removed),
  )

  store_in_memory-AllNamed :
      (revisions : Map ℕ Revision) (page : Page) (stored : Stored)
      → AllNamed stored
      → All (NamesKnown revisions) page.citations
      → AllNamed (store_in_memory revisions page stored)
  unfolding store_in_memory
  store_in_memory-AllNamed revisions page stored h k =
      let all = insert_range revisions stored.revisions in
      All-append (λ page. All (NamesKnown all) page.citations) stored.pages (page ∷ [])
        (All-weaken _ _ stored.pages
          (λ page. All-weaken _ _ page.citations (NamesKnown-stored revisions stored.revisions)) h)
        (All-weaken _ _ page.citations (NamesKnown-insert_range revisions stored.revisions) k, tt)

  Reach-AllNamed : {p : DumpParser Stored} → Reach memory nothing_stored p → AllNamed p.output
  unfolding new_parser
  Reach-AllNamed begin = tt
  Reach-AllNamed (step {p} {q} e r h) = elim (handle-output memory e p q h) [
    | inr same ↦ subst AllNamed (sym same) (Reach-AllNamed r)
    | inl page_end ↦
        let end : PageEnd memory p q =
          Returns-at (handle memory (end_element (codes "page")) p) (PageEnd memory p)
            (PageEnd-Returns memory laws r) (subst (λ e. handle memory e p ≡ ok q) page_end h) in
        let rs = p.citations_by_revision in
        subst AllNamed (sym end.stored) (
          store_in_memory-AllNamed end.to_store end.page p.output (Reach-AllNamed r) (
            citations-NamesKnown p.current_page_revisions end.to_store end.page.citations
              (c.sort earlier rs)
              (Passes-perm (λ r. contains p.current_page_revisions (id_of r)) rs (c.sort earlier rs)
                (Perm.symm (laws.permutes earlier rs)) (Reach-IsConsistent memory laws r).known)
              end.cited end.referenced))
  ]

  -- Given a sort that permutes its list: whatever the events of a dump, if the parse in memory
  -- returns, then for every citation of every page returned, the revision that added it and the
  -- revision that removed it, if there is one, are among the revisions returned.
  pub parse_xml-AllNamed : (events : List Event) → IfReturns (parse_xml c events) AllNamed
  unfolding parse_xml start_parser
  parse_xml-AllNamed events =
      ended (run memory events (new_parser nothing_stored))
        (λ fine. Reach-AllNamed (run-Reach memory laws events _ begin fine))
    where
      ended :
          (r : DumpParser Stored × Option Error)
          → (r.1 ≡ none → AllNamed r.0.output)
          → IfReturns (finish (λ stored. stored) r) AllNamed
      ended (p, none) h = h refl
      ended (p, some x) h = tt
