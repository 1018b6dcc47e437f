-- ===== src/Dump/Run/Consistent.antt =====
-- What holds in every state of a parse, and so at the end of every page.
use citescoop.Prelude.{
  ℕ, ◌≡◌, refl, sym, ap, subst, inl, inr, true, false, Option, none, some, List, [], ◌∷◌, arith,
}
use citescoop.Prelude.Permutation.{Passes-append, Passes-weaken}
use citescoop.Prelude.Text.{Text, codes, text_eq}
use citescoop.Proto.{Revision, Page, empty_page}
use citescoop.Result.{
  Result, ok, err, Returns, Returns-bind, >>=-eq-ok, Returns-at, Result-cases, Error,
}
use citescoop.StdMap.{Map, contains, insert, find-insert}
use citescoop.StdMap.Keys.{number_ord}
use citescoop.Dump.Citations.{id_of, earlier}
use citescoop.Dump.Citations.PageList.{
  SortLaws, AllStored, PageCitations, StoredRevisions, PageMade, make_page_citation_list-PageMade,
}
use citescoop.Dump.State.{DumpParser, Services, new_parser}
use citescoop.Dump.Handlers.{
  Event, start_element, end_element, characters, on_start_element, on_characters, on_end_page,
  on_end_revision, on_end_field, stop_storing, end_branch, on_end_element, handle,
}
use citescoop.Dump.Run.{Reach, begin, step, run}

module _ (page_revisions : Map ℕ Revision) (id : ℕ) (revision : Revision) where
  pub contains-insert :
      (j : ℕ)
      → contains page_revisions j ≡ true
      → contains (insert id revision page_revisions) j ≡ true
  contains-insert j h = ground (arith, find-insert id revision page_revisions j)

  pub contains-insert_self : contains (insert id revision page_revisions) id ≡ true
  contains-insert_self = ground (arith, find-insert id revision page_revisions id)

module _ {O : Type 0} where
  -- The revisions whose citations wait for the end of the page are known by their ids, and
  -- nothing of the page is listed or stored before its end.
  pub record IsConsistent (p : DumpParser O) : Type 0 where
    pub known : AllStored p.current_page_revisions p.citations_by_revision
    pub unlisted : p.current_page.citations ≡ []
    pub unstored : p.revisions_to_store ≡ []

  new_parser-IsConsistent : (output : O) → IsConsistent (new_parser output)
  unfolding new_parser
  new_parser-IsConsistent output = record { known = tt; unlisted = refl; unstored = refl }

  on_start_element-IsConsistent :
      (name : Text) (p : DumpParser O) → IsConsistent p → IsConsistent (on_start_element name p)
  unfolding on_start_element
  on_start_element-IsConsistent name p c = ground arith

  on_characters-IsConsistent :
      (text : Text) (p : DumpParser O) → IsConsistent p → IsConsistent (on_characters text p)
  unfolding on_characters
  on_characters-IsConsistent text p c = ground arith

  pub stop_storing_lem : (p : DumpParser O) → stop_storing p ≡ record p { should_store = false }
  stop_storing_lem p = ground arith

  stop_storing-IsConsistent : (p : DumpParser O) → IsConsistent p → IsConsistent (stop_storing p)
  stop_storing-IsConsistent p c = ground arith

  on_end_revision-IsConsistent :
      (s : Services O) (p : DumpParser O) → IsConsistent p → IsConsistent (on_end_revision s p)
  unfolding on_end_revision
  on_end_revision-IsConsistent s p c = record {
    known =
        Passes-append _ p.citations_by_revision _
          (Passes-weaken _ _ p.citations_by_revision
            (λ r k.
              contains-insert p.current_page_revisions p.current_revision.revision_id
                p.current_revision (id_of r) k)
            c.known)
          (
            contains-insert_self p.current_page_revisions p.current_revision.revision_id
                p.current_revision,
            tt,
          );
    unlisted = c.unlisted;
    unstored = c.unstored;
  }

  on_end_field-IsConsistent :
      (s : Services O) (name : Text) (p q : DumpParser O)
      → IsConsistent p
      → on_end_field s name p ≡ ok q
      → IsConsistent q
  unfolding on_end_field
  on_end_field-IsConsistent s name p q c e = ground arith

module _ {O : Type 0} (s : Services O) where
  -- What the end of a page does: it stores one page, with the citations that its revisions give it
  -- in the order of their time, and the revisions that these citations name; then nothing of the
  -- page is left.
  pub record PageEnd (p q : DumpParser O) : Type 0 where
    pub page : Page
    pub to_store : Map ℕ Revision
    pub cited : PageCitations (s.sort earlier p.citations_by_revision) page.citations
    pub referenced : StoredRevisions p.current_page_revisions page.citations to_store
    pub same_title : page.title ≡ p.current_page.title
    pub same_id : page.page_id ≡ p.current_page.page_id
    pub stored : q.output ≡ s.store to_store page p.output
    pub left_page : q.in_page ≡ false
    pub no_revisions : q.current_page_revisions ≡ []
    pub no_citations : q.citations_by_revision ≡ []
    pub no_stored : q.revisions_to_store ≡ []
    pub new_page : q.current_page ≡ empty_page

module _ {O : Type 0} (s : Services O) (laws : SortLaws s.sort) where
  pub on_end_page-PageEnd :
      (p : DumpParser O) → IsConsistent p → Returns (on_end_page s p) (PageEnd s p)
  unfolding on_end_page
  on_end_page-PageEnd p c =
      let rs = p.citations_by_revision in
      Returns-bind _ _ (PageMade p.current_page_revisions (s.sort earlier rs) p.current_page)
        (PageEnd s p)
        (make_page_citation_list-PageMade s.sort laws p.current_page_revisions rs p.current_page
          p.revisions_to_store c.known c.unlisted c.unstored)
        λ (page, to_store) h. record {
          page = page;
          to_store = to_store;
          cited = h.cited;
          referenced = h.referenced;
          same_title = h.same_title;
          same_id = h.same_id;
          stored = refl;
          left_page = refl;
          no_revisions = refl;
          no_citations = refl;
          no_stored = refl;
          new_page = refl;
        }

  on_end_page-IsConsistent : (p q : DumpParser O) → PageEnd s p q → IsConsistent q
  on_end_page-IsConsistent p q e = record {
    known = rw e.no_citations tt;
    unlisted = ap (λ page. page.citations) e.new_page;
    unstored = e.no_stored;
  }

  pub stop_storing-PageEnd : (p q : DumpParser O) → PageEnd s p q → PageEnd s p (stop_storing q)
  stop_storing-PageEnd p q e = subst (PageEnd s p) (sym (stop_storing_lem q)) (record {
    page = e.page;
    to_store = e.to_store;
    cited = e.cited;
    referenced = e.referenced;
    same_title = e.same_title;
    same_id = e.same_id;
    stored = e.stored;
    left_page = e.left_page;
    no_revisions = e.no_revisions;
    no_citations = e.no_citations;
    no_stored = e.no_stored;
    new_page = e.new_page;
  })

  pub end_page-Returns :
      (p : DumpParser O)
      → IsConsistent p
      → Returns (handle s (end_element (codes "page")) p) (PageEnd s p)
  unfolding handle on_end_element end_branch text_eq
  end_page-Returns p c =
      Returns-bind _ _ (PageEnd s p) (PageEnd s p) (on_end_page-PageEnd p c)
        λ q e. stop_storing-PageEnd p q e

  end_branch-IsConsistent :
      (name : Text) (p q : DumpParser O)
      → IsConsistent p
      → end_branch s name p ≡ ok q
      → IsConsistent q
  unfolding end_branch
  end_branch-IsConsistent name p q c e = ground (
    arith,
    Returns-at (on_end_page s p) (PageEnd s p) {a = q} (on_end_page-PageEnd p c),
    on_end_page-IsConsistent p q,
    on_end_revision-IsConsistent s p c,
    on_end_field-IsConsistent s name p q c,
  )

  handle-IsConsistent :
      (e : Event) (p q : DumpParser O) → IsConsistent p → handle s e p ≡ ok q → IsConsistent q
  unfolding handle on_end_element
  handle-IsConsistent (start_element name) p q c e =
      subst IsConsistent (cc) (on_start_element-IsConsistent name p c)
  handle-IsConsistent (end_element name) p q c e =
      let (r, branch, last) = >>=-eq-ok (end_branch s name p) _ e in
      subst IsConsistent (cc)
        (stop_storing-IsConsistent r (end_branch-IsConsistent name p r c branch))
  handle-IsConsistent (characters text) p q c e =
      subst IsConsistent (cc) (on_characters-IsConsistent text p c)
  handle-IsConsistent _ p q c e = cc

  pub Reach-IsConsistent : {output : O} {p : DumpParser O} → Reach s output p → IsConsistent p
  Reach-IsConsistent {output} begin = new_parser-IsConsistent output
  Reach-IsConsistent (step {p} {q} e r h) = handle-IsConsistent e p q (Reach-IsConsistent r) h

  -- Given a sort that permutes its list: in every state of a parse, whatever the events before,
  -- the end of a page throws nothing. It stores one page, with the citations that the revisions
  -- read since the last page give it in the order into which the sort puts them, and with it the
  -- revisions that these citations name.
  pub PageEnd-Returns :
      {output : O} {p : DumpParser O}
      → Reach s output p
      → Returns (handle s (end_element (codes "page")) p) (PageEnd s p)
  PageEnd-Returns {p} r = end_page-Returns p (Reach-IsConsistent r)

  -- A parse goes through such states.
  pub run-Reach :
      {output : O} (es : List Event) (p : DumpParser O)
      → Reach s output p
      → (run s es p).1 ≡ none
      → Reach s output (run s es p).0
  unfolding run
  run-Reach [] p r h = r
  run-Reach {output} (e ∷ es) p r h = elim (Result-cases (handle s e p)) [
    | inl (q, fine) ↦
        rw (fine, run) (run-Reach es q (step e r fine) (subst (λ m. (next m).1 ≡ none) fine h))
    | inr (x, thrown) ↦ absurd (none-ne-some (subst (λ m. (next m).1 ≡ none) thrown h))
  ]
    where
      next : Result (DumpParser O) → DumpParser O × Option Error
      next (ok q) = run s es q
      next (err x) = (p, some x)

      none-ne-some : {y : Error} → some y ≡ none → ⊥
      none-ne-some q = cc
