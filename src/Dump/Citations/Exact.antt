-- ===== src/Dump/Citations/Exact.antt =====
-- The counters of references stay exact through the loops over the revisions of a page, so what is
-- stored with the page is what its citations name.
use citescoop.Prelude.{
  ℕ, ◌+◌, ◌≡◌, refl, Bool, true, false, Option, none, some, List, [], ◌∷◌, arith, All, Bool-cases,
  inl, inr,
}
use citescoop.Prelude.Text.{Text}
use citescoop.Proto.{Revision, RevisionCitations, Citation, ExtractedCitation}
use citescoop.Result.{Returns, Returns-bind, Returns-and}
use citescoop.StdMap.{Map, contains, insert}
use citescoop.StdMap.Keys.{number_ord, text_ord}
use citescoop.Dump.Citations.{
  References, restore, mark_removed, check_citation, id_of, erase_citation,
  check_existing_citations, add_citation, add_new_citations, add_revision, add_revisions,
}
use citescoop.Dump.Citations.Track.{IsStored, check-same_id}
use citescoop.Dump.Citations.Counts.{
  Exact, Exact-cong, reference-Exact, unreference-Exact, citation_references, references_in,
  references_in-insert, values,
}

module _ (page_revisions : Map ℕ Revision) where
  -- The citation of `r` and those counted by `others` are the ones that the counters know.
  abbrev WithCitation : (ℕ → ℕ) → Citation × References → Type 0
  WithCitation others r = Exact page_revisions (λ id. citation_references r.0 id + others id) r.1

  restore-Exact :
      (removed : Option ℕ) (c : Citation) (refs : References) (others : ℕ → ℕ)
      → c.revision_removed ≡ removed
      → WithCitation others (c, refs)
      → WithCitation others (restore removed c refs)
  unfolding restore
  restore-Exact none c refs others e x = x
  restore-Exact (some r) c refs others e x =
      unreference-Exact page_revisions (λ id. citation_references c id + others id)
        (λ id. citation_references (record c { revision_removed = none }) id + others id) refs r x
        (λ j. ground (arith, e))

  mark_removed-Exact :
      (id : ℕ) (removed : Option ℕ) (c : Citation) (refs : References) (others : ℕ → ℕ)
      → contains page_revisions id ≡ true
      → c.revision_removed ≡ removed
      → WithCitation others (c, refs)
      → Returns (mark_removed page_revisions id removed c refs) (WithCitation others)
  unfolding mark_removed
  mark_removed-Exact id (some r) c refs others h e x = x
  mark_removed-Exact id none c refs others h e x =
      let total : ℕ → ℕ =
        λ j. citation_references (record c { revision_removed = some id }) j + others j in
      Returns-bind _ _ (Exact page_revisions total) (WithCitation others)
        (reference-Exact page_revisions (λ j. citation_references c j + others j) total refs id h x
          (λ j. ground (arith, e)))
        (λ refs' y. y)

  check_citation-Exact :
      (id : ℕ) (present : Bool) (c : Citation) (refs : References) (others : ℕ → ℕ)
      → contains page_revisions id ≡ true
      → WithCitation others (c, refs)
      → Returns (check_citation page_revisions id present c refs) (WithCitation others)
  unfolding check_citation
  check_citation-Exact id true c refs others h x =
      restore-Exact c.revision_removed c refs others refl x
  check_citation-Exact id false c refs others h x =
      mark_removed-Exact id c.revision_removed c refs others h refl x

  -- As `WithCitation`, for all the citations that the page has discovered.
  abbrev WithAll : (ℕ → ℕ) → Map Text Citation → References → Type 0
  WithAll others m refs = Exact page_revisions (λ id. references_in (values m) id + others id) refs

  check-Exact :
      (discovered : Map Text Citation) (revision : RevisionCitations) (refs : References)
      → (others : ℕ → ℕ) → IsStored page_revisions revision
      → WithAll others discovered refs
      → Returns
          (check_existing_citations page_revisions discovered revision refs)
          (λ r. WithAll others r.1 r.2)
  unfolding check_existing_citations references_in
  check-Exact [] revision refs others h x = x
  check-Exact ((key, c) ∷ discovered) revision refs others h x =
      let behind : ℕ → ℕ = λ id. references_in (values discovered) id + others id in
      Returns-bind _ _ (WithCitation behind) (λ r. WithAll others r.1 r.2)
        (check_citation-Exact (id_of revision) (contains revision.citations key) c refs behind h
          (Exact-cong page_revisions _ _ refs x (λ id. omega arith)))
        λ (c', refs') y.
          let front : ℕ → ℕ = λ id. citation_references c' id + others id in
          Returns-bind _ _ (λ r. WithAll front r.1 r.2) (λ r. WithAll others r.1 r.2)
            (check-Exact discovered (erase_citation key revision) refs' front h
              (Exact-cong page_revisions _ _ refs' y (λ id. omega arith)))
            λ r z. Exact-cong page_revisions _ _ r.2 z (λ id. omega arith)

  abbrev pub CountsAll : Map Text Citation × References → Type 0
  CountsAll r = Exact page_revisions (references_in (values r.0)) r.1

  add_citation-Exact :
      (id : ℕ) (key : Text) (e : ExtractedCitation) (discovered : Map Text Citation)
      (refs : References)
      → contains page_revisions id ≡ true
      → CountsAll (discovered, refs)
      → Returns (add_citation page_revisions id key e discovered refs) CountsAll
  unfolding add_citation
  add_citation-Exact id key e discovered refs h x = elim (Bool-cases (contains discovered key)) [
    | inl old ↦ rw old x
    | inr new ↦ rw new (
        let c : Citation = record { citation = e; revision_added = id; revision_removed = none } in
        let total : ℕ → ℕ = references_in (values (insert key c discovered)) in
        Returns-bind _ _ (Exact page_revisions total) CountsAll
          (reference-Exact page_revisions (references_in (values discovered)) total refs id h x
            (λ j. omega (arith, references_in-insert key c discovered j new)))
          (λ refs' y. y))
  ]

  add_new-Exact :
      (id : ℕ) (entries : List (Text × ExtractedCitation)) (discovered : Map Text Citation)
      (refs : References)
      → contains page_revisions id ≡ true
      → CountsAll (discovered, refs)
      → Returns (add_new_citations page_revisions id entries discovered refs) CountsAll
  unfolding add_new_citations
  add_new-Exact id [] discovered refs h x = x
  add_new-Exact id ((key, e) ∷ entries) discovered refs h x =
      Returns-bind _ _ CountsAll CountsAll (add_citation-Exact id key e discovered refs h x)
        λ (d, refs') y. add_new-Exact id entries d refs' h y

  add_revision-Exact :
      (revision : RevisionCitations) (discovered : Map Text Citation) (refs : References)
      → IsStored page_revisions revision
      → CountsAll (discovered, refs)
      → Returns (add_revision page_revisions revision discovered refs) CountsAll
  unfolding add_revision
  add_revision-Exact revision discovered refs h x =
      let no_others : ℕ → ℕ = λ id. 0 in
      Returns-bind _ _ (λ r. (id_of r.0 ≡ id_of revision) × WithAll no_others r.1 r.2) CountsAll
        (Returns-and _ (λ r. id_of r.0 ≡ id_of revision) (λ r. WithAll no_others r.1 r.2)
          (check-same_id page_revisions discovered revision refs h)
          (check-Exact discovered revision refs no_others h
            (Exact-cong page_revisions _ _ refs x (λ id. omega arith))))
        λ (r, d, refs') y.
          add_new-Exact (id_of r) r.citations d refs' (rw y.0 h)
            (Exact-cong page_revisions _ _ refs' y.1 (λ id. omega arith))

  -- Over all the revisions of a page.
  pub add_revisions-Exact :
      (revisions : List RevisionCitations) (discovered : Map Text Citation) (refs : References)
      → All (IsStored page_revisions) revisions
      → CountsAll (discovered, refs)
      → Returns (add_revisions page_revisions revisions discovered refs) CountsAll
  unfolding add_revisions
  add_revisions-Exact [] discovered refs h x = x
  add_revisions-Exact (revision ∷ revisions) discovered refs h x =
      Returns-bind _ _ CountsAll CountsAll (add_revision-Exact revision discovered refs h.0 x)
        λ (d, refs') y. add_revisions-Exact revisions d refs' h.1 y
