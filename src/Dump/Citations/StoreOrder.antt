-- ===== src/Dump/Citations/StoreOrder.antt =====
-- The map of the revisions to store keeps the order of its keys through the loops of a page.
use citescoop.Prelude.{ℕ, Bool, true, false, Option, none, some, List, [], ◌∷◌, arith}
use citescoop.Prelude.Text.{Text}
use citescoop.Proto.{Revision, RevisionCitations, Citation, ExtractedCitation}
use citescoop.Result.{IfReturns, IfReturns-bind, IfReturns-any, IfReturns-if}
use citescoop.StdMap.{Map, contains, IsSorted, insert-IsSorted, erase-IsSorted}
use citescoop.StdMap.Keys.{text_ord, number_ord}
use citescoop.Dump.Citations.{
  References, value_at, unreference, reference, restore, mark_removed, check_citation, id_of,
  erase_citation, check_existing_citations, add_citation, add_new_citations, add_revision,
  add_revisions,
}

abbrev StoreSorted {ℓ} : {A : Type ℓ} → A × References → Type 0
StoreSorted r = IsSorted r.1.to_store

abbrev CheckedSorted : RevisionCitations × Map Text Citation × References → Type 0
CheckedSorted r = IsSorted r.2.to_store

module _ (page_revisions : Map ℕ Revision) where
  unreference-IsSorted :
      (id : ℕ) (refs : References)
      → IsSorted refs.to_store
      → IsSorted (unreference id refs).to_store
  unfolding unreference
  unreference-IsSorted id refs s = ground (arith, erase-IsSorted id refs.to_store)

  reference-IsSorted :
      (id : ℕ) (refs : References)
      → IsSorted refs.to_store
      → IfReturns (reference page_revisions id refs) (λ r. IsSorted r.to_store)
  unfolding reference
  reference-IsSorted id refs s =
      IfReturns-any (λ r. IsSorted r.to_store) (value_at page_revisions id) _
        λ revision. insert-IsSorted id revision refs.to_store s

  restore-sorted :
      (removed : Option ℕ) (c : Citation) (refs : References)
      → IsSorted refs.to_store
      → StoreSorted (restore removed c refs)
  unfolding restore
  restore-sorted none c refs s = s
  restore-sorted (some id) c refs s = unreference-IsSorted id refs s

  mark_removed-sorted :
      (id : ℕ) (removed : Option ℕ) (c : Citation) (refs : References)
      → IsSorted refs.to_store
      → IfReturns (mark_removed page_revisions id removed c refs) StoreSorted
  unfolding mark_removed
  mark_removed-sorted id none c refs s =
      IfReturns-bind (λ r. IsSorted r.to_store) StoreSorted (reference page_revisions id refs) _
        (reference-IsSorted id refs s) λ refs' t. t
  mark_removed-sorted id (some r) c refs s = s

  check_citation-sorted :
      (id : ℕ) (present : Bool) (c : Citation) (refs : References)
      → IsSorted refs.to_store
      → IfReturns (check_citation page_revisions id present c refs) StoreSorted
  unfolding check_citation
  check_citation-sorted id true c refs s = restore-sorted c.revision_removed c refs s
  check_citation-sorted id false c refs s = mark_removed-sorted id c.revision_removed c refs s

  check-sorted :
      (discovered : Map Text Citation) (revision : RevisionCitations) (refs : References)
      → IsSorted refs.to_store
      → IfReturns (check_existing_citations page_revisions discovered revision refs) CheckedSorted
  unfolding check_existing_citations
  check-sorted [] revision refs s = s
  check-sorted ((key, c) ∷ discovered) revision refs s =
      IfReturns-bind StoreSorted CheckedSorted _ _
        (check_citation-sorted (id_of revision) (contains revision.citations key) c refs s)
        λ (c', refs') t.
          IfReturns-bind CheckedSorted CheckedSorted _ _
            (check-sorted discovered (erase_citation key revision) refs' t) λ r u. u

  add_citation-sorted :
      (id : ℕ) (key : Text) (e : ExtractedCitation) (discovered : Map Text Citation)
      (refs : References)
      → IsSorted refs.to_store
      → IfReturns (add_citation page_revisions id key e discovered refs) StoreSorted
  unfolding add_citation
  add_citation-sorted id key e discovered refs s =
      IfReturns-if StoreSorted (contains discovered key) _ _ s (
        IfReturns-bind (λ r. IsSorted r.to_store) StoreSorted (reference page_revisions id refs) _
          (reference-IsSorted id refs s) λ refs' t. t)

  add_new-sorted :
      (id : ℕ) (entries : List (Text × ExtractedCitation)) (discovered : Map Text Citation)
      (refs : References)
      → IsSorted refs.to_store
      → IfReturns (add_new_citations page_revisions id entries discovered refs) StoreSorted
  unfolding add_new_citations
  add_new-sorted id [] discovered refs s = s
  add_new-sorted id ((key, e) ∷ entries) discovered refs s =
      IfReturns-bind StoreSorted StoreSorted _ _ (add_citation-sorted id key e discovered refs s)
        λ (d, refs') t. add_new-sorted id entries d refs' t

  add_revision-sorted :
      (revision : RevisionCitations) (discovered : Map Text Citation) (refs : References)
      → IsSorted refs.to_store
      → IfReturns (add_revision page_revisions revision discovered refs) StoreSorted
  unfolding add_revision
  add_revision-sorted revision discovered refs s =
      IfReturns-bind CheckedSorted StoreSorted _ _ (check-sorted discovered revision refs s)
        λ (r, d, refs') t. add_new-sorted (id_of r) r.citations d refs' t

  pub add_revisions-IsSorted :
      (revisions : List RevisionCitations) (discovered : Map Text Citation) (refs : References)
      → IsSorted refs.to_store
      → IfReturns
          (add_revisions page_revisions revisions discovered refs)
          (λ r. IsSorted r.1.to_store)
  unfolding add_revisions
  add_revisions-IsSorted [] discovered refs s = s
  add_revisions-IsSorted (revision ∷ revisions) discovered refs s =
      IfReturns-bind StoreSorted StoreSorted _ _ (add_revision-sorted revision discovered refs s)
        λ (d, refs') t. add_revisions-IsSorted revisions d refs' t
