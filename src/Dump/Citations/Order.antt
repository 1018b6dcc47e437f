-- ===== src/Dump/Citations/Order.antt =====
-- The map of the discovered citations keeps the order of its keys.
use citescoop.Prelude.{
  ℕ, ◌≡◌, refl, ap, subst, true, List, [], ◌∷◌, map, All, Bool-cases, inl, inr, arith,
}
use citescoop.Prelude.Text.{Text}
use citescoop.Proto.{Revision, RevisionCitations, Citation, ExtractedCitation}
use citescoop.Result.{Returns, Returns-bind, Returns-and}
use citescoop.StdMap.{Map, contains, Above, IsSorted, insert-IsSorted}
use citescoop.StdMap.Keys.{text_ord, number_ord}
use citescoop.Dump.Citations.{
  References, id_of, erase_citation, check_existing_citations, add_citation, add_new_citations,
  add_revision, add_revisions,
}
use citescoop.Dump.Citations.Track.{
  seen, IsStored, check-same_id, check_citation-Returns, reference-Returns,
}

abbrev keys : Map Text Citation → List Text
keys = map (λ entry. entry.0)

Above-keys : (k : Text) (m n : Map Text Citation) → keys m ≡ keys n → Above k m → Above k n
Above-keys k [] [] e a = tt
Above-keys k [] (y ∷ n) e a = absurd (cc)
Above-keys k (x ∷ m) [] e a = absurd (cc)
Above-keys k ((i, c) ∷ m) ((j, d) ∷ n) e a = (ground (arith, a.0), Above-keys k m n (cc) a.1)

IsSorted-keys : (m n : Map Text Citation) → keys m ≡ keys n → IsSorted m → IsSorted n
IsSorted-keys [] [] e s = tt
IsSorted-keys [] (y ∷ n) e s = absurd (cc)
IsSorted-keys (x ∷ m) [] e s = absurd (cc)
IsSorted-keys ((i, c) ∷ m) ((j, d) ∷ n) e s =
    let i-eq : i ≡ j = cc in
    (Above-keys j m n (cc) (subst (λ k. Above k m) i-eq s.0), IsSorted-keys m n (cc) s.1)

module _ (page_revisions : Map ℕ Revision) where
  -- CheckExistingCitations changes no key.
  check-keys :
      (discovered : Map Text Citation) (revision : RevisionCitations) (refs : References)
      → IsStored page_revisions revision
      → Returns
          (check_existing_citations page_revisions discovered revision refs)
          (λ r. keys discovered ≡ keys r.1)
  unfolding check_existing_citations
  check-keys [] revision refs h = refl
  check-keys ((key, c) ∷ discovered) revision refs h =
      Returns-bind _ _ (λ r. r.0 ≡ seen (id_of revision) (contains revision.citations key) c)
        (λ r. keys ((key, c) ∷ discovered) ≡ keys r.1)
        (check_citation-Returns page_revisions (id_of revision) h (contains revision.citations key)
          c refs)
        λ (c', refs') e.
          Returns-bind _ _ (λ r. keys discovered ≡ keys r.1)
            (λ r. keys ((key, c) ∷ discovered) ≡ keys r.1)
            (check-keys discovered (erase_citation key revision) refs' h) (λ r k. ap (◌∷◌ key) k)

  abbrev InOrder : Map Text Citation × References → Type 0
  InOrder r = IsSorted r.0

  add_citation-InOrder :
      (id : ℕ) (key : Text) (e : ExtractedCitation) (discovered : Map Text Citation)
      (refs : References)
      → contains page_revisions id ≡ true
      → IsSorted discovered
      → Returns (add_citation page_revisions id key e discovered refs) InOrder
  unfolding add_citation
  add_citation-InOrder id key e discovered refs h s = elim (Bool-cases (contains discovered key)) [
    | inl old ↦ rw old s
    | inr new ↦ rw new (
        Returns-bind _ _ (λ _. Unit {0}) InOrder (reference-Returns page_revisions id h refs)
          (λ refs' _. insert-IsSorted key _ discovered s))
  ]

  add_new_citations-InOrder :
      (id : ℕ) (entries : List (Text × ExtractedCitation)) (discovered : Map Text Citation)
      (refs : References)
      → contains page_revisions id ≡ true
      → IsSorted discovered
      → Returns (add_new_citations page_revisions id entries discovered refs) InOrder
  unfolding add_new_citations
  add_new_citations-InOrder id [] discovered refs h s = s
  add_new_citations-InOrder id ((key, e) ∷ entries) discovered refs h s =
      Returns-bind _ _ InOrder InOrder (add_citation-InOrder id key e discovered refs h s)
        λ (d, refs') t. add_new_citations-InOrder id entries d refs' h t

  add_revision-InOrder :
      (revision : RevisionCitations) (discovered : Map Text Citation) (refs : References)
      → IsStored page_revisions revision
      → IsSorted discovered
      → Returns (add_revision page_revisions revision discovered refs) InOrder
  unfolding add_revision
  add_revision-InOrder revision discovered refs h s =
      Returns-bind _ _ (λ r. (id_of r.0 ≡ id_of revision) × (keys discovered ≡ keys r.1)) InOrder
        (Returns-and _ (λ r. id_of r.0 ≡ id_of revision) (λ r. keys discovered ≡ keys r.1)
          (check-same_id page_revisions discovered revision refs h)
          (check-keys discovered revision refs h))
        λ (r, d, refs') y.
          add_new_citations-InOrder (id_of r) r.citations d refs' (rw y.0 h)
            (IsSorted-keys discovered d y.1 s)

  pub add_revisions-InOrder :
      (revisions : List RevisionCitations) (discovered : Map Text Citation) (refs : References)
      → All (IsStored page_revisions) revisions
      → IsSorted discovered
      → Returns (add_revisions page_revisions revisions discovered refs) (λ r. IsSorted r.0)
  unfolding add_revisions
  add_revisions-InOrder [] discovered refs h s = s
  add_revisions-InOrder (revision ∷ revisions) discovered refs h s =
      Returns-bind _ _ InOrder InOrder (add_revision-InOrder revision discovered refs h.0 s)
        λ (d, refs') t. add_revisions-InOrder revisions d refs' h.1 t
