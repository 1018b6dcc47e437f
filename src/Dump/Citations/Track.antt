-- ===== src/Dump/Citations/Track.antt =====
-- What one revision does to the record of each citation, seen through lookups by key.
use citescoop.Prelude.{
  ℕ, ◌≡◌, refl, ap, ◌∙◌, Bool, true, false, Option, none, some, List, [], ◌∷◌, arith, if◌then◌else◌,
  is_some, All, inl, inr, Bool-cases,
}
use citescoop.Prelude.Text.{Text, text_eq, text_eq_iff}
use citescoop.Proto.{Revision, RevisionCitations, Citation, ExtractedCitation}
use citescoop.Result.{Returns, Returns-bind, Returns-weaken}
use citescoop.StdMap.{Map, find, contains, or_else, find-insert, find-erase}
use citescoop.StdMap.Keys.{number_ord, text_ord}
use citescoop.Dump.Citations.{
  References, reference, check_citation, id_of, erase_citation, check_existing_citations,
  add_citation, add_new_citations, add_revision, add_revisions,
}

-- The record of a known citation after a revision; the flag says whether the revision has it.
abbrev pub seen : ℕ → Bool → Citation → Citation
seen id true c = record c { revision_removed = none }
seen id false c = record c { revision_removed = or_else c.revision_removed (some id) }

abbrev pub fresh : ℕ → Option ExtractedCitation → Option Citation
fresh id none = none
fresh id (some e) = some (record { citation = e; revision_added = id; revision_removed = none })

-- The record of a citation after a revision, from what the revision has under the key and from
-- the record before it.
abbrev pub track : ℕ → Option ExtractedCitation → Option Citation → Option Citation
track id here none = fresh id here
track id here (some c) = some (seen id (is_some here) c)

abbrev pub follow : Text → List RevisionCitations → Option Citation → Option Citation
follow key [] c = c
follow key (r ∷ rs) c = follow key rs (track (id_of r) (find r.citations key) c)

-- The page has the revision, under the id that its citations name.
abbrev pub IsStored : Map ℕ Revision → RevisionCitations → Type 0
IsStored page_revisions r = contains page_revisions (id_of r) ≡ true

abbrev known : Option Citation → Option ExtractedCitation → Option ExtractedCitation
known none here = here
known (some c) here = none

abbrev seen_if : ℕ → Bool → Option Citation → Option Citation
seen_if id present none = none
seen_if id present (some c) = some (seen id present c)

record Checked (discovered : Map Text Citation) (revision : RevisionCitations)
    (r : RevisionCitations × Map Text Citation × References) : Type 0 where
  same_id : id_of r.0 ≡ id_of revision
  left :
      (key : Text)
      → find r.0.citations key ≡ known (find discovered key) (find revision.citations key)
  marked :
      (key : Text)
      → find r.1 key
        ≡ seen_if (id_of revision) (contains revision.citations key) (find discovered key)

-- Every key that the page lacks gets a fresh record, if the entries have it.
record Added (id : ℕ) (entries : List (Text × ExtractedCitation)) (discovered : Map Text Citation)
    (r : Map Text Citation × References) : Type 0 where
  at_key : (j : Text) → find r.0 j ≡ or_else (find discovered j) (fresh id (find entries j))

record Tracked (revision : RevisionCitations) (discovered : Map Text Citation)
    (r : Map Text Citation × References) : Type 0 where
  at_key :
      (key : Text)
      → find r.0 key ≡ track (id_of revision) (find revision.citations key) (find discovered key)

pub record Followed (revisions : List RevisionCitations) (discovered : Map Text Citation)
    (r : Map Text Citation × References) : Type 0 where
  pub at_key : (key : Text) → find r.0 key ≡ follow key revisions (find discovered key)

module _ (page_revisions : Map ℕ Revision) where
  module _ (id : ℕ) (stored : contains page_revisions id ≡ true) where
    pub reference-Returns :
        (refs : References) → Returns (reference page_revisions id refs) (λ _. Unit {0})
    unfolding reference
    reference-Returns refs = ground arith

    pub check_citation-Returns :
        (present : Bool) (c : Citation) (refs : References)
        → Returns (check_citation page_revisions id present c refs) (λ r. r.0 ≡ seen id present c)
    unfolding check_citation
    check_citation-Returns present c refs = ground arith

  find-erase_citation :
      (key : Text) (revision : RevisionCitations) (j : Text)
      → find (erase_citation key revision).citations j
        ≡ (if text_eq key j then none else find revision.citations j)
  find-erase_citation key revision j =
      ground (arith, find-erase key revision.citations j, text_eq_iff key j)

  -- What is left of the citations is the head's business first, and then that of the others.
  Checked-cons :
      (key : Text) (c c' : Citation) (discovered : Map Text Citation) (revision : RevisionCitations)
      (r : RevisionCitations × Map Text Citation × References)
      → c' ≡ seen (id_of revision) (contains revision.citations key) c
      → Checked discovered (erase_citation key revision) r
      → Checked ((key, c) ∷ discovered) revision (r.0, (key, c') ∷ r.1, r.2)
  unfolding find
  Checked-cons key c c' discovered revision r e h = record {
    same_id = h.same_id;
    left = λ j. ground (arith, h.left j, find-erase_citation key revision j, text_eq_iff key j);
    marked =
        λ j. ground (arith, e, h.marked j, find-erase_citation key revision j, text_eq_iff key j);
  }

  check-Checked :
      (discovered : Map Text Citation) (revision : RevisionCitations) (refs : References)
      → IsStored page_revisions revision
      → Returns
          (check_existing_citations page_revisions discovered revision refs)
          (Checked discovered revision)
  unfolding check_existing_citations find
  check-Checked [] revision refs h = record {
    same_id = refl;
    left = λ key. refl;
    marked = λ key. refl;
  }
  check-Checked ((key, c) ∷ discovered) revision refs h =
      Returns-bind _ _ (λ r. r.0 ≡ seen (id_of revision) (contains revision.citations key) c)
        (Checked ((key, c) ∷ discovered) revision)
        (check_citation-Returns (id_of revision) h (contains revision.citations key) c refs)
        λ (c', refs') e.
          Returns-bind _ _ (Checked discovered (erase_citation key revision))
            (Checked ((key, c) ∷ discovered) revision)
            (check-Checked discovered (erase_citation key revision) refs' h)
            (λ r. Checked-cons key c c' discovered revision r e)

  pub check-same_id :
      (discovered : Map Text Citation) (revision : RevisionCitations) (refs : References)
      → IsStored page_revisions revision
      → Returns
          (check_existing_citations page_revisions discovered revision refs)
          (λ r. id_of r.0 ≡ id_of revision)
  check-same_id discovered revision refs h =
      Returns-weaken _ (Checked discovered revision) (λ r. id_of r.0 ≡ id_of revision)
        (check-Checked discovered revision refs h) (λ r c. c.same_id)

  add_citation-Added :
      (id : ℕ) (key : Text) (e : ExtractedCitation) (discovered : Map Text Citation)
      (refs : References)
      → contains page_revisions id ≡ true
      → Returns
          (add_citation page_revisions id key e discovered refs)
          (Added id ((key, e) ∷ []) discovered)
  unfolding add_citation find
  add_citation-Added id key e discovered refs h = elim (Bool-cases (contains discovered key)) [
    | inl old ↦ rw old (record { at_key = λ j. ground (arith, text_eq_iff key j) })
    | inr new ↦ rw new (
        Returns-bind _ _ (λ _. Unit {0}) (Added id ((key, e) ∷ []) discovered)
          (reference-Returns id h refs)
          λ refs' _. record {
            at_key = λ j. ground (
              arith,
              text_eq_iff key j,
              find-insert {V = Citation} key
                  (record { citation = e; revision_added = id; revision_removed = none }) discovered
                  j,
            );
          })
  ]

  Added-cons :
      (id : ℕ) (key : Text) (e : ExtractedCitation) (entries : List (Text × ExtractedCitation))
      (discovered : Map Text Citation) (r s : Map Text Citation × References)
      → Added id ((key, e) ∷ []) discovered r
      → Added id entries r.0 s
      → Added id ((key, e) ∷ entries) discovered s
  unfolding find
  Added-cons id key e entries discovered r s g h = record {
    at_key = λ j. ground (arith, g.at_key j, h.at_key j);
  }

  add_new_citations-Added :
      (id : ℕ) (entries : List (Text × ExtractedCitation)) (discovered : Map Text Citation)
      (refs : References)
      → contains page_revisions id ≡ true
      → Returns
          (add_new_citations page_revisions id entries discovered refs)
          (Added id entries discovered)
  unfolding add_new_citations find
  add_new_citations-Added id [] discovered refs h = record { at_key = λ j. ground arith }
  add_new_citations-Added id ((key, e) ∷ entries) discovered refs h =
      Returns-bind _ _ (Added id ((key, e) ∷ []) discovered)
        (Added id ((key, e) ∷ entries) discovered) (add_citation-Added id key e discovered refs h)
        λ (d, refs') g.
          Returns-weaken _ (Added id entries d) (Added id ((key, e) ∷ entries) discovered)
            (add_new_citations-Added id entries d refs' h)
            (λ s. Added-cons id key e entries discovered (d, refs') s g)

  add_revision-Tracked :
      (revision : RevisionCitations) (discovered : Map Text Citation) (refs : References)
      → IsStored page_revisions revision
      → Returns (add_revision page_revisions revision discovered refs) (Tracked revision discovered)
  unfolding add_revision
  add_revision-Tracked revision discovered refs h =
      Returns-bind _ _ (Checked discovered revision) (Tracked revision discovered)
        (check-Checked discovered revision refs h)
        λ (r, d, refs') c.
          Returns-weaken _ (Added (id_of r) r.citations d) (Tracked revision discovered)
            (add_new_citations-Added (id_of r) r.citations d refs' (rw c.same_id h))
            λ s a. record {
              at_key = λ key. ground (arith, c.same_id, c.left key, c.marked key, a.at_key key);
            }

  -- With every revision stored, the loop over the revisions returns, and each key has been
  -- followed through all of them.
  pub add_revisions-Followed :
      (revisions : List RevisionCitations) (discovered : Map Text Citation) (refs : References)
      → All (IsStored page_revisions) revisions
      → Returns
          (add_revisions page_revisions revisions discovered refs)
          (Followed revisions discovered)
  unfolding add_revisions
  add_revisions-Followed [] discovered refs h = record { at_key = λ key. refl }
  add_revisions-Followed (revision ∷ revisions) discovered refs h =
      Returns-bind _ _ (Tracked revision discovered) (Followed (revision ∷ revisions) discovered)
        (add_revision-Tracked revision discovered refs h.0)
        λ (d, refs') t.
          Returns-weaken _ (Followed revisions d) (Followed (revision ∷ revisions) discovered)
            (add_revisions-Followed revisions d refs' h.1)
            λ s f. record {
              at_key = λ key. f.at_key key ∙ ap (follow key revisions) (t.at_key key);
            }
