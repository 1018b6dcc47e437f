-- ===== src/Dump/Citations/Lifetime.antt =====
-- The record that a page keeps of a citation, against a description of it by the whole history:
-- it is added by the first revision that has it, and removed by the revision behind the last one
-- that has it.
use citescoop.Prelude.{
  ℕ, ◌≡◌, refl, ◌∙◌, Bool, false, ◌||◌, Option, none, some, List, [], ◌∷◌, arith, if◌then◌else◌,
  Option-cases, inl, inr, All,
}
use citescoop.Prelude.Text.{Text}
use citescoop.Proto.{Revision, RevisionCitations, Citation}
use citescoop.Result.{Returns, Returns-weaken}
use citescoop.StdMap.{Map, find, contains, or_else}
use citescoop.StdMap.Keys.{text_ord, number_ord}
use citescoop.Dump.Citations.{References, id_of, add_revisions}
use citescoop.Dump.Citations.Track.{follow, IsStored, Followed, add_revisions-Followed}

-- Some revision has a citation under the key.
unfoldable pub appears : Text → List RevisionCitations → Bool
appears key [] = false
appears key (r ∷ rs) = contains r.citations key || appears key rs

-- The first of the revisions from which on none has the key.
unfoldable pub gone : Text → List RevisionCitations → Option ℕ
unfolding appears
gone key [] = none
gone key (r ∷ rs) = if appears key (r ∷ rs) then gone key rs else some (id_of r)

-- The first revision that has the key gives the citation and its `revision_added`.
unfoldable pub lifetime : Text → List RevisionCitations → Option Citation
unfolding gone
lifetime key [] = none
lifetime key (r ∷ rs) = elim (find r.citations key) [
  | none ↦ lifetime key rs
  | some e ↦
      some (record { citation = e; revision_added = id_of r; revision_removed = gone key rs })
]

gone_absent :
    (key : Text) (r : RevisionCitations) (rs : List RevisionCitations)
    → appears key (r ∷ rs) ≡ false
    → gone key (r ∷ rs) ≡ some (id_of r)
unfolding gone
gone_absent key r rs h = ground arith

-- The removal that a record shows after the revisions, from the one that it showed before.
removal : Text → List RevisionCitations → Option ℕ → Option ℕ
unfolding gone
removal key rs before = or_else (if appears key rs then none else before) (gone key rs)

follow-removal :
    (key : Text) (rs : List RevisionCitations) (c : Citation)
    → follow key rs (some c)
      ≡ some (record c { revision_removed = removal key rs c.revision_removed })
unfolding removal
follow-removal key [] c = ground arith
follow-removal key (r ∷ rs) c = ground (
  arith,
  follow-removal key rs (record c { revision_removed = none }),
  follow-removal key rs
      (record c { revision_removed = or_else c.revision_removed (some (id_of r)) }),
)

pub follow-lifetime :
    (key : Text) (rs : List RevisionCitations) → follow key rs none ≡ lifetime key rs
unfolding lifetime removal
follow-lifetime key [] = refl
follow-lifetime key (r ∷ rs) = elim (Option-cases (find r.citations key)) [
  | inl absent ↦ ground (arith, follow-lifetime key rs)
  | inr (e, here) ↦ ground (
    arith,
    follow-removal key rs
        (record { citation = e; revision_added = id_of r; revision_removed = none }),
  )
]

-- After the loop over the revisions of a page, every one of which is known, which starts from no
-- citations and returns, the map of the discovered citations holds under each key the lifetime
-- that the revisions give it.
pub add_revisions-lifetime :
    (page_revisions : Map ℕ Revision) (revisions : List RevisionCitations) (refs : References)
    → All (IsStored page_revisions) revisions
    → Returns
        (add_revisions page_revisions revisions [] refs)
        (λ r. (key : Text) → find r.0 key ≡ lifetime key revisions)
unfolding find
add_revisions-lifetime page_revisions revisions refs h =
    Returns-weaken _ (Followed revisions [])
      (λ r. (key : Text) → find r.0 key ≡ lifetime key revisions)
      (add_revisions-Followed page_revisions revisions [] refs h)
      λ r f key. f.at_key key ∙ follow-lifetime key revisions
