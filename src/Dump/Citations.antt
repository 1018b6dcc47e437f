-- ===== src/Dump/Citations.antt =====
-- The citations of one page over its revisions: CheckExistingCitations, AddNewCitations and
-- MakePageCitationList of src/extract/dump_parser.cc.
pub mod Track
pub mod Lifetime
pub mod Counts
mod Exact
mod Order
pub mod PageList
pub mod Named
pub mod Earlier
pub mod Reordered
mod StoreOrder
pub mod AnyOrder
use citescoop.Prelude.{
  ℕ, Bool, true, false, Option, none, some, List, [], ◌∷◌, ◌++◌, map, if◌then◌else◌,
}
use citescoop.Prelude.Int.{ℤ, pos, increment, decrement, not_positive, ltb_ℤ, eqb_ℤ}
use citescoop.Prelude.Text.{Text}
use citescoop.Proto.{
  Revision, RevisionCitations, Citation, ExtractedCitation, Page, revision_or_default,
  timestamp_or_default,
}
use citescoop.Result.{Result, ok, err, out_of_range, ◌>>=◌}
use citescoop.StdMap.{Map, find, contains, insert, put, erase}
use citescoop.StdMap.Keys.{number_ord, text_ord}

-- m.at(k)
unfoldable pub value_at : Map ℕ Revision → ℕ → Result Revision
value_at m k = elim (find m k) [ none ↦ err out_of_range | some r ↦ ok r ]

-- revisions_to_store_ and *ref_count
pub record References : Type 0 where
  pub to_store : Map ℕ Revision
  pub ref_count : Map ℕ ℤ

abbrev pub or_zero : Option ℤ → ℤ
or_zero none = pos 0
or_zero (some n) = n

-- (*ref_count)[id]
abbrev pub count_of : Map ℕ ℤ → ℕ → ℤ
count_of m id = or_zero (find m id)

-- One reference to the revision less; the last one takes it out of the revisions to store.
unfoldable pub unreference : ℕ → References → References
unreference id refs =
    let count = decrement (count_of refs.ref_count id) in
    record {
      to_store = if not_positive count then erase id refs.to_store else refs.to_store;
      ref_count = put id count refs.ref_count;
    }

-- One reference to the revision more.
unfoldable pub reference : Map ℕ Revision → ℕ → References → Result References
unfolding value_at
reference page_revisions id refs = do
  revision ← value_at page_revisions id
  ok (record {
    to_store = insert id revision refs.to_store;
    ref_count = put id (increment (count_of refs.ref_count id)) refs.ref_count;
  })

-- A citation of this page that the revision has again is not removed.
unfoldable pub restore : Option ℕ → Citation → References → Citation × References
unfolding unreference
restore none citation refs = (citation, refs)
restore (some removed) citation refs =
    (record citation { revision_removed = none }, unreference removed refs)

-- A citation that the revision lacks is removed by it, unless an earlier one removed it.
unfoldable pub mark_removed :
    Map ℕ Revision → ℕ → Option ℕ → Citation → References → Result (Citation × References)
unfolding reference
mark_removed page_revisions id none citation refs = do
  refs' ← reference page_revisions id refs
  ok (record citation { revision_removed = some id }, refs')
mark_removed page_revisions id (some removed) citation refs = ok (citation, refs)

-- The loop body of CheckExistingCitations but for the erasure; the flag says whether the
-- revision has the citation.
unfoldable pub check_citation :
    Map ℕ Revision → ℕ → Bool → Citation → References → Result (Citation × References)
unfolding restore mark_removed
check_citation page_revisions id true citation refs =
    ok (restore citation.revision_removed citation refs)
check_citation page_revisions id false citation refs =
    mark_removed page_revisions id citation.revision_removed citation refs

-- revision->revision().revision_id()
abbrev pub id_of : RevisionCitations → ℕ
id_of revision = (revision_or_default revision.revision).revision_id

abbrev pub erase_citation : Text → RevisionCitations → RevisionCitations
erase_citation key revision = record revision {
  citations =
      if contains revision.citations key then erase key revision.citations else revision.citations;
}

unfoldable pub check_existing_citations :
    Map ℕ Revision
    → Map Text Citation
    → RevisionCitations
    → References
    → Result (RevisionCitations × Map Text Citation × References)
unfolding check_citation
check_existing_citations page_revisions [] revision refs = ok (revision, [], refs)
check_existing_citations page_revisions ((key, citation) ∷ discovered) revision refs = do
  (citation', refs') ←
      check_citation page_revisions (id_of revision) (contains revision.citations key) citation refs
  (revision', discovered', refs'') ←
      check_existing_citations page_revisions discovered (erase_citation key revision) refs'
  ok (revision', (key, citation') ∷ discovered', refs'')

-- The loop body of AddNewCitations.
unfoldable pub add_citation :
    Map ℕ Revision
    → ℕ
    → Text
    → ExtractedCitation
    → Map Text Citation
    → References
    → Result (Map Text Citation × References)
unfolding reference
add_citation page_revisions id key extracted discovered refs =
    if contains discovered key then ok (discovered, refs) else do
      refs' ← reference page_revisions id refs
      ok (
        insert key (record { citation = extracted; revision_added = id; revision_removed = none })
            discovered,
        refs',
      )

unfoldable pub add_new_citations :
    Map ℕ Revision
    → ℕ
    → List (Text × ExtractedCitation)
    → Map Text Citation
    → References
    → Result (Map Text Citation × References)
unfolding add_citation
add_new_citations page_revisions id [] discovered refs = ok (discovered, refs)
add_new_citations page_revisions id ((key, extracted) ∷ citations) discovered refs = do
  (discovered', refs') ← add_citation page_revisions id key extracted discovered refs
  add_new_citations page_revisions id citations discovered' refs'

-- One round of the loop of MakePageCitationList.
unfoldable pub add_revision :
    Map ℕ Revision
    → RevisionCitations
    → Map Text Citation
    → References
    → Result (Map Text Citation × References)
unfolding check_existing_citations add_new_citations
add_revision page_revisions revision discovered refs = do
  (revision', discovered', refs') ← check_existing_citations page_revisions discovered revision refs
  add_new_citations page_revisions (id_of revision') revision'.citations discovered' refs'

unfoldable pub add_revisions :
    Map ℕ Revision
    → List RevisionCitations
    → Map Text Citation
    → References
    → Result (Map Text Citation × References)
unfolding add_revision
add_revisions page_revisions [] discovered refs = ok (discovered, refs)
add_revisions page_revisions (revision ∷ revisions) discovered refs = do
  (discovered', refs') ← add_revision page_revisions revision discovered refs
  add_revisions page_revisions revisions discovered' refs'

-- The comparison of the sort: by the seconds of the time stamps, then by the nanoseconds.
unfoldable pub earlier : RevisionCitations → RevisionCitations → Bool
earlier first second =
    let a = timestamp_or_default (revision_or_default first.revision).timestamp in
    let b = timestamp_or_default (revision_or_default second.revision).timestamp in
    if eqb_ℤ a.seconds b.seconds then ltb_ℤ a.nanos b.nanos else ltb_ℤ a.seconds b.seconds

-- std::ranges::sort, which may order elements that compare equal in any way.
abbrev pub Sort : Type 0
Sort =
    (RevisionCitations → RevisionCitations → Bool) → List RevisionCitations → List RevisionCitations

-- The citations of the page, and the revisions to store with it.
unfoldable pub make_page_citation_list :
    Sort
    → Map ℕ Revision
    → List RevisionCitations
    → Map ℕ Revision
    → Page
    → Result (Page × Map ℕ Revision)
unfolding add_revisions earlier
make_page_citation_list sort page_revisions citations_by_revision to_store page = do
  (discovered, refs) ←
      add_revisions page_revisions (sort earlier citations_by_revision) []
        (record { to_store = to_store; ref_count = [] })
  ok (
    record page { citations = page.citations ++ map (λ entry. entry.1) discovered },
    refs.to_store,
  )
