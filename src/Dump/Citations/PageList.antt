-- ===== src/Dump/Citations/PageList.antt =====
-- What MakePageCitationList gives a page, and what it stores with it.
use mathlib.Core.List.{Perm}
use mathlib.Core.List.Perm
use citescoop.Prelude.{ℕ, ◌≡◌, refl, sym, subst, Bool, none, List, [], ◌==◌, if◌then◌else◌}
use citescoop.Prelude.Permutation.{Passes, Passes-perm}
use citescoop.Prelude.Text.{Text}
use citescoop.Proto.{Revision, RevisionCitations, Citation, Page}
use citescoop.Result.{Returns, Returns-bind, Returns-and, Returns-weaken}
use citescoop.StdMap.{Map, find, contains, IsSorted}
use citescoop.StdMap.Keys.{text_ord, number_ord}
use citescoop.Dump.Citations.{
  References, Sort, id_of, earlier, add_revisions, make_page_citation_list,
}
use citescoop.Dump.Citations.Counts.{references_in, values}
use citescoop.Dump.Citations.Exact.{CountsAll, add_revisions-Exact}
use citescoop.Dump.Citations.Lifetime.{lifetime, add_revisions-lifetime}
use citescoop.Dump.Citations.Order.{add_revisions-InOrder}

-- What the standard says of std::ranges::sort.
pub record SortLaws (sort : Sort) : Type 0 where
  pub permutes :
      (lt : RevisionCitations → RevisionCitations → Bool) (xs : List RevisionCitations)
      → Perm (sort lt xs) xs

-- Every revision whose citations are listed is among the revisions of the page, by its id.
abbrev pub AllStored : Map ℕ Revision → List RevisionCitations → Type 0
AllStored page_revisions = Passes (λ r. contains page_revisions (id_of r))

-- The citations of a page as the revisions in the given order determine them: one for each key,
-- in the order of the keys, with the lifetime of its key.
pub record PageCitations (revisions : List RevisionCitations) (citations : List Citation)
    : Type 0 where
  pub discovered : Map Text Citation
  pub sorted : IsSorted discovered
  pub lifetimes : (key : Text) → find discovered key ≡ lifetime key revisions
  pub listed : citations ≡ values discovered

-- What is stored with a page are the revisions that its citations name, and no other.
pub record StoredRevisions (page_revisions : Map ℕ Revision) (citations : List Citation)
    (to_store : Map ℕ Revision) : Type 0 where
  pub at_id :
      (id : ℕ)
      → find to_store id
        ≡ (if references_in citations id == 0 then none else find page_revisions id)

-- Both, and a page that is otherwise as it was.
pub record PageMade (page_revisions : Map ℕ Revision) (revisions : List RevisionCitations)
    (page : Page) (r : Page × Map ℕ Revision) : Type 0 where
  pub cited : PageCitations revisions r.0.citations
  pub referenced : StoredRevisions page_revisions r.0.citations r.1
  pub same_title : r.0.title ≡ page.title
  pub same_id : r.0.page_id ≡ page.page_id

module _ (sort : Sort) (laws : SortLaws sort) (page_revisions : Map ℕ Revision)
    (revisions : List RevisionCitations) (page : Page) where
  sorted-AllStored :
      AllStored page_revisions revisions → AllStored page_revisions (sort earlier revisions)
  sorted-AllStored h =
      Passes-perm (λ r. contains page_revisions (id_of r)) revisions (sort earlier revisions)
        (Perm.symm (laws.permutes earlier revisions)) h

  -- Given a sort that permutes its list: for a page without citations yet, all of whose revisions
  -- are known, and with no revisions to store yet, MakePageCitationList returns. The page then has
  -- one citation for each key that some revision has, in the order of the keys, added by the first
  -- of the sorted revisions that has it and removed by the one behind the last that has it.
  pub make_page_citation_list-PageCitations :
      AllStored page_revisions revisions
      → page.citations ≡ []
      → Returns
          (make_page_citation_list sort page_revisions revisions [] page)
          (λ r. PageCitations (sort earlier revisions) r.0.citations)
  unfolding make_page_citation_list
  make_page_citation_list-PageCitations h none_yet =
      let start : References = record { to_store = []; ref_count = [] } in
      let ordered = sort earlier revisions in
      Returns-bind (add_revisions page_revisions ordered [] start) _
        (λ r. ((key : Text) → find r.0 key ≡ lifetime key ordered) × IsSorted r.0)
        (λ r. PageCitations ordered r.0.citations)
        (Returns-and _ (λ r. (key : Text) → find r.0 key ≡ lifetime key ordered) (λ r. IsSorted r.0)
          (add_revisions-lifetime page_revisions ordered start (sorted-AllStored h))
          (add_revisions-InOrder page_revisions ordered [] start (sorted-AllStored h) tt))
        λ (d, refs) y. record {
          discovered = d;
          sorted = y.1;
          lifetimes = y.0;
          listed = rw none_yet;
        }

  -- Given a sort that permutes its list: for a page without citations yet, all of whose revisions
  -- are known, and with no revisions to store yet, MakePageCitationList returns, and the revisions
  -- to store are those that the citations of the page name, as added or as removed by, each with
  -- the content that the page has for it.
  pub make_page_citation_list-StoredRevisions :
      AllStored page_revisions revisions
      → page.citations ≡ []
      → Returns
          (make_page_citation_list sort page_revisions revisions [] page)
          (λ r. StoredRevisions page_revisions r.0.citations r.1)
  unfolding make_page_citation_list find references_in
  make_page_citation_list-StoredRevisions h none_yet =
      let start : References = record { to_store = []; ref_count = [] } in
      let ordered = sort earlier revisions in
      Returns-bind (add_revisions page_revisions ordered [] start) _ (CountsAll page_revisions)
        (λ r. StoredRevisions page_revisions r.0.citations r.1)
        (add_revisions-Exact page_revisions ordered [] start (sorted-AllStored h)
          (record { count = λ id. refl; stored = λ id. refl }))
        λ (d, refs) x. rw none_yet (record { at_id = x.stored })

  -- The rest of the page stays as it is.
  pub make_page_citation_list-kept :
      AllStored page_revisions revisions
      → Returns
          (make_page_citation_list sort page_revisions revisions [] page)
          (λ r. (r.0.title ≡ page.title) × (r.0.page_id ≡ page.page_id))
  unfolding make_page_citation_list
  make_page_citation_list-kept h =
      let start : References = record { to_store = []; ref_count = [] } in
      let ordered = sort earlier revisions in
      Returns-bind (add_revisions page_revisions ordered [] start) _ (λ r. IsSorted r.0)
        (λ r. (r.0.title ≡ page.title) × (r.0.page_id ≡ page.page_id))
        (add_revisions-InOrder page_revisions ordered [] start (sorted-AllStored h) tt)
        λ (d, refs) y. (refl, refl)

  pub make_page_citation_list-PageMade :
      (to_store : Map ℕ Revision)
      → AllStored page_revisions revisions
      → page.citations ≡ []
      → to_store ≡ []
      → Returns
          (make_page_citation_list sort page_revisions revisions to_store page)
          (PageMade page_revisions (sort earlier revisions) page)
  make_page_citation_list-PageMade to_store h none_yet empty =
      subst
        (λ m.
          Returns (make_page_citation_list sort page_revisions revisions m page)
            (PageMade page_revisions (sort earlier revisions) page))
        (sym empty)
        (Returns-weaken _ (λ r. Parts r) (PageMade page_revisions (sort earlier revisions) page)
          (Returns-and _ Cited Others (make_page_citation_list-PageCitations h none_yet) (
            Returns-and _ Stored Kept (make_page_citation_list-StoredRevisions h none_yet)
              (make_page_citation_list-kept h)))
          (λ r x. record {
            cited = x.0;
            referenced = x.1.0;
            same_title = x.1.1.0;
            same_id = x.1.1.1;
          }))
    where
      Cited : Page × Map ℕ Revision → Type 0
      Cited r = PageCitations (sort earlier revisions) r.0.citations

      Stored : Page × Map ℕ Revision → Type 0
      Stored r = StoredRevisions page_revisions r.0.citations r.1

      Kept : Page × Map ℕ Revision → Type 0
      Kept r = (r.0.title ≡ page.title) × (r.0.page_id ≡ page.page_id)

      Others : Page × Map ℕ Revision → Type 0
      Others r = Stored r × Kept r

      Parts : Page × Map ℕ Revision → Type 0
      Parts r = Cited r × Others r
