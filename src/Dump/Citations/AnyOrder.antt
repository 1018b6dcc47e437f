-- ===== src/Dump/Citations/AnyOrder.antt =====
-- MakePageCitationList gives the same page and the same revisions to store in whatever order the
-- revisions of the page come.
use mathlib.Core.List.{Perm}
use citescoop.Prelude.{ℕ, ◌≡◌, refl, sym, ap, subst, ◌∙◌, Bool, List, [], ◌∷◌}
use citescoop.Prelude.Permutation.{Passes, Passes-perm}
use citescoop.Prelude.Text.{Text}
use citescoop.Proto.{Revision, RevisionCitations, Citation, Page, revision_or_default}
use citescoop.Result.{Returns, IfReturns, IfReturns-bind, Returns-both, Returns-eq}
use citescoop.StdMap.{Map, contains, IsSorted, find_ext}
use citescoop.StdMap.Keys.{text_ord, number_ord}
use citescoop.Dump.Citations.{References, Sort, earlier, make_page_citation_list}
use citescoop.Dump.Citations.Counts.{values}
use citescoop.Dump.Citations.PageList.{
  SortLaws, AllStored, PageCitations, StoredRevisions, PageMade, make_page_citation_list-PageMade,
}
use citescoop.Dump.Citations.Reordered.{
  SortOrderLaws, Content, contents, DistinctTimes, contents-sort, lifetime-contents,
}
use citescoop.Dump.Citations.StoreOrder.{add_revisions-IsSorted}

-- Two lists of revisions with the same contents give a page the same citations.
PageCitations-contents :
    (rs qs : List RevisionCitations) (a b : List Citation)
    → contents rs ≡ contents qs
    → PageCitations rs a
    → PageCitations qs b
    → a ≡ b
PageCitations-contents rs qs a b e x y =
    x.listed
    ∙ ap values (
        find_ext x.discovered y.discovered x.sorted y.sorted
          (λ key. x.lifetimes key ∙ lifetime-contents key rs qs e ∙ sym (y.lifetimes key)))
    ∙ sym y.listed

module _ (page_revisions : Map ℕ Revision) where
  -- What one list of citations names is one map.
  StoredRevisions-unique :
      (cs : List Citation) (s t : Map ℕ Revision)
      → IsSorted s
      → IsSorted t
      → StoredRevisions page_revisions cs s
      → StoredRevisions page_revisions cs t
      → s ≡ t
  StoredRevisions-unique cs s t s_sorted t_sorted x y =
      find_ext s t s_sorted t_sorted λ id. x.at_id id ∙ sym (y.at_id id)

  known : Content → Bool
  known c = contains page_revisions (revision_or_default c.0).revision_id

  contents-AllStored :
      (rs : List RevisionCitations) → AllStored page_revisions rs → Passes known (contents rs)
  unfolding known
  contents-AllStored [] h = tt
  contents-AllStored (r ∷ rs) h = (h.0, contents-AllStored rs h.1)

  AllStored-contents :
      (rs : List RevisionCitations) → Passes known (contents rs) → AllStored page_revisions rs
  unfolding known
  AllStored-contents [] h = tt
  AllStored-contents (r ∷ rs) h = (h.0, AllStored-contents rs h.1)

  reordered-AllStored :
      (rs qs : List RevisionCitations)
      → Perm (contents rs) (contents qs)
      → AllStored page_revisions rs
      → AllStored page_revisions qs
  reordered-AllStored rs qs p h =
      AllStored-contents qs
        (Passes-perm known (contents rs) (contents qs) p (contents-AllStored rs h))

  module _ (sort : Sort) (laws : SortLaws sort) (order_laws : SortOrderLaws sort) (page : Page)
      (none_yet : page.citations ≡ []) where
    -- All that is known of the result.
    abbrev Made : List RevisionCitations → Page × Map ℕ Revision → Type 0
    Made rs r = PageMade page_revisions (sort earlier rs) page r × IsSorted r.1

    abbrev LoopSorted : Map Text Citation × References → Type 0
    LoopSorted r = IsSorted r.1.to_store

    make-IsSorted :
        (rs : List RevisionCitations)
        → IfReturns (make_page_citation_list sort page_revisions rs [] page) (λ r. IsSorted r.1)
    unfolding make_page_citation_list
    make-IsSorted rs =
        IfReturns-bind LoopSorted (λ r. IsSorted r.1) _ _
          (add_revisions-IsSorted page_revisions (sort earlier rs) []
            (record { to_store = []; ref_count = [] }) tt)
          λ (d, refs) s. s

    make-Made :
        (rs : List RevisionCitations)
        → AllStored page_revisions rs
        → Returns (make_page_citation_list sort page_revisions rs [] page) (Made rs)
    make-Made rs h =
        Returns-both _ (PageMade page_revisions (sort earlier rs) page) (λ r. IsSorted r.1)
          (make_page_citation_list-PageMade sort laws page_revisions rs page [] h none_yet refl)
          (make-IsSorted rs)

    Made-unique :
        (rs qs : List RevisionCitations)
        → contents (sort earlier rs) ≡ contents (sort earlier qs)
        → (a b : Page × Map ℕ Revision) → Made rs a
        → Made qs b
        → a ≡ b
    Made-unique rs qs e a b x y =
        let citations_eq =
          PageCitations-contents (sort earlier rs) (sort earlier qs) a.0.citations b.0.citations e
            x.0.cited y.0.cited in
        let stored_eq =
          StoredRevisions-unique b.0.citations a.1 b.1 x.1 y.1
            (subst (λ cs. StoredRevisions page_revisions cs a.1) citations_eq x.0.referenced)
            y.0.referenced in
        cc (citations_eq, stored_eq, x.0.same_id, x.0.same_title, y.0.same_id, y.0.same_title)

    -- Given a sort that permutes its list and puts it into the order of a comparison that meets
    -- its requirements: for a page without citations yet, no two of whose revisions have the same
    -- time and all of whose revisions are known, and with no revisions to store yet,
    -- MakePageCitationList gives the same page and the same revisions to store, in whatever order
    -- the revisions come and whatever the order in which the citations of a revision are iterated.
    pub make_page_citation_list-reordered :
        (rs qs : List RevisionCitations)
        → AllStored page_revisions rs
        → DistinctTimes rs
        → Perm (contents rs) (contents qs)
        → make_page_citation_list sort page_revisions rs [] page
          ≡ make_page_citation_list sort page_revisions qs [] page
    make_page_citation_list-reordered rs qs known_rs distinct p =
        Returns-eq _ _ (Made rs) (Made qs) (make-Made rs known_rs)
          (make-Made qs (reordered-AllStored rs qs p known_rs))
          (Made-unique rs qs (contents-sort sort laws order_laws rs qs distinct p))
