-- ===== src/Dump/Citations/Reordered.antt =====
-- The citations of a page do not depend on the order in which its revisions come, nor on the order
-- in which the citations of a revision are iterated.
use mathlib.Core.List.{Perm, Pairwise-map}
use mathlib.Core.List.Perm
use mathlib.Core.Bool.{Bool-set}
use native.Mathlib.Nat.{ℕ_set}
use citescoop.Prelude.{◌≡◌, refl, ap, Bool, Option, List, [], ◌∷◌, map, arith}
use citescoop.Prelude.Sorting.{IsStrictWeakOrder, Ordered, Untied, Untied-perm, Ordered-unique}
use citescoop.Prelude.Text.{Text}
use citescoop.Proto.{Revision, RevisionCitations, ExtractedCitation, revision_or_default}
use citescoop.StdMap.{find}
use citescoop.StdMap.Keys.{text_ord, number_ord}
use citescoop.Dump.Citations.{Sort, id_of, earlier}
use citescoop.Dump.Citations.Earlier.{earlier-IsStrictWeakOrder}
use citescoop.Dump.Citations.Lifetime.{appears, gone, lifetime}
use citescoop.Dump.Citations.PageList.{SortLaws}

-- A revision and what it has under each key.
abbrev pub Content : Type 0
Content = Option Revision × (Text → Option ExtractedCitation)

abbrev pub content : RevisionCitations → Content
content r = (r.revision, λ key. find r.citations key)

abbrev pub contents : List RevisionCitations → List Content
contents = map content

module _ (r q : RevisionCitations) (rs qs : List RevisionCitations)
    (h : contents (r ∷ rs) ≡ contents (q ∷ qs)) where
  same_content : content r ≡ content q
  same_content = cc

  same_tails : contents rs ≡ contents qs
  same_tails = cc

  same_find : (key : Text) → find r.citations key ≡ find q.citations key
  same_find key = ap (λ c. c.1 key) same_content

  same_id : id_of r ≡ id_of q
  same_id = ap (λ c. (revision_or_default c.0).revision_id) same_content

appears-contents :
    (key : Text) (rs qs : List RevisionCitations)
    → contents rs ≡ contents qs
    → appears key rs ≡ appears key qs
unfolding appears
appears-contents key [] [] h = refl
appears-contents key (r ∷ rs) (q ∷ qs) h =
    ground (arith, same_find r q rs qs h key, appears-contents key rs qs (same_tails r q rs qs h))
appears-contents key [] (q ∷ qs) h = absurd (cc)
appears-contents key (r ∷ rs) [] h = absurd (cc)

gone-contents :
    (key : Text) (rs qs : List RevisionCitations)
    → contents rs ≡ contents qs
    → gone key rs ≡ gone key qs
unfolding gone
gone-contents key [] [] h = refl
gone-contents key (r ∷ rs) (q ∷ qs) h = ground (
  arith,
  same_find r q rs qs h key,
  same_id r q rs qs h,
  appears-contents key rs qs (same_tails r q rs qs h),
  gone-contents key rs qs (same_tails r q rs qs h),
)
gone-contents key [] (q ∷ qs) h = absurd (cc)
gone-contents key (r ∷ rs) [] h = absurd (cc)

pub lifetime-contents :
    (key : Text) (rs qs : List RevisionCitations)
    → contents rs ≡ contents qs
    → lifetime key rs ≡ lifetime key qs
unfolding lifetime
lifetime-contents key [] [] h = refl
lifetime-contents key (r ∷ rs) (q ∷ qs) h = ground (
  arith,
  same_find r q rs qs h key,
  same_id r q rs qs h,
  gone-contents key rs qs (same_tails r q rs qs h),
  lifetime-contents key rs qs (same_tails r q rs qs h),
)
lifetime-contents key [] (q ∷ qs) h = absurd (cc)
lifetime-contents key (r ∷ rs) [] h = absurd (cc)

-- The comparison of the sort, which looks at the revision only.
earlier_content : Content → Content → Bool
unfolding earlier
earlier_content a b =
    earlier (record { revision = a.0; citations = [] }) (record { revision = b.0; citations = [] })

earlier_content-IsStrictWeakOrder : IsStrictWeakOrder earlier_content
unfolding earlier_content
earlier_content-IsStrictWeakOrder = record {
  irreflexive = λ a. earlier-IsStrictWeakOrder.irreflexive (bare a);
  transitive = λ a b c. earlier-IsStrictWeakOrder.transitive (bare a) (bare b) (bare c);
  tied_transitive = λ a b c. earlier-IsStrictWeakOrder.tied_transitive (bare a) (bare b) (bare c);
}
  where
    bare : Content → RevisionCitations
    bare a = record { revision = a.0; citations = [] }

Content_set : IsSet Content
Content_set = hlevel ℕ_set

contents-Ordered :
    (rs : List RevisionCitations) → Ordered earlier rs → Ordered earlier_content (contents rs)
unfolding earlier_content
contents-Ordered rs h = (Pairwise-map (λ a b. Bool-set _ _) content).1 h

contents-Untied :
    (rs : List RevisionCitations) → Untied earlier rs → Untied earlier_content (contents rs)
unfolding earlier_content
contents-Untied rs h = (Pairwise-map (λ a b. Bool-set _ _) content).1 h

-- What the standard says of the order that std::ranges::sort makes, for a comparison that meets
-- its requirements.
pub record SortOrderLaws (sort : Sort) : Type 0 where
  pub orders :
      (lt : RevisionCitations → RevisionCitations → Bool) (xs : List RevisionCitations)
      → IsStrictWeakOrder lt
      → Ordered lt (sort lt xs)

-- No two of the revisions have the same time.
abbrev pub DistinctTimes : List RevisionCitations → Type 0
DistinctTimes = Untied earlier

module _ (sort : Sort) (laws : SortLaws sort) (order_laws : SortOrderLaws sort) where
  ordered : (rs : List RevisionCitations) → Ordered earlier_content (contents (sort earlier rs))
  ordered rs =
      contents-Ordered (sort earlier rs) (order_laws.orders earlier rs earlier-IsStrictWeakOrder)

  shuffled : (rs : List RevisionCitations) → Perm (contents (sort earlier rs)) (contents rs)
  shuffled rs = Perm.map content (laws.permutes earlier rs)

  pub contents-sort :
      (rs qs : List RevisionCitations)
      → DistinctTimes rs
      → Perm (contents rs) (contents qs)
      → contents (sort earlier rs) ≡ contents (sort earlier qs)
  contents-sort rs qs distinct p =
      Ordered-unique Content_set earlier_content earlier_content-IsStrictWeakOrder
        (contents (sort earlier rs)) (contents (sort earlier qs)) (ordered rs) (ordered qs)
        (Untied-perm earlier_content (contents rs) (contents (sort earlier rs))
          (Perm.symm (shuffled rs)) (contents-Untied rs distinct))
        (Perm.trans (shuffled rs) (Perm.trans p (Perm.symm (shuffled qs))))
