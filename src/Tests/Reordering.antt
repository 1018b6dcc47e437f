-- ===== src/Tests/Reordering.antt =====
-- A page whose revisions come in two orders.
use mathlib.Core.Bool.{Bool-set}
use mathlib.Core.List.{Perm, Pairwise, Mem, not-mem-nil, eq-or-mem_of_mem-cons}
use mathlib.Core.List.Perm
use mathlib.Core.Logic.Or
use citescoop.Prelude.{
  ℕ, ◌≡◌, refl, sym, ap, subst, fun_ext, Bool, true, false, some, List, [], ◌∷◌, arith, All,
  Bool-cases, inl, inr,
}
use citescoop.Prelude.Sorting.{IsStrictWeakOrder, Ordered}
use citescoop.Prelude.Text.{codes, text_eq, text_eq_iff}
use citescoop.Proto.{Revision, RevisionCitations, empty_page}
use citescoop.StdMap.{Map, find}
use citescoop.StdMap.Keys.{text_ord, number_ord}
use citescoop.Dump.Citations.{earlier, make_page_citation_list}
use citescoop.Dump.Citations.AnyOrder.{make_page_citation_list-reordered}
use citescoop.Dump.Citations.Reordered.{SortOrderLaws, DistinctTimes, content, contents}
use citescoop.Dump.Citations.PageList.{AllStored}
use citescoop.Tests.Samples.{
  place_in, place_in-perm, insertion_sort, insertion_sort-SortLaws, revision, cited,
}

module _ {ℓ} {A : Type ℓ} (lt : A → A → Bool) (order : IsStrictWeakOrder lt) where
  never_both : (a b : A) → lt a b ≡ true → lt b a ≡ false
  never_both a b h = ground (arith, order.irreflexive a, order.transitive a b a)

  not_before_trans : (a b c : A) → lt a b ≡ false → lt b c ≡ false → lt a c ≡ false
  not_before_trans a b c h k =
      ground (arith, order.transitive a c b, order.transitive b a c, order.tied_transitive a b c)

  place_in-Ordered : (x : A) (ys : List A) → Ordered lt ys → Ordered lt (place_in lt x ys)
  place_in-Ordered x [] s = Pairwise.cons (λ b m. absurd (not-mem-nil m)) Pairwise.nil
  place_in-Ordered x (y ∷ ys) (Pairwise.cons first rest) = elim (Bool-cases (lt y x)) [
    | inl after ↦ rw after (
        Pairwise.cons
          (λ b m.
            Or.elim (Bool-set _ _)
              (eq-or-mem_of_mem-cons ((Perm.mem_iff (place_in-perm lt x ys)).0 m))
              (λ e. subst (λ b. lt b y ≡ false) (sym e) (never_both y x after)) (first b))
          (place_in-Ordered x ys rest))
    | inr before ↦ rw before (
        Pairwise.cons
          (λ b m.
            Or.elim (Bool-set _ _) (eq-or-mem_of_mem-cons m)
              (λ e. subst (λ b. lt b x ≡ false) (sym e) before)
              (λ later. not_before_trans b y x (first b later) before))
          (Pairwise.cons first rest))
  ]

insertion_sort-Ordered :
    (lt : RevisionCitations → RevisionCitations → Bool) (xs : List RevisionCitations)
    → IsStrictWeakOrder lt
    → Ordered lt (insertion_sort lt xs)
insertion_sort-Ordered lt [] order = Pairwise.nil
insertion_sort-Ordered lt (x ∷ xs) order =
    place_in-Ordered lt order x (insertion_sort lt xs) (insertion_sort-Ordered lt xs order)

pub insertion_sort-SortOrderLaws : SortOrderLaws insertion_sort
insertion_sort-SortOrderLaws = record { orders = insertion_sort-Ordered }

-- A revision that cites "b" and "a", iterated in both orders.
abbrev forwards : RevisionCitations
forwards = cited 1 10 (codes "a" ∷ codes "b" ∷ [])

abbrev backwards : RevisionCitations
backwards = cited 1 10 (codes "b" ∷ codes "a" ∷ [])

abbrev later : RevisionCitations
later = cited 3 30 (codes "a" ∷ codes "c" ∷ [])

abbrev one_order : List RevisionCitations
one_order = later ∷ backwards ∷ cited 2 20 [] ∷ []

abbrev other_order : List RevisionCitations
other_order = forwards ∷ later ∷ cited 2 20 [] ∷ []

abbrev revisions_known : Map ℕ Revision
revisions_known = (1, revision 1 10) ∷ (2, revision 2 20) ∷ (3, revision 3 30) ∷ []

-- What holds of all is what holds of each member.
pub All-Mem {ℓ} :
    {A : Type ℓ} (P : A → Type 0)
    → ((a : A) → IsProp (P a))
    → (xs : List A) → All P xs
    → (a : A) → Mem a xs
    → P a
All-Mem P P_prop [] h a m = absurd (not-mem-nil m)
All-Mem P P_prop (x ∷ xs) h a m =
    Or.elim (P_prop a) (eq-or-mem_of_mem-cons m) (λ e. subst P (sym e) h.0)
      (All-Mem P P_prop xs h.1 a)

one_order_known : AllStored revisions_known one_order
unfolding find
one_order_known = (refl, (refl, (refl, tt)))

one_order_distinct : DistinctTimes one_order
unfolding earlier
one_order_distinct = Pairwise.cons (All-Mem _ (λ b. Bool-set _ _) _ (refl, (refl, tt))) (
    Pairwise.cons (All-Mem _ (λ b. Bool-set _ _) _ (refl, tt))
      (Pairwise.cons (All-Mem _ (λ b. Bool-set _ _) [] tt) Pairwise.nil))

letters_differ : text_eq (codes "a") (codes "b") ≡ false
unfolding text_eq
letters_differ = refl

either_way : content backwards ≡ content forwards
unfolding find
either_way =
    ap (λ f. (some (revision 1 10), f))
      (fun_ext λ key.
        ground (arith, letters_differ, text_eq_iff (codes "a") key, text_eq_iff (codes "b") key))

orders_permute : Perm (contents one_order) (contents other_order)
orders_permute =
    Perm.trans (Perm.cons (content later) (Perm.cons' either_way Perm.rfl)) (Perm.swap _ _ _)

make_page_citation_list-reordered_example :
    make_page_citation_list insertion_sort revisions_known one_order [] empty_page
    ≡ make_page_citation_list insertion_sort revisions_known other_order [] empty_page
make_page_citation_list-reordered_example =
    make_page_citation_list-reordered revisions_known insertion_sort insertion_sort-SortLaws
      insertion_sort-SortOrderLaws empty_page refl one_order other_order one_order_known
      one_order_distinct orders_permute
