-- ===== src/Prelude/Sorting.antt =====
-- What a comparison must be for std::ranges::sort, and what the sort then does.
use mathlib.Core.Path.{◌≡◌, ap₂, sym}
use mathlib.Core.Bool.{Bool, true, false, ◌||◌, Bool-set}
use native.Mathlib.Omega.{arith}
use mathlib.Core.Logic.Or
use mathlib.Core.List.{List, [], ◌∷◌, Perm, Pairwise, mem-cons_self, eq-or-mem_of_mem-cons}
use mathlib.Core.List.Perm
use mathlib.Core.List.Pairwise

-- The requirements of a sort on its comparison.
pub record IsStrictWeakOrder {ℓ} {A : Type ℓ} (lt : A → A → Bool) : Type ℓ where
  pub irreflexive : (a : A) → lt a a ≡ false
  pub transitive : (a b c : A) → lt a b ≡ true → lt b c ≡ true → lt a c ≡ true
  pub tied_transitive :
      (a b c : A)
      → lt a b ≡ false
      → lt b a ≡ false
      → lt b c ≡ false
      → lt c b ≡ false
      → (lt a c ≡ false) × (lt c a ≡ false)

module _ {ℓ} {A : Type ℓ} (lt : A → A → Bool) where
  -- No two members are tied, and the smaller one comes first.
  abbrev pub StrictlySorted : List A → Type ℓ
  StrictlySorted = Pairwise (λ a b. lt a b ≡ true)

  -- No two members are tied.
  abbrev pub Untied : List A → Type ℓ
  Untied = Pairwise (λ a b. (lt a b || lt b a) ≡ true)

  -- No member comes behind a greater one.
  abbrev pub Ordered : List A → Type ℓ
  Ordered = Pairwise (λ a b. lt b a ≡ false)

  pub Untied-perm : (l r : List A) → Perm l r → Untied l → Untied r
  Untied-perm l r p u = Perm.pairwise (λ a b. Bool-set _ _) (λ a b h. ground arith) p u

module _ {ℓ} {A : Type ℓ} (A_set : IsSet A) (lt : A → A → Bool) (order : IsStrictWeakOrder lt) where
  never_both : (a b : A) → lt a b ≡ true → lt b a ≡ true → ⊥
  never_both a b h k = cc (order.transitive a b a h k, order.irreflexive a)

  heads_eq :
      (a b : A) (l r : List A)
      → StrictlySorted lt (a ∷ l)
      → StrictlySorted lt (b ∷ r)
      → Perm (a ∷ l) (b ∷ r)
      → a ≡ b
  heads_eq a b l r (Pairwise.cons below_l _) (Pairwise.cons below_r _) p =
      Or.elim (A_set a b) (eq-or-mem_of_mem-cons ((Perm.mem_iff p).1 mem-cons_self)) sym λ in_l.
        Or.elim (A_set a b) (eq-or-mem_of_mem-cons ((Perm.mem_iff p).0 mem-cons_self)) (λ e. e)
          λ in_r. absurd (never_both a b (below_l b in_l) (below_r a in_r))

  pub StrictlySorted-unique :
      (l r : List A) → StrictlySorted lt l → StrictlySorted lt r → Perm l r → l ≡ r
  StrictlySorted-unique [] r sl sr p = Perm.nil-eq p
  StrictlySorted-unique (a ∷ l) [] sl sr p = Perm.eq-nil p
  StrictlySorted-unique (a ∷ l) (b ∷ r) sl sr p =
      let heads = heads_eq a b l r sl sr p in
      let tails = Perm.cons_inv (Perm.trans p (Perm.symm (Perm.cons' heads Perm.rfl))) in
      ap₂ ◌∷◌ heads (StrictlySorted-unique l r (Pairwise.of_cons sl) (Pairwise.of_cons sr) tails)

  strict : (l : List A) → Ordered lt l → Untied lt l → StrictlySorted lt l
  strict l o u = Pairwise.imp₂ (λ a b h k. ground arith) o u

  pub Ordered-unique : (l r : List A) → Ordered lt l → Ordered lt r → Untied lt l → Perm l r → l ≡ r
  Ordered-unique l r sl sr u p =
      StrictlySorted-unique l r (strict l sl u) (strict r sr (Untied-perm lt l r p u)) p
