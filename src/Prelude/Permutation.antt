-- ===== src/Prelude/Permutation.antt =====
-- Tests that hold of every member of a list hold of every member of a permutation of it.
use mathlib.Core.Path.{◌≡◌, sym, ap, ◌∙◌}
use mathlib.Core.Bool.{Bool, true}
use mathlib.Core.HLevel.{×_prop}
use mathlib.Core.List.{List, [], ◌∷◌, ◌++◌, Perm, Permᴰ}
use mathlib.Core.Logic.{∥∥₁_elim}
use citescoop.Prelude.Lists.{All}

module _ {ℓ} {A : Type ℓ} (f : A → Bool) where
  abbrev pub Passes : List A → Type 0
  Passes = All (λ a. f a ≡ true)

  Passes-prop : (xs : List A) → IsProp (Passes xs)
  Passes-prop [] = hlevel
  Passes-prop (x ∷ xs) = ×_prop (hlevel) (Passes-prop xs)

  Passes-Permᴰ : {xs ys : List A} → Permᴰ xs ys → Passes xs → Passes ys
  Passes-Permᴰ Permᴰ.nil h = h
  Passes-Permᴰ (Permᴰ.cons e p) h = (ap f (sym e) ∙ h.0, Passes-Permᴰ p h.1)
  Passes-Permᴰ (Permᴰ.swap e d) h = (ap f (sym d) ∙ h.1.0, (ap f (sym e) ∙ h.0, h.1.1))
  Passes-Permᴰ (Permᴰ.trans p q) h = Passes-Permᴰ q (Passes-Permᴰ p h)

  pub Passes-perm : (xs ys : List A) → Perm xs ys → Passes xs → Passes ys
  Passes-perm xs ys p h = ∥∥₁_elim p (Passes-prop ys) (λ q. Passes-Permᴰ q h)

  pub Passes-append : (xs ys : List A) → Passes xs → Passes ys → Passes (xs ++ ys)
  Passes-append [] ys h k = k
  Passes-append (x ∷ xs) ys h k = (h.0, Passes-append xs ys h.1 k)

pub Passes-weaken {ℓ} :
    {A : Type ℓ} (f g : A → Bool) (xs : List A)
    → ((a : A) → f a ≡ true → g a ≡ true)
    → Passes f xs
    → Passes g xs
Passes-weaken f g [] w h = tt
Passes-weaken f g (x ∷ xs) w h = (w x h.0, Passes-weaken f g xs w h.1)
