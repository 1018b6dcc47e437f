-- ===== src/OpenAlex/Snapshot/Post.antt =====
-- Steps of the processor that give every id out once, and how they are put together.
use mathlib.Core.List.{map-append}
use citescoop.Prelude.{
  ℕ, ◌+◌, ◌≡◌, refl, sym, ap, ◌∙◌, Bool, true, false, List, [], ◌∷◌, ◌++◌, map, arith,
  if◌then◌else◌, Bool-cases, inl, inr,
}
use citescoop.Prelude.Text.{Text, text_eq, text_eq_iff}
use citescoop.Result.{Result, ok, err}
use citescoop.OpenAlex.Works.{member}
use citescoop.OpenAlex.Snapshot.{Step, continue, unless_seen, collect}

abbrev pub bit : Bool → ℕ
bit true = 1
bit false = 0

-- How often a text is in a list.
abbrev pub count : Text → List Text → ℕ
count k [] = 0
count k (id ∷ ids) = bit (text_eq id k) + count k ids

pub count-append : (k : Text) (xs ys : List Text) → count k (xs ++ ys) ≡ count k xs + count k ys
count-append k [] ys = omega arith
count-append k (x ∷ xs) ys = omega (arith, count-append k xs ys)

pub count-map-append :
    {A : Type 0} (f : A → Text) (k : Text) (xs ys : List A)
    → count k (map f (xs ++ ys)) ≡ count k (map f xs) + count k (map f ys)
count-map-append f k xs ys =
    ap (count k) (map-append f xs ys) ∙ count-append k (map f xs) (map f ys)

-- What holds of the ids seen and the value where a step returns.
abbrev pub Post {ℓ} : {A : Type ℓ} → (List Text → A → Type 0) → List Text × Result A → Type 0
Post P (seen, ok a) = P seen a
Post P (seen, err e) = Unit

pub Post-bind {ℓ κ} :
    {A : Type ℓ} {B : Type κ} (P : List Text → A → Type 0) (Q : List Text → B → Type 0)
    (r : List Text × Result A) (k : A → Step B)
    → Post P r
    → ((a : A) (seen : List Text) → P seen a → Post Q (k a seen))
    → Post Q (continue r k)
Post-bind P Q (seen, ok a) k h go = go a seen h
Post-bind P Q (seen, err e) k h go = tt

pub Post-lift {ℓ κ} :
    {A : Type ℓ} {B : Type κ} (Q : List Text → B → Type 0) (r : Result A) (k : A → Step B)
    (seen : List Text)
    → ((a : A) → Post Q (k a seen))
    → Post Q (continue (seen, r) k)
Post-lift Q (ok a) k seen go = go a
Post-lift Q (err e) k seen go = tt

-- From the ids `before`, the ids of the values were seen for the first time, each once, and no
-- others.
abbrev pub Added : {A : Type 0} → (A → Text) → List Text → List Text → List A → Type 0
Added f before seen xs =
    (k : Text) → count k (map f xs) + bit (member k before) ≡ bit (member k seen)

pub Added-nothing : {A : Type 0} (f : A → Text) (seen : List Text) → Added f seen seen []
Added-nothing f seen k = omega arith

pub Added-one :
    {A : Type 0} (f : A → Text) (seen : List Text) (x : A)
    → member (f x) seen ≡ false
    → Added f seen (f x ∷ seen) (x ∷ [])
unfolding member
Added-one f seen x h k = elim (Bool-cases (text_eq (f x) k)) [
  | inl same ↦
      let e : member k seen ≡ false =
        ap (λ i. member i seen) (sym ((text_eq_iff (f x) k).0 same)) ∙ h in
      rw (same, e) refl
  | inr other ↦ rw other (omega arith)
]

Added-append :
    {A : Type 0} (f : A → Text) (before middle after : List Text) (xs ys : List A)
    → Added f before middle xs
    → Added f middle after ys
    → Added f before after (xs ++ ys)
Added-append f before middle after xs ys g h k = omega (arith, g k, h k, count-map-append f k xs ys)

pub Post-if :
    {A : Type 0} (P : List Text → A → Type 0) (b : Bool) (m n : Step A) (seen : List Text)
    → Post P (m seen)
    → Post P (n seen)
    → Post P ((if b then m else n) seen)
Post-if P true m n seen g h = g
Post-if P false m n seen g h = h

pub Post-unless_seen :
    {A : Type 0} (f : A → Text) (id : Text) (make : Step (List A)) (seen : List Text)
    → (member id seen ≡ false → Post (Added f seen) (make (id ∷ seen)))
    → Post (Added f seen) (unless_seen id make seen)
unfolding unless_seen
Post-unless_seen f id make seen h = elim (Bool-cases (member id seen)) [
  | inl known ↦ rw known (Added-nothing f seen)
  | inr new ↦ rw new (h new)
]

module _ {J A : Type 0} (f : A → Text) (body : J → Step (List A))
    (one : (v : J) (seen : List Text) → Post (Added f seen) (body v seen)) where
  pub collect-Added : (vs : List J) (seen : List Text) → Post (Added f seen) (collect body vs seen)
  unfolding collect
  collect-Added [] seen = Added-nothing f seen
  collect-Added (v ∷ vs) seen =
      Post-bind (Added f seen) (Added f seen) (body v seen) _ (one v seen) (λ xs middle g.
        Post-bind (Added f middle) (Added f seen) (collect body vs middle) _
          (collect-Added vs middle) (λ ys after h. Added-append f seen middle after xs ys g h))
