-- ===== src/OpenAlex/Snapshot/Covers.antt =====
-- The ids of authors and institutions that a set of ids covers, and steps after which the ids seen
-- cover those of their JSON values.
use citescoop.Prelude.{
  ◌≡◌, Bool, true, false, List, [], ◌∷◌, arith, All, Bool-cases, inl, inr, if◌then◌else◌,
}
use citescoop.Prelude.Text.{Text, text_eq_iff}
use citescoop.Result.{Result, ok, err, IfReturns}
use citescoop.OpenAlex.Works.{member}
use citescoop.OpenAlex.Snapshot.{Step, continue, return, unless_seen, collect}
use citescoop.OpenAlex.Snapshot.Post.{Post, Post-bind, Added}

abbrev pub Grows : List Text → List Text → Type 0
Grows seen after = (k : Text) → member k seen ≡ true → member k after ≡ true

pub Added-Grows :
    {A : Type 0} (f : A → Text) (seen after : List Text) (xs : List A)
    → Added f seen after xs
    → Grows seen after
Added-Grows f seen after xs h k there = ground (arith, h k, there)

abbrev pub Unless : Bool → Type 0 → Type 0
Unless true P = Unit
Unless false P = P

pub IfReturns-weaken :
    {A : Type 0} (P Q : A → Type 0) (m : Result A)
    → ((a : A) → P a → Q a)
    → IfReturns m P
    → IfReturns m Q
IfReturns-weaken P Q (ok a) w h = w a h
IfReturns-weaken P Q (err x) w h = tt

pub Unless-weaken : (b : Bool) (P Q : Type 0) → (P → Q) → Unless b P → Unless b Q
Unless-weaken true P Q w h = tt
Unless-weaken false P Q w h = w h

pub Post-and {ℓ} :
    {A : Type ℓ} (P Q : List Text → A → Type 0) (r : List Text × Result A)
    → Post P r
    → Post Q r
    → Post (λ seen a. P seen a × Q seen a) r
Post-and P Q (seen, ok a) h k = (h, k)
Post-and P Q (seen, err e) h k = tt

pub Post-weaken {ℓ} :
    {A : Type ℓ} (P Q : List Text → A → Type 0) (r : List Text × Result A)
    → ((seen : List Text) (a : A) → P seen a → Q seen a)
    → Post P r
    → Post Q r
Post-weaken P Q (seen, ok a) w h = w seen a h
Post-weaken P Q (seen, err e) w h = tt

-- What holds at the end for the value of a call holds at the end if the call returns.
pub Post-covered :
    {A B : Type 0} (P : List Text → A → Type 0) (r : Result A) (k : A → Step B) (seen : List Text)
    → ((a : A) → Post (λ after xs. P after a) (k a seen))
    → Post (λ after xs. IfReturns r (P after)) (continue (seen, r) k)
Post-covered P (ok a) k seen go = go a
Post-covered P (err e) k seen go = tt

pub Post-unless :
    {A : Type 0} (P : List Text → Type 0) (b : Bool) (m : Step (List A)) (seen : List Text)
    → Post (λ after xs. P after) (m seen)
    → Post (λ after xs. Unless b (P after)) ((if b then return [] else m) seen)
Post-unless P true m seen h = tt
Post-unless P false m seen h = h

pub member_self : (id : Text) (seen : List Text) → member id (id ∷ seen) ≡ true
unfolding member
member_self id seen = ground (arith, text_eq_iff id id)

pub unless_seen-member :
    {A : Type 0} (id : Text) (make : Step (List A)) (seen : List Text)
    → Post (λ after xs. member id after ≡ true) (make (id ∷ seen))
    → Post (λ after xs. member id after ≡ true) (unless_seen id make seen)
unfolding unless_seen
unless_seen-member id make seen h = elim (Bool-cases (member id seen)) [
  | inl known ↦ rw known known
  | inr new ↦ rw new h
]

module _ {J A : Type 0} (f : A → Text) (body : J → Step (List A))
    (one : (v : J) (seen : List Text) → Post (Added f seen) (body v seen))
    (Covers : List Text → J → Type 0)
    (mono : (seen after : List Text) (v : J) → Grows seen after → Covers seen v → Covers after v)
    (each : (v : J) (seen : List Text) → Post (λ after xs. Covers after v) (body v seen)) where
  collect-Covers :
      (vs : List J) (seen : List Text)
      → Post (λ after xs. All (Covers after) vs × Grows seen after) (collect body vs seen)
  unfolding collect
  collect-Covers [] seen = (tt, λ k h. h)
  collect-Covers (v ∷ vs) seen =
      Post-bind (λ middle xs. Covers middle v × Added f seen middle xs)
        (λ after xs. All (Covers after) (v ∷ vs) × Grows seen after) (body v seen) _
        (Post-and (λ middle xs. Covers middle v) (Added f seen) (body v seen) (each v seen)
          (one v seen))
        λ xs middle (g, added).
          Post-bind (λ after ys. All (Covers after) vs × Grows middle after)
            (λ after xs. All (Covers after) (v ∷ vs) × Grows seen after) (collect body vs middle) _
            (collect-Covers vs middle)
            λ ys after (h, grows). (
              (mono middle after v grows g, h),
              λ k there. grows k (Added-Grows f seen middle xs added k there),
            )

  pub collect-CoversAll :
      (vs : List J) (seen : List Text)
      → Post (λ after xs. All (Covers after) vs) (collect body vs seen)
  collect-CoversAll vs seen =
      Post-weaken (λ after xs. All (Covers after) vs × Grows seen after)
        (λ after xs. All (Covers after) vs) (collect body vs seen) (λ after xs h. h.0)
        (collect-Covers vs seen)
