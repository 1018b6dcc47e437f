-- ===== src/OpenAlex/Snapshot/Frame.antt =====
-- Steps that depend on, and change, only a part of the ids seen.
use citescoop.Prelude.{
  ◌≡◌, refl, sym, ap, subst, ◌∙◌, Bool, true, false, ◌||◌, List, [], ◌∷◌, ◌++◌, All, arith,
  if◌then◌else◌, Bool-cases, inl, inr,
}
use citescoop.Prelude.Text.{Text, text_eq, text_eq_iff}
use citescoop.Result.{Result, ok, err}
use citescoop.OpenAlex.Works.{member}
use citescoop.OpenAlex.Snapshot.{Step, continue, ◌>>=◌, return, lift, unless_seen, collect}

module _ (part : Text → Bool) where
  -- The same ids of the part were seen.
  abbrev pub SameOn : List Text → List Text → Type 0
  SameOn s t = (k : Text) → part k ≡ true → member k s ≡ member k t

  -- Of the ids outside of the part, the same were seen before and after.
  abbrev pub Untouched : List Text → List Text → Type 0
  Untouched before after = (k : Text) → part k ≡ false → member k after ≡ member k before

  -- What a step makes of two states.
  pub record SameRun {A : Type 0} (s t : List Text) (p q : List Text × Result A) : Type 0 where
    pub result : p.1 ≡ q.1
    pub seen : SameOn p.0 q.0
    pub left : Untouched s p.0
    pub right : Untouched t q.0

  -- From states with the same ids of the part, the step gives the same result and states with the
  -- same ids of the part, and it leaves all others alone.
  abbrev pub Frames : {A : Type 0} → Step A → Type 0
  Frames m = (s t : List Text) → SameOn s t → SameRun s t (m s) (m t)

  pub Frames-return : {A : Type 0} (a : A) → Frames (return a)
  Frames-return a s t h = record {
    result = refl;
    seen = h;
    left = λ k l. refl;
    right = λ k l. refl;
  }

  pub Frames-lift : {A : Type 0} (r : Result A) → Frames (lift r)
  Frames-lift r s t h = record { result = refl; seen = h; left = λ k l. refl; right = λ k l. refl }

  continue-SameRun :
      {A B : Type 0} (s t : List Text) (p q : List Text × Result A) (f : A → Step B)
      → ((a : A) → Frames (f a))
      → SameRun s t p q
      → SameRun s t (continue p f) (continue q f)
  continue-SameRun s t (s', ok a) (t', ok b) f each h =
      let e : a ≡ b = cc (h.result) in
      let r = each a s' t' h.seen in
      subst (λ c. SameRun s t (f a s') (f c t')) e
        (record {
          result = r.result;
          seen = r.seen;
          left = λ k l. r.left k l ∙ h.left k l;
          right = λ k l. r.right k l ∙ h.right k l;
        })
  continue-SameRun s t (s', err x) (t', err y) f each h = record {
    result = cc (h.result);
    seen = h.seen;
    left = h.left;
    right = h.right;
  }
  continue-SameRun s t (s', ok a) (t', err y) f each h = absurd (cc (h.result))
  continue-SameRun s t (s', err x) (t', ok b) f each h = absurd (cc (h.result))

  pub Frames-bind :
      {A B : Type 0} (m : Step A) (f : A → Step B)
      → Frames m
      → ((a : A) → Frames (f a))
      → Frames (m >>= f)
  Frames-bind m f first each s t h = continue-SameRun s t (m s) (m t) f each (first s t h)

  -- As `Frames-bind`, for a call that does not change the ids.
  pub Frames-lift_bind :
      {A B : Type 0} (r : Result A) (f : A → Step B)
      → ((a : A) → r ≡ ok a → Frames (f a))
      → Frames (lift r >>= f)
  Frames-lift_bind (ok a) f each s t h = each a refl s t h
  Frames-lift_bind (err x) f each s t h = record {
    result = refl;
    seen = h;
    left = λ k l. refl;
    right = λ k l. refl;
  }

  pub Frames-if :
      {A : Type 0} (b : Bool) (m n : Step A)
      → (b ≡ true → Frames m)
      → (b ≡ false → Frames n)
      → Frames (λ s. (if b then m else n) s)
  Frames-if true m n g h = g refl
  Frames-if false m n g h = h refl

  pub Frames-unless_seen :
      {A : Type 0} (id : Text) (make : Step (List A))
      → part id ≡ true
      → Frames make
      → Frames (unless_seen id make)
  unfolding unless_seen member
  Frames-unless_seen id make within h s t same = elim (Bool-cases (member id s)) [
    | inl known ↦
        rw (known, sym (same id within) ∙ known)
          (record { result = refl; seen = same; left = λ k l. refl; right = λ k l. refl })
    | inr new ↦
        let r = h (id ∷ s) (id ∷ t) (λ k l. ap (λ b. text_eq id k || b) (same k l)) in
        rw (new, sym (same id within) ∙ new)
          (record {
            result = r.result;
            seen = r.seen;
            left = λ k l. r.left k l ∙ unlike s k l;
            right = λ k l. r.right k l ∙ unlike t k l;
          })
  ]
    where
      unlike :
          (s : List Text) (k : Text) → part k ≡ false → (text_eq id k || member k s) ≡ member k s
      unlike s k l =
          let other : text_eq id k ≡ false = ground (arith, text_eq_iff id k, within, l) in
          rw other refl

  pub Frames-collect :
      {J A : Type 0} (body : J → Step (List A)) (values : List J)
      → All (λ v. Frames (body v)) values
      → Frames (collect body values)
  unfolding collect
  Frames-collect body [] h = Frames-return []
  Frames-collect body (v ∷ values) h = Frames-bind (body v) _ h.0 λ first.
      Frames-bind (collect body values) _ (Frames-collect body values h.1)
        λ others. Frames-return (first ++ others)
