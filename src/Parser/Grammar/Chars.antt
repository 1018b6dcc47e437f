-- ===== src/Parser/Grammar/Chars.antt =====
-- The rules for characters, which match a text up to a mark.
use citescoop.Prelude.{
  ℕ, ◌≡◌, refl, ap, ◌∙◌, Bool, true, false, ◌||◌, none, some, [], ◌∷◌, ◌++◌, arith, ◌==◌,
  if◌then◌else◌, inl, inr, is_some,
}
use citescoop.Prelude.Text.{Text, starts_with}
use citescoop.Parser.Combinators.{Combinators, CombinatorLaws, and_then}
use citescoop.Parser.Grammar.{except}

abbrev pub one_of : Text → ℕ → Bool
one_of [] c = false
one_of (mark ∷ marks) c = c == mark || one_of marks c

-- None of the marks is in the text.
abbrev pub Avoids : Text → Text → Type 0
Avoids marks [] = Unit
Avoids marks (c ∷ s) = (one_of marks c ≡ false) × Avoids marks s

-- The text is empty, or begins with one of the marks.
abbrev pub Stops : Text → Text → Type 0
Stops marks [] = Unit
Stops marks (c ∷ s) = one_of marks c ≡ true

module _ (b : Combinators) (laws : CombinatorLaws b) where
  match-minus :
      (p : b.Rule ℕ) (mark c : ℕ) (s : Text)
      → b.match (b.minus p (b.lit (mark ∷ []))) false (c ∷ s)
        ≡ (if c == mark then none else b.match p false (c ∷ s))
  unfolding starts_with
  match-minus p mark c s =
      laws.minus_lem p (b.lit (mark ∷ [])) (c ∷ s)
      ∙ ap (λ r. if is_some r then none else b.match p false (c ∷ s))
          (laws.lit_lem (mark ∷ []) false (c ∷ s))
      ∙ ground arith

  match-except :
      (p : b.Rule ℕ) (marks : Text) (c : ℕ) (s : Text)
      → b.match (except b p marks) false (c ∷ s)
        ≡ (if one_of marks c then none else b.match p false (c ∷ s))
  unfolding except
  match-except p [] c s = refl
  match-except p (mark ∷ marks) c s =
      match-except (b.minus p (b.lit (mark ∷ []))) marks c s
      ∙ ap (λ r. if one_of marks c then none else r) (match-minus p mark c s)
      ∙ ground arith

  match-except_nil :
      (p : b.Rule ℕ) (marks : Text)
      → b.match p false [] ≡ none
      → b.match (except b p marks) false [] ≡ none
  unfolding except starts_with
  match-except_nil p [] h = h
  match-except_nil p (mark ∷ marks) h = match-except_nil (b.minus p (b.lit (mark ∷ []))) marks (
      laws.minus_lem p (b.lit (mark ∷ [])) []
      ∙ ap (λ r. if is_some r then none else b.match p false []) (laws.lit_lem (mark ∷ []) false [])
      ∙ h)

  module _ (marks : Text) where
    abbrev one : b.Rule ℕ
    one = except b b.char marks

    one_other :
        (c : ℕ) (s : Text) → one_of marks c ≡ false → b.match one false (c ∷ s) ≡ some (c, s)
    one_other c s h = match-except b.char marks c s ∙ rw h (laws.char_lem false (c ∷ s))

    one-Stops : (rest : Text) → Stops marks rest → b.match one false rest ≡ none
    one-Stops [] h = match-except_nil b.char marks (laws.char_lem false [])
    one-Stops (c ∷ s) h = match-except b.char marks c s ∙ rw h refl

    -- All characters up to the first mark are matched.
    pub match-star_except :
        (xs rest : Text)
        → Avoids marks xs
        → Stops marks rest
        → b.match (b.star (except b b.char marks)) false (xs ++ rest) ≡ some (xs, rest)
    match-star_except [] rest a h = elim (laws.star_end one false rest refl (one-Stops rest h)) [
      | inl e ↦ e
      | inr e ↦ e
    ]
    match-star_except (c ∷ xs) rest a h =
        laws.star_more one false (c ∷ (xs ++ rest)) c (xs ++ rest) refl
          (one_other c (xs ++ rest) a.0) (omega arith)
        ∙ ap (λ r. and_then r (λ others t. some (c ∷ others, t))) (match-star_except xs rest a.1 h)

    pub match-plus_except :
        (c : ℕ) (xs rest : Text)
        → Avoids marks (c ∷ xs)
        → Stops marks rest
        → b.match (b.plus (except b b.char marks)) false (c ∷ (xs ++ rest)) ≡ some (c ∷ xs, rest)
    match-plus_except c xs rest a h =
        laws.plus_more one (c ∷ (xs ++ rest)) c (xs ++ rest) (one_other c (xs ++ rest) a.0)
          (omega arith)
        ∙ ap (λ r. and_then r (λ others t. some (c ∷ others, t))) (match-star_except xs rest a.1 h)
