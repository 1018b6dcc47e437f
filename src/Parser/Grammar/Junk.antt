-- ===== src/Parser/Grammar/Junk.antt =====
-- The text between the templates, which kSkipToTemplate passes over.
use citescoop.Prelude.{
  ℕ, ◌<◌, ◌≤◌, ◌≡◌, refl, sym, ap, subst, ◌∙◌, true, false, Option, none, some, [], ◌∷◌, ◌++◌,
  arith, if◌then◌else◌, Bool-cases, Option-cases, inl, inr, is_some, length,
}
use citescoop.Prelude.Text.{Text, codes, starts_with}
use citescoop.Parser.Combinators.{
  Combinators, CombinatorLaws, and_then, first_char, after_literal, without_blanks, Steady,
}
use citescoop.Parser.Grammar.{skip_to_template}

abbrev pub open_braces : Text
open_braces = codes "{{"

module _ (b : Combinators) where
  abbrev pub unblank : Text → Text
  unblank = without_blanks b.is_blank

  pub unblank_again : (s : Text) → unblank (unblank s) ≡ unblank s
  unfolding without_blanks
  unblank_again [] = refl
  unblank_again (c ∷ s) = ground (arith, unblank_again s)

  pub length-unblank : (s : Text) → length (unblank s) ≤ length s
  unfolding without_blanks
  length-unblank [] = omega arith
  length-unblank (c ∷ s) = ground (arith, length-unblank s)

  -- No "{{" begins in the text in front of `rest`.
  abbrev pub NoOpen : Text → Text → Type 0
  NoOpen rest [] = Unit
  NoOpen rest (c ∷ junk) = (starts_with (c ∷ (junk ++ rest)) open_braces ≡ false) × NoOpen rest junk

  -- What kSkipToTemplate passes over of the text ends at `target`, but for blanks.
  pub record Leads (s target : Text) : Type 0 where
    pub passed : Text
    pub rest : Text
    pub ends : b.match (skip_to_template b) true s ≡ some (passed, rest)
    pub at_target : unblank rest ≡ target

same_rest : {x y : Text × Text} → some x ≡ some y → x.1 ≡ y.1
same_rest h = cc

module _ (b : Combinators) (laws : CombinatorLaws b) where
  abbrev pub junk_char : b.Rule ℕ
  junk_char = b.seq_right (b.not_here (b.lit open_braces)) b.char

  abbrev pub junk_first : Text → Option (ℕ × Text)
  junk_first s = if is_some (after_literal open_braces s) then none else first_char s

  pub lit-Steady : (t s : Text) → Steady b (b.lit t) true s
  lit-Steady t s =
      laws.lit_lem t true s
      ∙ sym (laws.lit_lem t true (unblank b s) ∙ ap (after_literal t) (unblank_again b s))

  char-Steady : (s : Text) → Steady b b.char true s
  char-Steady s =
      laws.char_lem true s
      ∙ sym (laws.char_lem true (unblank b s) ∙ ap first_char (unblank_again b s))

  match-junk_char : (s : Text) → b.match junk_char true s ≡ junk_first (unblank b s)
  match-junk_char s =
      laws.not_here_lem (b.lit open_braces) b.char true s (lit-Steady open_braces s) (char-Steady s)
      ∙ ap (λ r. if is_some r then none else b.match b.char true s)
          (laws.lit_lem open_braces true s)
      ∙ ap (λ r. if is_some (after_literal open_braces (unblank b s)) then none else r)
          (laws.char_lem true s)

  junk_char-Steady : (s : Text) → Steady b junk_char true s
  junk_char-Steady s =
      match-junk_char s ∙ sym (match-junk_char (unblank b s) ∙ ap junk_first (unblank_again b s))

  -- A character that is passed over makes the text shorter.
  junk_first-shorter :
      (s : Text) (c : ℕ) (rest : Text) → junk_first s ≡ some (c, rest) → length rest < length s
  junk_first-shorter [] c rest h = ground (arith, h)
  junk_first-shorter (d ∷ s) c rest h = ground (arith, h)

  -- Where the first character is passed over, the rest is passed over from behind it.
  Leads-more :
      (s target rest : Text) (c : ℕ)
      → b.match junk_char true s ≡ some (c, rest)
      → Leads b rest target
      → Leads b s target
  unfolding skip_to_template
  Leads-more s target rest c h l = record {
    passed = c ∷ l.passed;
    rest = l.rest;
    ends =
        laws.star_more junk_char true s c rest (junk_char-Steady s) h (
          omega (
            arith,
            junk_first-shorter (unblank b s) c rest (sym (match-junk_char s) ∙ h),
            length-unblank b s,
          ))
        ∙ ap (λ r. and_then r (λ others t. some (c ∷ others, t))) l.ends;
    at_target = l.at_target;
  }

  Leads-end : (s : Text) → b.match junk_char true s ≡ none → Leads b s (unblank b s)
  unfolding skip_to_template
  Leads-end s h = elim (laws.star_end junk_char true s (junk_char-Steady s) h) [
    | inl e ↦ record { passed = []; rest = s; ends = e; at_target = refl }
    | inr e ↦ record { passed = []; rest = unblank b s; ends = e; at_target = unblank_again b s }
  ]

  -- In front of a "{{" and at the end of a text nothing is passed over but blanks.
  pub Leads-here : (s : Text) → junk_first (unblank b s) ≡ none → Leads b s (unblank b s)
  Leads-here s h = Leads-end s (match-junk_char s ∙ h)

  Leads-unique : (s t u : Text) → Leads b s t → Leads b s u → t ≡ u
  Leads-unique s t u l m =
      sym l.at_target ∙ ap (unblank b) (same_rest (sym l.ends ∙ m.ends)) ∙ m.at_target

  Leads-behind :
      (s target rest : Text) (c : ℕ)
      → b.match junk_char true s ≡ some (c, rest)
      → Leads b s target
      → Leads b rest target
  unfolding skip_to_template
  Leads-behind s target rest c h l =
      let step = laws.star_more junk_char true s c rest (junk_char-Steady s) h (
        omega (
          arith,
          junk_first-shorter (unblank b s) c rest (sym (match-junk_char s) ∙ h),
          length-unblank b s,
        )) in
      elim (Option-cases (b.match (skip_to_template b) true rest)) [
        | inl failed ↦ absurd (none_some (sym (step ∙ ap (more c) failed) ∙ l.ends))
        | inr ((passed, t), e) ↦ record {
          passed = passed;
          rest = t;
          ends = e;
          at_target =
              ap (unblank b) (same_rest (sym (step ∙ ap (more c) e) ∙ l.ends)) ∙ l.at_target;
        }
      ]
    where
      more : ℕ → Option (Text × Text) → Option (Text × Text)
      more c r = and_then r (λ others t. some (c ∷ others, t))

      none_some : {x : Text × Text} → none ≡ some x → ⊥
      none_some h = cc

  -- Only what stands behind the blanks counts.
  pub Leads-blanks :
      (s s' target : Text) → unblank b s ≡ unblank b s' → Leads b s target → Leads b s' target
  Leads-blanks s s' target e l =
      let same : b.match junk_char true s ≡ b.match junk_char true s' =
        match-junk_char s ∙ ap junk_first e ∙ sym (match-junk_char s') in
      elim (Option-cases (b.match junk_char true s)) [
        | inl none_here ↦
            subst (Leads b s')
              (sym e ∙ sym (Leads-unique s target (unblank b s) l (Leads-end s none_here)))
              (Leads-end s' (sym same ∙ none_here))
        | inr ((c, rest), h) ↦
            Leads-more s' target rest c (sym same ∙ h) (Leads-behind s target rest c h l)
      ]

  -- Text in which no "{{" begins is passed over, up to where junk ends.
  pub Leads-NoOpen :
      (junk rest : Text)
      → NoOpen b rest junk
      → unblank b rest ≡ rest
      → junk_first rest ≡ none
      → Leads b (junk ++ rest) rest
  unfolding without_blanks
  Leads-NoOpen [] rest n solid stop =
      subst (Leads b rest) solid (Leads-here rest (ap junk_first solid ∙ stop))
  Leads-NoOpen (c ∷ junk) rest n solid stop =
      let behind = Leads-NoOpen junk rest n.1 solid stop in
      elim (Bool-cases (b.is_blank c)) [
        | inl blank ↦ Leads-blanks (junk ++ rest) (c ∷ (junk ++ rest)) rest (rw blank refl) behind
        | inr visible ↦
            Leads-more (c ∷ (junk ++ rest)) rest (junk ++ rest) c
              (match-junk_char (c ∷ (junk ++ rest)) ∙ rw visible (rw (n.0) refl)) behind
      ]
