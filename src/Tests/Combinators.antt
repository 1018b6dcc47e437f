-- ===== src/Tests/Combinators.antt =====
-- Functions that keep the laws of the combinators.
use citescoop.Prelude.{
  ℕ, zero, suc, ◌<◌, ◌≤◌, ◌≡◌, refl, ap, Bool, true, false, Option, none, some, List, [], ◌∷◌,
  arith, ltb, length, if◌then◌else◌, is_some, Option-cases, inl, inr,
}
use citescoop.Prelude.Text.{Text}
use citescoop.Numbers.{is_space}
use citescoop.Parser.Combinators.{
  Combinators, CombinatorLaws, and_then, first_char, after_literal, without_blanks, skipped, Steady,
}

abbrev Matcher : Type 0 → Type 0
Matcher A = Bool → Text → Option (A × Text)

abbrev skip_from : Bool → Text → Text
skip_from true s = without_blanks is_space s
skip_from false s = s

-- As often as it matches and takes something, up to the number of rounds.
abbrev repeat : {A : Type 0} → Matcher A → ℕ → Bool → Text → Option (List A × Text)
repeat p zero skip s = some ([], s)
repeat p (suc n) skip s = elim (p skip s) [
  | none ↦ some ([], s)
  | some (a, rest) ↦
      let more = and_then (repeat p n skip rest) (λ others t. some (a ∷ others, t)) in
      if ltb (length rest) (length s) then more else some ([], s)
]

abbrev match_star : {A : Type 0} → Matcher A → Matcher (List A)
match_star p skip s = repeat p (length s) skip s

abbrev match_seq : {A B : Type 0} → Matcher A → Matcher B → Matcher (A × B)
match_seq p q skip s =
    and_then (p skip s) (λ a rest. and_then (q skip rest) (λ c t. some ((a, c), t)))

abbrev match_right : {A : Type 0} → Matcher (Unit {0}) → Matcher A → Matcher A
match_right p q skip s = and_then (match_seq p q skip s) (λ ac t. some (ac.1, t))

abbrev optional_of : {A : Type 0} → Text → Option (A × Text) → Option (Option A × Text)
optional_of s none = some (none, s)
optional_of s (some (a, rest)) = some (some a, rest)

abbrev match_optional : {A : Type 0} → Matcher A → Matcher (Option A)
match_optional p skip s = optional_of s (p skip s)

abbrev pub combinators : Combinators
combinators = record {
  Rule = Matcher;
  match = λ p. p;
  is_blank = is_space;
  char = λ skip s. first_char (skip_from skip s);
  lit = λ t skip s. after_literal t (skip_from skip s);
  minus = λ p q skip s. if is_some (q skip s) then none else p skip s;
  lexeme = λ p skip s. p false s;
  star = match_star;
  plus = λ p skip s.
      and_then (p skip s)
        (λ a rest. and_then (match_star p skip rest) (λ others t. some (a ∷ others, t)));
  optional = match_optional;
  separated = λ p q skip s. and_then (p skip s) (λ a rest.
      and_then (match_star (match_right q p) skip rest) (λ others t. some (a ∷ others, t)));
  omit = λ p skip s. and_then (p skip s) (λ a rest. some (tt, rest));
  not_here = λ p skip s. if is_some (p skip s) then none else some (tt, s);
  seq = match_seq;
  seq_left = λ p q skip s. and_then (match_seq p q skip s) (λ ac t. some (ac.0, t));
  seq_right = match_right;
  attribute = λ f p skip s. and_then (p skip s) (λ a t. some (f a, t));
}

skip_from_lem : (skip : Bool) (s : Text) → skip_from skip s ≡ skipped combinators skip s
skip_from_lem true s = refl
skip_from_lem false s = refl

module _ {A : Type 0} (p : Matcher A) (skip : Bool) where
  repeat-enough :
      (n m : ℕ) (s : Text) → length s ≤ n → length s ≤ m → repeat p n skip s ≡ repeat p m skip s
  repeat-enough zero zero s h k = refl
  repeat-enough zero (suc m) s h k = elim (Option-cases (p skip s)) [
    | inl stop ↦ rw (stop, repeat) refl
    | inr ((a, rest), more) ↦ rw (more, repeat) (ground (arith, h))
  ]
  repeat-enough (suc n) zero s h k = elim (Option-cases (p skip s)) [
    | inl stop ↦ rw (stop, repeat) refl
    | inr ((a, rest), more) ↦ rw (more, repeat) (ground (arith, k))
  ]
  repeat-enough (suc n) (suc m) s h k = elim (Option-cases (p skip s)) [
    | inl stop ↦ rw (stop, repeat) refl
    | inr ((a, rest), more) ↦ rw (more, repeat) (ground (arith, repeat-enough n m rest))
  ]

  repeat-more :
      (n : ℕ) (s : Text) (a : A) (rest : Text)
      → p skip s ≡ some (a, rest)
      → length s ≤ n
      → length rest < length s
      → repeat p n skip s
        ≡ and_then (repeat p (length rest) skip rest) (λ others t. some (a ∷ others, t))
  repeat-more zero s a rest h k shorter = absurd (omega arith)
  repeat-more (suc n) s a rest h k shorter =
      let same = repeat-enough n (length rest) rest (omega arith) (omega arith) in
      rw (h, repeat) (ground (arith, shorter, same))

  repeat_total : (n : ℕ) (s : Text) → is_some (repeat p n skip s) ≡ true
  repeat_total zero s = refl
  repeat_total (suc n) s = elim (Option-cases (p skip s)) [
    | inl stop ↦ rw (stop, is_some, repeat) refl
    | inr ((a, rest), more) ↦ rw (more, is_some, repeat) (ground (arith, repeat_total n rest))
  ]

  repeat-end : (n : ℕ) (s : Text) → p skip s ≡ none → repeat p n skip s ≡ some ([], s)
  repeat-end zero s h = refl
  repeat-end (suc n) s h = rw (h, repeat) refl

abbrev paired :
    {B : Type 0} → (Text → Option (B × Text)) → Unit {0} → Text → Option ((Unit {0} × B) × Text)
paired f a rest = and_then (f rest) (λ c t. some ((a, c), t))

same_part :
    {B : Type 0} (r : Option (B × Text))
    → and_then {B = B × Text}
        (and_then {B = (Unit {0} × B) × Text} r (λ c t. some ((tt, c), t)))
        (λ ac t. some (ac.1, t))
      ≡ r
same_part none = refl
same_part (some (c, t)) = refl

same_map :
    {B : Type 0} (f : Text → Option (B × Text)) (b : Bool) (s : Text)
    → and_then (and_then (if b then none else some (tt, s)) (paired f)) (λ ac t. some (ac.1, t))
      ≡ (if b then none else f s)
same_map f true s = refl
same_map f false s = same_part (f s)

char_lem :
    (skip : Bool) (s : Text)
    → first_char (skip_from skip s) ≡ first_char (skipped combinators skip s)
char_lem skip s = ap first_char (skip_from_lem skip s)

lit_lem :
    (t : Text) (skip : Bool) (s : Text)
    → after_literal t (skip_from skip s) ≡ after_literal t (skipped combinators skip s)
lit_lem t skip s = ap (after_literal t) (skip_from_lem skip s)

seq_none :
    {A B : Type 0} (p : Matcher A) (q : Matcher B) (skip : Bool) (s : Text)
    → Steady combinators p skip s
    → p skip s ≡ none
    → match_seq p q skip s ≡ none
seq_none p q skip s steady h = rw h refl

seq_some :
    {A B : Type 0} (p : Matcher A) (q : Matcher B) (skip : Bool) (s : Text) (a : A)
    (rest rest' : Text) (m : Option (B × Text))
    → p skip s ≡ some (a, rest)
    → p skip (skipped combinators skip s) ≡ some (a, rest')
    → skipped combinators skip rest ≡ skipped combinators skip rest'
    → q skip rest ≡ m
    → q skip rest' ≡ m
    → q skip (skipped combinators skip rest) ≡ m
    → match_seq p q skip s ≡ and_then m (λ c t. some ((a, c), t))
seq_some p q skip s a rest rest' m h h' same k k' k'' =
    rw h (ap (λ r. and_then r (λ c t. some ((a, c), t))) k)

pub combinators-laws : CombinatorLaws combinators
combinators-laws = record {
  char_lem = char_lem;
  lit_lem = lit_lem;
  minus_lem = λ p q s. refl;
  lexeme_lem = λ p skip s h. refl;
  star_more = λ p skip s a rest steady h shorter.
      repeat-more p skip (length s) s a rest h (omega arith) shorter;
  star_end = λ p skip s steady h. inl (repeat-end p skip (length s) s h);
  star_total = λ p skip s. repeat_total p skip (length s) s;
  plus_more = λ p s a rest h shorter. rw h refl;
  optional_none = λ p skip s visible h. ap (optional_of s) h;
  optional_some = λ p skip s a rest visible h. ap (optional_of s) h;
  separated_some = λ p q skip s a rest steady h. rw h refl;
  seq_none = seq_none;
  seq_some = seq_some;
  seq_left_lem = λ p q skip s. refl;
  seq_right_lem = λ p q skip s. refl;
  attribute_lem = λ f p skip s. refl;
  omit_lem = λ p skip s. refl;
  not_here_lem = λ p q skip s steady steady'. same_map (q skip) (is_some (p skip s)) s;
  open_mark = refl;
  close_mark = refl;
  bar_mark = refl;
  equals_mark = refl;
}
