-- ===== src/Parser/Combinators.antt =====
-- The combinators of Boost.Parser that src/parser/parser_impl.cc uses, as an interface: the
-- library itself is not in the repository.
use citescoop.Prelude.{
  ℕ, ◌<◌, ◌≡◌, ◌⊎◌, Bool, true, false, Option, none, some, List, [], ◌∷◌, length, drop,
  if◌then◌else◌, is_some,
}
use citescoop.Prelude.Text.{Text, starts_with}

-- A rule that gives an A. It is matched at the beginning of a text, while blanks are skipped or
-- not, and gives the rest of the text with its value.
pub record Combinators : Type 1 where
  pub Rule : Type 0 → Type 0
  pub match : {A : Type 0} → Rule A → Bool → Text → Option (A × Text)
  -- bp::ws
  pub is_blank : ℕ → Bool
  -- bp::char_, bp::lit, p - q, bp::lexeme[p], *p, +p, -p, p % q, bp::omit[p], !p
  pub char : Rule ℕ
  pub lit : Text → Rule (Unit {0})
  pub minus : {A : Type 0} → Rule A → Rule (Unit {0}) → Rule A
  pub lexeme : {A : Type 0} → Rule A → Rule A
  pub star : {A : Type 0} → Rule A → Rule (List A)
  pub plus : {A : Type 0} → Rule A → Rule (List A)
  pub optional : {A : Type 0} → Rule A → Rule (Option A)
  pub separated : {A : Type 0} → Rule A → Rule (Unit {0}) → Rule (List A)
  pub omit : {A : Type 0} → Rule A → Rule (Unit {0})
  pub not_here : {A : Type 0} → Rule A → Rule (Unit {0})
  -- p >> q, whose attribute has no place for a part that gives none; and the attribute of a rule as
  -- the struct that the rule is declared to give
  pub seq : {A B : Type 0} → Rule A → Rule B → Rule (A × B)
  pub seq_left : {A : Type 0} → Rule A → Rule (Unit {0}) → Rule A
  pub seq_right : {A : Type 0} → Rule (Unit {0}) → Rule A → Rule A
  pub attribute : {A B : Type 0} → (A → B) → Rule A → Rule B

-- A match followed by what comes behind it.
abbrev pub and_then {ℓ} : {A B : Type ℓ} → Option (A × Text) → (A → Text → Option B) → Option B
and_then none f = none
and_then (some (a, rest)) f = f a rest

-- A text without the blanks in front of it.
unfoldable pub without_blanks : (ℕ → Bool) → Text → Text
without_blanks blank [] = []
without_blanks blank (c ∷ s) = let rest = without_blanks blank s in if blank c then rest else c ∷ s

abbrev pub first_char : Text → Option (ℕ × Text)
first_char [] = none
first_char (c ∷ s) = some (c, s)

abbrev pub after_literal : Text → Text → Option (Unit {0} × Text)
after_literal t s = if starts_with s t then some (tt, drop (length t) s) else none

module _ (b : Combinators) where
  -- The text where the next rule is matched, while blanks are skipped or not.
  abbrev pub skipped : Bool → Text → Text
  skipped true s = without_blanks b.is_blank s
  skipped false s = s

  -- It is all the same for the rule whether the blanks in front were skipped before.
  abbrev pub Steady : {A : Type 0} → b.Rule A → Bool → Text → Type 0
  Steady p skip s = b.match p skip s ≡ b.match p skip (skipped skip s)

-- What the documentation of Boost.Parser says of the combinators. Whether a combinator skips
-- blanks by itself before it matches a part of it makes no difference for a part that is steady.
pub record CombinatorLaws (b : Combinators) : Type 1 where
  pub char_lem : (skip : Bool) (s : Text) → b.match b.char skip s ≡ first_char (skipped b skip s)
  pub lit_lem :
      (t : Text) (skip : Bool) (s : Text)
      → b.match (b.lit t) skip s ≡ after_literal t (skipped b skip s)
  pub minus_lem :
      {A : Type 0} (p : b.Rule A) (q : b.Rule (Unit {0})) (s : Text)
      → b.match (b.minus p q) false s
        ≡ (if is_some (b.match q false s) then none else b.match p false s)
  pub lexeme_lem :
      {A : Type 0} (p : b.Rule A) (skip : Bool) (s : Text)
      → skipped b skip s ≡ s
      → b.match (b.lexeme p) skip s ≡ b.match p false s
  pub star_more :
      {A : Type 0} (p : b.Rule A) (skip : Bool) (s : Text) (a : A) (rest : Text)
      → Steady b p skip s
      → b.match p skip s ≡ some (a, rest)
      → length rest < length s
      → b.match (b.star p) skip s
        ≡ and_then (b.match (b.star p) skip rest) (λ others t. some (a ∷ others, t))
  pub star_end :
      {A : Type 0} (p : b.Rule A) (skip : Bool) (s : Text)
      → Steady b p skip s
      → b.match p skip s ≡ none
      → (b.match (b.star p) skip s ≡ some ([], s))
        ⊎ (b.match (b.star p) skip s ≡ some ([], skipped b skip s))
  pub star_total :
      {A : Type 0} (p : b.Rule A) (skip : Bool) (s : Text)
      → is_some (b.match (b.star p) skip s) ≡ true
  pub plus_more :
      {A : Type 0} (p : b.Rule A) (s : Text) (a : A) (rest : Text)
      → b.match p false s ≡ some (a, rest)
      → length rest < length s
      → b.match (b.plus p) false s
        ≡ and_then (b.match (b.star p) false rest) (λ others t. some (a ∷ others, t))
  pub optional_none :
      {A : Type 0} (p : b.Rule A) (skip : Bool) (s : Text)
      → skipped b skip s ≡ s
      → b.match p skip s ≡ none
      → b.match (b.optional p) skip s ≡ some (none, s)
  pub optional_some :
      {A : Type 0} (p : b.Rule A) (skip : Bool) (s : Text) (a : A) (rest : Text)
      → skipped b skip s ≡ s
      → b.match p skip s ≡ some (a, rest)
      → b.match (b.optional p) skip s ≡ some (some a, rest)
  pub separated_some :
      {A : Type 0} (p : b.Rule A) (q : b.Rule (Unit {0})) (skip : Bool) (s : Text) (a : A)
      (rest : Text)
      → Steady b p skip s
      → b.match p skip s ≡ some (a, rest)
      → b.match (b.separated p q) skip s
        ≡ and_then (b.match (b.star (b.seq_right q p)) skip rest) (λ others t. some (a ∷ others, t))
  pub seq_none :
      {A B : Type 0} (p : b.Rule A) (q : b.Rule B) (skip : Bool) (s : Text)
      → Steady b p skip s
      → b.match p skip s ≡ none
      → b.match (b.seq p q) skip s ≡ none
  -- The first part is matched where the text begins or behind its blanks, and the second where the
  -- first ends or behind the blanks there.
  pub seq_some :
      {A B : Type 0} (p : b.Rule A) (q : b.Rule B) (skip : Bool) (s : Text) (a : A)
      (rest rest' : Text) (m : Option (B × Text))
      → b.match p skip s ≡ some (a, rest)
      → b.match p skip (skipped b skip s) ≡ some (a, rest')
      → skipped b skip rest ≡ skipped b skip rest'
      → b.match q skip rest ≡ m
      → b.match q skip rest' ≡ m
      → b.match q skip (skipped b skip rest) ≡ m
      → b.match (b.seq p q) skip s ≡ and_then m (λ c t. some ((a, c), t))
  pub seq_left_lem :
      {A : Type 0} (p : b.Rule A) (q : b.Rule (Unit {0})) (skip : Bool) (s : Text)
      → b.match (b.seq_left p q) skip s
        ≡ and_then (b.match (b.seq p q) skip s) (λ ac t. some (ac.0, t))
  pub seq_right_lem :
      {A : Type 0} (p : b.Rule (Unit {0})) (q : b.Rule A) (skip : Bool) (s : Text)
      → b.match (b.seq_right p q) skip s
        ≡ and_then (b.match (b.seq p q) skip s) (λ ac t. some (ac.1, t))
  pub attribute_lem :
      {A B : Type 0} (f : A → B) (p : b.Rule A) (skip : Bool) (s : Text)
      → b.match (b.attribute f p) skip s ≡ and_then (b.match p skip s) (λ a t. some (f a, t))
  pub omit_lem :
      {A : Type 0} (p : b.Rule A) (skip : Bool) (s : Text)
      → b.match (b.omit p) skip s ≡ and_then (b.match p skip s) (λ a t. some (tt, t))
  -- !p takes nothing of the text, and matches where p does not.
  pub not_here_lem :
      {A B : Type 0} (p : b.Rule A) (q : b.Rule B) (skip : Bool) (s : Text)
      → Steady b p skip s
      → Steady b q skip s
      → b.match (b.seq_right (b.not_here p) q) skip s
        ≡ (if is_some (b.match p skip s) then none else b.match q skip s)
  -- The marks of the grammar are no blanks.
  pub open_mark : b.is_blank b'{' ≡ false
  pub close_mark : b.is_blank b'}' ≡ false
  pub bar_mark : b.is_blank b'|' ≡ false
  pub equals_mark : b.is_blank b'=' ≡ false
