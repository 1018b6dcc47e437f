-- ===== src/Parser/Grammar/ParamList.antt =====
-- The name and the parameters of a printed template are matched as a whole.
use citescoop.Prelude.{
  ◌≤◌, ◌≡◌, refl, sym, ap, ◌∙◌, true, Option, none, some, List, [], ◌∷◌, ◌++◌, arith, inl, inr,
  length, length-append,
}
use citescoop.Prelude.Text.{Text, codes, starts_with}
use citescoop.Parser.Entries.{ParameterEntry}
use citescoop.Parser.Combinators.{Combinators, CombinatorLaws, and_then, after_literal, Steady}
use citescoop.Parser.Grammar.{except, template_type_rule, param_rule}
use citescoop.Parser.Grammar.Chars.{Stops, match-plus_except}
use citescoop.Parser.Grammar.Junk.{unblank, unblank_again, lit-Steady}
use citescoop.Parser.Grammar.Params.{
  print_value, print_param, print_params, Visible, IsParam, AreParams, IsName, Visible-unblank,
  Visible-append, match-seq, match-lit, match-param_rule, print_value-Visible,
}

length-print_param :
    (param : ParameterEntry) (rest : Text) → length rest ≤ length (print_param param rest)
length-print_param param rest =
    omega (arith, length-append param.key (print_value param.value rest), value_length param.value)
  where
    value_length : (value : Option Text) → length rest ≤ length (print_value value rest)
    value_length none = omega arith
    value_length (some value) = omega (arith, length-append value rest)

pub length-print_params :
    (params : List ParameterEntry) (rest : Text) → length rest ≤ length (print_params params rest)
length-print_params [] rest = omega arith
length-print_params (param ∷ params) rest =
    omega
      (arith, length-print_param param (print_params params rest), length-print_params params rest)

pub print_params-Stops :
    (params : List ParameterEntry) (rest : Text)
    → Stops (codes "|}") rest
    → Stops (codes "|}") (print_params params rest)
print_params-Stops [] rest h = h
print_params-Stops (param ∷ params) rest h = refl

module _ (b : Combinators) (laws : CombinatorLaws b) where
  abbrev pub bar : b.Rule (Unit {0})
  bar = b.lit (codes "|")

  abbrev next_param : b.Rule ParameterEntry
  next_param = b.seq_right bar (param_rule b)

  pub print_param-Visible :
      (param : ParameterEntry) (rest : Text)
      → IsParam b param
      → Stops (codes "|}") rest
      → Visible b (print_param param rest)
  print_param-Visible param rest h stop =
      Visible-append b param.key (print_value param.value rest) h.1
        (print_value-Visible b laws param.value rest stop)

  match-next_param :
      (param : ParameterEntry) (rest : Text)
      → IsParam b param
      → Stops (codes "|}") rest
      → b.match next_param true (b'|' ∷ print_param param rest) ≡ some (param, rest)
  match-next_param param rest h stop =
      let s : Text = b'|' ∷ print_param param rest in
      let solid : unblank b s ≡ s = Visible-unblank b s laws.bar_mark in
      laws.seq_right_lem bar (param_rule b) true s
      ∙ ap (λ r. and_then r (λ xy t. some (xy.1, t)))
          (match-seq b laws bar (param_rule b) s tt param (print_param param rest) rest
            (match-lit b laws (codes "|") s (print_param param rest) solid)
            (match-lit b laws (codes "|") (unblank b s) (print_param param rest)
              (unblank_again b s ∙ solid))
            (Visible-unblank b (print_param param rest) (print_param-Visible param rest h stop))
            (match-param_rule b laws param rest h stop))

  no_next_param : (rest : Text) → b.match next_param true (b'}' ∷ rest) ≡ none
  unfolding starts_with
  no_next_param rest =
      let s : Text = b'}' ∷ rest in
      laws.seq_right_lem bar (param_rule b) true s
      ∙ ap (λ r. and_then r (λ xy t. some (xy.1, t)))
          (laws.seq_none bar (param_rule b) true s (lit-Steady b laws (codes "|") s) (
            laws.lit_lem (codes "|") true s
            ∙ ap (after_literal (codes "|")) (Visible-unblank b s laws.close_mark)))

  solid-Steady : {A : Type 0} (p : b.Rule A) (s : Text) → unblank b s ≡ s → Steady b p true s
  solid-Steady p s h = ap (b.match p true) (sym h)

  match-star_params :
      (params : List ParameterEntry) (rest : Text)
      → AreParams b params
      → b.match (b.star next_param) true (print_params params (b'}' ∷ rest))
        ≡ some (params, b'}' ∷ rest)
  match-star_params [] rest h =
      let s : Text = b'}' ∷ rest in
      let solid : unblank b s ≡ s = Visible-unblank b s laws.close_mark in
      elim (laws.star_end next_param true s (solid-Steady next_param s solid)
        (no_next_param rest)) [ inl e ↦ e | inr e ↦ e ∙ ap (λ t. some ([], t)) solid ]
  match-star_params (param ∷ params) rest h =
      let tail = print_params params (b'}' ∷ rest) in
      let s : Text = b'|' ∷ print_param param tail in
      let solid : unblank b s ≡ s = Visible-unblank b s laws.bar_mark in
      laws.star_more next_param true s param tail (solid-Steady next_param s solid)
        (match-next_param param tail h.0 (print_params-Stops params (b'}' ∷ rest) refl))
        (omega (arith, length-print_param param tail))
      ∙ ap (λ r. and_then r (λ others t. some (param ∷ others, t)))
          (match-star_params params rest h.1)

  pub match-separated :
      (param : ParameterEntry) (params : List ParameterEntry) (rest : Text)
      → IsParam b param
      → AreParams b params
      → b.match
          (b.separated (param_rule b) bar)
          true
          (print_param param (print_params params (b'}' ∷ rest)))
        ≡ some (param ∷ params, b'}' ∷ rest)
  match-separated param params rest h hs =
      let tail = print_params params (b'}' ∷ rest) in
      let s : Text = print_param param tail in
      let stop = print_params-Stops params (b'}' ∷ rest) refl in
      let solid : unblank b s ≡ s = Visible-unblank b s (print_param-Visible param tail h stop) in
      laws.separated_some (param_rule b) bar true s param tail (solid-Steady (param_rule b) s solid)
        (match-param_rule b laws param tail h stop)
      ∙ ap (λ r. and_then r (λ others t. some (param ∷ others, t)))
          (match-star_params params rest hs)

  pub match-template_type :
      (name rest : Text)
      → IsName b name
      → b.match (template_type_rule b) true (name ++ b'|' ∷ rest) ≡ some (name, b'|' ∷ rest)
  unfolding template_type_rule
  match-template_type [] rest h = absurd h
  match-template_type (c ∷ name) rest h =
      laws.lexeme_lem (b.plus (except b b.char (codes "|"))) true (c ∷ (name ++ b'|' ∷ rest))
        (Visible-unblank b (c ∷ (name ++ b'|' ∷ rest)) h.1)
      ∙ match-plus_except b laws (codes "|") c name (b'|' ∷ rest) h.0 refl
