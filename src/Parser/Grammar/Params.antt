-- ===== src/Parser/Grammar/Params.antt =====
-- A printed parameter is matched as a whole.
use citescoop.Prelude.{
  ◌≤◌, ◌≡◌, refl, sym, ap, subst, ◌∙◌, true, false, Option, none, some, List, [], ◌∷◌, ◌++◌, arith,
  Bool-cases, inl, inr, length, drop-append, ◌==◌, ==_iff,
}
use citescoop.Prelude.Text.{Text, codes, starts_with, starts_with-append}
use citescoop.Parser.Entries.{ParameterEntry, TemplateEntry}
use citescoop.Parser.Combinators.{
  Combinators, CombinatorLaws, and_then, after_literal, without_blanks,
}
use citescoop.Parser.Grammar.{except, key_rule, val_rule, param_rule}
use citescoop.Parser.Grammar.Chars.{Avoids, Stops, match-star_except}
use citescoop.Parser.Grammar.Junk.{unblank, unblank_again, lit-Steady}

-- "=value", where there is one.
abbrev pub print_value : Option Text → Text → Text
print_value none rest = rest
print_value (some value) rest = b'=' ∷ (value ++ rest)

-- The parameter, and what comes behind it.
abbrev pub print_param : ParameterEntry → Text → Text
print_param param rest = param.key ++ print_value param.value rest

-- "|parameter" for each, and what comes behind them.
abbrev pub print_params : List ParameterEntry → Text → Text
print_params [] rest = rest
print_params (param ∷ params) rest = b'|' ∷ print_param param (print_params params rest)

abbrev pub print_template : TemplateEntry → Text → Text
print_template entry rest =
    b'{' ∷ b'{' ∷ (entry.name ++ print_params entry.params (b'}' ∷ b'}' ∷ rest))

module _ (b : Combinators) where
  -- The text does not begin with a blank.
  abbrev pub Visible : Text → Type 0
  Visible [] = Unit
  Visible (c ∷ s) = b.is_blank c ≡ false

  abbrev pub IsValue : Option Text → Type 0
  IsValue none = Unit
  IsValue (some value) = Avoids (codes "|}") value × Visible value

  abbrev pub IsParam : ParameterEntry → Type 0
  IsParam param = Avoids (codes "=|}") param.key × Visible param.key × IsValue param.value

  abbrev pub AreParams : List ParameterEntry → Type 0
  AreParams [] = Unit
  AreParams (param ∷ params) = IsParam param × AreParams params

  -- A name and at least one parameter, in which none of the marks stands that end them and which
  -- do not begin with blanks.
  abbrev pub IsName : Text → Type 0
  IsName [] = ⊥
  IsName (c ∷ s) = Avoids (codes "|") (c ∷ s) × (b.is_blank c ≡ false)

  abbrev pub IsTemplate : TemplateEntry → Type 0
  IsTemplate entry = IsName entry.name × AreParams entry.params × (1 ≤ length entry.params)

  pub Visible-unblank : (s : Text) → Visible s → unblank b s ≡ s
  unfolding without_blanks
  Visible-unblank [] h = refl
  Visible-unblank (c ∷ s) h = rw h refl

  pub Visible-append : (s rest : Text) → Visible s → Visible rest → Visible (s ++ rest)
  Visible-append [] rest h k = k
  Visible-append (c ∷ s) rest h k = h

module _ (b : Combinators) (laws : CombinatorLaws b) where
  -- Two rules one after the other, the first of which matches up to where the second does.
  pub match-seq :
      {A B : Type 0} (p : b.Rule A) (q : b.Rule B) (s : Text) (x : A) (y : B) (rest t : Text)
      → b.match p true s ≡ some (x, rest)
      → b.match p true (unblank b s) ≡ some (x, rest)
      → unblank b rest ≡ rest
      → b.match q true rest ≡ some (y, t)
      → b.match (b.seq p q) true s ≡ some ((x, y), t)
  match-seq p q s x y rest t h h' solid k =
      laws.seq_some p q true s x rest rest (some (y, t)) h h' refl k k
        (ap (b.match q true) solid ∙ k)

  pub match-lit :
      (t s rest : Text) → unblank b s ≡ t ++ rest → b.match (b.lit t) true s ≡ some (tt, rest)
  match-lit t s rest h =
      laws.lit_lem t true s
      ∙ ap (after_literal t) h
      ∙ rw (starts_with-append t rest, drop-append t rest) refl

  -- Within a rule for characters, and behind it.
  value_chars : Text → b.Rule Text
  value_chars marks = b.lexeme (b.star (except b b.char marks))

  match-value_chars :
      (marks xs rest : Text)
      → Avoids marks xs
      → Stops marks rest
      → Visible b (xs ++ rest)
      → b.match (value_chars marks) true (xs ++ rest) ≡ some (xs, rest)
  unfolding value_chars
  match-value_chars marks xs rest a h v =
      laws.lexeme_lem (b.star (except b b.char marks)) true (xs ++ rest)
        (Visible-unblank b (xs ++ rest) v)
      ∙ match-star_except b laws marks xs rest a h

  pub Stops-Visible : (rest : Text) → Stops (codes "|}") rest → Visible b rest
  Stops-Visible [] h = tt
  Stops-Visible (c ∷ s) h = elim (Bool-cases (c == b'|')) [
    | inl bar ↦ subst (λ x. b.is_blank x ≡ false) (sym ((==_iff c b'|').0 bar)) laws.bar_mark
    | inr other ↦
        subst (λ x. b.is_blank x ≡ false) (sym ((==_iff c b'}').0 (ground (arith, h, other))))
          laws.close_mark
  ]

  match-val_rule :
      (value rest : Text)
      → Avoids (codes "|}") value
      → Visible b value
      → Stops (codes "|}") rest
      → b.match (val_rule b) true (b'=' ∷ (value ++ rest)) ≡ some (value, rest)
  unfolding val_rule value_chars
  match-val_rule value rest a v stop =
      let s : Text = b'=' ∷ (value ++ rest) in
      let solid : unblank b s ≡ s = Visible-unblank b s laws.equals_mark in
      let visible = Visible-append b value rest v (Stops-Visible rest stop) in
      laws.seq_right_lem (b.lit (codes "=")) (value_chars (codes "|}")) true s
      ∙ ap (λ r. and_then r (λ xy t. some (xy.1, t)))
          (match-seq (b.lit (codes "=")) (value_chars (codes "|}")) s tt value (value ++ rest) rest
            (match-lit (codes "=") s (value ++ rest) solid)
            (match-lit (codes "=") (unblank b s) (value ++ rest) (unblank_again b s ∙ solid))
            (Visible-unblank b (value ++ rest) visible)
            (match-value_chars (codes "|}") value rest a stop visible))

  no_val_rule : (rest : Text) → Stops (codes "|}") rest → b.match (val_rule b) true rest ≡ none
  unfolding val_rule value_chars starts_with
  no_val_rule rest stop =
      let solid = Visible-unblank b rest (Stops-Visible rest stop) in
      laws.seq_right_lem (b.lit (codes "=")) (value_chars (codes "|}")) true rest
      ∙ ap (λ r. and_then r (λ xy t. some (xy.1, t)))
          (laws.seq_none (b.lit (codes "=")) (value_chars (codes "|}")) true rest
            (lit-Steady b laws (codes "=") rest)
            (laws.lit_lem (codes "=") true rest
              ∙ ap (after_literal (codes "=")) solid
              ∙ no_equals rest stop))
    where
      no_equals : (s : Text) → Stops (codes "|}") s → after_literal (codes "=") s ≡ none
      no_equals [] h = refl
      no_equals (c ∷ s) h = ground (arith, h)

  pub print_value-Visible :
      (value : Option Text) (rest : Text)
      → Stops (codes "|}") rest
      → Visible b (print_value value rest)
  print_value-Visible none rest stop = Stops-Visible rest stop
  print_value-Visible (some value) rest stop = laws.equals_mark

  match-value :
      (value : Option Text) (rest : Text)
      → IsValue b value
      → Stops (codes "|}") rest
      → b.match (b.optional (val_rule b)) true (print_value value rest) ≡ some (value, rest)
  match-value none rest h stop =
      laws.optional_none (val_rule b) true rest (Visible-unblank b rest (Stops-Visible rest stop))
        (no_val_rule rest stop)
  match-value (some value) rest h stop =
      laws.optional_some (val_rule b) true (b'=' ∷ (value ++ rest)) value rest
        (Visible-unblank b (b'=' ∷ (value ++ rest)) laws.equals_mark)
        (match-val_rule value rest h.0 h.1 stop)

  key-Stops :
      (value : Option Text) (rest : Text)
      → Stops (codes "|}") rest
      → Stops (codes "=|}") (print_value value rest)
  key-Stops none [] stop = tt
  key-Stops none (c ∷ rest) stop = ground (arith, stop)
  key-Stops (some value) rest stop = refl

  pub match-param_rule :
      (param : ParameterEntry) (rest : Text)
      → IsParam b param
      → Stops (codes "|}") rest
      → b.match (param_rule b) true (print_param param rest) ≡ some (param, rest)
  unfolding param_rule key_rule value_chars
  match-param_rule param rest h stop =
      let s : Text = print_param param rest in
      let behind : Text = print_value param.value rest in
      let visible =
        Visible-append b param.key behind h.1 (print_value-Visible param.value rest stop) in
      let key =
        match-value_chars (codes "=|}") param.key behind h.0 (key-Stops param.value rest stop)
          visible in
      laws.attribute_lem _ (b.seq (key_rule b) (b.optional (val_rule b))) true s
      ∙ ap (λ r. and_then r (λ kv t. some (record { key = kv.0; value = kv.1 }, t)))
          (match-seq (key_rule b) (b.optional (val_rule b)) s param.key param.value behind rest key
            (ap (b.match (key_rule b) true) (Visible-unblank b s visible) ∙ key)
            (Visible-unblank b behind (print_value-Visible param.value rest stop))
            (match-value param.value rest h.2 stop))
