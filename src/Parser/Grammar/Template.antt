-- ===== src/Parser/Grammar/Template.antt =====
-- A printed template is matched as a whole.
use citescoop.Prelude.{
  ℕ, ◌≤◌, ◌≡◌, refl, sym, ap, ◌∙◌, true, false, none, some, List, [], ◌∷◌, ◌++◌, arith, ◌==◌,
  length,
}
use citescoop.Prelude.Text.{Text, codes, starts_with}
use citescoop.Parser.Entries.{ParameterEntry, TemplateEntry}
use citescoop.Parser.Combinators.{Combinators, CombinatorLaws, and_then, after_literal}
use citescoop.Parser.Grammar.{template_type_rule, param_rule, template_rule}
use citescoop.Parser.Grammar.Junk.{open_braces, unblank, unblank_again, lit-Steady}
use citescoop.Parser.Grammar.Params.{
  print_param, print_params, print_template, Visible, IsParam, AreParams, IsName, IsTemplate,
  Visible-unblank, match-seq, match-lit,
}
use citescoop.Parser.Grammar.ParamList.{
  print_params-Stops, bar, print_param-Visible, match-separated, match-template_type,
}

module _ (b : Combinators) (laws : CombinatorLaws b) where
  -- Two braces and the name.
  abbrev opening : b.Rule Text
  opening = b.seq_right (b.lit open_braces) (template_type_rule b)

  match-opening :
      (name rest s : Text)
      → IsName b name
      → unblank b s ≡ b'{' ∷ b'{' ∷ (name ++ b'|' ∷ rest)
      → b.match opening true s ≡ some (name, b'|' ∷ rest)
  match-opening name rest s h e =
      let behind : Text = name ++ b'|' ∷ rest in
      laws.seq_right_lem (b.lit open_braces) (template_type_rule b) true s
      ∙ ap (λ r. and_then r (λ xy t. some (xy.1, t)))
          (match-seq b laws (b.lit open_braces) (template_type_rule b) s tt name behind
            (b'|' ∷ rest) (match-lit b laws open_braces s behind e)
            (match-lit b laws open_braces (unblank b s) behind (unblank_again b s ∙ e))
            (Visible-unblank b behind (name_visible name h))
            (match-template_type b laws name rest h))
    where
      name_visible : (n : Text) → IsName b n → Visible b (n ++ b'|' ∷ rest)
      name_visible [] k = absurd k
      name_visible (c ∷ n) k = k.1

  abbrev opening_bar : b.Rule Text
  opening_bar = b.seq_left opening (bar b laws)

  match-opening_bar :
      (name rest s : Text)
      → IsName b name
      → unblank b s ≡ b'{' ∷ b'{' ∷ (name ++ b'|' ∷ rest)
      → b.match opening_bar true s ≡ some (name, rest)
  match-opening_bar name rest s h e =
      let solid : unblank b (b'|' ∷ rest) ≡ b'|' ∷ rest =
        Visible-unblank b (b'|' ∷ rest) laws.bar_mark in
      laws.seq_left_lem opening (bar b laws) true s
      ∙ ap (λ r. and_then r (λ xy t. some (xy.0, t)))
          (match-seq b laws opening (bar b laws) s name tt (b'|' ∷ rest) rest
            (match-opening name rest s h e)
            (match-opening name rest (unblank b s) h (unblank_again b s ∙ e)) solid
            (match-lit b laws (codes "|") (b'|' ∷ rest) rest solid))

  abbrev contents : b.Rule (Text × List ParameterEntry)
  contents = b.seq opening_bar (b.separated (param_rule b) (bar b laws))

  match-contents :
      (name : Text) (param : ParameterEntry) (params : List ParameterEntry) (rest s : Text)
      → IsName b name
      → IsParam b param
      → AreParams b params
      → unblank b s ≡ b'{' ∷ b'{' ∷ (name ++ print_params (param ∷ params) (b'}' ∷ rest))
      → b.match contents true s ≡ some ((name, param ∷ params), b'}' ∷ rest)
  match-contents name param params rest s n h hs e =
      let behind = print_param param (print_params params (b'}' ∷ rest)) in
      match-seq b laws opening_bar (b.separated (param_rule b) (bar b laws)) s name (param ∷ params)
        behind (b'}' ∷ rest) (match-opening_bar name behind s n e)
        (match-opening_bar name behind (unblank b s) n (unblank_again b s ∙ e))
        (Visible-unblank b behind (
          print_param-Visible b laws param (print_params params (b'}' ∷ rest)) h
            (print_params-Stops params (b'}' ∷ rest) refl)))
        (match-separated b laws param params rest h hs)

  abbrev whole : b.Rule (Text × List ParameterEntry)
  whole = b.seq_left contents (b.lit (codes "}}"))

  match-whole :
      (name : Text) (params : List ParameterEntry) (rest s : Text)
      → IsName b name
      → AreParams b params
      → 1 ≤ length params
      → unblank b s ≡ b'{' ∷ b'{' ∷ (name ++ print_params params (b'}' ∷ b'}' ∷ rest))
      → b.match whole true s ≡ some ((name, params), rest)
  match-whole name [] rest s n hs some_param e = absurd (omega arith)
  match-whole name (param ∷ params) rest s n hs some_param e =
      let closing : Text = b'}' ∷ b'}' ∷ rest in
      let solid : unblank b closing ≡ closing = Visible-unblank b closing laws.close_mark in
      laws.seq_left_lem contents (b.lit (codes "}}")) true s
      ∙ ap (λ r. and_then r (λ xy t. some (xy.0, t)))
          (match-seq b laws contents (b.lit (codes "}}")) s (name, param ∷ params) tt closing rest
            (match-contents name param params (b'}' ∷ rest) s n hs.0 hs.1 e)
            (match-contents name param params (b'}' ∷ rest) (unblank b s) n hs.0 hs.1
              (unblank_again b s ∙ e))
            solid (match-lit b laws (codes "}}") closing rest solid))

  -- A printed template is matched behind any blanks, up to its end.
  pub match-template_rule :
      (entry : TemplateEntry) (rest s : Text)
      → IsTemplate b entry
      → unblank b s ≡ print_template entry rest
      → b.match (template_rule b) true s ≡ some (entry, rest)
  unfolding template_rule
  match-template_rule entry rest s h e =
      laws.attribute_lem _ whole true s
      ∙ ap (λ r. and_then r (λ np t. some (record { name = np.0; params = np.1 }, t)))
          (match-whole entry.name entry.params rest s h.0 h.1 h.2 e)

  broken_whole :
      (name : Text) (params : List ParameterEntry) (c : ℕ) (rest s : Text)
      → IsName b name
      → AreParams b params
      → 1 ≤ length params
      → (c == b'}') ≡ false
      → unblank b s ≡ b'{' ∷ b'{' ∷ (name ++ print_params params (b'}' ∷ c ∷ rest))
      → b.match whole true s ≡ none
  unfolding starts_with
  broken_whole name [] c rest s n hs some_param other e = absurd (omega arith)
  broken_whole name (param ∷ params) c rest s n hs some_param other e =
      let closing : Text = b'}' ∷ c ∷ rest in
      let solid : unblank b closing ≡ closing = Visible-unblank b closing laws.close_mark in
      let open_end : b.match (b.lit (codes "}}")) true closing ≡ none =
        laws.lit_lem (codes "}}") true closing
        ∙ ap (after_literal (codes "}}")) solid
        ∙ rw other refl in
      laws.seq_left_lem contents (b.lit (codes "}}")) true s
      ∙ ap (λ r. and_then r (λ xy t. some (xy.0, t)))
          (laws.seq_some contents (b.lit (codes "}}")) true s (name, param ∷ params) closing closing
            none (match-contents name param params (c ∷ rest) s n hs.0 hs.1 e)
            (match-contents name param params (c ∷ rest) (unblank b s) n hs.0 hs.1
              (unblank_again b s ∙ e))
            refl open_end open_end (ap (b.match (b.lit (codes "}}")) true) solid ∙ open_end))

  pub broken_template_rule :
      (entry : TemplateEntry) (c : ℕ) (rest s : Text)
      → IsTemplate b entry
      → (c == b'}') ≡ false
      → unblank b s ≡ b'{' ∷ b'{' ∷ (entry.name ++ print_params entry.params (b'}' ∷ c ∷ rest))
      → b.match (template_rule b) true s ≡ none
  unfolding template_rule
  broken_template_rule entry c rest s h other e =
      laws.attribute_lem _ whole true s
      ∙ ap (λ r. and_then r (λ np t. some (record { name = np.0; params = np.1 }, t)))
          (broken_whole entry.name entry.params c rest s h.0 h.1 h.2 other e)

  -- At the end of the text there is none.
  pub no_template_rule : (s : Text) → unblank b s ≡ [] → b.match (template_rule b) true s ≡ none
  unfolding template_rule starts_with
  no_template_rule s e =
      laws.attribute_lem _ whole true s
      ∙ ap (λ r. and_then r (λ np t. some (record { name = np.0; params = np.1 }, t)))
          (laws.seq_left_lem contents (b.lit (codes "}}")) true s
            ∙ ap (λ r. and_then r (λ xy t. some (xy.0, t)))
                (laws.seq_none contents (b.lit (codes "}}")) true s
                  (no_contents s e ∙ sym (no_contents (unblank b s) (unblank_again b s ∙ e)))
                  (no_contents s e)))
    where
      no_opening : (t : Text) → unblank b t ≡ [] → b.match opening true t ≡ none
      no_opening t h =
          laws.seq_right_lem (b.lit open_braces) (template_type_rule b) true t
          ∙ ap (λ r. and_then r (λ xy u. some (xy.1, u)))
              (laws.seq_none (b.lit open_braces) (template_type_rule b) true t
                (lit-Steady b laws open_braces t)
                (laws.lit_lem open_braces true t ∙ ap (after_literal open_braces) h))

      no_opening_bar : (t : Text) → unblank b t ≡ [] → b.match opening_bar true t ≡ none
      no_opening_bar t h =
          laws.seq_left_lem opening (bar b laws) true t
          ∙ ap (λ r. and_then r (λ xy u. some (xy.0, u)))
              (laws.seq_none opening (bar b laws) true t
                (no_opening t h ∙ sym (no_opening (unblank b t) (unblank_again b t ∙ h)))
                (no_opening t h))

      no_contents : (t : Text) → unblank b t ≡ [] → b.match contents true t ≡ none
      no_contents t h =
          laws.seq_none opening_bar (b.separated (param_rule b) (bar b laws)) true t
            (no_opening_bar t h ∙ sym (no_opening_bar (unblank b t) (unblank_again b t ∙ h)))
            (no_opening_bar t h)
