-- ===== src/Parser/Grammar/Wikitext.antt =====
-- Templates with any text between them: what prefix_parse finds.
use mathlib.Core.List.{append-nil}
use citescoop.Prelude.{
  ℕ, ◌<◌, ◌≡◌, refl, sym, ap, subst, ◌∙◌, true, false, Option, none, some, List, [], ◌∷◌, ◌++◌,
  arith, ◌==◌, Option-cases, inl, inr, is_some, length, length-append,
}
use citescoop.Prelude.Text.{Text, starts_with}
use citescoop.Parser.Entries.{TemplateEntry}
use citescoop.Parser.Combinators.{Combinators, CombinatorLaws, and_then, without_blanks, Steady}
use citescoop.Parser.Grammar.{skip_to_template, template_rule, wikitext_rule, prefix_parse}
use citescoop.Parser.Grammar.Junk.{
  unblank, unblank_again, NoOpen, Leads, Leads-blanks, Leads-NoOpen,
}
use citescoop.Parser.Grammar.Params.{print_params, print_template, IsTemplate, Visible-unblank}
use citescoop.Parser.Grammar.Template.{match-template_rule, no_template_rule, broken_template_rule}
use citescoop.Parser.Grammar.ParamList.{length-print_params}

-- Each template behind the text in front of it, and the text behind the last.
abbrev pub print_wikitext : List (Text × TemplateEntry) → Text → Text
print_wikitext [] tail = tail
print_wikitext ((junk, entry) ∷ segments) tail =
    junk ++ print_template entry (print_wikitext segments tail)

abbrev pub entries_of : List (Text × TemplateEntry) → List TemplateEntry
entries_of [] = []
entries_of ((junk, entry) ∷ segments) = entry ∷ entries_of segments

-- The templates are printed as the grammar writes them, and no "{{" begins between them.
abbrev pub AreSegments : Combinators → List (Text × TemplateEntry) → Text → Type 0
AreSegments b [] tail = Unit
AreSegments b ((junk, entry) ∷ segments) tail =
    NoOpen b (print_template entry (print_wikitext segments tail)) junk
    × IsTemplate b entry
    × AreSegments b segments tail

-- A template that one brace ends.
abbrev pub print_broken : TemplateEntry → ℕ → Text → Text
print_broken entry c rest =
    b'{' ∷ b'{' ∷ (entry.name ++ print_params entry.params (b'}' ∷ c ∷ rest))

length-print_template :
    (entry : TemplateEntry) (rest : Text) → length rest < length (print_template entry rest)
length-print_template entry rest = omega (
  arith,
  length-append entry.name (print_params entry.params (b'}' ∷ b'}' ∷ rest)),
  length-print_params entry.params (b'}' ∷ b'}' ∷ rest),
)

module _ (b : Combinators) (laws : CombinatorLaws b) where
  abbrev item : b.Rule TemplateEntry
  item = b.seq_right (b.omit (skip_to_template b)) (template_rule b)

  -- What is matched behind the junk, wherever exactly the junk ends.
  match-item :
      (s target : Text) (m : Option (TemplateEntry × Text))
      → Leads b s target
      → ((t : Text) → unblank b t ≡ target → b.match (template_rule b) true t ≡ m)
      → b.match item true s ≡ m
  match-item s target m l found =
      let l' = Leads-blanks b laws s (unblank b s) target (sym (unblank_again b s)) l in
      laws.seq_right_lem (b.omit (skip_to_template b)) (template_rule b) true s
      ∙ ap (λ r. and_then r (λ ac t. some (ac.1, t)))
          (laws.seq_some (b.omit (skip_to_template b)) (template_rule b) true s tt l.rest l'.rest m
            (omitted s l) (omitted (unblank b s) l') (l.at_target ∙ sym l'.at_target)
            (found l.rest l.at_target) (found l'.rest l'.at_target)
            (found (unblank b l.rest) (unblank_again b l.rest ∙ l.at_target)))
      ∙ same m
    where
      omitted :
          (t : Text) (k : Leads b t target)
          → b.match (b.omit (skip_to_template b)) true t ≡ some (tt, k.rest)
      omitted t k =
          laws.omit_lem (skip_to_template b) true t
          ∙ ap (λ r. and_then r (λ a u. some (tt, u))) k.ends

      same :
          (r : Option (TemplateEntry × Text))
          → and_then
              (and_then {B = (Unit {0} × TemplateEntry) × Text} r (λ c t. some ((tt, c), t)))
              (λ ac t. some (ac.1, t))
            ≡ r
      same none = refl
      same (some (e, t)) = refl

  item-Steady :
      (s target : Text) (m : Option (TemplateEntry × Text))
      → Leads b s target
      → ((t : Text) → unblank b t ≡ target → b.match (template_rule b) true t ≡ m)
      → Steady b item true s
  item-Steady s target m l found =
      match-item s target m l found
      ∙ sym (
          match-item (unblank b s) target m
            (Leads-blanks b laws s (unblank b s) target (sym (unblank_again b s)) l) found)

  abbrev NoMore : Text → Type 0
  NoMore tail = (rest : Text) × (b.match (wikitext_rule b) true tail ≡ some ([], rest))

  no_item :
      (s target : Text)
      → Leads b s target
      → ((t : Text) → unblank b t ≡ target → b.match (template_rule b) true t ≡ none)
      → NoMore s
  unfolding wikitext_rule
  no_item s target l nothing =
      elim (laws.star_end item true s (item-Steady s target none l nothing)
        (match-item s target none l nothing)) [ inl e ↦ (s, e) | inr e ↦ (unblank b s, e) ]

  tail-NoMore : (tail : Text) → NoOpen b [] tail → NoMore tail
  unfolding starts_with without_blanks
  tail-NoMore tail h =
      no_item tail []
        (subst (λ t. Leads b t []) (append-nil tail) (Leads-NoOpen b laws tail [] h refl refl))
        (λ t e. no_template_rule b laws t e)

  broken-NoMore :
      (junk : Text) (entry : TemplateEntry) (c : ℕ) (rest : Text)
      → NoOpen b (print_broken entry c rest) junk
      → IsTemplate b entry
      → (c == b'}') ≡ false
      → NoMore (junk ++ print_broken entry c rest)
  unfolding starts_with
  broken-NoMore junk entry c rest h e other =
      let target : Text = print_broken entry c rest in
      no_item (junk ++ target) target
        (Leads-NoOpen b laws junk target h (Visible-unblank b target laws.open_mark) refl)
        (λ t k. broken_template_rule b laws entry c rest t e other k)

  match-wikitext_rule :
      (segments : List (Text × TemplateEntry)) (tail : Text)
      → AreSegments b segments tail
      → NoMore tail
      → (rest : Text) × (b.match (wikitext_rule b) true (print_wikitext segments tail)
          ≡ some (entries_of segments, rest))
  unfolding wikitext_rule starts_with
  match-wikitext_rule [] tail h last = last
  match-wikitext_rule ((junk, entry) ∷ segments) tail h last =
      let rest = print_wikitext segments tail in
      let target : Text = print_template entry rest in
      let solid : unblank b target ≡ target = Visible-unblank b target laws.open_mark in
      let l = Leads-NoOpen b laws junk target h.0 solid refl in
      let found =
        λ (t : Text) (e : unblank b t ≡ target). match-template_rule b laws entry rest t h.1 e in
      let (end, others) = match-wikitext_rule segments tail h.2 last in
      (
        end,
        laws.star_more item true (junk ++ target) entry rest
              (item-Steady (junk ++ target) target (some (entry, rest)) l found)
              (match-item (junk ++ target) target (some (entry, rest)) l found)
              (omega (arith, length-append junk target, length-print_template entry rest))
            ∙ ap (λ r. and_then r (λ more t. some (entry ∷ more, t))) others,
      )

  abbrev values_of : Option (List TemplateEntry × Text) → Option (List TemplateEntry)
  values_of r = elim r [ none ↦ none | some (entries, rest) ↦ some entries ]

  -- Given the laws of the combinators: of a text in which each template is printed as the grammar
  -- writes it, with a name and at least one parameter, with none of the marks that end them inside
  -- the name, the keys and the values, none of which begins with a blank, and in which no "{{"
  -- begins elsewhere, prefix_parse finds just these templates, in their order.
  pub prefix_parse-print_wikitext :
      (segments : List (Text × TemplateEntry)) (tail : Text)
      → AreSegments b segments tail
      → NoOpen b [] tail
      → prefix_parse b (print_wikitext segments tail) ≡ some (entries_of segments)
  unfolding prefix_parse
  prefix_parse-print_wikitext segments tail h k =
      ap values_of (match-wikitext_rule segments tail h (tail-NoMore tail k)).1

  -- Given the laws of the combinators: a template whose last parameter ends in one closing brace,
  -- and not two, ends the parse without an error. Of a text with such a template behind others,
  -- which are printed as the grammar writes them, without marks inside and without leading blanks,
  -- prefix_parse finds the others alone, whatever templates come behind it.
  pub prefix_parse-print_broken :
      (segments : List (Text × TemplateEntry)) (junk : Text) (entry : TemplateEntry) (c : ℕ)
      (rest : Text)
      → AreSegments b segments (junk ++ print_broken entry c rest)
      → NoOpen b (print_broken entry c rest) junk
      → IsTemplate b entry
      → (c == b'}') ≡ false
      → prefix_parse b (print_wikitext segments (junk ++ print_broken entry c rest))
        ≡ some (entries_of segments)
  unfolding prefix_parse
  prefix_parse-print_broken segments junk entry c rest h k e other =
      ap values_of
        (match-wikitext_rule segments (junk ++ print_broken entry c rest) h
          (broken-NoMore junk entry c rest k e other)).1

  -- Given that a repetition of the combinators matches every text, the grammar accepts every text:
  -- prefix_parse never fails.
  pub prefix_parse_total : (text : Text) → is_some (prefix_parse b text) ≡ true
  unfolding prefix_parse wikitext_rule
  prefix_parse_total text = elim (Option-cases (b.match (wikitext_rule b) true text)) [
    | inl failed ↦ absurd (none_total (sym (ap is_some failed) ∙ laws.star_total item true text))
    | inr ((entries, rest), found) ↦ ap (λ r. is_some (values_of r)) found
  ]
    where
      none_total : false ≡ true → ⊥
      none_total h = cc
