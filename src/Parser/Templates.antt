-- ===== src/Parser/Templates.antt =====
-- The citations that Parse collects.
use citescoop.Prelude.{
  ◌≡◌, refl, sym, subst, ◌∙◌, Bool, true, Option, none, some, List, [], ◌∷◌, arith, if◌then◌else◌,
  Bool-cases, inl, inr,
}
use citescoop.Prelude.Text.{Text, text_eq, text_eq_iff}
use citescoop.Proto.{ExtractedCitation, RevisionCitations}
use citescoop.Result.{
  Result, ok, err, Returns, Returns-bind, Returns-if, >>=-eq-ok, Result-cases, ◌>>=◌,
}
use citescoop.StdMap.{Map, find, insert, find-insert, or_else}
use citescoop.StdMap.Keys.{text_ord}
use citescoop.Parser.Entries.{TemplateEntry}
use citescoop.Parser.{
  ParserOptions, Libraries, normalised, build_citation, title_or_empty, add_template, add_templates,
  parse,
}
use citescoop.Parser.Lenient.{build_citation-Returns}

module _ (lib : Libraries) where
  -- The first citation with the title `key` among the templates whose name the filter accepts.
  abbrev pub first_titled :
      (Text → Bool) → ParserOptions → Text → List TemplateEntry → Option ExtractedCitation
  first_titled filter options key [] = none
  first_titled filter options key (entry ∷ entries) =
      let rest = first_titled filter options key entries in
      if filter (normalised lib entry.name)
      then elim (build_citation lib options entry) [
        | ok c ↦ if text_eq (title_or_empty c) key then some c else rest
        | err e ↦ none
      ]
      else rest

  first_titled-cons :
      (filter : Text → Bool) (options : ParserOptions) (entry : TemplateEntry)
      (entries : List TemplateEntry) (before middle : Map Text ExtractedCitation) (key : Text)
      → add_template lib filter options entry before ≡ ok middle
      → or_else (find middle key) (first_titled filter options key entries)
        ≡ or_else (find before key) (first_titled filter options key (entry ∷ entries))
  unfolding add_template
  first_titled-cons filter options entry entries before middle key h =
      elim (Bool-cases (filter (normalised lib entry.name))) [
        | inl accepted ↦ elim (Result-cases (build_citation lib options entry)) [
          | inl (c, built) ↦
              let inserted : middle ≡ insert (title_or_empty c) c before =
                ground (arith, accepted, built, h) in
              rw (inserted, accepted, built, find-insert (title_or_empty c) c before key)
                (ground (arith, text_eq_iff (title_or_empty c) key))
          | inr (x, failed) ↦ ground (arith, accepted, failed, h)
        ]
        | inr refused ↦ ground (arith, refused, h)
      ]

  add_templates-first_titled :
      (filter : Text → Bool) (options : ParserOptions) (entries : List TemplateEntry)
      (before after : Map Text ExtractedCitation) (key : Text)
      → add_templates lib filter options entries before ≡ ok after
      → find after key ≡ or_else (find before key) (first_titled filter options key entries)
  unfolding add_templates
  add_templates-first_titled filter options [] before after key h = ground (arith, h)
  add_templates-first_titled filter options (entry ∷ entries) before after key h =
      let (middle, now, later) =
        >>=-eq-ok (add_template lib filter options entry before)
          (add_templates lib filter options entries) h in
      add_templates-first_titled filter options entries middle after key later
      ∙ first_titled-cons filter options entry entries before middle key now

  add_template-Returns :
      (filter : Text → Bool) (options : ParserOptions) (entry : TemplateEntry)
      (citations : Map Text ExtractedCitation)
      → options.ignore_invalid_ident ≡ true
      → Returns (add_template lib filter options entry citations) (λ _. Unit)
  unfolding add_template
  add_template-Returns filter options entry citations lenient =
      Returns-if (λ _. Unit) (filter (normalised lib entry.name)) _ _
        (Returns-bind (build_citation lib options entry) _ _ _
          (build_citation-Returns lib options entry lenient) (λ c u. tt))
        tt

  add_templates-Returns :
      (filter : Text → Bool) (options : ParserOptions) (entries : List TemplateEntry)
      (citations : Map Text ExtractedCitation)
      → options.ignore_invalid_ident ≡ true
      → Returns (add_templates lib filter options entries citations) (λ _. Unit)
  unfolding add_templates
  add_templates-Returns filter options [] citations lenient = tt
  add_templates-Returns filter options (entry ∷ entries) citations lenient =
      Returns-bind (add_template lib filter options entry citations) _ _ _
        (add_template-Returns filter options entry citations lenient)
        (λ c u. add_templates-Returns filter options entries c lenient)

  -- What Parse promises of its result: no revision, and under each title the first citation with
  -- that title among the templates that the filter accepts.
  abbrev pub FirstTitled :
      (Text → Bool) → ParserOptions → List TemplateEntry → RevisionCitations → Type 0
  FirstTitled filter options entries rc =
      (rc.revision ≡ none)
      × ((key : Text) → find rc.citations key ≡ first_titled filter options key entries)

  abbrev finish : Map Text ExtractedCitation → Result RevisionCitations
  finish citations = ok (record { revision = none; citations = citations })

  ok-injective : {a b : RevisionCitations} → ok a ≡ ok b → a ≡ b
  ok-injective h = cc

  -- Where Parse returns and the grammar found the templates `entries`, its result has no revision
  -- and has under each title the first citation with that title among the accepted templates.
  pub parse-FirstTitled :
      (filter : Text → Bool) (options : ParserOptions) (text : Text) (entries : List TemplateEntry)
      (rc : RevisionCitations)
      → lib.prefix_parse text ≡ some entries
      → parse lib filter options text ≡ ok rc
      → FirstTitled filter options entries rc
  unfolding parse find
  parse-FirstTitled filter options text entries rc found h =
      let run : (add_templates lib filter options entries [] >>= finish) ≡ ok rc =
        ground (arith, found, h) in
      let (citations, added, made) =
        >>=-eq-ok (add_templates lib filter options entries []) finish run in
      subst (FirstTitled filter options entries) (ok-injective made)
        (refl, λ key. add_templates-first_titled filter options entries [] citations key added)

  parse_returns :
      (filter : Text → Bool) (options : ParserOptions) (text : Text) (entries : List TemplateEntry)
      → lib.prefix_parse text ≡ some entries
      → options.ignore_invalid_ident ≡ true
      → Returns (parse lib filter options text) (λ _. Unit)
  unfolding parse
  parse_returns filter options text entries found lenient =
      rw (found, Returns)
        (Returns-bind (add_templates lib filter options entries []) _ _ _
          (add_templates-Returns filter options entries [] lenient) (λ c u. tt))

  -- Where invalid identifiers are ignored, Parse returns for every text in which the grammar finds
  -- templates, with the first citation of each title.
  pub parse-Returns :
      (filter : Text → Bool) (options : ParserOptions) (text : Text) (entries : List TemplateEntry)
      → lib.prefix_parse text ≡ some entries
      → options.ignore_invalid_ident ≡ true
      → Returns (parse lib filter options text) (FirstTitled filter options entries)
  parse-Returns filter options text entries found lenient =
      elim (Result-cases (parse lib filter options text)) [
        | inl (rc, e) ↦
            subst (λ r. Returns r (FirstTitled filter options entries)) (sym e)
              (parse-FirstTitled filter options text entries rc found e)
        | inr (x, e) ↦ absurd (
            subst (λ r. Returns r (λ _. Unit)) e
              (parse_returns filter options text entries found lenient))
      ]
