-- ===== src/Parser/Strict.antt =====
-- Parse where invalid identifiers are not ignored, against Parse where they are.
use citescoop.Prelude.{
  ℕ, ◌≡◌, refl, sym, ap, subst, Bool, true, false, ◌&&◌, none, some, List, [], ◌∷◌, if◌then◌else◌,
  Option-cases, Bool-cases, inl, inr,
}
use citescoop.Prelude.Int.{ℤ}
use citescoop.Prelude.Text.{Text, codes, text_eq, text_eq_iff}
use citescoop.Proto.{ExtractedCitation, Identifiers}
use citescoop.Result.{
  Result, ok, err, out_of_range, invalid_argument, foreign, template_parse_exception,
  dump_parse_exception, ◌>>=◌,
}
use citescoop.StdMap.{Map, insert}
use citescoop.StdMap.Keys.{text_ord}
use citescoop.Parser.Entries.{ParameterEntry, TemplateEntry}
use citescoop.Parser.{
  ParserOptions, Libraries, handle_number, str_to_int_ident, parse_pmc_id, handle_pmc_id_key,
  handle_pm_id_key, check_for_ident_key, normalised, add_value, add_parameter, add_parameters,
  no_citation, build_citation, title_or_empty, add_template, add_templates, parse,
}
use citescoop.Parser.Lenient.{OnlyParserErrors, str_to_int_ident-Only, parse_pmc_id-Only}

-- Both calls return the same.
abbrev pub SameReturn : {A : Type 0} → Result A → Result A → Type 0
SameReturn (ok a) (ok b) = a ≡ b
SameReturn (ok a) (err y) = ⊥
SameReturn (err x) n = ⊥

-- The call throws TemplateParseException.
abbrev pub ThrowsParser : {A : Type 0} → Result A → Type 0
ThrowsParser (err (template_parse_exception m)) = Unit
ThrowsParser m = ⊥

-- What a strict call does, by whether its identifiers are valid, against the lenient call.
abbrev pub StrictEnd : {A : Type 0} → Bool → Result A → Result A → Type 0
StrictEnd true strict lenient = SameReturn strict lenient
StrictEnd false strict lenient = ThrowsParser strict

StrictEnd-throws :
    {A B : Type 0} (m : Result A) (f : A → Result B) → ThrowsParser m → ThrowsParser (m >>= f)
StrictEnd-throws (err (template_parse_exception x)) f h = h
StrictEnd-throws m f h = absurd h

StrictEnd-bind :
    {A B : Type 0} (v w : Bool) (m n : Result A) (f g : A → Result B)
    → StrictEnd v m n
    → ((a : A) → StrictEnd w (f a) (g a))
    → StrictEnd (v && w) (m >>= f) (n >>= g)
StrictEnd-bind true w (ok a) (ok b) f g h k = subst (λ b. StrictEnd w (f a) (g b)) h (k a)
StrictEnd-bind true w (ok a) (err y) f g h k = absurd h
StrictEnd-bind true w (err x) n f g h k = absurd h
StrictEnd-bind false w m n f g h k = StrictEnd-throws m f h

StrictEnd-map :
    {A B : Type 0} (v : Bool) (m n : Result A) (f : A → B)
    → StrictEnd v m n
    → StrictEnd v (m >>= λ a. ok (f a)) (n >>= λ a. ok (f a))
StrictEnd-map true (ok a) (ok b) f h = ap f h
StrictEnd-map true (ok a) (err y) f h = absurd h
StrictEnd-map true (err x) n f h = absurd h
StrictEnd-map false m n f h = StrictEnd-throws m (λ a. ok (f a)) h

SameReturn-if :
    {A : Type 0} (t : Bool) (a : A) (m n : Result A)
    → SameReturn m n
    → SameReturn (if t then ok a else m) (if t then ok a else n)
SameReturn-if true a m n h = refl
SameReturn-if false a m n h = h

abbrev pub lenient_options : ParserOptions
lenient_options = record { ignore_invalid_ident = true }

module _ (lib : Libraries) where
  -- The text of a numeric identifier is a number.
  is_number : Result ℤ → Bool
  is_number (ok n) = true
  is_number (err x) = false

  -- A parameter for a PMID or a PMCID, with a value, has a number there.
  unfoldable pub valid_value : Text → Text → Bool
  unfolding is_number
  valid_value key value =
      if text_eq key (codes "pmid")
      then is_number (str_to_int_ident lib (lib.trim_copy value))
      else if text_eq key (codes "pmc")
      then is_number (parse_pmc_id lib (lib.trim_copy value))
      else true

  unfoldable pub valid_parameters : List ParameterEntry → Bool
  unfolding valid_value
  valid_parameters [] = true
  valid_parameters (param ∷ params) =
      let rest = valid_parameters params in
      elim (param.value) [
        | none ↦ rest
        | some value ↦ valid_value (normalised lib param.key) value && rest
      ]

  -- So has every template that the filter accepts.
  unfoldable pub valid_templates : (Text → Bool) → List TemplateEntry → Bool
  unfolding valid_parameters
  valid_templates filter [] = true
  valid_templates filter (entry ∷ entries) =
      let rest = valid_templates filter entries in
      if filter (normalised lib entry.name) then valid_parameters entry.params && rest else rest

  module _ (options : ParserOptions) (strict : options.ignore_invalid_ident ≡ false) where
    handle_number-StrictEnd :
        (set : ℕ → Identifiers → Identifiers) (c : ExtractedCitation) (n : Result ℤ)
        → OnlyParserErrors n
        → StrictEnd
            (is_number n)
            (handle_number lib options set c n)
            (handle_number lib lenient_options set c n)
    unfolding OnlyParserErrors is_number
    handle_number-StrictEnd set c (ok n) h = refl
    handle_number-StrictEnd set c (err (template_parse_exception m)) h = rw strict tt
    handle_number-StrictEnd set c (err out_of_range) h = h
    handle_number-StrictEnd set c (err invalid_argument) h = h
    handle_number-StrictEnd set c (err foreign) h = h
    handle_number-StrictEnd set c (err (dump_parse_exception m)) h = h

    check_for_ident_key-StrictEnd :
        (c : ExtractedCitation) (key value : Text)
        → StrictEnd
            (valid_value key value)
            (check_for_ident_key lib options c key value)
            (check_for_ident_key lib lenient_options c key value)
    unfolding check_for_ident_key handle_pm_id_key handle_pmc_id_key valid_value text_eq
    check_for_ident_key-StrictEnd c key value = elim (Bool-cases (text_eq key (codes "pmid"))) [
      | inl pmid ↦ subst KeyEnd (sym ((text_eq_iff key (codes "pmid")).0 pmid)) (
          StrictEnd-map _ _ _ (λ r. (r.0, true))
            (handle_number-StrictEnd (λ n i. record i { pmid = some n }) c
              (str_to_int_ident lib (lib.trim_copy value)) (str_to_int_ident-Only lib _)))
      | inr not_pmid ↦ elim (Bool-cases (text_eq key (codes "pmc"))) [
        | inl pmc ↦ subst KeyEnd (sym ((text_eq_iff key (codes "pmc")).0 pmc)) (
            StrictEnd-map _ _ _ (λ r. (r.0, true))
              (handle_number-StrictEnd (λ n i. record i { pmcid = some n }) c
                (parse_pmc_id lib (lib.trim_copy value)) (parse_pmc_id-Only lib _)))
        | inr not_pmc ↦
            rw (not_pmid, not_pmc)
              (SameReturn-if (text_eq key (codes "doi")) _ _ _ (
                SameReturn-if (text_eq key (codes "isbn")) _ _ _
                  (SameReturn-if (text_eq key (codes "issn")) _ _ _ refl)))
      ]
    ]
      where
        KeyEnd : Text → Type 0
        KeyEnd key =
            StrictEnd (valid_value key value) (check_for_ident_key lib options c key value)
              (check_for_ident_key lib lenient_options c key value)

    add_value-StrictEnd :
        (c : ExtractedCitation) (key value : Text)
        → StrictEnd
            (valid_value key value)
            (add_value lib options c key value)
            (add_value lib lenient_options c key value)
    unfolding add_value valid_value text_eq
    add_value-StrictEnd c key value = elim (Bool-cases (text_eq key (codes "title"))) [
      | inl title ↦ subst ValueEnd (sym ((text_eq_iff key (codes "title")).0 title)) refl
      | inr other ↦ rw other (StrictEnd-map _ _ _ _ (check_for_ident_key-StrictEnd c key value))
    ]
      where
        ValueEnd : Text → Type 0
        ValueEnd key =
            StrictEnd (valid_value key value) (add_value lib options c key value)
              (add_value lib lenient_options c key value)

    add_parameters-StrictEnd :
        (params : List ParameterEntry) (c : ExtractedCitation)
        → StrictEnd
            (valid_parameters params)
            (add_parameters lib options c params)
            (add_parameters lib lenient_options c params)
    unfolding add_parameters add_parameter valid_parameters
    add_parameters-StrictEnd [] c = refl
    add_parameters-StrictEnd (param ∷ params) c = elim (Option-cases (param.value)) [
      | inl no_value ↦ rw no_value (add_parameters-StrictEnd params c)
      | inr (value, given) ↦ rw given (
          StrictEnd-bind _ _ _ _ _ _ (add_value-StrictEnd c (normalised lib param.key) value)
            (λ d. add_parameters-StrictEnd params d))
    ]

    add_templates-StrictEnd :
        (filter : Text → Bool) (entries : List TemplateEntry)
        (citations : Map Text ExtractedCitation)
        → StrictEnd
            (valid_templates filter entries)
            (add_templates lib filter options entries citations)
            (add_templates lib filter lenient_options entries citations)
    unfolding add_templates add_template valid_templates build_citation
    add_templates-StrictEnd filter [] citations = refl
    add_templates-StrictEnd filter (entry ∷ entries) citations =
        elim (Bool-cases (filter (normalised lib entry.name))) [
          | inl accepted ↦ rw accepted (
              StrictEnd-bind _ _ _ _ _ _
                (StrictEnd-map _ _ _ (λ c. insert (title_or_empty c) c citations)
                  (add_parameters-StrictEnd entry.params no_citation))
                (λ d. add_templates-StrictEnd filter entries d))
          | inr refused ↦ rw refused (add_templates-StrictEnd filter entries citations)
        ]

    -- Where invalid identifiers are not ignored, and the grammar finds templates in the text: if
    -- the values of the parameters "pmid" and "pmc" in all templates that the filter accepts are
    -- numbers, Parse returns what it returns where they are ignored; else it throws
    -- TemplateParseException.
    pub parse-StrictEnd :
        (filter : Text → Bool) (text : Text) (entries : List TemplateEntry)
        → lib.prefix_parse text ≡ some entries
        → StrictEnd
            (valid_templates filter entries)
            (parse lib filter options text)
            (parse lib filter lenient_options text)
    unfolding parse
    parse-StrictEnd filter text entries found =
        rw (found, parse) (StrictEnd-map _ _ _ _ (add_templates-StrictEnd filter entries []))
