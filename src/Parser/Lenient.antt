-- ===== src/Parser/Lenient.antt =====
-- The calls of BuildCitation that return, as identifiers that are no numbers are ignored.
use citescoop.Prelude.{
  ℕ, ◌≡◌, sym, subst, true, Option, none, some, List, [], ◌∷◌, if◌then◌else◌, Option-cases,
  Bool-cases, inl, inr,
}
use citescoop.Prelude.Int.{ℤ}
use citescoop.Prelude.Text.{Text, codes, text_eq, starts_with}
use citescoop.Proto.{ExtractedCitation, Identifiers}
use citescoop.Numbers.{stoi, scan, fits, or_invalid, int_bound}
use citescoop.Result.{
  Result, ok, err, out_of_range, invalid_argument, foreign, template_parse_exception,
  dump_parse_exception, Returns, Returns-bind, Returns-if, Result-cases, ◌>>=◌,
}
use citescoop.StdMap.Keys.{text_ord}
use citescoop.Exceptions.{template_parse_error}
use citescoop.Parser.Entries.{ParameterEntry, TemplateEntry}
use citescoop.Parser.{
  ParserOptions, Libraries, handle_number, catch_stoi, str_to_int_ident, parse_pmc_id,
  handle_pmc_id_key, handle_pm_id_key, check_for_ident_key, normalised, add_value, add_parameter,
  add_parameters, no_citation, build_citation,
}
use citescoop.Parser.Fields.{FieldsAfter}
use citescoop.Parser.Fields.Built.{build_citation-FieldsAfter}

-- A call that returns or throws TemplateParseException.
unfoldable pub OnlyParserErrors {ℓ} : {A : Type ℓ} → Result A → Type 0
OnlyParserErrors (ok a) = Unit
OnlyParserErrors (err (template_parse_exception m)) = Unit
OnlyParserErrors (err e) = ⊥

module _ (lib : Libraries) where
  catch-invalid :
      (b : ℕ) (n : Option ℤ)
      → OnlyParserErrors
          (catch_stoi lib (or_invalid n >>= (λ m. if fits b m then ok m else err out_of_range)))
  unfolding template_parse_error OnlyParserErrors
  catch-invalid b none = tt
  catch-invalid b (some n) = elim (Bool-cases (fits b n)) [ inl h ↦ rw h tt | inr h ↦ rw h tt ]

  pub str_to_int_ident-Only : (ident : Text) → OnlyParserErrors (str_to_int_ident lib ident)
  unfolding str_to_int_ident stoi
  str_to_int_ident-Only ident = catch-invalid int_bound (scan ident)

  pub parse_pmc_id-Only : (pmcid : Text) → OnlyParserErrors (parse_pmc_id lib pmcid)
  unfolding parse_pmc_id
  parse_pmc_id-Only pmcid = elim (Bool-cases (starts_with pmcid (codes "PMC"))) [
    | inl h ↦ rw h (str_to_int_ident-Only _)
    | inr h ↦ rw h (str_to_int_ident-Only _)
  ]

  module _ (options : ParserOptions) (lenient : options.ignore_invalid_ident ≡ true) where
    handle_number-Returns :
        (set : ℕ → Identifiers → Identifiers) (c : ExtractedCitation) (n : Result ℤ)
        → OnlyParserErrors n
        → Returns (handle_number lib options set c n) (λ _. Unit)
    unfolding OnlyParserErrors
    handle_number-Returns set c (ok n) h = tt
    handle_number-Returns set c (err (template_parse_exception m)) h = rw lenient tt
    handle_number-Returns set c (err out_of_range) h = h
    handle_number-Returns set c (err invalid_argument) h = h
    handle_number-Returns set c (err foreign) h = h
    handle_number-Returns set c (err (dump_parse_exception m)) h = h

    check_for_ident_key-Returns :
        (c : ExtractedCitation) (key value : Text)
        → Returns (check_for_ident_key lib options c key value) (λ _. Unit)
    unfolding check_for_ident_key handle_pm_id_key handle_pmc_id_key
    check_for_ident_key-Returns c key value =
        Returns-if (λ _. Unit) (text_eq key (codes "doi")) _ _ tt
          (Returns-if (λ _. Unit) (text_eq key (codes "isbn")) _ _ tt
            (Returns-if (λ _. Unit) (text_eq key (codes "pmid")) _ _
              (Returns-bind (handle_pm_id_key lib options c value) _ (λ _. Unit) _
                (handle_number-Returns (λ n i. record i { pmid = some n }) c
                  (str_to_int_ident lib (lib.trim_copy value)) (str_to_int_ident-Only _))
                (λ r u. tt))
              (Returns-if (λ _. Unit) (text_eq key (codes "pmc")) _ _
                (Returns-bind (handle_pmc_id_key lib options c value) _ (λ _. Unit) _
                  (handle_number-Returns (λ n i. record i { pmcid = some n }) c
                    (parse_pmc_id lib (lib.trim_copy value)) (parse_pmc_id-Only _))
                  (λ r u. tt))
                (Returns-if (λ _. Unit) (text_eq key (codes "issn")) _ _ tt tt))))

    add_value-Returns :
        (c : ExtractedCitation) (key value : Text)
        → Returns (add_value lib options c key value) (λ _. Unit)
    unfolding add_value
    add_value-Returns c key value = elim (Bool-cases (text_eq key (codes "title"))) [
      | inl h ↦ rw h tt
      | inr h ↦ rw h (
          Returns-bind (check_for_ident_key lib options c key value) _ (λ _. Unit) _
            (check_for_ident_key-Returns c key value) (λ r u. tt))
    ]

    add_parameters-Returns :
        (params : List ParameterEntry) (c : ExtractedCitation)
        → Returns (add_parameters lib options c params) (λ _. Unit)
    unfolding add_parameters add_parameter
    add_parameters-Returns [] c = tt
    add_parameters-Returns (param ∷ params) c =
        Returns-bind (add_parameter lib options c param) _ (λ _. Unit) _ (one param)
          (λ d u. add_parameters-Returns params d)
      where
        one : (p : ParameterEntry) → Returns (add_parameter lib options c p) (λ _. Unit)
        one p = elim (Option-cases (p.value)) [
          | inl v ↦ rw v tt
          | inr (value, v) ↦ rw v (add_value-Returns c (normalised lib p.key) value)
        ]

  -- Where invalid identifiers are ignored, BuildCitation returns for every template, and its
  -- citation has the fields that the parameters of the template give.
  pub build_citation-Returns :
      (options : ParserOptions) (entry : TemplateEntry)
      → options.ignore_invalid_ident ≡ true
      → Returns (build_citation lib options entry) (FieldsAfter lib no_citation entry.params)
  unfolding build_citation
  build_citation-Returns options entry lenient =
      elim (Result-cases (build_citation lib options entry)) [
        | inl (c, e) ↦
            subst (λ r. Returns r (FieldsAfter lib no_citation entry.params)) (sym e)
              (build_citation-FieldsAfter lib options entry c e)
        | inr (x, e) ↦ absurd (
            subst (λ r. Returns r (λ _. Unit)) e
              (add_parameters-Returns options lenient entry.params no_citation))
      ]
