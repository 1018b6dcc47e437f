-- ===== src/Parser/Fields.antt =====
-- What BuildCitation makes of the parameters of a template, field by field.
pub mod OneValue
pub mod Built
use mathlib.Core.List.{append-nil, append_assoc, map-append}
use citescoop.Prelude.{
  ℕ, ◌≡◌, ◌↔◌, refl, sym, ap, subst, ◌∙◌, true, Option, none, some, List, [], ◌∷◌, ◌++◌, map, arith,
  if◌then◌else◌, Option-cases, inl, inr,
}
use citescoop.Prelude.Int.{ℤ}
use citescoop.Prelude.Text.{Text, codes, text_eq, text_eq_iff}
use citescoop.Proto.{Url, url_type_default, url_type_archive, Identifiers, ExtractedCitation}
use citescoop.Numbers.{to_unsigned, u32_mod}
use citescoop.Result.{Result, ok, err, >>=-eq-ok}
use citescoop.Parser.Entries.{ParameterEntry, TemplateEntry}
use citescoop.Parser.{
  ParserOptions, Libraries, parse_doi, parse_pmc_id, str_to_int_ident, handle_pmc_id_key,
  handle_pm_id_key, check_for_ident_key, check_for_url_key, normalised, add_value, add_parameter,
  add_parameters, no_citation, build_citation,
}

abbrev pub field_of {ℓ} : {A : Type ℓ} → (Identifiers → Option A) → ExtractedCitation → Option A
field_of f c = elim (c.identifiers) [ none ↦ none | some i ↦ f i ]

-- The last of a list of values, or the one from before.
abbrev pub last_or {ℓ} : {A : Type ℓ} → List A → Option A → Option A
last_or [] before = before
last_or (x ∷ xs) before = last_or xs (some x)

-- The numbers among results, as the unsigned numbers that are stored.
abbrev pub numbers : List (Result ℤ) → List ℕ
numbers [] = []
numbers (ok n ∷ rs) = to_unsigned u32_mod n ∷ numbers rs
numbers (err e ∷ rs) = numbers rs

module _ (lib : Libraries) where
  -- The values of the parameters whose normalised key is `k`, without the blanks around them.
  abbrev pub values : Text → List ParameterEntry → List Text
  values k [] = []
  values k (param ∷ params) = elim (param.value) [
    | none ↦ values k params
    | some value ↦
        if text_eq (normalised lib param.key) k
        then lib.trim_copy value ∷ values k params
        else values k params
  ]

  abbrev pub urls_of : List ParameterEntry → List Url
  urls_of [] = []
  urls_of (param ∷ params) = elim (param.value) [
    | none ↦ urls_of params
    | some value ↦
        if text_eq (normalised lib param.key) (codes "url")
        then record { type = url_type_default; url = lib.trim_copy value } ∷ urls_of params
        else if text_eq (normalised lib param.key) (codes "archive-url")
        then record { type = url_type_archive; url = lib.trim_copy value } ∷ urls_of params
        else urls_of params
  ]

  -- The fields of `d` are those of `c` but for what the parameters give: the last value of a key
  -- counts, an identifier that is no number does not, and URLs are added in order.
  pub record FieldsAfter (c : ExtractedCitation) (params : List ParameterEntry)
      (d : ExtractedCitation) : Type 0 where
    pub title : d.title ≡ last_or (values (codes "title") params) c.title
    pub doi :
        field_of (λ i. i.doi) d
        ≡ last_or (map (parse_doi lib) (values (codes "doi") params)) (field_of (λ i. i.doi) c)
    pub isbn :
        field_of (λ i. i.isbn) d ≡ last_or (values (codes "isbn") params) (field_of (λ i. i.isbn) c)
    pub issn :
        field_of (λ i. i.issn) d ≡ last_or (values (codes "issn") params) (field_of (λ i. i.issn) c)
    pub pmid :
        field_of (λ i. i.pmid) d
        ≡ last_or
            (numbers (map (str_to_int_ident lib) (values (codes "pmid") params)))
            (field_of (λ i. i.pmid) c)
    pub pmcid :
        field_of (λ i. i.pmcid) d
        ≡ last_or
            (numbers (map (parse_pmc_id lib) (values (codes "pmc") params)))
            (field_of (λ i. i.pmcid) c)
    pub urls : d.urls ≡ c.urls ++ urls_of params
