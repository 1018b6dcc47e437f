-- ===== src/Parser/Fields/Built.antt =====
-- All parameters of a template: the fields of the citation that BuildCitation returns.
use mathlib.Core.List.{append-nil, append_assoc, map-append}
use citescoop.Prelude.{
  ◌≡◌, refl, sym, ap, subst, ◌∙◌, Option, none, some, List, [], ◌∷◌, ◌++◌, map, arith, Option-cases,
  inl, inr,
}
use citescoop.Prelude.Int.{ℤ}
use citescoop.Prelude.Text.{Text}
use citescoop.Proto.{ExtractedCitation}
use citescoop.Numbers.{to_unsigned, u32_mod}
use citescoop.Result.{Result, ok, err, >>=-eq-ok}
use citescoop.Parser.Entries.{ParameterEntry, TemplateEntry}
use citescoop.Parser.{
  ParserOptions, Libraries, parse_doi, parse_pmc_id, str_to_int_ident, add_parameter,
  add_parameters, no_citation, build_citation,
}
use citescoop.Parser.Fields.{last_or, numbers, values, urls_of, FieldsAfter}
use citescoop.Parser.Fields.OneValue.{add_value-FieldsAfter}

last_or-append {ℓ} :
    {A : Type ℓ} (xs ys : List A) (before : Option A)
    → last_or (xs ++ ys) before ≡ last_or ys (last_or xs before)
last_or-append [] ys before = refl
last_or-append (x ∷ xs) ys before = last_or-append xs ys (some x)

numbers-append : (rs qs : List (Result ℤ)) → numbers (rs ++ qs) ≡ numbers rs ++ numbers qs
numbers-append [] qs = refl
numbers-append (ok n ∷ rs) qs = ap (◌∷◌ (to_unsigned u32_mod n)) (numbers-append rs qs)
numbers-append (err e ∷ rs) qs = numbers-append rs qs

ruleset appends = (last_or-append, numbers-append, map-append, append_assoc)

module _ (lib : Libraries) where
  values-cons :
      (k : Text) (param : ParameterEntry) (params : List ParameterEntry)
      → values lib k (param ∷ params) ≡ values lib k (param ∷ []) ++ values lib k params
  values-cons k param params = ground arith

  urls_of-cons :
      (param : ParameterEntry) (params : List ParameterEntry)
      → urls_of lib (param ∷ params) ≡ urls_of lib (param ∷ []) ++ urls_of lib params
  urls_of-cons param params = ground arith

  -- A list computed from the values of a key grows by what the first parameter gives.
  last_or-values {ℓ} :
      {A : Type ℓ} (g : List Text → List A)
      → ((xs ys : List Text) → g (xs ++ ys) ≡ g xs ++ g ys)
      → (k : Text) (param : ParameterEntry) (params : List ParameterEntry) (before : Option A)
        {middle : Option A}
      → middle ≡ last_or (g (values lib k (param ∷ []))) before
      → last_or (g (values lib k params)) middle
        ≡ last_or (g (values lib k (param ∷ params))) before
  last_or-values g split k param params before {middle} h =
      ap (last_or (g (values lib k params))) h
      ∙ sym (last_or-append (g (values lib k (param ∷ []))) (g (values lib k params)) before)
      ∙ ap (λ xs. last_or xs before)
          (sym (
            ap g (values-cons k param params)
            ∙ split (values lib k (param ∷ [])) (values lib k params)))

  numbers-map-append :
      (f : Text → Result ℤ) (xs ys : List Text)
      → numbers (map f (xs ++ ys)) ≡ numbers (map f xs) ++ numbers (map f ys)
  numbers-map-append f xs ys =
      ap numbers (map-append f xs ys) ∙ numbers-append (map f xs) (map f ys)

  FieldsAfter-cons :
      (c d e : ExtractedCitation) (param : ParameterEntry) (params : List ParameterEntry)
      → FieldsAfter lib c (param ∷ []) d
      → FieldsAfter lib d params e
      → FieldsAfter lib c (param ∷ params) e
  FieldsAfter-cons c d e param params f g = record {
    title = g.title ∙ last_or-values (λ xs. xs) (λ xs ys. refl) _ param params _ f.title;
    doi =
        g.doi
        ∙ last_or-values (map (parse_doi lib)) (map-append (parse_doi lib)) _ param params _ f.doi;
    isbn = g.isbn ∙ last_or-values (λ xs. xs) (λ xs ys. refl) _ param params _ f.isbn;
    issn = g.issn ∙ last_or-values (λ xs. xs) (λ xs ys. refl) _ param params _ f.issn;
    pmid =
        g.pmid
        ∙ last_or-values (λ xs. numbers (map (str_to_int_ident lib) xs))
            (numbers-map-append (str_to_int_ident lib)) _ param params _ f.pmid;
    pmcid =
        g.pmcid
        ∙ last_or-values (λ xs. numbers (map (parse_pmc_id lib) xs))
            (numbers-map-append (parse_pmc_id lib)) _ param params _ f.pmcid;
    urls =
        g.urls
        ∙ ap (λ us. us ++ urls_of lib params) f.urls
        ∙ append_assoc c.urls (urls_of lib (param ∷ [])) (urls_of lib params)
        ∙ ap (◌++◌ c.urls) (sym (urls_of-cons param params));
  }

  FieldsAfter-nothing : (c : ExtractedCitation) → FieldsAfter lib c [] c
  FieldsAfter-nothing c = record {
    title = refl;
    doi = refl;
    isbn = refl;
    issn = refl;
    pmid = refl;
    pmcid = refl;
    urls = sym (append-nil c.urls);
  }

  -- A parameter without a value counts for nothing.
  FieldsAfter-valueless :
      (c : ExtractedCitation) (param : ParameterEntry)
      → param.value ≡ none
      → FieldsAfter lib c (param ∷ []) c
  FieldsAfter-valueless c param v = record {
    title = ground (arith, v);
    doi = ground (arith, v);
    isbn = ground (arith, v);
    issn = ground (arith, v);
    pmid = ground (arith, v);
    pmcid = ground (arith, v);
    urls = ground (arith, v, append-nil c.urls);
  }

  add_parameter-FieldsAfter :
      (options : ParserOptions) (c d : ExtractedCitation) (param : ParameterEntry)
      → add_parameter lib options c param ≡ ok d
      → FieldsAfter lib c (param ∷ []) d
  unfolding add_parameter
  add_parameter-FieldsAfter options c d param h = elim (Option-cases (param.value)) [
    | inl v ↦
        subst (FieldsAfter lib c (param ∷ [])) (ground (arith, v, h))
          (FieldsAfter-valueless c param v)
    | inr (value, v) ↦ add_value-FieldsAfter lib options c d param value v (ground (arith, v, h))
  ]

  add_parameters-FieldsAfter :
      (options : ParserOptions) (c e : ExtractedCitation) (params : List ParameterEntry)
      → add_parameters lib options c params ≡ ok e
      → FieldsAfter lib c params e
  unfolding add_parameters
  add_parameters-FieldsAfter options c e [] h =
      subst (FieldsAfter lib c []) (cc) (FieldsAfter-nothing c)
  add_parameters-FieldsAfter options c e (param ∷ params) h =
      let (d, now, rest) = >>=-eq-ok (add_parameter lib options c param) _ h in
      FieldsAfter-cons c d e param params (add_parameter-FieldsAfter options c d param now)
        (add_parameters-FieldsAfter options d e params rest)

  -- A citation that BuildCitation returns has as title, ISBN and ISSN the last value given under
  -- each key, as DOI the last value without its prefix, as PMID and PMC id the last value that is a
  -- number, and one URL for each value of url and archive-url, in order.
  pub build_citation-FieldsAfter :
      (options : ParserOptions) (entry : TemplateEntry) (citation : ExtractedCitation)
      → build_citation lib options entry ≡ ok citation
      → FieldsAfter lib no_citation entry.params citation
  unfolding build_citation
  build_citation-FieldsAfter options entry citation h =
      add_parameters-FieldsAfter options no_citation citation entry.params h
