-- ===== src/Parser/Fields/OneValue.antt =====
-- One parameter with a value: what it changes of a citation.
use mathlib.Core.List.{append-nil}
use citescoop.Prelude.{◌≡◌, ◌↔◌, true, some, [], ◌∷◌, ◌++◌, map, arith}
use citescoop.Prelude.Text.{Text, codes, text_eq, text_eq_iff}
use citescoop.Proto.{ExtractedCitation}
use citescoop.Result.{ok}
use citescoop.Parser.Entries.{ParameterEntry}
use citescoop.Parser.{
  ParserOptions, Libraries, parse_doi, parse_pmc_id, str_to_int_ident, handle_pmc_id_key,
  handle_pm_id_key, check_for_ident_key, check_for_url_key, normalised, add_value,
}
use citescoop.Parser.Fields.{field_of, last_or, numbers, values, urls_of, FieldsAfter}

module _ (lib : Libraries) where
  module _ (options : ParserOptions) (c d : ExtractedCitation) (param : ParameterEntry)
      (value : Text) (v : param.value ≡ some value)
      (e : add_value lib options c (normalised lib param.key) value ≡ ok d) where
    -- The eight keys differ.
    abbrev Is : Text → Type 0
    Is k = (text_eq (normalised lib param.key) k ≡ true) ↔ (normalised lib param.key ≡ k)

    key_facts :
        Is (codes "title")
        × Is (codes "doi")
        × Is (codes "isbn")
        × Is (codes "pmid")
        × Is (codes "pmc")
        × Is (codes "issn")
        × Is (codes "url")
        × Is (codes "archive-url")
    key_facts =
        let key = normalised lib param.key in
        (
          text_eq_iff key _,
          text_eq_iff key _,
          text_eq_iff key _,
          text_eq_iff key _,
          text_eq_iff key _,
          text_eq_iff key _,
          text_eq_iff key _,
          text_eq_iff key _,
        )

    title-after : d.title ≡ last_or (values lib (codes "title") (param ∷ [])) c.title
    unfolding add_value check_for_ident_key check_for_url_key handle_pm_id_key handle_pmc_id_key
    title-after = ground (arith, v, e, key_facts)

    doi-after :
        field_of (λ i. i.doi) d
        ≡ last_or
            (map (parse_doi lib) (values lib (codes "doi") (param ∷ [])))
            (field_of (λ i. i.doi) c)
    unfolding add_value check_for_ident_key check_for_url_key handle_pm_id_key handle_pmc_id_key
    doi-after = ground (arith, v, e, key_facts)

    isbn-after :
        field_of (λ i. i.isbn) d
        ≡ last_or (values lib (codes "isbn") (param ∷ [])) (field_of (λ i. i.isbn) c)
    unfolding add_value check_for_ident_key check_for_url_key handle_pm_id_key handle_pmc_id_key
    isbn-after = ground (arith, v, e, key_facts)

    issn-after :
        field_of (λ i. i.issn) d
        ≡ last_or (values lib (codes "issn") (param ∷ [])) (field_of (λ i. i.issn) c)
    unfolding add_value check_for_ident_key check_for_url_key handle_pm_id_key handle_pmc_id_key
    issn-after = ground (arith, v, e, key_facts)

    pmid-after :
        field_of (λ i. i.pmid) d
        ≡ last_or
            (numbers (map (str_to_int_ident lib) (values lib (codes "pmid") (param ∷ []))))
            (field_of (λ i. i.pmid) c)
    unfolding add_value check_for_ident_key check_for_url_key handle_pm_id_key handle_pmc_id_key
    pmid-after = ground (arith, v, e, key_facts)

    pmcid-after :
        field_of (λ i. i.pmcid) d
        ≡ last_or
            (numbers (map (parse_pmc_id lib) (values lib (codes "pmc") (param ∷ []))))
            (field_of (λ i. i.pmcid) c)
    unfolding add_value check_for_ident_key check_for_url_key handle_pm_id_key handle_pmc_id_key
    pmcid-after = ground (arith, v, e, key_facts)

    urls-after : d.urls ≡ c.urls ++ urls_of lib (param ∷ [])
    unfolding add_value check_for_ident_key check_for_url_key handle_pm_id_key handle_pmc_id_key
    urls-after = ground (arith, v, e, key_facts, append-nil c.urls)

    pub add_value-FieldsAfter : FieldsAfter lib c (param ∷ []) d
    add_value-FieldsAfter = record {
      title = title-after;
      doi = doi-after;
      isbn = isbn-after;
      issn = issn-after;
      pmid = pmid-after;
      pmcid = pmcid-after;
      urls = urls-after;
    }
