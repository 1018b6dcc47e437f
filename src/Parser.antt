-- ===== src/Parser.antt =====
-- The parser of citations in WikiText, src/parser/parser_impl.cc, from the templates that its
-- grammar finds to the citations of a revision.
pub mod Entries
pub mod Combinators
pub mod Grammar
pub mod Idents
pub mod Fields
pub mod Lenient
pub mod Templates
pub mod Strict
pub mod Whole
use citescoop.Prelude.{ℕ, ◌++◌, Bool, true, false, Option, none, some, List, [], ◌∷◌, if◌then◌else◌}
use citescoop.Prelude.Int.{ℤ}
use citescoop.Prelude.Text.{Text, codes, text_eq, starts_with}
use citescoop.Proto.{
  Url, UrlType, url_type_default, url_type_archive, Identifiers, no_identifiers, ExtractedCitation,
  RevisionCitations,
}
use citescoop.Parser.Entries.{ParameterEntry, TemplateEntry}
use citescoop.Exceptions.{template_parse_error}
use citescoop.Numbers.{stoi, to_unsigned, u32_mod}
use citescoop.Result.{
  Error, Result, ok, err, out_of_range, invalid_argument, template_parse_exception, ◌>>=◌,
}
use citescoop.StdMap.{Map, insert}
use citescoop.StdMap.Keys.{text_ord}

pub record ParserOptions : Type 0 where
  pub ignore_invalid_ident : Bool

-- The libraries that the parser calls: Boost.StringAlgo's trim_copy, to_lower and
-- erase_first_copy, the text of what() of a standard exception, and Boost.Parser's prefix_parse
-- with the rule kWikitextRule.
pub record Libraries : Type 0 where
  pub trim_copy : Text → Text
  pub to_lower : Text → Text
  pub erase_first_copy : Text → Text → Text
  pub what : Error → Text
  pub prefix_parse : Text → Option (List TemplateEntry)

abbrev pub doi_prefix : Text
doi_prefix = codes "https://doi.org/"

abbrev pub pmc_prefix : Text
pmc_prefix = codes "PMC"

-- citation->mutable_identifiers(), and a change of what it points to.
abbrev pub change_identifiers : (Identifiers → Identifiers) → ExtractedCitation → ExtractedCitation
change_identifiers f citation = record citation {
  identifiers = some (f (elim (citation.identifiers) [ none ↦ no_identifiers | some i ↦ i ]));
}

-- The message is made there before the value to store is computed, which may throw.
abbrev pub touch_identifiers : ExtractedCitation → ExtractedCitation
touch_identifiers = change_identifiers (λ i. i)

abbrev pub add_url : UrlType → Text → ExtractedCitation → ExtractedCitation
add_url type url citation = record citation {
  urls = citation.urls ++ record { type = type; url = url } ∷ [];
}

abbrev pub no_citation : ExtractedCitation
no_citation = record { title = none; identifiers = none; urls = [] }

-- citation.title()
abbrev pub title_or_empty : ExtractedCitation → Text
title_or_empty citation = elim (citation.title) [ none ↦ [] | some title ↦ title ]

module _ (lib : Libraries) where
  unfoldable pub parse_doi : Text → Text
  unfolding starts_with
  parse_doi doi = if starts_with doi doi_prefix then lib.erase_first_copy doi doi_prefix else doi

  -- The exceptions of std::stoi become the parser's own.
  abbrev pub ident_error : Error → Error
  ident_error e = template_parse_error (codes "Failed to parse ident: " ++ lib.what e)

  abbrev pub catch_stoi : Result ℤ → Result ℤ
  catch_stoi (ok n) = ok n
  catch_stoi (err invalid_argument) = err (ident_error invalid_argument)
  catch_stoi (err out_of_range) = err (ident_error out_of_range)
  catch_stoi (err e) = err e

  unfoldable pub str_to_int_ident : Text → Result ℤ
  str_to_int_ident ident = catch_stoi (stoi ident)

  unfoldable pub parse_pmc_id : Text → Result ℤ
  unfolding starts_with
  parse_pmc_id pmcid =
      if starts_with pmcid pmc_prefix
      then str_to_int_ident (lib.erase_first_copy pmcid pmc_prefix)
      else str_to_int_ident pmcid

  -- The handlers of the two numeric identifiers differ in the parser of the number and in the
  -- field; the result says whether it was set.
  abbrev pub handle_number :
      ParserOptions
      → (ℕ → Identifiers → Identifiers)
      → ExtractedCitation
      → Result ℤ
      → Result (ExtractedCitation × Bool)
  handle_number options set citation (ok n) =
      ok (change_identifiers (set (to_unsigned u32_mod n)) citation, true)
  handle_number options set citation (err (template_parse_exception message)) =
      if options.ignore_invalid_ident
      then ok (touch_identifiers citation, false)
      else err (template_parse_exception message)
  handle_number options set citation (err e) = err e

  unfoldable pub handle_pmc_id_key :
      ParserOptions → ExtractedCitation → Text → Result (ExtractedCitation × Bool)
  handle_pmc_id_key options citation value =
      handle_number options (λ n i. record i { pmcid = some n }) citation
        (parse_pmc_id (lib.trim_copy value))

  unfoldable pub handle_pm_id_key :
      ParserOptions → ExtractedCitation → Text → Result (ExtractedCitation × Bool)
  handle_pm_id_key options citation value =
      handle_number options (λ n i. record i { pmid = some n }) citation
        (str_to_int_ident (lib.trim_copy value))

  unfoldable pub check_for_ident_key :
      ParserOptions → ExtractedCitation → Text → Text → Result (ExtractedCitation × Bool)
  check_for_ident_key options citation key value =
      if text_eq key (codes "doi")
      then ok (
        change_identifiers (λ i. record i { doi = some (parse_doi (lib.trim_copy value)) })
            citation,
        true,
      )
      else if text_eq key (codes "isbn")
      then ok
          (change_identifiers (λ i. record i { isbn = some (lib.trim_copy value) }) citation, true)
      else if text_eq key (codes "pmid")
      then (do (citation', set) ← handle_pm_id_key options citation value; ok (citation', true))
      else if text_eq key (codes "pmc")
      then (do (citation', set) ← handle_pmc_id_key options citation value; ok (citation', true))
      else if text_eq key (codes "issn")
      then ok
          (change_identifiers (λ i. record i { issn = some (lib.trim_copy value) }) citation, true)
      else ok (citation, false)

  unfoldable pub check_for_url_key : ExtractedCitation → Text → Text → ExtractedCitation × Bool
  check_for_url_key citation key value =
      if text_eq key (codes "url")
      then (add_url url_type_default (lib.trim_copy value) citation, true)
      else if text_eq key (codes "archive-url")
      then (add_url url_type_archive (lib.trim_copy value) citation, true)
      else (citation, false)

  -- The names of templates and of parameters are compared without blanks around them and in lower
  -- case.
  abbrev pub normalised : Text → Text
  normalised name = lib.to_lower (lib.trim_copy name)

  -- One parameter of a template; one without a value is passed over.
  unfoldable pub add_value :
      ParserOptions → ExtractedCitation → Text → Text → Result ExtractedCitation
  add_value options citation key value =
      if text_eq key (codes "title")
      then ok (record citation { title = some (lib.trim_copy value) })
      else (do
        (citation', found) ← check_for_ident_key options citation key value
        ok (if found then citation' else (check_for_url_key citation' key value).0))

  unfoldable pub add_parameter :
      ParserOptions → ExtractedCitation → ParameterEntry → Result ExtractedCitation
  add_parameter options citation param = elim (param.value) [
    | none ↦ ok citation
    | some value ↦ add_value options citation (normalised param.key) value
  ]

  unfoldable pub add_parameters :
      ParserOptions → ExtractedCitation → List ParameterEntry → Result ExtractedCitation
  add_parameters options citation [] = ok citation
  add_parameters options citation (param ∷ params) = do
    citation' ← add_parameter options citation param
    add_parameters options citation' params

  unfoldable pub build_citation : ParserOptions → TemplateEntry → Result ExtractedCitation
  build_citation options entry = add_parameters options no_citation entry.params

  -- The body of the loop of Parse, for one template that the grammar found, and the loop.
  unfoldable pub add_template :
      (Text → Bool)
      → ParserOptions
      → TemplateEntry
      → Map Text ExtractedCitation
      → Result (Map Text ExtractedCitation)
  add_template filter options entry citations =
      if filter (normalised entry.name)
      then (do
        citation ← build_citation options entry
        ok (insert (title_or_empty citation) citation citations))
      else ok citations

  unfoldable pub add_templates :
      (Text → Bool)
      → ParserOptions
      → List TemplateEntry
      → Map Text ExtractedCitation
      → Result (Map Text ExtractedCitation)
  add_templates filter options [] citations = ok citations
  add_templates filter options (entry ∷ entries) citations = do
    citations' ← add_template filter options entry citations
    add_templates filter options entries citations'

  unfoldable pub parse : (Text → Bool) → ParserOptions → Text → Result RevisionCitations
  parse filter options text = elim (lib.prefix_parse text) [
    | none ↦ err (template_parse_error (codes "Failed to parse WikiText"))
    | some results ↦ (do
      citations ← add_templates filter options results []
      ok (record { revision = none; citations = citations }))
  ]
