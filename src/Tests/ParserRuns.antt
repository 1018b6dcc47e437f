-- ===== src/Tests/ParserRuns.antt =====
-- The parser of citations on a template.
use citescoop.Prelude.{
  ◌+◌, ◌<◌, ◌≡◌, ◌⊎◌, refl, Bool, true, false, ◌&&◌, none, some, List, [], ◌∷◌, ◌++◌, arith, length,
  drop, take, ◌≤◌, drop-append, leb, if◌then◌else◌,
}
use citescoop.Prelude.Int.{pos}
use citescoop.Prelude.Text.{Text, codes, text_eq, starts_with, starts_with-append}
use citescoop.Proto.{url_type_default, no_identifiers, ExtractedCitation, RevisionCitations}
use citescoop.Numbers.{stoi, to_unsigned}
use citescoop.Numbers.Decimal.{decimal}
use citescoop.Result.{ok, Returns}
use citescoop.StdMap.{insert}
use citescoop.StdMap.Keys.{text_ord}
use citescoop.Exceptions.{truncate_input, template_parse_error}
use citescoop.Exceptions.Truncate.{truncate_input_lem}
use citescoop.Parser.Strict.{StrictEnd, valid_templates, lenient_options, parse-StrictEnd}
use citescoop.Parser.Entries.{TemplateEntry}
use citescoop.Parser.{
  ParserOptions, Libraries, pmc_prefix, parse_pmc_id, str_to_int_ident, no_citation, build_citation,
  parse, add_parameters, add_parameter, add_value, check_for_ident_key, handle_pmc_id_key,
  handle_pm_id_key, check_for_url_key, add_templates, add_template,
}
use citescoop.Parser.Idents.{LibrariesLaws, parse_pmc_id-decimal}
use citescoop.Parser.Fields.{FieldsAfter}
use citescoop.Parser.Fields.Built.{build_citation-FieldsAfter}
use citescoop.Parser.Lenient.{build_citation-Returns}
use citescoop.Parser.Templates.{FirstTitled, parse-FirstTitled}

abbrev pub erase_first : Text → Text → Text
erase_first [] p = []
erase_first (c ∷ s) p =
    let rest = erase_first s p in
    if starts_with (c ∷ s) p then drop (length p) (c ∷ s) else c ∷ rest

erase_first-erases : (p rest : Text) → erase_first (p ++ rest) p ≡ rest
unfolding starts_with
erase_first-erases [] [] = refl
erase_first-erases [] (c ∷ s) = refl
erase_first-erases (d ∷ p) rest = ground (arith, starts_with-append p rest, drop-append p rest)

abbrev pub lower : Text → Text
lower [] = []
lower (c ∷ s) = (if leb b'A' c && leb c b'Z' then c + 32 else c) ∷ lower s

-- A grammar that takes the whole text for the title of a template, with a PMC id beside it.
abbrev pub cite_template : Text → TemplateEntry
cite_template title = record {
  name = codes "Cite journal";
  params =
      record { key = codes "Title"; value = some title }
      ∷ record { key = codes "pmc"; value = some (codes "PMC12") }
      ∷ record { key = codes "pmid"; value = some (codes "none") }
      ∷ record { key = codes "url"; value = some (codes "u") }
      ∷ record { key = codes "url"; value = none }
      ∷ [];
}

abbrev pub libraries : Libraries
libraries = record {
  trim_copy = λ s. s;
  to_lower = lower;
  erase_first_copy = erase_first;
  what = λ e. codes "stoi";
  prefix_parse = λ text. some (cite_template text ∷ cite_template text ∷ []);
}

libraries-laws : LibrariesLaws libraries
libraries-laws = record { erases = erase_first-erases }

abbrev pub lenient : ParserOptions
lenient = record { ignore_invalid_ident = true }

abbrev strict : ParserOptions
strict = record { ignore_invalid_ident = false }

abbrev pub is_cite : Text → Bool
is_cite name = starts_with name (codes "cite ")

abbrev built : ExtractedCitation
built = record {
  title = some (codes "T");
  identifiers = some (record no_identifiers { pmcid = some 12 });
  urls = record { type = url_type_default; url = codes "u" } ∷ [];
}

abbrev found : RevisionCitations
found = record { revision = none; citations = (codes "T", built) ∷ [] }

build_citation_test : build_citation libraries lenient (cite_template (codes "T")) ≡ ok built
unfolding build_citation add_parameters add_parameter add_value text_eq check_for_ident_key
    handle_pmc_id_key parse_pmc_id str_to_int_ident stoi handle_pm_id_key template_parse_error
    check_for_url_key to_unsigned
build_citation_test = refl

parse_test : parse libraries is_cite lenient (codes "T") ≡ ok found
unfolding parse insert starts_with add_templates add_template build_citation add_parameters
    add_parameter add_value text_eq check_for_ident_key handle_pmc_id_key parse_pmc_id
    str_to_int_ident stoi handle_pm_id_key template_parse_error check_for_url_key to_unsigned
parse_test = refl

build_citation-FieldsAfter_example :
    FieldsAfter libraries no_citation (cite_template (codes "T")).params built
build_citation-FieldsAfter_example =
    build_citation-FieldsAfter libraries lenient (cite_template (codes "T")) built
      build_citation_test

build_citation-Returns_example :
    Returns
      (build_citation libraries lenient (cite_template (codes "T")))
      (FieldsAfter libraries no_citation (cite_template (codes "T")).params)
build_citation-Returns_example =
    build_citation-Returns libraries lenient (cite_template (codes "T")) refl

abbrev templates : List TemplateEntry
templates = cite_template (codes "T") ∷ cite_template (codes "T") ∷ []

parse-FirstTitled_example : FirstTitled libraries is_cite lenient templates found
parse-FirstTitled_example =
    parse-FirstTitled libraries is_cite lenient (codes "T") templates found refl parse_test

-- One template has a PMID that is no number.
templates_invalid : valid_templates libraries is_cite templates ≡ false
unfolding valid_templates text_eq str_to_int_ident stoi starts_with parse_pmc_id
templates_invalid = refl

parse-StrictEnd_example :
    StrictEnd
      (valid_templates libraries is_cite templates)
      (parse libraries is_cite strict (codes "T"))
      (parse libraries is_cite lenient_options (codes "T"))
parse-StrictEnd_example = parse-StrictEnd libraries strict refl is_cite (codes "T") templates refl

parse_pmc_id-decimal_example :
    (parse_pmc_id libraries (pmc_prefix ++ decimal 3531190) ≡ ok (pos 3531190))
    × (parse_pmc_id libraries (decimal 3531190) ≡ ok (pos 3531190))
parse_pmc_id-decimal_example = parse_pmc_id-decimal libraries libraries-laws 3531190 (omega arith)

truncate_input_lem_example :
    ((length (codes "{{cite") ≤ 100) × (truncate_input (codes "{{cite") ≡ codes "{{cite"))
    ⊎ ((100 < length (codes "{{cite"))
        × (truncate_input (codes "{{cite") ≡ take 97 (codes "{{cite") ++ codes "...")
        × (length (truncate_input (codes "{{cite")) ≡ 100))
truncate_input_lem_example = truncate_input_lem (codes "{{cite")
