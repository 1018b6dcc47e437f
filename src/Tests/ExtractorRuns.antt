-- ===== src/Tests/ExtractorRuns.antt =====
-- A text extractor with its citation parser, on a page with one revision.
use citescoop.Prelude.{◌%◌, ◌≡◌, refl, true, false, none, some, List, [], ◌∷◌}
use citescoop.Prelude.Text.{Text, codes, text_eq}
use citescoop.Proto.{empty_page, empty_revision}
use citescoop.Numbers.{u64_mod}
use citescoop.Tests.OpenAlexRuns.{blank}
use citescoop.Result.{Returns}
use citescoop.Parser.Whole.{parser_with_options}
use citescoop.Dump.Handlers.{Event, parse_id, is_field}
use citescoop.Dump.Extract.Pages.{PageXml, dump_events}
use citescoop.Dump.Extract.Significant.{is_known, opened, counts, significant}
use citescoop.Dump.Extract.Readable.{PagesOf}
use citescoop.Extractors.{
  BaseExtractor, text_extractor, calls_of, text_extractor_extract, IdsAreNumbers,
  text_extractor_extract-PagesOf, text_extractor_extract_streaming,
  text_extractor_extract_streaming-pages,
}
use citescoop.Extractors.Interface.{
  OverloadsAgree, new_text_extractor, new_bz2_extractor, extractors-OverloadsAgree,
}
use citescoop.Tests.Combinators.{combinators, combinators-laws}
use citescoop.Tests.ParserRuns.{libraries, lenient}
use citescoop.Tests.Samples.{calls, insertion_sort, insertion_sort-SortLaws}

-- The page of which the input is the text.
abbrev page_with : Text → List PageXml
page_with input =
    record {
      title = codes "Engines" ∷ [];
      id = codes "4" ∷ [];
      revisions =
          record {
            id = codes "7" ∷ [];
            parent_id = none;
            timestamp = some (codes "noon" ∷ []);
            contributor =
                some (record { username = some (codes "Ada" ∷ []); id = some (codes "99" ∷ []) });
            text = input ∷ [];
          }
          ∷ [];
    }
    ∷ []

abbrev one_page : Text → List Event
one_page input = dump_events (page_with input)

abbrev book_text : Text
book_text = codes "{{cite book|title=T|pmid=x}}"

abbrev extractor : BaseExtractor
extractor = text_extractor (parser_with_options lenient)

extractor_lenient : extractor.citation_parser.options.ignore_invalid_ident ≡ true
unfolding text_extractor parser_with_options
extractor_lenient = refl

one_page-significant : significant false (one_page book_text) ≡ dump_events (page_with book_text)
unfolding significant opened counts is_known is_field text_eq
one_page-significant = refl

page_with-IdsAreNumbers : IdsAreNumbers (page_with book_text)
unfolding parse_id
page_with-IdsAreNumbers = ((tt, ((tt, tt), tt)), tt)

text_extractor_extract-PagesOf_example :
    Returns
      (text_extractor_extract libraries combinators insertion_sort calls.timestamp_from one_page
        extractor book_text)
      (λ stored.
        PagesOf
          (calls_of libraries combinators insertion_sort calls.timestamp_from one_page extractor)
          (page_with book_text)
          stored.pages)
text_extractor_extract-PagesOf_example =
    text_extractor_extract-PagesOf libraries combinators combinators-laws insertion_sort
      insertion_sort-SortLaws calls.timestamp_from one_page extractor extractor_lenient book_text
      (page_with book_text) one_page-significant page_with-IdsAreNumbers

text_extractor_extract_streaming-pages_example :
    Returns
      (text_extractor_extract_streaming libraries combinators insertion_sort calls.timestamp_from
        one_page
        (blank empty_page)
        (blank empty_revision)
        extractor
        book_text
        (codes "p")
        (codes "r")).1
      (λ counts. counts.0 ≡ 1 % u64_mod)
text_extractor_extract_streaming-pages_example =
    text_extractor_extract_streaming-pages libraries combinators combinators-laws insertion_sort
      insertion_sort-SortLaws calls.timestamp_from one_page extractor extractor_lenient
      (blank empty_page) (blank empty_revision) book_text (page_with book_text) (codes "p")
      (codes "r") one_page-significant page_with-IdsAreNumbers

-- A decompressor that leaves the bytes as they are.
abbrev plain : Text → Text
plain bytes = bytes

extractors-OverloadsAgree_example :
    OverloadsAgree (blank empty_page) (blank empty_revision) (
      new_text_extractor
        (blank empty_page)
        (blank empty_revision)
        libraries
        combinators
        insertion_sort
        calls.timestamp_from
        one_page
        (parser_with_options lenient))
    × OverloadsAgree (blank empty_page) (blank empty_revision) (
        new_bz2_extractor
          (blank empty_page)
          (blank empty_revision)
          libraries
          combinators
          insertion_sort
          calls.timestamp_from
          one_page
          plain
          (parser_with_options lenient))
extractors-OverloadsAgree_example =
    extractors-OverloadsAgree (blank empty_page) (blank empty_revision) libraries combinators
      insertion_sort calls.timestamp_from one_page plain (parser_with_options lenient)
