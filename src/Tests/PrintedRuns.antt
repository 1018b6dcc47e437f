-- ===== src/Tests/PrintedRuns.antt =====
-- A text extractor on a dump whose one text is the print of templates.
use citescoop.Prelude.{◌≡◌, refl, true, false, none, some, List, [], ◌∷◌, map}
use citescoop.Prelude.Text.{Text, codes, text_eq}
use citescoop.Result.{Returns}
use citescoop.Parser.Grammar.Wikitext.{print_wikitext}
use citescoop.Parser.Whole.{new_parser}
use citescoop.Dump.Handlers.{Event, parse_id, is_field}
use citescoop.Dump.Extract.Pages.{dump_events}
use citescoop.Dump.Extract.Significant.{is_known, opened, counts, significant}
use citescoop.Extractors.{BaseExtractor, text_extractor, text_extractor_extract, IdsAreNumbers}
use citescoop.Extractors.Printed.{
  PrintedPage, page_xml, PagesPrinted, PagesSay, text_extractor_extract-PagesSay,
}
use citescoop.Tests.Combinators.{combinators, combinators-laws}
use citescoop.Tests.GrammarRuns.{segments, tail, segments_fine, tail_fine}
use citescoop.Tests.ParserRuns.{libraries, lenient, is_cite}
use citescoop.Tests.Samples.{calls, insertion_sort, insertion_sort-SortLaws}

abbrev text : Text
text = print_wikitext segments tail

-- The page whose one revision has the text.
abbrev page : PrintedPage
page = record {
  title = codes "Engines" ∷ [];
  id = codes "4" ∷ [];
  revisions =
      record {
        xml = record {
          id = codes "7" ∷ [];
          parent_id = none;
          timestamp = some (codes "noon" ∷ []);
          contributor =
              some (record { username = some (codes "Ada" ∷ []); id = some (codes "99" ∷ []) });
          text = text ∷ [];
        };
        segments = segments;
        tail = tail;
      }
      ∷ [];
}

abbrev printed : List PrintedPage
printed = page ∷ []

-- A SAX parser that knows the one dump.
abbrev the_dump : Text → List Event
the_dump input = dump_events (map page_xml printed)

abbrev extractor : BaseExtractor
extractor = text_extractor (new_parser is_cite lenient)

the_dump-significant :
    significant false (the_dump (codes "dump")) ≡ dump_events (map page_xml printed)
unfolding significant opened counts is_known is_field text_eq
the_dump-significant = refl

printed-IdsAreNumbers : IdsAreNumbers (map page_xml printed)
unfolding parse_id
printed-IdsAreNumbers = ((tt, ((tt, tt), tt)), tt)

printed-PagesPrinted : PagesPrinted libraries combinators printed
printed-PagesPrinted = (((refl, segments_fine, tail_fine), tt), tt)

extractor_lenient : extractor.citation_parser.options.ignore_invalid_ident ≡ true
unfolding text_extractor new_parser
extractor_lenient = refl

text_extractor_extract-PagesSay_example :
    Returns
      (text_extractor_extract libraries combinators insertion_sort calls.timestamp_from the_dump
        extractor
        (codes "dump"))
      (λ stored.
        PagesSay libraries combinators calls.timestamp_from extractor.citation_parser insertion_sort
          printed stored.pages)
text_extractor_extract-PagesSay_example =
    text_extractor_extract-PagesSay libraries combinators combinators-laws insertion_sort
      insertion_sort-SortLaws calls.timestamp_from the_dump extractor extractor_lenient
      (codes "dump") printed the_dump-significant printed-IdsAreNumbers printed-PagesPrinted
