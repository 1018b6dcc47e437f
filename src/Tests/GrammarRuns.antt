-- ===== src/Tests/GrammarRuns.antt =====
-- The grammar on a text with two templates.
use citescoop.Prelude.{◌≡◌, refl, none, some, List, [], ◌∷◌, ◌++◌, arith}
use citescoop.Prelude.Text.{Text, codes, starts_with}
use citescoop.Result.{Returns}
use citescoop.Parser.Entries.{TemplateEntry}
use citescoop.Parser.Combinators.{without_blanks}
use citescoop.Parser.Grammar.{prefix_parse}
use citescoop.Parser.Grammar.Junk.{NoOpen}
use citescoop.Parser.Grammar.Params.{IsTemplate}
use citescoop.Parser.Grammar.Wikitext.{
  print_wikitext, entries_of, AreSegments, print_broken, prefix_parse-print_broken,
  prefix_parse-print_wikitext,
}
use citescoop.Parser.Templates.{FirstTitled}
use citescoop.Parser.Whole.{
  ParserImpl, with_grammar, parse_text, parse_text-Returns, parse_text-print_wikitext,
}
use citescoop.Tests.Combinators.{combinators, combinators-laws}
use citescoop.Tests.ParserRuns.{libraries, lenient, is_cite}

abbrev journal : TemplateEntry
journal = record {
  name = codes "cite journal";
  params =
      record { key = codes "title"; value = some (codes "On {Engines") }
      ∷ record { key = codes "pmc "; value = some (codes "PMC12") }
      ∷ record { key = codes "note"; value = none }
      ∷ [];
}

abbrev book : TemplateEntry
book = record { name = codes "cite book"; params = record { key = []; value = some [] } ∷ [] }

abbrev pub segments : List (Text × TemplateEntry)
segments = (codes " Ada {x} ", journal) ∷ (codes "", book) ∷ []

abbrev pub tail : Text
tail = codes "}} end "

segments_text :
    print_wikitext segments tail
    ≡ codes " Ada {x} {{cite journal|title=On {Engines|pmc =PMC12|note}}{{cite book|=}}}} end "
segments_text = refl

segments_found :
    prefix_parse combinators (print_wikitext segments tail) ≡ some (journal ∷ book ∷ [])
unfolding prefix_parse starts_with without_blanks
segments_found = refl

-- Without the bar behind its name, the first template reaches into the second.
joined_found :
    prefix_parse combinators (codes "{{cite book}} {{ cite web | url = u}}")
    ≡ some (
        record {
          name = codes "cite book}} {{ cite web ";
          params = record { key = codes " url "; value = some (codes " u") } ∷ [];
        }
        ∷ [])
unfolding prefix_parse starts_with without_blanks
joined_found = refl

pub segments_fine : AreSegments combinators segments tail
unfolding starts_with
segments_fine = ground arith

pub tail_fine : NoOpen combinators [] tail
unfolding starts_with
tail_fine = ground arith

prefix_parse-print_wikitext_example :
    prefix_parse combinators (print_wikitext segments tail) ≡ some (entries_of segments)
prefix_parse-print_wikitext_example =
    prefix_parse-print_wikitext combinators combinators-laws segments tail segments_fine tail_fine

abbrev parser : ParserImpl
parser = record { filter = is_cite; options = lenient }

parse_text-Returns_example :
    Returns
      (parse_text libraries combinators parser (codes "{{cite book|title=T}} {{"))
      (λ rc. rc.revision ≡ none)
parse_text-Returns_example =
    parse_text-Returns libraries combinators combinators-laws parser
      (codes "{{cite book|title=T}} {{") refl

parse_text-print_wikitext_example :
    Returns
      (parse_text libraries combinators parser (print_wikitext segments tail))
      (FirstTitled (with_grammar libraries combinators) is_cite lenient (entries_of segments))
parse_text-print_wikitext_example =
    parse_text-print_wikitext libraries combinators combinators-laws parser segments tail refl
      segments_fine tail_fine

-- "{{cite journal|title=...|pmc =PMC12|note}.{{cite book|=}}" behind the other two
abbrev broken_rest : Text
broken_rest = codes "{{cite book|=}}"

broken_fine : AreSegments combinators segments (codes " " ++ print_broken journal b'.' broken_rest)
unfolding starts_with
broken_fine = ground arith

broken_junk_fine : NoOpen combinators (print_broken journal b'.' broken_rest) (codes " ")
unfolding starts_with
broken_junk_fine = ground arith

journal-IsTemplate : IsTemplate combinators journal
journal-IsTemplate = ground arith

prefix_parse-print_broken_example :
    prefix_parse combinators
      (print_wikitext segments (codes " " ++ print_broken journal b'.' broken_rest))
    ≡ some (entries_of segments)
prefix_parse-print_broken_example =
    prefix_parse-print_broken combinators combinators-laws segments (codes " ") journal b'.'
      broken_rest broken_fine broken_junk_fine journal-IsTemplate refl
