-- ===== src/Parser/Whole.antt =====
-- Parse with its grammar, and the parser objects of src/parser/parser.cc.
use citescoop.Prelude.{
  ◌≡◌, Bool, true, false, Option, none, List, [], Option-cases, inl, inr, is_some,
}
use citescoop.Prelude.Text.{Text}
use citescoop.Proto.{RevisionCitations}
use citescoop.Result.{Result, Returns, Returns-weaken}
use citescoop.Parser.Entries.{TemplateEntry}
use citescoop.Parser.{ParserOptions, Libraries, parse}
use citescoop.Parser.Templates.{FirstTitled, parse-Returns}
use citescoop.Parser.Combinators.{Combinators, CombinatorLaws}
use citescoop.Parser.Grammar.{prefix_parse}
use citescoop.Parser.Grammar.Junk.{NoOpen}
use citescoop.Parser.Grammar.Wikitext.{
  print_wikitext, entries_of, AreSegments, prefix_parse-print_wikitext, prefix_parse_total,
}

-- The filter and the options of a parser object.
pub record ParserImpl : Type 0 where
  pub filter : Text → Bool
  pub options : ParserOptions

abbrev pub no_options : ParserOptions
no_options = record { ignore_invalid_ident = false }

abbrev pub any_type : Text → Bool
any_type name = true

-- The four constructors: with a filter and options, with one of them, and with neither.
unfoldable pub new_parser : (Text → Bool) → ParserOptions → ParserImpl
new_parser filter options = record { filter = filter; options = options }

unfoldable pub parser_with_filter : (Text → Bool) → ParserImpl
unfolding new_parser
parser_with_filter filter = new_parser filter no_options

unfoldable pub parser_with_options : ParserOptions → ParserImpl
unfolding new_parser
parser_with_options options = new_parser any_type options

unfoldable pub default_parser : ParserImpl
unfolding parser_with_filter
default_parser = parser_with_filter any_type

-- Parser::options
abbrev pub parser_options : ParserImpl → ParserOptions
parser_options p = p.options

module _ (lib : Libraries) (b : Combinators) where
  -- The libraries, with the grammar in place.
  abbrev pub with_grammar : Libraries
  with_grammar = record lib { prefix_parse = prefix_parse b }

  -- Parser::Parse
  unfoldable pub parse_text : ParserImpl → Text → Result RevisionCitations
  parse_text p text = parse with_grammar p.filter (parser_options p) text

  module _ (laws : CombinatorLaws b) where
    -- Given the laws of the combinators, a parser that ignores invalid identifiers returns for
    -- every text, with citations that name no revision yet.
    pub parse_text-Returns :
        (p : ParserImpl) (text : Text)
        → p.options.ignore_invalid_ident ≡ true
        → Returns (parse_text p text) (λ rc. rc.revision ≡ none)
    unfolding parse_text
    parse_text-Returns p text lenient = elim (Option-cases (prefix_parse b text)) [
      | inl failed ↦ absurd (impossible failed (prefix_parse_total b laws text))
      | inr (entries, found) ↦
          Returns-weaken (parse with_grammar p.filter p.options text)
            (FirstTitled with_grammar p.filter p.options entries) (λ rc. rc.revision ≡ none)
            (parse-Returns with_grammar p.filter p.options text entries found lenient) (λ rc f. f.0)
    ]
      where
        impossible : {o : Option (List TemplateEntry)} → o ≡ none → is_some o ≡ true → ⊥
        impossible h k = cc

    -- Given the laws of the combinators: of a text in which each template is printed as the grammar
    -- writes it, without the marks inside and without leading blanks, and no "{{" begins elsewhere,
    -- a parser that ignores invalid identifiers returns under each title the first citation with
    -- that title among the templates that its filter accepts.
    pub parse_text-print_wikitext :
        (p : ParserImpl) (segments : List (Text × TemplateEntry)) (tail : Text)
        → p.options.ignore_invalid_ident ≡ true
        → AreSegments b segments tail
        → NoOpen b [] tail
        → Returns
            (parse_text p (print_wikitext segments tail))
            (FirstTitled with_grammar p.filter p.options (entries_of segments))
    unfolding parse_text
    parse_text-print_wikitext p segments tail lenient h k =
        parse-Returns with_grammar p.filter p.options (print_wikitext segments tail)
          (entries_of segments) (prefix_parse-print_wikitext b laws segments tail h k) lenient
