-- ===== src/Extractors.antt =====
-- The public classes of the extractors (src/extract/textextractor.cc, src/extract/bz2extractor.cc),
-- with the citation parser that they are constructed with.
pub mod Interface
pub mod Printed
use citescoop.Prelude.{
  arith, suc, ◌%◌, refl, ap, ◌∙◌, Option, none, some, length, ℕ, ◌≡◌, true, false, List, [], ◌∷◌,
}
use citescoop.Prelude.Text.{Text}
use citescoop.Proto.{Timestamp, Page, Revision}
use citescoop.Result.{ok, err, Error, Result, Returns, Returns-weaken}
use citescoop.Io.{Codec}
use citescoop.Parser.{Libraries}
use citescoop.Parser.Combinators.{Combinators, CombinatorLaws}
use citescoop.Parser.Whole.{ParserImpl, parse_text, parse_text-Returns}
use citescoop.Dump.Citations.{Sort}
use citescoop.Dump.Citations.PageList.{SortLaws}
use citescoop.Dump.Handlers.{parse_id}
use citescoop.Dump.Run.{Stored}
use citescoop.Dump.Run.Field.{concat}
use citescoop.Dump.Run.Optional.{read_parent}
use citescoop.Dump.Run.RevisionElement.{RevisionXml}
use citescoop.Dump.Extract.Agreement.{SameEnd, parse_xml-streaming}
use citescoop.Numbers.{u64_mod}
use citescoop.Dump.Extract.{
  parse_xml, Streams, counted, Calls, Sax, extract_text, extract_bz2, extract_text_streaming,
  extract_bz2_streaming,
}
use citescoop.Dump.Extract.Pages.{PageXml, dump_events}
use citescoop.Dump.Extract.Significant.{significant}
use citescoop.Dump.Extract.Readable.{AllReadable, PagesReadable, PagesOf, memory}
use citescoop.Dump.Extract.Padded.{parse_xml-PagesOf_padded}

-- What an extractor keeps.
pub record BaseExtractor : Type 0 where
  pub citation_parser : ParserImpl

unfoldable pub new_extractor : ParserImpl → BaseExtractor
new_extractor parser = record { citation_parser = parser }

-- TextExtractorImpl and Bz2ExtractorImpl
unfoldable pub text_extractor_impl : ParserImpl → BaseExtractor
unfolding new_extractor
text_extractor_impl parser = new_extractor parser

unfoldable pub bz2_extractor_impl : ParserImpl → BaseExtractor
unfolding new_extractor
bz2_extractor_impl parser = new_extractor parser

unfoldable pub text_extractor : ParserImpl → BaseExtractor
unfolding text_extractor_impl
text_extractor parser = text_extractor_impl parser

unfoldable pub bz2_extractor : ParserImpl → BaseExtractor
unfolding bz2_extractor_impl
bz2_extractor parser = bz2_extractor_impl parser

module _ (lib : Libraries) (b : Combinators) (sort : Sort) (timestamp_from : Text → Timestamp)
    (sax : Sax) where
  -- The calls of a dump parser that is given the parser of the extractor.
  abbrev pub calls_of : BaseExtractor → Calls
  calls_of e = record {
    parse = parse_text lib b e.citation_parser;
    sort = sort;
    timestamp_from = timestamp_from;
  }

  unfoldable pub text_extractor_extract : BaseExtractor → Text → Result Stored
  unfolding extract_text
  text_extractor_extract e input = extract_text sax (calls_of e) input

  unfoldable pub bz2_extractor_extract : (Text → Text) → BaseExtractor → Text → Result Stored
  unfolding extract_bz2
  bz2_extractor_extract decompress e input = extract_bz2 decompress sax (calls_of e) input

  module _ (pages : Codec Page) (revisions : Codec Revision) where
    unfoldable pub text_extractor_extract_streaming :
        BaseExtractor → Text → Text → Text → (Text × Text) × Result (ℕ × ℕ)
    unfolding extract_text_streaming
    text_extractor_extract_streaming e input pages_output revisions_output =
        extract_text_streaming pages revisions sax (calls_of e) input pages_output revisions_output

    unfoldable pub bz2_extractor_extract_streaming :
        (Text → Text) → BaseExtractor → Text → Text → Text → (Text × Text) × Result (ℕ × ℕ)
    unfolding extract_bz2_streaming
    bz2_extractor_extract_streaming decompress e input pages_output revisions_output =
        extract_bz2_streaming pages revisions sax (calls_of e) decompress input pages_output
          revisions_output

-- The ids of a dump are numbers, and those of the parents where they are there.
abbrev pub IdsOfRevisions : List RevisionXml → Type 0
IdsOfRevisions [] = Unit
IdsOfRevisions (x ∷ xs) =
    (Returns (parse_id (concat x.id)) (λ n. Unit) × Returns (read_parent x.parent_id) (λ n. Unit))
    × IdsOfRevisions xs

abbrev pub IdsAreNumbers : List PageXml → Type 0
IdsAreNumbers [] = Unit
IdsAreNumbers (x ∷ xs) =
    (Returns (parse_id (concat x.id)) (λ n. Unit) × IdsOfRevisions x.revisions) × IdsAreNumbers xs

module _ (lib : Libraries) (b : Combinators) (laws : CombinatorLaws b) (sort : Sort)
    (sort_laws : SortLaws sort) (timestamp_from : Text → Timestamp) (sax : Sax) (e : BaseExtractor)
    (lenient : e.citation_parser.options.ignore_invalid_ident ≡ true) where
  abbrev calls : Calls
  calls = calls_of lib b sort timestamp_from sax e

  revisions-AllReadable :
      (xs : List RevisionXml) → IdsOfRevisions xs → AllReadable (memory calls) xs
  revisions-AllReadable [] h = tt
  revisions-AllReadable (x ∷ xs) h = (
    (
      h.0.0,
      h.0.1,
      Returns-weaken (parse_text lib b e.citation_parser (concat x.text)) _ (λ citations. Unit)
          (parse_text-Returns lib b laws e.citation_parser (concat x.text) lenient)
          (λ citations r. tt),
    ),
    revisions-AllReadable xs h.1,
  )

  pages-PagesReadable : (xs : List PageXml) → IdsAreNumbers xs → PagesReadable (memory calls) xs
  pages-PagesReadable [] h = tt
  pages-PagesReadable (x ∷ xs) h =
      ((h.0.0, revisions-AllReadable x.revisions h.0.1), pages-PagesReadable xs h.1)

  -- Given the laws of the combinators of the grammar and a sort that permutes its list: a text
  -- extractor whose parser ignores invalid identifiers, on an input whose significant events
  -- are those of a dump, in which each revision has an id and a text and the other fields or not,
  -- with numbers for its ids and for those of the parents that are there: Extract returns, whatever
  -- the texts of the revisions, with one page for each page of the dump, in their order, with its
  -- title, its id and the citations that its revisions give it.
  pub text_extractor_extract-PagesOf :
      (input : Text) (xs : List PageXml)
      → significant false (sax input) ≡ dump_events xs
      → IdsAreNumbers xs
      → Returns
          (text_extractor_extract lib b sort timestamp_from sax e input)
          (λ stored. PagesOf calls xs stored.pages)
  unfolding text_extractor_extract extract_text
  text_extractor_extract-PagesOf input xs h ids =
      parse_xml-PagesOf_padded calls sort_laws (sax input) xs h (pages-PagesReadable xs ids)

  PagesOf-length :
      (xs : List PageXml) (pages : List Page) → PagesOf calls xs pages → length pages ≡ length xs
  PagesOf-length [] [] h = refl
  PagesOf-length (x ∷ xs) (page ∷ pages) h = ap suc (PagesOf-length xs pages h.1)
  PagesOf-length [] (page ∷ pages) h = absurd h
  PagesOf-length (x ∷ xs) [] h = absurd h

  module _ (pages : Codec Page) (revisions : Codec Revision) (input : Text) (xs : List PageXml)
      (out_pages out_revisions : Text) where
    counted-length :
        (m : Result Stored) (end : Streams × Option Error)
        → Returns m (λ stored. PagesOf calls xs stored.pages)
        → SameEnd pages revisions calls (sax input) out_pages out_revisions m end
        → Returns
            (counted pages revisions sax calls end).1
            (λ counts. counts.0 ≡ length xs % u64_mod)
    counted-length (ok stored) (streams, none) h same =
        same.wrote.pages_written ∙ omega (arith, PagesOf-length xs stored.pages h)
    counted-length (ok stored) (streams, some x) h same = absurd same
    counted-length (err x) end h same = absurd h

    -- Given the laws of the combinators of the grammar and a sort that permutes its list: on an
    -- input whose significant events are those of a dump, in which each revision has an id and a
    -- text and the other fields or not, with numbers for its ids and for those of the parents that
    -- are there, the streaming Extract of a text extractor whose parser ignores invalid identifiers
    -- returns, whatever the two streams held, and the first number that it returns is that of the
    -- pages of the dump modulo 2 ^ 64.
    pub text_extractor_extract_streaming-pages :
        significant false (sax input) ≡ dump_events xs
        → IdsAreNumbers xs
        → Returns
            (text_extractor_extract_streaming lib b sort timestamp_from sax pages revisions e input
              out_pages out_revisions).1
            (λ counts. counts.0 ≡ length xs % u64_mod)
    unfolding text_extractor_extract_streaming extract_text_streaming
    text_extractor_extract_streaming-pages h ids =
        counted-length (parse_xml calls (sax input)) _
          (parse_xml-PagesOf_padded calls sort_laws (sax input) xs h (pages-PagesReadable xs ids))
          (parse_xml-streaming pages revisions calls (sax input) out_pages out_revisions)
