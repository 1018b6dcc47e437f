-- ===== src/Extractors/Interface.antt =====
-- The abstract class Extractor (include/citescoop/extract.h), the two classes that implement it, and
-- what its two overloads of Extract promise of each other.
use citescoop.Prelude.{ℕ, ◌≡◌, none, some, Option}
use citescoop.Prelude.Text.{Text}
use citescoop.Proto.{Timestamp, Page, Revision}
use citescoop.Result.{Result, ok, err, Error}
use citescoop.Io.{Codec}
use citescoop.Parser.{Libraries}
use citescoop.Parser.Combinators.{Combinators}
use citescoop.Parser.Whole.{ParserImpl}
use citescoop.Dump.Citations.{Sort}
use citescoop.Dump.Run.{Stored}
use citescoop.Dump.Extract.{
  Calls, Sax, Streams, parse_xml, parse_xml_streaming, counted, extract_text, extract_bz2,
  extract_text_streaming, extract_bz2_streaming,
}
use citescoop.Dump.Extract.Agreement.{SameEnd, streams_at, parse_xml-streaming}
use citescoop.Dump.Extract.Streaming.{Agrees}
use citescoop.Extractors.{
  BaseExtractor, text_extractor, bz2_extractor, calls_of, text_extractor_extract,
  bz2_extractor_extract, text_extractor_extract_streaming, bz2_extractor_extract_streaming,
}

-- An object of a class that implements Extractor: its two overloads of Extract.
pub record Extractor : Type 0 where
  pub extract : Text → Result Stored
  pub extract_streaming : Text → Text → Text → (Text × Text) × Result (ℕ × ℕ)

module _ (pages : Codec Page) (revisions : Codec Revision) where
  -- Both overloads return, and what one has written is what the other returns, or both throw the
  -- same exception.
  abbrev pub SameExtract : Text → Text → Result Stored → (Text × Text) × Result (ℕ × ℕ) → Type 0
  SameExtract out_pages out_revisions (ok stored) ((p, r), ok (n, m)) =
      Agrees pages revisions stored (streams_at out_pages out_revisions) (record {
        pages_output = p;
        revisions_output = r;
        pages_written = n;
        revisions_written = m;
      })
  SameExtract out_pages out_revisions (ok stored) (output, err x) = ⊥
  SameExtract out_pages out_revisions (err x) (output, ok counts) = ⊥
  SameExtract out_pages out_revisions (err x) (output, err y) = x ≡ y

  -- What the two overloads promise of each other, on every input.
  abbrev pub OverloadsAgree : Extractor → Type 0
  OverloadsAgree x =
      (input out_pages out_revisions : Text)
      → SameExtract out_pages out_revisions (x.extract input)
          (x.extract_streaming input out_pages out_revisions)

  module _ (lib : Libraries) (b : Combinators) (sort : Sort) (timestamp_from : Text → Timestamp)
      (sax : Sax) where
    -- A TextExtractor with this parser.
    unfoldable pub new_text_extractor : ParserImpl → Extractor
    unfolding text_extractor_extract text_extractor_extract_streaming text_extractor
    new_text_extractor parser = record {
      extract = λ input.
          text_extractor_extract lib b sort timestamp_from sax (text_extractor parser) input;
      extract_streaming = λ input p r.
          text_extractor_extract_streaming lib b sort timestamp_from sax pages revisions
            (text_extractor parser) input p r;
    }

    -- A Bz2Extractor with this parser.
    unfoldable pub new_bz2_extractor : (Text → Text) → ParserImpl → Extractor
    unfolding bz2_extractor_extract bz2_extractor_extract_streaming bz2_extractor
    new_bz2_extractor decompress parser = record {
      extract = λ input.
          bz2_extractor_extract lib b sort timestamp_from sax decompress (bz2_extractor parser)
            input;
      extract_streaming = λ input p r.
          bz2_extractor_extract_streaming lib b sort timestamp_from sax pages revisions decompress
            (bz2_extractor parser) input p r;
    }

    module _ (c : Calls) (out_pages out_revisions : Text) where
      counted-SameExtract :
          (bytes : Text) (m : Result Stored) (end : Streams × Option Error)
          → SameEnd pages revisions c (sax bytes) out_pages out_revisions m end
          → SameExtract out_pages out_revisions m (counted pages revisions sax c end)
      counted-SameExtract bytes (ok stored) (streams, none) h = h
      counted-SameExtract bytes (ok stored) (streams, some x) h = h
      counted-SameExtract bytes (err x) (streams, none) h = h
      counted-SameExtract bytes (err x) (streams, some y) h = h

    -- On every input, the two overloads of Extract of a TextExtractor, and so those of a
    -- Bz2Extractor, both return or both throw the same exception. Where they return, the one
    -- has written, behind what the streams held, the pages that the other returns, in their order,
    -- and revisions of which the first of each id is the one returned for it; and its two numbers
    -- are those of the pages and of the revisions written, modulo 2 ^ 64.
    pub extractors-OverloadsAgree :
        (decompress : Text → Text) (parser : ParserImpl)
        → OverloadsAgree (new_text_extractor parser)
          × OverloadsAgree (new_bz2_extractor decompress parser)
    unfolding new_text_extractor new_bz2_extractor text_extractor_extract bz2_extractor_extract
        text_extractor_extract_streaming bz2_extractor_extract_streaming extract_text extract_bz2
        extract_text_streaming extract_bz2_streaming
    extractors-OverloadsAgree decompress parser = (
      λ input p r. agree (text_extractor parser) input p r,
      λ input p r. agree (bz2_extractor parser) (decompress input) p r,
    )
      where
        agree :
            (e : BaseExtractor) (bytes out_pages out_revisions : Text)
            → SameExtract out_pages out_revisions
                (parse_xml (calls_of lib b sort timestamp_from sax e) (sax bytes))
                (counted pages revisions sax (calls_of lib b sort timestamp_from sax e) (
                  parse_xml_streaming pages revisions
                    (calls_of lib b sort timestamp_from sax e)
                    (sax bytes)
                    out_pages
                    out_revisions))
        agree e bytes out_pages out_revisions =
            let c = calls_of lib b sort timestamp_from sax e in
            counted-SameExtract c out_pages out_revisions bytes (parse_xml c (sax bytes)) _
              (parse_xml-streaming pages revisions c (sax bytes) out_pages out_revisions)
