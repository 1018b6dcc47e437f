-- ===== src/Dump/Extract.antt =====
-- ParseXML of DumpParser and of StreamingDumpParser (src/extract/dump_parser.cc,
-- src/extract/streaming_dump_parser.cc), and the extractors over them
-- (src/extract/textextractor_impl.cc, src/extract/bz2extractor_impl.cc).
pub mod Streaming
pub mod Agreement
pub mod Pages
pub mod Ending
pub mod Refines
pub mod Readable
pub mod Named
pub mod Significant
pub mod Others
pub mod Padded
pub mod ReadBack
pub mod Reads
pub mod AnyOrder
pub mod Again
use citescoop.Prelude.{ℕ, ◌+◌, ◌%◌, Option, none, some, List, [], ◌∷◌}
use citescoop.Prelude.Text.{Text}
use citescoop.Proto.{Timestamp, Revision, RevisionCitations, Page}
use citescoop.Result.{Error, Result, ok, err, ◌>>=◌}
use citescoop.StdMap.{Map}
use citescoop.Numbers.{u64_mod}
use citescoop.Io.{Codec, write_message}
use citescoop.Dump.Citations.{Sort}
use citescoop.Dump.State.{DumpParser, Services}
use citescoop.Dump.Handlers.{Event}
use citescoop.Dump.Run.{start_parser, restart_parser, Stored, nothing_stored, store_in_memory}

-- What a parse calls outside of this component, but for Store: Parser::Parse of the citation
-- parser, std::ranges::sort and TimeUtil::FromString.
pub record Calls : Type 0 where
  pub parse : Text → Result RevisionCitations
  pub sort : Sort
  pub timestamp_from : Text → Timestamp

abbrev pub services : {O : Type 0} → (Map ℕ Revision → Page → O → O) → Calls → Services O
services store c = record {
  parse = c.parse;
  sort = c.sort;
  timestamp_from = c.timestamp_from;
  store = store;
}

-- A result, or the exception that ended the parse.
abbrev pub finish : {O R : Type 0} → (O → R) → DumpParser O × Option Error → Result R
finish result (p, none) = ok (result p.output)
finish result (p, some x) = err x

-- DumpParser::ParseXML
unfoldable pub parse_xml : Calls → List Event → Result Stored
parse_xml c events =
    finish (λ stored. stored) (start_parser (services store_in_memory c) events nothing_stored)

-- DumpParser::ParseXML on an object that was used before.
unfoldable pub parse_xml_again : Calls → List Event → DumpParser Stored → Result Stored
unfolding restart_parser
parse_xml_again c events p =
    finish (λ stored. stored)
      (restart_parser (services store_in_memory c) events (record p { output = nothing_stored }))

-- The two output streams and the two counters, which are uint64_t.
pub record Streams : Type 0 where
  pub pages_output : Text
  pub revisions_output : Text
  pub pages_written : ℕ
  pub revisions_written : ℕ

module _ (pages : Codec Page) (revisions : Codec Revision) where
  unfoldable pub write_revisions : Map ℕ Revision → Streams → Streams
  write_revisions [] streams = streams
  write_revisions ((id, revision) ∷ rest) streams = write_revisions rest (record streams {
    revisions_output = (write_message revisions revision streams.revisions_output).0;
    revisions_written = (streams.revisions_written + 1) % u64_mod;
  })

  -- StreamingDumpParser::Store
  unfoldable pub store_streaming : Map ℕ Revision → Page → Streams → Streams
  store_streaming to_store page streams = write_revisions to_store (record streams {
    pages_output = (write_message pages page streams.pages_output).0;
    pages_written = (streams.pages_written + 1) % u64_mod;
  })

  -- StreamingDumpParser::ParseXML of a new object: the streams and the counters, as they are when
  -- the parse ends, and the exception that ended it.
  unfoldable pub parse_xml_streaming : Calls → List Event → Text → Text → Streams × Option Error
  parse_xml_streaming c events pages_output revisions_output =
      let ended = start_parser (services store_streaming c) events (record {
        pages_output = pages_output;
        revisions_output = revisions_output;
        pages_written = 0;
        revisions_written = 0;
      }) in
      (ended.0.output, ended.1)

  -- The same of an object that was used before: it has new streams, and the counters go on.
  unfoldable pub parse_xml_streaming_again :
      Calls → List Event → Text → Text → DumpParser Streams → Streams × Option Error
  unfolding restart_parser
  parse_xml_streaming_again c events pages_output revisions_output p =
      let ended = restart_parser (services store_streaming c) events (record p {
        output = record (p.output) {
          pages_output = pages_output;
          revisions_output = revisions_output;
        };
      }) in
      (ended.0.output, ended.1)

-- The SAX parser that a DumpParser is: the events that it makes of the bytes of a stream.
abbrev pub Sax : Type 0
Sax = Text → List Event

-- TextExtractor::Extract
unfoldable pub extract_text : Sax → Calls → Text → Result Stored
extract_text sax c input = parse_xml c (sax input)

-- Bz2Extractor::Extract, over the bytes that the decompressor makes of the stream.
unfoldable pub extract_bz2 : (Text → Text) → Sax → Calls → Text → Result Stored
extract_bz2 decompress sax c input = parse_xml c (sax (decompress input))

module _ (pages : Codec Page) (revisions : Codec Revision) (sax : Sax) (c : Calls) where
  abbrev pub counted : Streams × Option Error → (Text × Text) × Result (ℕ × ℕ)
  counted (streams, none) = (
    (streams.pages_output, streams.revisions_output),
    ok (streams.pages_written, streams.revisions_written),
  )
  counted (streams, some x) = ((streams.pages_output, streams.revisions_output), err x)

  -- The streaming overloads: the two output streams, and the two numbers returned.
  unfoldable pub extract_text_streaming : Text → Text → Text → (Text × Text) × Result (ℕ × ℕ)
  extract_text_streaming input pages_output revisions_output =
      counted (parse_xml_streaming pages revisions c (sax input) pages_output revisions_output)

  unfoldable pub extract_bz2_streaming :
      (Text → Text) → Text → Text → Text → (Text × Text) × Result (ℕ × ℕ)
  extract_bz2_streaming decompress input pages_output revisions_output =
      counted (
        parse_xml_streaming pages revisions c (sax (decompress input)) pages_output
          revisions_output)
