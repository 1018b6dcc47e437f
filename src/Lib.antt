-- ===== src/Lib.antt =====
-- citescoop reads dumps of Wikipedia and snapshots of OpenAlex and extracts citations, works,
-- authors and institutions as protocol buffer messages. This library models its program logic and
-- states what it does.
--
-- The parts of the program, and the files that model them:
--
-- * Message streams, include/citescoop/io.h: Io. A message stands behind its size as a uint32_t in
--   network byte order. `write_message` and `read_message` are MessageWriter::WriteMessage and
--   MessageReader::ReadMessage.
--   A MessageReader has one CodedInputStream for all messages, which stops after INT_MAX bytes in
--   all, as its documentation says: `new_message_reader` keeps so many bytes of the stream.
-- * The citation parser, src/parser/parser_impl.cc: Parser. `parse` is Parse: the grammar gives the
--   templates of a text; `build_citation` makes a citation of the parameters of each template that
--   the filter accepts; the citations are kept by their titles. The other functions have the names
--   of the methods. Parser.Grammar has the rules of the grammar, over Parser.Combinators, an
--   interface of the combinators of Boost.Parser with what its documentation says of them as laws;
--   Parser.Whole puts the grammar in the place of the parameter of `parse` and has the constructors
--   and Parse of the class Parser (src/parser/parser.cc). Numbers has the conversions of the
--   standard library for 32-bit int and 64-bit long.
-- * The dump parser, src/extract/dump_parser.cc: Dump. Dump.State has the fields of the class,
--   Dump.Handlers the handlers of the SAX events and OnEndPage, OnEndRevision and OnEndField,
--   Dump.Citations has MakePageCitationList with CheckExistingCitations and AddNewCitations, and
--   Dump.Run a parse as the handlers over a list of events, up to the first exception. The dump
--   parser calls the citation parser on the text of each revision, and its method Store at the end
--   of each page: what Store changes is the field `output`, so that the same handlers serve
--   DumpParser, which keeps pages and revisions in memory, and StreamingDumpParser
--   (src/extract/streaming_dump_parser.cc), which writes them to two message streams. The sort of
--   the revisions of a page is a parameter: what the standard says of std::ranges::sort is
--   SortLaws, that it permutes, and SortOrderLaws, that it orders for a comparison that is a strict
--   weak order (Prelude.Sorting); revisions that compare equal it may leave in any order.
-- * The extractors, src/extract/textextractor_impl.cc and src/extract/bz2extractor_impl.cc:
--   Dump.Extract, which also has ParseXML of both dump parsers, of a new object and of one that was
--   used before. Dump.Extract.Pages says what a dump is and what it says: its
--   revisions have an id and a text, and a parent, a time and a contributor or not
--   (Dump.Run.RevisionElement, Dump.Run.Optional). Dump.Extract.Significant says which events of a
--   dump count.
-- * The public extractors, src/extract/textextractor.cc and src/extract/bz2extractor.cc:
--   Extractors, where the citation parser of an extractor is that of Parser.Whole.
--   Extractors.Interface has the abstract class Extractor (include/citescoop/extract.h), a record of
--   the two overloads of Extract, and an object of it for each of the two classes. Extractors.Printed
--   goes from the templates in the texts of a dump to the citations of its pages.
-- * The processor of OpenAlex snapshots, src/openalex/snapshot_processor_impl.cc: OpenAlex.
--   OpenAlex has the tests and the ids of JSON records, OpenAlex.Works ExtractWork,
--   OpenAlex.Snapshot the state `seen_ids_`, ExtractAuthors, ExtractInstitutions, ProcessLine and
--   ProcessWorksSnapshot in memory, OpenAlex.Streams the form that writes to three message streams.
--   OpenAlex.Processor is the public class (src/openalex/snapshot_processor.cc), and Langmap is
--   src/langmap.cc.
-- * The exceptions, src/parser/exceptions.cc and src/extract/exceptions.cc: Exceptions and Result.
--   An exception is the error of a Result.
--
-- Strings are lists of bytes, std::map is a list of entries sorted by the key (StdMap), integers
-- are native numbers with the wrap-around of their type written out where it can happen: the sizes
-- of messages, the casts of numbers that were read, the counters of the streams. The `int`
-- counters of references are unbounded integers: a citation holds at most two references, so they
-- would overflow only on a page with more than 2 ^ 30 citations.
-- Every loop of the model is a structural recursion over a list of events, lines, templates,
-- parameters, revisions or citations; only `decimal`, which prints a number for the statements about
-- reading one, has fuel: one more than the number, which has at most that many digits.
--
-- Not modelled: libxml++, libbz2, Boost.Parser, Boost.StringAlgo, nlohmann::json,
-- std::ranges::sort and the generated message classes, which are parameters, with records of laws
-- where a theorem relies on them; the table of languages, from which a lookup is generated at build
-- time; destructors; and the failure of an output stream.
-- The unspecified order in which ProcessLine makes its three calls is a parameter of `process_line`;
-- OpenAlex.Snapshot.Within says which of the ids seen a call depends on.
pub mod Prelude
pub mod StdMap
pub mod Result
pub mod Exceptions
pub mod Extractors
pub mod Numbers
pub mod Proto
pub mod Io
pub mod Parser
pub mod Dump
pub mod Langmap
pub mod OpenAlex
mod Tests
