-- ===== src/Dump/Extract/ReadBack.antt =====
-- The streams that a streaming parse writes, read by a MessageReader.
use citescoop.Prelude.{
  ◌%◌, ◌≡◌, refl, subst, ◌∙◌, Option, none, some, List, [], ◌++◌, All, length, arith,
}
use citescoop.Prelude.Text.{Text}
use citescoop.Proto.{Revision, Page}
use citescoop.Result.{Error, Result, ok, err}
use citescoop.Numbers.{u64_mod}
use citescoop.Io.{Codec, write_all}
use citescoop.Io.RoundTrip.{ReadsBack, read_all, FitReader, read_back_exactly, write_all-append}
use citescoop.Dump.Handlers.{Event}
use citescoop.Dump.Run.{Stored}
use citescoop.Dump.Extract.{Calls, parse_xml, Streams, parse_xml_streaming}
use citescoop.Dump.Extract.Agreement.{SameEnd, parse_xml-streaming}

module _ (pages : Codec Page) (revisions : Codec Revision) (c : Calls) (events : List Event)
    (out_pages out_revisions : Text) where
  abbrev ended : Streams × Option Error
  ended = parse_xml_streaming pages revisions c events out_pages out_revisions

  -- The pages are written behind what the stream held, and counted.
  abbrev pub PagesWritten : Stored → Streams × Option Error → Type 0
  PagesWritten stored end =
      (end.1 ≡ none)
      × (end.0.pages_output ≡ out_pages ++ write_all pages stored.pages [])
      × (end.0.pages_written ≡ length stored.pages % u64_mod)

  same_end :
      (m : Result Stored) (end : Streams × Option Error) (stored : Stored)
      → m ≡ ok stored
      → SameEnd pages revisions c events out_pages out_revisions m end
      → PagesWritten stored end
  same_end (ok other) (streams, none) stored e agrees =
      let same : other ≡ stored = cc in
      subst (λ stored. PagesWritten stored (streams, none)) same
        (
          refl,
          agrees.wrote.pages_output ∙ write_all-append pages other.pages out_pages,
          agrees.wrote.pages_written ∙ omega arith,
        )
  same_end (ok other) (streams, some x) stored e agrees = absurd agrees
  same_end (err x) end stored e agrees = cc

  -- Where the parse in memory returns, with pages that their class reads back from their bytes and
  -- that are together, with their sizes, less than 2 ^ 31 bytes, the streaming parse ends without
  -- an exception; behind what was in its first stream one MessageReader then reads just these
  -- pages, in their order, and nothing is left; and the counter of the pages is their number modulo
  -- 2 ^ 64.
  pub parse_xml_streaming-read_all :
      (stored : Stored)
      → parse_xml c events ≡ ok stored
      → All (ReadsBack pages) stored.pages
      → FitReader pages stored.pages
      → (ended.1 ≡ none)
        × ((written : Text) × (ended.0.pages_output ≡ out_pages ++ written)
            × (read_all pages (length stored.pages) written
                ≡ some (stored.pages, record { coded_stream = [] })))
        × (ended.0.pages_written ≡ length stored.pages % u64_mod)
  parse_xml_streaming-read_all stored e h fit =
      let (fine, output, counter) =
        same_end (parse_xml c events) ended stored e
          (parse_xml-streaming pages revisions c events out_pages out_revisions) in
      (
        fine,
        (write_all pages stored.pages [], output, read_back_exactly pages stored.pages h fit),
        counter,
      )
