-- ===== src/Tests/ExtractRuns.antt =====
-- The two ways to parse a dump.
use citescoop.Prelude.{List, [], ◌∷◌}
use citescoop.Prelude.Text.{codes}
use citescoop.Proto.{empty_page, empty_revision}
use citescoop.StdMap.Keys.{number_ord, text_ord}
use citescoop.Dump.Handlers.{Event, start_element, end_element}
use citescoop.Dump.Run.Field.{element}
use citescoop.Dump.Extract.{parse_xml, parse_xml_streaming}
use citescoop.Dump.Extract.Agreement.{SameEnd, parse_xml-streaming}
use citescoop.Tests.Samples.{calls}
use citescoop.Tests.OpenAlexRuns.{blank}

abbrev small_dump : List Event
small_dump =
    start_element (codes "page")
    ∷ element (codes "title") (codes "T" ∷ []) (
        start_element (codes "revision")
        ∷ element (codes "id") (codes "7" ∷ []) (
            element (codes "text") (codes "On Engines" ∷ [])
              (end_element (codes "revision") ∷ end_element (codes "page") ∷ [])))

parse_xml-streaming_example :
    SameEnd
      (blank empty_page)
      (blank empty_revision)
      calls
      small_dump
      (codes "p")
      (codes "r")
      (parse_xml calls small_dump)
      (parse_xml_streaming
        (blank empty_page)
        (blank empty_revision)
        calls
        small_dump
        (codes "p")
        (codes "r"))
parse_xml-streaming_example =
    parse_xml-streaming (blank empty_page) (blank empty_revision) calls small_dump (codes "p")
      (codes "r")
