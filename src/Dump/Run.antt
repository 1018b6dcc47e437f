-- ===== src/Dump/Run.antt =====
-- A parse: the handlers over all events, up to the first exception; and ParseXML of DumpParser
-- (src/extract/dump_parser.cc), which keeps the pages in memory.
pub mod Consistent
pub mod Output
pub mod Field
pub mod Elements
pub mod Optional
pub mod RevisionElement
use citescoop.Prelude.{ℕ, ◌≡◌, Option, none, some, List, [], ◌∷◌, ◌++◌}
use citescoop.Proto.{Revision, Page}
use citescoop.Result.{Error, Result, ok, err}
use citescoop.StdMap.{Map, insert_range}
use citescoop.StdMap.Keys.{number_ord}
use citescoop.Dump.State.{DumpParser, Services, new_parser, initialize_parser}
use citescoop.Dump.Handlers.{Event, handle}

module _ {O : Type 0} (s : Services O) where
  -- The state where the parse ends, and the exception that ended it; what was stored before the
  -- exception stays stored.
  unfoldable pub run : List Event → DumpParser O → DumpParser O × Option Error
  run [] p = (p, none)
  run (e ∷ es) p = elim (handle s e p) [ ok q ↦ run es q | err x ↦ (p, some x) ]

  -- StartParser on a new object.
  unfoldable pub start_parser : List Event → O → DumpParser O × Option Error
  unfolding run new_parser
  start_parser events output = run events (new_parser output)

  -- StartParser on an object that was used before, up to its end or to an exception.
  unfoldable pub restart_parser : List Event → DumpParser O → DumpParser O × Option Error
  unfolding run initialize_parser
  restart_parser events p = run events (initialize_parser p)

  -- The states between two events of a parse that began with this output.
  pub data Reach (output : O) : DumpParser O → Type 0 where
    begin : Reach output (new_parser output)
    step : {p q : DumpParser O} (e : Event) → Reach output p → handle s e p ≡ ok q → Reach output q

-- stored_pages_ and stored_revisions_
pub record Stored : Type 0 where
  pub pages : List Page
  pub revisions : Map ℕ Revision

abbrev pub nothing_stored : Stored
nothing_stored = record { pages = []; revisions = [] }

-- DumpParser::Store
unfoldable pub store_in_memory : Map ℕ Revision → Page → Stored → Stored
store_in_memory revisions page stored = record {
  pages = stored.pages ++ page ∷ [];
  revisions = insert_range revisions stored.revisions;
}
