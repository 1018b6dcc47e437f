-- ===== src/Dump/Extract/Pages.antt =====
-- The events of whole dumps, and what a dump says, read off without a parser.
use citescoop.Prelude.{ℕ, some, List, [], ◌∷◌, map}
use citescoop.Prelude.Text.{Text, codes}
use citescoop.Proto.{Revision, RevisionCitations, Page}
use citescoop.Result.{Result, ok, ◌>>=◌}
use citescoop.StdMap.{Map, insert}
use citescoop.StdMap.Keys.{number_ord}
use citescoop.Dump.Citations.{make_page_citation_list}
use citescoop.Dump.State.{Services}
use citescoop.Dump.Handlers.{Event, start_element, end_element, parse_id}
use citescoop.Dump.Run.Field.{concat, element}
use citescoop.Dump.Run.Optional.{read_parent, user_of, time_of}
use citescoop.Dump.Run.RevisionElement.{RevisionXml, revision_events}

-- A page as a dump has it.
pub record PageXml : Type 0 where
  pub title : List Text
  pub id : List Text
  pub revisions : List RevisionXml

abbrev pub revisions_events : List RevisionXml → List Event → List Event
revisions_events [] es = es
revisions_events (x ∷ xs) es = revision_events x (revisions_events xs es)

abbrev pub page_events : PageXml → List Event → List Event
page_events x es =
    start_element (codes "page")
    ∷ element (codes "title") x.title
        (element (codes "id") x.id (revisions_events x.revisions (end_element (codes "page") ∷ es)))

abbrev pub dump_events : List PageXml → List Event
dump_events [] = []
dump_events (x ∷ xs) = page_events x (dump_events xs)

-- The revisions by their ids; of several with one id, the first.
abbrev pub by_id : List (Revision × RevisionCitations) → Map ℕ Revision → Map ℕ Revision
by_id [] revisions = revisions
by_id (read ∷ others) revisions = by_id others (insert read.0.revision_id read.0 revisions)

module _ {O : Type 0} (s : Services O) where
  -- A revision and the citations of its text.
  unfoldable pub read_revision : RevisionXml → Result (Revision × RevisionCitations)
  read_revision x = do
    id ← parse_id (concat x.id)
    parent_id ← read_parent x.parent_id
    citations ← s.parse (concat x.text)
    let revision : Revision = record {
      revision_id = id;
      parent_id = parent_id;
      user = user_of x.contributor;
      timestamp = time_of s.timestamp_from x.timestamp;
    } in
        ok (revision, record citations { revision = some revision })

  unfoldable pub read_revisions : List RevisionXml → Result (List (Revision × RevisionCitations))
  unfolding read_revision
  read_revisions [] = ok []
  read_revisions (x ∷ xs) = do
    read ← read_revision x
    others ← read_revisions xs
    ok (read ∷ others)

  -- The citations of the page, from all of its revisions.
  unfoldable pub read_page : PageXml → Result (Page × Map ℕ Revision)
  unfolding read_revisions
  read_page x = do
    id ← parse_id (concat x.id)
    read ← read_revisions x.revisions
    make_page_citation_list s.sort (by_id read []) (map (λ r. r.1) read) []
        (record { page_id = id; title = some (concat x.title); citations = [] })

  -- One page after the other is stored.
  unfoldable pub read_pages : List PageXml → O → Result O
  unfolding read_page
  read_pages [] output = ok output
  read_pages (x ∷ xs) output = do
    (page, to_store) ← read_page x
    read_pages xs (s.store to_store page output)
