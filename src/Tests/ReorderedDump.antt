-- ===== src/Tests/ReorderedDump.antt =====
-- A dump whose page has its revisions in two orders.
use mathlib.Core.List.{Permᴰ, Pairwise}
use mathlib.Core.Bool.{Bool-set}
use citescoop.Prelude.{◌≡◌, false, refl, some, List, [], ◌∷◌, map}
use citescoop.Prelude.Text.{codes, text_eq}
use citescoop.Proto.{Revision, RevisionCitations}
use citescoop.Result.{ok}
use citescoop.Dump.Citations.{earlier}
use citescoop.Dump.Citations.Reordered.{DistinctTimes}
use citescoop.Dump.Handlers.{parse_id, characters, is_field}
use citescoop.Dump.Extract.Significant.{is_known, opened, counts, significant}
use citescoop.Dump.Run.{store_in_memory}
use citescoop.Dump.Run.RevisionElement.{RevisionXml}
use citescoop.Dump.Extract.{parse_xml, services}
use citescoop.Dump.Extract.AnyOrder.{DistinctIds, SameHistories, parse_xml-reordered}
use citescoop.Dump.Extract.Pages.{PageXml, dump_events, read_revisions}
use citescoop.Tests.DumpPages.{newer, older, read_older}
use citescoop.Tests.Reordering.{All-Mem, insertion_sort-SortOrderLaws}
use citescoop.Tests.Samples.{calls, extracted, insertion_sort-SortLaws}

abbrev engines : List RevisionXml → PageXml
engines revisions = record {
  title = codes "Engines" ∷ [];
  id = codes "5" ∷ [];
  revisions = revisions;
}

-- Both are read, the newer one first.
abbrev read_newer : Revision
read_newer = record {
  revision_id = 8;
  parent_id = some 7;
  user = some (codes "Ada L");
  timestamp = some (calls.timestamp_from (codes "later"));
}

abbrev read : List (Revision × RevisionCitations)
read =
    (
      read_newer,
      record {
        revision = some read_newer;
        citations = (codes "New", extracted (codes "New")) ∷ [];
      },
    )
    ∷ (
      read_older,
      record {
        revision = some read_older;
        citations = (codes "Old", extracted (codes "Old")) ∷ [];
      },
    )
    ∷ []

both_read : read_revisions (services store_in_memory calls) (newer ∷ older ∷ []) ≡ ok read
unfolding read_revisions parse_id
both_read = refl

read-DistinctIds : DistinctIds read
read-DistinctIds =
    Pairwise.cons (All-Mem _ (λ b. Bool-set _ _) _ (refl, tt))
      (Pairwise.cons (All-Mem _ (λ b. Bool-set _ _) [] tt) Pairwise.nil)

read-DistinctTimes : DistinctTimes (map (λ r. r.1) read)
unfolding earlier
read-DistinctTimes =
    Pairwise.cons (All-Mem _ (λ b. Bool-set _ _) _ (refl, tt))
      (Pairwise.cons (All-Mem _ (λ b. Bool-set _ _) [] tt) Pairwise.nil)

engines-SameHistories :
    SameHistories
      (services store_in_memory calls)
      (engines (newer ∷ older ∷ []) ∷ [])
      (engines (older ∷ newer ∷ []) ∷ [])
unfolding SameHistories
engines-SameHistories = (
  record {
    same_title = refl;
    same_id = refl;
    permuted = Permᴰ.swap refl refl;
    read = read;
    reads = both_read;
    distinct_ids = read-DistinctIds;
    distinct_times = read-DistinctTimes;
  },
  tt,
)

plain_engines :
    significant false (dump_events (engines (newer ∷ older ∷ []) ∷ []))
    ≡ dump_events (engines (newer ∷ older ∷ []) ∷ [])
unfolding significant opened counts is_known is_field text_eq
plain_engines = refl

-- The same in the other order, with a text before the page.
spaced_engines :
    significant false (characters (codes " ") ∷ dump_events (engines (older ∷ newer ∷ []) ∷ []))
    ≡ dump_events (engines (older ∷ newer ∷ []) ∷ [])
unfolding significant opened counts is_known is_field text_eq
spaced_engines = refl

parse_xml-reordered_example :
    parse_xml calls (dump_events (engines (newer ∷ older ∷ []) ∷ []))
    ≡ parse_xml calls (characters (codes " ") ∷ dump_events (engines (older ∷ newer ∷ []) ∷ []))
parse_xml-reordered_example =
    parse_xml-reordered calls insertion_sort-SortLaws insertion_sort-SortOrderLaws
      (dump_events (engines (newer ∷ older ∷ []) ∷ []))
      (characters (codes " ") ∷ dump_events (engines (older ∷ newer ∷ []) ∷ []))
      (engines (newer ∷ older ∷ []) ∷ []) (engines (older ∷ newer ∷ []) ∷ []) plain_engines
      spaced_engines engines-SameHistories
