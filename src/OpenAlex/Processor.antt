-- ===== src/OpenAlex/Processor.antt =====
-- The public class of the processor of snapshots (src/openalex/snapshot_processor.cc), and what it
-- does with one snapshot after the other.
use citescoop.Prelude.{ℕ, ◌+◌, ◌≤◌, ◌≡◌, Bool, List, [], ◌∷◌, map, arith}
use citescoop.Prelude.Text.{Text}
use citescoop.OpenAlex.{JsonLibraries}
use citescoop.OpenAlex.Works.{member}
use citescoop.OpenAlex.Snapshot.{Step, ◌>>=◌, return, Snapshot, process_works_snapshot}
use citescoop.OpenAlex.Streams.{Codecs, Ended, stream_works_snapshot}
use citescoop.OpenAlex.Snapshot.Post.{bit, count, Post, Post-bind}
use citescoop.OpenAlex.Snapshot.Seen.{author_id, institution_id, process_works_snapshot-once}
use citescoop.OpenAlex.Snapshot.Covers.{Post-weaken}

-- SnapshotProcessor::SnapshotProcessor: no id was seen.
unfoldable pub new_processor : List Text
new_processor = []

-- How many records of the snapshot have the id.
abbrev pub records_of : Text → Snapshot → ℕ
records_of k s = count k (map author_id s.authors) + count k (map institution_id s.institutions)

abbrev pub records_of_all : Text → List Snapshot → ℕ
records_of_all k [] = 0
records_of_all k (s ∷ others) = records_of k s + records_of_all k others

one_at_most : (b : Bool) → bit b ≤ 1
one_at_most b = ground arith

module _ (lib : JsonLibraries) (from_left : Bool) where
  unfoldable pub processor_process : Text → Step Snapshot
  unfolding process_works_snapshot
  processor_process input = process_works_snapshot lib from_left input

  unfoldable pub processor_process_streaming :
      Codecs → Text → Text → Text → Text → List Text → Ended
  unfolding stream_works_snapshot
  processor_process_streaming c input authors institutions works =
      stream_works_snapshot lib c from_left input authors institutions works

  -- The calls of a processor for one input after the other.
  unfoldable pub process_all : List Text → Step (List Snapshot)
  unfolding processor_process
  process_all [] = return []
  process_all (input ∷ inputs) = do
    first ← processor_process input
    others ← process_all inputs
    return (first ∷ others)

  process_all-Added :
      (inputs : List Text) (before : List Text)
      → Post
          (λ seen all.
            (k : Text) → records_of_all k all + bit (member k before) ≡ bit (member k seen))
          (process_all inputs before)
  unfolding process_all processor_process
  process_all-Added [] before = λ k. omega arith
  process_all-Added (input ∷ inputs) before =
      Post-bind
        (λ seen s. (k : Text) → records_of k s + bit (member k before) ≡ bit (member k seen))
        (λ seen all.
          (k : Text) → records_of_all k all + bit (member k before) ≡ bit (member k seen))
        (process_works_snapshot lib from_left input before) _
        (process_works_snapshot-once lib from_left input before)
        λ s middle g.
          Post-bind
            (λ seen all.
              (k : Text) → records_of_all k all + bit (member k middle) ≡ bit (member k seen))
            (λ seen all.
              (k : Text) → records_of_all k all + bit (member k before) ≡ bit (member k seen))
            (process_all inputs middle) _ (process_all-Added inputs middle)
            λ all after h k. omega (arith, g k, h k)

  -- Where a new processor processes snapshots one after the other without an exception, no id is
  -- that of two authors or institutions that it returns, in one snapshot or in two.
  pub process_all-once :
      (inputs : List Text)
      → Post (λ seen all. (k : Text) → records_of_all k all ≤ 1) (process_all inputs new_processor)
  unfolding new_processor
  process_all-once inputs =
      Post-weaken
        (λ seen all. (k : Text) → records_of_all k all + bit (member k []) ≡ bit (member k seen))
        (λ seen all. (k : Text) → records_of_all k all ≤ 1) (process_all inputs [])
        (λ seen all h k. omega (arith, h k, one_at_most (member k seen)))
        (process_all-Added inputs [])
