-- ===== src/Dump/Extract/Streaming.antt =====
-- The streaming parser writes what the parser in memory returns.
use mathlib.Core.List.{foldl, foldl-append, append-nil, append_assoc, map-append}
use citescoop.Prelude.{
  ℕ, ◌+◌, ◌%◌, ◌<◌, ◌≡◌, refl, sym, ap, ◌∙◌, List, [], ◌∷◌, ◌++◌, map, arith, length, length-append,
}
use citescoop.Proto.{Revision, Page}
use citescoop.StdMap.{Map, find, or_else, find-insert_range, find-append}
use citescoop.StdMap.Keys.{number_ord}
use citescoop.Numbers.{u64_mod}
use citescoop.Io.{Codec, write_message, write_all}
use citescoop.Io.RoundTrip.{write_all-append_list}
use citescoop.Dump.State.{new_parser}
use citescoop.Dump.Handlers.{Event}
use citescoop.Dump.Run.{start_parser, Stored, store_in_memory}
use citescoop.Dump.Run.Output.{with_output, run-with_output}
use citescoop.Dump.Extract.{Calls, services, Streams, write_revisions, store_streaming}

-- Everything that was given to Store, in order.
abbrev pub Log : Type 0
Log = List (Map ℕ Revision × Page)

abbrev pub keep_log : Map ℕ Revision → Page → Log → Log
keep_log to_store page log = log ++ (to_store, page) ∷ []

-- What a Store makes of it.
abbrev pub replay : {O : Type 0} → (Map ℕ Revision → Page → O → O) → O → Log → O
replay store = foldl (λ o entry. store entry.0 entry.1 o)

pub start_parser-log :
    {O : Type 0} (store : Map ℕ Revision → Page → O → O) (c : Calls) (events : List Event) (o : O)
    → start_parser (services store c) events o ≡ (
      with_output (replay store o) (start_parser (services keep_log c) events []).0,
      (start_parser (services keep_log c) events []).1,
    )
unfolding start_parser new_parser
start_parser-log store c events o =
    run-with_output (services keep_log c) store (replay store o)
      (λ to_store page log. rw foldl-append) events (new_parser [])

pub pages_of : Log → List Page
pages_of = map (λ entry. entry.1)

pub entries_of : Log → Map ℕ Revision
entries_of [] = []
entries_of ((to_store, page) ∷ log) = to_store ++ entries_of log

abbrev pub revisions_of : Map ℕ Revision → List Revision
revisions_of = map (λ entry. entry.1)

pub in_memory-pages :
    (log : Log) (o : Stored) → (replay store_in_memory o log).pages ≡ o.pages ++ pages_of log
unfolding store_in_memory pages_of
in_memory-pages [] o = sym (append-nil o.pages)
in_memory-pages ((to_store, page) ∷ log) o =
    in_memory-pages log (store_in_memory to_store page o)
    ∙ append_assoc o.pages (page ∷ []) (pages_of log)

pub in_memory-revisions :
    (log : Log) (o : Stored) (id : ℕ)
    → find (replay store_in_memory o log).revisions id
      ≡ or_else (find o.revisions id) (find (entries_of log) id)
unfolding store_in_memory entries_of find
in_memory-revisions [] o id = ground arith
in_memory-revisions ((to_store, page) ∷ log) o id = ground (
  arith,
  in_memory-revisions log (store_in_memory to_store page o) id,
  find-insert_range to_store o.revisions id,
  find-append to_store (entries_of log) id,
)

module _ (pages : Codec Page) (revisions : Codec Revision) where
  -- The streams after some messages, counted modulo 2 ^ 64.
  pub record Wrote (ps : List Page) (rs : List Revision) (before after : Streams) : Type 0 where
    pub pages_output : after.pages_output ≡ write_all pages ps before.pages_output
    pub revisions_output : after.revisions_output ≡ write_all revisions rs before.revisions_output
    pub pages_written : after.pages_written ≡ (before.pages_written + length ps) % u64_mod
    pub revisions_written :
        after.revisions_written ≡ (before.revisions_written + length rs) % u64_mod

  abbrev pub IsCounting : Streams → Type 0
  IsCounting o = (o.pages_written < u64_mod) × (o.revisions_written < u64_mod)

  write_revisions-Wrote :
      (m : Map ℕ Revision) (o : Streams)
      → IsCounting o
      → Wrote [] (revisions_of m) o (write_revisions pages revisions m o)
  unfolding write_revisions write_all
  write_revisions-Wrote [] o h = record {
    pages_output = refl;
    revisions_output = refl;
    pages_written = omega arith;
    revisions_written = omega arith;
  }
  write_revisions-Wrote ((id, r) ∷ m) o h =
      let o' : Streams = record o {
        revisions_output = (write_message revisions r o.revisions_output).0;
        revisions_written = (o.revisions_written + 1) % u64_mod;
      } in
      let w = write_revisions-Wrote m o' (h.0, omega arith) in
      record {
        pages_output = w.pages_output;
        revisions_output = w.revisions_output;
        pages_written = w.pages_written;
        revisions_written = w.revisions_written ∙ omega arith;
      }

  store-Wrote :
      (to_store : Map ℕ Revision) (page : Page) (o : Streams)
      → IsCounting o
      → Wrote
          (page ∷ [])
          (revisions_of to_store)
          o
          (store_streaming pages revisions to_store page o)
  unfolding store_streaming write_all
  store-Wrote to_store page o h =
      let o' : Streams = record o {
        pages_output = (write_message pages page o.pages_output).0;
        pages_written = (o.pages_written + 1) % u64_mod;
      } in
      let w = write_revisions-Wrote to_store o' (omega arith, h.1) in
      record {
        pages_output = w.pages_output;
        revisions_output = w.revisions_output;
        pages_written = w.pages_written ∙ omega arith;
        revisions_written = w.revisions_written;
      }

  Wrote-IsCounting :
      (ps : List Page) (rs : List Revision) (o o' : Streams) → Wrote ps rs o o' → IsCounting o'
  Wrote-IsCounting ps rs o o' w =
      (omega (arith, w.pages_written), omega (arith, w.revisions_written))

  Wrote-trans :
      (ps qs : List Page) (rs ts : List Revision) (o o' o'' : Streams)
      → Wrote ps rs o o'
      → Wrote qs ts o' o''
      → Wrote (ps ++ qs) (rs ++ ts) o o''
  Wrote-trans ps qs rs ts o o' o'' v w = record {
    pages_output =
        w.pages_output
        ∙ ap (write_all pages qs) v.pages_output
        ∙ sym (write_all-append_list pages ps qs o.pages_output);
    revisions_output =
        w.revisions_output
        ∙ ap (write_all revisions ts) v.revisions_output
        ∙ sym (write_all-append_list revisions rs ts o.revisions_output);
    pages_written = omega (arith, w.pages_written, v.pages_written, length-append ps qs);
    revisions_written =
        omega (arith, w.revisions_written, v.revisions_written, length-append rs ts);
  }

  pub streaming-Wrote :
      (log : Log) (o : Streams)
      → IsCounting o
      → Wrote
          (pages_of log)
          (revisions_of (entries_of log))
          o
          (replay (store_streaming pages revisions) o log)
  unfolding pages_of entries_of write_all
  streaming-Wrote [] o h = record {
    pages_output = refl;
    revisions_output = refl;
    pages_written = omega arith;
    revisions_written = omega arith;
  }
  streaming-Wrote ((to_store, page) ∷ log) o h =
      let o' = store_streaming pages revisions to_store page o in
      let first = store-Wrote to_store page o h in
      rw (map-append) (
        Wrote-trans (page ∷ []) (pages_of log) (revisions_of to_store)
          (revisions_of (entries_of log)) o o' _ first
          (streaming-Wrote log o' (Wrote-IsCounting _ _ o o' first)))

  -- What one parse leaves in memory and another of the same events leaves in its streams.
  pub record Agrees (stored : Stored) (before after : Streams) : Type 0 where
    pub entries : Map ℕ Revision
    pub same_revisions : (id : ℕ) → find stored.revisions id ≡ find entries id
    pub wrote : Wrote stored.pages (revisions_of entries) before after
