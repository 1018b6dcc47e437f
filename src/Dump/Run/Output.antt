-- ===== src/Dump/Run/Output.antt =====
-- The method Store is the only use that a parse makes of its output, so parsers that differ in
-- Store alone go through the same states and end with the same exception.
use citescoop.Prelude.{ℕ, ◌≡◌, refl, ap, inl, inr, List, [], ◌∷◌, arith}
use citescoop.Prelude.Text.{Text}
use citescoop.Proto.{Revision, Page}
use citescoop.Result.{Result, ok, err, ◌>>=◌, Result-cases}
use citescoop.StdMap.{Map}
use citescoop.Dump.Citations.{make_page_citation_list}
use citescoop.Dump.State.{DumpParser, Services}
use citescoop.Dump.Handlers.{
  Event, start_element, end_element, characters, on_start_element, on_characters, on_end_page,
  on_end_revision, on_end_field, end_branch, stop_storing, on_end_element, handle,
}
use citescoop.Dump.Run.{run}

-- The same parser with another output.
abbrev pub with_output : {O P : Type 0} → (O → P) → DumpParser O → DumpParser P
with_output h p = record {
  in_page = p.in_page;
  in_revision = p.in_revision;
  in_contributor = p.in_contributor;
  should_store = p.should_store;
  text_buf = p.text_buf;
  citations_by_revision = p.citations_by_revision;
  current_citations = p.current_citations;
  current_page = p.current_page;
  current_revision = p.current_revision;
  current_page_revisions = p.current_page_revisions;
  revisions_to_store = p.revisions_to_store;
  output = h p.output;
}

abbrev map_result : {A B : Type 0} → (A → B) → Result A → Result B
map_result f (ok a) = ok (f a)
map_result f (err x) = err x

-- The same services with another Store.
abbrev pub with_store : {O P : Type 0} → (Map ℕ Revision → Page → P → P) → Services O → Services P
with_store store s = record {
  parse = s.parse;
  sort = s.sort;
  timestamp_from = s.timestamp_from;
  store = store;
}

bind-map_result :
    {A B C : Type 0} (m : Result A) (f : A → Result C) (g : A → Result B) (h : B → C)
    → ((a : A) → f a ≡ map_result h (g a))
    → (m >>= f) ≡ map_result h (m >>= g)
bind-map_result (ok a) f g h e = e a
bind-map_result (err x) f g h e = refl

module _ {O P : Type 0} (s : Services O) (store : Map ℕ Revision → Page → P → P) (h : O → P)
    (translates : (revisions : Map ℕ Revision) (page : Page) (o : O)
      → h (s.store revisions page o) ≡ store revisions page (h o)) where
  abbrev t : Services P
  t = with_store store s

  on_end_field-with_output :
      (name : Text) (p : DumpParser O)
      → on_end_field t name (with_output h p) ≡ map_result (with_output h) (on_end_field s name p)
  unfolding on_end_field
  on_end_field-with_output name p = ground arith

  on_end_page-with_output :
      (p : DumpParser O)
      → on_end_page t (with_output h p) ≡ map_result (with_output h) (on_end_page s p)
  unfolding on_end_page
  on_end_page-with_output p =
      bind-map_result
        (make_page_citation_list s.sort p.current_page_revisions p.citations_by_revision
          p.revisions_to_store p.current_page)
        _ _ (with_output h) λ (page, to_store). cc (translates to_store page p.output)

  end_branch-with_output :
      (name : Text) (p : DumpParser O)
      → end_branch t name (with_output h p) ≡ map_result (with_output h) (end_branch s name p)
  unfolding end_branch on_end_revision
  end_branch-with_output name p =
      ground (arith, on_end_field-with_output name p, on_end_page-with_output p)

  on_start_element-with_output :
      (name : Text) (p : DumpParser O)
      → on_start_element name (with_output h p) ≡ with_output h (on_start_element name p)
  unfolding on_start_element
  on_start_element-with_output name p = ground arith

  bind-stop_storing :
      (m : Result (DumpParser O)) (n : Result (DumpParser P))
      → n ≡ map_result (with_output h) m
      → (n >>= λ q. ok (stop_storing q))
        ≡ map_result (with_output h) (m >>= λ q. ok (stop_storing q))
  bind-stop_storing m n e = ground arith

  handle-with_output :
      (e : Event) (p : DumpParser O)
      → handle t e (with_output h p) ≡ map_result (with_output h) (handle s e p)
  unfolding handle on_end_element on_characters
  handle-with_output (start_element name) p = ap ok (on_start_element-with_output name p)
  handle-with_output (end_element name) p =
      bind-stop_storing (end_branch s name p) _ (end_branch-with_output name p)
  handle-with_output (characters text) p = ground arith
  handle-with_output _ p = refl

  pub run-with_output :
      (es : List Event) (p : DumpParser O)
      → run t es (with_output h p) ≡ (with_output h (run s es p).0, (run s es p).1)
  unfolding run
  run-with_output [] p = refl
  run-with_output (e ∷ es) p = elim (Result-cases (handle s e p)) [
    | inl (q, fine) ↦ ground (arith, handle-with_output e p, fine, run-with_output es q)
    | inr (x, thrown) ↦ ground (arith, handle-with_output e p, thrown)
  ]
