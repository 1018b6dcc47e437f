-- ===== src/OpenAlex/Snapshot/Referenced.antt =====
-- Every id that a work of a snapshot names is that of an author or institution of the snapshot.
use citescoop.Prelude.{
  ◌+◌, ◌≡◌, refl, subst, Bool, true, List, [], ◌∷◌, map, arith, All, All-weaken, All-append,
}
use citescoop.Prelude.Text.{Text}
use citescoop.Proto.{Work}
use citescoop.Result.{Result, ok, err, IfReturns}
use citescoop.OpenAlex.{JsonLibraries}
use citescoop.OpenAlex.Works.{member, extract_work}
use citescoop.OpenAlex.Snapshot.{
  Step, continue, extract_authors, extract_institutions, Line, Snapshot, no_records, add_line,
  lines_of, process_line, process_lines, process_works_snapshot,
}
use citescoop.OpenAlex.Snapshot.Post.{bit, count, Post, Post-bind, Post-lift, Post-if, Added}
use citescoop.OpenAlex.Snapshot.Seen.{
  author_id, institution_id, extract_authors-Added, extract_institutions-Added,
  process_works_snapshot-once,
}
use citescoop.OpenAlex.Snapshot.Covers.{Grows, Added-Grows, Post-and, Post-weaken}
use citescoop.OpenAlex.Snapshot.Covered.{
  AllAuthorsIn, AllInstitutionsIn, AllAuthorsIn-Grows, AllInstitutionsIn-Grows,
  extract_authors-AllAuthorsIn, extract_institutions-AllInstitutionsIn,
}
use citescoop.OpenAlex.Snapshot.WorkIds.{WorkKnown, extract_work-Known}

-- A call that does not change the ids, with what it returned.
Post-lift_at :
    {A B : Type 0} (Q : List Text → B → Type 0) (r : Result A) (k : A → Step B) (seen : List Text)
    → ((a : A) → r ≡ ok a → Post Q (k a seen))
    → Post Q (continue (seen, r) k)
Post-lift_at Q (ok a) k seen go = go a refl
Post-lift_at Q (err e) k seen go = tt

at_value : {A : Type 0} (P : A → Type 0) (m : Result A) (a : A) → m ≡ ok a → IfReturns m P → P a
at_value P (ok b) a e h = subst P (cc) h
at_value P (err x) a e h = cc

-- The id is that of just one author or institution.
abbrev pub GivenOut : Snapshot → Text → Type 0
GivenOut s id =
    count id (map author_id s.authors) + count id (map institution_id s.institutions) ≡ 1

abbrev pub WorksReferToRecords : Snapshot → Type 0
WorksReferToRecords s =
    All (λ work. All (GivenOut s) work.author_ids × All (GivenOut s) work.institution_ids) s.works

module _ (lib : JsonLibraries) where
  -- The ids of the work of the line were seen, and no id was forgotten.
  abbrev LineKnown : List Text → List Text → Line → Type 0
  LineKnown before seen line = WorkKnown lib seen line.work × Grows before seen

  authors_step :
      (json : lib.Json) (seen : List Text)
      → Post
          (λ after xs. AllAuthorsIn lib after json × Added author_id seen after xs)
          (extract_authors lib json seen)
  authors_step json seen =
      Post-and (λ after xs. AllAuthorsIn lib after json) (Added author_id seen)
        (extract_authors lib json seen) (extract_authors-AllAuthorsIn lib json seen)
        (extract_authors-Added lib json seen)

  institutions_step :
      (json : lib.Json) (seen : List Text)
      → Post
          (λ after xs. AllInstitutionsIn lib after json × Added institution_id seen after xs)
          (extract_institutions lib json seen)
  institutions_step json seen =
      Post-and (λ after xs. AllInstitutionsIn lib after json) (Added institution_id seen)
        (extract_institutions lib json seen) (extract_institutions-AllInstitutionsIn lib json seen)
        (extract_institutions-Added lib json seen)

  known_work :
      (json : lib.Json) (seen : List Text) (work : Work)
      → extract_work lib json ≡ ok work
      → AllAuthorsIn lib seen json
      → AllInstitutionsIn lib seen json
      → WorkKnown lib seen work
  known_work json seen work e h i =
      at_value (WorkKnown lib seen) (extract_work lib json) work e
        (extract_work-Known lib seen json h i)

  process_line-Known :
      (from_left : Bool) (line : Text) (seen : List Text)
      → Post (LineKnown seen) (process_line lib from_left line seen)
  unfolding process_line
  process_line-Known from_left line seen =
      Post-lift (LineKnown seen) (lib.parse line) _ seen (λ json.
        Post-if (LineKnown seen) from_left _ _ seen
          (Post-bind (λ after xs. AllAuthorsIn lib after json × Added author_id seen after xs)
            (LineKnown seen) (extract_authors lib json seen) _ (authors_step json seen)
            λ authors middle (a, g).
              Post-bind
                (λ after xs.
                  AllInstitutionsIn lib after json × Added institution_id middle after xs)
                (LineKnown seen) (extract_institutions lib json middle) _
                (institutions_step json middle)
                λ institutions after (i, h).
                  let grows = Added-Grows institution_id middle after institutions h in
                  Post-lift_at (LineKnown seen) (extract_work lib json) _ after λ work e. (
                    known_work json after work e (AllAuthorsIn-Grows lib middle after json grows a)
                        i,
                    λ k there. grows k (Added-Grows author_id seen middle authors g k there),
                  ))
          (Post-lift_at (LineKnown seen) (extract_work lib json) _ seen λ work e.
            Post-bind
              (λ after xs. AllInstitutionsIn lib after json × Added institution_id seen after xs)
              (LineKnown seen) (extract_institutions lib json seen) _ (institutions_step json seen)
              λ institutions middle (i, g).
                Post-bind
                  (λ after xs. AllAuthorsIn lib after json × Added author_id middle after xs)
                  (LineKnown seen) (extract_authors lib json middle) _ (authors_step json middle)
                  λ authors after (a, h).
                    let grows = Added-Grows author_id middle after authors h in
                    (
                      known_work json after work e a
                          (AllInstitutionsIn-Grows lib middle after json grows i),
                      λ k there.
                          grows k (Added-Grows institution_id seen middle institutions g k there),
                    )))

  abbrev WorksKnown : List Text → Snapshot → Type 0
  WorksKnown seen s = All (WorkKnown lib seen) s.works

  WorkKnown-Grows :
      (seen after : List Text) (work : Work)
      → Grows seen after
      → WorkKnown lib seen work
      → WorkKnown lib after work
  WorkKnown-Grows seen after work grows h =
      (All-weaken _ _ work.author_ids grows h.0, All-weaken _ _ work.institution_ids grows h.1)

  process_lines-Known :
      (from_left : Bool) (lines : List Text) (s : Snapshot) (seen : List Text)
      → WorksKnown seen s
      → Post WorksKnown (process_lines lib from_left lines s seen)
  unfolding process_lines
  process_lines-Known from_left [] s seen h = h
  process_lines-Known from_left ([] ∷ lines) s seen h = process_lines-Known from_left lines s seen h
  process_lines-Known from_left ((c ∷ line) ∷ lines) s seen h =
      Post-bind (LineKnown seen) WorksKnown (process_line lib from_left (c ∷ line) seen) _
        (process_line-Known from_left (c ∷ line) seen)
        λ read after (work, grows). process_lines-Known from_left lines (add_line read s) after (
          All-append (WorkKnown lib after) s.works (read.work ∷ [])
            (All-weaken _ _ s.works (λ w. WorkKnown-Grows seen after w grows) h) (work, tt))

  abbrev Once : List Text → Snapshot → Type 0
  Once seen s =
      (k : Text)
      → count k (map author_id s.authors)
          + count k (map institution_id s.institutions)
          + bit (member k [])
        ≡ bit (member k seen)

  given_out :
      (seen : List Text) (s : Snapshot)
      → Once seen s
      → (id : Text) → member id seen ≡ true
      → GivenOut s id
  unfolding member
  given_out seen s once id h = ground (arith, once id, h)

  -- Where a new processor processes a snapshot without an exception, in either order of the
  -- extractions, every id of an author or an institution that a work names is the id of just one
  -- author or institution that is returned.
  pub process_works_snapshot-WorksReferToRecords :
      (from_left : Bool) (input : Text)
      → Post (λ seen s. WorksReferToRecords s) (process_works_snapshot lib from_left input [])
  unfolding process_works_snapshot
  process_works_snapshot-WorksReferToRecords from_left input =
      Post-weaken (λ seen s. Once seen s × WorksKnown seen s) (λ seen s. WorksReferToRecords s)
        (process_works_snapshot lib from_left input [])
        (λ seen s (once, works).
          All-weaken _ _ s.works
            (λ work (a, i). (
              All-weaken _ _ work.author_ids (given_out seen s once) a,
              All-weaken _ _ work.institution_ids (given_out seen s once) i,
            ))
            works)
        (Post-and Once WorksKnown (process_works_snapshot lib from_left input [])
          (process_works_snapshot-once lib from_left input [])
          (process_lines-Known from_left (lines_of input) no_records [] tt))
