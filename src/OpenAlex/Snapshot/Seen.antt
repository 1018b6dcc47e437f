-- ===== src/OpenAlex/Snapshot/Seen.antt =====
-- Every id is given out once.
use citescoop.Prelude.{◌+◌, ◌≡◌, Bool, List, [], ◌∷◌, map, arith}
use citescoop.Prelude.Text.{Text, codes}
use citescoop.Proto.{Author, Institution}
use citescoop.OpenAlex.{
  JsonLibraries, string_field, get_author_id, get_institution_id, is_author_empty,
  is_institution_empty,
}
use citescoop.OpenAlex.Works.{member, extract_work}
use citescoop.OpenAlex.Snapshot.{
  ◌>>=◌, return, lift, author_message, institution_message, extract_author, extract_institution,
  extract_authors, institutions_of, extract_institutions, Line, Snapshot, no_records, add_line,
  lines_of, process_line, process_lines, process_works_snapshot,
}
use citescoop.OpenAlex.Snapshot.Post.{
  bit, count, count-map-append, Post, Post-bind, Post-lift, Post-if, Post-unless_seen, Added,
  Added-nothing, Added-one, collect-Added,
}

abbrev pub author_id : Author → Text
author_id author = author.openalex_id

abbrev pub institution_id : Institution → Text
institution_id institution = institution.openalex_id

-- The same of the two kinds of values together, which share the ids seen.
abbrev Both : List Text → List Text → List Author → List Institution → Type 0
Both before seen authors institutions =
    (k : Text)
    → count k (map author_id authors)
        + count k (map institution_id institutions)
        + bit (member k before)
      ≡ bit (member k seen)

module _ (lib : JsonLibraries) where
  pub extract_author-Added :
      (authorship : lib.Json) (seen : List Text)
      → Post (Added author_id seen) (extract_author lib authorship seen)
  unfolding extract_author author_message
  extract_author-Added authorship seen =
      Post-lift (Added author_id seen) (lib.at authorship (codes "author")) _ seen (λ author.
        Post-lift (Added author_id seen) (is_author_empty lib author) _ seen (λ is_empty.
          Post-if (Added author_id seen) is_empty _ _ seen (Added-nothing author_id seen) (
            Post-lift (Added author_id seen) (get_author_id lib author) _ seen (λ id.
              Post-unless_seen author_id id (author_message lib author id) seen (λ new.
                Post-lift (Added author_id seen) (string_field lib author (codes "display_name")) _
                  (id ∷ seen)
                  (λ name.
                    Post-lift (Added author_id seen) (string_field lib author (codes "orcid")) _
                      (id ∷ seen)
                      (λ orcid.
                        Added-one author_id seen
                          (record { openalex_id = id; name = name; orcid = orcid }) new)))))))

  pub extract_institution-Added :
      (institution : lib.Json) (seen : List Text)
      → Post (Added institution_id seen) (extract_institution lib institution seen)
  unfolding extract_institution institution_message
  extract_institution-Added institution seen =
      Post-lift (Added institution_id seen) (is_institution_empty lib institution) _ seen
        (λ is_empty.
          Post-if (Added institution_id seen) is_empty _ _ seen (Added-nothing institution_id seen)
            (Post-lift (Added institution_id seen) (get_institution_id lib institution) _ seen
              (λ id.
                Post-unless_seen institution_id id (institution_message lib institution id) seen
                  (λ new.
                    Post-lift (Added institution_id seen)
                      (string_field lib institution (codes "display_name")) _ (id ∷ seen)
                      (λ name.
                        Post-lift (Added institution_id seen)
                          (string_field lib institution (codes "ror")) _ (id ∷ seen)
                          (λ ror.
                            Added-one institution_id seen
                              (record { openalex_id = id; name = name; ror = ror }) new))))))

  pub extract_authors-Added :
      (json : lib.Json) (seen : List Text)
      → Post (Added author_id seen) (extract_authors lib json seen)
  unfolding extract_authors
  extract_authors-Added json seen =
      Post-lift (Added author_id seen) (lib.at json (codes "authorships")) _ seen (λ authorships.
        collect-Added author_id (extract_author lib) extract_author-Added (lib.elements authorships)
          seen)

  pub institutions_of-Added :
      (authorship : lib.Json) (seen : List Text)
      → Post (Added institution_id seen) (institutions_of lib authorship seen)
  unfolding institutions_of
  institutions_of-Added authorship seen =
      Post-lift (Added institution_id seen) (lib.at authorship (codes "institutions")) _ seen
        (λ institutions.
          collect-Added institution_id (extract_institution lib) extract_institution-Added
            (lib.elements institutions) seen)

  pub extract_institutions-Added :
      (json : lib.Json) (seen : List Text)
      → Post (Added institution_id seen) (extract_institutions lib json seen)
  unfolding extract_institutions
  extract_institutions-Added json seen =
      Post-lift (Added institution_id seen) (lib.at json (codes "authorships")) _ seen
        (λ authorships.
          collect-Added institution_id (institutions_of lib) institutions_of-Added
            (lib.elements authorships) seen)

  abbrev LineAdded : List Text → List Text → Line → Type 0
  LineAdded before seen line = Both before seen line.authors line.institutions

  line_from_left :
      (json : lib.Json) (seen : List Text)
      → Post (LineAdded seen) (
          (extract_authors lib json >>= (λ authors.
              extract_institutions lib json >>= (λ institutions.
                lift (extract_work lib json) >>= (λ work.
                  return
                    (record { authors = authors; institutions = institutions; work = work })))))
            seen)
  line_from_left json seen =
      Post-bind (Added author_id seen) (LineAdded seen) (extract_authors lib json seen) _
        (extract_authors-Added json seen)
        (λ authors middle g.
          Post-bind (Added institution_id middle) (LineAdded seen)
            (extract_institutions lib json middle) _ (extract_institutions-Added json middle)
            (λ institutions after h.
              Post-lift (LineAdded seen) (extract_work lib json) _ after
                (λ work k. omega (arith, g k, h k))))

  line_from_right :
      (json : lib.Json) (seen : List Text)
      → Post (LineAdded seen) (
          (lift (extract_work lib json) >>= (λ work.
              extract_institutions lib json >>= (λ institutions.
                extract_authors lib json >>= (λ authors.
                  return
                    (record { authors = authors; institutions = institutions; work = work })))))
            seen)
  line_from_right json seen = Post-lift (LineAdded seen) (extract_work lib json) _ seen (λ work.
      Post-bind (Added institution_id seen) (LineAdded seen) (extract_institutions lib json seen) _
        (extract_institutions-Added json seen)
        (λ institutions middle g.
          Post-bind (Added author_id middle) (LineAdded seen) (extract_authors lib json middle) _
            (extract_authors-Added json middle) (λ authors after h k. omega (arith, g k, h k))))

  process_line-Added :
      (from_left : Bool) (line : Text) (seen : List Text)
      → Post (LineAdded seen) (process_line lib from_left line seen)
  unfolding process_line
  process_line-Added from_left line seen =
      Post-lift (LineAdded seen) (lib.parse line) _ seen (λ json.
        Post-if (LineAdded seen) from_left _ _ seen (line_from_left json seen)
          (line_from_right json seen))

  abbrev SnapshotAdded : List Text → List Text → Snapshot → Type 0
  SnapshotAdded before seen s = Both before seen s.authors s.institutions

  add_line-Added :
      (before seen after : List Text) (line : Line) (s : Snapshot)
      → SnapshotAdded before seen s
      → LineAdded seen after line
      → SnapshotAdded before after (add_line line s)
  add_line-Added before seen after line s g h k = omega (
    arith,
    g k,
    h k,
    count-map-append author_id k s.authors line.authors,
    count-map-append institution_id k s.institutions line.institutions,
  )

  process_lines-Added :
      (from_left : Bool) (lines : List Text) (s : Snapshot) (before seen : List Text)
      → SnapshotAdded before seen s
      → Post (SnapshotAdded before) (process_lines lib from_left lines s seen)
  unfolding process_lines
  process_lines-Added from_left [] s before seen h = h
  process_lines-Added from_left ([] ∷ lines) s before seen h =
      process_lines-Added from_left lines s before seen h
  process_lines-Added from_left ((c ∷ line) ∷ lines) s before seen h =
      Post-bind (LineAdded seen) (SnapshotAdded before) (process_line lib from_left (c ∷ line) seen)
        _ (process_line-Added from_left (c ∷ line) seen)
        (λ read after g.
          process_lines-Added from_left lines (add_line read s) before after
            (add_line-Added before seen after read s h g))

  -- Where a snapshot is processed without an exception, in either order of the extractions, every
  -- id that was not seen before and was seen after is the id of just one author or institution
  -- returned; an id seen before, and one that was not seen after, is the id of none.
  pub process_works_snapshot-once :
      (from_left : Bool) (input : Text) (before : List Text)
      → Post
          (λ seen s.
            (k : Text)
            → count k (map author_id s.authors)
                + count k (map institution_id s.institutions)
                + bit (member k before)
              ≡ bit (member k seen))
          (process_works_snapshot lib from_left input before)
  unfolding process_works_snapshot
  process_works_snapshot-once from_left input before =
      process_lines-Added from_left (lines_of input) no_records before before (λ k. omega arith)
