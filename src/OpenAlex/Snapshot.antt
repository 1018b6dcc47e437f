-- ===== src/OpenAlex/Snapshot.antt =====
-- The state of the processor of OpenAlex snapshots, the ids seen so far, and its loops
-- (src/openalex/snapshot_processor_impl.cc).
pub mod Post
pub mod Seen
pub mod Covers
pub mod Covered
pub mod WorkIds
pub mod Referenced
mod Frame
pub mod Within
pub mod AnyOrder
use citescoop.Prelude.{
  ℕ, ◌+◌, ◌%◌, ◌++◌, Bool, true, false, ◌==◌, ◌||◌, Option, none, some, List, [], ◌∷◌,
  if◌then◌else◌,
}
use citescoop.Prelude.Text.{Text, codes, text_eq}
use citescoop.Proto.{
  Timestamp, Identifiers, no_identifiers, Author, Institution, Work, oa_category_unspecified,
}
use citescoop.Numbers.{u64_mod}
use citescoop.Result.{Error, Result, ok, err}
use citescoop.Langmap.{iso_to_language}
use citescoop.Io.{Codec, write_message, write_all}
use citescoop.OpenAlex.Works.{member, extract_work}
use citescoop.OpenAlex.{
  JsonLibraries, get_field, string_field, get_author_id, get_institution_id, is_author_empty,
  is_institution_empty, string_to_oa_category, extract_identifiers,
}

-- A method of the processor: it changes the ids seen, and returns or throws.
abbrev pub Step {ℓ} : Type ℓ → Type ℓ
Step A = List Text → List Text × Result A

abbrev pub continue {ℓ κ} :
    {A : Type ℓ} {B : Type κ} → List Text × Result A → (A → Step B) → List Text × Result B
continue (seen, ok a) f = f a seen
continue (seen, err e) f = (seen, err e)

infixl 5 ◌>>=◌
abbrev pub ◌>>=◌ {ℓ κ} : {A : Type ℓ} {B : Type κ} → Step A → (A → Step B) → Step B
(m >>= f) seen = continue (m seen) f

abbrev pub return {ℓ} : {A : Type ℓ} → A → Step A
return a seen = (seen, ok a)

-- A call that does not change the ids.
abbrev pub lift {ℓ} : {A : Type ℓ} → Result A → Step A
lift r seen = (seen, r)

-- What to do for an id, if it was not seen before; it is from then on.
unfoldable pub unless_seen : {A : Type 0} → Text → Step (List A) → Step (List A)
unfolding member
unless_seen id make seen = if member id seen then (seen, ok []) else make (id ∷ seen)

-- What a line gives.
pub record Line : Type 0 where
  pub authors : List Author
  pub institutions : List Institution
  pub work : Work

-- The vectors of ProcessWorksSnapshot.
pub record Snapshot : Type 0 where
  pub authors : List Author
  pub institutions : List Institution
  pub works : List Work

abbrev pub no_records : Snapshot
no_records = record { authors = []; institutions = []; works = [] }

abbrev pub add_line : Line → Snapshot → Snapshot
add_line line snapshot = record {
  authors = snapshot.authors ++ line.authors;
  institutions = snapshot.institutions ++ line.institutions;
  works = snapshot.works ++ line.work ∷ [];
}

-- The lines that std::getline reads of a stream.
unfoldable pub lines_of : Text → List Text
lines_of [] = []
lines_of (c ∷ text) =
    let rest = lines_of text in
    if c == 10
    then [] ∷ rest
    else elim rest [ [] ↦ (c ∷ []) ∷ [] | line ∷ lines ↦ (c ∷ line) ∷ lines ]

-- A loop that collects what its body makes of each value.
unfoldable pub collect : {J A : Type 0} → (J → Step (List A)) → List J → Step (List A)
collect body [] = return []
collect body (value ∷ values) = do
  first ← body value
  others ← collect body values
  return (first ++ others)

module _ (lib : JsonLibraries) where
  unfoldable pub author_message : lib.Json → Text → Step (List Author)
  unfolding string_field
  author_message author author_id = do
    name ← lift (string_field lib author (codes "display_name"))
    orcid ← lift (string_field lib author (codes "orcid"))
    return (record { openalex_id = author_id; name = name; orcid = orcid } ∷ [])

  -- The body of the loop of ExtractAuthors, for one authorship.
  unfoldable pub extract_author : lib.Json → Step (List Author)
  unfolding is_author_empty get_author_id unless_seen author_message
  extract_author authorship = do
    author ← lift (lib.at authorship (codes "author"))
    is_empty ← lift (is_author_empty lib author)
    if is_empty then return [] else (do
      author_id ← lift (get_author_id lib author)
      unless_seen author_id (author_message author author_id))

  unfoldable pub institution_message : lib.Json → Text → Step (List Institution)
  unfolding string_field
  institution_message institution institution_id = do
    name ← lift (string_field lib institution (codes "display_name"))
    ror ← lift (string_field lib institution (codes "ror"))
    return (record { openalex_id = institution_id; name = name; ror = ror } ∷ [])

  -- The body of the inner loop of ExtractInstitutions.
  unfoldable pub extract_institution : lib.Json → Step (List Institution)
  unfolding is_institution_empty get_institution_id unless_seen institution_message
  extract_institution institution = do
    is_empty ← lift (is_institution_empty lib institution)
    if is_empty then return [] else (do
      institution_id ← lift (get_institution_id lib institution)
      unless_seen institution_id (institution_message institution institution_id))

  unfoldable pub extract_authors : lib.Json → Step (List Author)
  unfolding extract_author collect
  extract_authors json = do
    authorships ← lift (lib.at json (codes "authorships"))
    collect extract_author (lib.elements authorships)

  unfoldable pub institutions_of : lib.Json → Step (List Institution)
  unfolding extract_institution collect
  institutions_of authorship = do
    institutions ← lift (lib.at authorship (codes "institutions"))
    collect extract_institution (lib.elements institutions)

  unfoldable pub extract_institutions : lib.Json → Step (List Institution)
  unfolding institutions_of collect
  extract_institutions json = do
    authorships ← lift (lib.at json (codes "authorships"))
    collect institutions_of (lib.elements authorships)

  -- The three calls are the arguments of a constructor, and C++ leaves their order to the
  -- compiler: from the left, or from the right.
  unfoldable pub process_line : Bool → Text → Step Line
  unfolding extract_authors extract_institutions extract_work
  process_line from_left line = do
    json ← lift (lib.parse line)
    if from_left
        then (do
          authors ← extract_authors json
          institutions ← extract_institutions json
          work ← lift (extract_work lib json)
          return (record { authors = authors; institutions = institutions; work = work }))
        else (do
          work ← lift (extract_work lib json)
          institutions ← extract_institutions json
          authors ← extract_authors json
          return (record { authors = authors; institutions = institutions; work = work }))

  -- ProcessWorksSnapshot in memory: an empty line is passed over.
  unfoldable pub process_lines : Bool → List Text → Snapshot → Step Snapshot
  unfolding process_line
  process_lines from_left [] snapshot = return snapshot
  process_lines from_left ([] ∷ lines) snapshot = process_lines from_left lines snapshot
  process_lines from_left ((c ∷ line) ∷ lines) snapshot = do
    read ← process_line from_left (c ∷ line)
    process_lines from_left lines (add_line read snapshot)

  unfoldable pub process_works_snapshot : Bool → Text → Step Snapshot
  unfolding process_lines lines_of
  process_works_snapshot from_left input = process_lines from_left (lines_of input) no_records
