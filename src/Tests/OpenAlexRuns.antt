-- ===== src/Tests/OpenAlexRuns.antt =====
-- The processor of OpenAlex snapshots on a line.
use citescoop.Prelude.{
  ◌≤◌, ◌+◌, ◌≤◌, ◌≡◌, refl, Bool, true, false, ◌||◌, drop, none, some, List, [], ◌∷◌, map, arith,
  if◌then◌else◌, Bool-cases, inl, inr,
}
use citescoop.Prelude.Int.{pos}
use citescoop.Prelude.Text.{Text, codes, text_eq}
use citescoop.Proto.{Work, no_identifiers, oa_category_gold}
use citescoop.Result.{Result, ok, err, foreign, IfReturns, Returns}
use citescoop.Io.{Codec}
use citescoop.OpenAlex.{
  JsonLibraries, has_string, get_author_id, get_institution_id, is_institution_empty,
  is_author_empty,
}
use citescoop.OpenAlex.Works.{member, extract_work}
use citescoop.OpenAlex.Works.Distinct.{extract_work-distinct}
use citescoop.OpenAlex.Ids.{
  JsonLaws, DocumentedId, get_author_id-Returns, get_institution_id-Returns,
}
use citescoop.OpenAlex.Processor.{new_processor, records_of_all, process_all, process_all-once}
use citescoop.OpenAlex.Snapshot.Referenced.{
  WorksReferToRecords, process_works_snapshot-WorksReferToRecords,
}
use citescoop.OpenAlex.Snapshot.{Snapshot, extract_author, process_works_snapshot}
use citescoop.OpenAlex.Snapshot.Post.{Post, count, bit}
use citescoop.OpenAlex.Snapshot.Seen.{author_id, institution_id, process_works_snapshot-once}
use citescoop.OpenAlex.Streams.{Codecs, stream_works_snapshot}
use citescoop.OpenAlex.Streams.Agreement.{SameEnd, stream_works_snapshot-SameEnd}
use citescoop.Tests.ParserRuns.{erase_first}

-- A JSON value: null, a string, or the entries of an object or of an array, whose keys do not
-- count.
pub data Json : Type 0 where
  null : Json
  string : Text → Json
  entry : Text → Json → Json → Json

abbrev pub json_contains : Json → Text → Bool
json_contains null key = false
json_contains (string t) key = false
json_contains (entry k v rest) key = text_eq k key || json_contains rest key

abbrev pub json_at : Json → Text → Result Json
json_at null key = err foreign
json_at (string t) key = err foreign
json_at (entry k v rest) key = let later = json_at rest key in if text_eq k key then ok v else later

abbrev pub json_is_string : Json → Bool
json_is_string null = false
json_is_string (string t) = true
json_is_string (entry k v rest) = false

abbrev pub json_get_string : Json → Result Text
json_get_string null = err foreign
json_get_string (string t) = ok t
json_get_string (entry k v rest) = err foreign

abbrev pub json_elements : Json → List Json
json_elements null = []
json_elements (string t) = string t ∷ []
json_elements (entry k v rest) = v ∷ json_elements rest

abbrev pub text_entry : Text → Text → Json → Json
text_entry k t rest = entry k (string t) rest

abbrev pub institution : Json
institution = text_entry (codes "ror") (codes "R") null

abbrev pub orcid_author : Json
orcid_author = text_entry (codes "orcid") (codes "O") null

abbrev pub named_author : Json
named_author = text_entry (codes "display_name") (codes "Ada") null

abbrev pub authorship_of : Json → Json
authorship_of author =
    entry (codes "author") author
      (entry (codes "institutions") (entry [] institution (entry [] institution null)) null)

-- A work of two authors at the same institution.
abbrev pub work : Json
work = text_entry (codes "id") (codes "https://openalex.org/W1") (
    entry (codes "open_access")
      (text_entry (codes "oa_status") (codes "gold") (entry (codes "oa_url") null null))
      (entry (codes "authorships")
        (entry [] (authorship_of named_author) (entry [] (authorship_of orcid_author) null))
        (entry (codes "ids") null null)))

abbrev pub json_libraries : JsonLibraries
json_libraries = record {
  Json = Json;
  parse = λ text. ok work;
  contains = json_contains;
  at = json_at;
  is_string = json_is_string;
  get_string = json_get_string;
  elements = json_elements;
  erase_first_copy = erase_first;
  timestamp_from = λ text. record { seconds = pos 0; nanos = pos 0 };
  lookup = λ text. none;
}

json-present :
    (json : Json) (key : Text)
    → json_contains json key ≡ true
    → (value : Json) × (json_at json key ≡ ok value)
json-present null key h = absurd (ground (arith, h))
json-present (string t) key h = absurd (ground (arith, h))
json-present (entry k v rest) key h = elim (Bool-cases (text_eq k key)) [
  | inl same ↦ (v, rw same refl)
  | inr other ↦
      let (value, e) = json-present rest key (ground (arith, h, other)) in (value, rw other e)
]

json-string :
    (json : Json) → json_is_string json ≡ true → (text : Text) × (json_get_string json ≡ ok text)
json-string (string t) h = (t, refl)
json-string null h = absurd (ground (arith, h))
json-string (entry k v rest) h = absurd (ground (arith, h))

json-laws : JsonLaws json_libraries
json-laws = record { present = json-present; string = json-string }

abbrev pub two_lines : Text
two_lines = 123 ∷ 10 ∷ 10 ∷ 123 ∷ []

abbrev pub read_work : Work
read_work = record {
  openalex_id = codes "W1";
  title = none;
  publication_date = none;
  language = none;
  oa_status = oa_category_gold;
  oa_url = none;
  author_ids = codes "UNKNOWN_Ada" ∷ [];
  institution_ids = codes "UNKNOWN_R" ∷ [];
  ids = no_identifiers;
}

abbrev pub processed : Snapshot
processed = record {
  authors =
      record { openalex_id = codes "UNKNOWN_Ada"; name = some (codes "Ada"); orcid = none } ∷ [];
  institutions =
      record { openalex_id = codes "UNKNOWN_R"; name = none; ror = some (codes "R") } ∷ [];
  works = read_work ∷ read_work ∷ [];
}

pub process_test :
    process_works_snapshot json_libraries true two_lines []
    ≡ (codes "UNKNOWN_R" ∷ codes "UNKNOWN_Ada" ∷ [], ok processed)
unfolding process_works_snapshot
process_test = refl

process_works_snapshot-once_example :
    Post
      (λ seen s.
        (k : Text)
        → count k (map author_id s.authors)
            + count k (map institution_id s.institutions)
            + bit (member k (codes "A1" ∷ []))
          ≡ bit (member k seen))
      (process_works_snapshot json_libraries false two_lines (codes "A1" ∷ []))
process_works_snapshot-once_example =
    process_works_snapshot-once json_libraries false two_lines (codes "A1" ∷ [])

process_works_snapshot-WorksReferToRecords_example :
    Post (λ seen s. WorksReferToRecords s) (process_works_snapshot json_libraries true two_lines [])
process_works_snapshot-WorksReferToRecords_example =
    process_works_snapshot-WorksReferToRecords json_libraries true two_lines

process_all-once_example :
    Post
      (λ seen all. (k : Text) → records_of_all k all ≤ 1)
      (process_all json_libraries true (two_lines ∷ two_lines ∷ []) new_processor)
process_all-once_example = process_all-once json_libraries true (two_lines ∷ two_lines ∷ [])

-- A message of one byte, which is read as the given one.
abbrev pub blank : {M : Type 0} → M → Codec M
blank m = record {
  byte_size = λ n. 1;
  serialize = λ n. codes "x";
  parse_limited = λ limit input. (m, drop 1 input);
}

abbrev codecs : Codecs
codecs = record {
  authors = blank (record { openalex_id = []; name = none; orcid = none });
  institutions = blank (record { openalex_id = []; name = none; ror = none });
  works = blank read_work;
}

stream_works_snapshot-SameEnd_example :
    SameEnd json_libraries codecs
      (codes "a")
      []
      []
      (process_works_snapshot json_libraries true two_lines [])
      (stream_works_snapshot json_libraries codecs true two_lines (codes "a") [] [] [])
stream_works_snapshot-SameEnd_example =
    stream_works_snapshot-SameEnd json_libraries codecs (codes "a") [] [] true two_lines []

institution_there : is_institution_empty json_libraries institution ≡ ok false
unfolding is_institution_empty text_eq
institution_there = refl

author_there : is_author_empty json_libraries named_author ≡ ok false
unfolding is_author_empty text_eq
author_there = refl

Has : Bool → Json → Text → Type 0
Has b json key = has_string json_libraries json key ≡ ok b

named_no_ror : Has false named_author (codes "ror")
unfolding Has has_string text_eq
named_no_ror = refl

get_author_id-Returns_example :
    Returns
      (get_author_id json_libraries named_author)
      (DocumentedId json_libraries (codes "orcid") named_author)
unfolding Has
get_author_id-Returns_example =
    get_author_id-Returns json_libraries json-laws named_author author_there named_no_ror

get_institution_id-Returns_example :
    Returns
      (get_institution_id json_libraries institution)
      (DocumentedId json_libraries (codes "ror") institution)
get_institution_id-Returns_example =
    get_institution_id-Returns json_libraries json-laws institution institution_there

-- An author of whom the record has an ORCID alone is dropped.
orcid_alone_dropped : extract_author json_libraries (authorship_of orcid_author) [] ≡ ([], ok [])
unfolding extract_author is_author_empty has_string text_eq
orcid_alone_dropped = refl

extract_work-distinct_example :
    IfReturns (extract_work json_libraries work) (λ w. (k : Text) → count k w.institution_ids ≤ 1)
extract_work-distinct_example = extract_work-distinct json_libraries work
