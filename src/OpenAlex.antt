-- ===== src/OpenAlex.antt =====
-- The processor of OpenAlex snapshots, src/openalex/snapshot_processor_impl.cc: what it reads of
-- one JSON record.
pub mod Ids
pub mod Works
pub mod Snapshot
pub mod Processor
pub mod Streams
use citescoop.Prelude.{
  ℕ, ◌≡◌, ◌%◌, ◌++◌, Bool, true, false, not, ◌&&◌, ◌||◌, Option, none, some, List, [], ◌∷◌,
  if◌then◌else◌,
}
use citescoop.Prelude.Text.{Text, codes, text_eq, starts_with}
use citescoop.Proto.{
  Timestamp, Identifiers, no_identifiers, OaCategory, oa_category_unspecified, oa_category_diamond,
  oa_category_gold, oa_category_green, oa_category_hybrid, oa_category_bronze, oa_category_closed,
  Work,
}
use citescoop.Numbers.{stoul, u32_mod}
use citescoop.Result.{Error, Result, ok, err, ◌>>=◌}
use citescoop.Langmap.{Lookup, iso_to_language}

-- The libraries that the processor calls: of nlohmann::json the parser, contains, the constant
-- operator[], is_string, get<std::string> and the values that a range-for visits; erase_first_copy
-- of Boost; TimeUtil::FromString; and the table of languages.
pub record JsonLibraries : Type 1 where
  pub Json : Type 0
  pub parse : Text → Result Json
  pub contains : Json → Text → Bool
  pub at : Json → Text → Result Json
  pub is_string : Json → Bool
  pub get_string : Json → Result Text
  pub elements : Json → List Json
  pub erase_first_copy : Text → Text → Text
  pub timestamp_from : Text → Timestamp
  pub lookup : Lookup

unfoldable pub string_to_oa_category : Text → OaCategory
unfolding text_eq
string_to_oa_category category =
    if text_eq category (codes "diamond")
    then oa_category_diamond
    else if text_eq category (codes "gold")
    then oa_category_gold
    else if text_eq category (codes "green")
    then oa_category_green
    else if text_eq category (codes "hybrid")
    then oa_category_hybrid
    else if text_eq category (codes "bronze")
    then oa_category_bronze
    else if text_eq category (codes "closed")
    then oa_category_closed
    else oa_category_unspecified

module _ (lib : JsonLibraries) where
  -- data.contains(key) && data[key].is_string()
  unfoldable pub has_string : lib.Json → Text → Result Bool
  has_string json key =
      if lib.contains json key
      then (do value ← lib.at json key; ok (lib.is_string value))
      else ok false

  -- data[key].get<std::string>()
  abbrev pub get_field : lib.Json → Text → Result Text
  get_field json key = do value ← lib.at json key; lib.get_string value

  -- The string of a key, where the key is there with a string.
  unfoldable pub string_field : lib.Json → Text → Result (Option Text)
  unfolding has_string
  string_field json key = do
    there ← has_string json key
    if there then (do text ← get_field json key; ok (some text)) else ok none

  unfoldable pub remove_prefix : Text → Text → Text
  unfolding starts_with
  remove_prefix str prefix = if starts_with str prefix then lib.erase_first_copy str prefix else str

  unfoldable pub trim_open_alex_id : Text → Text
  unfolding remove_prefix
  trim_open_alex_id openalex_id = remove_prefix openalex_id (codes "https://openalex.org/")

  unfoldable pub parse_pubmed_id : Text → Result ℕ
  unfolding remove_prefix stoul
  parse_pubmed_id pubmed_id = do
    number ← stoul (remove_prefix pubmed_id (codes "https://pubmed.ncbi.nlm.nih.gov/"))
    ok (number % u32_mod)

  -- The id of a record: its OpenAlex id, or the id under the second key, or the name.
  abbrev fallback_id : Text → lib.Json → Result Text
  fallback_id key json = do
    second ← string_field json key
    elim second [
      | some text ↦ ok (codes "UNKNOWN_" ++ text)
      | none ↦ (do name ← get_field json (codes "display_name"); ok (codes "UNKNOWN_" ++ name))
    ]

  abbrev id_or : Text → lib.Json → Result Text
  id_or key json = do
    id ← string_field json (codes "id")
    elim id [ some text ↦ ok (trim_open_alex_id text) | none ↦ fallback_id key json ]

  unfoldable pub get_institution_id : lib.Json → Result Text
  unfolding string_field trim_open_alex_id
  get_institution_id institution = id_or (codes "ror") institution

  unfoldable pub get_author_id : lib.Json → Result Text
  unfolding string_field trim_open_alex_id
  get_author_id author = id_or (codes "orcid") author

  unfoldable pub is_institution_empty : lib.Json → Result Bool
  unfolding has_string
  is_institution_empty institution = do
    id ← has_string institution (codes "id")
    name ← has_string institution (codes "display_name")
    ror ← has_string institution (codes "ror")
    ok (not id && not name && not ror)

  -- The third test is of "ror" for an author too.
  unfoldable pub is_author_empty : lib.Json → Result Bool
  unfolding has_string
  is_author_empty author = do
    id ← has_string author (codes "id")
    name ← has_string author (codes "display_name")
    orcid ← has_string author (codes "ror")
    ok (not id && not name && not orcid)

  unfoldable pub extract_identifiers : lib.Json → Result Identifiers
  unfolding remove_prefix string_field parse_pubmed_id
  extract_identifiers json = do
    ids ← lib.at json (codes "ids")
    doi ← string_field ids (codes "doi")
    pmid ← string_field ids (codes "pmid")
    number ← elim pmid [ none ↦ ok none | some text ↦ (do n ← parse_pubmed_id text; ok (some n)) ]
    ok (record no_identifiers {
      doi = elim doi [
        | none ↦ none
        | some text ↦ some (remove_prefix text (codes "https://doi.org/"))
      ];
      pmid = number;
    })
