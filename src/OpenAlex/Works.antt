-- ===== src/OpenAlex/Works.antt =====
-- ExtractWork of the processor of OpenAlex snapshots: a work, with the ids of its authors and of
-- their institutions.
pub mod Distinct
use citescoop.Prelude.{◌++◌, Bool, false, Option, none, some, List, [], ◌∷◌, if◌then◌else◌, ◌||◌}
use citescoop.Prelude.Text.{Text, codes, text_eq}
use citescoop.Proto.{Work}
use citescoop.Result.{Result, ok, ◌>>=◌}
use citescoop.Langmap.{iso_to_language}
use citescoop.OpenAlex.{
  JsonLibraries, get_field, string_field, trim_open_alex_id, get_author_id, get_institution_id,
  is_author_empty, is_institution_empty, string_to_oa_category, extract_identifiers,
}

-- contains(id), of a set of texts.
unfoldable pub member : Text → List Text → Bool
member id [] = false
member id (other ∷ ids) = text_eq other id || member id ids

-- What the loop of ExtractWork keeps: the two repeated fields of the work, and the set
-- seen_institution_ids.
pub record WorkIds : Type 0 where
  pub author_ids : List Text
  pub institution_ids : List Text
  pub seen_institution_ids : List Text

abbrev pub no_work_ids : WorkIds
no_work_ids = record { author_ids = []; institution_ids = []; seen_institution_ids = [] }

unfoldable pub add_institution_id : Text → WorkIds → WorkIds
unfolding member
add_institution_id id ids = if member id ids.seen_institution_ids then ids else record ids {
  seen_institution_ids = id ∷ ids.seen_institution_ids;
  institution_ids = ids.institution_ids ++ id ∷ [];
}

module _ (lib : JsonLibraries) where
  unfoldable pub work_institution : lib.Json → WorkIds → Result WorkIds
  unfolding is_institution_empty get_institution_id add_institution_id
  work_institution institution ids = do
    is_empty ← is_institution_empty lib institution
    if is_empty
        then ok ids
        else (do id ← get_institution_id lib institution; ok (add_institution_id id ids))

  unfoldable pub work_institutions : List lib.Json → WorkIds → Result WorkIds
  unfolding work_institution
  work_institutions [] ids = ok ids
  work_institutions (institution ∷ institutions) ids = do
    ids' ← work_institution institution ids
    work_institutions institutions ids'

  unfoldable pub work_authorship : lib.Json → WorkIds → Result WorkIds
  unfolding is_author_empty get_author_id work_institutions
  work_authorship authorship ids = do
    author ← lib.at authorship (codes "author")
    is_empty ← is_author_empty lib author
    if is_empty then ok ids else (do
      id ← get_author_id lib author
      institutions ← lib.at authorship (codes "institutions")
      work_institutions (lib.elements institutions)
          (record ids { author_ids = ids.author_ids ++ id ∷ [] }))

  unfoldable pub work_authorships : List lib.Json → WorkIds → Result WorkIds
  unfolding work_authorship
  work_authorships [] ids = ok ids
  work_authorships (authorship ∷ authorships) ids = do
    ids' ← work_authorship authorship ids
    work_authorships authorships ids'

  -- A URL is there, but may be null.
  abbrev pub string_or_none : lib.Json → Result (Option Text)
  string_or_none value =
      if lib.is_string value then (do text ← lib.get_string value; ok (some text)) else ok none

  unfoldable pub extract_work : lib.Json → Result Work
  unfolding string_field trim_open_alex_id string_to_oa_category work_authorships
      extract_identifiers
  extract_work json = do
    id ← get_field lib json (codes "id")
    title ← string_field lib json (codes "title")
    date ← string_field lib json (codes "publication_date")
    language ← string_field lib json (codes "language")
    open_access ← lib.at json (codes "open_access")
    oa_status ← get_field lib open_access (codes "oa_status")
    url ← lib.at open_access (codes "oa_url")
    oa_url ← string_or_none url
    authorships ← lib.at json (codes "authorships")
    ids ← work_authorships (lib.elements authorships) no_work_ids
    identifiers ← extract_identifiers lib json
    ok (record {
      openalex_id = trim_open_alex_id lib id;
      title = title;
      publication_date = elim date [ none ↦ none | some text ↦ some (lib.timestamp_from text) ];
      language = elim language [ none ↦ none | some code ↦ some (iso_to_language lib.lookup code) ];
      oa_status = string_to_oa_category oa_status;
      oa_url = oa_url;
      author_ids = ids.author_ids;
      institution_ids = ids.institution_ids;
      ids = identifiers;
    })
