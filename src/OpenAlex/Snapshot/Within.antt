-- ===== src/OpenAlex/Snapshot/Within.antt =====
-- ExtractAuthors and ExtractInstitutions depend on, and change, the ids of a part that theirs are of.
use citescoop.Prelude.{◌≡◌, ap, ◌∙◌, Bool, true, false, [], All, All-weaken}
use citescoop.Prelude.Text.{Text, codes}
use citescoop.Result.{ok}
use citescoop.OpenAlex.{
  JsonLibraries, string_field, get_author_id, get_institution_id, is_author_empty,
  is_institution_empty,
}
use citescoop.OpenAlex.Snapshot.{
  author_message, extract_author, institution_message, extract_institution, extract_authors,
  institutions_of, extract_institutions,
}
use citescoop.OpenAlex.Snapshot.Frame.{
  Frames, Frames-return, Frames-lift_bind, Frames-if, Frames-unless_seen, Frames-collect,
}

module _ (lib : JsonLibraries) (part : Text → Bool) where
  -- The id that an authorship gives to an author is of the part.
  abbrev pub AuthorWithin : lib.Json → Type 0
  AuthorWithin authorship =
      (author : lib.Json) (id : Text)
      → lib.at authorship (codes "author") ≡ ok author
      → is_author_empty lib author ≡ ok false
      → get_author_id lib author ≡ ok id
      → part id ≡ true

  -- The id of an institution is of the part.
  abbrev pub InstitutionWithin : lib.Json → Type 0
  InstitutionWithin institution =
      (id : Text)
      → is_institution_empty lib institution ≡ ok false
      → get_institution_id lib institution ≡ ok id
      → part id ≡ true

  extract_author-Frames :
      (authorship : lib.Json)
      → AuthorWithin authorship
      → Frames part (extract_author lib authorship)
  unfolding extract_author author_message
  extract_author-Frames authorship h =
      Frames-lift_bind part (lib.at authorship (codes "author")) _ λ author is_author.
        Frames-lift_bind part (is_author_empty lib author) _ λ is_empty emptiness.
          Frames-if part is_empty _ _ (λ e. Frames-return part [])
            λ e. Frames-lift_bind part (get_author_id lib author) _ λ id is_id.
              Frames-unless_seen part id _ (h author id is_author (emptiness ∙ ap ok e) is_id) (
                Frames-lift_bind part (string_field lib author (codes "display_name")) _
                  λ name is_name.
                    Frames-lift_bind part (string_field lib author (codes "orcid")) _
                      λ orcid is_orcid. Frames-return part _)

  extract_institution-Frames :
      (institution : lib.Json)
      → InstitutionWithin institution
      → Frames part (extract_institution lib institution)
  unfolding extract_institution institution_message
  extract_institution-Frames institution h =
      Frames-lift_bind part (is_institution_empty lib institution) _ λ is_empty emptiness.
        Frames-if part is_empty _ _ (λ e. Frames-return part [])
          λ e. Frames-lift_bind part (get_institution_id lib institution) _ λ id is_id.
            Frames-unless_seen part id _ (h id (emptiness ∙ ap ok e) is_id) (
              Frames-lift_bind part (string_field lib institution (codes "display_name")) _
                λ name is_name.
                  Frames-lift_bind part (string_field lib institution (codes "ror")) _
                    λ ror is_ror. Frames-return part _)

  -- The ids of the authors of a line are of the part.
  abbrev pub AuthorsWithin : lib.Json → Type 0
  AuthorsWithin json =
      (authorships : lib.Json)
      → lib.at json (codes "authorships") ≡ ok authorships
      → All AuthorWithin (lib.elements authorships)

  abbrev pub AffiliationsWithin : lib.Json → Type 0
  AffiliationsWithin authorship =
      (institutions : lib.Json)
      → lib.at authorship (codes "institutions") ≡ ok institutions
      → All InstitutionWithin (lib.elements institutions)

  -- The ids of the institutions of a line are of the part.
  abbrev pub InstitutionsWithin : lib.Json → Type 0
  InstitutionsWithin json =
      (authorships : lib.Json)
      → lib.at json (codes "authorships") ≡ ok authorships
      → All AffiliationsWithin (lib.elements authorships)

  pub extract_authors-Frames :
      (json : lib.Json) → AuthorsWithin json → Frames part (extract_authors lib json)
  unfolding extract_authors
  extract_authors-Frames json h =
      Frames-lift_bind part (lib.at json (codes "authorships")) _ λ authorships is_list.
        Frames-collect part (extract_author lib) (lib.elements authorships)
          (All-weaken _ _ (lib.elements authorships) extract_author-Frames (h authorships is_list))

  institutions_of-Frames :
      (authorship : lib.Json)
      → AffiliationsWithin authorship
      → Frames part (institutions_of lib authorship)
  unfolding institutions_of
  institutions_of-Frames authorship h =
      Frames-lift_bind part (lib.at authorship (codes "institutions")) _ λ institutions is_list.
        Frames-collect part (extract_institution lib) (lib.elements institutions) (
          All-weaken _ _ (lib.elements institutions) extract_institution-Frames
            (h institutions is_list))

  pub extract_institutions-Frames :
      (json : lib.Json) → InstitutionsWithin json → Frames part (extract_institutions lib json)
  unfolding extract_institutions
  extract_institutions-Frames json h =
      Frames-lift_bind part (lib.at json (codes "authorships")) _ λ authorships is_list.
        Frames-collect part (institutions_of lib) (lib.elements authorships)
          (All-weaken _ _ (lib.elements authorships) institutions_of-Frames (h authorships is_list))
