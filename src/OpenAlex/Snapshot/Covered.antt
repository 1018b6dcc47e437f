-- ===== src/OpenAlex/Snapshot/Covered.antt =====
-- After the extractions the ids seen cover all authors and institutions of a record.
use citescoop.Prelude.{◌≡◌, true, List, ◌∷◌, All, All-weaken}
use citescoop.Prelude.Text.{Text, codes}
use citescoop.Result.{IfReturns}
use citescoop.OpenAlex.{
  JsonLibraries, string_field, get_author_id, get_institution_id, is_author_empty,
  is_institution_empty,
}
use citescoop.OpenAlex.Works.{member}
use citescoop.OpenAlex.Snapshot.{
  author_message, institution_message, extract_author, extract_institution, extract_authors,
  institutions_of, extract_institutions,
}
use citescoop.OpenAlex.Snapshot.Post.{Post, Post-lift}
use citescoop.OpenAlex.Snapshot.Seen.{
  author_id, institution_id, extract_author-Added, extract_institution-Added, institutions_of-Added,
}
use citescoop.OpenAlex.Snapshot.Covers.{
  Grows, Unless, Unless-weaken, IfReturns-weaken, Post-covered, Post-unless, unless_seen-member,
  member_self, collect-CoversAll,
}

module _ (lib : JsonLibraries) where
  -- The id of the author of an authorship, if it has one that counts, is among these.
  abbrev pub AuthorIn : List Text → lib.Json → Type 0
  AuthorIn ids authorship = IfReturns (lib.at authorship (codes "author")) (λ author.
      IfReturns (is_author_empty lib author) (λ is_empty.
        Unless is_empty (IfReturns (get_author_id lib author) (λ id. member id ids ≡ true))))

  abbrev pub InstitutionIn : List Text → lib.Json → Type 0
  InstitutionIn ids institution = IfReturns (is_institution_empty lib institution) (λ is_empty.
      Unless is_empty (IfReturns (get_institution_id lib institution) (λ id. member id ids ≡ true)))

  abbrev pub InstitutionsIn : List Text → lib.Json → Type 0
  InstitutionsIn ids authorship =
      IfReturns (lib.at authorship (codes "institutions"))
        (λ institutions. All (InstitutionIn ids) (lib.elements institutions))

  AuthorIn-Grows :
      (seen after : List Text) (v : lib.Json)
      → Grows seen after
      → AuthorIn seen v
      → AuthorIn after v
  AuthorIn-Grows seen after v g = IfReturns-weaken _ _ (lib.at v (codes "author")) λ author.
      IfReturns-weaken _ _ (is_author_empty lib author)
        λ is_empty. Unless-weaken is_empty _ _ (IfReturns-weaken _ _ (get_author_id lib author) g)

  InstitutionIn-Grows :
      (seen after : List Text) (v : lib.Json)
      → Grows seen after
      → InstitutionIn seen v
      → InstitutionIn after v
  InstitutionIn-Grows seen after v g =
      IfReturns-weaken _ _ (is_institution_empty lib v)
        λ is_empty. Unless-weaken is_empty _ _ (IfReturns-weaken _ _ (get_institution_id lib v) g)

  InstitutionsIn-Grows :
      (seen after : List Text) (v : lib.Json)
      → Grows seen after
      → InstitutionsIn seen v
      → InstitutionsIn after v
  InstitutionsIn-Grows seen after v g =
      IfReturns-weaken _ _ (lib.at v (codes "institutions")) λ institutions.
        All-weaken _ _ (lib.elements institutions) (λ i. InstitutionIn-Grows seen after i g)

  extract_author-AuthorIn :
      (v : lib.Json) (seen : List Text)
      → Post (λ after xs. AuthorIn after v) (extract_author lib v seen)
  unfolding extract_author author_message
  extract_author-AuthorIn v seen =
      Post-covered
        (λ after author. IfReturns (is_author_empty lib author) (λ is_empty.
          Unless is_empty (IfReturns (get_author_id lib author) (λ id. member id after ≡ true))))
        (lib.at v (codes "author")) _ seen
        λ author.
          Post-covered
            (λ after is_empty.
              Unless is_empty (IfReturns (get_author_id lib author) (λ id. member id after ≡ true)))
            (is_author_empty lib author) _ seen
            λ is_empty.
              Post-unless
                (λ after. IfReturns (get_author_id lib author) (λ id. member id after ≡ true))
                is_empty _ seen
                (Post-covered (λ after id. member id after ≡ true) (get_author_id lib author) _ seen
                  λ id. unless_seen-member id (author_message lib author id) seen (
                    Post-lift (λ after xs. member id after ≡ true)
                      (string_field lib author (codes "display_name")) _ (id ∷ seen)
                      λ name.
                        Post-lift (λ after xs. member id after ≡ true)
                          (string_field lib author (codes "orcid")) _ (id ∷ seen)
                          λ orcid. member_self id seen))

  extract_institution-InstitutionIn :
      (v : lib.Json) (seen : List Text)
      → Post (λ after xs. InstitutionIn after v) (extract_institution lib v seen)
  unfolding extract_institution institution_message
  extract_institution-InstitutionIn v seen =
      Post-covered
        (λ after is_empty.
          Unless is_empty (IfReturns (get_institution_id lib v) (λ id. member id after ≡ true)))
        (is_institution_empty lib v) _ seen
        λ is_empty.
          Post-unless (λ after. IfReturns (get_institution_id lib v) (λ id. member id after ≡ true))
            is_empty _ seen
            (Post-covered (λ after id. member id after ≡ true) (get_institution_id lib v) _ seen
              λ id. unless_seen-member id (institution_message lib v id) seen (
                Post-lift (λ after xs. member id after ≡ true)
                  (string_field lib v (codes "display_name")) _ (id ∷ seen)
                  λ name.
                    Post-lift (λ after xs. member id after ≡ true)
                      (string_field lib v (codes "ror")) _ (id ∷ seen) λ ror. member_self id seen))

  institutions_of-InstitutionsIn :
      (v : lib.Json) (seen : List Text)
      → Post (λ after xs. InstitutionsIn after v) (institutions_of lib v seen)
  unfolding institutions_of
  institutions_of-InstitutionsIn v seen =
      Post-covered (λ after institutions. All (InstitutionIn after) (lib.elements institutions))
        (lib.at v (codes "institutions")) _ seen
        λ institutions.
          collect-CoversAll institution_id (extract_institution lib) (extract_institution-Added lib)
            InstitutionIn InstitutionIn-Grows extract_institution-InstitutionIn
            (lib.elements institutions) seen

  abbrev pub AllAuthorsIn : List Text → lib.Json → Type 0
  AllAuthorsIn ids json =
      IfReturns (lib.at json (codes "authorships"))
        (λ authorships. All (AuthorIn ids) (lib.elements authorships))

  abbrev pub AllInstitutionsIn : List Text → lib.Json → Type 0
  AllInstitutionsIn ids json =
      IfReturns (lib.at json (codes "authorships"))
        (λ authorships. All (InstitutionsIn ids) (lib.elements authorships))

  pub AllAuthorsIn-Grows :
      (seen after : List Text) (json : lib.Json)
      → Grows seen after
      → AllAuthorsIn seen json
      → AllAuthorsIn after json
  AllAuthorsIn-Grows seen after json g =
      IfReturns-weaken _ _ (lib.at json (codes "authorships")) λ authorships.
        All-weaken _ _ (lib.elements authorships) (λ v. AuthorIn-Grows seen after v g)

  pub AllInstitutionsIn-Grows :
      (seen after : List Text) (json : lib.Json)
      → Grows seen after
      → AllInstitutionsIn seen json
      → AllInstitutionsIn after json
  AllInstitutionsIn-Grows seen after json g =
      IfReturns-weaken _ _ (lib.at json (codes "authorships")) λ authorships.
        All-weaken _ _ (lib.elements authorships) (λ v. InstitutionsIn-Grows seen after v g)

  pub extract_authors-AllAuthorsIn :
      (json : lib.Json) (seen : List Text)
      → Post (λ after xs. AllAuthorsIn after json) (extract_authors lib json seen)
  unfolding extract_authors
  extract_authors-AllAuthorsIn json seen =
      Post-covered (λ after authorships. All (AuthorIn after) (lib.elements authorships))
        (lib.at json (codes "authorships")) _ seen
        λ authorships.
          collect-CoversAll author_id (extract_author lib) (extract_author-Added lib) AuthorIn
            AuthorIn-Grows extract_author-AuthorIn (lib.elements authorships) seen

  pub extract_institutions-AllInstitutionsIn :
      (json : lib.Json) (seen : List Text)
      → Post (λ after xs. AllInstitutionsIn after json) (extract_institutions lib json seen)
  unfolding extract_institutions
  extract_institutions-AllInstitutionsIn json seen =
      Post-covered (λ after authorships. All (InstitutionsIn after) (lib.elements authorships))
        (lib.at json (codes "authorships")) _ seen
        λ authorships.
          collect-CoversAll institution_id (institutions_of lib) (institutions_of-Added lib)
            InstitutionsIn InstitutionsIn-Grows institutions_of-InstitutionsIn
            (lib.elements authorships) seen
