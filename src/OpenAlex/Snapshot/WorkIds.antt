-- ===== src/OpenAlex/Snapshot/WorkIds.antt =====
-- The ids that a work names are those of authors and institutions given out.
use citescoop.Prelude.{
  ◌≡◌, Bool, true, false, List, [], ◌∷◌, ◌++◌, All, All-append, if◌then◌else◌, Bool-cases, inl, inr,
}
use citescoop.Prelude.Text.{Text, codes}
use citescoop.Proto.{Work}
use citescoop.Result.{Result, ok, err, ◌>>=◌, IfReturns, IfReturns-bind, IfReturns-any}
use citescoop.OpenAlex.{
  JsonLibraries, get_field, string_field, get_author_id, get_institution_id, is_author_empty,
  is_institution_empty, extract_identifiers,
}
use citescoop.OpenAlex.Works.{
  member, WorkIds, no_work_ids, add_institution_id, work_institution, work_institutions,
  work_authorship, work_authorships, string_or_none, extract_work,
}
use citescoop.OpenAlex.Snapshot.Covers.{Unless}
use citescoop.OpenAlex.Snapshot.Covered.{
  AuthorIn, InstitutionIn, InstitutionsIn, AllAuthorsIn, AllInstitutionsIn,
}

module _ (lib : JsonLibraries) (known : List Text) where
  abbrev Known : Text → Type 0
  Known id = member id known ≡ true

  abbrev IdsKnown : WorkIds → Type 0
  IdsKnown ids = All Known ids.author_ids × All Known ids.institution_ids

  -- All ids of authors and institutions of the work are known.
  abbrev pub WorkKnown : Work → Type 0
  WorkKnown work = All Known work.author_ids × All Known work.institution_ids

  add_institution_id-Known :
      (id : Text) (ids : WorkIds) → Known id → IdsKnown ids → IdsKnown (add_institution_id id ids)
  unfolding add_institution_id
  add_institution_id-Known id ids h k = elim (Bool-cases (member id ids.seen_institution_ids)) [
    | inl seen ↦ rw seen k
    | inr new ↦ rw new (k.0, All-append Known ids.institution_ids (id ∷ []) k.1 (h, tt))
  ]

  work_institution-Known :
      (v : lib.Json) (ids : WorkIds)
      → InstitutionIn lib known v
      → IdsKnown ids
      → IfReturns (work_institution lib v ids) IdsKnown
  unfolding work_institution
  work_institution-Known v ids h k =
      IfReturns-bind (λ is_empty. Unless is_empty (IfReturns (get_institution_id lib v) Known))
        IdsKnown (is_institution_empty lib v) _ h counted
    where
      counted :
          (is_empty : Bool)
          → Unless is_empty (IfReturns (get_institution_id lib v) Known)
          → IfReturns
              (if is_empty
                then ok ids
                else (get_institution_id lib v >>= λ id. ok (add_institution_id id ids)))
              IdsKnown
      counted true u = k
      counted false u =
          IfReturns-bind Known IdsKnown (get_institution_id lib v) _ u
            (λ id is_known. add_institution_id-Known id ids is_known k)

  work_institutions-Known :
      (vs : List lib.Json) (ids : WorkIds)
      → All (InstitutionIn lib known) vs
      → IdsKnown ids
      → IfReturns (work_institutions lib vs ids) IdsKnown
  unfolding work_institutions
  work_institutions-Known [] ids h k = k
  work_institutions-Known (v ∷ vs) ids h k =
      IfReturns-bind IdsKnown IdsKnown (work_institution lib v ids) _
        (work_institution-Known v ids h.0 k) (λ ids' k'. work_institutions-Known vs ids' h.1 k')

  work_authorship-Known :
      (v : lib.Json) (ids : WorkIds)
      → AuthorIn lib known v
      → InstitutionsIn lib known v
      → IdsKnown ids
      → IfReturns (work_authorship lib v ids) IdsKnown
  unfolding work_authorship
  work_authorship-Known v ids h i k =
      IfReturns-bind
        (λ author.
          IfReturns (is_author_empty lib author)
            (λ is_empty. Unless is_empty (IfReturns (get_author_id lib author) Known)))
        IdsKnown (lib.at v (codes "author")) _ h
        λ author m.
          IfReturns-bind (λ is_empty. Unless is_empty (IfReturns (get_author_id lib author) Known))
            IdsKnown (is_author_empty lib author) _ m (counted author)
    where
      counted :
          (author : lib.Json) (is_empty : Bool)
          → Unless is_empty (IfReturns (get_author_id lib author) Known)
          → IfReturns
              (if is_empty
                then ok ids
                else (get_author_id lib author >>= λ id.
                    lib.at v (codes "institutions") >>= λ institutions.
                    work_institutions lib
                      (lib.elements institutions)
                      (record ids { author_ids = ids.author_ids ++ id ∷ [] })))
              IdsKnown
      counted author true u = k
      counted author false u =
          IfReturns-bind Known IdsKnown (get_author_id lib author) _ u λ id is_known.
            IfReturns-bind
              (λ institutions. All (InstitutionIn lib known) (lib.elements institutions)) IdsKnown
              (lib.at v (codes "institutions")) _ i
              λ institutions all.
                work_institutions-Known (lib.elements institutions) _ all
                  (All-append Known ids.author_ids (id ∷ []) k.0 (is_known, tt), k.1)

  work_authorships-Known :
      (vs : List lib.Json) (ids : WorkIds)
      → All (AuthorIn lib known) vs
      → All (InstitutionsIn lib known) vs
      → IdsKnown ids
      → IfReturns (work_authorships lib vs ids) IdsKnown
  unfolding work_authorships
  work_authorships-Known [] ids h i k = k
  work_authorships-Known (v ∷ vs) ids h i k =
      IfReturns-bind IdsKnown IdsKnown (work_authorship lib v ids) _
        (work_authorship-Known v ids h.0 i.0 k)
        (λ ids' k'. work_authorships-Known vs ids' h.1 i.1 k')

  pub extract_work-Known :
      (json : lib.Json)
      → AllAuthorsIn lib known json
      → AllInstitutionsIn lib known json
      → IfReturns (extract_work lib json) WorkKnown
  unfolding extract_work
  extract_work-Known json h i = IfReturns-any WorkKnown (get_field lib json (codes "id")) _ λ id.
      IfReturns-any WorkKnown (string_field lib json (codes "title")) _ λ title.
        IfReturns-any WorkKnown (string_field lib json (codes "publication_date")) _ λ date.
          IfReturns-any WorkKnown (string_field lib json (codes "language")) _ λ language.
            IfReturns-any WorkKnown (lib.at json (codes "open_access")) _ λ open_access.
              IfReturns-any WorkKnown (get_field lib open_access (codes "oa_status")) _ λ oa_status.
                IfReturns-any WorkKnown (lib.at open_access (codes "oa_url")) _ λ url.
                  IfReturns-any WorkKnown (string_or_none lib url) _ λ oa_url.
                    IfReturns-bind
                      (λ authorships.
                        All (AuthorIn lib known) (lib.elements authorships)
                        × All (InstitutionsIn lib known) (lib.elements authorships))
                      WorkKnown (lib.at json (codes "authorships")) _
                      (both (λ authorships. All (AuthorIn lib known) (lib.elements authorships))
                        (λ authorships. All (InstitutionsIn lib known) (lib.elements authorships))
                        (lib.at json (codes "authorships")) h i)
                      λ authorships (a, b).
                        IfReturns-bind IdsKnown WorkKnown
                          (work_authorships lib (lib.elements authorships) no_work_ids) _
                          (work_authorships-Known (lib.elements authorships) no_work_ids a b
                            (tt, tt))
                          λ ids k.
                            IfReturns-any WorkKnown (extract_identifiers lib json) _
                              λ identifiers. k
    where
      both :
          {A : Type 0} (P Q : A → Type 0) (m : Result A)
          → IfReturns m P
          → IfReturns m Q
          → IfReturns m (λ a. P a × Q a)
      both P Q (ok a) p q = (p, q)
      both P Q (err x) p q = tt
