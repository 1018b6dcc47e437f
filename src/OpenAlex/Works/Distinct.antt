-- ===== src/OpenAlex/Works/Distinct.antt =====
-- A work has each institution once.
use citescoop.Prelude.{
  ◌≤◌, ◌≡◌, refl, sym, ap, ◌∙◌, Bool, true, false, List, [], ◌∷◌, arith, Bool-cases, inl, inr,
}
use citescoop.Prelude.Text.{Text, codes, text_eq, text_eq_iff}
use citescoop.Proto.{Work}
use citescoop.Result.{IfReturns, IfReturns-bind, IfReturns-any, IfReturns-if}
use citescoop.OpenAlex.{
  JsonLibraries, get_field, string_field, get_author_id, get_institution_id, is_author_empty,
  is_institution_empty, extract_identifiers,
}
use citescoop.OpenAlex.Works.{
  member, WorkIds, no_work_ids, add_institution_id, work_institution, work_institutions,
  work_authorship, work_authorships, string_or_none, extract_work,
}
use citescoop.OpenAlex.Snapshot.Post.{bit, count, count-append}

-- The institutions listed are those in the set, each once.
abbrev Distinct : WorkIds → Type 0
Distinct ids = (k : Text) → count k ids.institution_ids ≡ bit (member k ids.seen_institution_ids)

add_institution_id-Distinct :
    (id : Text) (ids : WorkIds) → Distinct ids → Distinct (add_institution_id id ids)
unfolding add_institution_id member
add_institution_id-Distinct id ids d = elim (Bool-cases (member id ids.seen_institution_ids)) [
  | inl known ↦ rw known d
  | inr new ↦ rw new (λ k. elim (Bool-cases (text_eq id k)) [
    | inl same ↦
        let e : member k ids.seen_institution_ids ≡ false =
          ap (λ i. member i ids.seen_institution_ids) (sym ((text_eq_iff id k).0 same)) ∙ new in
        ground (arith, d k, e, same, count-append k ids.institution_ids (id ∷ []))
    | inr other ↦ ground (arith, d k, other, count-append k ids.institution_ids (id ∷ []))
  ])
]

module _ (lib : JsonLibraries) where
  work_institutions-Distinct :
      (institutions : List lib.Json) (ids : WorkIds)
      → Distinct ids
      → IfReturns (work_institutions lib institutions ids) Distinct
  unfolding work_institutions work_institution
  work_institutions-Distinct [] ids d = d
  work_institutions-Distinct (institution ∷ institutions) ids d =
      IfReturns-bind Distinct Distinct (work_institution lib institution ids) _
        (IfReturns-any Distinct (is_institution_empty lib institution) _ (λ is_empty.
          IfReturns-if Distinct is_empty _ _ d (
            IfReturns-any Distinct (get_institution_id lib institution) _
              (λ id. add_institution_id-Distinct id ids d))))
        (work_institutions-Distinct institutions)

  work_authorships-Distinct :
      (authorships : List lib.Json) (ids : WorkIds)
      → Distinct ids
      → IfReturns (work_authorships lib authorships ids) Distinct
  unfolding work_authorships work_authorship
  work_authorships-Distinct [] ids d = d
  work_authorships-Distinct (authorship ∷ authorships) ids d =
      IfReturns-bind Distinct Distinct (work_authorship lib authorship ids) _
        (IfReturns-any Distinct (lib.at authorship (codes "author")) _ (λ author.
          IfReturns-any Distinct (is_author_empty lib author) _ (λ is_empty.
            IfReturns-if Distinct is_empty _ _ d (
              IfReturns-any Distinct (get_author_id lib author) _ (λ id.
                IfReturns-any Distinct (lib.at authorship (codes "institutions")) _
                  (λ institutions. work_institutions-Distinct (lib.elements institutions) _ d))))))
        (work_authorships-Distinct authorships)

  Once : Work → Type 0
  Once work = (k : Text) → count k work.institution_ids ≤ 1

  bit_bound : (b : Bool) → bit b ≤ 1
  bit_bound true = omega arith
  bit_bound false = omega arith

  -- In a work that ExtractWork returns, no institution id stands twice.
  pub extract_work-distinct :
      (json : lib.Json)
      → IfReturns (extract_work lib json) (λ work. (k : Text) → count k work.institution_ids ≤ 1)
  unfolding extract_work member Once
  extract_work-distinct json = IfReturns-any Once (get_field lib json (codes "id")) _ (λ id.
      IfReturns-any Once (string_field lib json (codes "title")) _ (λ title.
        IfReturns-any Once (string_field lib json (codes "publication_date")) _ (λ date.
          IfReturns-any Once (string_field lib json (codes "language")) _ (λ language.
            IfReturns-any Once (lib.at json (codes "open_access")) _ (λ open_access.
              IfReturns-any Once (get_field lib open_access (codes "oa_status")) _ (λ oa_status.
                IfReturns-any Once (lib.at open_access (codes "oa_url")) _ (λ url.
                  IfReturns-any Once (string_or_none lib url) _ (λ oa_url.
                    IfReturns-any Once (lib.at json (codes "authorships")) _ (λ authorships.
                      IfReturns-bind Distinct Once
                        (work_authorships lib (lib.elements authorships) no_work_ids) _
                        (work_authorships-Distinct (lib.elements authorships) no_work_ids
                          (λ k. refl))
                        (λ ids d.
                          IfReturns-any Once (extract_identifiers lib json) _ (λ identifiers k.
                            ground
                              (arith, d k, bit_bound (member k ids.seen_institution_ids)))))))))))))
