-- ===== src/Tests/CallOrder.antt =====
-- A snapshot in which the ids of authors differ from those of institutions.
use citescoop.Prelude.{◌≡◌, refl, ap, subst, ◌∙◌, Bool, true, false, not, [], All, arith}
use citescoop.Prelude.Text.{Text, codes, text_eq}
use citescoop.Result.{ok}
use citescoop.OpenAlex.{
  has_string, string_field, get_author_id, get_institution_id, is_author_empty,
}
use citescoop.OpenAlex.Snapshot.{lines_of, process_works_snapshot}
use citescoop.OpenAlex.Snapshot.Within.{
  AuthorWithin, InstitutionWithin, AffiliationsWithin, AuthorsWithin, InstitutionsWithin,
}
use citescoop.OpenAlex.Snapshot.AnyOrder.{
  TellsApart, SameOutcome, process_works_snapshot-SameOutcome,
}
use citescoop.Tests.OpenAlexRuns.{
  Json, institution, orcid_author, named_author, authorship_of, work, json_libraries, two_lines,
}

ok_injective : {A : Type 0} {a b : A} → ok a ≡ ok b → a ≡ b
ok_injective h = cc

abbrev is_ada : Text → Bool
is_ada id = text_eq id (codes "UNKNOWN_Ada")

abbrev is_not_ada : Text → Bool
is_not_ada id = not (is_ada id)

named_id : (id : Text) → get_author_id json_libraries named_author ≡ ok id → is_ada id ≡ true
unfolding get_author_id string_field has_string text_eq
named_id id h = subst (λ id. is_ada id ≡ true) (ok_injective h) refl

orcid_empty : is_author_empty json_libraries orcid_author ≡ ok false → ⊥
unfolding is_author_empty has_string text_eq
orcid_empty h =
    let impossible : true ≡ false = ok_injective h in absurd (ground (arith, impossible))

institution_id : InstitutionWithin json_libraries is_not_ada institution
unfolding get_institution_id text_eq
institution_id id full h = subst (λ id. is_not_ada id ≡ true) (ok_injective h) refl

ada_within : AuthorWithin json_libraries is_ada (authorship_of named_author)
unfolding text_eq
ada_within author id is_author full is_id =
    named_id id (ap (get_author_id json_libraries) (ok_injective is_author) ∙ is_id)

orcid_within : AuthorWithin json_libraries is_ada (authorship_of orcid_author)
unfolding text_eq
orcid_within author id is_author full is_id =
    absurd (orcid_empty (ap (is_author_empty json_libraries) (ok_injective is_author) ∙ full))

affiliations : (author : Json) → AffiliationsWithin json_libraries is_not_ada (authorship_of author)
unfolding text_eq
affiliations author institutions h =
    subst (λ list. All (InstitutionWithin json_libraries is_not_ada) (json_libraries.elements list))
      (ok_injective h) (institution_id, (institution_id, tt))

work_apart :
    AuthorsWithin json_libraries is_ada work × InstitutionsWithin json_libraries is_not_ada work
unfolding text_eq
work_apart = (
  λ list h.
      subst (λ list. All (AuthorWithin json_libraries is_ada) (json_libraries.elements list))
        (ok_injective h) (ada_within, (orcid_within, tt)),
  λ list h.
      subst
        (λ list. All (AffiliationsWithin json_libraries is_not_ada) (json_libraries.elements list))
        (ok_injective h) (affiliations named_author, (affiliations orcid_author, tt)),
)

line_apart : (line : Text) → TellsApart json_libraries is_ada line
line_apart line json h =
    subst
      (λ json.
        AuthorsWithin json_libraries is_ada json
        × InstitutionsWithin json_libraries is_not_ada json)
      (ok_injective h) work_apart

lines_apart : All (TellsApart json_libraries is_ada) (lines_of two_lines)
unfolding lines_of
lines_apart = (line_apart (codes "{"), (line_apart [], (line_apart (codes "{"), tt)))

process_works_snapshot-SameOutcome_example :
    SameOutcome
      (process_works_snapshot json_libraries true two_lines [])
      (process_works_snapshot json_libraries false two_lines [])
process_works_snapshot-SameOutcome_example =
    process_works_snapshot-SameOutcome json_libraries is_ada two_lines [] lines_apart
