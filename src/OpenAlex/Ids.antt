-- ===== src/OpenAlex/Ids.antt =====
-- The ids of authors and institutions of a snapshot, and the tests for an empty record.
use citescoop.Prelude.{◌≡◌, refl, true, false, none, some, ◌++◌, arith, Bool-cases, inl, inr, ◌⊎◌}
use citescoop.Prelude.Text.{Text, codes}
use citescoop.Result.{ok, Returns}
use citescoop.OpenAlex.{
  JsonLibraries, has_string, get_field, string_field, trim_open_alex_id, id_or, get_institution_id,
  get_author_id, is_institution_empty, is_author_empty,
}

-- What nlohmann::json says of a key that is there, and of a value that is a string.
pub record JsonLaws (lib : JsonLibraries) : Type 0 where
  pub present :
      (json : lib.Json) (key : Text)
      → lib.contains json key ≡ true
      → (value : lib.Json) × (lib.at json key ≡ ok value)
  pub string :
      (json : lib.Json)
      → lib.is_string json ≡ true
      → (text : Text) × (lib.get_string json ≡ ok text)

module _ (lib : JsonLibraries) (laws : JsonLaws lib) (json : lib.Json) (key : Text) where
  -- What the test for a string under a key and the reading of it give.
  data Field : Type 0 where
    there :
        (text : Text)
        → has_string lib json key ≡ ok true
        → string_field lib json key ≡ ok (some text)
        → get_field lib json key ≡ ok text
        → Field
    missing : has_string lib json key ≡ ok false → string_field lib json key ≡ ok none → Field

  field : Field
  unfolding has_string string_field
  field = elim (Bool-cases (lib.contains json key)) [
    | inr out ↦ missing (rw out refl) (rw out refl)
    | inl in_it ↦
        let (value, found) = laws.present json key in_it in
        elim (Bool-cases (lib.is_string value)) [
          | inr other ↦ missing (rw (in_it, found, other) refl) (rw (in_it, found, other) refl)
          | inl text_there ↦
              let (text, read) = laws.string value text_there in
              there text (rw (in_it, found, text_there) refl)
                (rw (in_it, found, text_there, read) refl) (rw (found, read) refl)
        ]
  ]

module _ (lib : JsonLibraries) where
  -- The id that is documented of a record: its OpenAlex id without the prefix, else the string
  -- under the second key, else the name, both behind "UNKNOWN_".
  abbrev pub DocumentedId : Text → lib.Json → Text → Type 0
  DocumentedId key json id =
      ((text : Text) × (string_field lib json (codes "id") ≡ ok (some text))
        × (id ≡ trim_open_alex_id lib text))
      ⊎ (((text : Text) × (string_field lib json (codes "id") ≡ ok none)
            × (string_field lib json key ≡ ok (some text))
            × (id ≡ codes "UNKNOWN_" ++ text))
          ⊎ ((text : Text) × (string_field lib json (codes "id") ≡ ok none)
              × (string_field lib json key ≡ ok none)
              × (get_field lib json (codes "display_name") ≡ ok text)
              × (id ≡ codes "UNKNOWN_" ++ text)))

  -- No string under any of three keys.
  AllMissing : Text → lib.Json → Type 0
  AllMissing key json =
      (has_string lib json (codes "id") ≡ ok false)
      × (has_string lib json (codes "display_name") ≡ ok false)
      × (has_string lib json key ≡ ok false)

module _ (lib : JsonLibraries) (laws : JsonLaws lib) where
  id_or-Returns :
      (key : Text) (json : lib.Json)
      → (AllMissing lib key json → ⊥)
      → Returns (id_or lib key json) (DocumentedId lib key json)
  unfolding AllMissing
  id_or-Returns key json some_there = elim (field lib laws json (codes "id")) [
    | there id a b c ↦ rw b (inl (id, b, refl))
    | missing a b ↦ elim (field lib laws json key) [
      | there second d e f ↦ rw (b, e) (inr (inl (second, b, e, refl)))
      | missing d e ↦ elim (field lib laws json (codes "display_name")) [
        | there name g h i ↦ rw (b, e, i) (inr (inr (name, b, e, i, refl)))
        | missing g h ↦ absurd (some_there (a, g, d))
      ]
    ]
  ]

  -- Given that a key that is there is found and a string is read: for a record of an institution
  -- that is not empty GetInstitutionId returns, with the documented id.
  pub get_institution_id-Returns :
      (institution : lib.Json)
      → is_institution_empty lib institution ≡ ok false
      → Returns (get_institution_id lib institution) (DocumentedId lib (codes "ror") institution)
  unfolding get_institution_id is_institution_empty AllMissing
  get_institution_id-Returns institution h =
      id_or-Returns (codes "ror") institution (λ m. ground (arith, m.0, m.1, m.2, h))

  -- Given that a key that is there is found and a string is read: for a record of an author that
  -- is not empty and has no string under "ror" GetAuthorId returns, with the documented id.
  pub get_author_id-Returns :
      (author : lib.Json)
      → is_author_empty lib author ≡ ok false
      → has_string lib author (codes "ror") ≡ ok false
      → Returns (get_author_id lib author) (DocumentedId lib (codes "orcid") author)
  unfolding get_author_id is_author_empty AllMissing
  get_author_id-Returns author h no_ror =
      id_or-Returns (codes "orcid") author (λ m. ground (arith, m.0, m.1, no_ror, h))
