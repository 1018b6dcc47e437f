-- ===== src/Parser/Idents.antt =====
-- The DOI and the PMC id that the parser stores.
use mathlib.Core.List.{append-nil}
use citescoop.Prelude.{
  ℕ, ◌<◌, ◌≡◌, ◌⊎◌, refl, sym, ap, ◌∙◌, false, [], ◌++◌, arith, Bool-cases, inl, inr, if◌then◌else◌,
}
use citescoop.Prelude.Int.{pos}
use citescoop.Prelude.Text.{Text, starts_with, starts_with-split}
use citescoop.Numbers.{int_bound, stoi}
use citescoop.Numbers.Decimal.{decimal, decimal-head, stoi-decimal}
use citescoop.Result.{ok}
use citescoop.Parser.{
  Libraries, doi_prefix, pmc_prefix, parse_doi, parse_pmc_id, str_to_int_ident, catch_stoi,
}

-- What Boost says of erase_first_copy, for a text that begins with what is erased.
pub record LibrariesLaws (lib : Libraries) : Type 0 where
  pub erases : (p rest : Text) → lib.erase_first_copy (p ++ rest) p ≡ rest

module _ (lib : Libraries) (laws : LibrariesLaws lib) where
  -- Given that erase_first_copy takes a prefix off, ParseDoi takes off the DOI prefix of a text
  -- that has it, and leaves every other text as it is.
  pub parse_doi-cases :
      (doi : Text)
      → ((rest : Text) × (doi ≡ doi_prefix ++ rest) × (parse_doi lib doi ≡ rest))
        ⊎ ((starts_with doi doi_prefix ≡ false) × (parse_doi lib doi ≡ doi))
  unfolding parse_doi
  parse_doi-cases doi = elim (Bool-cases (starts_with doi doi_prefix)) [
    | inl h ↦
        let (rest, e) = starts_with-split doi doi_prefix h in
        inl (
          rest,
          e,
          rw h (ap (λ t. lib.erase_first_copy t doi_prefix) e ∙ laws.erases doi_prefix rest),
        )
    | inr h ↦ inr (h, rw h refl)
  ]

  unprefixed : (n : ℕ) → starts_with (decimal n) pmc_prefix ≡ false
  unfolding starts_with
  unprefixed n = let (c, s, e, d) = decimal-head n in ground (arith, e, d)

  prefixed : (s : Text) → parse_pmc_id lib (pmc_prefix ++ s) ≡ str_to_int_ident lib s
  unfolding parse_pmc_id starts_with
  prefixed s = ap (str_to_int_ident lib) (laws.erases pmc_prefix s)

  -- Given that erase_first_copy takes a prefix off, ParsePmcId reads the decimal numeral of a
  -- number below 2 ^ 31 as that number, with the prefix "PMC" and without it.
  pub parse_pmc_id-decimal :
      (n : ℕ)
      → n < int_bound
      → (parse_pmc_id lib (pmc_prefix ++ decimal n) ≡ ok (pos n))
        × (parse_pmc_id lib (decimal n) ≡ ok (pos n))
  unfolding parse_pmc_id str_to_int_ident
  parse_pmc_id-decimal n h =
      let read : stoi (decimal n) ≡ ok (pos n) =
        ap stoi (sym (append-nil (decimal n))) ∙ stoi-decimal n [] h tt in
      (
        prefixed (decimal n) ∙ ap (catch_stoi lib) read,
        ap
              (λ b.
                if b
                then str_to_int_ident lib (lib.erase_first_copy (decimal n) pmc_prefix)
                else str_to_int_ident lib (decimal n))
              (unprefixed n)
            ∙ ap (catch_stoi lib) read,
      )
