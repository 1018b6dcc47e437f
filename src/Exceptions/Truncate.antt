-- ===== src/Exceptions/Truncate.antt =====
-- The text of an exception stays short.
use citescoop.Prelude.{
  ℕ, zero, suc, ◌≤◌, ◌<◌, ◌≡◌, ◌⊎◌, refl, ◌++◌, [], ◌∷◌, leb, length, length-append, take, arith,
  Bool-cases, inl, inr,
}
use citescoop.Prelude.Text.{Text, codes}
use citescoop.Exceptions.{max_length, truncate_input}

length-take : (n : ℕ) (s : Text) → n ≤ length s → length (take n s) ≡ n
length-take zero s h = refl
length-take (suc n) [] h = absurd (omega arith)
length-take (suc n) (c ∷ s) h = omega (arith, length-take n s)

-- An input of at most 100 bytes is shown whole; any other as 100 bytes, its first 97 and "...".
pub truncate_input_lem :
    (input : Text)
    → ((length input ≤ 100) × (truncate_input input ≡ input))
      ⊎ ((100 < length input)
          × (truncate_input input ≡ take 97 input ++ codes "...")
          × (length (truncate_input input) ≡ 100))
unfolding truncate_input
truncate_input_lem input = elim (Bool-cases (leb (length input) max_length)) [
  | inl short ↦ inl (ground arith, rw short refl)
  | inr long ↦ inr (
    ground arith,
    rw long refl,
    rw long (
        omega (
          arith,
          length-append (take 97 input) (codes "..."),
          length-take 97 input (ground arith),
        )),
  )
]
