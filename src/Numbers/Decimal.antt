-- ===== src/Numbers/Decimal.antt =====
-- Decimal numerals and their round trip through the conversions.
use citescoop.Prelude.{
  ℕ, zero, suc, ◌+◌, ◌-◌, ◌*◌, ◌/◌, ◌%◌, ◌<◌, ◌≡◌, refl, sym, ap, ◌∙◌, true, false, some, [], ◌∷◌,
  ◌++◌, ltb, Bool-cases, inl, inr, if◌then◌else◌, arith,
}
use citescoop.Prelude.Int.{pos}
use citescoop.Prelude.Text.{Text}
use citescoop.Result.{ok}
use citescoop.Numbers.{is_digit, read_digits, scan, int_bound, long_bound, stoi, stol}

-- The digits of `n` in front of `rest`; as much fuel as `n + 1` is enough.
decimal_onto : ℕ → ℕ → Text → Text
decimal_onto zero n rest = rest
decimal_onto (suc fuel) n rest =
    let more = decimal_onto fuel (n / 10) ((b'0' + n % 10) ∷ rest) in
    if ltb n 10 then (b'0' + n) ∷ rest else more

pub decimal : ℕ → Text
unfolding decimal_onto
decimal n = decimal_onto (suc n) n []

-- A text that does not go on with a digit.
abbrev pub StopsAt : Text → Type 0
StopsAt [] = Unit
StopsAt (c ∷ s) = is_digit c ≡ false

-- One digit is read.
read_digit :
    (m d : ℕ) (rest : Text)
    → d < 10
    → read_digits m ((b'0' + d) ∷ rest) ≡ read_digits (m * 10 + d) rest
unfolding read_digits
read_digit m d rest h =
    ground (arith, ap (λ (x : ℕ). read_digits (m * 10 + x) rest) (digit_value d))
  where
    digit_value : (e : ℕ) → (b'0' + e) - b'0' ≡ e
    digit_value e = omega arith

read-decimal_onto :
    (fuel n : ℕ) (rest : Text)
    → n < fuel
    → read_digits 0 (decimal_onto fuel n rest) ≡ read_digits n rest
unfolding decimal_onto
read-decimal_onto zero n rest h = absurd (omega arith)
read-decimal_onto (suc fuel) n rest h = elim (Bool-cases (ltb n 10)) [
  | inl small ↦
      rw small (read_digit 0 n rest (ground arith) ∙ ap (λ x. read_digits x rest) (omega arith))
  | inr large ↦ rw large (
      read-decimal_onto fuel (n / 10) ((b'0' + n % 10) ∷ rest) (ground arith)
      ∙ read_digit (n / 10) (n % 10) rest (omega arith)
      ∙ ap (λ x. read_digits x rest) (omega arith))
]

-- A numeral begins with a digit.
decimal_onto-head :
    (fuel n : ℕ) (rest : Text)
    → n < fuel
    → (c : ℕ) × (s : Text) × (decimal_onto fuel n rest ≡ c ∷ s) × (is_digit c ≡ true)
unfolding decimal_onto
decimal_onto-head zero n rest h = absurd (omega arith)
decimal_onto-head (suc fuel) n rest h = elim (Bool-cases (ltb n 10)) [
  | inl small ↦ (b'0' + n, rest, rw small, ground arith)
  | inr large ↦ rw large (decimal_onto-head fuel (n / 10) ((b'0' + n % 10) ∷ rest) (ground arith))
]

pub decimal-head : (n : ℕ) → (c : ℕ) × (s : Text) × (decimal n ≡ c ∷ s) × (is_digit c ≡ true)
unfolding decimal
decimal-head n = decimal_onto-head (suc n) n [] (omega arith)

decimal_onto-append :
    (fuel n : ℕ) (s rest : Text) → decimal_onto fuel n s ++ rest ≡ decimal_onto fuel n (s ++ rest)
unfolding decimal_onto
decimal_onto-append zero n s rest = refl
decimal_onto-append (suc fuel) n s rest =
    ground (arith, decimal_onto-append fuel (n / 10) ((b'0' + n % 10) ∷ s) rest)

read-stop : (n : ℕ) (rest : Text) → StopsAt rest → read_digits n rest ≡ n
unfolding read_digits
read-stop n [] h = refl
read-stop n (c ∷ s) h = rw h

scan_head :
    (c : ℕ) (s : Text) → is_digit c ≡ true → scan (c ∷ s) ≡ some (pos (read_digits 0 (c ∷ s)))
unfolding scan
scan_head c s h = ground arith

-- A numeral is read up to where its digits end.
pub scan-decimal : (n : ℕ) (rest : Text) → StopsAt rest → scan (decimal n ++ rest) ≡ some (pos n)
unfolding decimal
scan-decimal n rest h =
    let (c, s, e, d) = decimal_onto-head (suc n) n rest (omega arith) in
    let whole : read_digits 0 (c ∷ s) ≡ n =
      ap (read_digits 0) (sym e)
      ∙ read-decimal_onto (suc n) n rest (omega arith)
      ∙ read-stop n rest h in
    rw (decimal_onto-append (suc n) n [] rest, e) (scan_head c s d ∙ ap (λ x. some (pos x)) whole)

-- The decimal numeral of a number below 2 ^ 31, in front of anything but another digit, is read
-- as that number.
pub stoi-decimal :
    (n : ℕ) (rest : Text) → n < int_bound → StopsAt rest → stoi (decimal n ++ rest) ≡ ok (pos n)
unfolding stoi
stoi-decimal n rest h stop = ground (arith, scan-decimal n rest stop)

-- The same for 2 ^ 63 and `stol`.
pub stol-decimal :
    (n : ℕ) (rest : Text) → n < long_bound → StopsAt rest → stol (decimal n ++ rest) ≡ ok (pos n)
unfolding stol
stol-decimal n rest h stop = ground (arith, scan-decimal n rest stop)
