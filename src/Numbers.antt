-- ===== src/Numbers.antt =====
-- std::stoi, std::stol and std::stoul in base 10, and the casts that follow them in
-- src/parser/parser_impl.cc, src/extract/dump_parser.cc and src/openalex/snapshot_processor_impl.h,
-- on a platform with 32-bit int and 64-bit long.
pub mod Decimal
use citescoop.Prelude.{
  ℕ, zero, suc, ◌+◌, ◌-◌, ◌*◌, ◌%◌, ◌^◌, Bool, true, false, ◌&&◌, ◌||◌, Option, none, some, [], ◌∷◌,
  ltb, leb, ◌==◌, if◌then◌else◌,
}
use citescoop.Prelude.Int.{ℤ, pos, negsuc}
use citescoop.Prelude.Text.{Text}
use citescoop.Result.{Result, ok, err, out_of_range, invalid_argument, ◌>>=◌}

-- isspace and isdigit of the C locale
abbrev pub is_space : ℕ → Bool
is_space c = leb 9 c && leb c 13 || c == b' '

abbrev pub is_digit : ℕ → Bool
is_digit c = leb b'0' c && leb c b'9'

unfoldable pub skip_spaces : Text → Text
skip_spaces [] = []
skip_spaces (c ∷ s) = let rest = skip_spaces s in if is_space c then rest else c ∷ s

-- The number of the digits in front, behind those that gave `n`.
unfoldable pub read_digits : ℕ → Text → ℕ
read_digits n [] = n
read_digits n (c ∷ s) =
    let rest = read_digits (n * 10 + (c - b'0')) s in if is_digit c then rest else n

abbrev pub signed : Bool → ℕ → ℤ
signed true zero = pos 0
signed true (suc n) = negsuc n
signed false n = pos n

unfoldable pub scan_digits : Bool → Text → Option ℤ
unfolding read_digits
scan_digits negative [] = none
scan_digits negative (c ∷ s) =
    if is_digit c then some (signed negative (read_digits 0 (c ∷ s))) else none

unfoldable pub scan_sign : Text → Option ℤ
unfolding scan_digits
scan_sign [] = none
scan_sign (c ∷ s) =
    if c == b'-'
    then scan_digits true s
    else if c == b'+'
    then scan_digits false s
    else scan_digits false (c ∷ s)

-- strtol without its bounds: blanks, a sign, then digits as far as they go.
unfoldable pub scan : Text → Option ℤ
unfolding skip_spaces scan_sign
scan s = scan_sign (skip_spaces s)

abbrev pub or_invalid : Option ℤ → Result ℤ
or_invalid none = err invalid_argument
or_invalid (some n) = ok n

-- The integers from -bound to bound - 1.
abbrev pub fits : ℕ → ℤ → Bool
fits bound (pos n) = ltb n bound
fits bound (negsuc n) = ltb n bound

abbrev pub to_signed : ℕ → Text → Result ℤ
to_signed bound s = do n ← or_invalid (scan s); if fits bound n then ok n else err out_of_range

abbrev pub int_bound : ℕ
int_bound = 2 ^ 31

abbrev pub long_bound : ℕ
long_bound = 2 ^ 63

unfoldable pub stoi : Text → Result ℤ
unfolding scan
stoi = to_signed int_bound

unfoldable pub stol : Text → Result ℤ
unfolding scan
stol = to_signed long_bound

-- static_cast to an unsigned type of `modulus` values.
unfoldable pub to_unsigned : ℕ → ℤ → ℕ
to_unsigned modulus (pos n) = n % modulus
to_unsigned modulus (negsuc n) = modulus - 1 - n % modulus

abbrev pub u32_mod : ℕ
u32_mod = 2 ^ 32

abbrev pub u64_mod : ℕ
u64_mod = 2 ^ 64

abbrev pub magnitude : ℤ → ℕ
magnitude (pos n) = n
magnitude (negsuc n) = suc n

-- std::stoul takes a sign too: the number is negated in the unsigned type.
unfoldable pub stoul : Text → Result ℕ
unfolding scan to_unsigned
stoul s = do
  n ← or_invalid (scan s)
  if ltb (magnitude n) u64_mod then ok (to_unsigned u64_mod n) else err out_of_range
