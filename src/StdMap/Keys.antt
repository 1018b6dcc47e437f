-- ===== src/StdMap/Keys.antt =====
-- The key types of the program's maps: uint64_t and std::string.
use citescoop.Prelude.{ℕ, ◌≡◌, true, false, arith, ltb, ◌==◌, ==_iff}
use citescoop.Prelude.Text.{
  Text, text_eq, text_lt, text_eq_iff, text_lt_irrefl, text_lt_trans, text_lt_total,
}
use citescoop.StdMap.Defs.{Ord}

pub ltb_irrefl : (a : ℕ) → ltb a a ≡ false
ltb_irrefl a = ground arith

pub ltb_trans : (a b c : ℕ) → ltb a b ≡ true → ltb b c ≡ true → ltb a c ≡ true
ltb_trans a b c p q = ground arith

pub ltb_total : (a b : ℕ) → ltb a b ≡ false → (a == b) ≡ false → ltb b a ≡ true
ltb_total a b p q = ground arith

instance abbrev pub number_ord : Ord ℕ
number_ord = record {
  eq = ◌==◌;
  lt = ltb;
  eq_iff = ==_iff;
  lt_irrefl = ltb_irrefl;
  lt_trans = ltb_trans;
  lt_total = ltb_total;
}

instance abbrev pub text_ord : Ord Text
text_ord = record {
  eq = text_eq;
  lt = text_lt;
  eq_iff = text_eq_iff;
  lt_irrefl = text_lt_irrefl;
  lt_trans = text_lt_trans;
  lt_total = text_lt_total;
}
