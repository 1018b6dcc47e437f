-- ===== src/Dump/Citations/Earlier.antt =====
-- The comparison that MakePageCitationList sorts by, as std::ranges::sort requires it.
use mathlib.Core.Path.{ap₂}
use citescoop.Prelude.{◌≡◌, Bool, true, false, arith, if◌then◌else◌}
use citescoop.Prelude.Int.{ℤ, pos, negsuc, ltb_ℤ, eqb_ℤ}
use citescoop.Prelude.Sorting.{IsStrictWeakOrder}
use citescoop.Proto.{RevisionCitations, Timestamp, revision_or_default, timestamp_or_default}
use citescoop.Dump.Citations.{earlier}

eqb_ℤ_iff : (a b : ℤ) → eqb_ℤ a b ≡ true → a ≡ b
eqb_ℤ_iff (pos a) (pos b) h = ground arith
eqb_ℤ_iff (negsuc a) (negsuc b) h = ground arith
eqb_ℤ_iff (pos a) (negsuc b) h = cc
eqb_ℤ_iff (negsuc a) (pos b) h = cc

eqb_ℤ_refl : (a : ℤ) → eqb_ℤ a a ≡ true
eqb_ℤ_refl (pos a) = ground arith
eqb_ℤ_refl (negsuc a) = ground arith

ltb_ℤ_irrefl : (a : ℤ) → ltb_ℤ a a ≡ false
ltb_ℤ_irrefl (pos a) = ground arith
ltb_ℤ_irrefl (negsuc a) = ground arith

ltb_ℤ_trans : (a b c : ℤ) → ltb_ℤ a b ≡ true → ltb_ℤ b c ≡ true → ltb_ℤ a c ≡ true
ltb_ℤ_trans a b c h k = ground arith

ltb_ℤ_total : (a b : ℤ) → ltb_ℤ a b ≡ false → ltb_ℤ b a ≡ false → a ≡ b
ltb_ℤ_total a b h k = ground arith

-- The comparison of two time stamps.
abbrev before : Timestamp → Timestamp → Bool
before a b = if eqb_ℤ a.seconds b.seconds then ltb_ℤ a.nanos b.nanos else ltb_ℤ a.seconds b.seconds

before_trans : (a b c : Timestamp) → before a b ≡ true → before b c ≡ true → before a c ≡ true
before_trans a b c h k = ground (
  arith,
  eqb_ℤ_iff a.seconds b.seconds,
  eqb_ℤ_iff b.seconds c.seconds,
  eqb_ℤ_iff a.seconds c.seconds,
  eqb_ℤ_refl b.seconds,
  ltb_ℤ_irrefl b.seconds,
  ltb_ℤ_trans a.seconds b.seconds c.seconds,
  ltb_ℤ_trans b.seconds c.seconds b.seconds,
  ltb_ℤ_trans a.nanos b.nanos c.nanos,
)

before_total : (a b : Timestamp) → before a b ≡ false → before b a ≡ false → a ≡ b
before_total a b h k =
    let seconds_eq : a.seconds ≡ b.seconds = ground (
      arith,
      eqb_ℤ_iff a.seconds b.seconds,
      eqb_ℤ_iff b.seconds a.seconds,
      ltb_ℤ_total a.seconds b.seconds,
    ) in
    let same : eqb_ℤ a.seconds b.seconds ≡ true = rw (seconds_eq) (eqb_ℤ_refl b.seconds) in
    let back : eqb_ℤ b.seconds a.seconds ≡ true = rw (seconds_eq) (eqb_ℤ_refl b.seconds) in
    let nanos_eq : a.nanos ≡ b.nanos =
      ltb_ℤ_total a.nanos b.nanos (ground (arith, same, h)) (ground (arith, back, k)) in
    ap₂ (λ x y. record { seconds = x; nanos = y }) seconds_eq nanos_eq

-- The time stamp of a revision.
abbrev pub time_of : RevisionCitations → Timestamp
time_of r = timestamp_or_default (revision_or_default r.revision).timestamp

before_irrefl : (a : Timestamp) → before a a ≡ false
before_irrefl a = rw (eqb_ℤ_refl a.seconds) (ltb_ℤ_irrefl a.nanos)

-- The comparison by seconds and then by nanoseconds meets the requirements of std::ranges::sort: it
-- is irreflexive and transitive, and to have the same time is transitive.
pub earlier-IsStrictWeakOrder : IsStrictWeakOrder earlier
unfolding earlier
earlier-IsStrictWeakOrder = record {
  irreflexive = λ a. before_irrefl (time_of a);
  transitive = λ a b c. before_trans (time_of a) (time_of b) (time_of c);
  tied_transitive = λ a b c h k l m.
      let same_ab = before_total (time_of a) (time_of b) h k in
      let same_bc = before_total (time_of b) (time_of c) l m in
      (
        rw (same_ab, same_bc) (before_irrefl (time_of c)),
        rw (same_ab, same_bc) (before_irrefl (time_of c)),
      );
}
