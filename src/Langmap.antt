-- ===== src/Langmap.antt =====
-- Languages by their ISO codes, src/langmap.cc.
use citescoop.Prelude.{ℕ, Option, none, some}
use citescoop.Prelude.Text.{Text}

-- Languages::lookup, which gperf makes of src/languages.gperf, as the lang_value of the entry.
abbrev pub Lookup : Type 0
Lookup = Text → Option ℕ

unfoldable pub iso_to_language : Lookup → Text → ℕ
iso_to_language lookup iso_code = elim (lookup iso_code) [ none ↦ 0 | some lang_value ↦ lang_value ]
