-- ===== src/Tests/Samples.antt =====
-- Concrete functions for what the model takes as parameters, and sample messages.
use mathlib.Core.List.{Perm}
use mathlib.Core.List.Perm
use citescoop.Prelude.{
  ℕ, Bool, Option, none, some, List, [], ◌∷◌, length, if◌then◌else◌, Bool-cases, inl, inr,
}
use citescoop.Prelude.Int.{pos}
use citescoop.Prelude.Text.{Text}
use citescoop.Proto.{Timestamp, ExtractedCitation, Revision, RevisionCitations}
use citescoop.Result.{Result, ok}
use citescoop.Dump.Citations.{Sort}
use citescoop.Dump.Citations.PageList.{SortLaws}
use citescoop.Dump.Extract.{Calls}

-- Insertion sort.
abbrev pub place_in {ℓ} : {A : Type ℓ} → (A → A → Bool) → A → List A → List A
place_in lt x [] = x ∷ []
place_in lt x (y ∷ ys) = let rest = place_in lt x ys in if lt y x then y ∷ rest else x ∷ y ∷ ys

abbrev pub insertion_sort : Sort
insertion_sort lt [] = []
insertion_sort lt (x ∷ xs) = place_in lt x (insertion_sort lt xs)

pub place_in-perm {ℓ} :
    {A : Type ℓ} (lt : A → A → Bool) (x : A) (ys : List A) → Perm (place_in lt x ys) (x ∷ ys)
place_in-perm lt x [] = Perm.refl (x ∷ [])
place_in-perm lt x (y ∷ ys) = elim (Bool-cases (lt y x)) [
  | inl after ↦ rw after (Perm.trans (Perm.cons y (place_in-perm lt x ys)) (Perm.swap x y ys))
  | inr before ↦ rw before (Perm.refl (x ∷ y ∷ ys))
]

pub insertion_sort-perm :
    (lt : RevisionCitations → RevisionCitations → Bool) (xs : List RevisionCitations)
    → Perm (insertion_sort lt xs) xs
insertion_sort-perm lt [] = Perm.refl []
insertion_sort-perm lt (x ∷ xs) =
    Perm.trans (place_in-perm lt x (insertion_sort lt xs)) (Perm.cons x (insertion_sort-perm lt xs))

abbrev pub insertion_sort-SortLaws : SortLaws insertion_sort
insertion_sort-SortLaws = record { permutes = insertion_sort-perm }

abbrev pub extracted : Text → ExtractedCitation
extracted name = record { title = some name; identifiers = none; urls = [] }

abbrev pub at_time : ℕ → Option Timestamp
at_time n = some (record { seconds = pos n; nanos = pos 0 })

abbrev pub revision : ℕ → ℕ → Revision
revision id time = record {
  revision_id = id;
  parent_id = none;
  user = none;
  timestamp = at_time time;
}

abbrev pub entries_for : List Text → List (Text × ExtractedCitation)
entries_for [] = []
entries_for (k ∷ ks) = (k, extracted k) ∷ entries_for ks

abbrev pub cited : ℕ → ℕ → List Text → RevisionCitations
cited id time keys = record { revision = some (revision id time); citations = entries_for keys }

-- A citation parser that takes its whole input for the title of a citation.
abbrev pub parse_title : Text → Result RevisionCitations
parse_title text = ok (record { revision = none; citations = (text, extracted text) ∷ [] })

-- A time stamp that counts characters.
abbrev pub calls : Calls
calls = record {
  parse = parse_title;
  sort = insertion_sort;
  timestamp_from = λ text. record { seconds = pos (length text); nanos = pos 0 };
}
