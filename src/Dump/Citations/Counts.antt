-- ===== src/Dump/Citations/Counts.antt =====
-- How often the citations of a page name a revision, as the first or as the removing one.
use citescoop.Prelude.{
  ℕ, ◌+◌, ◌≡◌, refl, Bool, true, false, Option, none, some, List, [], ◌∷◌, map, ◌++◌, arith, ◌==◌,
  if◌then◌else◌,
}
use citescoop.Prelude.Int.{pos, decrement, increment}
use citescoop.Prelude.Text.{Text}
use citescoop.Proto.{Revision, Citation}
use citescoop.StdMap.{Map, find, contains, place, insert, find-put, find-erase, find-insert}
use citescoop.StdMap.Keys.{number_ord, text_ord}
use citescoop.Result.{Returns, Returns-bind}
use citescoop.Dump.Citations.{References, count_of, unreference, reference, value_at}

abbrev pub one_if : Bool → ℕ
one_if true = 1
one_if false = 0

abbrev pub names : Option ℕ → ℕ → ℕ
names none id = 0
names (some x) id = one_if (x == id)

abbrev pub citation_references : Citation → ℕ → ℕ
citation_references c id = one_if (c.revision_added == id) + names c.revision_removed id

unfoldable pub references_in : List Citation → ℕ → ℕ
references_in [] id = 0
references_in (c ∷ cs) id = citation_references c id + references_in cs id

-- The references are those that `total` says: each counter is its number, and the revisions to
-- store are those of the page with a counter above zero.
pub record Exact (page_revisions : Map ℕ Revision) (total : ℕ → ℕ) (refs : References)
    : Type 0 where
  pub count : (id : ℕ) → count_of refs.ref_count id ≡ pos (total id)
  pub stored :
      (id : ℕ) → find refs.to_store id ≡ (if total id == 0 then none else find page_revisions id)

value_at-Returns :
    (m : Map ℕ Revision) (id : ℕ)
    → contains m id ≡ true
    → Returns (value_at m id) (λ r. find m id ≡ some r)
unfolding value_at
value_at-Returns m id h = ground arith

module _ (page_revisions : Map ℕ Revision) (f g : ℕ → ℕ) (refs : References) where
  pub Exact-cong :
      Exact page_revisions f refs → ((id : ℕ) → f id ≡ g id) → Exact page_revisions g refs
  Exact-cong x e = record {
    count = λ id. ground (arith, x.count id, e id);
    stored = λ id. ground (arith, x.stored id, e id);
  }

  pub unreference-Exact :
      (id : ℕ)
      → Exact page_revisions f refs
      → ((j : ℕ) → f j ≡ one_if (id == j) + g j)
      → Exact page_revisions g (unreference id refs)
  unfolding unreference
  unreference-Exact id x e = record {
    count = λ j. ground (
      arith,
      x.count id,
      x.count j,
      e id,
      e j,
      find-put id (decrement (count_of refs.ref_count id)) refs.ref_count j,
    );
    stored = λ j. ground (arith, x.count id, x.stored j, e id, e j, find-erase id refs.to_store j);
  }

  pub reference-Exact :
      (id : ℕ)
      → contains page_revisions id ≡ true
      → Exact page_revisions f refs
      → ((j : ℕ) → g j ≡ one_if (id == j) + f j)
      → Returns (reference page_revisions id refs) (Exact page_revisions g)
  unfolding reference
  reference-Exact id h x e =
      Returns-bind _ _ (λ revision. find page_revisions id ≡ some revision) (Exact page_revisions g)
        (value_at-Returns page_revisions id h)
        λ revision here. record {
          count = λ j. ground (
            arith,
            x.count id,
            x.count j,
            e id,
            e j,
            find-put id (increment (count_of refs.ref_count id)) refs.ref_count j,
          );
          stored = λ j. ground (
            arith,
            x.stored id,
            x.stored j,
            e id,
            e j,
            here,
            find-insert id revision refs.to_store j,
          );
        }

pub references_in-append :
    (xs ys : List Citation) (id : ℕ)
    → references_in (xs ++ ys) id ≡ references_in xs id + references_in ys id
unfolding references_in
references_in-append [] ys id = omega arith
references_in-append (x ∷ xs) ys id = omega (arith, references_in-append xs ys id)

-- The entries of a map without their keys.
abbrev pub values : Map Text Citation → List Citation
values = map (λ entry. entry.1)

references_in-place :
    (key : Text) (c : Citation) (m : Map Text Citation) (id : ℕ)
    → references_in (values (place key c m)) id
      ≡ citation_references c id + references_in (values m) id
unfolding references_in place
references_in-place key c [] id = refl
references_in-place key c ((k, d) ∷ m) id = ground (arith, references_in-place key c m id)

pub references_in-insert :
    (key : Text) (c : Citation) (m : Map Text Citation) (id : ℕ)
    → contains m key ≡ false
    → references_in (values (insert key c m)) id
      ≡ citation_references c id + references_in (values m) id
unfolding insert
references_in-insert key c m id h = rw h (references_in-place key c m id)
