-- ===== src/StdMap/Defs.antt =====
-- The operations of std::map that the program calls. A key is found by its equality alone; the
-- order says where a new entry goes.
use citescoop.Prelude.{
  ◌≡◌, ◌↔◌, Bool, true, false, Option, none, some, List, [], ◌∷◌, if◌then◌else◌, is_some,
}

-- A key type with its `==` and `<`.
pub record Ord {ℓ} (K : Type ℓ) : Type ℓ where
  pub eq : K → K → Bool
  pub lt : K → K → Bool
  pub eq_iff : (a b : K) → (eq a b ≡ true) ↔ (a ≡ b)
  pub lt_irrefl : (a : K) → lt a a ≡ false
  pub lt_trans : (a b c : K) → lt a b ≡ true → lt b c ≡ true → lt a c ≡ true
  pub lt_total : (a b : K) → lt a b ≡ false → eq a b ≡ false → lt b a ≡ true

abbrev pub Map {ℓ} : Type ℓ → Type ℓ → Type ℓ
Map K V = List (K × V)

module _ {ℓ} {K V : Type ℓ} ⦃o : Ord K⦄ where
  unfoldable pub find : Map K V → K → Option V
  find [] k = none
  find ((j, w) ∷ m) k = if o.eq j k then some w else find m k

  abbrev pub contains : Map K V → K → Bool
  contains m k = is_some (find m k)

  -- A new entry goes in front of the first key above its own.
  unfoldable pub place : K → V → Map K V → Map K V
  place k v [] = (k, v) ∷ []
  place k v ((j, w) ∷ m) =
      let rest = place k v m in if o.lt k j then (k, v) ∷ (j, w) ∷ m else (j, w) ∷ rest

  unfoldable pub replace : K → V → Map K V → Map K V
  replace k v [] = []
  replace k v ((j, w) ∷ m) = (j, if o.eq j k then v else w) ∷ replace k v m

  -- m.insert({k, v}): nothing where the key is there already.
  unfoldable pub insert : K → V → Map K V → Map K V
  unfolding find place
  insert k v m = if contains m k then m else place k v m

  -- m[k] = v
  unfoldable pub put : K → V → Map K V → Map K V
  unfolding find place replace
  put k v m = if contains m k then replace k v m else place k v m

  -- m.erase(k)
  unfoldable pub erase : K → Map K V → Map K V
  erase k [] = []
  erase k ((j, w) ∷ m) = let rest = erase k m in if o.eq j k then rest else (j, w) ∷ rest

  -- m.insert(n.begin(), n.end())
  unfoldable pub insert_range : Map K V → Map K V → Map K V
  unfolding insert
  insert_range [] m = m
  insert_range ((k, v) ∷ n) m = insert_range n (insert k v m)
