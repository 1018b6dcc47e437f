-- ===== src/StdMap/Lookup.antt =====
-- What a lookup finds after each operation, as one equation without side conditions.
use citescoop.Prelude.{◌≡◌, refl, Option, none, some, [], ◌∷◌, ◌++◌, arith, if◌then◌else◌, is_some}
use citescoop.StdMap.Defs.{Ord, Map, find, place, replace, insert, put, erase, insert_range}

-- The first of two options that has a value.
abbrev pub or_else {ℓ} : {A : Type ℓ} → Option A → Option A → Option A
or_else none b = b
or_else (some a) b = some a

module _ {ℓ} {K V : Type ℓ} ⦃o : Ord K⦄ where
  find-place :
      (k : K) (v : V) (m : Map K V) (j : K)
      → find m k ≡ none
      → find (place k v m) j ≡ (if o.eq k j then some v else find m j)
  unfolding find place
  find-place k v [] j h = refl
  find-place k v ((i, w) ∷ m) j h =
      ground (arith, o.eq_iff i k, o.eq_iff i j, o.eq_iff k j, find-place k v m j)

  find-replace :
      (k : K) (v : V) (m : Map K V) (j : K)
      → find (replace k v m) j
        ≡ (if o.eq k j then (if is_some (find m k) then some v else none) else find m j)
  unfolding find replace
  find-replace k v [] j = ground arith
  find-replace k v ((i, w) ∷ m) j =
      ground (arith, o.eq_iff i k, o.eq_iff i j, o.eq_iff k j, find-replace k v m j)

  pub find-insert :
      (k : K) (v : V) (m : Map K V) (j : K)
      → find (insert k v m) j ≡ (if o.eq k j then or_else (find m k) (some v) else find m j)
  unfolding insert
  find-insert k v m j = ground (arith, o.eq_iff k j, find-place k v m j)

  pub find-put :
      (k : K) (v : V) (m : Map K V) (j : K)
      → find (put k v m) j ≡ (if o.eq k j then some v else find m j)
  unfolding put
  find-put k v m j = ground (arith, o.eq_iff k j, find-place k v m j, find-replace k v m j)

  pub find-erase :
      (k : K) (m : Map K V) (j : K) → find (erase k m) j ≡ (if o.eq k j then none else find m j)
  unfolding find erase
  find-erase k [] j = ground arith
  find-erase k ((i, w) ∷ m) j =
      ground (arith, o.eq_iff i k, o.eq_iff i j, o.eq_iff k j, find-erase k m j)

  pub find-insert_range :
      (n m : Map K V) (j : K) → find (insert_range n m) j ≡ or_else (find m j) (find n j)
  unfolding insert_range find
  find-insert_range [] m j = ground arith
  find-insert_range ((k, v) ∷ n) m j =
      ground (arith, o.eq_iff k j, find-insert_range n (insert k v m) j, find-insert k v m j)

  pub find-append : (m n : Map K V) (k : K) → find (m ++ n) k ≡ or_else (find m k) (find n k)
  unfolding find
  find-append [] n k = refl
  find-append ((j, w) ∷ m) n k = ground (arith, find-append m n k)
