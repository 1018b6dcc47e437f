-- ===== src/StdMap/Sorted.antt =====
-- The entries stay in strictly increasing order of the keys, and a map is what its lookups say.
use citescoop.Prelude.{◌≡◌, refl, true, none, [], ◌∷◌, arith}
use citescoop.StdMap.Defs.{Ord, Map, find, place, replace, insert, put, erase, insert_range}

module _ {ℓ} {K V : Type ℓ} ⦃o : Ord K⦄ where
  -- Every key of the map lies above `k`.
  abbrev pub Above : K → Map K V → Type ℓ
  Above k [] = Unit
  Above k ((j, w) ∷ m) = (o.lt k j ≡ true) × Above k m

  abbrev pub IsSorted : Map K V → Type ℓ
  IsSorted [] = Unit
  IsSorted ((k, v) ∷ m) = Above k m × IsSorted m

  Above-trans : (i k : K) (m : Map K V) → o.lt i k ≡ true → Above k m → Above i m
  Above-trans i k [] h a = tt
  Above-trans i k ((j, w) ∷ m) h a = (o.lt_trans i k j h a.0, Above-trans i k m h a.1)

  Above-place :
      (i k : K) (v : V) (m : Map K V) → o.lt i k ≡ true → Above i m → Above i (place k v m)
  unfolding place
  Above-place i k v [] h a = (h, tt)
  Above-place i k v ((j, w) ∷ m) h a = ground (arith, Above-place i k v m)

  place-IsSorted :
      (k : K) (v : V) (m : Map K V) → find m k ≡ none → IsSorted m → IsSorted (place k v m)
  unfolding place find
  place-IsSorted k v [] h s = (tt, tt)
  place-IsSorted k v ((j, w) ∷ m) h s = ground (
    arith,
    place-IsSorted k v m,
    Above-place j k v m,
    Above-trans k j m,
    o.lt_total k j,
    o.eq_iff k j,
    o.eq_iff j k,
  )

  Above-replace : (i k : K) (v : V) (m : Map K V) → Above i m → Above i (replace k v m)
  unfolding replace
  Above-replace i k v [] a = tt
  Above-replace i k v ((j, w) ∷ m) a = (a.0, Above-replace i k v m a.1)

  replace-IsSorted : (k : K) (v : V) (m : Map K V) → IsSorted m → IsSorted (replace k v m)
  unfolding replace
  replace-IsSorted k v [] s = tt
  replace-IsSorted k v ((j, w) ∷ m) s = (Above-replace j k v m s.0, replace-IsSorted k v m s.1)

  pub insert-IsSorted : (k : K) (v : V) (m : Map K V) → IsSorted m → IsSorted (insert k v m)
  unfolding insert
  insert-IsSorted k v m s = ground (arith, place-IsSorted k v m)

  pub put-IsSorted : (k : K) (v : V) (m : Map K V) → IsSorted m → IsSorted (put k v m)
  unfolding put
  put-IsSorted k v m s = ground (arith, place-IsSorted k v m, replace-IsSorted k v m)

  Above-erase : (i k : K) (m : Map K V) → Above i m → Above i (erase k m)
  unfolding erase
  Above-erase i k [] a = tt
  Above-erase i k ((j, w) ∷ m) a = ground (arith, Above-erase i k m)

  pub erase-IsSorted : (k : K) (m : Map K V) → IsSorted m → IsSorted (erase k m)
  unfolding erase
  erase-IsSorted k [] s = tt
  erase-IsSorted k ((j, w) ∷ m) s = ground (arith, erase-IsSorted k m, Above-erase j k m)

  pub insert_range-IsSorted : (n m : Map K V) → IsSorted m → IsSorted (insert_range n m)
  unfolding insert_range
  insert_range-IsSorted [] m s = s
  insert_range-IsSorted ((k, v) ∷ n) m s =
      insert_range-IsSorted n (insert k v m) (insert-IsSorted k v m s)

  -- A key below all others is not found.
  pub find-Above : (k : K) (m : Map K V) → Above k m → find m k ≡ none
  unfolding find
  find-Above k [] a = refl
  find-Above k ((j, w) ∷ m) a = ground (arith, find-Above k m, o.eq_iff j k, o.lt_irrefl k)

  module _ (k : K) (v : V) (m : Map K V) (j : K) (w : V) (n : Map K V) (s : IsSorted ((k, v) ∷ m))
      (t : IsSorted ((j, w) ∷ n)) (h : (i : K) → find ((k, v) ∷ m) i ≡ find ((j, w) ∷ n) i) where
    heads_eq : (k ≡ j) × (v ≡ w)
    unfolding find
    heads_eq = ground (
      arith,
      h k,
      h j,
      o.eq_iff k k,
      o.eq_iff j j,
      o.eq_iff j k,
      o.eq_iff k j,
      o.lt_total k j,
      find-Above k ((j, w) ∷ n),
      find-Above j ((k, v) ∷ m),
      Above-trans k j n,
      Above-trans j k m,
    )

    tails_find : (i : K) → find m i ≡ find n i
    unfolding find
    tails_find i =
        ground (arith, h i, heads_eq, o.eq_iff k i, o.eq_iff j i, find-Above k m, find-Above j n)

  -- Sorted maps with the same lookups are the same list of entries.
  pub find_ext : (m n : Map K V) → IsSorted m → IsSorted n → ((k : K) → find m k ≡ find n k) → m ≡ n
  unfolding find
  find_ext [] [] s t h = refl
  find_ext [] ((j, w) ∷ n) s t h = ground (arith, h j, o.eq_iff j j)
  find_ext ((k, v) ∷ m) [] s t h = ground (arith, h k, o.eq_iff k k)
  find_ext ((k, v) ∷ m) ((j, w) ∷ n) s t h = cc (
    (heads_eq k v m j w n s t h).0,
    (heads_eq k v m j w n s t h).1,
    find_ext m n s.1 t.1 (tails_find k v m j w n s t h),
  )
