-- ===== src/Prelude/Sizes.antt =====
-- Order and size of the maps: what an insertion or a removal does to them.
use ancestral_property_serve.Prelude.Tests.{if◌then◌else◌}
use ancestral_property_serve.Prelude.Lists.{length}
use ancestral_property_serve.Prelude.Maps.{
  Map, lookup, insert, erase, erase_missing, contains, first_key, SortedFrom, Sorted,
}
use Prim.Native.Nat.{ℕ, suc, ◌≤◌, ◌<◌}
use mathlib.Core.Path.{◌≡◌, refl}
use mathlib.Core.Bool.{true}
use mathlib.Core.List.{[], ◌∷◌}
use mathlib.Core.Option.{none, some}
use native.Mathlib.Omega.{arith}

module _ {ℓ} {V : Type ℓ} where
  pub SortedFrom-mono : (a b : ℕ) (m : Map V) → a ≤ b → SortedFrom b m → SortedFrom a m
  SortedFrom-mono a b [] h s = tt
  SortedFrom-mono a b ((k, v) ∷ m) h s = (omega arith, s.1)

  pub lookup_below : (k lo : ℕ) (m : Map V) → SortedFrom lo m → k < lo → lookup k m ≡ none
  unfolding lookup
  lookup_below k lo [] s h = refl
  lookup_below k lo ((j, v) ∷ m) s h = ground (arith, lookup_below k (suc j) m s.1)

  pub insert-SortedFrom :
      (lo k : ℕ) (v : V) (m : Map V) → lo ≤ k → SortedFrom lo m → SortedFrom lo (insert k v m)
  unfolding insert
  insert-SortedFrom lo k v [] h s = (h, tt)
  insert-SortedFrom lo k v ((j, w) ∷ m) h s =
      ground (arith, insert-SortedFrom (suc j) k v m, SortedFrom-mono (suc k) (suc j) m)

  pub erase-SortedFrom : (lo k : ℕ) (m : Map V) → SortedFrom lo m → SortedFrom lo (erase k m)
  unfolding erase
  erase-SortedFrom lo k [] s = tt
  erase-SortedFrom lo k ((j, w) ∷ m) s =
      ground (arith, erase-SortedFrom (suc j) k m, SortedFrom-mono lo (suc j) (erase k m))

  pub length-insert :
      (lo k : ℕ) (v : V) (m : Map V)
      → SortedFrom lo m
      → length (insert k v m) ≡ (if contains k m then length m else suc (length m))
  unfolding insert lookup
  length-insert lo k v [] s = refl
  length-insert lo k v ((j, w) ∷ m) s =
      ground (arith, length-insert (suc j) k v m, lookup_below k (suc j) m)

  pub length-erase :
      (lo k : ℕ) (m : Map V)
      → SortedFrom lo m
      → (if contains k m then suc (length (erase k m)) else length (erase k m)) ≡ length m
  unfolding erase lookup
  length-erase lo k [] s = refl
  length-erase lo k ((j, w) ∷ m) s =
      ground (arith, length-erase (suc j) k m, lookup_below k (suc j) m)

  pub insert-Sorted : (k : ℕ) (v : V) (m : Map V) → Sorted m → Sorted (insert k v m)
  insert-Sorted k v m s = insert-SortedFrom 0 k v m (omega arith) s

  pub erase-Sorted : (k : ℕ) (m : Map V) → Sorted m → Sorted (erase k m)
  erase-Sorted k m s = erase-SortedFrom 0 k m s

  -- A key just put in and taken out again leaves the map as it was, if it was not there.
  pub erase-insert :
      (k lo : ℕ) (v : V) (m : Map V)
      → SortedFrom lo m
      → lookup k m ≡ none
      → erase k (insert k v m) ≡ m
  unfolding erase insert lookup
  erase-insert k lo v [] s h = ground arith
  erase-insert k lo v ((j, w) ∷ m) s h =
      ground (arith, erase-insert k (suc j) v m s.1, erase_missing k m)

  -- Taking out the first key and putting it back changes nothing.
  pub insert-erase_first :
      (k lo : ℕ) (v : V) (m : Map V)
      → SortedFrom lo m
      → lookup k m ≡ some v
      → first_key m ≡ some k
      → insert k v (erase k m) ≡ m
  unfolding erase insert lookup
  insert-erase_first k lo v [] s h e = ground arith
  insert-erase_first k lo v ((j, w) ∷ []) s h e = ground arith
  insert-erase_first k lo v ((j, w) ∷ (i, x) ∷ m) s h e =
      ground (arith, erase_missing k ((i, x) ∷ m), lookup_below k (suc j) ((i, x) ∷ m) s.1)

  pub lookup_first : (k : ℕ) (m : Map V) → first_key m ≡ some k → contains k m ≡ true
  unfolding lookup
  lookup_first k [] h = ground arith
  lookup_first k ((j, w) ∷ m) h = ground arith
