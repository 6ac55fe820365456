-- ===== src/Prelude/Maps.antt =====
-- std::map<int, V> and std::set<int> as association lists in the order of their keys, so that the
-- head is `*begin()` and a walk over the list is a walk over the map.
use Prim.Native.Nat.{ℕ, suc, ◌≤◌}
use mathlib.Core.Path.{◌≡◌, refl}
use mathlib.Core.Bool.{Bool, true}
use mathlib.Core.List.{List, [], ◌∷◌}
use mathlib.Core.Option.{Option, none, some}
use native.Mathlib.Omega.{arith}
use ancestral_property_serve.Prelude.Tests.{ltb, ◌==◌, if◌then◌else◌, is_some, or_default}

abbrev pub Map {ℓ} : Type ℓ → Type ℓ
Map V = List (ℕ × V)

abbrev pub IntSet : Type 0
IntSet = Map (Unit {0})

module _ {ℓ} {V : Type ℓ} where
  unfoldable pub lookup : ℕ → Map V → Option V
  lookup k [] = none
  lookup k ((key, value) ∷ rest) = if key == k then some value else lookup k rest

  unfoldable pub insert : ℕ → V → Map V → Map V
  insert k v [] = (k, v) ∷ []
  insert k v ((key, value) ∷ rest) =
      if key == k
      then (k, v) ∷ rest
      else if ltb k key
      then (k, v) ∷ (key, value) ∷ rest
      else (key, value) ∷ insert k v rest

  unfoldable pub erase : ℕ → Map V → Map V
  erase k [] = []
  erase k ((j, w) ∷ m) = let rest = erase k m in if j == k then rest else (j, w) ∷ rest

  -- `m.count(k) > 0`.
  abbrev pub contains : ℕ → Map V → Bool
  contains k m = is_some (lookup k m)

  -- A read `m[k]` leaves the default behind where the key is missing.
  abbrev pub touch : ℕ → V → Map V → Map V
  touch k d m = if contains k m then m else insert k d m

  -- The value that `m[k]` reads.
  abbrev pub at : ℕ → V → Map V → V
  at k d m = or_default (lookup k m) d

  abbrev pub keys : Map V → List ℕ
  keys [] = []
  keys ((k, v) ∷ m) = k ∷ keys m

  -- `m.begin()->first`, if there is one.
  abbrev pub first_key : Map V → Option ℕ
  first_key [] = none
  first_key ((k, v) ∷ m) = some k

  -- The keys grow along the list, from `lo` on.
  abbrev pub SortedFrom : ℕ → Map V → Type 0
  SortedFrom lo [] = Unit {0}
  SortedFrom lo ((k, v) ∷ m) = (lo ≤ k) × SortedFrom (suc k) m

  abbrev pub Sorted : Map V → Type 0
  Sorted = SortedFrom 0

  pub lookup-insert :
      (k j : ℕ) (v : V) (m : Map V)
      → lookup j (insert k v m) ≡ (if k == j then some v else lookup j m)
  unfolding lookup insert
  lookup-insert k j v [] = refl
  lookup-insert k j v ((key, value) ∷ rest) = ground (arith, lookup-insert k j v rest)

  pub lookup-erase :
      (k j : ℕ) (m : Map V) → lookup j (erase k m) ≡ (if k == j then none else lookup j m)
  unfolding lookup erase
  lookup-erase k j [] = ground arith
  lookup-erase k j ((i, w) ∷ m) = ground (arith, lookup-erase k j m)

  pub erase_missing : (k : ℕ) (m : Map V) → lookup k m ≡ none → erase k m ≡ m
  unfolding lookup erase
  erase_missing k [] h = refl
  erase_missing k ((i, w) ∷ m) h = ground (arith, erase_missing k m)

  pub touch_present : (k : ℕ) (d : V) (m : Map V) → contains k m ≡ true → touch k d m ≡ m
  touch_present k d m h = rw h

unfoldable pub add : ℕ → IntSet → IntSet
add k s = insert k tt s
