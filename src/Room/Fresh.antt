-- ===== src/Room/Fresh.antt =====
-- The constructor of src/Logic/Room.cpp: a new room is valid and has all its pids free.
use Prim.Native.String.{String}
use ancestral_property_serve.Prelude.{
  ℕ, zero, suc, ◌+◌, ◌≤◌, ◌≡◌, refl, Bool, true, false, none, [], IntSet, lookup, contains, length,
  Sorted, add, lookup-insert, arith, if◌then◌else◌, ◌&&◌, leb, ltb,
}
use ancestral_property_serve.Prelude.Sizes.{insert-Sorted, length-insert}
use ancestral_property_serve.Room.State.{add_range, new_room}
use ancestral_property_serve.Room.Invariant.{IsValid}
use ancestral_property_serve.Room.Steps.{Playing-none}

abbrev in_range : ℕ → ℕ → ℕ → Bool
in_range first count p = leb first p && ltb p (first + count)

contains-add_range :
    (first count p : ℕ) (pool : IntSet)
    → contains p (add_range first count pool)
      ≡ (if in_range first count p then true else contains p pool)
unfolding add_range add
contains-add_range first zero p pool = ground arith
contains-add_range first (suc count) p pool =
    ground (
      arith,
      contains-add_range (first + 1) count p (add first pool),
      lookup-insert first p tt pool,
    )

add_range-Sorted :
    (first count : ℕ) (pool : IntSet) → Sorted pool → Sorted (add_range first count pool)
unfolding add_range add
add_range-Sorted first zero pool s = s
add_range-Sorted first (suc count) pool s =
    add_range-Sorted (first + 1) count (add first pool) (insert-Sorted first tt pool s)

length-add_range :
    (first count : ℕ) (pool : IntSet)
    → Sorted pool
    → ((p : ℕ) → first ≤ p → lookup p pool ≡ none)
    → length (add_range first count pool) ≡ count + length pool
unfolding add_range add
length-add_range first zero pool s h = omega arith
length-add_range first (suc count) pool s h = ground (
  arith,
  length-add_range (first + 1) count (add first pool) (insert-Sorted first tt pool s)
      (λ p l. ground (arith, lookup-insert first p tt pool, h p)),
  length-insert 0 first tt pool s,
  h first,
)

pub new_room-IsValid :
    (id : ℕ) (name : String) (size draw unset : ℕ) → IsValid (new_room id name size draw unset)
unfolding new_room lookup
new_room-IsValid id name size draw unset = record {
  places = record {
    pool_sorted = add_range-Sorted 1 size [] tt;
    users_sorted = tt;
    total = omega (arith, length-add_range 1 size [] tt (λ p l. refl));
    in_pool = λ p c. ground (arith, contains-add_range 1 size p []);
    in_use = λ u p e. ground arith;
    not_free = λ u p e. ground arith;
    one_each = λ u v p e. ground arith;
  };
  profiles = record {
    roles_sorted = tt;
    names_sorted = tt;
    with_role = λ u. refl;
    with_name = λ u. refl;
  };
  hosting = record { host_in = λ h e. ground arith; hostless = λ e. refl };
  playing = Playing-none false [];
}
