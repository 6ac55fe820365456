-- ===== src/Pool/Examples.antt =====
-- Concrete pools on which the theorems about src/Tool/ObjectPool.cpp apply.
use ancestral_property_serve.Prelude.{
  ℕ, ◌+◌, ◌≤◌, true, false, some, [], ◌∷◌, lookup, insert, length, ◌≡◌, refl,
}
use ancestral_property_serve.Pool.{
  ObjectPool, Part, new_pool_of, fill, get, return_message, destroy,
}
use ancestral_property_serve.Pool.Sharing.{Run, count, Run-new_pool-shared}
use ancestral_property_serve.Pool.Dangling.{return_message-dangles}

-- A pool of one message, which a user gets.
abbrev taken : ObjectPool
taken = record {
  pool = [];
  size = 0;
  heap = (0, record { head = Part.null; body = Part.null }) ∷ [];
  next = 1;
  undefined = false;
}

taken-Run : Run (new_pool_of 1) (0 ∷ []) taken
unfolding fill get insert
taken-Run = Run.gets 0 Run.here refl

Run-new_pool-shared_example :
    ((a : ℕ) → count a (0 ∷ []) + count a taken.pool ≤ 1)
    × (taken.size ≡ length taken.pool)
    × ((msg : ℕ) × (q : ObjectPool) × (get taken ≡ some (msg, q)) × (count msg (0 ∷ []) ≡ 0))
Run-new_pool-shared_example = Run-new_pool-shared 1 taken-Run

abbrev used : ObjectPool
used = record {
  pool = [];
  size = 0;
  heap = (0, record { head = Part.live; body = Part.live }) ∷ [];
  next = 1;
  undefined = false;
}

used_there : lookup 0 used.heap ≡ some (record { head = Part.live; body = Part.live })
unfolding lookup
used_there = refl

return_message-dangles_example :
    ((destroy (return_message 0 used)).undefined ≡ true)
    × ((return_message 0 (return_message 0 used)).undefined ≡ true)
return_message-dangles_example =
    return_message-dangles 0 (record { head = Part.live; body = Part.live }) used
      (return_message 0 used) used_there refl refl refl
