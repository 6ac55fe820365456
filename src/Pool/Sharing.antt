-- ===== src/Pool/Sharing.antt =====
-- Who has the messages of an ObjectPool (src/Tool/ObjectPool.cpp): the pool, or one of its users.
use ancestral_property_serve.Prelude.{
  ℕ, zero, suc, ◌+◌, ◌-◌, ◌≤◌, some, List, [], ◌∷◌, ◌++◌, ltb, ◌==◌, if◌then◌else◌, length,
  length-append, ◌≡◌, ◌⊎◌, refl, inl, inr, arith,
}
use ancestral_property_serve.Pool.{
  ObjectPool, allocate, delete_message, fill, new_pool_of, get, return_message, set_parts,
}

-- How often a is in a list.
abbrev pub count : ℕ → List ℕ → ℕ
count a [] = 0
count a (x ∷ xs) = let n = count a xs in if x == a then suc n else n

count-append : (a : ℕ) (xs ys : List ℕ) → count a (xs ++ ys) ≡ count a xs + count a ys
count-append a [] ys = omega arith
count-append a (x ∷ xs) ys = ground (arith, count-append a xs ys)

-- The users give back one of what they have.
unfoldable pub give_back : ℕ → List ℕ → List ℕ
give_back a [] = []
give_back a (x ∷ xs) = let rest = give_back a xs in if x == a then xs else x ∷ rest

count-give_back :
    (a b : ℕ) (xs : List ℕ)
    → 1 ≤ count b xs
    → count a xs ≡ count a (give_back b xs) + (if b == a then 1 else 0)
unfolding give_back
count-give_back a b [] h = ground (arith, h)
count-give_back a b (x ∷ xs) h = ground (arith, h, count-give_back a b xs)

-- What is done with a pool, with the messages that its users have: one is got, one that a user has is
-- given new parts or is given back.
pub data Run (p : ObjectPool) : List ℕ → ObjectPool → Type 0 where
  here : Run p [] p
  gets :
      {out : List ℕ} {q r : ObjectPool} (msg : ℕ)
      → Run p out q
      → get q ≡ some (msg, r)
      → Run p (msg ∷ out) r
  sets :
      {out : List ℕ} {q : ObjectPool} (msg : ℕ)
      → Run p out q
      → 1 ≤ count msg out
      → Run p out (set_parts msg q)
  returns :
      {out : List ℕ} {q : ObjectPool} (msg : ℕ)
      → Run p out q
      → 1 ≤ count msg out
      → Run p (give_back msg out) (return_message msg q)

-- A message is in one place at most, and was allocated; the size is that of the queue.
pub record IsShared (out : List ℕ) (p : ObjectPool) : Type 0 where
  pub once : (a : ℕ) → count a out + count a p.pool ≤ (if ltb a p.next then 1 else 0)
  pub size_eq : p.size ≡ length p.pool

fill-IsShared :
    (n : ℕ) (p : ObjectPool)
    → ((a : ℕ) → count a p.pool ≤ (if ltb a p.next then 1 else 0))
    → p.size ≡ n + length p.pool
    → IsShared [] (fill n p)
unfolding fill
fill-IsShared zero p h e = record { once = λ a. omega (arith, h a); size_eq = ground (arith, e) }
fill-IsShared (suc n) p h e =
    fill-IsShared n _ (λ a. ground (arith, h a, count-append a p.pool (p.next ∷ [])))
      (ground (arith, e, length-append p.pool (p.next ∷ [])))

list-cases : (xs : List ℕ) → (xs ≡ []) ⊎ ((y : ℕ) × (ys : List ℕ) × (xs ≡ y ∷ ys))
list-cases [] = inl refl
list-cases (y ∷ ys) = inr (y, ys, refl)

-- The two ways of Get.
get-cases :
    (out : List ℕ) (p : ObjectPool)
    → IsShared out p
    → ((rest : List ℕ) × (msg : ℕ) × (p.pool ≡ msg ∷ rest)
        × (get p ≡ some (msg, record p { size = p.size - 1; pool = rest })))
      ⊎ ((p.pool ≡ []) × (get p ≡ some (allocate p)))
unfolding get
get-cases out p v = elim (list-cases p.pool) [
  | inl e ↦ inr (e, ground (arith, e, v.size_eq))
  | inr (y, ys, e) ↦ inl (ys, y, e, ground (arith, e, v.size_eq))
]

get-IsShared :
    (out : List ℕ) (p r : ObjectPool) (msg : ℕ)
    → IsShared out p
    → get p ≡ some (msg, r)
    → IsShared (msg ∷ out) r
get-IsShared out p r msg v e = elim (get-cases out p v) [
  | inl (rest, m, f, g) ↦ record {
    once = λ a. ground (arith, e, f, g, v.once a);
    size_eq = ground (arith, e, f, g, v.size_eq);
  }
  | inr (f, g) ↦ record {
    once = λ a. ground (arith, e, f, g, v.once a);
    size_eq = ground (arith, e, f, g, v.size_eq);
  }
]

set_parts-IsShared :
    (out : List ℕ) (p : ObjectPool) (msg : ℕ) → IsShared out p → IsShared out (set_parts msg p)
unfolding set_parts
set_parts-IsShared out p msg v = record {
  once = λ a. ground (arith, v.once a);
  size_eq = ground (arith, v.size_eq);
}

return_message-IsShared :
    (out : List ℕ) (p : ObjectPool) (msg : ℕ)
    → IsShared out p
    → 1 ≤ count msg out
    → IsShared (give_back msg out) (return_message msg p)
unfolding return_message delete_message
return_message-IsShared out p msg v h = record {
  once =
      λ a. ground (arith, v.once a, count-give_back a msg out h, count-append a p.pool (msg ∷ []));
  size_eq = ground (arith, v.size_eq, length-append p.pool (msg ∷ []));
}

Run-IsShared : {p q : ObjectPool} {out : List ℕ} → IsShared [] p → Run p out q → IsShared out q
Run-IsShared v Run.here = v
Run-IsShared v (Run.gets {out = out} {q = q} {r = r} msg run e) =
    get-IsShared out q r msg (Run-IsShared v run) e
Run-IsShared v (Run.sets {out = out} {q = q} msg run h) =
    set_parts-IsShared out q msg (Run-IsShared v run)
Run-IsShared v (Run.returns {out = out} {q = q} msg run h) =
    return_message-IsShared out q msg (Run-IsShared v run) h

new_pool_of-IsShared : (n : ℕ) → IsShared [] (new_pool_of n)
new_pool_of-IsShared n = fill-IsShared n _ (λ a. ground arith) (omega arith)

-- Whatever the users of a pool do, if each gives back only what it has: a message is with one user or
-- in the pool, and in neither twice; the size is the length of the queue; and Get has a result, a
-- message that no user has.
pub Run-new_pool-shared :
    (n : ℕ) {out : List ℕ} {p : ObjectPool}
    → Run (new_pool_of n) out p
    → ((a : ℕ) → count a out + count a p.pool ≤ 1)
      × (p.size ≡ length p.pool)
      × ((msg : ℕ) × (q : ObjectPool) × (get p ≡ some (msg, q)) × (count msg out ≡ 0))
Run-new_pool-shared n {out = out} {p = p} run =
    let v = Run-IsShared (new_pool_of-IsShared n) run in
    (
      λ a. ground (arith, v.once a),
      v.size_eq,
      elim (get-cases out p v) [
        | inl (rest, m, f, g) ↦ (m, _, g, ground (arith, f, v.once m))
        | inr (f, g) ↦ (p.next, _, g, ground (arith, v.once p.next))
      ],
    )
