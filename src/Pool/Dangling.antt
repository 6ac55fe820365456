-- ===== src/Pool/Dangling.antt =====
-- The heads and bodies that an ObjectPool (src/Tool/ObjectPool.cpp) deletes twice: Return deletes them
-- and keeps the pointers.
use ancestral_property_serve.Prelude.{
  ℕ, Bool, true, ◌||◌, Option, none, some, List, [], ◌∷◌, ◌++◌, lookup, lookup-insert, lookup-erase,
  ltb, ◌≡◌, arith,
}
use ancestral_property_serve.Pool.{
  ObjectPool, Message, Part, is_freed, deleted, safety_size, delete_message, delete_all, destroy,
  return_message,
}

-- A deletion of the message is undefined.
abbrev dangles : Option Message → Bool
dangles none = true
dangles (some m) = is_freed m.head || is_freed m.body

delete_message-dangles :
    (msg other : ℕ) (p : ObjectPool)
    → dangles (lookup msg p.heap) ≡ true
    → dangles (lookup msg (delete_message other p).heap) ≡ true
unfolding delete_message
delete_message-dangles msg other p h = ground (arith, h, lookup-erase other msg p.heap)

delete_message-undefined :
    (msg : ℕ) (p : ObjectPool)
    → dangles (lookup msg p.heap) ≡ true
    → (delete_message msg p).undefined ≡ true
unfolding delete_message
delete_message-undefined msg p h = ground (arith, h)

delete_message-stays :
    (msg : ℕ) (p : ObjectPool) → p.undefined ≡ true → (delete_message msg p).undefined ≡ true
unfolding delete_message
delete_message-stays msg p h = ground (arith, h)

delete_all-stays :
    (msgs : List ℕ) (p : ObjectPool) → p.undefined ≡ true → (delete_all msgs p).undefined ≡ true
unfolding delete_all
delete_all-stays [] p h = h
delete_all-stays (m ∷ ms) p h =
    delete_all-stays ms _ (delete_message-stays m (record p { pool = ms }) h)

-- A list of deletions with a message that dangles in it.
delete_all-undefined :
    (before after : List ℕ) (msg : ℕ) (p : ObjectPool)
    → dangles (lookup msg p.heap) ≡ true
    → (delete_all (before ++ msg ∷ after) p).undefined ≡ true
unfolding delete_all
delete_all-undefined [] after msg p h =
    delete_all-stays after _ (delete_message-undefined msg (record p { pool = after }) h)
delete_all-undefined (b ∷ before) after msg p h =
    delete_all-undefined before after msg _
      (delete_message-dangles msg b (record p { pool = before ++ msg ∷ after }) h)

-- A message that is given back to a pool with room for it, with a head, makes the pool's destructor
-- undefined: the destructor of Message deletes the head again.
destroy-undefined :
    (msg : ℕ) (m : Message) (p : ObjectPool)
    → lookup msg p.heap ≡ some m
    → m.head ≡ Part.live
    → ltb p.size safety_size ≡ true
    → (destroy (return_message msg p)).undefined ≡ true
unfolding return_message
destroy-undefined msg m p e l room =
    rw (room, return_message)
      (rw (e, return_message)
        (delete_all-undefined p.pool [] msg _ (
          ground (
            arith,
            l,
            lookup-insert msg msg (record { head = deleted m.head; body = deleted m.body }) p.heap,
          ))))

-- A message that is given back with a head, and given back again before it gets a new one, makes the
-- second Return undefined.
return_twice-undefined :
    (msg : ℕ) (m : Message) (p q : ObjectPool)
    → lookup msg p.heap ≡ some m
    → m.head ≡ Part.live
    → ltb p.size safety_size ≡ true
    → q.heap ≡ (return_message msg p).heap
    → (return_message msg q).undefined ≡ true
unfolding return_message delete_message
return_twice-undefined msg m p q e l room same = ground (
  arith,
  e,
  l,
  room,
  same,
  lookup-insert msg msg (record { head = deleted m.head; body = deleted m.body }) p.heap,
)

-- A message that is given back to a pool with room for it, with a head, is left with a pointer to the
-- deleted head. So the pool's destructor is undefined after that; and so is the next Return of this
-- message, by a pool q with the same messages on the heap: one that it was got from, and in which it
-- was given no new head.
pub return_message-dangles :
    (msg : ℕ) (m : Message) (p q : ObjectPool)
    → lookup msg p.heap ≡ some m
    → m.head ≡ Part.live
    → ltb p.size safety_size ≡ true
    → q.heap ≡ (return_message msg p).heap
    → ((destroy (return_message msg p)).undefined ≡ true)
      × ((return_message msg q).undefined ≡ true)
return_message-dangles msg m p q e l room same =
    (destroy-undefined msg m p e l room, return_twice-undefined msg m p q e l room same)
