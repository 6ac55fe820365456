-- ===== src/Logic/Joining.antt =====
-- Users and their rooms (HandleJoinRoom, MovePlayerToRoom, RemovePlayerFromRoom, AddPlayerToRoom,
-- AddRoom and RemoveRoom of src/Source/LogicServer.cpp).
use ancestral_property_serve.Prelude.{
  ℕ, ◌≡◌, refl, true, false, some, List, [], ◌∷◌, Map, IntSet, lookup, insert, erase, contains, add,
  leb, ltb, Bool-cases, Option-cases, inl, inr, ◌==◌, if◌then◌else◌, if_keeps, lookup-insert,
  lookup-erase, arith,
}
use ancestral_property_serve.Config.{default_room_count}
use ancestral_property_serve.Room.State.{Room, Sent}
use ancestral_property_serve.Room.Members.{close_room}
use ancestral_property_serve.Logic.{
  Logic, send_to_client, forward, put_room, delete_room, remove_room, erase_users_of,
}

-- Every user's room is one of `rooms`.
abbrev pub AllIn : Map Room → Map ℕ → Type 0
AllIn rooms [] = Unit {0}
AllIn rooms ((u, r) ∷ m) = (contains r rooms ≡ true) × AllIn rooms m

-- The maps of a server between two messages: a user's room exists, the rooms are those in use, and
-- none of these is in the pool.
pub record IsValid (s : Logic) : Type 0 where
  pub in_rooms : AllIn s.rooms s.userid2roomid
  pub using : (r : ℕ) → contains r s.roomid_using ≡ contains r s.rooms
  pub free : (r : ℕ) → contains r s.roomid_pool ≡ true → contains r s.rooms ≡ false

-- Sending changes the outbox only.
pub forward-eq :
    (ms : List Sent) (s : Logic) → forward ms s ≡ record s { outbox = (forward ms s).outbox }
unfolding forward send_to_client
forward-eq [] s = refl
forward-eq (m ∷ ms) s = ground (arith, forward-eq ms (send_to_client m s))

pub IsValid-forward : (ms : List Sent) (s : Logic) → IsValid s → IsValid (forward ms s)
IsValid-forward ms s v =
    rw (forward-eq ms s) (record { in_rooms = v.in_rooms; using = v.using; free = v.free })

pub contains-insert :
    (k j : ℕ) (v : Room) (m : Map Room)
    → contains j (insert k v m) ≡ (if k == j then true else contains j m)
contains-insert k j v m = ground (arith, lookup-insert k j v m)

pub contains-add :
    (k j : ℕ) (m : IntSet) → contains j (add k m) ≡ (if k == j then true else contains j m)
unfolding add
contains-add k j m = ground (arith, lookup-insert k j tt m)

pub contains-erase :
    {V : Type 0} (k j : ℕ) (m : Map V)
    → contains j (erase k m) ≡ (if k == j then false else contains j m)
contains-erase k j m = ground (arith, lookup-erase k j m)

pub AllIn-lookup :
    (rooms : Map Room) (m : Map ℕ) (u r : ℕ)
    → AllIn rooms m
    → lookup u m ≡ some r
    → contains r rooms ≡ true
unfolding lookup
AllIn-lookup rooms [] u r a h = ground (arith, h)
AllIn-lookup rooms ((v, q) ∷ m) u r (a, b) h = ground (arith, a, h, AllIn-lookup rooms m u r b)

pub AllIn-insert :
    (rooms : Map Room) (m : Map ℕ) (u r : ℕ)
    → AllIn rooms m
    → contains r rooms ≡ true
    → AllIn rooms (insert u r m)
unfolding insert
AllIn-insert rooms [] u r a h = (h, tt)
AllIn-insert rooms ((v, q) ∷ m) u r (a, b) h =
    if_keeps (AllIn rooms) (v == u) (λ _. (h, b))
      (λ _.
        if_keeps (AllIn rooms) (ltb u v) (λ _. (h, (a, b)))
          (λ _. (a, AllIn-insert rooms m u r b h)))

pub AllIn-erase : (rooms : Map Room) (m : Map ℕ) (u : ℕ) → AllIn rooms m → AllIn rooms (erase u m)
unfolding erase
AllIn-erase rooms [] u a = tt
AllIn-erase rooms ((v, q) ∷ m) u (a, b) =
    if_keeps (AllIn rooms) (v == u) (λ _. AllIn-erase rooms m u b)
      (λ _. (a, AllIn-erase rooms m u b))

pub AllIn-more :
    (rooms more : Map Room) (m : Map ℕ)
    → ((r : ℕ) → contains r rooms ≡ true → contains r more ≡ true)
    → AllIn rooms m
    → AllIn more m
AllIn-more rooms more [] h a = tt
AllIn-more rooms more ((v, q) ∷ m) h (a, b) = (h q a, AllIn-more rooms more m h b)

AllIn-erase_users_of :
    (rooms : Map Room) (m : Map ℕ) (roomid : ℕ)
    → AllIn rooms m
    → AllIn (erase roomid rooms) (erase_users_of roomid m)
unfolding erase_users_of
AllIn-erase_users_of rooms [] roomid a = tt
AllIn-erase_users_of rooms ((v, q) ∷ m) roomid (a, b) =
    if_keeps (AllIn (erase roomid rooms)) (q == roomid) (λ _. AllIn-erase_users_of rooms m roomid b)
      (λ h. (
        ground (arith, contains-erase roomid q rooms, a, h),
        AllIn-erase_users_of rooms m roomid b,
      ))

-- A call of an existing room.
pub put_room-IsValid :
    (roomid : ℕ) (r : Room) (s : Logic)
    → contains roomid s.rooms ≡ true
    → IsValid s
    → IsValid (put_room roomid r s)
unfolding put_room
put_room-IsValid roomid r s known v = IsValid-forward r.outbox _ (record {
  in_rooms =
      AllIn-more s.rooms _ s.userid2roomid
        (λ q h. ground (arith, h, contains-insert roomid q (record r { outbox = [] }) s.rooms))
        v.in_rooms;
  using = λ q.
      ground (arith, known, v.using q, contains-insert roomid q (record r { outbox = [] }) s.rooms);
  free = λ q h.
      ground
        (arith, known, h, v.free q, contains-insert roomid q (record r { outbox = [] }) s.rooms);
})

delete_room-eq :
    (roomid : ℕ) (s : Logic)
    → delete_room roomid s ≡ record s { outbox = (delete_room roomid s).outbox }
unfolding delete_room
delete_room-eq roomid s = elim (Option-cases (lookup roomid s.rooms)) [
  | inl e ↦ rw (e, delete_room) refl
  | inr (r, e) ↦ rw (e, delete_room) (forward-eq (close_room r).outbox s)
]

-- The state of remove_room before the room itself is deleted.
abbrev pub without : ℕ → Logic → Logic
without roomid s = record s {
  roomid_using = erase roomid s.roomid_using;
  userid2roomid = erase_users_of roomid s.userid2roomid;
}

-- After remove_room, up to what is sent.
abbrev pub after_removal : ℕ → List (ℕ × Sent) → Logic → Logic
after_removal roomid sent s = record s {
  rooms = erase roomid s.rooms;
  roomid_using = erase roomid s.roomid_using;
  userid2roomid = erase_users_of roomid s.userid2roomid;
  roomid_pool = if leb roomid default_room_count then add roomid s.roomid_pool else s.roomid_pool;
  outbox = sent;
}

pub remove_room-eq :
    (roomid : ℕ) (s : Logic)
    → contains roomid s.roomid_using ≡ true
    → remove_room roomid s ≡ after_removal roomid (delete_room roomid (without roomid s)).outbox s
unfolding remove_room
remove_room-eq roomid s h = ground (arith, h, delete_room-eq roomid (without roomid s))

after_removal-IsValid :
    (roomid : ℕ) (sent : List (ℕ × Sent)) (s : Logic)
    → IsValid s
    → IsValid (after_removal roomid sent s)
after_removal-IsValid roomid sent s v = record {
  in_rooms = AllIn-erase_users_of s.rooms s.userid2roomid roomid v.in_rooms;
  using = λ q.
      ground
        (arith, v.using q, contains-erase roomid q s.rooms, contains-erase roomid q s.roomid_using);
  free = λ q h.
      ground
        (arith, h, v.free q, contains-erase roomid q s.rooms, contains-add roomid q s.roomid_pool);
}

pub remove_room-IsValid : (roomid : ℕ) (s : Logic) → IsValid s → IsValid (remove_room roomid s)
unfolding remove_room
remove_room-IsValid roomid s v = elim (Bool-cases (contains roomid s.roomid_using)) [
  | inl h ↦ rw (remove_room-eq roomid s h) (after_removal-IsValid roomid _ s v)
  | inr h ↦ rw (h, remove_room) v
]

pub rooms-remove_room :
    (roomid q : ℕ) (s : Logic)
    → IsValid s
    → contains q (remove_room roomid s).rooms ≡ (if roomid == q then false else contains q s.rooms)
unfolding remove_room lookup
rooms-remove_room roomid q s v = elim (Bool-cases (contains roomid s.roomid_using)) [
  | inl h ↦ rw (remove_room-eq roomid s h) (contains-erase roomid q s.rooms)
  | inr h ↦ rw (h, remove_room) (ground (arith, h, v.using roomid))
]

pub put_room-eq :
    (roomid : ℕ) (r : Room) (s : Logic)
    → put_room roomid r s ≡ record s {
      rooms = insert roomid (record r { outbox = [] }) s.rooms;
      outbox = (put_room roomid r s).outbox;
    }
unfolding put_room
put_room-eq roomid r s =
    forward-eq r.outbox (record s { rooms = insert roomid (record r { outbox = [] }) s.rooms })
