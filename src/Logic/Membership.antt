-- ===== src/Logic/Membership.antt =====
-- The operations of src/Source/LogicServer.cpp on who is where.
use Prim.Native.String.{String}
use ancestral_property_serve.Prelude.{
  ℕ, ◌≡◌, subst, refl, true, false, none, some, [], ◌∷◌, Map, IntSet, lookup, insert, erase,
  contains, at, first_key, ◌==◌, if_keeps, lookup-erase, Bool-cases, Option-cases, inl, inr, arith,
}
use ancestral_property_serve.Config.{room_size}
use ancestral_property_serve.Room.State.{Room, Sent, new_room, player_count}
use ancestral_property_serve.Room.Members.{join_room, leave_from_room}
use ancestral_property_serve.Room.History.{Call, step as room_step}
use ancestral_property_serve.Room.Users.{
  SameUsers, stays, step-SameUsers, leave_from_room-users, join_room-users,
}
use ancestral_property_serve.Logic.{
  Logic, send_to_client, forward, put_room, call_room_of, remove_room, erase_users_of,
  remove_player_from_room, add_player_to_room, move_player_to_room, add_room,
}
use ancestral_property_serve.Logic.Joining.{IsValid, forward-eq, put_room-eq, remove_room-eq}
use ancestral_property_serve.Logic.Rooms.{
  AllRooms-lookup, HasRooms, Gives, remove_player_from_room-HasRooms,
}
use ancestral_property_serve.Logic.Agreement.{
  Agreed, Agreed-same, Agreed-alike, Agreed-leave, Agreed-enter, Agreed-remove, Agreed-add,
}

abbrev pub Together : Logic → Type 0
Together s = Agreed s.rooms s.userid2roomid

-- Together, and the user is in no room.
abbrev Away : ℕ → Logic → Type 0
Away userid s = Together s × (lookup userid s.userid2roomid ≡ none)

pub send_to_client-Together : (m : Sent) (s : Logic) → Together s → Together (send_to_client m s)
unfolding forward
send_to_client-Together m s a = rw (forward-eq (m ∷ []) s) a

-- A call of a room that keeps its users.
pub put_room-Together :
    (k : ℕ) (r r' : Room) (s : Logic)
    → lookup k s.rooms ≡ some r
    → SameUsers r r'
    → Together s
    → Together (put_room k r' s)
put_room-Together k r r' s known same a =
    rw (put_room-eq k r' s) (Agreed-same a k r (record r' { outbox = [] }) known same)

pub remove_room-Together : (k : ℕ) (s : Logic) → Together s → Together (remove_room k s)
unfolding remove_room
remove_room-Together k s a = elim (Bool-cases (contains k s.roomid_using)) [
  | inl h ↦ rw (remove_room-eq k s h) (Agreed-remove a k)
  | inr h ↦ rw (h, remove_room) a
]

lookup-erase_users_of :
    (u k : ℕ) (users : Map ℕ) → lookup u users ≡ none → lookup u (erase_users_of k users) ≡ none
unfolding erase_users_of lookup
lookup-erase_users_of u k [] h = h
lookup-erase_users_of u k ((v, r) ∷ m) h = ground (arith, h, lookup-erase_users_of u k m)

remove_room-Away : (u k : ℕ) (s : Logic) → Away u s → Away u (remove_room k s)
unfolding remove_room
remove_room-Away u k s (a, away) = (
  remove_room-Together k s a,
  elim (Bool-cases (contains k s.roomid_using)) [
    | inl h ↦ rw (remove_room-eq k s h) (lookup-erase_users_of u k s.userid2roomid away)
    | inr h ↦ rw (h, remove_room) away
  ],
)

leave-Away :
    (userid k : ℕ) (r : Room) (s : Logic)
    → lookup k s.rooms ≡ some r
    → lookup userid s.userid2roomid ≡ some k
    → Together s
    → Away userid (
        put_room k
          (leave_from_room userid r)
          (record s { userid2roomid = erase userid s.userid2roomid }))
leave-Away userid k r s known there a =
    let left = leave_from_room userid r in
    rw (put_room-eq k left (record s { userid2roomid = erase userid s.userid2roomid })) (
      Agreed-leave a userid k r (record left { outbox = [] }) known there
          (λ v. leave_from_room-users userid v r),
      ground (arith, lookup-erase userid userid s.userid2roomid),
    )

remove_player_from_room-Away :
    (userid : ℕ) (s : Logic) → Together s → Gives (Away userid) (remove_player_from_room userid s)
unfolding remove_player_from_room
remove_player_from_room-Away userid s a = elim (Option-cases (lookup userid s.userid2roomid)) [
  | inl e ↦ rw (e, remove_player_from_room) (a, e)
  | inr (k, e) ↦ elim (Option-cases (lookup k s.rooms)) [
    | inl o ↦ rw (e, remove_player_from_room) (rw (o, remove_player_from_room) tt)
    | inr (r, o) ↦
        (let b = leave-Away userid k r s o e a in
          rw (e, remove_player_from_room)
            (rw (o, remove_player_from_room)
              (if_keeps (Away userid) (player_count (leave_from_room userid r) == 0)
                (λ _. remove_room-Away userid k _ b) (λ _. b))))
  ]
]

pub remove_player_from_room-Together :
    (userid : ℕ) (s : Logic) → Together s → Gives Together (remove_player_from_room userid s)
remove_player_from_room-Together userid s a =
    elim (Option-cases (remove_player_from_room userid s)) [
      | inl o ↦ rw o tt
      | inr (t, o) ↦
          rw o (subst (Gives (Away userid)) o (remove_player_from_room-Away userid s a)).0
    ]

-- A user who is in no room may be taken into one.
add_player_to_room-Together :
    (userid k : ℕ) (s : Logic)
    → Away userid s
    → HasRooms s
    → Gives Together (add_player_to_room userid k s)
unfolding add_player_to_room
add_player_to_room-Together userid k s (a, away) rooms = elim (Option-cases (lookup k s.rooms)) [
  | inl o ↦ rw (o, add_player_to_room) tt
  | inr (r, o) ↦
      (let name = at userid "" s.userid2username in
        let in_it =
          λ (v : ℕ). join_room-users userid v name r (AllRooms-lookup k r s.rooms rooms o) in
        let joined = join_room userid name r in
        rw (o, add_player_to_room)
          (elim (Bool-cases joined.1) [
            | inl h ↦ rw h (
                rw (put_room-eq k joined.0 s) (
                  Agreed-enter a userid k r (record joined.0 { outbox = [] }) o away
                    (λ v. ground (arith, h, in_it v))))
            | inr h ↦ rw h (
                rw (put_room-eq k joined.0 s) (
                  Agreed-alike a k r (record joined.0 { outbox = [] }) o
                    (λ v. ground (arith, h, in_it v))))
          ]))
]

pub move_player_to_room-Together :
    (userid k : ℕ) (s : Logic)
    → Together s
    → HasRooms s
    → Gives Together (move_player_to_room userid k s)
unfolding move_player_to_room
move_player_to_room-Together userid k s a rooms =
    elim (Option-cases (remove_player_from_room userid s)) [
      | inl o ↦ rw (o, move_player_to_room) tt
      | inr (t, o) ↦
          rw (o, move_player_to_room)
            (add_player_to_room-Together userid k t
              (subst (Gives (Away userid)) o (remove_player_from_room-Away userid s a))
              (subst (Gives HasRooms) o (remove_player_from_room-HasRooms userid s rooms)))
    ]

-- A call of a user's room that is a step of a room in which the users stay.
pub calls-Together :
    (userid : ℕ) (c : Call) (s : Logic)
    → stays c ≡ true
    → HasRooms s
    → Together s
    → Together (call_room_of userid (λ r. room_step r c) s)
unfolding call_room_of
calls-Together userid c s h rooms a = elim (Option-cases (lookup userid s.userid2roomid)) [
  | inl e ↦ rw (e, call_room_of) a
  | inr (k, e) ↦ elim (Option-cases (lookup k s.rooms)) [
    | inl o ↦ rw (e, call_room_of) (rw (o, call_room_of) a)
    | inr (r, o) ↦
        rw (e, call_room_of)
          (rw (o, call_room_of)
            (put_room-Together k r (room_step r c) s o
              (step-SameUsers r c (AllRooms-lookup k r s.rooms rooms o) h) a))
  ]
]

contains-first_key : (k : ℕ) (m : IntSet) → first_key m ≡ some k → contains k m ≡ true
unfolding lookup
contains-first_key k [] e = ground (arith, e)
contains-first_key k ((j, _) ∷ m) e = ground (arith, e)

contains-none : {V : Type 0} (k : ℕ) (m : Map V) → contains k m ≡ false → lookup k m ≡ none
contains-none k m h = ground (arith, h)

pub add_room-Together :
    (roomname : String) (draw unset : ℕ) (s : Logic) (k : ℕ) (t : Logic)
    → IsValid s
    → Together s
    → add_room roomname draw unset s ≡ some (k, t)
    → Together t
unfolding add_room new_room
add_room-Together roomname draw unset s k t v a e = elim (Option-cases (first_key s.roomid_pool)) [
  | inl o ↦ ground (arith, e, o)
  | inr (j, o) ↦
      (let r = new_room j roomname room_size draw unset in
        let unused = contains-none j s.rooms (v.free j (contains-first_key j s.roomid_pool o)) in
        let rooms : insert j r s.rooms ≡ t.rooms = ground (arith, e, o) in
        let users : s.userid2roomid ≡ t.userid2roomid = ground (arith, e, o) in
        subst (λ m. Agreed m t.userid2roomid) rooms
          (subst (Agreed (insert j r s.rooms)) users (Agreed-add a j r unused refl)))
]
