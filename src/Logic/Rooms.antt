-- ===== src/Logic/Rooms.antt =====
-- The rooms of a logic server (src/Source/LogicServer.cpp): each is a room in the sense of
-- src/Logic/Room.cpp whatever the server does with it.
use ancestral_property_serve.Prelude.{
  ℕ, ◌≡◌, subst, none, some, Option, List, [], ◌∷◌, Map, lookup, insert, erase, contains, at, ltb,
  ◌==◌, if_keeps, Bool-cases, Option-cases, inl, inr, arith,
}
use ancestral_property_serve.Room.State.{Room, Sent, player_count}
use ancestral_property_serve.Room.Invariant.{IsValid as IsRoom}
use ancestral_property_serve.Room.Validity.{
  IsValid-irrelevant, leave_from_room-IsValid, join_room-IsValid,
}
use ancestral_property_serve.Room.Members.{join_room, leave_from_room}
use ancestral_property_serve.Logic.{
  Logic, send_to_client, forward, put_room, call_room_of, remove_room, remove_player_from_room,
  add_player_to_room, move_player_to_room,
}
use ancestral_property_serve.Logic.Joining.{forward-eq, put_room-eq, remove_room-eq}

-- What holds of every room of a map.
abbrev pub Each : (Room → Type 0) → Map Room → Type 0
Each P [] = Unit {0}
Each P ((k, r) ∷ m) = P r × Each P m

module _ (P : Room → Type 0) where
  pub Each-lookup : (k : ℕ) (r : Room) (m : Map Room) → Each P m → lookup k m ≡ some r → P r
  unfolding lookup
  Each-lookup k r [] a e = ground (arith, e)
  Each-lookup k r ((j, q) ∷ m) (v, a) e = elim (Bool-cases (j == k)) [
    | inl h ↦ subst P (ground (arith, h, e)) v
    | inr h ↦ Each-lookup k r m a (ground (arith, h, e))
  ]

  pub Each-insert : (k : ℕ) (r : Room) (m : Map Room) → P r → Each P m → Each P (insert k r m)
  unfolding insert
  Each-insert k r [] v a = (v, tt)
  Each-insert k r ((j, q) ∷ m) v (w, a) =
      if_keeps (Each P) (j == k) (λ _. (v, a))
        (λ _. if_keeps (Each P) (ltb k j) (λ _. (v, (w, a))) (λ _. (w, Each-insert k r m v a)))

  pub Each-erase : (k : ℕ) (m : Map Room) → Each P m → Each P (erase k m)
  unfolding erase
  Each-erase k [] a = tt
  Each-erase k ((j, q) ∷ m) (w, a) =
      if_keeps (Each P) (j == k) (λ _. Each-erase k m a) (λ _. (w, Each-erase k m a))

-- Every room of the map is valid.
abbrev pub AllRooms : Map Room → Type 0
AllRooms m = Each IsRoom m

pub AllRooms-lookup :
    (k : ℕ) (r : Room) (m : Map Room) → AllRooms m → lookup k m ≡ some r → IsRoom r
AllRooms-lookup k r m a e = Each-lookup IsRoom k r m a e

pub AllRooms-insert :
    (k : ℕ) (r : Room) (m : Map Room) → IsRoom r → AllRooms m → AllRooms (insert k r m)
AllRooms-insert k r m v a = Each-insert IsRoom k r m v a

abbrev pub HasRooms : Logic → Type 0
HasRooms s = AllRooms s.rooms

-- What holds of a result, if there is one.
abbrev pub Gives : (Logic → Type 0) → Option Logic → Type 0
Gives P none = Unit {0}
Gives P (some s) = P s

forward-HasRooms : (ms : List Sent) (s : Logic) → HasRooms s → HasRooms (forward ms s)
forward-HasRooms ms s a = rw (forward-eq ms s) a

pub send_to_client-HasRooms : (m : Sent) (s : Logic) → HasRooms s → HasRooms (send_to_client m s)
unfolding forward
send_to_client-HasRooms m s a = forward-HasRooms (m ∷ []) s a

pub put_room-HasRooms :
    (k : ℕ) (r : Room) (s : Logic) → IsRoom r → HasRooms s → HasRooms (put_room k r s)
put_room-HasRooms k r s v a =
    rw (put_room-eq k r s) (AllRooms-insert k _ s.rooms (IsValid-irrelevant r _ _ _ _ _ v) a)

pub remove_room-HasRooms : (k : ℕ) (s : Logic) → HasRooms s → HasRooms (remove_room k s)
unfolding remove_room
remove_room-HasRooms k s a = elim (Bool-cases (contains k s.roomid_using)) [
  | inl h ↦ rw (remove_room-eq k s h) (Each-erase IsRoom k s.rooms a)
  | inr h ↦ rw (h, remove_room) a
]

pub call_room_of-HasRooms :
    (userid : ℕ) (f : Room → Room) (s : Logic)
    → ((r : Room) → IsRoom r → IsRoom (f r))
    → HasRooms s
    → HasRooms (call_room_of userid f s)
unfolding call_room_of
call_room_of-HasRooms userid f s h a = elim (Option-cases (lookup userid s.userid2roomid)) [
  | inl e ↦ rw (e, call_room_of) a
  | inr (k, e) ↦ elim (Option-cases (lookup k s.rooms)) [
    | inl o ↦ rw (e, call_room_of) (rw (o, call_room_of) a)
    | inr (r, o) ↦
        rw (e, call_room_of)
          (rw (o, call_room_of)
            (put_room-HasRooms k (f r) s (h r (AllRooms-lookup k r s.rooms a o)) a))
  ]
]

pub remove_player_from_room-HasRooms :
    (userid : ℕ) (s : Logic) → HasRooms s → Gives HasRooms (remove_player_from_room userid s)
unfolding remove_player_from_room
remove_player_from_room-HasRooms userid s a = elim (Option-cases (lookup userid s.userid2roomid)) [
  | inl e ↦ rw (e, remove_player_from_room) a
  | inr (k, e) ↦ elim (Option-cases (lookup k s.rooms)) [
    | inl o ↦ rw (e, remove_player_from_room) (rw (o, remove_player_from_room) tt)
    | inr (r, o) ↦
        (let v = leave_from_room-IsValid userid r (AllRooms-lookup k r s.rooms a o) in
          let s1 =
            put_room k (leave_from_room userid r)
              (record s { userid2roomid = erase userid s.userid2roomid }) in
          let a1 =
            put_room-HasRooms k (leave_from_room userid r)
              (record s { userid2roomid = erase userid s.userid2roomid }) v a in
          rw (e, remove_player_from_room)
            (rw (o, remove_player_from_room)
              (if_keeps HasRooms (player_count (leave_from_room userid r) == 0)
                (λ _. remove_room-HasRooms k s1 a1) (λ _. a1))))
  ]
]

add_player_to_room-HasRooms :
    (userid k : ℕ) (s : Logic) → HasRooms s → Gives HasRooms (add_player_to_room userid k s)
unfolding add_player_to_room
add_player_to_room-HasRooms userid k s a = elim (Option-cases (lookup k s.rooms)) [
  | inl o ↦ rw (o, add_player_to_room) tt
  | inr (r, o) ↦
      (let name = at userid "" s.userid2username in
        let v = join_room-IsValid userid name r (AllRooms-lookup k r s.rooms a o) in
        let a1 = put_room-HasRooms k (join_room userid name r).0 s v a in
        rw (o, add_player_to_room)
          (if_keeps HasRooms (join_room userid name r).1 (λ _. a1) (λ _. a1)))
]

pub move_player_to_room-HasRooms :
    (userid k : ℕ) (s : Logic) → HasRooms s → Gives HasRooms (move_player_to_room userid k s)
unfolding move_player_to_room
move_player_to_room-HasRooms userid k s a = elim (Option-cases (remove_player_from_room userid s)) [
  | inl o ↦ rw (o, move_player_to_room) tt
  | inr (t, o) ↦
      rw (o, move_player_to_room)
        (add_player_to_room-HasRooms userid k t
          (subst (Gives HasRooms) o (remove_player_from_room-HasRooms userid s a)))
]
