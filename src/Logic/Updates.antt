-- ===== src/Logic/Updates.antt =====
-- JoinRoom by a user for the user's own room, and the loop of Update (src/Source/LogicServer.cpp).
use ancestral_property_serve.Prelude.{
  ℕ, ◌≡◌, ◌∙◌, refl, Bool, true, none, some, [], ◌∷◌, Map, IntSet, lookup, erase, contains, add,
  if_keeps, lookup-erase, arith,
}
use ancestral_property_serve.Room.State.{Room, player_count}
use ancestral_property_serve.Room.Members.{leave_from_room}
use ancestral_property_serve.Room.Game.{tick}
use ancestral_property_serve.Logic.{
  Logic, put_room, remove_room, remove_player_from_room, add_player_to_room, move_player_to_room,
}
use ancestral_property_serve.Logic.Handlers.{handle_join_room, tick_rooms, update}
use ancestral_property_serve.Logic.Joining.{IsValid, put_room-IsValid, remove_room-eq, put_room-eq}
use ancestral_property_serve.Logic.Safety.{rooms-put_room}

remove_last-eq :
    (userid roomid : ℕ) (r : Room) (s : Logic)
    → lookup userid s.userid2roomid ≡ some roomid
    → lookup roomid s.rooms ≡ some r
    → player_count (leave_from_room userid r) ≡ 0
    → remove_player_from_room userid s
      ≡ some (
          remove_room roomid (
            put_room roomid
              (leave_from_room userid r)
              (record s { userid2roomid = erase userid s.userid2roomid })))
unfolding remove_player_from_room
remove_last-eq userid roomid r s e er last =
    rw (e, remove_player_from_room)
      (rw (er, remove_player_from_room) (rw (last, remove_player_from_room) refl))

-- A user who asks to join the room that the user is alone in is removed from it first, the room is
-- deleted with its last player, and the server goes on with the room that is not there any more: the
-- result is undefined.
pub handle_join_room-own_room :
    (userid roomid : ℕ) (r : Room) (s : Logic)
    → lookup userid s.userid2roomid ≡ some roomid
    → lookup roomid s.rooms ≡ some r
    → contains roomid s.roomid_using ≡ true
    → player_count (leave_from_room userid r) ≡ 0
    → handle_join_room userid roomid s ≡ none
unfolding handle_join_room move_player_to_room add_player_to_room
handle_join_room-own_room userid roomid r s e er used last =
    let s0 : Logic = record s { userid2roomid = erase userid s.userid2roomid } in
    let s1 = put_room roomid (leave_from_room userid r) s0 in
    let used1 : contains roomid s1.roomid_using ≡ true =
      rw (put_room-eq roomid (leave_from_room userid r) s0) used in
    let gone : lookup roomid (remove_room roomid s1).rooms ≡ none =
      rw (remove_room-eq roomid s1 used1) (ground (arith, lookup-erase roomid roomid s1.rooms)) in
    let undefined : add_player_to_room userid roomid (remove_room roomid s1) ≡ none =
      rw (gone, add_player_to_room) refl in
    ground (arith, er, remove_last-eq userid roomid r s e er last, undefined)

contains-cons :
    (k q : ℕ) (r : Room) (rooms : Map Room)
    → contains q rooms ≡ true
    → contains q ((k, r) ∷ rooms) ≡ true
unfolding lookup
contains-cons k q r rooms h = ground (arith, h)

contains-first : (k : ℕ) (r : Room) (rooms : Map Room) → contains k ((k, r) ∷ rooms) ≡ true
unfolding lookup
contains-first k r rooms = ground arith

in_games-IsValid :
    (games : IntSet) (s : Logic) → IsValid s → IsValid (record s { in_games = games })
in_games-IsValid games s v = record { in_rooms = v.in_rooms; using = v.using; free = v.free }

tick_rooms-IsValid :
    (is_chase_frame : Bool) (rooms : Map Room) (s : Logic)
    → ((q : ℕ) → contains q rooms ≡ true → contains q s.rooms ≡ true)
    → IsValid s
    → IsValid (tick_rooms is_chase_frame rooms s)
unfolding tick_rooms
tick_rooms-IsValid is_chase_frame [] s sub v = v
tick_rooms-IsValid is_chase_frame ((k, r) ∷ rooms) s sub v =
    let t = tick is_chase_frame r in
    let s1 = put_room k t.0 s in
    let known = sub k (contains-first k r rooms) in
    let v1 = put_room-IsValid k t.0 s known v in
    let kept : (q : ℕ) → contains q rooms ≡ true → contains q s1.rooms ≡ true =
      λ q h. rooms-put_room k q t.0 s known ∙ sub q (contains-cons k q r rooms h) in
    if_keeps (λ u. IsValid (tick_rooms is_chase_frame rooms u)) t.1
      {x = record s1 { in_games = add k s1.in_games }} {y = s1}
      (λ _. tick_rooms-IsValid is_chase_frame rooms _ kept (in_games-IsValid _ s1 v1))
      (λ _. tick_rooms-IsValid is_chase_frame rooms s1 kept v1)

-- A frame of all rooms keeps a server valid.
pub update-IsValid :
    (is_chase_frame : Bool) (s : Logic) → IsValid s → IsValid (update is_chase_frame s)
update-IsValid is_chase_frame s = tick_rooms-IsValid is_chase_frame s.rooms s (λ q h. h)
