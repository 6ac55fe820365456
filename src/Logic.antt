-- ===== src/Logic.antt =====
-- LogicServer (src/Source/LogicServer.cpp, src/Header/Server/LogicServer.h): the rooms, the room of
-- each user, and the gate of each user. A call through the null pointer that `rooms[roomid]` reads
-- for a missing room, and a read of `*roomid_pool.rend()`, are undefined: the result is `none`.
pub mod Handlers
pub mod Joining
pub mod Safety
pub mod Requests
pub mod Updates
pub mod Rooms
pub mod Messages
pub mod Agreement
pub mod Membership
pub mod History
pub mod Whereabouts
pub mod Sending
mod Examples
use Prim.Native.String.{String}
use ancestral_property_serve.Prelude.{
  ℕ, zero, suc, ◌+◌, ◌≡◌, Bool, true, false, not, ◌&&◌, ◌||◌, Option, none, some, List, [], ◌∷◌,
  ◌++◌, Map, IntSet, lookup, insert, first_key, erase, contains, touch, at, add, keys, leb, ◌==◌,
  if◌then◌else◌, length, is_some,
}
use ancestral_property_serve.Enums.{BodyType}
use ancestral_property_serve.Config.{room_size, default_room_count}
use ancestral_property_serve.Room.State.{
  Room, Body, RequestType, RoomInfo, Sent, UserOperate, player_count, new_room,
}
use ancestral_property_serve.Room.Game.{
  end_game, leave_from_game, notify_user_join_game, on_user_operate, start_game, tick,
}
use ancestral_property_serve.Room.Members.{
  check_room_dead, close_room, join_room, leave_from_room, reconnect, set_user_offline,
  user_info_change,
}

pub record Logic : Type 0 where
  pub rooms : Map Room
  pub roomid_pool : IntSet
  pub roomid_using : IntSet
  pub userid2roomid : Map ℕ
  pub user_gate : Map ℕ
  pub in_games : IntSet
  pub userid2username : Map String
  pub outbox : List (ℕ × Sent)

-- The message goes to the user's gate, if one is known. `outbox` records the calls of SendMsg.
unfoldable pub send_to_client : Sent → Logic → Logic
send_to_client m s = elim (lookup m.userid s.user_gate) [
  | none ↦ s
  | some fd ↦ record s { outbox = s.outbox ++ (fd, m) ∷ [] }
]

unfoldable pub forward : List Sent → Logic → Logic
forward [] s = s
forward (m ∷ ms) s = forward ms (send_to_client m s)

-- What a call of a room leaves behind: the room, and what it sent in the call.
unfoldable pub put_room : ℕ → Room → Logic → Logic
put_room roomid r s =
    forward r.outbox (record s { rooms = insert roomid (record r { outbox = [] }) s.rooms })

-- `rooms[roomid]->f()`
unfoldable pub call_room : ℕ → (Room → Room) → Logic → Option Logic
call_room roomid f s = elim (lookup roomid s.rooms) [
  | none ↦ none
  | some r ↦ some (put_room roomid (f r) s)
]

-- `rooms[userid2roomid[userid]]->f()` behind the tests for a user's room.
unfoldable pub call_room_of : ℕ → (Room → Room) → Logic → Logic
call_room_of userid f s = elim (lookup userid s.userid2roomid) [
  | none ↦ s
  | some roomid ↦ elim (lookup roomid s.rooms) [ none ↦ s | some r ↦ put_room roomid (f r) s ]
]

unfoldable pub erase_users_of : ℕ → Map ℕ → Map ℕ
erase_users_of roomid [] = []
erase_users_of roomid ((u, r) ∷ m) =
    let rest = erase_users_of roomid m in if r == roomid then rest else (u, r) ∷ rest

-- `delete rooms[roomid]` sends what the room's destructor sends.
unfoldable pub delete_room : ℕ → Logic → Logic
delete_room roomid s = elim (lookup roomid s.rooms) [
  | none ↦ s
  | some r ↦ forward (close_room r).outbox s
]

unfoldable pub remove_room : ℕ → Logic → Logic
remove_room roomid s =
    if not (contains roomid s.roomid_using)
    then s
    else (let d = delete_room roomid (record s {
      roomid_using = erase roomid s.roomid_using;
      userid2roomid = erase_users_of roomid s.userid2roomid;
    }) in
        record d {
          rooms = erase roomid d.rooms;
          roomid_pool =
              if leb roomid default_room_count then add roomid d.roomid_pool else d.roomid_pool;
        })

unfoldable pub remove_player_from_room : ℕ → Logic → Option Logic
remove_player_from_room userid s = elim (lookup userid s.userid2roomid) [
  | none ↦ some s
  | some roomid ↦ elim (lookup roomid s.rooms) [
    | none ↦ none
    | some r ↦
        (let left = leave_from_room userid r in
          let s1 =
            put_room roomid left (record s { userid2roomid = erase userid s.userid2roomid }) in
          some (if player_count left == 0 then remove_room roomid s1 else s1))
  ]
]

-- GetUserName leaves an empty name behind for a user whose name is not known; JoinRoom asks for it
-- when it lets the user in.
unfoldable pub add_player_to_room : ℕ → ℕ → Logic → Option Logic
add_player_to_room userid roomid s = elim (lookup roomid s.rooms) [
  | none ↦ none
  | some r ↦
      (let joined = join_room userid (at userid "" s.userid2username) r in
        let s1 = put_room roomid joined.0 s in
        some (
          if joined.1
          then record s1 {
            userid2roomid = insert userid roomid s1.userid2roomid;
            userid2username = touch userid "" s1.userid2username;
          }
          else s1))
]

unfoldable pub move_player_to_room : ℕ → ℕ → Logic → Option Logic
move_player_to_room userid roomid s = elim (remove_player_from_room userid s) [
  | none ↦ none
  | some s1 ↦ add_player_to_room userid roomid s1
]

-- `draw` and `unset` are those of the room's constructor.
unfoldable pub add_room : String → ℕ → ℕ → Logic → Option (ℕ × Logic)
add_room roomname draw unset s = elim (first_key s.roomid_pool) [
  | none ↦ none
  | some roomid ↦ some (
    roomid,
    record s {
      roomid_pool = erase roomid s.roomid_pool;
      roomid_using = add roomid s.roomid_using;
      rooms = insert roomid (new_room roomid roomname room_size draw unset) s.rooms;
    },
  )
]
