-- ===== src/Logic/Handlers.antt =====
-- The handlers of src/Source/LogicServer.cpp, OnMsgBodyAnalysised and Update.
use Prim.Native.String.{String}
use ancestral_property_serve.Prelude.{
  ℕ, Bool, true, false, not, ◌||◌, Option, none, some, List, [], ◌∷◌, Map, IntSet, lookup, insert,
  erase, contains, add, ◌==◌, if◌then◌else◌, length,
}
use ancestral_property_serve.Enums.{BodyType}
use ancestral_property_serve.Room.State.{
  Room, Body, RequestType, RoomInfo, UserOperate, player_count,
}
use ancestral_property_serve.Room.Game.{
  end_game, leave_from_game, notify_user_join_game, on_user_operate, start_game, tick,
}
use ancestral_property_serve.Room.Members.{
  check_room_dead, reconnect, set_user_offline, user_info_change,
}
use ancestral_property_serve.Logic.{
  Logic, send_to_client, put_room, call_room_of, remove_room, remove_player_from_room,
  move_player_to_room, add_room,
}

-- The handlers. Each takes the sender's id from the head of the message.
unfoldable pub handle_join_room : ℕ → ℕ → Logic → Option Logic
handle_join_room userid roomid s =
    if not (contains roomid s.rooms)
    then some (
        send_to_client
          (record {
            type = BodyType.join_room;
            body = Body.join_room none "找不到该房间" RequestType.response false;
            userid = userid;
          })
          s)
    else move_player_to_room userid roomid s

unfoldable pub in_room : ℕ → ℕ → Logic → Bool
in_room userid roomid s = elim (lookup userid s.userid2roomid) [
  | none ↦ false
  | some r ↦ r == roomid
]

unfoldable pub handle_leave_room : ℕ → ℕ → Logic → Option Logic
handle_leave_room userid roomid s =
    if not (contains roomid s.rooms) || not (in_room userid roomid s)
    then some (
        send_to_client
          (record {
            type = BodyType.leave_room;
            body = Body.leave_room roomid "你不在该房间" RequestType.response false;
            userid = userid;
          })
          s)
    else remove_player_from_room userid s

unfoldable pub handle_create_room : ℕ → String → ℕ → ℕ → Logic → Option Logic
handle_create_room userid roomname draw unset s =
    if contains userid s.userid2roomid
    then some (
        send_to_client
          (record {
            type = BodyType.create_room;
            body = Body.create_room none false "你已在房间中" "Error" RequestType.response false;
            userid = userid;
          })
          s)
    else elim (add_room roomname draw unset s) [
      | none ↦ none
      | some (roomid, s1) ↦ move_player_to_room userid roomid (
          send_to_client
            (record {
              type = BodyType.create_room;
              body = Body.create_room (some roomid) true "创建成功" roomname RequestType.response true;
              userid = userid;
            })
            s1)
    ]

unfoldable pub room_list : Map Room → List RoomInfo
room_list [] = []
room_list ((roomid, r) ∷ rooms) =
    record { roomid = roomid; people_count = player_count r; roomname = r.m_name } ∷ room_list rooms

unfoldable pub handle_get_room_list : ℕ → Logic → Logic
handle_get_room_list userid s =
    send_to_client
      (record {
        type = BodyType.get_room_list;
        body =
            Body.get_room_list (room_list s.rooms) (length s.roomid_using) true
              RequestType.response;
        userid = userid;
      })
      s

-- Update: the loop over the rooms. `is_chase_frame` is JSON.IS_CHASE_FRAME.
unfoldable pub tick_rooms : Bool → Map Room → Logic → Logic
tick_rooms is_chase_frame [] s = s
tick_rooms is_chase_frame ((roomid, r) ∷ rooms) s =
    let t = tick is_chase_frame r in
    let s1 = put_room roomid t.0 s in
    tick_rooms is_chase_frame rooms
      (if t.1 then record s1 { in_games = add roomid s1.in_games } else s1)

abbrev pub update : Bool → Logic → Logic
update is_chase_frame s = tick_rooms is_chase_frame s.rooms s

unfoldable pub handle_logout : ℕ → Logic → Option Logic
handle_logout userid s = elim (lookup userid s.userid2roomid) [
  | none ↦ some s
  | some roomid ↦ elim (lookup roomid s.rooms) [
    | none ↦ none
    | some r ↦
        (let off = set_user_offline userid r in
          let s1 = put_room roomid off s in
          some (if check_room_dead off then remove_room roomid s1 else s1))
  ]
]

-- The user comes back to a game that runs.
unfoldable pub handle_login : ℕ → String → Logic → Logic
handle_login userid username s =
    let s1 = record s { userid2username = insert userid username s.userid2username } in
    elim (lookup userid s1.userid2roomid) [
      | none ↦ s1
      | some roomid ↦ elim (lookup roomid s1.rooms) [
        | none ↦ s1
        | some r ↦ if r.m_game_started then call_room_of userid (reconnect userid) s1 else s1
      ]
    ]

-- RemoveUser, which nothing calls.
abbrev remove_user : ℕ → Logic → Logic
remove_user userid s =
    if contains userid s.userid2roomid
    then record s { userid2roomid = erase userid s.userid2roomid }
    else s

-- The messages of OnMsgBodyAnalysised by their type, with what the handler reads of the body.
pub data Request : Type 0 where
  login_response : (userid : ℕ) (username : String) → Request
  join_room_request leave_room_request : (roomid : ℕ) → Request
  create_room_request : (roomname : String) (draw unset : ℕ) → Request
  get_room_list_request join_game_request quit_game_request start_game_request : Request
  end_game_request : Request
  change_role_request : (role_id : ℕ) → Request
  user_operate_request : Option UserOperate → Request
  user_logout : (userid : ℕ) → Request
  other : Request

unfoldable pub handle : ℕ → Request → Logic → Option Logic
handle sender (Request.login_response userid username) s = some (handle_login userid username s)
handle sender (Request.join_room_request roomid) s = handle_join_room sender roomid s
handle sender (Request.leave_room_request roomid) s = handle_leave_room sender roomid s
handle sender (Request.create_room_request roomname draw unset) s =
    handle_create_room sender roomname draw unset s
handle sender Request.get_room_list_request s = some (handle_get_room_list sender s)
handle sender Request.join_game_request s =
    some (call_room_of sender (notify_user_join_game sender) s)
handle sender Request.quit_game_request s = some (call_room_of sender (leave_from_game sender) s)
handle sender (Request.change_role_request role_id) s =
    some (call_room_of sender (user_info_change sender role_id) s)
handle sender Request.start_game_request s = some (call_room_of sender (start_game sender) s)
handle sender Request.end_game_request s = some (call_room_of sender end_game s)
handle sender (Request.user_operate_request body) s =
    some (call_room_of sender (on_user_operate sender body) s)
handle sender (Request.user_logout userid) s = handle_logout userid s
handle sender Request.other s = some s

-- A message of `sender` that arrives at socket fd: its gate is remembered first.
unfoldable pub on_msg_body_analysised : ℕ → ℕ → Request → Logic → Option Logic
on_msg_body_analysised fd sender request s =
    handle sender request (record s { user_gate = insert sender fd s.user_gate })

-- The constructor fills the pool of room ids.
unfoldable pub new_logic : IntSet → Logic
new_logic pool = record {
  rooms = [];
  roomid_pool = pool;
  roomid_using = [];
  userid2roomid = [];
  user_gate = [];
  in_games = [];
  userid2username = [];
  outbox = [];
}
