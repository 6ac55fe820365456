-- ===== src/Room/Game.antt =====
-- src/Logic/Room.cpp, the part that moves a room in and out of a game: messages, JoinGame,
-- LeaveFromGame, EndGame, KickAllUserFromGame, StartGame, Tick, OnUserOperate.
-- LeaveFromGame and EndGame call one another: EndGame takes fuel, and `none` is fuel run out.
use Prim.Native.String.{String}
use ancestral_property_serve.Prelude.{
  ℕ, ◌+◌, zero, suc, Bool, true, false, not, Option, none, some, List, [], ◌∷◌, ◌++◌, length, map,
  insert, erase, contains, touch, at, keys, is_empty, if◌then◌else◌, or_default,
}
use ancestral_property_serve.Enums.{BodyType}
use ancestral_property_serve.Room.State.{
  Room, Body, Frame, UserOperate, UserInfo, OperateType, is_host,
}

-- LOGICSERVER.SendToClient, once and for each user of a list.
abbrev pub send_to_client : BodyType → Body → ℕ → Room → Room
send_to_client type body userid r = record r {
  outbox = r.outbox ++ record { type = type; body = body; userid = userid } ∷ [];
}

abbrev pub send_to_each : BodyType → Body → List ℕ → Room → Room
send_to_each type body userids r = record r {
  outbox = r.outbox ++ map (λ u. record { type = type; body = body; userid = u }) userids;
}

unfoldable pub broad_cast_to_game : BodyType → Body → Room → Room
broad_cast_to_game type body r = send_to_each type body (keys r.in_game_id2pid) r

unfoldable pub broad_cast_to_room : BodyType → Body → Room → Room
broad_cast_to_room type body r = send_to_each type body (keys r.userid2userpid) r

-- What GetRoomUserInfos says of a user. The three maps have the same keys in a valid room, so each
-- `[]` finds its key.
unfoldable pub user_info : Room → ℕ × String → UserInfo
user_info r (userid, name) = record {
  username = name;
  userid = userid;
  is_roomhost = is_host r userid;
  role_id = at userid 0 r.userid2roleid;
  userpid = at userid 0 r.userid2userpid;
  in_game = contains userid r.in_game_id2pid;
}

-- A UserInfo as it is made.
abbrev pub no_info : UserInfo
no_info = record {
  username = "";
  userid = 0;
  is_roomhost = false;
  role_id = 0;
  userpid = 0;
  in_game = false;
}

-- A vector of `n` new entries after one write to each place from 0 on, `none` if a write is beyond it.
unfoldable pub fill_infos : ℕ → List UserInfo → Option (List UserInfo)
fill_infos zero [] = some []
fill_infos zero (x ∷ xs) = none
fill_infos (suc n) [] = elim (fill_infos n []) [ none ↦ none | some infos ↦ some (no_info ∷ infos) ]
fill_infos (suc n) (x ∷ xs) = elim (fill_infos n xs) [ none ↦ none | some infos ↦ some (x ∷ infos) ]

-- `none` if the names are more than the users, which writes beyond the end of the vector.
unfoldable pub get_room_user_infos : Room → Option (List UserInfo)
get_room_user_infos r = fill_infos (length r.userid2userpid) (map (user_info r) r.id2name)

unfoldable pub room_all_info : Room → Body
room_all_info r = Body.notify_room_info (get_room_user_infos r) r.m_id r.m_game_started

unfoldable pub send_room_all_info : ℕ → Room → Room
send_room_all_info userid r = send_to_client BodyType.notify_room_info (room_all_info r) userid r

unfoldable pub send_room_all_info_to_all : Room → Room
send_room_all_info_to_all r =
    send_to_each BodyType.notify_room_info (room_all_info r) (keys r.userid2roleid) r

-- `frame.add_operates()->CopyFrom(op)`.
abbrev pub add_operate : UserOperate → Room → Room
add_operate op r = record r {
  frame = record { frame_id = r.frame.frame_id; operates = r.frame.operates ++ op ∷ [] };
}

unfoldable pub notify_user_join_game : ℕ → Room → Room
notify_user_join_game userid r =
    if not r.m_game_started
    then r
    else if contains userid r.userid2userpid
    then add_operate
        (record {
          values = at userid 0 r.userid2roleid ∷ [];
          opt = OperateType.join_game;
          userpid = at userid 0 r.userid2userpid;
        })
        (record r { userid2roleid = touch userid 0 r.userid2roleid })
    else r

unfoldable pub notify_user_quit_game : ℕ → Room → Room
notify_user_quit_game userid r =
    if not r.m_game_started
    then r
    else if contains userid r.in_game_id2pid
    then add_operate
        (record {
          values = [];
          opt = OperateType.leave_game;
          userpid = at userid 0 r.in_game_id2pid;
        })
        r
    else r

unfoldable pub join_game : ℕ → Room → Room
join_game userid r =
    if not r.m_game_started
    then r
    else if contains userid r.userid2userpid
    then (let r' = notify_user_join_game userid r in
        record r' {
          in_game_id2pid = insert userid (at userid 0 r'.userid2userpid) r'.in_game_id2pid;
        })
    else r

unfoldable pub notify_game_start_to_user : ℕ → Room → Room
notify_game_start_to_user userid r =
    send_to_client BodyType.start_game
      (Body.start_game r.m_id r.m_seed (at userid 0 r.userid2userpid)) userid
      (record r { userid2userpid = touch userid 0 r.userid2userpid })

-- A loop of `f` over the keys of a map.
unfoldable pub for_each : (ℕ → Room → Room) → List ℕ → Room → Room
for_each f [] r = r
for_each f (u ∷ us) r = for_each f us (f u r)

unfoldable pub notify_game_start : Room → Room
notify_game_start r = for_each notify_game_start_to_user (keys r.userid2userpid) r

unfoldable pub notify_game_end : Room → Room
notify_game_end r = broad_cast_to_game BodyType.end_game (Body.end_game r.m_id) r

-- LeaveFromGame over the EndGame that it may call.
unfoldable pub leave_from_game_by : (Room → Option Room) → ℕ → Room → Option Room
leave_from_game_by end userid r =
    if contains userid r.in_game_id2pid
    then (let r1 =
          notify_user_quit_game userid
            (record r { in_game_id2pid = erase userid r.in_game_id2pid }) in
        let r2 : Option Room = if is_empty r1.in_game_id2pid then end r1 else some r1 in
        elim r2 [ none ↦ none | some r3 ↦ some (send_room_all_info_to_all r3) ])
    else some r

-- The loop of KickAllUserFromGame over the copied keys.
unfoldable pub kick_each : (ℕ → Room → Option Room) → List ℕ → Room → Option Room
kick_each leave [] r = some r
kick_each leave (u ∷ us) r = elim (leave u r) [ none ↦ none | some r' ↦ kick_each leave us r' ]

unfoldable pub end_game_fuel : ℕ → Room → Option Room
end_game_fuel zero r = none
end_game_fuel (suc fuel) r =
    let leave = leave_from_game_by (end_game_fuel fuel) in
    if not r.m_game_started
    then some r
    else let r1 = notify_game_end (record r { m_game_started = false }) in
      elim (kick_each leave (keys r1.in_game_id2pid) r1) [
        | none ↦ none
        | some r2 ↦ some (send_room_all_info_to_all r2)
      ]

-- Two levels of EndGame (Room/Termination).
unfoldable pub end_game : Room → Room
end_game r = or_default (end_game_fuel 2 r) r

unfoldable pub leave_from_game : ℕ → Room → Room
leave_from_game userid r = or_default (leave_from_game_by (end_game_fuel 2) userid r) r

unfoldable pub kick_all_user_from_game : Room → Room
kick_all_user_from_game r = for_each leave_from_game (keys r.in_game_id2pid) r

unfoldable pub start_game : ℕ → Room → Room
start_game userid r =
    if r.m_game_started
    then r
    else if is_host r userid
    then (let r1 = notify_game_start (record r {
      m_game_started = true;
      frame_id = 0;
      frame = record { frame_id = r.frame.frame_id; operates = [] };
      all_frames = [];
    }) in
        send_room_all_info_to_all (for_each join_game (keys r1.userid2userpid) r1))
    else r

-- `is_chase_frame` is JSON.IS_CHASE_FRAME. `frame_id++` overflows only after 2 ^ 31 frames.
unfoldable pub tick : Bool → Room → Room × Bool
tick is_chase_frame r =
    if not r.m_game_started
    then (r, false)
    else let now : Frame = record { frame_id = r.frame_id + 1; operates = r.frame.operates } in
      let sent = broad_cast_to_game BodyType.frame (Body.frame now) r in
      (
        record sent {
          frame_id = r.frame_id + 1;
          frame = record { frame_id = r.frame_id + 1; operates = [] };
          all_frames = if is_chase_frame then r.all_frames ++ now ∷ [] else r.all_frames;
        },
        true,
      )

-- The message's body after the dynamic_cast: `none` if it is of another type.
unfoldable pub on_user_operate : ℕ → Option UserOperate → Room → Room
on_user_operate userid body r = if not r.m_game_started then r else elim body [
  | none ↦ r
  | some op ↦
      if contains userid r.userid2userpid
      then add_operate
          (record { values = op.values; opt = op.opt; userpid = at userid 0 r.userid2userpid }) r
      else r
]
