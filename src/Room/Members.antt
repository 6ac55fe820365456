-- ===== src/Room/Members.antt =====
-- src/Logic/Room.cpp, the part about who is in the room: JoinRoom, LeaveFromRoom, Leave, Resize,
-- ChangeRoomHost, Reconnect, online and offline users, role changes, and the destructor.
use Prim.Native.String.{String}
use ancestral_property_serve.Prelude.{
  ℕ, ◌+◌, ◌-◌, zero, suc, Bool, true, false, not, ◌==◌, ltb, leb, Option, none, some, is_some,
  length, insert, erase, contains, at, keys, first_key, add, is_empty, if◌then◌else◌, or_default,
}
use ancestral_property_serve.Enums.{BodyType}
use ancestral_property_serve.Room.State.{Room, Body, RequestType, player_count, is_host, add_range}
use ancestral_property_serve.Room.Game.{
  send_to_client, send_room_all_info_to_all, for_each, notify_game_start_to_user, join_game,
  leave_from_game, end_game,
}

abbrev pub is_full : Room → Bool
is_full r = leb r.m_size (player_count r)

-- `none` is the -1 that means no host.
unfoldable pub change_room_host : Option ℕ → Room → Room
change_room_host none r = record r { host_userid = none }
change_room_host (some userid) r =
    if contains userid r.userid2userpid then record r { host_userid = some userid } else r

-- The branch of LeaveFromRoom for a user of the room: `message` is filled in and not sent.
unfoldable pub remove_member : ℕ → Room → Room
remove_member userid r =
    let r1 = record r {
      userpid_pool = add (at userid 0 r.userid2userpid) r.userpid_pool;
      userid2userpid = erase userid r.userid2userpid;
      userid2roleid = erase userid r.userid2roleid;
      id2name = erase userid r.id2name;
    } in
    send_room_all_info_to_all
      (if is_host r1 userid then change_room_host (first_key r1.userid2userpid) r1 else r1)

unfoldable pub leave_from_room : ℕ → Room → Room
leave_from_room userid r =
    let r1 = leave_from_game userid r in
    if contains userid r1.userid2userpid
    then remove_member userid r1
    else send_to_client BodyType.leave_room (Body.leave_room 0 "你不在该房间" RequestType.response false)
        userid r1

unfoldable pub leave : ℕ → Room → Room
leave userid r = leave_from_room userid (leave_from_game userid r)

-- The loop of Resize for fewer places: `Leave(i)` takes the pid `i` for a user id.
unfoldable pub drop_range : ℕ → ℕ → Room → Room
drop_range first zero r = r
drop_range first (suc count) r =
    let r1 = leave first r in
    drop_range (first + 1) count (record r1 { userpid_pool = erase first r1.userpid_pool })

unfoldable pub resize : ℕ → Room → Room
resize size r =
    let r1 =
      if ltb size r.m_size
      then drop_range (size + 1) (r.m_size - size) r
      else record r { userpid_pool = add_range (r.m_size + 1) (size - r.m_size) r.userpid_pool } in
    record r1 { m_size = size }

abbrev join_reply : Option ℕ → String → Bool → Body
join_reply roomid result ret = Body.join_room roomid result RequestType.response ret

-- The last branch of JoinRoom, with the smallest free pid. The pool is never empty here
-- (Room/Effects); 0 stands for a read of `begin()` of an empty set.
unfoldable pub take_place : ℕ → String → Room → Room
take_place userid username r =
    let pid = or_default (first_key r.userpid_pool) 0 in
    let r1 = record r {
      userpid_pool = erase pid r.userpid_pool;
      userid2userpid = insert userid pid r.userid2userpid;
      userid2roleid = insert userid 1 r.userid2roleid;
      id2name = insert userid username r.id2name;
    } in
    let r2 = if is_some r1.host_userid then r1 else change_room_host (some userid) r1 in
    send_room_all_info_to_all
      (send_to_client BodyType.join_room (join_reply (some r2.m_id) "加入成功" true) userid r2)

-- `username` is what LOGICSERVER.GetUserName(userid) returns.
unfoldable pub join_room : ℕ → String → Room → Room × Bool
join_room userid username r =
    let refuse : String → Room × Bool = λ result.
      (send_to_client BodyType.join_room (join_reply none result false) userid r, false) in
    if r.m_game_started
    then refuse "游戏已经开始，加入失败"
    else if is_full r
    then refuse "房间已满"
    else if contains userid r.userid2userpid
    then refuse "你已在此房间"
    else (
      take_place userid username (if is_empty r.userpid_pool then resize (r.m_size + 1) r else r),
      true,
    )

unfoldable pub set_user_offline : ℕ → Room → Room
set_user_offline userid r =
    if not (contains userid r.userid2userpid)
    then r
    else if contains userid r.offline_userid
    then r
    else leave_from_game userid (record r { offline_userid = add userid r.offline_userid })

unfoldable pub set_user_online : ℕ → Room → Room
set_user_online userid r =
    if not (contains userid r.userid2userpid)
    then r
    else if contains userid r.offline_userid
    then record r { offline_userid = erase userid r.offline_userid }
    else r

unfoldable pub check_room_dead : Room → Bool
check_room_dead r = length r.offline_userid == length r.userid2userpid

unfoldable pub reconnect : ℕ → Room → Room
reconnect userid r =
    if contains userid r.userid2userpid
    then (let r1 = set_user_online userid r in
        let r2 =
          send_to_client BodyType.reconnect
            (Body.reconnect r1.m_id (at userid 0 r1.userid2userpid) (is_host r1 userid) r1.m_seed
              true "重连成功，已回到房间")
            userid r1 in
        let r3 = notify_game_start_to_user userid r2 in
        join_game userid
          (send_to_client BodyType.chase_frame (Body.game_replay r3.all_frames) userid r3))
    else r

unfoldable pub user_info_change : ℕ → ℕ → Room → Room
user_info_change userid role_id r =
    if contains userid r.userid2userpid
    then send_room_all_info_to_all
        (record r { userid2roleid = insert userid role_id r.userid2roleid })
    else r

unfoldable pub kick_all_user_from_room : Room → Room
kick_all_user_from_room r = for_each leave_from_room (keys r.userid2userpid) r

-- The destructor: what the room still sends before it is gone.
unfoldable pub close_room : Room → Room
close_room r = kick_all_user_from_room (end_game r)
