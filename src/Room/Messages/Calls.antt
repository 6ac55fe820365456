-- ===== src/Room/Messages/Calls.antt =====
-- Every call of a room (src/Logic/Room.cpp) sends answers only, each under the type of its body.
use Prim.Native.String.{String}
use ancestral_property_serve.Prelude.{
  ℕ, zero, suc, ◌+◌, ◌-◌, Bool, true, false, not, Option, none, some, refl, contains, keys,
  is_empty, is_some, ltb, OnSome, OnSome-or_default, if_keeps,
}
use ancestral_property_serve.Room.State.{Room, Body, RequestType, UserOperate, is_host}
use ancestral_property_serve.Room.Game.{
  broad_cast_to_game, send_room_all_info_to_all, join_game, notify_game_start_to_user,
  notify_game_start, notify_game_end, leave_from_game_by, kick_each, end_game_fuel, end_game,
  leave_from_game, start_game, tick, on_user_operate,
}
use ancestral_property_serve.Room.Members.{
  change_room_host, is_full, remove_member, leave_from_room, leave, drop_range, resize, take_place,
  join_room, set_user_offline, set_user_online, reconnect, user_info_change,
  kick_all_user_from_room, close_room,
}
use ancestral_property_serve.Room.History.{Call, step}
use ancestral_property_serve.Room.Messages.{
  Speaks, one, many, to_all-Speaks, joins_game-Speaks, join_game-Speaks, start_to_user-Speaks,
  for_each-Speaks, then_OnSome, leave_by-Speaks, kick_each-Speaks,
}

end_fuel-Speaks : (fuel : ℕ) (r : Room) → Speaks r → OnSome Speaks (end_game_fuel fuel r)
unfolding end_game_fuel notify_game_end broad_cast_to_game
end_fuel-Speaks zero r h = tt
end_fuel-Speaks (suc fuel) r h =
    if_keeps (OnSome Speaks) (not r.m_game_started) (λ _. h)
      (λ _.
        then_OnSome
          (kick_each (leave_from_game_by (end_game_fuel fuel)) (keys r.in_game_id2pid)
            (notify_game_end (record r { m_game_started = false })))
          (λ q. some (send_room_all_info_to_all q))
          (kick_each-Speaks (leave_from_game_by (end_game_fuel fuel)) (keys r.in_game_id2pid) _
            (λ u q w. leave_by-Speaks (end_game_fuel fuel) u q (end_fuel-Speaks fuel) w)
            (many (Body.end_game r.m_id) (keys r.in_game_id2pid) r.outbox tt h))
          (λ q w. to_all-Speaks q w))

end_game-Speaks : (r : Room) → Speaks r → Speaks (end_game r)
unfolding end_game
end_game-Speaks r h = OnSome-or_default Speaks (end_game_fuel 2 r) r (end_fuel-Speaks 2 r h) h

leave_from_game-Speaks : (userid : ℕ) (r : Room) → Speaks r → Speaks (leave_from_game userid r)
unfolding leave_from_game
leave_from_game-Speaks userid r h =
    OnSome-or_default Speaks (leave_from_game_by (end_game_fuel 2) userid r) r
      (leave_by-Speaks (end_game_fuel 2) userid r (end_fuel-Speaks 2) h) h

start_game-Speaks : (userid : ℕ) (r : Room) → Speaks r → Speaks (start_game userid r)
unfolding start_game notify_game_start
start_game-Speaks userid r h =
    if_keeps Speaks r.m_game_started (λ _. h)
      (λ _.
        if_keeps Speaks (is_host r userid)
          (λ _. to_all-Speaks _ (
            for_each-Speaks join_game _ _ join_game-Speaks (
              for_each-Speaks notify_game_start_to_user (keys r.userid2userpid) _
                start_to_user-Speaks h)))
          (λ _. h))

tick-Speaks : (chase : Bool) (r : Room) → Speaks r → Speaks (tick chase r).0
unfolding tick broad_cast_to_game
tick-Speaks chase r h =
    if_keeps (λ (p : Room × Bool). Speaks p.0) (not r.m_game_started) (λ _. h)
      (λ _. many (Body.frame _) (keys r.in_game_id2pid) r.outbox tt h)

operate-Speaks :
    (userid : ℕ) (body : Option UserOperate) (r : Room)
    → Speaks r
    → Speaks (on_user_operate userid body r)
unfolding on_user_operate
operate-Speaks userid none r h = if_keeps Speaks (not r.m_game_started) (λ _. h) (λ _. h)
operate-Speaks userid (some op) r h =
    if_keeps Speaks (not r.m_game_started) (λ _. h)
      (λ _. if_keeps Speaks (contains userid r.userid2userpid) (λ _. h) (λ _. h))

host-Speaks : (host : Option ℕ) (r : Room) → Speaks r → Speaks (change_room_host host r)
unfolding change_room_host
host-Speaks none r h = h
host-Speaks (some userid) r h = if_keeps Speaks (contains userid r.userid2userpid) (λ _. h) (λ _. h)

remove_member-Speaks : (userid : ℕ) (r : Room) → Speaks r → Speaks (remove_member userid r)
unfolding remove_member
remove_member-Speaks userid r h =
    to_all-Speaks _ (if_keeps Speaks (is_host r userid) (λ _. host-Speaks _ _ h) (λ _. h))

leave_from_room-Speaks : (userid : ℕ) (r : Room) → Speaks r → Speaks (leave_from_room userid r)
unfolding leave_from_room
leave_from_room-Speaks userid r h =
    let h1 = leave_from_game-Speaks userid r h in
    if_keeps Speaks (contains userid (leave_from_game userid r).userid2userpid)
      (λ _. remove_member-Speaks userid _ h1)
      (λ _. one (Body.leave_room 0 _ RequestType.response false) userid _ refl h1)

drop_range-Speaks : (first count : ℕ) (r : Room) → Speaks r → Speaks (drop_range first count r)
unfolding drop_range leave
drop_range-Speaks first zero r h = h
drop_range-Speaks first (suc count) r h =
    drop_range-Speaks (first + 1) count _
      (leave_from_room-Speaks first _ (leave_from_game-Speaks first r h))

resize-Speaks : (size : ℕ) (r : Room) → Speaks r → Speaks (resize size r)
unfolding resize
resize-Speaks size r h =
    if_keeps Speaks (ltb size r.m_size) (λ _. drop_range-Speaks (size + 1) (r.m_size - size) r h)
      (λ _. h)

take_place-Speaks :
    (userid : ℕ) (name : String) (r : Room) → Speaks r → Speaks (take_place userid name r)
unfolding take_place
take_place-Speaks userid name r h = to_all-Speaks _ (
    one (Body.join_room _ _ RequestType.response true) userid _ refl
      (if_keeps Speaks (is_some r.host_userid) (λ _. h) (λ _. host-Speaks (some userid) _ h)))

join_room-Speaks :
    (userid : ℕ) (name : String) (r : Room) → Speaks r → Speaks (join_room userid name r).0
unfolding join_room
join_room-Speaks userid name r h =
    let refused = λ (why : String).
      one (Body.join_room none why RequestType.response false) userid r.outbox refl h in
    if_keeps (λ (p : Room × Bool). Speaks p.0) r.m_game_started (λ _. refused _)
      (λ _.
        if_keeps (λ (p : Room × Bool). Speaks p.0) (is_full r) (λ _. refused _)
          (λ _.
            if_keeps (λ (p : Room × Bool). Speaks p.0) (contains userid r.userid2userpid)
              (λ _. refused _)
              (λ _. take_place-Speaks userid name _ (
                if_keeps Speaks (is_empty r.userpid_pool) (λ _. resize-Speaks (r.m_size + 1) r h)
                  (λ _. h)))))

offline-Speaks : (userid : ℕ) (r : Room) → Speaks r → Speaks (set_user_offline userid r)
unfolding set_user_offline
offline-Speaks userid r h =
    if_keeps Speaks (not (contains userid r.userid2userpid)) (λ _. h)
      (λ _.
        if_keeps Speaks (contains userid r.offline_userid) (λ _. h)
          (λ _. leave_from_game-Speaks userid _ h))

online-Speaks : (userid : ℕ) (r : Room) → Speaks r → Speaks (set_user_online userid r)
unfolding set_user_online
online-Speaks userid r h =
    if_keeps Speaks (not (contains userid r.userid2userpid)) (λ _. h)
      (λ _. if_keeps Speaks (contains userid r.offline_userid) (λ _. h) (λ _. h))

reconnect-Speaks : (userid : ℕ) (r : Room) → Speaks r → Speaks (reconnect userid r)
unfolding reconnect
reconnect-Speaks userid r h =
    if_keeps Speaks (contains userid r.userid2userpid)
      (λ _. join_game-Speaks userid _ (
        one (Body.game_replay _) userid _ tt (
          start_to_user-Speaks userid _
            (one (Body.reconnect _ _ _ _ _ _) userid _ tt (online-Speaks userid r h)))))
      (λ _. h)

role-Speaks :
    (userid role_id : ℕ) (r : Room) → Speaks r → Speaks (user_info_change userid role_id r)
unfolding user_info_change
role-Speaks userid role_id r h =
    if_keeps Speaks (contains userid r.userid2userpid) (λ _. to_all-Speaks _ h) (λ _. h)

-- Every call of a room sends answers only, each under its type.
pub step-Speaks : (r : Room) (c : Call) → Speaks r → Speaks (step r c)
unfolding step
step-Speaks r (Call.joins userid username) h = join_room-Speaks userid username r h
step-Speaks r (Call.leaves userid) h = leave_from_room-Speaks userid r h
step-Speaks r (Call.quits_game userid) h = leave_from_game-Speaks userid r h
step-Speaks r (Call.starts_game userid) h = start_game-Speaks userid r h
step-Speaks r (Call.joins_game userid) h = joins_game-Speaks userid r h
step-Speaks r (Call.goes_offline userid) h = offline-Speaks userid r h
step-Speaks r (Call.reconnects userid) h = reconnect-Speaks userid r h
step-Speaks r Call.ends_game h = end_game-Speaks r h
step-Speaks r (Call.ticks is_chase_frame) h = tick-Speaks is_chase_frame r h
step-Speaks r (Call.operates userid body) h = operate-Speaks userid body r h
step-Speaks r (Call.changes_role userid role_id) h = role-Speaks userid role_id r h

-- The destructor sends answers only, each under its type.
pub close_room-Speaks : (r : Room) → Speaks r → Speaks (close_room r)
unfolding close_room kick_all_user_from_room
close_room-Speaks r h =
    for_each-Speaks leave_from_room _ _ leave_from_room-Speaks (end_game-Speaks r h)
