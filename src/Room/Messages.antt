-- ===== src/Room/Messages.antt =====
-- The messages that a room sends (src/Logic/Room.cpp): each under the type of its body, and none of
-- them a request.
pub mod Calls
use Prim.Native.String.{String}
use ancestral_property_serve.Prelude.{
  ℕ, zero, suc, ◌+◌, ◌-◌, Bool, true, false, not, Option, none, some, List, [], ◌∷◌, ◌++◌, map, ◌≡◌,
  refl, contains, erase, keys, if◌then◌else◌, is_empty, is_some, ltb, OnSome, OnSome-or_default,
  if_keeps,
}
use ancestral_property_serve.Enums.{BodyType}
use ancestral_property_serve.Room.State.{Room, Body, Sent, RequestType, UserOperate, is_host}
use ancestral_property_serve.Room.Game.{
  broad_cast_to_game, send_room_all_info_to_all, room_all_info, notify_user_join_game,
  notify_user_quit_game, join_game, notify_game_start_to_user, for_each, notify_game_start,
  notify_game_end, leave_from_game_by, kick_each, end_game_fuel, end_game, leave_from_game,
  start_game, tick, on_user_operate,
}
use ancestral_property_serve.Room.Members.{
  change_room_host, is_full, remove_member, leave_from_room, leave, drop_range, resize, take_place,
  join_room, set_user_offline, set_user_online, reconnect, user_info_change,
  kick_all_user_from_room, close_room,
}
use ancestral_property_serve.Room.History.{Call, step}

-- The type under which a body is sent.
abbrev pub body_type : Body → BodyType
body_type (Body.join_room roomid result type ret) = BodyType.join_room
body_type (Body.leave_room roomid result type ret) = BodyType.leave_room
body_type (Body.create_room roomid ret result roomname type is_roomhost) = BodyType.create_room
body_type (Body.get_room_list room_list size ret type) = BodyType.get_room_list
body_type (Body.notify_room_info users roomid game_start) = BodyType.notify_room_info
body_type (Body.start_game roomid seed userpid) = BodyType.start_game
body_type (Body.end_game roomid) = BodyType.end_game
body_type (Body.frame f) = BodyType.frame
body_type (Body.game_replay frames) = BodyType.chase_frame
body_type (Body.reconnect roomid userpid is_roomhost seed ret msg) = BodyType.reconnect

abbrev pub Answers : Body → Type 0
Answers (Body.join_room roomid result type ret) = type ≡ RequestType.response
Answers (Body.leave_room roomid result type ret) = type ≡ RequestType.response
Answers (Body.create_room roomid ret result roomname type is_roomhost) = type ≡ RequestType.response
Answers (Body.get_room_list room_list size ret type) = type ≡ RequestType.response
Answers _ = Unit {0}

-- A message to a client: under its body's type, and an answer.
abbrev pub IsFromLogic : Sent → Type 0
IsFromLogic m = (m.type ≡ body_type m.body) × Answers m.body

abbrev pub AllFromLogic : List Sent → Type 0
AllFromLogic [] = Unit {0}
AllFromLogic (m ∷ ms) = IsFromLogic m × AllFromLogic ms

abbrev pub is_end : Body → Bool
is_end (Body.end_game roomid) = true
is_end _ = false

AllFromLogic-append :
    (ms ns : List Sent) → AllFromLogic ms → AllFromLogic ns → AllFromLogic (ms ++ ns)
AllFromLogic-append [] ns h k = k
AllFromLogic-append (m ∷ ms) ns (h, hs) k = (h, AllFromLogic-append ms ns hs k)

each-AllFromLogic :
    (body : Body) (us : List ℕ)
    → Answers body
    → AllFromLogic (map (λ u. record { type = body_type body; body = body; userid = u }) us)
each-AllFromLogic body [] h = tt
each-AllFromLogic body (u ∷ us) h = ((refl, h), each-AllFromLogic body us h)

-- All that a room has to send.
abbrev pub Speaks : Room → Type 0
Speaks r = AllFromLogic r.outbox

one :
    (body : Body) (userid : ℕ) (sent : List Sent)
    → Answers body
    → AllFromLogic sent
    → AllFromLogic (sent ++ record { type = body_type body; body = body; userid = userid } ∷ [])
one body userid sent a h = AllFromLogic-append sent _ h ((refl, a), tt)

many :
    (body : Body) (us : List ℕ) (sent : List Sent)
    → Answers body
    → AllFromLogic sent
    → AllFromLogic (sent ++ map (λ u. record { type = body_type body; body = body; userid = u }) us)
many body us sent a h = AllFromLogic-append sent _ h (each-AllFromLogic body us a)

to_all-Speaks : (r : Room) → Speaks r → Speaks (send_room_all_info_to_all r)
unfolding send_room_all_info_to_all room_all_info
to_all-Speaks r h = many (room_all_info r) (keys r.userid2roleid) r.outbox tt h

joins_game-Speaks : (userid : ℕ) (r : Room) → Speaks r → Speaks (notify_user_join_game userid r)
unfolding notify_user_join_game
joins_game-Speaks userid r h =
    if_keeps Speaks (not r.m_game_started) (λ _. h)
      (λ _. if_keeps Speaks (contains userid r.userid2userpid) (λ _. h) (λ _. h))

quits_game-Speaks : (userid : ℕ) (r : Room) → Speaks r → Speaks (notify_user_quit_game userid r)
unfolding notify_user_quit_game
quits_game-Speaks userid r h =
    if_keeps Speaks (not r.m_game_started) (λ _. h)
      (λ _. if_keeps Speaks (contains userid r.in_game_id2pid) (λ _. h) (λ _. h))

join_game-Speaks : (userid : ℕ) (r : Room) → Speaks r → Speaks (join_game userid r)
unfolding join_game
join_game-Speaks userid r h =
    if_keeps Speaks (not r.m_game_started) (λ _. h)
      (λ _.
        if_keeps Speaks (contains userid r.userid2userpid) (λ _. joins_game-Speaks userid r h)
          (λ _. h))

start_to_user-Speaks :
    (userid : ℕ) (r : Room) → Speaks r → Speaks (notify_game_start_to_user userid r)
unfolding notify_game_start_to_user
start_to_user-Speaks userid r h = one (Body.start_game _ _ _) userid r.outbox tt h

for_each-Speaks :
    (f : ℕ → Room → Room) (us : List ℕ) (r : Room)
    → ((u : ℕ) (q : Room) → Speaks q → Speaks (f u q))
    → Speaks r
    → Speaks (for_each f us r)
unfolding for_each
for_each-Speaks f [] r k h = h
for_each-Speaks f (u ∷ us) r k h = for_each-Speaks f us (f u r) k (k u r h)

-- A result is worked on if there is one.
then_OnSome :
    (o : Option Room) (f : Room → Option Room)
    → OnSome Speaks o
    → ((r : Room) → Speaks r → OnSome Speaks (f r))
    → OnSome Speaks (elim o [ none ↦ none | some r ↦ f r ])
then_OnSome none f h k = tt
then_OnSome (some r) f h k = k r h

leave_by-Speaks :
    (end : Room → Option Room) (userid : ℕ) (r : Room)
    → ((q : Room) → Speaks q → OnSome Speaks (end q))
    → Speaks r
    → OnSome Speaks (leave_from_game_by end userid r)
unfolding leave_from_game_by
leave_by-Speaks end userid r k h =
    let r1 =
      notify_user_quit_game userid (record r { in_game_id2pid = erase userid r.in_game_id2pid }) in
    let h1 =
      quits_game-Speaks userid (record r { in_game_id2pid = erase userid r.in_game_id2pid }) h in
    if_keeps (OnSome Speaks) (contains userid r.in_game_id2pid)
      (λ _.
        then_OnSome (if is_empty r1.in_game_id2pid then end r1 else some r1)
          (λ q. some (send_room_all_info_to_all q))
          (if_keeps (OnSome Speaks) (is_empty r1.in_game_id2pid) (λ _. k r1 h1) (λ _. h1))
          (λ q w. to_all-Speaks q w))
      (λ _. h)

kick_each-Speaks :
    (leave_one : ℕ → Room → Option Room) (us : List ℕ) (r : Room)
    → ((u : ℕ) (q : Room) → Speaks q → OnSome Speaks (leave_one u q))
    → Speaks r
    → OnSome Speaks (kick_each leave_one us r)
unfolding kick_each
kick_each-Speaks leave_one [] r k h = h
kick_each-Speaks leave_one (u ∷ us) r k h =
    then_OnSome (leave_one u r) (kick_each leave_one us) (k u r h)
      (λ q w. kick_each-Speaks leave_one us q k w)
