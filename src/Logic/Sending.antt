-- ===== src/Logic/Sending.antt =====
-- The messages that a logic server (src/Source/LogicServer.cpp) sends over its life.
use Prim.Native.String.{String}
use ancestral_property_serve.Prelude.{
  ℕ, ◌≡◌, subst, refl, Bool, true, false, not, ◌||◌, none, some, List, [], ◌∷◌, Map, IntSet, lookup,
  insert, contains, if_keeps, Option-cases, first_key, inl, inr, arith,
}
use ancestral_property_serve.Config.{room_size}
use ancestral_property_serve.Room.State.{Room, Body, RequestType, new_room}
use ancestral_property_serve.Room.History.{Call, step as room_step}
use ancestral_property_serve.Room.Members.{set_user_offline, check_room_dead}
use ancestral_property_serve.Room.Game.{tick}
use ancestral_property_serve.Room.Messages.{Speaks}
use ancestral_property_serve.Room.Messages.Calls.{step-Speaks}
use ancestral_property_serve.Logic.{Logic, add_room}
use ancestral_property_serve.Logic.Handlers.{
  Request, handle_join_room, handle_leave_room, handle_create_room, handle_get_room_list,
  handle_login, handle_logout, handle, in_room, on_msg_body_analysised, tick_rooms, new_logic,
}
use ancestral_property_serve.Logic.Rooms.{Each, Each-lookup, Each-insert, Gives}
use ancestral_property_serve.Logic.Messages.{
  AllOut, Says, send_to_client-Says, put_room-Says, remove_room-Says, call_room_of-Says,
  remove_player_from_room-Says, move_player_to_room-Says,
}
use ancestral_property_serve.Logic.History.{Event, step, run}

handle_join_room-Says :
    (userid k : ℕ) (s : Logic) → Says s → Gives Says (handle_join_room userid k s)
unfolding handle_join_room
handle_join_room-Says userid k s a =
    if_keeps (Gives Says) (not (contains k s.rooms))
      (λ _. send_to_client-Says (Body.join_room none _ RequestType.response false) userid s refl a)
      (λ _. move_player_to_room-Says userid k s a)

handle_leave_room-Says :
    (userid k : ℕ) (s : Logic) → Says s → Gives Says (handle_leave_room userid k s)
unfolding handle_leave_room
handle_leave_room-Says userid k s a =
    if_keeps (Gives Says) (not (contains k s.rooms) || not (in_room userid k s))
      (λ _. send_to_client-Says (Body.leave_room k _ RequestType.response false) userid s refl a)
      (λ _. remove_player_from_room-Says userid s a)

add_room-Says :
    (roomname : String) (draw unset : ℕ) (s : Logic) (k : ℕ) (t : Logic)
    → Says s
    → add_room roomname draw unset s ≡ some (k, t)
    → Says t
unfolding add_room new_room
add_room-Says roomname draw unset s k t (a, w) e = elim (Option-cases (first_key s.roomid_pool)) [
  | inl o ↦ ground (arith, e, o)
  | inr (j, o) ↦
      (let r = new_room j roomname room_size draw unset in
        let made : insert j r s.rooms ≡ t.rooms = ground (arith, e, o) in
        let kept : s.outbox ≡ t.outbox = ground (arith, e, o) in
        (subst (Each Speaks) made (Each-insert Speaks j r s.rooms tt a), subst AllOut kept w))
]

handle_create_room-Says :
    (userid : ℕ) (roomname : String) (draw unset : ℕ) (s : Logic)
    → Says s
    → Gives Says (handle_create_room userid roomname draw unset s)
unfolding handle_create_room
handle_create_room-Says userid roomname draw unset s a =
    if_keeps (Gives Says) (contains userid s.userid2roomid)
      (λ _.
        send_to_client-Says (Body.create_room none false _ _ RequestType.response false) userid s
          refl a)
      (λ _. elim (Option-cases (add_room roomname draw unset s)) [
        | inl o ↦ rw (o, handle_create_room) tt
        | inr ((k, t), o) ↦
            rw (o, handle_create_room)
              (move_player_to_room-Says userid k _ (
                send_to_client-Says (Body.create_room (some k) true _ _ RequestType.response true)
                  userid t refl (add_room-Says roomname draw unset s k t a o)))
      ])

handle_logout-Says : (userid : ℕ) (s : Logic) → Says s → Gives Says (handle_logout userid s)
unfolding handle_logout room_step
handle_logout-Says userid s (a, w) = elim (Option-cases (lookup userid s.userid2roomid)) [
  | inl e ↦ rw (e, handle_logout) (a, w)
  | inr (k, e) ↦ elim (Option-cases (lookup k s.rooms)) [
    | inl o ↦ rw (e, handle_logout) (rw (o, handle_logout) tt)
    | inr (r, o) ↦
        (let h = step-Speaks r (Call.goes_offline userid) (Each-lookup Speaks k r s.rooms a o) in
          let a1 = put_room-Says k (set_user_offline userid r) s h (a, w) in
          rw (e, handle_logout)
            (rw (o, handle_logout)
              (if_keeps Says (check_room_dead (set_user_offline userid r))
                (λ _. remove_room-Says k _ a1) (λ _. a1))))
  ]
]

handle_login-Says :
    (userid : ℕ) (username : String) (s : Logic) → Says s → Says (handle_login userid username s)
unfolding handle_login room_step
handle_login-Says userid username s a =
    let s1 : Logic = record s { userid2username = insert userid username s.userid2username } in
    elim (Option-cases (lookup userid s.userid2roomid)) [
      | inl e ↦ rw (e, handle_login) a
      | inr (k, e) ↦ elim (Option-cases (lookup k s.rooms)) [
        | inl o ↦ rw (e, handle_login) (rw (o, handle_login) a)
        | inr (r, o) ↦
            rw (e, handle_login)
              (rw (o, handle_login)
                (if_keeps Says r.m_game_started
                  (λ _. call_room_of-Says userid (Call.reconnects userid) s1 a) (λ _. a)))
      ]
    ]

handle-Says : (sender : ℕ) (q : Request) (s : Logic) → Says s → Gives Says (handle sender q s)
unfolding handle handle_get_room_list room_step
handle-Says sender (Request.login_response userid username) s a =
    handle_login-Says userid username s a
handle-Says sender (Request.join_room_request k) s a = handle_join_room-Says sender k s a
handle-Says sender (Request.leave_room_request k) s a = handle_leave_room-Says sender k s a
handle-Says sender (Request.create_room_request roomname draw unset) s a =
    handle_create_room-Says sender roomname draw unset s a
handle-Says sender Request.get_room_list_request s a =
    send_to_client-Says (Body.get_room_list _ _ true RequestType.response) sender s refl a
handle-Says sender Request.join_game_request s a =
    call_room_of-Says sender (Call.joins_game sender) s a
handle-Says sender Request.quit_game_request s a =
    call_room_of-Says sender (Call.quits_game sender) s a
handle-Says sender (Request.change_role_request role_id) s a =
    call_room_of-Says sender (Call.changes_role sender role_id) s a
handle-Says sender Request.start_game_request s a =
    call_room_of-Says sender (Call.starts_game sender) s a
handle-Says sender Request.end_game_request s a = call_room_of-Says sender Call.ends_game s a
handle-Says sender (Request.user_operate_request body) s a =
    call_room_of-Says sender (Call.operates sender body) s a
handle-Says sender (Request.user_logout userid) s a = handle_logout-Says userid s a
handle-Says sender Request.other s a = a

tick_rooms-Says :
    (chase : Bool) (rooms : Map Room) (s : Logic)
    → Each Speaks rooms
    → Says s
    → Says (tick_rooms chase rooms s)
unfolding tick_rooms room_step
tick_rooms-Says chase [] s v a = a
tick_rooms-Says chase ((k, r) ∷ rooms) s (v, vs) a =
    let a1 = put_room-Says k (tick chase r).0 s (step-Speaks r (Call.ticks chase) v) a in
    tick_rooms-Says chase rooms _ vs (if_keeps Says (tick chase r).1 (λ _. a1) (λ _. a1))

step-Says : (e : Event) (s : Logic) → Says s → Gives Says (step e s)
unfolding step on_msg_body_analysised
step-Says (Event.message fd sender request) s a =
    handle-Says sender request (record s { user_gate = insert sender fd s.user_gate }) a
step-Says (Event.frame chase) s (a, w) = tick_rooms-Says chase s.rooms s a (a, w)

run-Says : (es : List Event) (s : Logic) → Says s → Gives Says (run es s)
unfolding run
run-Says [] s a = a
run-Says (e ∷ es) s a = elim (Option-cases (step e s)) [
  | inl o ↦ rw (o, run) tt
  | inr (t, o) ↦ rw (o, run) (run-Says es t (subst (Gives Says) o (step-Says e s a)))
]

-- All that a logic server sends to clients from its start on, whatever messages and frames it handles,
-- are answers, each under the type of its body.
pub run-new_logic-AllOut :
    (pool : IntSet) (es : List Event) (t : Logic)
    → run es (new_logic pool) ≡ some t
    → AllOut t.outbox
unfolding new_logic
run-new_logic-AllOut pool es t o = (subst (Gives Says) o (run-Says es (new_logic pool) (tt, tt))).1
