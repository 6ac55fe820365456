-- ===== src/Logic/History.antt =====
-- A logic server (src/Source/LogicServer.cpp) over its life: messages of OnMsgBodyAnalysised and
-- frames of Update in any order, from the constructor on.
use Prim.Native.String.{String}
use ancestral_property_serve.Prelude.{
  ℕ, ◌≡◌, refl, subst, Bool, none, some, Option, List, [], ◌∷◌, Map, IntSet, lookup, insert,
  contains, not, ◌||◌, if_keeps, Option-cases, first_key, inl, inr, arith,
}
use ancestral_property_serve.Config.{room_size}
use ancestral_property_serve.Room.State.{Room, new_room}
use ancestral_property_serve.Room.Validity.{set_user_offline-IsValid, tick-IsValid}
use ancestral_property_serve.Room.Fresh.{new_room-IsValid}
use ancestral_property_serve.Room.History.{Call, step as room_step, step-IsValid}
use ancestral_property_serve.Room.Members.{set_user_offline, check_room_dead}
use ancestral_property_serve.Room.Game.{tick}
use ancestral_property_serve.Logic.{Logic, call_room_of, add_room}
use ancestral_property_serve.Logic.Handlers.{
  Request, handle_join_room, handle_leave_room, handle_create_room, handle_get_room_list,
  handle_login, handle_logout, handle, in_room, on_msg_body_analysised, tick_rooms, update,
  new_logic,
}
use ancestral_property_serve.Logic.Joining.{IsValid}
use ancestral_property_serve.Logic.Requests.{Fits, on_msg_body_analysised-Safe}
use ancestral_property_serve.Logic.Updates.{update-IsValid}
use ancestral_property_serve.Logic.Rooms.{
  AllRooms, AllRooms-lookup, AllRooms-insert, HasRooms, Gives, send_to_client-HasRooms,
  put_room-HasRooms, remove_room-HasRooms, call_room_of-HasRooms, remove_player_from_room-HasRooms,
  move_player_to_room-HasRooms,
}

-- A call of a user's room that is one of a room's steps.
calls-HasRooms :
    (userid : ℕ) (c : Call) (s : Logic)
    → HasRooms s
    → HasRooms (call_room_of userid (λ r. room_step r c) s)
calls-HasRooms userid c s a =
    call_room_of-HasRooms userid (λ r. room_step r c) s (λ r v. step-IsValid r c v) a

handle_join_room-HasRooms :
    (userid k : ℕ) (s : Logic) → HasRooms s → Gives HasRooms (handle_join_room userid k s)
unfolding handle_join_room
handle_join_room-HasRooms userid k s a =
    if_keeps (Gives HasRooms) (not (contains k s.rooms)) (λ _. send_to_client-HasRooms _ s a)
      (λ _. move_player_to_room-HasRooms userid k s a)

handle_leave_room-HasRooms :
    (userid k : ℕ) (s : Logic) → HasRooms s → Gives HasRooms (handle_leave_room userid k s)
unfolding handle_leave_room
handle_leave_room-HasRooms userid k s a =
    if_keeps (Gives HasRooms) (not (contains k s.rooms) || not (in_room userid k s))
      (λ _. send_to_client-HasRooms _ s a) (λ _. remove_player_from_room-HasRooms userid s a)

pub add_room-HasRooms :
    (roomname : String) (draw unset : ℕ) (s : Logic) (k : ℕ) (t : Logic)
    → HasRooms s
    → add_room roomname draw unset s ≡ some (k, t)
    → HasRooms t
unfolding add_room
add_room-HasRooms roomname draw unset s k t a e = elim (Option-cases (first_key s.roomid_pool)) [
  | inl o ↦ ground (arith, e, o)
  | inr (j, o) ↦
      (let r = new_room j roomname room_size draw unset in
        let made : insert j r s.rooms ≡ t.rooms = ground (arith, e, o) in
        subst AllRooms made
          (AllRooms-insert j r s.rooms (new_room-IsValid j roomname room_size draw unset) a))
]

handle_create_room-HasRooms :
    (userid : ℕ) (roomname : String) (draw unset : ℕ) (s : Logic)
    → HasRooms s
    → Gives HasRooms (handle_create_room userid roomname draw unset s)
unfolding handle_create_room
handle_create_room-HasRooms userid roomname draw unset s a =
    if_keeps (Gives HasRooms) (contains userid s.userid2roomid) (λ _. send_to_client-HasRooms _ s a)
      (λ _. elim (Option-cases (add_room roomname draw unset s)) [
        | inl o ↦ rw (o, handle_create_room) tt
        | inr ((k, t), o) ↦
            rw (o, handle_create_room)
              (move_player_to_room-HasRooms userid k _
                (send_to_client-HasRooms _ t (add_room-HasRooms roomname draw unset s k t a o)))
      ])

handle_logout-HasRooms :
    (userid : ℕ) (s : Logic) → HasRooms s → Gives HasRooms (handle_logout userid s)
unfolding handle_logout
handle_logout-HasRooms userid s a = elim (Option-cases (lookup userid s.userid2roomid)) [
  | inl e ↦ rw (e, handle_logout) a
  | inr (k, e) ↦ elim (Option-cases (lookup k s.rooms)) [
    | inl o ↦ rw (e, handle_logout) (rw (o, handle_logout) tt)
    | inr (r, o) ↦
        (let v = set_user_offline-IsValid userid r (AllRooms-lookup k r s.rooms a o) in
          let a1 = put_room-HasRooms k (set_user_offline userid r) s v a in
          rw (e, handle_logout)
            (rw (o, handle_logout)
              (if_keeps HasRooms (check_room_dead (set_user_offline userid r))
                (λ _. remove_room-HasRooms k _ a1) (λ _. a1))))
  ]
]

handle_login-HasRooms :
    (userid : ℕ) (username : String) (s : Logic)
    → HasRooms s
    → HasRooms (handle_login userid username s)
unfolding handle_login room_step
handle_login-HasRooms userid username s a =
    let s1 : Logic = record s { userid2username = insert userid username s.userid2username } in
    elim (Option-cases (lookup userid s.userid2roomid)) [
      | inl e ↦ rw (e, handle_login) a
      | inr (k, e) ↦ elim (Option-cases (lookup k s.rooms)) [
        | inl o ↦ rw (e, handle_login) (rw (o, handle_login) a)
        | inr (r, o) ↦
            rw (e, handle_login)
              (rw (o, handle_login)
                (if_keeps HasRooms r.m_game_started
                  (λ _. calls-HasRooms userid (Call.reconnects userid) s1 a) (λ _. a)))
      ]
    ]

handle-HasRooms :
    (sender : ℕ) (q : Request) (s : Logic) → HasRooms s → Gives HasRooms (handle sender q s)
unfolding handle handle_get_room_list room_step
handle-HasRooms sender (Request.login_response userid username) s a =
    handle_login-HasRooms userid username s a
handle-HasRooms sender (Request.join_room_request k) s a = handle_join_room-HasRooms sender k s a
handle-HasRooms sender (Request.leave_room_request k) s a = handle_leave_room-HasRooms sender k s a
handle-HasRooms sender (Request.create_room_request roomname draw unset) s a =
    handle_create_room-HasRooms sender roomname draw unset s a
handle-HasRooms sender Request.get_room_list_request s a = send_to_client-HasRooms _ s a
handle-HasRooms sender Request.join_game_request s a =
    calls-HasRooms sender (Call.joins_game sender) s a
handle-HasRooms sender Request.quit_game_request s a =
    calls-HasRooms sender (Call.quits_game sender) s a
handle-HasRooms sender (Request.change_role_request role_id) s a =
    calls-HasRooms sender (Call.changes_role sender role_id) s a
handle-HasRooms sender Request.start_game_request s a =
    calls-HasRooms sender (Call.starts_game sender) s a
handle-HasRooms sender Request.end_game_request s a = calls-HasRooms sender Call.ends_game s a
handle-HasRooms sender (Request.user_operate_request body) s a =
    calls-HasRooms sender (Call.operates sender body) s a
handle-HasRooms sender (Request.user_logout userid) s a = handle_logout-HasRooms userid s a
handle-HasRooms sender Request.other s a = a

tick_rooms-HasRooms :
    (chase : Bool) (rooms : Map Room) (s : Logic)
    → AllRooms rooms
    → HasRooms s
    → HasRooms (tick_rooms chase rooms s)
unfolding tick_rooms
tick_rooms-HasRooms chase [] s v a = a
tick_rooms-HasRooms chase ((k, r) ∷ rooms) s (v, vs) a =
    let a1 = put_room-HasRooms k (tick chase r).0 s (tick-IsValid chase r v) a in
    tick_rooms-HasRooms chase rooms _ vs (if_keeps HasRooms (tick chase r).1 (λ _. a1) (λ _. a1))

-- What reaches a server: a message at socket fd, or the time for a frame.
pub data Event : Type 0 where
  message : (fd sender : ℕ) (request : Request) → Event
  frame : (is_chase_frame : Bool) → Event

unfoldable pub step : Event → Logic → Option Logic
step (Event.message fd sender request) s = on_msg_body_analysised fd sender request s
step (Event.frame is_chase_frame) s = some (update is_chase_frame s)

unfoldable pub run : List Event → Logic → Option Logic
run [] s = some s
run (e ∷ es) s = elim (step e s) [ none ↦ none | some t ↦ run es t ]

-- Every message fits the server that it reaches.
abbrev pub FitsAt : Event → Logic → Type 0
FitsAt (Event.message fd sender request) s = Fits sender request s.userid2roomid s.roomid_pool
FitsAt (Event.frame is_chase_frame) s = Unit {0}

abbrev pub FitAll : List Event → Logic → Type 0
FitAll [] s = Unit {0}
FitAll (e ∷ es) s = FitsAt e s × Gives (FitAll es) (step e s)

-- A server in order: its maps agree and each of its rooms is valid.
abbrev pub IsSound : Logic → Type 0
IsSound s = IsValid s × HasRooms s

pub step-IsSound :
    (e : Event) (s : Logic) → IsSound s → FitsAt e s → (t : Logic) × (step e s ≡ some t) × IsSound t
unfolding step on_msg_body_analysised
step-IsSound (Event.message fd sender request) s (v, a) fits =
    let (t, e, w) = on_msg_body_analysised-Safe fd sender request s v fits in
    (
      t,
      e,
      (
        w,
        subst (Gives HasRooms) e (
            handle-HasRooms sender request (record s { user_gate = insert sender fd s.user_gate })
              a),
      ),
    )
step-IsSound (Event.frame is_chase_frame) s (v, a) fits =
    (_, refl, (update-IsValid is_chase_frame s v, tick_rooms-HasRooms is_chase_frame s.rooms s a a))

run-IsSound :
    (es : List Event) (s : Logic)
    → IsSound s
    → FitAll es s
    → (t : Logic) × (run es s ≡ some t) × IsSound t
unfolding run
run-IsSound [] s v fits = (s, refl, v)
run-IsSound (e ∷ es) s v (fit, fits) =
    let (t, o, w) = step-IsSound e s v fit in
    rw (o, run) (run-IsSound es t w (subst (Gives (FitAll es)) o fits))

-- A logic server that has just started handles any messages and frames, in any order, without
-- undefined behaviour, if each message fits the server that it reaches (a user does not ask to join
-- the room the user is in, and a room id is left for a new room). At the end its maps agree, and
-- every room in it is a valid room.
pub run-new_logic-IsSound :
    (pool : IntSet) (es : List Event)
    → FitAll es (new_logic pool)
    → (t : Logic) × (run es (new_logic pool) ≡ some t) × IsValid t × AllRooms t.rooms
unfolding new_logic lookup
run-new_logic-IsSound pool es fits =
    let (t, o, (v, a)) =
      run-IsSound es (new_logic pool)
        (record { in_rooms = tt; using = λ r. refl; free = λ r h. refl }, tt) fits in
    (t, o, v, a)
