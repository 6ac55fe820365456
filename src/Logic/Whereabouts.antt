-- ===== src/Logic/Whereabouts.antt =====
-- Where the users of a logic server (src/Source/LogicServer.cpp) are over its life.
use Prim.Native.String.{String}
use ancestral_property_serve.Prelude.{
  ℕ, suc, ◌≡◌, ◌∙◌, subst, sym, refl, Bool, not, ◌||◌, some, List, [], ◌∷◌, Map, IntSet, SortedFrom,
  lookup, insert, contains, ◌==◌, if_keeps, lookup-insert, Bool-cases, Option-cases, inl, inr,
  arith,
}
use ancestral_property_serve.Prelude.Sizes.{lookup_below}
use ancestral_property_serve.Room.State.{Room}
use ancestral_property_serve.Room.Members.{set_user_offline, check_room_dead}
use ancestral_property_serve.Room.Game.{tick}
use ancestral_property_serve.Room.History.{Call, step as room_step}
use ancestral_property_serve.Room.Users.{set_user_offline-SameUsers, tick-SameUsers}
use ancestral_property_serve.Logic.{Logic, put_room, add_room}
use ancestral_property_serve.Logic.Handlers.{
  Request, handle_join_room, handle_leave_room, handle_create_room, handle_get_room_list,
  handle_login, handle_logout, handle, in_room, on_msg_body_analysised, tick_rooms, new_logic,
}
use ancestral_property_serve.Logic.Joining.{put_room-eq}
use ancestral_property_serve.Logic.Rooms.{HasRooms, Gives, send_to_client-HasRooms}
use ancestral_property_serve.Logic.Agreement.{has, at_room}
use ancestral_property_serve.Logic.Membership.{
  Together, send_to_client-Together, put_room-Together, remove_room-Together,
  remove_player_from_room-Together, move_player_to_room-Together, calls-Together, add_room-Together,
}
use ancestral_property_serve.Logic.History.{
  Event, step, run, FitAll, IsSound, step-IsSound, add_room-HasRooms,
}

handle_join_room-Together :
    (userid k : ℕ) (s : Logic)
    → HasRooms s
    → Together s
    → Gives Together (handle_join_room userid k s)
unfolding handle_join_room
handle_join_room-Together userid k s rooms a =
    if_keeps (Gives Together) (not (contains k s.rooms)) (λ _. send_to_client-Together _ s a)
      (λ _. move_player_to_room-Together userid k s a rooms)

handle_leave_room-Together :
    (userid k : ℕ) (s : Logic) → Together s → Gives Together (handle_leave_room userid k s)
unfolding handle_leave_room
handle_leave_room-Together userid k s a =
    if_keeps (Gives Together) (not (contains k s.rooms) || not (in_room userid k s))
      (λ _. send_to_client-Together _ s a) (λ _. remove_player_from_room-Together userid s a)

handle_create_room-Together :
    (userid : ℕ) (roomname : String) (draw unset : ℕ) (s : Logic)
    → IsSound s
    → Together s
    → Gives Together (handle_create_room userid roomname draw unset s)
unfolding handle_create_room
handle_create_room-Together userid roomname draw unset s (v, rooms) a =
    if_keeps (Gives Together) (contains userid s.userid2roomid) (λ _. send_to_client-Together _ s a)
      (λ _. elim (Option-cases (add_room roomname draw unset s)) [
        | inl o ↦ rw (o, handle_create_room) tt
        | inr ((k, t), o) ↦
            rw (o, handle_create_room)
              (move_player_to_room-Together userid k _
                (send_to_client-Together _ t (add_room-Together roomname draw unset s k t v a o))
                (send_to_client-HasRooms _ t (add_room-HasRooms roomname draw unset s k t rooms o)))
      ])

handle_logout-Together :
    (userid : ℕ) (s : Logic) → Together s → Gives Together (handle_logout userid s)
unfolding handle_logout
handle_logout-Together userid s a = elim (Option-cases (lookup userid s.userid2roomid)) [
  | inl e ↦ rw (e, handle_logout) a
  | inr (k, e) ↦ elim (Option-cases (lookup k s.rooms)) [
    | inl o ↦ rw (e, handle_logout) (rw (o, handle_logout) tt)
    | inr (r, o) ↦
        (let a1 =
            put_room-Together k r (set_user_offline userid r) s o
              (set_user_offline-SameUsers userid r) a in
          rw (e, handle_logout)
            (rw (o, handle_logout)
              (if_keeps Together (check_room_dead (set_user_offline userid r))
                (λ _. remove_room-Together k _ a1) (λ _. a1))))
  ]
]

handle_login-Together :
    (userid : ℕ) (username : String) (s : Logic)
    → HasRooms s
    → Together s
    → Together (handle_login userid username s)
unfolding handle_login room_step
handle_login-Together userid username s rooms a =
    let s1 : Logic = record s { userid2username = insert userid username s.userid2username } in
    elim (Option-cases (lookup userid s.userid2roomid)) [
      | inl e ↦ rw (e, handle_login) a
      | inr (k, e) ↦ elim (Option-cases (lookup k s.rooms)) [
        | inl o ↦ rw (e, handle_login) (rw (o, handle_login) a)
        | inr (r, o) ↦
            rw (e, handle_login)
              (rw (o, handle_login)
                (if_keeps Together r.m_game_started
                  (λ _. calls-Together userid (Call.reconnects userid) s1 refl rooms a) (λ _. a)))
      ]
    ]

handle-Together :
    (sender : ℕ) (q : Request) (s : Logic)
    → IsSound s
    → Together s
    → Gives Together (handle sender q s)
unfolding handle handle_get_room_list room_step
handle-Together sender (Request.login_response userid username) s v a =
    handle_login-Together userid username s v.1 a
handle-Together sender (Request.join_room_request k) s v a =
    handle_join_room-Together sender k s v.1 a
handle-Together sender (Request.leave_room_request k) s v a =
    handle_leave_room-Together sender k s a
handle-Together sender (Request.create_room_request roomname draw unset) s v a =
    handle_create_room-Together sender roomname draw unset s v a
handle-Together sender Request.get_room_list_request s v a = send_to_client-Together _ s a
handle-Together sender Request.join_game_request s v a =
    calls-Together sender (Call.joins_game sender) s refl v.1 a
handle-Together sender Request.quit_game_request s v a =
    calls-Together sender (Call.quits_game sender) s refl v.1 a
handle-Together sender (Request.change_role_request role_id) s v a =
    calls-Together sender (Call.changes_role sender role_id) s refl v.1 a
handle-Together sender Request.start_game_request s v a =
    calls-Together sender (Call.starts_game sender) s refl v.1 a
handle-Together sender Request.end_game_request s v a =
    calls-Together sender Call.ends_game s refl v.1 a
handle-Together sender (Request.user_operate_request body) s v a =
    calls-Together sender (Call.operates sender body) s refl v.1 a
handle-Together sender (Request.user_logout userid) s v a = handle_logout-Together userid s a
handle-Together sender Request.other s v a = a

-- Each of the rooms is one of the server, with the same users.
abbrev Seen : Map Room → Map Room → Type 0
Seen [] rooms = Unit {0}
Seen ((k, r) ∷ rest) rooms =
    ((r0 : Room) × (lookup k rooms ≡ some r0) × (r0.userid2userpid ≡ r.userid2userpid))
    × Seen rest rooms

Seen-self :
    (lo : ℕ) (some_rooms rooms : Map Room)
    → SortedFrom lo some_rooms
    → ((k : ℕ) (r : Room) → lookup k some_rooms ≡ some r → lookup k rooms ≡ some r)
    → Seen some_rooms rooms
unfolding lookup
Seen-self lo [] rooms s h = tt
Seen-self lo ((k, r) ∷ rest) rooms s h = (
  (r, h k r (ground arith), refl),
  Seen-self (suc k) rest rooms s.1
      (λ q w e. h q w (ground (arith, e, lookup_below k (suc k) rest s.1))),
)

Seen-insert :
    (k : ℕ) (r r0 : Room) (rest rooms : Map Room)
    → lookup k rooms ≡ some r0
    → r.userid2userpid ≡ r0.userid2userpid
    → Seen rest rooms
    → Seen rest (insert k r rooms)
Seen-insert k r r0 [] rooms o same h = tt
Seen-insert k r r0 ((q, w) ∷ rest) rooms o same ((w0, e, f), hs) = (
  elim (Bool-cases (k == q)) [
    | inl h ↦ (r, ground (arith, h, lookup-insert k q r rooms), ground (arith, h, o, e, f, same))
    | inr h ↦ (w0, ground (arith, h, e, lookup-insert k q r rooms), f)
  ],
  Seen-insert k r r0 rest rooms o same hs,
)

tick_rooms-Together :
    (chase : Bool) (rooms : Map Room) (s : Logic)
    → Seen rooms s.rooms
    → Together s
    → Together (tick_rooms chase rooms s)
unfolding tick_rooms
tick_rooms-Together chase [] s h a = a
tick_rooms-Together chase ((k, r) ∷ rooms) s ((r0, o, same), h) a =
    let r1 = (tick chase r).0 in
    let e = tick-SameUsers chase r ∙ sym same in
    let a1 = put_room-Together k r0 r1 s o e a in
    let h1 : Seen rooms (put_room k r1 s).rooms =
      rw (put_room-eq k r1 s) (Seen-insert k (record r1 { outbox = [] }) r0 rooms s.rooms o e h) in
    if_keeps (λ t. Together (tick_rooms chase rooms t)) (tick chase r).1
      (λ _. tick_rooms-Together chase rooms _ h1 a1) (λ _. tick_rooms-Together chase rooms _ h1 a1)

step-Together : (e : Event) (s : Logic) → IsSound s → Together s → Gives Together (step e s)
unfolding step on_msg_body_analysised
step-Together (Event.message fd sender request) s (v, rooms) a =
    handle-Together sender request (record s { user_gate = insert sender fd s.user_gate })
      (record { in_rooms = v.in_rooms; using = v.using; free = v.free }, rooms) a
step-Together (Event.frame chase) s v a =
    tick_rooms-Together chase s.rooms s (Seen-self 0 s.rooms s.rooms a.sorted_rooms (λ k r e. e)) a

run-Together :
    (es : List Event) (s : Logic)
    → IsSound s
    → Together s
    → FitAll es s
    → (t : Logic) × (run es s ≡ some t) × Together t
unfolding run
run-Together [] s v a fits = (s, refl, a)
run-Together (e ∷ es) s v a (fit, fits) =
    let (t, o, w) = step-IsSound e s v fit in
    rw (o, run)
      (run-Together es t w (subst (Gives Together) o (step-Together e s v a))
        (subst (Gives (FitAll es)) o fits))

-- A logic server that has just started handles any messages and frames that fit, in any order, and
-- at the end its two views of who is where agree: a user is among the users of a room if and only if
-- it is the room that is recorded as the user's. So no user is in two rooms.
pub run-new_logic-Agreed :
    (pool : IntSet) (es : List Event)
    → FitAll es (new_logic pool)
    → (t : Logic) × (run es (new_logic pool) ≡ some t)
      × ((u q : ℕ) → has u q t.rooms ≡ at_room u q t.userid2roomid)
unfolding new_logic lookup
run-new_logic-Agreed pool es fits =
    let (t, o, a) =
      run-Together es (new_logic pool)
        (record { in_rooms = tt; using = λ r. refl; free = λ r h. refl }, tt)
        (record { sorted_rooms = tt; sorted_users = tt; agree = λ u q. refl }) fits in
    (t, o, a.agree)
