-- ===== src/Logic/Safety.antt =====
-- The handlers of src/Source/LogicServer.cpp that move users between rooms.
use Prim.Native.String.{String}
use ancestral_property_serve.Prelude.{
  ℕ, ◌≡◌, ◌≢◌, ◌∙◌, ap, refl, true, not, ◌||◌, Option, some, [], ◌∷◌, Map, lookup, insert, erase,
  contains, touch, at, ◌==◌, if◌then◌else◌, if_keeps, Bool-cases, Option-cases, inl, inr, arith,
}
use ancestral_property_serve.Room.State.{Room, Sent, player_count}
use ancestral_property_serve.Room.Members.{
  join_room, leave_from_room, set_user_offline, check_room_dead, reconnect,
}
use ancestral_property_serve.Logic.{
  Logic, send_to_client, forward, put_room, remove_room, remove_player_from_room,
  add_player_to_room, move_player_to_room, call_room_of,
}
use ancestral_property_serve.Logic.Handlers.{
  handle_join_room, handle_leave_room, handle_logout, handle_login, in_room,
}
use ancestral_property_serve.Logic.Joining.{
  IsValid, AllIn-lookup, AllIn-insert, AllIn-erase, IsValid-forward, put_room-IsValid,
  remove_room-IsValid, rooms-remove_room, forward-eq, contains-insert,
}

-- The call is defined and leaves a valid server behind.
abbrev pub Safe : Option Logic → Type 0
Safe o = (s : Logic) × (o ≡ some s) × IsValid s

pub rooms-put_room :
    (roomid q : ℕ) (r : Room) (s : Logic)
    → contains roomid s.rooms ≡ true
    → contains q (put_room roomid r s).rooms ≡ contains q s.rooms
unfolding put_room
rooms-put_room roomid q r s known =
    ap (λ t. contains q t.rooms)
      (forward-eq r.outbox (record s { rooms = insert roomid (record r { outbox = [] }) s.rooms }))
    ∙ ground (arith, known, contains-insert roomid q (record r { outbox = [] }) s.rooms)

users-put_room :
    (roomid : ℕ) (r : Room) (s : Logic) → (put_room roomid r s).userid2roomid ≡ s.userid2roomid
unfolding put_room
users-put_room roomid r s =
    ap (λ t. t.userid2roomid)
      (forward-eq r.outbox (record s { rooms = insert roomid (record r { outbox = [] }) s.rooms }))

erase_user-IsValid :
    (userid : ℕ) (s : Logic)
    → IsValid s
    → IsValid (record s { userid2roomid = erase userid s.userid2roomid })
erase_user-IsValid userid s v = record {
  in_rooms = AllIn-erase s.rooms s.userid2roomid userid v.in_rooms;
  using = v.using;
  free = v.free;
}

contains-some :
    {V : Type 0} (k : ℕ) (m : Map V) → contains k m ≡ true → (v : V) × (lookup k m ≡ some v)
contains-some k m h = elim (Option-cases (lookup k m)) [
  | inl e ↦ ground (arith, h, e)
  | inr (v, e) ↦ (v, e)
]

-- Removing a player keeps every other room.
remove_player_from_room-Safe :
    (userid : ℕ) (s : Logic)
    → IsValid s
    → (t : Logic) × (remove_player_from_room userid s ≡ some t)
      × IsValid t
      × ((q : ℕ)
          → contains q s.rooms ≡ true
          → lookup userid s.userid2roomid ≢ some q
          → contains q t.rooms ≡ true)
unfolding remove_player_from_room
remove_player_from_room-Safe userid s v = elim (Option-cases (lookup userid s.userid2roomid)) [
  | inl e ↦ (s, rw (e, remove_player_from_room) refl, v, λ q h _. h)
  | inr (roomid, e) ↦
      (let known = AllIn-lookup s.rooms s.userid2roomid userid roomid v.in_rooms e in
        let (r, er) = contains-some roomid s.rooms known in
        let left = leave_from_room userid r in
        let s0 : Logic = record s { userid2roomid = erase userid s.userid2roomid } in
        let s1 = put_room roomid left s0 in
        let v1 = put_room-IsValid roomid left s0 known (erase_user-IsValid userid s v) in
        let b = player_count left == 0 in
        (
          if b then remove_room roomid s1 else s1,
          rw (e, remove_player_from_room) (rw (er, remove_player_from_room) refl),
          if_keeps IsValid b (λ _. remove_room-IsValid roomid s1 v1) (λ _. v1),
          λ q h apart.
              if_keeps (λ t. contains q t.rooms ≡ true) b {x = remove_room roomid s1} {y = s1}
                (λ _. ground (
                  arith,
                  e,
                  apart,
                  h,
                  rooms-remove_room roomid q s1 v1,
                  rooms-put_room roomid q left s0 known,
                ))
                (λ _. rooms-put_room roomid q left s0 known ∙ h),
        ))
]

add_player_to_room-Safe :
    (userid roomid : ℕ) (s : Logic)
    → IsValid s
    → contains roomid s.rooms ≡ true
    → Safe (add_player_to_room userid roomid s)
unfolding add_player_to_room
add_player_to_room-Safe userid roomid s v known =
    let (r, er) = contains-some roomid s.rooms known in
    let joined = join_room userid (at userid "" s.userid2username) r in
    let s1 = put_room roomid joined.0 s in
    let v1 = put_room-IsValid roomid joined.0 s known v in
    (
      if joined.1
          then record s1 {
            userid2roomid = insert userid roomid s1.userid2roomid;
            userid2username = touch userid "" s1.userid2username;
          }
          else s1,
      rw (er, add_player_to_room) refl,
      if_keeps IsValid joined.1
          (λ _. record {
            in_rooms =
                AllIn-insert s1.rooms s1.userid2roomid userid roomid v1.in_rooms
                  (rooms-put_room roomid roomid joined.0 s known ∙ known);
            using = v1.using;
            free = v1.free;
          })
          (λ _. v1),
    )

pub move_player_to_room-Safe :
    (userid roomid : ℕ) (s : Logic)
    → IsValid s
    → contains roomid s.rooms ≡ true
    → lookup userid s.userid2roomid ≢ some roomid
    → Safe (move_player_to_room userid roomid s)
unfolding move_player_to_room
move_player_to_room-Safe userid roomid s v known apart =
    let (t, e, w, kept) = remove_player_from_room-Safe userid s v in
    rw (e, move_player_to_room)
      (add_player_to_room-Safe userid roomid t w (kept roomid known apart))

pub send_to_client-IsValid : (m : Sent) (s : Logic) → IsValid s → IsValid (send_to_client m s)
unfolding forward
send_to_client-IsValid m s v = IsValid-forward (m ∷ []) s v

pub handle_join_room-Safe :
    (userid roomid : ℕ) (s : Logic)
    → IsValid s
    → lookup userid s.userid2roomid ≢ some roomid
    → Safe (handle_join_room userid roomid s)
unfolding handle_join_room
handle_join_room-Safe userid roomid s v apart = elim (Bool-cases (contains roomid s.rooms)) [
  | inl h ↦ rw (h, handle_join_room) (move_player_to_room-Safe userid roomid s v h apart)
  | inr h ↦ rw (h, handle_join_room) (_, refl, send_to_client-IsValid _ s v)
]

pub handle_leave_room-Safe :
    (userid roomid : ℕ) (s : Logic) → IsValid s → Safe (handle_leave_room userid roomid s)
unfolding handle_leave_room
handle_leave_room-Safe userid roomid s v =
    if_keeps Safe (not (contains roomid s.rooms) || not (in_room userid roomid s))
      (λ _. (_, refl, send_to_client-IsValid _ s v))
      (λ _. (let (t, e, w, _) = remove_player_from_room-Safe userid s v in (t, e, w)))

pub handle_logout-Safe : (userid : ℕ) (s : Logic) → IsValid s → Safe (handle_logout userid s)
unfolding handle_logout
handle_logout-Safe userid s v = elim (Option-cases (lookup userid s.userid2roomid)) [
  | inl e ↦ (s, rw (e, handle_logout) refl, v)
  | inr (roomid, e) ↦
      (let known = AllIn-lookup s.rooms s.userid2roomid userid roomid v.in_rooms e in
        let (r, er) = contains-some roomid s.rooms known in
        let off = set_user_offline userid r in
        let s1 = put_room roomid off s in
        let v1 = put_room-IsValid roomid off s known v in
        (
          if check_room_dead off then remove_room roomid s1 else s1,
          rw (e, handle_logout) (rw (er, handle_logout) refl),
          if_keeps IsValid (check_room_dead off) (λ _. remove_room-IsValid roomid s1 v1) (λ _. v1),
        ))
]

pub call_room_of-IsValid :
    (userid : ℕ) (f : Room → Room) (s : Logic) → IsValid s → IsValid (call_room_of userid f s)
unfolding call_room_of
call_room_of-IsValid userid f s v = elim (Option-cases (lookup userid s.userid2roomid)) [
  | inl e ↦ rw (e, call_room_of) v
  | inr (roomid, e) ↦
      (let known = AllIn-lookup s.rooms s.userid2roomid userid roomid v.in_rooms e in
        let (r, er) = contains-some roomid s.rooms known in
        rw (e, call_room_of) (rw (er, call_room_of) (put_room-IsValid roomid (f r) s known v)))
]

pub handle_login-IsValid :
    (userid : ℕ) (username : String) (s : Logic)
    → IsValid s
    → IsValid (handle_login userid username s)
unfolding handle_login
handle_login-IsValid userid username s v =
    let s1 : Logic = record s { userid2username = insert userid username s.userid2username } in
    let v1 : IsValid s1 = record { in_rooms = v.in_rooms; using = v.using; free = v.free } in
    elim (Option-cases (lookup userid s.userid2roomid)) [
      | inl e ↦ rw (e, handle_login) v1
      | inr (roomid, e) ↦
          (let known = AllIn-lookup s.rooms s.userid2roomid userid roomid v.in_rooms e in
            let (r, er) = contains-some roomid s.rooms known in
            rw (e, handle_login)
              (rw (er, handle_login)
                (if_keeps IsValid r.m_game_started
                  (λ _. call_room_of-IsValid userid (reconnect userid) s1 v1) (λ _. v1))))
    ]
