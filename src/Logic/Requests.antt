-- ===== src/Logic/Requests.antt =====
-- OnMsgBodyAnalysised and HandleCreateRoom of src/Source/LogicServer.cpp.
use Prim.Native.String.{String}
use ancestral_property_serve.Prelude.{
  ℕ, ◌≡◌, ◌≢◌, ◌⊎◌, ap, refl, true, some, [], ◌∷◌, Map, IntSet, lookup, insert, first_key, erase,
  contains, add, if_keeps, inl, inr, arith,
}
use ancestral_property_serve.Config.{room_size}
use ancestral_property_serve.Room.State.{Sent, new_room}
use ancestral_property_serve.Logic.{Logic, send_to_client, forward, add_room}
use ancestral_property_serve.Logic.Handlers.{
  Request, handle_create_room, handle_get_room_list, handle, on_msg_body_analysised,
}
use ancestral_property_serve.Logic.Joining.{
  IsValid, AllIn-more, forward-eq, contains-insert, contains-erase, contains-add,
}
use ancestral_property_serve.Logic.Safety.{
  Safe, handle_join_room-Safe, handle_leave_room-Safe, handle_logout-Safe, handle_login-IsValid,
  call_room_of-IsValid, send_to_client-IsValid, move_player_to_room-Safe,
}

pool-cases : (m : IntSet) → (m ≡ []) ⊎ ((k : ℕ) × (rest : IntSet) × (m ≡ (k, tt) ∷ rest))
pool-cases [] = inl refl
pool-cases ((k, _) ∷ rest) = inr (k, rest, refl)

contains-head : (k : ℕ) (rest m : IntSet) → m ≡ (k, tt) ∷ rest → contains k m ≡ true
unfolding lookup
contains-head k rest m e = rw (e, lookup) (ground arith)

-- What add_room makes of a server whose pool has the least id k.
with_room : ℕ → String → ℕ → ℕ → Logic → Logic
with_room k roomname draw unset s = record s {
  roomid_pool = erase k s.roomid_pool;
  roomid_using = add k s.roomid_using;
  rooms = insert k (new_room k roomname room_size draw unset) s.rooms;
}

with_room-IsValid :
    (k : ℕ) (roomname : String) (draw unset : ℕ) (s : Logic)
    → IsValid s
    → contains k s.roomid_pool ≡ true
    → IsValid (with_room k roomname draw unset s)
unfolding with_room
with_room-IsValid k roomname draw unset s v pooled =
    let r = new_room k roomname room_size draw unset in
    record {
      in_rooms =
          AllIn-more s.rooms _ s.userid2roomid
            (λ q h. ground (arith, h, contains-insert k q r s.rooms)) v.in_rooms;
      using = λ q.
          ground (arith, v.using q, contains-insert k q r s.rooms, contains-add k q s.roomid_using);
      free = λ q h.
          ground
            (arith, h, v.free q, contains-insert k q r s.rooms, contains-erase k q s.roomid_pool);
    }

add_room-eq :
    (k : ℕ) (roomname : String) (draw unset : ℕ) (s : Logic)
    → first_key s.roomid_pool ≡ some k
    → add_room roomname draw unset s ≡ some (k, with_room k roomname draw unset s)
unfolding add_room with_room
add_room-eq k roomname draw unset s e = rw (e, add_room) refl

send_to_client-eq :
    (m : Sent) (s : Logic) → send_to_client m s ≡ record s { outbox = (send_to_client m s).outbox }
unfolding forward
send_to_client-eq m s = forward-eq (m ∷ []) s

handle_create_room-Safe :
    (userid : ℕ) (roomname : String) (draw unset : ℕ) (s : Logic)
    → IsValid s
    → s.roomid_pool ≢ []
    → Safe (handle_create_room userid roomname draw unset s)
unfolding handle_create_room with_room
handle_create_room-Safe userid roomname draw unset s v pooled = elim (pool-cases s.roomid_pool) [
  | inl e ↦ ground (arith, e, pooled)
  | inr (k, rest, e) ↦
      if_keeps Safe (contains userid s.userid2roomid) (λ _. (_, refl, send_to_client-IsValid _ s v))
        (λ alone.
          let v1 =
            with_room-IsValid k roomname draw unset s v (contains-head k rest s.roomid_pool e) in
          rw (add_room-eq k roomname draw unset s (ap first_key e)) (
            move_player_to_room-Safe userid k _ (send_to_client-IsValid _ _ v1)
              (rw (send_to_client-eq _ (with_room k roomname draw unset s)) (
                ground
                  (arith, contains-insert k k (new_room k roomname room_size draw unset) s.rooms)))
              (rw (send_to_client-eq _ (with_room k roomname draw unset s))
                (ground (arith, alone)))))
]

-- What the source relies on where it does not test: a user does not ask to join the room the user is
-- in, and a room id is left when a room is to be made.
abbrev pub Fits : ℕ → Request → Map ℕ → IntSet → Type 0
Fits sender (Request.join_room_request roomid) users pool = lookup sender users ≢ some roomid
Fits sender (Request.create_room_request roomname draw unset) users pool = pool ≢ []
Fits sender _ users pool = Unit {0}

handle-Safe :
    (sender : ℕ) (q : Request) (s : Logic)
    → IsValid s
    → Fits sender q s.userid2roomid s.roomid_pool
    → Safe (handle sender q s)
unfolding handle handle_get_room_list
handle-Safe sender (Request.login_response userid username) s v f =
    (_, refl, handle_login-IsValid userid username s v)
handle-Safe sender (Request.join_room_request roomid) s v f =
    handle_join_room-Safe sender roomid s v f
handle-Safe sender (Request.leave_room_request roomid) s v f =
    handle_leave_room-Safe sender roomid s v
handle-Safe sender (Request.create_room_request roomname draw unset) s v f =
    handle_create_room-Safe sender roomname draw unset s v f
handle-Safe sender Request.get_room_list_request s v f = (_, refl, send_to_client-IsValid _ s v)
handle-Safe sender Request.join_game_request s v f = (_, refl, call_room_of-IsValid sender _ s v)
handle-Safe sender Request.quit_game_request s v f = (_, refl, call_room_of-IsValid sender _ s v)
handle-Safe sender (Request.change_role_request role_id) s v f =
    (_, refl, call_room_of-IsValid sender _ s v)
handle-Safe sender Request.start_game_request s v f = (_, refl, call_room_of-IsValid sender _ s v)
handle-Safe sender Request.end_game_request s v f = (_, refl, call_room_of-IsValid sender _ s v)
handle-Safe sender (Request.user_operate_request body) s v f =
    (_, refl, call_room_of-IsValid sender _ s v)
handle-Safe sender (Request.user_logout userid) s v f = handle_logout-Safe userid s v
handle-Safe sender Request.other s v f = (s, refl, v)

-- A valid server handles every message without undefined behaviour and is valid after it, if a
-- message that asks to join a room comes from a user who is not in that room, and one that asks to
-- create a room finds a room id in the pool.
pub on_msg_body_analysised-Safe :
    (fd sender : ℕ) (q : Request) (s : Logic)
    → IsValid s
    → Fits sender q s.userid2roomid s.roomid_pool
    → (t : Logic) × (on_msg_body_analysised fd sender q s ≡ some t) × IsValid t
unfolding on_msg_body_analysised
on_msg_body_analysised-Safe fd sender q s v f =
    handle-Safe sender q (record s { user_gate = insert sender fd s.user_gate })
      (record { in_rooms = v.in_rooms; using = v.using; free = v.free }) f
