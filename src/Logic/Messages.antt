-- ===== src/Logic/Messages.antt =====
-- What the logic server sends to the clients (SendToClient of src/Source/LogicServer.cpp): answers only,
-- each under the type of its body.
use ancestral_property_serve.Prelude.{
  ℕ, ◌≡◌, subst, sym, refl, ◌==◌, none, some, Option, List, [], ◌∷◌, ◌++◌, append_assoc, append-nil,
  Map, lookup, erase, contains, at, if_keeps, Bool-cases, Option-cases, inl, inr, arith,
}
use ancestral_property_serve.Room.State.{Room, Sent, Body, player_count}
use ancestral_property_serve.Room.Members.{join_room, leave_from_room, close_room}
use ancestral_property_serve.Room.History.{Call, step as room_step}
use ancestral_property_serve.Room.Messages.{body_type, Answers, IsFromLogic, AllFromLogic, Speaks}
use ancestral_property_serve.Room.Messages.Calls.{step-Speaks, close_room-Speaks}
use ancestral_property_serve.Logic.{
  Logic, send_to_client, forward, put_room, call_room_of, delete_room, remove_room,
  remove_player_from_room, add_player_to_room, move_player_to_room,
}
use ancestral_property_serve.Logic.Joining.{forward-eq, put_room-eq, remove_room-eq, without}
use ancestral_property_serve.Logic.Rooms.{Each, Each-lookup, Each-insert, Each-erase, Gives}

-- The messages, each with the socket of its user's gate.
abbrev pub routed : Map ℕ → List Sent → List (ℕ × Sent)
routed gates [] = []
routed gates (m ∷ ms) =
    let rest = routed gates ms in
    elim (lookup m.userid gates) [ none ↦ rest | some fd ↦ (fd, m) ∷ rest ]

pub forward-outbox :
    (ms : List Sent) (s : Logic) → (forward ms s).outbox ≡ s.outbox ++ routed s.user_gate ms
unfolding forward send_to_client
forward-outbox [] s = sym (append-nil s.outbox)
forward-outbox (m ∷ ms) s = elim (Option-cases (lookup m.userid s.user_gate)) [
  | inl e ↦ ground (arith, e, forward-outbox ms s)
  | inr (fd, e) ↦ ground (
    arith,
    e,
    forward-outbox ms (record s { outbox = s.outbox ++ (fd, m) ∷ [] }),
    append_assoc s.outbox ((fd, m) ∷ []) (routed s.user_gate ms),
  )
]

-- Every message that was sent is an answer under its type.
abbrev pub AllOut : List (ℕ × Sent) → Type 0
AllOut [] = Unit {0}
AllOut ((fd, m) ∷ l) = IsFromLogic m × AllOut l

AllOut-append : (k l : List (ℕ × Sent)) → AllOut k → AllOut l → AllOut (k ++ l)
AllOut-append [] l h w = w
AllOut-append ((fd, m) ∷ k) l (h, hs) w = (h, AllOut-append k l hs w)

added-AllOut :
    (gate : Option ℕ) (m : Sent) (rest : List (ℕ × Sent))
    → IsFromLogic m
    → AllOut rest
    → AllOut (elim gate [ none ↦ rest | some fd ↦ (fd, m) ∷ rest ])
added-AllOut none m rest h hs = hs
added-AllOut (some fd) m rest h hs = (h, hs)

routed-AllOut : (gates : Map ℕ) (ms : List Sent) → AllFromLogic ms → AllOut (routed gates ms)
routed-AllOut gates [] h = tt
routed-AllOut gates (m ∷ ms) (h, hs) =
    added-AllOut (lookup m.userid gates) m _ h (routed-AllOut gates ms hs)

-- What the server has sent, and what its rooms have to send.
abbrev pub Says : Logic → Type 0
Says s = Each Speaks s.rooms × AllOut s.outbox

forward-AllOut :
    (ms : List Sent) (s : Logic) → AllFromLogic ms → AllOut s.outbox → AllOut (forward ms s).outbox
forward-AllOut ms s h w =
    subst AllOut (sym (forward-outbox ms s))
      (AllOut-append s.outbox (routed s.user_gate ms) w (routed-AllOut s.user_gate ms h))

pub send_to_client-Says :
    (body : Body) (userid : ℕ) (s : Logic)
    → Answers body
    → Says s
    → Says (send_to_client (record { type = body_type body; body = body; userid = userid }) s)
unfolding forward
send_to_client-Says body userid s h (a, w) =
    let m : Sent = record { type = body_type body; body = body; userid = userid } in
    (
      subst (λ t. Each Speaks t.rooms) (sym (forward-eq (m ∷ []) s)) a,
      forward-AllOut (m ∷ []) s ((refl, h), tt) w,
    )

pub put_room-Says : (k : ℕ) (r : Room) (s : Logic) → Speaks r → Says s → Says (put_room k r s)
unfolding put_room
put_room-Says k r s h (a, w) = (
  subst (λ t. Each Speaks t.rooms) (sym (put_room-eq k r s)) (Each-insert Speaks k _ s.rooms tt a),
  forward-AllOut r.outbox _ h w,
)

delete_room-AllOut : (k : ℕ) (s : Logic) → Says s → AllOut (delete_room k s).outbox
unfolding delete_room
delete_room-AllOut k s (a, w) = elim (Option-cases (lookup k s.rooms)) [
  | inl e ↦ rw (e, delete_room) w
  | inr (r, e) ↦
      rw (e, delete_room)
        (forward-AllOut (close_room r).outbox s
          (close_room-Speaks r (Each-lookup Speaks k r s.rooms a e)) w)
]

pub remove_room-Says : (k : ℕ) (s : Logic) → Says s → Says (remove_room k s)
unfolding remove_room
remove_room-Says k s (a, w) = elim (Bool-cases (contains k s.roomid_using)) [
  | inl h ↦
      rw (remove_room-eq k s h)
        (Each-erase Speaks k s.rooms a, delete_room-AllOut k (without k s) (a, w))
  | inr h ↦ rw (h, remove_room) (a, w)
]

pub call_room_of-Says :
    (userid : ℕ) (c : Call) (s : Logic) → Says s → Says (call_room_of userid (λ r. room_step r c) s)
unfolding call_room_of
call_room_of-Says userid c s (a, w) = elim (Option-cases (lookup userid s.userid2roomid)) [
  | inl e ↦ rw (e, call_room_of) (a, w)
  | inr (k, e) ↦ elim (Option-cases (lookup k s.rooms)) [
    | inl o ↦ rw (e, call_room_of) (rw (o, call_room_of) (a, w))
    | inr (r, o) ↦
        rw (e, call_room_of)
          (rw (o, call_room_of)
            (put_room-Says k (room_step r c) s
              (step-Speaks r c (Each-lookup Speaks k r s.rooms a o)) (a, w)))
  ]
]

pub remove_player_from_room-Says :
    (userid : ℕ) (s : Logic) → Says s → Gives Says (remove_player_from_room userid s)
unfolding remove_player_from_room room_step
remove_player_from_room-Says userid s (a, w) = elim (Option-cases (lookup userid s.userid2roomid)) [
  | inl e ↦ rw (e, remove_player_from_room) (a, w)
  | inr (k, e) ↦ elim (Option-cases (lookup k s.rooms)) [
    | inl o ↦ rw (e, remove_player_from_room) (rw (o, remove_player_from_room) tt)
    | inr (r, o) ↦
        (let h = step-Speaks r (Call.leaves userid) (Each-lookup Speaks k r s.rooms a o) in
          let a1 =
            put_room-Says k (leave_from_room userid r)
              (record s { userid2roomid = erase userid s.userid2roomid }) h (a, w) in
          rw (e, remove_player_from_room)
            (rw (o, remove_player_from_room)
              (if_keeps Says (player_count (leave_from_room userid r) == 0)
                (λ _. remove_room-Says k _ a1) (λ _. a1))))
  ]
]

add_player_to_room-Says :
    (userid k : ℕ) (s : Logic) → Says s → Gives Says (add_player_to_room userid k s)
unfolding add_player_to_room room_step
add_player_to_room-Says userid k s (a, w) = elim (Option-cases (lookup k s.rooms)) [
  | inl o ↦ rw (o, add_player_to_room) tt
  | inr (r, o) ↦
      (let name = at userid "" s.userid2username in
        let h = step-Speaks r (Call.joins userid name) (Each-lookup Speaks k r s.rooms a o) in
        let a1 = put_room-Says k (join_room userid name r).0 s h (a, w) in
        rw (o, add_player_to_room) (if_keeps Says (join_room userid name r).1 (λ _. a1) (λ _. a1)))
]

pub move_player_to_room-Says :
    (userid k : ℕ) (s : Logic) → Says s → Gives Says (move_player_to_room userid k s)
unfolding move_player_to_room
move_player_to_room-Says userid k s a = elim (Option-cases (remove_player_from_room userid s)) [
  | inl o ↦ rw (o, move_player_to_room) tt
  | inr (t, o) ↦
      rw (o, move_player_to_room)
        (add_player_to_room-Says userid k t
          (subst (Gives Says) o (remove_player_from_room-Says userid s a)))
]
