-- ===== src/Room/Users.antt =====
-- Who is in a room after a call of src/Logic/Room.cpp: only JoinRoom and LeaveFromRoom change it.
use Prim.Native.String.{String}
use ancestral_property_serve.Prelude.{
  ℕ, ◌≡◌, ◌∙◌, ap, refl, Bool, true, false, Option, [], ◌∷◌, ◌++◌, lookup, contains, add,
  lookup-insert, lookup-erase, if◌then◌else◌, if_keeps, Bool-cases, Option-cases, inl, inr, ◌==◌,
  or_default, first_key, arith,
}
use ancestral_property_serve.Room.State.{Room, UserOperate, is_host}
use ancestral_property_serve.Room.Invariant.{IsValid}
use ancestral_property_serve.Room.Game.{
  join_game, notify_user_join_game, end_game, start_game, tick, on_user_operate, leave_from_game,
  broad_cast_to_game, send_room_all_info_to_all,
}
use ancestral_property_serve.Room.Members.{
  join_room, leave_from_room, set_user_offline, set_user_online, reconnect, user_info_change,
}
use ancestral_property_serve.Room.Termination.{leave_from_game-eq, end_game-eq}
use ancestral_property_serve.Room.Effects.{take_place-eq}
use ancestral_property_serve.Room.Validity.{join_room_cases}
use ancestral_property_serve.Room.Joining.{notify_game_start_to_user-eq}
use ancestral_property_serve.Room.Roundtrip.{leave_from_room-eq, leave_from_room-stranger}
use ancestral_property_serve.Room.Start.{start_game-Started, start_game_refused}
use ancestral_property_serve.Room.History.{
  Call, joins, leaves, quits_game, starts_game, joins_game, goes_offline, reconnects, ends_game,
  ticks, operates, changes_role, step,
}

abbrev pub SameUsers : Room → Room → Type 0
SameUsers r r' = r'.userid2userpid ≡ r.userid2userpid

leave_from_game-SameUsers : (userid : ℕ) (r : Room) → SameUsers r (leave_from_game userid r)
leave_from_game-SameUsers userid r = ap (λ x. x.userid2userpid) (leave_from_game-eq userid r)

end_game-SameUsers : (r : Room) → SameUsers r (end_game r)
end_game-SameUsers r = ap (λ x. x.userid2userpid) (end_game-eq r)

pub set_user_offline-SameUsers : (userid : ℕ) (r : Room) → SameUsers r (set_user_offline userid r)
unfolding set_user_offline
set_user_offline-SameUsers userid r = ground (
  arith,
  leave_from_game-SameUsers userid (record r { offline_userid = add userid r.offline_userid }),
)

notify_user_join_game-SameUsers :
    (userid : ℕ) (r : Room) → SameUsers r (notify_user_join_game userid r)
unfolding notify_user_join_game
notify_user_join_game-SameUsers userid r = ground arith

join_game-SameUsers : (userid : ℕ) (r : Room) → SameUsers r (join_game userid r)
unfolding join_game notify_user_join_game
join_game-SameUsers userid r = ground arith

set_user_online-SameUsers : (userid : ℕ) (r : Room) → SameUsers r (set_user_online userid r)
unfolding set_user_online
set_user_online-SameUsers userid r = ground arith

reconnect-SameUsers : (userid : ℕ) (r : Room) → SameUsers r (reconnect userid r)
unfolding reconnect
reconnect-SameUsers userid r =
    if_keeps (SameUsers r) (contains userid r.userid2userpid)
      (λ c.
        let r1 = set_user_online userid r in
        let e1 = set_user_online-SameUsers userid r in
        let r2 : Room = record r1 { outbox = r1.outbox ++ _ ∷ [] } in
        join_game-SameUsers userid _
        ∙ ap (λ x. x.userid2userpid)
            (notify_game_start_to_user-eq userid r2 (ap (contains userid) e1 ∙ c))
        ∙ e1)
      (λ _. refl)

start_game-SameUsers : (userid : ℕ) (r : Room) → IsValid r → SameUsers r (start_game userid r)
start_game-SameUsers userid r v = elim (Bool-cases r.m_game_started) [
  | inl e ↦ ap (λ x. x.userid2userpid) (start_game_refused userid r (inl e))
  | inr idle ↦ elim (Bool-cases (is_host r userid)) [
    | inl host ↦ (start_game-Started userid r v idle host).same_users
    | inr e ↦ ap (λ x. x.userid2userpid) (start_game_refused userid r (inr e))
  ]
]

pub tick-SameUsers : (chase : Bool) (r : Room) → SameUsers r (tick chase r).0
unfolding tick broad_cast_to_game
tick-SameUsers chase r = ground arith

on_user_operate-SameUsers :
    (userid : ℕ) (body : Option UserOperate) (r : Room)
    → SameUsers r (on_user_operate userid body r)
unfolding on_user_operate
on_user_operate-SameUsers userid body r = ground arith

user_info_change-SameUsers :
    (userid role_id : ℕ) (r : Room) → SameUsers r (user_info_change userid role_id r)
unfolding user_info_change send_room_all_info_to_all
user_info_change-SameUsers userid role_id r = ground arith

-- The calls other than JoinRoom and LeaveFromRoom.
abbrev pub stays : Call → Bool
stays (joins userid username) = false
stays (leaves userid) = false
stays _ = true

pub step-SameUsers : (r : Room) (c : Call) → IsValid r → stays c ≡ true → SameUsers r (step r c)
unfolding step
step-SameUsers r (joins userid username) v h = ground (arith, h)
step-SameUsers r (leaves userid) v h = ground (arith, h)
step-SameUsers r (quits_game userid) v h = leave_from_game-SameUsers userid r
step-SameUsers r (starts_game userid) v h = start_game-SameUsers userid r v
step-SameUsers r (joins_game userid) v h = notify_user_join_game-SameUsers userid r
step-SameUsers r (goes_offline userid) v h = set_user_offline-SameUsers userid r
step-SameUsers r (reconnects userid) v h = reconnect-SameUsers userid r
step-SameUsers r ends_game v h = end_game-SameUsers r
step-SameUsers r (ticks is_chase_frame) v h = tick-SameUsers is_chase_frame r
step-SameUsers r (operates userid body) v h = on_user_operate-SameUsers userid body r
step-SameUsers r (changes_role userid role_id) v h = user_info_change-SameUsers userid role_id r

-- Afterwards the user is out of the room, and the others are as before.
pub leave_from_room-users :
    (userid u : ℕ) (r : Room)
    → contains u (leave_from_room userid r).userid2userpid
      ≡ (if userid == u then false else contains u r.userid2userpid)
leave_from_room-users userid u r = elim (Option-cases (lookup userid r.userid2userpid)) [
  | inl e ↦
      ground (arith, e, leave_from_room-stranger userid r e, leave_from_game-SameUsers userid r)
  | inr (p, e) ↦
      ground (arith, leave_from_room-eq userid p r e, lookup-erase userid u r.userid2userpid)
]

-- A user who is taken in is in the room, and the others are as before.
pub join_room-users :
    (userid u : ℕ) (name : String) (r : Room)
    → IsValid r
    → contains u (join_room userid name r).0.userid2userpid ≡ (
        if (join_room userid name r).1
        then if userid == u then true else contains u r.userid2userpid
        else contains u r.userid2userpid)
join_room-users userid u name r v = elim (join_room_cases userid name r v) [
  | inl (refused, why, e) ↦ rw refused (ap (λ x. contains u x.userid2userpid) e)
  | inr (p, e, idle, room, new, f) ↦ rw e (
      ap (λ x. contains u x.userid2userpid) (take_place-eq userid name r)
      ∙ ground (
        arith,
        lookup-insert userid u (or_default (first_key r.userpid_pool) 0) r.userid2userpid,
      ))
]
