-- ===== src/Room/Calm.antt =====
-- Calls of src/Logic/Room.cpp that neither start a game nor tick leave the frame counter, the
-- replay and the size of the room alone; no call makes a room larger.
use Prim.Native.String.{String}
use ancestral_property_serve.Prelude.{
  ℕ, ◌≤◌, ◌≡◌, refl, true, Option, List, [], ◌∷◌, ◌++◌, contains, lookup, ◌∙◌, arith, if_keeps,
  Bool-cases, Option-cases, inl, inr, add,
}
use ancestral_property_serve.Room.State.{Room, Sent, UserOperate, is_host, player_count, new_room}
use ancestral_property_serve.Room.Invariant.{IsValid}
use ancestral_property_serve.Room.Game.{
  join_game, notify_user_join_game, notify_game_start_to_user, end_game, tick, on_user_operate,
  leave_from_game, broad_cast_to_game, send_room_all_info_to_all,
}
use ancestral_property_serve.Room.Members.{
  join_room, leave_from_room, set_user_offline, set_user_online, reconnect, user_info_change,
}
use ancestral_property_serve.Room.Termination.{leave_from_game-eq, end_game-eq}
use ancestral_property_serve.Room.Effects.{take_place-eq}
use ancestral_property_serve.Room.Validity.{join_room_cases}
use ancestral_property_serve.Room.Roundtrip.{leave_from_room-eq, leave_from_room-stranger}
use ancestral_property_serve.Room.Start.{start_game-Started, start_game_refused}
use ancestral_property_serve.Room.History.{
  Call, joins, leaves, quits_game, starts_game, joins_game, goes_offline, reconnects, ends_game,
  ticks, operates, changes_role, step, run, step-IsValid, run-new_room-IsValid,
}
use ancestral_property_serve.Room.Fresh.{new_room-IsValid}

-- A call that neither starts a game nor ticks leaves the counters and the replay alone.
pub record Calm (r r' : Room) : Type 0 where
  pub same_size : r'.m_size ≡ r.m_size
  pub same_frame_id : r'.frame_id ≡ r.frame_id
  pub same_frames : r'.all_frames ≡ r.all_frames
  pub no_start : r'.m_game_started ≡ true → r.m_game_started ≡ true

Calm-trans : {a b c : Room} → Calm a b → Calm b c → Calm a c
Calm-trans h k = record {
  same_size = k.same_size ∙ h.same_size;
  same_frame_id = k.same_frame_id ∙ h.same_frame_id;
  same_frames = k.same_frames ∙ h.same_frames;
  no_start = λ e. h.no_start (k.no_start e);
}

leave_from_game-Calm : (userid : ℕ) (r : Room) → Calm r (leave_from_game userid r)
leave_from_game-Calm userid r = ground (arith, leave_from_game-eq userid r)

pub leave_from_room-Calm : (userid : ℕ) (r : Room) → Calm r (leave_from_room userid r)
leave_from_room-Calm userid r = elim (Option-cases (lookup userid r.userid2userpid)) [
  | inl e ↦ ground (arith, leave_from_room-stranger userid r e, leave_from_game-eq userid r)
  | inr (p, e) ↦ ground (arith, leave_from_room-eq userid p r e)
]

end_game-Calm : (r : Room) → Calm r (end_game r)
end_game-Calm r = ground (arith, end_game-eq r)

join_room-Calm :
    (userid : ℕ) (name : String) (r : Room) → IsValid r → Calm r (join_room userid name r).0
join_room-Calm userid name r v = elim (join_room_cases userid name r v) [
  | inl (refused, why, e) ↦ ground arith
  | inr (p, e, idle, room, new, f) ↦ ground (arith, take_place-eq userid name r)
]

set_user_offline-Calm : (userid : ℕ) (r : Room) → Calm r (set_user_offline userid r)
unfolding set_user_offline
set_user_offline-Calm userid r =
    ground
      (arith, leave_from_game-eq userid (record r { offline_userid = add userid r.offline_userid }))

notify_user_join_game-Calm : (userid : ℕ) (r : Room) → Calm r (notify_user_join_game userid r)
unfolding notify_user_join_game
notify_user_join_game-Calm userid r = ground arith

join_game-Calm : (userid : ℕ) (r : Room) → Calm r (join_game userid r)
unfolding join_game notify_user_join_game
join_game-Calm userid r = ground arith

set_user_online-Calm : (userid : ℕ) (r : Room) → Calm r (set_user_online userid r)
unfolding set_user_online
set_user_online-Calm userid r = ground arith

notify_game_start_to_user-Calm :
    (userid : ℕ) (r : Room) → Calm r (notify_game_start_to_user userid r)
unfolding notify_game_start_to_user
notify_game_start_to_user-Calm userid r = ground arith

Calm-send : (r : Room) (out : List Sent) → Calm r (record r { outbox = out })
Calm-send r out = ground arith

reconnect-Calm : (userid : ℕ) (r : Room) → Calm r (reconnect userid r)
unfolding reconnect
reconnect-Calm userid r =
    if_keeps (Calm r) (contains userid r.userid2userpid)
      (λ _.
        let r1 = set_user_online userid r in
        let r2 : Room = record r1 { outbox = r1.outbox ++ _ ∷ [] } in
        let r3 = notify_game_start_to_user userid r2 in
        Calm-trans (set_user_online-Calm userid r) (
          Calm-trans (Calm-send r1 r2.outbox) (
            Calm-trans (notify_game_start_to_user-Calm userid r2)
              (Calm-trans (Calm-send r3 _) (join_game-Calm userid _)))))
      (λ _. ground arith)

on_user_operate-Calm :
    (userid : ℕ) (body : Option UserOperate) (r : Room) → Calm r (on_user_operate userid body r)
unfolding on_user_operate
on_user_operate-Calm userid body r = ground arith

user_info_change-Calm : (userid role_id : ℕ) (r : Room) → Calm r (user_info_change userid role_id r)
unfolding user_info_change send_room_all_info_to_all
user_info_change-Calm userid role_id r = ground arith

-- Neither StartGame nor a tick.
abbrev pub IsCalm : Call → Type 0
IsCalm (starts_game userid) = ⊥
IsCalm (ticks is_chase_frame) = ⊥
IsCalm _ = Unit {0}

pub step-Calm : (r : Room) (c : Call) → IsCalm c → IsValid r → Calm r (step r c)
unfolding step
step-Calm r (joins userid username) h v = join_room-Calm userid username r v
step-Calm r (leaves userid) h v = leave_from_room-Calm userid r
step-Calm r (quits_game userid) h v = leave_from_game-Calm userid r
step-Calm r (starts_game userid) h v = absurd h
step-Calm r (joins_game userid) h v = notify_user_join_game-Calm userid r
step-Calm r (goes_offline userid) h v = set_user_offline-Calm userid r
step-Calm r (reconnects userid) h v = reconnect-Calm userid r
step-Calm r ends_game h v = end_game-Calm r
step-Calm r (ticks is_chase_frame) h v = absurd h
step-Calm r (operates userid body) h v = on_user_operate-Calm userid body r
step-Calm r (changes_role userid role_id) h v = user_info_change-Calm userid role_id r

step-m_size : (r : Room) (c : Call) → IsValid r → (step r c).m_size ≡ r.m_size
unfolding step tick broad_cast_to_game
step-m_size r (starts_game userid) v = elim (Bool-cases r.m_game_started) [
  | inl e ↦ rw (start_game_refused userid r (inl e))
  | inr idle ↦ elim (Bool-cases (is_host r userid)) [
    | inl host ↦ (start_game-Started userid r v idle host).same_size
    | inr other ↦ rw (start_game_refused userid r (inr other))
  ]
]
step-m_size r (ticks is_chase_frame) v = ground arith
step-m_size r (joins userid username) v = (step-Calm r (joins userid username) tt v).same_size
step-m_size r (leaves userid) v = (step-Calm r (leaves userid) tt v).same_size
step-m_size r (quits_game userid) v = (step-Calm r (quits_game userid) tt v).same_size
step-m_size r (joins_game userid) v = (step-Calm r (joins_game userid) tt v).same_size
step-m_size r (goes_offline userid) v = (step-Calm r (goes_offline userid) tt v).same_size
step-m_size r (reconnects userid) v = (step-Calm r (reconnects userid) tt v).same_size
step-m_size r ends_game v = (step-Calm r ends_game tt v).same_size
step-m_size r (operates userid body) v = (step-Calm r (operates userid body) tt v).same_size
step-m_size r (changes_role userid role_id) v =
    (step-Calm r (changes_role userid role_id) tt v).same_size

run-m_size : (r : Room) (cs : List Call) → IsValid r → (run r cs).m_size ≡ r.m_size
unfolding run
run-m_size r [] v = refl
run-m_size r (c ∷ cs) v = run-m_size (step r c) cs (step-IsValid r c v) ∙ step-m_size r c v

-- A room made for `size` players never has more, whatever is asked of it.
pub player_count-le-size :
    (id : ℕ) (name : String) (size draw unset : ℕ) (cs : List Call)
    → player_count (run (new_room id name size draw unset) cs) ≤ size
unfolding new_room
player_count-le-size id name size draw unset cs = omega (
  arith,
  run-m_size (new_room id name size draw unset) cs (new_room-IsValid id name size draw unset),
  (run-new_room-IsValid id name size draw unset cs).places.total,
)
