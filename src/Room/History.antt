-- ===== src/Room/History.antt =====
-- A room over its life: the calls that LogicServer makes of it, in any order, keep it valid.
use Prim.Native.String.{String}
use ancestral_property_serve.Prelude.{
  ℕ, ◌≡◌, Bool, true, Option, List, [], ◌∷◌, ◌++◌, contains, touch_present, ◌∙◌, arith, if_keeps,
  subst, sym, not,
}
use ancestral_property_serve.Room.State.{Room, UserOperate, new_room}
use ancestral_property_serve.Room.Invariant.{IsValid}
use ancestral_property_serve.Room.Game.{
  notify_user_join_game, notify_game_start_to_user, end_game, start_game, tick, on_user_operate,
  leave_from_game,
}
use ancestral_property_serve.Room.Members.{
  join_room, leave_from_room, set_user_offline, set_user_online, reconnect, user_info_change,
}
use ancestral_property_serve.Room.Validity.{
  IsValid-irrelevant, leave_from_game-IsValid, end_game-IsValid, leave_from_room-IsValid,
  join_room-IsValid, set_user_offline-IsValid, set_user_online-IsValid, user_info_change-IsValid,
  tick-IsValid, on_user_operate-IsValid,
}
use ancestral_property_serve.Room.Joining.{join_game-IsValid, notify_game_start_to_user-eq}
use ancestral_property_serve.Room.Start.{start_game-IsValid}
use ancestral_property_serve.Room.Fresh.{new_room-IsValid}

-- What LogicServer asks of a room.
pub data Call : Type 0 where
  joins : (userid : ℕ) (username : String) → Call
  leaves quits_game starts_game joins_game goes_offline reconnects : (userid : ℕ) → Call
  ends_game : Call
  ticks : (is_chase_frame : Bool) → Call
  operates : (userid : ℕ) (body : Option UserOperate) → Call
  changes_role : (userid role_id : ℕ) → Call

unfoldable pub step : Room → Call → Room
step r (joins userid username) = (join_room userid username r).0
step r (leaves userid) = leave_from_room userid r
step r (quits_game userid) = leave_from_game userid r
step r (starts_game userid) = start_game userid r
step r (joins_game userid) = notify_user_join_game userid r
step r (goes_offline userid) = set_user_offline userid r
step r (reconnects userid) = reconnect userid r
step r ends_game = end_game r
step r (ticks is_chase_frame) = (tick is_chase_frame r).0
step r (operates userid body) = on_user_operate userid body r
step r (changes_role userid role_id) = user_info_change userid role_id r

unfoldable pub run : Room → List Call → Room
run r [] = r
run r (c ∷ cs) = run (step r c) cs

set_user_online-users :
    (userid : ℕ) (r : Room) → (set_user_online userid r).userid2userpid ≡ r.userid2userpid
unfolding set_user_online
set_user_online-users userid r = ground arith

reconnect-IsValid : (userid : ℕ) (r : Room) → IsValid r → IsValid (reconnect userid r)
unfolding reconnect
reconnect-IsValid userid r v =
    if_keeps IsValid (contains userid r.userid2userpid)
      (λ c.
        let r1 = set_user_online userid r in
        let c1 = subst (λ m. contains userid m ≡ true) (sym (set_user_online-users userid r)) c in
        let v1 = set_user_online-IsValid userid r v in
        let r2 : Room = record r1 { outbox = r1.outbox ++ _ ∷ [] } in
        join_game-IsValid userid _ (
          IsValid-irrelevant (notify_game_start_to_user userid r2) _ _ _ _ _ (
            rw (notify_game_start_to_user-eq userid r2 c1)
              (IsValid-irrelevant r2 _ _ _ _ _ (IsValid-irrelevant r1 _ _ _ _ _ v1)))))
      (λ _. v)

notify_user_join_game-IsValid :
    (userid : ℕ) (r : Room) → IsValid r → IsValid (notify_user_join_game userid r)
unfolding notify_user_join_game
notify_user_join_game-IsValid userid r v =
    if_keeps IsValid (not r.m_game_started) (λ _. v)
      λ _.
        if_keeps IsValid (contains userid r.userid2userpid)
          (λ c.
            rw (touch_present userid 0 r.userid2roleid (v.profiles.with_role userid ∙ c))
              (IsValid-irrelevant r _ _ _ _ _ v))
          (λ _. v)

pub step-IsValid : (r : Room) (c : Call) → IsValid r → IsValid (step r c)
unfolding step
step-IsValid r (joins userid username) v = join_room-IsValid userid username r v
step-IsValid r (leaves userid) v = leave_from_room-IsValid userid r v
step-IsValid r (quits_game userid) v = leave_from_game-IsValid userid r v
step-IsValid r (starts_game userid) v = start_game-IsValid userid r v
step-IsValid r (joins_game userid) v = notify_user_join_game-IsValid userid r v
step-IsValid r (goes_offline userid) v = set_user_offline-IsValid userid r v
step-IsValid r (reconnects userid) v = reconnect-IsValid userid r v
step-IsValid r ends_game v = end_game-IsValid r v
step-IsValid r (ticks is_chase_frame) v = tick-IsValid is_chase_frame r v
step-IsValid r (operates userid body) v = on_user_operate-IsValid userid body r v
step-IsValid r (changes_role userid role_id) v = user_info_change-IsValid userid role_id r v

run-IsValid : (r : Room) (cs : List Call) → IsValid r → IsValid (run r cs)
unfolding run
run-IsValid r [] v = v
run-IsValid r (c ∷ cs) v = run-IsValid (step r c) cs (step-IsValid r c v)

-- After any history a room that was made for `size` players is valid.
pub run-new_room-IsValid :
    (id : ℕ) (name : String) (size draw unset : ℕ) (cs : List Call)
    → IsValid (run (new_room id name size draw unset) cs)
run-new_room-IsValid id name size draw unset cs =
    run-IsValid _ cs (new_room-IsValid id name size draw unset)
