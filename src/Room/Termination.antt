-- ===== src/Room/Termination.antt =====
-- EndGame and LeaveFromGame call one another and still return: the recursion of
-- src/Logic/Room.cpp is two levels deep at most. Also what the two do to each field.
use ancestral_property_serve.Prelude.{
  ℕ, suc, false, ◌&&◌, ◌≡◌, refl, some, List, [], ◌∷◌, Map, erase, contains, keys, is_empty, ap,
  if◌then◌else◌, arith, lookup-erase, erase_missing, ◌∙◌,
}
use ancestral_property_serve.Room.State.{Room}
use ancestral_property_serve.Room.Game.{
  leave_from_game_by, kick_each, end_game_fuel, end_game, leave_from_game, notify_user_quit_game,
  send_room_all_info_to_all, notify_game_end, broad_cast_to_game,
}

unfoldable pub erase_all : {V : Type 0} → List ℕ → Map V → Map V
erase_all [] m = m
erase_all (k ∷ ks) m = erase_all ks (erase k m)

-- In a room whose game has ended, one leave takes the user out and tells the others.
quiet_leave : ℕ → Room → Room
quiet_leave userid r =
    if contains userid r.in_game_id2pid
    then send_room_all_info_to_all (record r { in_game_id2pid = erase userid r.in_game_id2pid })
    else r

leave_quiet :
    (fuel userid : ℕ) (r : Room)
    → r.m_game_started ≡ false
    → leave_from_game_by (end_game_fuel (suc fuel)) userid r ≡ some (quiet_leave userid r)
unfolding leave_from_game_by end_game_fuel quiet_leave notify_user_quit_game
leave_quiet fuel userid r h = ground arith

quiet_kick : List ℕ → Room → Room
quiet_kick [] r = r
quiet_kick (u ∷ us) r = quiet_kick us (quiet_leave u r)

quiet_leave-stopped : (u : ℕ) (r : Room) → (quiet_leave u r).m_game_started ≡ r.m_game_started
unfolding quiet_leave send_room_all_info_to_all
quiet_leave-stopped u r = ground arith

kick_quiet :
    (fuel : ℕ) (us : List ℕ) (r : Room)
    → r.m_game_started ≡ false
    → kick_each (leave_from_game_by (end_game_fuel (suc fuel))) us r ≡ some (quiet_kick us r)
unfolding kick_each quiet_kick
kick_quiet fuel [] r h = refl
kick_quiet fuel (u ∷ us) r h =
    rw (leave_quiet fuel u r h, kick_each)
      (kick_quiet fuel us (quiet_leave u r) (quiet_leave-stopped u r ∙ h))

-- What EndGame comes to: the messages apart, an ended game with nobody in it.
ended : Room → Room
ended r =
    if r.m_game_started
    then send_room_all_info_to_all
        (quiet_kick (keys r.in_game_id2pid) (notify_game_end (record r { m_game_started = false })))
    else r

end_game_fuel-ended : (fuel : ℕ) (r : Room) → end_game_fuel (suc (suc fuel)) r ≡ some (ended r)
unfolding end_game_fuel ended notify_game_end broad_cast_to_game
end_game_fuel-ended fuel r = ground (
  arith,
  kick_quiet fuel (keys r.in_game_id2pid) (notify_game_end (record r { m_game_started = false }))
      refl,
)

quiet_leave-eq :
    (u : ℕ) (r : Room)
    → quiet_leave u r
      ≡ record r { in_game_id2pid = erase u r.in_game_id2pid; outbox = (quiet_leave u r).outbox }
unfolding quiet_leave send_room_all_info_to_all
quiet_leave-eq u r = ground (arith, erase_missing u r.in_game_id2pid)

quiet_kick-eq :
    (us : List ℕ) (r : Room)
    → quiet_kick us r ≡ record r {
      in_game_id2pid = erase_all us r.in_game_id2pid;
      outbox = (quiet_kick us r).outbox;
    }
unfolding quiet_kick erase_all
quiet_kick-eq [] r = refl
quiet_kick-eq (u ∷ us) r = ground (arith, quiet_leave-eq u r, quiet_kick-eq us (quiet_leave u r))

erase_comm : {V : Type 0} (j k : ℕ) (m : Map V) → erase j (erase k m) ≡ erase k (erase j m)
unfolding erase
erase_comm j k [] = refl
erase_comm j k ((i, v) ∷ m) = ground (arith, erase_comm j k m)

erase_all-erase :
    {V : Type 0} (ks : List ℕ) (k : ℕ) (m : Map V)
    → erase_all ks (erase k m) ≡ erase k (erase_all ks m)
unfolding erase_all
erase_all-erase [] k m = refl
erase_all-erase (j ∷ ks) k m =
    ap (erase_all ks) (erase_comm j k m) ∙ erase_all-erase ks k (erase j m)

pub erase_all-keys : {V : Type 0} (m : Map V) → erase_all (keys m) m ≡ []
unfolding erase_all erase
erase_all-keys [] = refl
erase_all-keys ((k, v) ∷ m) = ground (arith, erase_all-erase (keys m) k m, erase_all-keys m)

ended-eq :
    (r : Room)
    → ended r ≡ record r {
      m_game_started = false;
      in_game_id2pid = if r.m_game_started then [] else r.in_game_id2pid;
      outbox = (ended r).outbox;
    }
unfolding ended send_room_all_info_to_all notify_game_end broad_cast_to_game
ended-eq r = ground (
  arith,
  quiet_kick-eq (keys r.in_game_id2pid) (notify_game_end (record r { m_game_started = false })),
  erase_all-keys r.in_game_id2pid,
)

-- EndGame with recursion two levels deep or more.
end_game_total : (fuel : ℕ) (r : Room) → end_game_fuel (suc (suc fuel)) r ≡ some (end_game r)
unfolding end_game
end_game_total fuel r = ground (arith, end_game_fuel-ended fuel r, end_game_fuel-ended 0 r)

end_game-ended : (r : Room) → end_game r ≡ ended r
unfolding end_game
end_game-ended r = ground (arith, end_game_fuel-ended 0 r)

-- LeaveFromGame tells nobody through the frame: the user is erased before NotifyUserQuitGame looks.
pub notify_user_quit_game-erase :
    (userid : ℕ) (r : Room)
    → notify_user_quit_game userid (record r { in_game_id2pid = erase userid r.in_game_id2pid })
      ≡ record r { in_game_id2pid = erase userid r.in_game_id2pid }
unfolding notify_user_quit_game
notify_user_quit_game-erase userid r = ground (arith, lookup-erase userid userid r.in_game_id2pid)

-- LeaveFromGame at any such depth.
leave_from_game_total :
    (fuel userid : ℕ) (r : Room)
    → leave_from_game_by (end_game_fuel (suc (suc fuel))) userid r ≡ some (leave_from_game userid r)
unfolding leave_from_game leave_from_game_by
leave_from_game_total fuel userid r =
    let r1 =
      notify_user_quit_game userid (record r { in_game_id2pid = erase userid r.in_game_id2pid }) in
    ground (arith, end_game_total fuel r1, end_game_total 0 r1)

-- EndGame and LeaveFromGame, which call one another, both return from every room with recursion two
-- levels deep or more, and always with the same result.
pub end_game-leave_from_game_total :
    (fuel userid : ℕ) (r : Room)
    → (end_game_fuel (suc (suc fuel)) r ≡ some (end_game r))
      × (leave_from_game_by (end_game_fuel (suc (suc fuel))) userid r
          ≡ some (leave_from_game userid r))
end_game-leave_from_game_total fuel userid r =
    (end_game_total fuel r, leave_from_game_total fuel userid r)

-- What EndGame does to each field, the outbox apart: the game has ended and nobody is in it.
pub end_game-eq :
    (r : Room)
    → end_game r ≡ record r {
      m_game_started = false;
      in_game_id2pid = if r.m_game_started then [] else r.in_game_id2pid;
      outbox = (end_game r).outbox;
    }
end_game-eq r = rw (end_game-ended r) (ended-eq r)

-- What LeaveFromGame does to each field, the outbox apart: the user is out of the game, and the
-- last one to go ends it.
pub leave_from_game-eq :
    (userid : ℕ) (r : Room)
    → leave_from_game userid r ≡ record r {
      m_game_started =
          if contains userid r.in_game_id2pid && is_empty (erase userid r.in_game_id2pid)
          then false
          else r.m_game_started;
      in_game_id2pid = erase userid r.in_game_id2pid;
      outbox = (leave_from_game userid r).outbox;
    }
unfolding leave_from_game leave_from_game_by send_room_all_info_to_all
leave_from_game-eq userid r =
    let r1 = record r { in_game_id2pid = erase userid r.in_game_id2pid } in
    ground (
      arith,
      notify_user_quit_game-erase userid r,
      erase_missing userid r.in_game_id2pid,
      end_game_total 0 r1,
      end_game-eq r1,
    )
