-- ===== src/Room/Validity.antt =====
-- Every call of src/Logic/Room.cpp keeps a room valid, and a new room is valid.
use Prim.Native.String.{String}
use ancestral_property_serve.Prelude.{
  ℕ, ◌≡◌, refl, Bool, true, false, not, Option, none, some, List, IntSet, lookup, contains, erase,
  first_key, lookup-erase, arith, if◌then◌else◌, ap, Option-cases, Bool-cases, if_keeps, ◌⊎◌, inl,
  inr, ==_refl,
}
use ancestral_property_serve.Room.State.{Room, Sent, is_host, Frame, UserOperate}
use ancestral_property_serve.Room.Invariant.{IsValid, Hosting}
use ancestral_property_serve.Room.Steps.{
  Places-take, Places-free, Profiles-take, Profiles-free, Profiles-role, Hosting-take,
  Hosting-stays, Hosting-first, Playing-leave, Playing-free, Playing-take, Playing-none,
}
use ancestral_property_serve.Room.Game.{
  send_room_all_info_to_all, leave_from_game, end_game, tick, on_user_operate, broad_cast_to_game,
}
use ancestral_property_serve.Room.Members.{
  remove_member, take_place, join_room, is_full, leave_from_room, leave, set_user_offline,
  set_user_online, user_info_change,
}
use ancestral_property_serve.Room.Termination.{leave_from_game-eq, end_game-eq}
use ancestral_property_serve.Room.Effects.{remove_member-eq, take_place-eq, free_pid}

-- Validity says nothing of the messages, the frames and who is offline.
pub IsValid-irrelevant :
    (r : Room) (f : Frame) (n : ℕ) (fs : List Frame) (off : IntSet) (out : List Sent)
    → IsValid r
    → IsValid
        (record r { frame = f; frame_id = n; all_frames = fs; offline_userid = off; outbox = out })
IsValid-irrelevant r f n fs off out v = record {
  places = v.places;
  profiles = v.profiles;
  hosting = v.hosting;
  playing = v.playing;
}

pub leave_from_game-IsValid :
    (userid : ℕ) (r : Room) → IsValid r → IsValid (leave_from_game userid r)
leave_from_game-IsValid userid r v = rw (leave_from_game-eq userid r) (record {
  places = v.places;
  profiles = v.profiles;
  hosting = v.hosting;
  playing = Playing-leave v.playing userid;
})

pub end_game-IsValid : (r : Room) → IsValid r → IsValid (end_game r)
end_game-IsValid r v = rw (end_game-eq r) (record {
  places = v.places;
  profiles = v.profiles;
  hosting = v.hosting;
  playing = elim (Bool-cases r.m_game_started) [
    | inl e ↦ rw e (Playing-none false r.userid2userpid)
    | inr e ↦ rw e (rw e at v.playing)
  ];
})

remove_member-Hosting :
    (userid : ℕ) (r : Room)
    → IsValid r
    → contains userid r.userid2userpid ≡ true
    → Hosting
        (if is_host r userid then first_key (erase userid r.userid2userpid) else r.host_userid)
        (erase userid r.userid2userpid)
remove_member-Hosting userid r v c = elim (Bool-cases (is_host r userid)) [
  | inl e ↦ rw e (Hosting-first (erase userid r.userid2userpid))
  | inr e ↦ rw e (Hosting-stays v.hosting userid (λ h. ground (arith, ==_refl userid)) c)
]

-- A user who is in the room and out of the game can be taken out of the room.
remove_member-IsValid :
    (userid p : ℕ) (r : Room)
    → IsValid r
    → lookup userid r.userid2userpid ≡ some p
    → lookup userid r.in_game_id2pid ≡ none
    → IsValid (remove_member userid r)
remove_member-IsValid userid p r v e g = rw (remove_member-eq userid r) (record {
  places = rw e (Places-free v.places userid p e);
  profiles = Profiles-free v.profiles userid;
  hosting = remove_member-Hosting userid r v (rw e);
  playing = Playing-free v.playing userid g;
})

users-leave_from_game :
    (userid : ℕ) (r : Room) → (leave_from_game userid r).userid2userpid ≡ r.userid2userpid
users-leave_from_game userid r = ap (λ x. x.userid2userpid) (leave_from_game-eq userid r)

in_game-leave_from_game :
    (userid : ℕ) (r : Room) → lookup userid (leave_from_game userid r).in_game_id2pid ≡ none
in_game-leave_from_game userid r =
    ground (arith, leave_from_game-eq userid r, lookup-erase userid userid r.in_game_id2pid)

pub leave_from_room-IsValid :
    (userid : ℕ) (r : Room) → IsValid r → IsValid (leave_from_room userid r)
unfolding leave_from_room
leave_from_room-IsValid userid r v = elim (Option-cases (lookup userid r1.userid2userpid)) [
  | inl e ↦
      rw (e, leave_from_room) (IsValid-irrelevant r1 _ _ _ _ _ (leave_from_game-IsValid userid r v))
  | inr (p, e) ↦
      rw (e, leave_from_room)
        (remove_member-IsValid userid p r1 (leave_from_game-IsValid userid r v) e
          (in_game-leave_from_game userid r))
]
  where
    r1 : Room
    r1 = leave_from_game userid r

take_place-IsValid :
    (userid p : ℕ) (name : String) (r : Room)
    → IsValid r
    → first_key r.userpid_pool ≡ some p
    → lookup userid r.userid2userpid ≡ none
    → IsValid (take_place userid name r)
take_place-IsValid userid p name r v f e = rw (take_place-eq userid name r) (
    rw f (record {
      places = Places-take v.places userid p f e;
      profiles = Profiles-take v.profiles userid p 1 name;
      hosting = Hosting-take v.hosting userid p;
      playing = Playing-take v.playing userid p e;
    }))

-- JoinRoom takes a user in exactly if the game has not started, the room is not full and the user
-- is not in it; it then uses the smallest free pid and never resizes the room.
pub join_room_cases :
    (userid : ℕ) (name : String) (r : Room)
    → IsValid r
    → ((join_room userid name r).1 ≡ false)
        × ((r.m_game_started ≡ true)
            ⊎ (is_full r ≡ true)
            ⊎ (contains userid r.userid2userpid ≡ true))
        × ((join_room userid name r).0 ≡ record r { outbox = (join_room userid name r).0.outbox })
      ⊎ (p : ℕ) × (join_room userid name r ≡ (take_place userid name r, true))
        × (r.m_game_started ≡ false)
        × (is_full r ≡ false)
        × (lookup userid r.userid2userpid ≡ none)
        × (first_key r.userpid_pool ≡ some p)
unfolding join_room
join_room_cases userid name r v = elim (Bool-cases r.m_game_started) [
  | inl started ↦ rw started (inl (refl, inl refl, refl))
  | inr idle ↦ elim (Bool-cases (is_full r)) [
    | inl full ↦ inl (ground arith, inr (inl full), ground arith)
    | inr room ↦ elim (Option-cases (lookup userid r.userid2userpid)) [
      | inl new ↦ (let (p, f) = free_pid v.places room in inr (p, ground arith, idle, room, new, f))
      | inr (q, old) ↦ inl (ground arith, inr (inr (ground arith)), ground arith)
    ]
  ]
]

pub join_room-IsValid :
    (userid : ℕ) (name : String) (r : Room) → IsValid r → IsValid (join_room userid name r).0
join_room-IsValid userid name r v = elim (join_room_cases userid name r v) [
  | inl (refused, why, e) ↦ rw e (IsValid-irrelevant r _ _ _ _ _ v)
  | inr (p, e, idle, room, new, f) ↦ rw e (take_place-IsValid userid p name r v f new)
]

pub leave-IsValid : (userid : ℕ) (r : Room) → IsValid r → IsValid (leave userid r)
unfolding leave
leave-IsValid userid r v =
    leave_from_room-IsValid userid (leave_from_game userid r) (leave_from_game-IsValid userid r v)

pub set_user_offline-IsValid :
    (userid : ℕ) (r : Room) → IsValid r → IsValid (set_user_offline userid r)
unfolding set_user_offline
set_user_offline-IsValid userid r v =
    if_keeps IsValid (not (contains userid r.userid2userpid)) (λ _. v)
      λ _.
        if_keeps IsValid (contains userid r.offline_userid) (λ _. v)
          λ _. leave_from_game-IsValid userid _ (IsValid-irrelevant r _ _ _ _ _ v)

pub set_user_online-IsValid :
    (userid : ℕ) (r : Room) → IsValid r → IsValid (set_user_online userid r)
unfolding set_user_online
set_user_online-IsValid userid r v =
    if_keeps IsValid (not (contains userid r.userid2userpid)) (λ _. v)
      λ _.
        if_keeps IsValid (contains userid r.offline_userid) (λ _. IsValid-irrelevant r _ _ _ _ _ v)
          (λ _. v)

pub user_info_change-IsValid :
    (userid role_id : ℕ) (r : Room) → IsValid r → IsValid (user_info_change userid role_id r)
unfolding user_info_change send_room_all_info_to_all
user_info_change-IsValid userid role_id r v =
    if_keeps IsValid (contains userid r.userid2userpid)
      (λ c. record {
        places = v.places;
        profiles = Profiles-role v.profiles userid role_id c;
        hosting = v.hosting;
        playing = v.playing;
      })
      (λ _. v)

pub tick-IsValid : (chase : Bool) (r : Room) → IsValid r → IsValid (tick chase r).0
unfolding tick broad_cast_to_game
tick-IsValid chase r v =
    if_keeps (λ (q : Room × Bool). IsValid q.0) (not r.m_game_started) (λ _. v)
      λ _. IsValid-irrelevant r _ _ _ _ _ v

pub on_user_operate-IsValid :
    (userid : ℕ) (body : Option UserOperate) (r : Room)
    → IsValid r
    → IsValid (on_user_operate userid body r)
unfolding on_user_operate
on_user_operate-IsValid userid none r v = if_keeps IsValid (not r.m_game_started) (λ _. v) (λ _. v)
on_user_operate-IsValid userid (some op) r v =
    if_keeps IsValid (not r.m_game_started) (λ _. v)
      λ _.
        if_keeps IsValid (contains userid r.userid2userpid) (λ _. IsValid-irrelevant r _ _ _ _ _ v)
          (λ _. v)
