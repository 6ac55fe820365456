-- ===== src/Room/Closing.antt =====
-- The end of a room (the destructor of src/Logic/Room.cpp), and users who are marked offline.
use ancestral_property_serve.Prelude.{
  ℕ, ◌≡◌, refl, ◌∙◌, ap, Option, Map, true, false, List, [], ◌∷◌, Option-cases, inl, inr, contains,
  lookup, erase, erase_missing, lookup-erase, keys, length, none, some, arith, add, lookup-insert,
}
use ancestral_property_serve.Room.State.{Room}
use ancestral_property_serve.Room.Invariant.{IsValid}
use ancestral_property_serve.Room.Game.{for_each, end_game}
use ancestral_property_serve.Room.Members.{
  leave_from_room, close_room, kick_all_user_from_room, set_user_offline,
}
use ancestral_property_serve.Room.Termination.{
  erase_all, erase_all-keys, leave_from_game-eq, end_game-eq,
}
use ancestral_property_serve.Room.Validity.{leave_from_room-IsValid, end_game-IsValid}
use ancestral_property_serve.Room.Roundtrip.{leave_from_room-eq, leave_from_room-stranger}
use ancestral_property_serve.Room.Calm.{leave_from_room-Calm}

users-leave_from_room :
    (userid : ℕ) (r : Room)
    → (leave_from_room userid r).userid2userpid ≡ erase userid r.userid2userpid
users-leave_from_room userid r = elim (Option-cases (lookup userid r.userid2userpid)) [
  | inl e ↦ ground (
    arith,
    leave_from_room-stranger userid r e,
    leave_from_game-eq userid r,
    erase_missing userid r.userid2userpid e,
  )
  | inr (p, e) ↦ ground (arith, leave_from_room-eq userid p r e)
]

users-kick :
    (us : List ℕ) (r : Room)
    → (for_each leave_from_room us r).userid2userpid ≡ erase_all us r.userid2userpid
unfolding for_each erase_all
users-kick [] r = refl
users-kick (u ∷ us) r =
    users-kick us (leave_from_room u r) ∙ ap (erase_all us) (users-leave_from_room u r)

kick-IsValid : (us : List ℕ) (r : Room) → IsValid r → IsValid (for_each leave_from_room us r)
unfolding for_each
kick-IsValid [] r v = v
kick-IsValid (u ∷ us) r v = kick-IsValid us (leave_from_room u r) (leave_from_room-IsValid u r v)

kick-stopped :
    (us : List ℕ) (r : Room)
    → r.m_game_started ≡ false
    → (for_each leave_from_room us r).m_game_started ≡ false
unfolding for_each
kick-stopped [] r e = e
kick-stopped (u ∷ us) r e =
    kick-stopped us (leave_from_room u r) (ground (arith, (leave_from_room-Calm u r).no_start))

lookup_host :
    (host : Option ℕ) {users : Map ℕ}
    → ((h : ℕ) → host ≡ some h → contains h users ≡ true)
    → users ≡ []
    → host ≡ none
unfolding lookup
lookup_host none h e = refl
lookup_host (some x) h e = ground (arith, h x refl)

-- Deleting a valid room ends its game and takes everybody out: no user, no player, no host, and
-- every pid is free.
pub close_room_empties :
    (r : Room)
    → IsValid r
    → let r' = close_room r in
      (r'.userid2userpid ≡ [])
      × (r'.in_game_id2pid ≡ [])
      × (r'.m_game_started ≡ false)
      × (r'.host_userid ≡ none)
      × (length r'.userpid_pool ≡ r'.m_size)
      × IsValid r'
unfolding close_room kick_all_user_from_room
close_room_empties r v =
    let e = end_game r in
    let valid = kick-IsValid (keys e.userid2userpid) e (end_game-IsValid r v) in
    let users = users-kick (keys e.userid2userpid) e ∙ erase_all-keys e.userid2userpid in
    let stopped =
      kick-stopped (keys e.userid2userpid) e (ap (λ x. x.m_game_started) (end_game-eq r)) in
    let none_left = lookup_host (close_room r).host_userid valid.hosting.host_in users in
    (
      users,
      valid.playing.stopped stopped,
      stopped,
      none_left,
      ground (arith, users, valid.places.total),
      valid,
    )

set_user_offline-marks :
    (userid : ℕ) (r : Room)
    → contains userid r.userid2userpid ≡ true
    → ((set_user_offline userid r).userid2userpid ≡ r.userid2userpid)
      × (contains userid (set_user_offline userid r).offline_userid ≡ true)
unfolding set_user_offline add
set_user_offline-marks userid r c = ground (
  arith,
  leave_from_game-eq userid (record r { offline_userid = add userid r.offline_userid }),
  lookup-insert userid userid tt r.offline_userid,
)

leave_from_room-offline :
    (userid p : ℕ) (r : Room)
    → lookup userid r.userid2userpid ≡ some p
    → (lookup userid (leave_from_room userid r).userid2userpid ≡ none)
      × ((leave_from_room userid r).offline_userid ≡ r.offline_userid)
leave_from_room-offline userid p r e =
    ground (arith, leave_from_room-eq userid p r e, lookup-erase userid userid r.userid2userpid)

-- A user who went offline and then leaves the room stays in the list of offline users, which
-- CheckRoomDead compares with the users by size.
pub leave_keeps_offline :
    (userid : ℕ) (r : Room)
    → contains userid r.userid2userpid ≡ true
    → let r' = leave_from_room userid (set_user_offline userid r) in
      (contains userid r'.userid2userpid ≡ false) × (contains userid r'.offline_userid ≡ true)
leave_keeps_offline userid r c =
    let r1 = set_user_offline userid r in
    let m = set_user_offline-marks userid r c in
    elim (Option-cases (lookup userid r1.userid2userpid)) [
      | inl e ↦ ground arith
      | inr (p, e) ↦ ground (arith, leave_from_room-offline userid p r1 e)
    ]
