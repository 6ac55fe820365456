-- ===== src/Room/Roundtrip.antt =====
-- LeaveFromRoom field by field, and JoinRoom followed by LeaveFromRoom (src/Logic/Room.cpp).
use Prim.Native.String.{String}
use ancestral_property_serve.Prelude.{
  ℕ, ◌≡◌, refl, true, false, ◌&&◌, Option, none, some, [], contains, lookup, first_key, is_empty,
  is_some, add, insert, erase, ◌∙◌, arith, sym, if◌then◌else◌, Map, inl, inr, ==_refl, ◌==◌,
  lookup-insert, erase_missing,
}
use ancestral_property_serve.Prelude.Sizes.{lookup_first, erase-insert, insert-erase_first}
use mathlib.Core.Bool.{false≢true}
use ancestral_property_serve.Room.State.{Room, is_host}
use ancestral_property_serve.Room.Invariant.{IsValid, Hosting}
use ancestral_property_serve.Room.Game.{leave_from_game}
use ancestral_property_serve.Room.Members.{join_room, leave_from_room, take_place}
use ancestral_property_serve.Room.Termination.{leave_from_game-eq}
use ancestral_property_serve.Room.Effects.{remove_member-eq, take_place-eq}
use ancestral_property_serve.Room.Validity.{join_room_cases}

-- What LeaveFromRoom does for a user of the room: out of the game, pid back to the pool, out of
-- every map, and the smallest id left becomes host if the host left.
pub leave_from_room-eq :
    (userid p : ℕ) (r : Room)
    → lookup userid r.userid2userpid ≡ some p
    → leave_from_room userid r ≡ record r {
      m_game_started =
          if contains userid r.in_game_id2pid && is_empty (erase userid r.in_game_id2pid)
          then false
          else r.m_game_started;
      in_game_id2pid = erase userid r.in_game_id2pid;
      userpid_pool = add p r.userpid_pool;
      userid2userpid = erase userid r.userid2userpid;
      userid2roleid = erase userid r.userid2roleid;
      id2name = erase userid r.id2name;
      host_userid =
          if is_host r userid then first_key (erase userid r.userid2userpid) else r.host_userid;
      outbox = (leave_from_room userid r).outbox;
    }
unfolding leave_from_room
leave_from_room-eq userid p r e =
    ground (arith, leave_from_game-eq userid r, remove_member-eq userid (leave_from_game userid r))

-- A user who is not in the room changes nothing by LeaveFromRoom, the game apart.
pub leave_from_room-stranger :
    (userid : ℕ) (r : Room)
    → lookup userid r.userid2userpid ≡ none
    → leave_from_room userid r
      ≡ record (leave_from_game userid r) { outbox = (leave_from_room userid r).outbox }
unfolding leave_from_room
leave_from_room-stranger userid r e = ground (arith, leave_from_game-eq userid r)

host_back :
    (userid p : ℕ) (host : Option ℕ) (users : Map ℕ)
    → Hosting host users
    → lookup userid users ≡ none
    → erase userid (insert userid p users) ≡ users
    → (if elim (if is_some host then host else some userid) [ none ↦ false | some h ↦ h == userid ]
        then first_key (erase userid (insert userid p users))
        else if is_some host
        then host
        else some userid)
      ≡ host
host_back userid p none users h new back = rw back (rw (h.hostless refl, ==_refl userid))
host_back userid p (some x) users h new back = ground (arith, h.host_in x refl)

lookup_empty : (k : ℕ) (m : Map ℕ) → m ≡ [] → lookup k m ≡ none
unfolding lookup
lookup_empty k m e = rw e

-- A place taken and left again.
taken-left :
    (userid p : ℕ) (name : String) (r : Room)
    → IsValid r
    → r.m_game_started ≡ false
    → lookup userid r.userid2userpid ≡ none
    → first_key r.userpid_pool ≡ some p
    → leave_from_room userid (take_place userid name r)
      ≡ record r { outbox = (leave_from_room userid (take_place userid name r)).outbox }
unfolding add
taken-left userid p name r v idle new f =
    let t = take_place userid name r in
    let back = erase-insert userid 0 p r.userid2userpid v.places.users_sorted new in
    let role_back : erase userid (insert userid 1 r.userid2roleid) ≡ r.userid2roleid =
      erase-insert userid 0 1 r.userid2roleid v.profiles.roles_sorted
        (ground (arith, v.profiles.with_role userid)) in
    let name_back : erase userid (insert userid name r.id2name) ≡ r.id2name =
      erase-insert userid 0 name r.id2name v.profiles.names_sorted
        (ground (arith, v.profiles.with_name userid)) in
    let free : lookup p r.userpid_pool ≡ some tt =
      ground (arith, lookup_first p r.userpid_pool f) in
    let pool_back = insert-erase_first p 0 tt r.userpid_pool v.places.pool_sorted free f in
    let nobody = lookup_empty userid r.in_game_id2pid (v.playing.stopped idle) in
    let in_game_back = erase_missing userid r.in_game_id2pid nobody in
    ground (
      arith,
      take_place-eq userid name r,
      leave_from_room-eq userid p t,
      lookup-insert userid userid p r.userid2userpid,
      host_back userid p r.host_userid r.userid2userpid v.hosting new back,
    )

-- A user who joins and leaves again leaves no trace: every field but the outbox is as before.
pub leave-join :
    (userid : ℕ) (name : String) (r : Room)
    → IsValid r
    → (join_room userid name r).1 ≡ true
    → leave_from_room userid (join_room userid name r).0
      ≡ record r { outbox = (leave_from_room userid (join_room userid name r).0).outbox }
leave-join userid name r v j = elim (join_room_cases userid name r v) [
  | inl (refused, why, e) ↦ absurd (false≢true (sym refused ∙ j))
  | inr (p, e, idle, room, new, f) ↦ rw e (taken-left userid p name r v idle new f)
]
