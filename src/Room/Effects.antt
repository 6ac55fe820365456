-- ===== src/Room/Effects.antt =====
-- What the calls of src/Logic/Room.cpp do to each field of a room, the outbox apart.
use Prim.Native.String.{String}
use ancestral_property_serve.Prelude.{
  ℕ, ◌≡◌, sym, refl, false, Option, none, some, [], ◌∷◌, Map, IntSet, length, at, leb, or_default,
  insert, erase, add, first_key, lookup-insert, arith, if◌then◌else◌, is_some,
}
use ancestral_property_serve.Prelude.Sizes.{lookup_first}
use ancestral_property_serve.Room.State.{Room, is_host}
use ancestral_property_serve.Room.Invariant.{Places}
use ancestral_property_serve.Room.Game.{send_room_all_info_to_all}
use ancestral_property_serve.Room.Members.{change_room_host, remove_member, take_place}

change_room_host_lem :
    (host : Option ℕ) (r : Room)
    → host ≡ first_key r.userid2userpid
    → change_room_host host r ≡ record r { host_userid = host }
unfolding change_room_host
change_room_host_lem none r e = refl
change_room_host_lem (some h) r e = ground (arith, lookup_first h r.userid2userpid (sym e))

pub remove_member-eq :
    (userid : ℕ) (r : Room)
    → remove_member userid r ≡ record r {
      userpid_pool = add (at userid 0 r.userid2userpid) r.userpid_pool;
      userid2userpid = erase userid r.userid2userpid;
      userid2roleid = erase userid r.userid2roleid;
      id2name = erase userid r.id2name;
      host_userid =
          if is_host r userid then first_key (erase userid r.userid2userpid) else r.host_userid;
      outbox = (remove_member userid r).outbox;
    }
unfolding remove_member send_room_all_info_to_all
remove_member-eq userid r = ground (
  arith,
  change_room_host_lem (first_key (erase userid r.userid2userpid))
      (record r {
        userpid_pool = add (at userid 0 r.userid2userpid) r.userpid_pool;
        userid2userpid = erase userid r.userid2userpid;
        userid2roleid = erase userid r.userid2roleid;
        id2name = erase userid r.id2name;
      })
      refl,
)

pub take_place-eq :
    (userid : ℕ) (name : String) (r : Room)
    → take_place userid name r ≡ record r {
      userpid_pool = erase (or_default (first_key r.userpid_pool) 0) r.userpid_pool;
      userid2userpid = insert userid (or_default (first_key r.userpid_pool) 0) r.userid2userpid;
      userid2roleid = insert userid 1 r.userid2roleid;
      id2name = insert userid name r.id2name;
      host_userid = if is_some r.host_userid then r.host_userid else some userid;
      outbox = (take_place userid name r).outbox;
    }
unfolding take_place send_room_all_info_to_all change_room_host
take_place-eq userid name r =
    ground (
      arith,
      lookup-insert userid userid (or_default (first_key r.userpid_pool) 0) r.userid2userpid,
    )

-- A valid room that is not full has a free pid, so JoinRoom never resizes it.
pub free_pid :
    {size : ℕ} {pool : IntSet} {users : Map ℕ}
    → Places size pool users
    → leb size (length users) ≡ false
    → (p : ℕ) × (first_key pool ≡ some p)
free_pid {pool = []} a h = ground (arith, a.total)
free_pid {pool = (p, x) ∷ m} a h = (p, refl)
