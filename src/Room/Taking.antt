-- ===== src/Room/Taking.antt =====
-- What JoinRoom of src/Logic/Room.cpp does to the room, for a user who is taken in and for one who is
-- not.
use Prim.Native.String.{String}
use ancestral_property_serve.Prelude.{
  ℕ, suc, ◌≤◌, ◌≡◌, ◌⊎◌, ◌∙◌, ap, sym, inl, inr, true, false, some, Map, lookup, contains, insert,
  erase, first_key, or_default, SortedFrom, [], ◌∷◌, is_some, if◌then◌else◌, arith,
}
use ancestral_property_serve.Prelude.Sizes.{lookup_below, lookup_first}
use ancestral_property_serve.Room.State.{Room}
use ancestral_property_serve.Room.Invariant.{IsValid}
use ancestral_property_serve.Room.Members.{join_room, take_place, is_full}
use ancestral_property_serve.Room.Effects.{take_place-eq}
use ancestral_property_serve.Room.Validity.{join_room_cases}

first_key-least :
    {V : Type 0} (p k lo : ℕ) (m : Map V)
    → SortedFrom lo m
    → first_key m ≡ some p
    → contains k m ≡ true
    → p ≤ k
unfolding lookup
first_key-least p k lo [] s f c = ground (arith, f)
first_key-least p k lo ((j, v) ∷ m) s f c = ground (arith, f, c, lookup_below k (suc j) m s.1)

-- The room with a new user under the pid `p`, the outbox apart.
abbrev pub with_user : ℕ → ℕ → String → Room → Room
with_user userid p name r = record r {
  userpid_pool = erase p r.userpid_pool;
  userid2userpid = insert userid p r.userid2userpid;
  userid2roleid = insert userid 1 r.userid2roleid;
  id2name = insert userid name r.id2name;
  host_userid = if is_some r.host_userid then r.host_userid else some userid;
}

take_place-with_user :
    (userid p : ℕ) (name : String) (r : Room)
    → first_key r.userpid_pool ≡ some p
    → take_place userid name r
      ≡ record (with_user userid p name r) { outbox = (take_place userid name r).outbox }
take_place-with_user userid p name r f =
    take_place-eq userid name r
    ∙ ap
        (λ o. record (with_user userid (or_default o 0) name r) {
          outbox = (take_place userid name r).outbox;
        })
        f

-- JoinRoom of a valid room either refuses a user, if the game has started, the room is full or the
-- user is in it, and then only sends; or none of these is so, and it takes the user in: under the
-- smallest free pid, which is no longer free, with role 1 and the given name, as the host if the room
-- has none. It leaves everything else but the outbox as it was.
pub join_room-with_user :
    (userid : ℕ) (name : String) (r : Room)
    → IsValid r
    → let r' = (join_room userid name r).0 in
      (((join_room userid name r).1 ≡ false)
        × ((r.m_game_started ≡ true)
            ⊎ (is_full r ≡ true)
            ⊎ (contains userid r.userid2userpid ≡ true))
        × (r' ≡ record r { outbox = r'.outbox }))
      ⊎ (((join_room userid name r).1 ≡ true)
          × (r.m_game_started ≡ false)
          × (is_full r ≡ false)
          × (contains userid r.userid2userpid ≡ false)
          × (p : ℕ) × (contains p r.userpid_pool ≡ true)
          × ((k : ℕ) → contains k r.userpid_pool ≡ true → p ≤ k)
          × (r' ≡ record (with_user userid p name r) { outbox = r'.outbox }))
join_room-with_user userid name r v = elim (join_room_cases userid name r v) [
  | inl refused ↦ inl refused
  | inr (p, e, idle, room, new, f) ↦ inr (
    ap (λ x. x.1) e,
    idle,
    room,
    ground (arith, new),
    p,
    lookup_first p r.userpid_pool f,
    λ k. first_key-least p k 0 r.userpid_pool v.places.pool_sorted f,
    ap (λ x. x.0) e
        ∙ take_place-with_user userid p name r f
        ∙ ap (λ o. record (with_user userid p name r) { outbox = o })
            (ap (λ x. x.0.outbox) (sym e)),
  )
]
