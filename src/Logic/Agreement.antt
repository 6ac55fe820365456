-- ===== src/Logic/Agreement.antt =====
-- The two views of who is where: the rooms' own users, and the map `userid2roomid` of
-- src/Source/LogicServer.cpp.
use ancestral_property_serve.Prelude.{
  suc, ℕ, ◌≡◌, ap, Bool, true, false, none, some, [], ◌∷◌, Map, Sorted, SortedFrom, lookup, insert,
  erase, contains, ◌==◌, if◌then◌else◌, lookup-insert, lookup-erase, arith,
}
use ancestral_property_serve.Prelude.Sizes.{
  insert-Sorted, erase-Sorted, SortedFrom-mono, lookup_below,
}
use ancestral_property_serve.Room.State.{Room}
use ancestral_property_serve.Logic.{erase_users_of}

-- Whether user u is among the users of room q.
abbrev pub has : ℕ → ℕ → Map Room → Bool
has u q rooms = elim (lookup q rooms) [ none ↦ false | some r ↦ contains u r.userid2userpid ]

-- Whether q is recorded as the room of user u.
abbrev pub at_room : ℕ → ℕ → Map ℕ → Bool
at_room u q users = elim (lookup u users) [ none ↦ false | some p ↦ p == q ]

-- A user is in the room that is recorded as the user's, and in no other.
pub record Agreed (rooms : Map Room) (users : Map ℕ) : Type 0 where
  pub sorted_rooms : Sorted rooms
  pub sorted_users : Sorted users
  pub agree : (u q : ℕ) → has u q rooms ≡ at_room u q users

pub has-insert :
    (u q k : ℕ) (r : Room) (rooms : Map Room)
    → has u q (insert k r rooms) ≡ (if k == q then contains u r.userid2userpid else has u q rooms)
has-insert u q k r rooms = ground (arith, lookup-insert k q r rooms)

has-erase :
    (u q k : ℕ) (rooms : Map Room)
    → has u q (erase k rooms) ≡ (if k == q then false else has u q rooms)
has-erase u q k rooms = ground (arith, lookup-erase k q rooms)

at_room-insert :
    (u q v p : ℕ) (users : Map ℕ)
    → at_room u q (insert v p users) ≡ (if v == u then p == q else at_room u q users)
at_room-insert u q v p users = ground (arith, lookup-insert v u p users)

at_room-erase :
    (u q v : ℕ) (users : Map ℕ)
    → at_room u q (erase v users) ≡ (if v == u then false else at_room u q users)
at_room-erase u q v users = ground (arith, lookup-erase v u users)

erase_users_of-SortedFrom :
    (lo k : ℕ) (users : Map ℕ) → SortedFrom lo users → SortedFrom lo (erase_users_of k users)
unfolding erase_users_of
erase_users_of-SortedFrom lo k [] s = tt
erase_users_of-SortedFrom lo k ((u, r) ∷ m) s =
    ground (
      arith,
      erase_users_of-SortedFrom (suc u) k m,
      SortedFrom-mono lo (suc u) (erase_users_of k m),
    )

at_room-erase_users_of :
    (lo u q k : ℕ) (users : Map ℕ)
    → SortedFrom lo users
    → at_room u q (erase_users_of k users) ≡ (if k == q then false else at_room u q users)
unfolding erase_users_of lookup
at_room-erase_users_of lo u q k [] s = ground arith
at_room-erase_users_of lo u q k ((v, r) ∷ m) s =
    ground (arith, at_room-erase_users_of (suc v) u q k m s.1, lookup_below v (suc v) m s.1)

-- The steps by which the server changes the two maps.
module _ {rooms : Map Room} {users : Map ℕ} (a : Agreed rooms users) where
  -- A room is replaced by one with the same users.
  pub Agreed-alike :
      (k : ℕ) (r r' : Room)
      → lookup k rooms ≡ some r
      → ((v : ℕ) → contains v r'.userid2userpid ≡ contains v r.userid2userpid)
      → Agreed (insert k r' rooms) users
  Agreed-alike k r r' known same = record {
    sorted_rooms = insert-Sorted k r' rooms a.sorted_rooms;
    sorted_users = a.sorted_users;
    agree = λ u q. ground (arith, known, same u, has-insert u q k r' rooms, a.agree u q);
  }

  pub Agreed-same :
      (k : ℕ) (r r' : Room)
      → lookup k rooms ≡ some r
      → r'.userid2userpid ≡ r.userid2userpid
      → Agreed (insert k r' rooms) users
  Agreed-same k r r' known same = Agreed-alike k r r' known (λ v. ap (contains v) same)

  -- A user leaves the room that is recorded.
  pub Agreed-leave :
      (u k : ℕ) (r r' : Room)
      → lookup k rooms ≡ some r
      → lookup u users ≡ some k
      → ((v : ℕ)
          → contains v r'.userid2userpid ≡ (if u == v then false else contains v r.userid2userpid))
      → Agreed (insert k r' rooms) (erase u users)
  Agreed-leave u k r r' known there left = record {
    sorted_rooms = insert-Sorted k r' rooms a.sorted_rooms;
    sorted_users = erase-Sorted u users a.sorted_users;
    agree = λ v q. ground (
      arith,
      known,
      there,
      left v,
      has-insert v q k r' rooms,
      at_room-erase v q u users,
      a.agree v q,
    );
  }

  -- A user who is in no room enters one.
  pub Agreed-enter :
      (u k : ℕ) (r r' : Room)
      → lookup k rooms ≡ some r
      → lookup u users ≡ none
      → ((v : ℕ)
          → contains v r'.userid2userpid ≡ (if u == v then true else contains v r.userid2userpid))
      → Agreed (insert k r' rooms) (insert u k users)
  Agreed-enter u k r r' known away entered = record {
    sorted_rooms = insert-Sorted k r' rooms a.sorted_rooms;
    sorted_users = insert-Sorted u k users a.sorted_users;
    agree = λ v q. ground (
      arith,
      known,
      away,
      entered v,
      has-insert v q k r' rooms,
      at_room-insert v q u k users,
      a.agree v q,
    );
  }

  -- A room is deleted with the records of its users.
  pub Agreed-remove : (k : ℕ) → Agreed (erase k rooms) (erase_users_of k users)
  Agreed-remove k = record {
    sorted_rooms = erase-Sorted k rooms a.sorted_rooms;
    sorted_users = erase_users_of-SortedFrom 0 k users a.sorted_users;
    agree = λ u q. ground (
      arith,
      has-erase u q k rooms,
      at_room-erase_users_of 0 u q k users a.sorted_users,
      a.agree u q,
    );
  }

  -- A new room is empty.
  pub Agreed-add :
      (k : ℕ) (r : Room)
      → lookup k rooms ≡ none
      → r.userid2userpid ≡ []
      → Agreed (insert k r rooms) users
  unfolding lookup
  Agreed-add k r new empty = record {
    sorted_rooms = insert-Sorted k r rooms a.sorted_rooms;
    sorted_users = a.sorted_users;
    agree = λ u q. ground (arith, new, empty, has-insert u q k r rooms, a.agree u q);
  }
