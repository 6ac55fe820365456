-- ===== src/Room/Invariant.antt =====
-- What is true of a room of src/Logic/Room.cpp between two calls, as four agreements between its
-- maps. Each names the fields that it is about, so that a call that leaves them alone keeps it.
use Prim.Native.String.{String}
use ancestral_property_serve.Prelude.{
  ℕ, ◌+◌, ◌≤◌, ◌≡◌, Bool, true, false, Option, none, some, [], Map, IntSet, length, lookup,
  contains, Sorted,
}
use ancestral_property_serve.Room.State.{Room}

-- The pids 1 to `size` are shared out between the pool and the users, each to one.
pub record Places (size : ℕ) (pool : IntSet) (users : Map ℕ) : Type 0 where
  pub pool_sorted : Sorted pool
  pub users_sorted : Sorted users
  pub total : length pool + length users ≡ size
  pub in_pool : (p : ℕ) → contains p pool ≡ true → (1 ≤ p) × (p ≤ size)
  pub in_use : (u p : ℕ) → lookup u users ≡ some p → (1 ≤ p) × (p ≤ size)
  pub not_free : (u p : ℕ) → lookup u users ≡ some p → lookup p pool ≡ none
  pub one_each : (u v p : ℕ) → lookup u users ≡ some p → lookup v users ≡ some p → u ≡ v

-- Every user has a role and a name, and nobody else has.
pub record Profiles (users roles : Map ℕ) (names : Map String) : Type 0 where
  pub roles_sorted : Sorted roles
  pub names_sorted : Sorted names
  pub with_role : (u : ℕ) → contains u roles ≡ contains u users
  pub with_name : (u : ℕ) → contains u names ≡ contains u users

-- The host is a user, and only an empty room has none.
pub record Hosting (host : Option ℕ) (users : Map ℕ) : Type 0 where
  pub host_in : (h : ℕ) → host ≡ some h → contains h users ≡ true
  pub hostless : host ≡ none → users ≡ []

-- Players are users under the same pid, and only while a game runs.
pub record Playing (started : Bool) (users in_game : Map ℕ) : Type 0 where
  pub in_game_sorted : Sorted in_game
  pub player : (u p : ℕ) → lookup u in_game ≡ some p → lookup u users ≡ some p
  pub stopped : started ≡ false → in_game ≡ []

pub record IsValid (r : Room) : Type 0 where
  pub places : Places r.m_size r.userpid_pool r.userid2userpid
  pub profiles : Profiles r.userid2userpid r.userid2roleid r.id2name
  pub hosting : Hosting r.host_userid r.userid2userpid
  pub playing : Playing r.m_game_started r.userid2userpid r.in_game_id2pid
