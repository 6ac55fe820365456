-- ===== src/Room/Steps.antt =====
-- How the four agreements of a room survive a change of its maps.
use Prim.Native.String.{String}
use ancestral_property_serve.Prelude.{
  ℕ, ◌≡◌, ◌≢◌, refl, Bool, true, false, ◌&&◌, Option, none, some, [], ◌∷◌, Map, IntSet, lookup,
  contains, insert, erase, add, first_key, lookup-insert, lookup-erase, arith, if◌then◌else◌,
  is_empty, is_some,
}
use ancestral_property_serve.Prelude.Sizes.{
  insert-Sorted, erase-Sorted, length-insert, length-erase, lookup_first,
}
use ancestral_property_serve.Room.Invariant.{Places, Profiles, Hosting, Playing}

module _ {size : ℕ} {pool : IntSet} {users : Map ℕ} (a : Places size pool users) where
  pub Places-take :
      (u p : ℕ)
      → first_key pool ≡ some p
      → lookup u users ≡ none
      → Places size (erase p pool) (insert u p users)
  Places-take u p f h = record {
    pool_sorted = erase-Sorted p pool a.pool_sorted;
    users_sorted = insert-Sorted u p users a.users_sorted;
    total = ground (
      arith,
      length-erase 0 p pool a.pool_sorted,
      length-insert 0 u p users a.users_sorted,
      lookup_first p pool f,
      a.total,
    );
    in_pool = λ q c. ground (arith, lookup-erase p q pool, a.in_pool q);
    in_use = λ v q e.
        ground (arith, lookup-insert u v p users, a.in_use v q, a.in_pool p, lookup_first p pool f);
    not_free =
        λ v q e. ground (arith, lookup-insert u v p users, lookup-erase p q pool, a.not_free v q);
    one_each = λ v w q e e'. ground (
      arith,
      lookup-insert u v p users,
      lookup-insert u w p users,
      a.one_each v w q,
      a.not_free v q,
      a.not_free w q,
      lookup_first p pool f,
    );
  }

  pub Places-free : (u p : ℕ) → lookup u users ≡ some p → Places size (add p pool) (erase u users)
  unfolding add
  Places-free u p h = record {
    pool_sorted = insert-Sorted p tt pool a.pool_sorted;
    users_sorted = erase-Sorted u users a.users_sorted;
    total = ground (
      arith,
      length-erase 0 u users a.users_sorted,
      length-insert 0 p tt pool a.pool_sorted,
      a.not_free u p h,
      a.total,
    );
    in_pool = λ q c. ground (arith, lookup-insert p q tt pool, a.in_pool q, a.in_use u p h);
    in_use = λ v q e. ground (arith, lookup-erase u v users, a.in_use v q);
    not_free = λ v q e. ground (
      arith,
      lookup-erase u v users,
      lookup-insert p q tt pool,
      a.not_free v q,
      a.one_each u v p h,
    );
    one_each = λ v w q e e'.
        ground (arith, lookup-erase u v users, lookup-erase u w users, a.one_each v w q);
  }

module _ {users roles : Map ℕ} {names : Map String} (a : Profiles users roles names) where
  pub Profiles-take :
      (u p role : ℕ) (name : String)
      → Profiles (insert u p users) (insert u role roles) (insert u name names)
  Profiles-take u p role name = record {
    roles_sorted = insert-Sorted u role roles a.roles_sorted;
    names_sorted = insert-Sorted u name names a.names_sorted;
    with_role =
        λ v. ground (arith, lookup-insert u v p users, lookup-insert u v role roles, a.with_role v);
    with_name =
        λ v. ground (arith, lookup-insert u v p users, lookup-insert u v name names, a.with_name v);
  }

  pub Profiles-free : (u : ℕ) → Profiles (erase u users) (erase u roles) (erase u names)
  Profiles-free u = record {
    roles_sorted = erase-Sorted u roles a.roles_sorted;
    names_sorted = erase-Sorted u names a.names_sorted;
    with_role = λ v. ground (arith, lookup-erase u v users, lookup-erase u v roles, a.with_role v);
    with_name = λ v. ground (arith, lookup-erase u v users, lookup-erase u v names, a.with_name v);
  }

  pub Profiles-role :
      (u role : ℕ) → contains u users ≡ true → Profiles users (insert u role roles) names
  Profiles-role u role h = record {
    roles_sorted = insert-Sorted u role roles a.roles_sorted;
    names_sorted = a.names_sorted;
    with_role = λ v. ground (arith, lookup-insert u v role roles, a.with_role v);
    with_name = a.with_name;
  }

-- The host after a join and after a leave, as JoinRoom and LeaveFromRoom choose it.
module _ {host : Option ℕ} {users : Map ℕ} (a : Hosting host users) where
  pub Hosting-take : (u p : ℕ) → Hosting (if is_some host then host else some u) (insert u p users)
  Hosting-take u p = record {
    host_in = λ h e. ground (arith, lookup-insert u h p users, a.host_in h);
    hostless = λ e. ground arith;
  }

  pub Hosting-stays :
      (u : ℕ) → host ≢ some u → contains u users ≡ true → Hosting host (erase u users)
  unfolding lookup erase
  Hosting-stays u ne c = record {
    host_in = λ h e. ground (arith, lookup-erase u h users, a.host_in h);
    hostless = λ e. ground (arith, a.hostless e);
  }

pub Hosting-first : (users : Map ℕ) → Hosting (first_key users) users
Hosting-first [] = record { host_in = λ h e. ground arith; hostless = λ e. refl }
Hosting-first ((k, v) ∷ m) = record {
  host_in = λ h e. lookup_first h ((k, v) ∷ m) e;
  hostless = λ e. ground arith;
}

module _ {started : Bool} {users in_game : Map ℕ} (a : Playing started users in_game) where
  pub Playing-leave :
      (u : ℕ)
      → Playing
          (if contains u in_game && is_empty (erase u in_game) then false else started)
          users
          (erase u in_game)
  unfolding erase
  Playing-leave u = record {
    in_game_sorted = erase-Sorted u in_game a.in_game_sorted;
    player = λ v p e. ground (arith, lookup-erase u v in_game, a.player v p);
    stopped = λ e. ground (arith, a.stopped);
  }

  pub Playing-free : (u : ℕ) → lookup u in_game ≡ none → Playing started (erase u users) in_game
  Playing-free u h = record {
    in_game_sorted = a.in_game_sorted;
    player = λ v p e. ground (arith, lookup-erase u v users, a.player v p);
    stopped = a.stopped;
  }

  pub Playing-take : (u p : ℕ) → lookup u users ≡ none → Playing started (insert u p users) in_game
  Playing-take u p h = record {
    in_game_sorted = a.in_game_sorted;
    player = λ v q e. ground (arith, lookup-insert u v p users, a.player v q);
    stopped = a.stopped;
  }

  pub Playing-join :
      (u p : ℕ)
      → started ≡ true
      → lookup u users ≡ some p
      → Playing started users (insert u p in_game)
  Playing-join u p s h = record {
    in_game_sorted = insert-Sorted u p in_game a.in_game_sorted;
    player = λ v q e. ground (arith, lookup-insert u v p in_game, a.player v q);
    stopped = λ e. ground arith;
  }

pub Playing-none : (started : Bool) (users : Map ℕ) → Playing started users []
unfolding lookup
Playing-none started users = record {
  in_game_sorted = tt;
  player = λ u p e. ground arith;
  stopped = λ e. refl;
}
