-- ===== src/Database/Assumptions.antt =====
-- What DBServer (src/Source/DBServer.cpp) relies on of the two databases, as they document it.
use Prim.Native.String.{String}
use text.Mathlib.Text.{◌==◌ as str_eq}
use ancestral_property_serve.Prelude.{
  ℕ, ◌≡◌, ◌≢◌, ◌⊎◌, true, false, Option, none, some, List, [], ◌∷◌, if◌then◌else◌,
}
use ancestral_property_serve.Database.{Row, Mysql, Redis, Reply, exist_sql, select_sql, insert_sql}

abbrev pub rows_of : Option Row → List Row
rows_of none = []
rows_of (some row) = row ∷ []

-- The table `user` has at most one row for a name. A SELECT by a name gives that row or fails, and
-- changes nothing; an INSERT adds a row under a new userid or fails and changes nothing.
pub record IsTable (m : Mysql) (c : Redis) : Type 1 where
  pub table : m.State → String → Option Row
  pub exist :
      (name : String) (db : m.State)
      → let (db1, result) = m.query (exist_sql m c name) db in
        ((k : String) → table db1 k ≡ table db k)
        × ((result ≡ none) ⊎ (result ≡ some (rows_of (table db name))))
  pub select :
      (name : String) (db : m.State)
      → let (db1, result) = m.query (select_sql m c name) db in
        ((k : String) → table db1 k ≡ table db k)
        × ((result ≡ none) ⊎ (result ≡ some (rows_of (table db name))))
  pub insert :
      (name pass : String) (db : m.State)
      → table db name ≡ none
      → let (db1, ok) = m.exec (insert_sql m c name pass) db in
        ((ok ≡ false) × ((k : String) → table db1 k ≡ table db k))
        ⊎ ((ok ≡ true)
            × (uid : ℕ) × ((k : String)
                → table db1 k ≡ (
                    if str_eq name k
                    then some (record { username = name; passwd = pass; userid = uid })
                    else table db k)))

-- HGET replies with a string or nil, or fails: never with an integer.
pub record IsHash (c : Redis) : Type 0 where
  pub hget_type : (key field : String) (r : c.Cache) (n : ℕ) → c.hget key field r ≢ Reply.integer n
