-- ===== src/Database/Queries.antt =====
-- QueryUser of src/Source/DBServer.cpp: what becomes of the cache, and what the answer is.
use Prim.Native.String.{String, ◌++◌ as concat}
use text.Mathlib.Text.{◌==◌ as str_eq}
use ancestral_property_serve.Prelude.{
  ℕ, ◌≡◌, ◌≢◌, ◌⊎◌, refl, inl, inr, Option, none, some, if◌then◌else◌, arith,
}
use ancestral_property_serve.Database.{
  Row, Mysql, Redis, Reply, Server, select_sql, cached, query_user, query_mysql,
}
use ancestral_property_serve.Database.Assumptions.{IsTable, IsHash, rows_of}

module _ (m : Mysql) (c : Redis) where
  -- A second field that is not an integer is no use to QueryUser.
  cached-none : (pwd uid : Reply) → ((n : ℕ) → uid ≢ Reply.integer n) → cached m c pwd uid ≡ none
  unfolding cached
  cached-none pwd (Reply.integer n) h = absurd (h n refl)
  cached-none (Reply.string x) Reply.null h = refl
  cached-none (Reply.string x) Reply.nil h = refl
  cached-none (Reply.string x) Reply.error h = refl
  cached-none (Reply.string x) (Reply.string y) h = refl
  cached-none Reply.null uid h = refl
  cached-none Reply.nil uid h = refl
  cached-none Reply.error uid h = refl
  cached-none (Reply.integer n) uid h = refl

  -- The cache is written and never used: QueryUser asks MySQL for every login, since it wants an
  -- integer from HGET, which does not reply with one.
  pub query_user-query_mysql :
      (username password : String) (draw : ℕ) (s : Server m c)
      → IsHash c
      → query_user m c username password draw s ≡ query_mysql m c username password draw s
  unfolding query_user
  query_user-query_mysql username password draw s h =
      rw
        (
          cached-none (c.hget (concat "user" username) "pwd" s.redis)
              (c.hget (concat "user" username) "uid" s.redis)
              (h.hget_type (concat "user" username) "uid" s.redis),
          query_user,
        )
        refl

  -- The userid of a name and a password, by the table.
  abbrev pub login_of : Option Row → String → Option ℕ
  login_of none password = none
  login_of (some row) password = if str_eq row.passwd password then some row.userid else none

  -- QueryUser's second half, seen from what MySQL gave.
  record Asked (db1 : m.State) (answer : Option (Option ℕ)) (s : Server m c)
      (r : Option (Option ℕ) × Server m c) : Type 0 where
    result : r.0 ≡ answer
    connected : r.1.mysql ≡ some db1
    silent : r.1.outbox ≡ s.outbox

  query_mysql-fails :
      (username password : String) (draw : ℕ) (db : m.State) (s : Server m c)
      → s.mysql ≡ some db
      → (m.query (select_sql m c username) db).1 ≡ none
      → Asked
          (m.query (select_sql m c username) db).0
          none
          s
          (query_mysql m c username password draw s)
  unfolding query_mysql
  query_mysql-fails username password draw db s e f = record {
    result = ground (arith, e, f);
    connected = ground (arith, e, f);
    silent = ground (arith, e, f);
  }

  query_mysql-rows :
      (username password : String) (draw : ℕ) (db : m.State) (s : Server m c) (row : Option Row)
      → s.mysql ≡ some db
      → (m.query (select_sql m c username) db).1 ≡ some (rows_of row)
      → Asked
          (m.query (select_sql m c username) db).0
          (some (login_of row password))
          s
          (query_mysql m c username password draw s)
  unfolding query_mysql
  query_mysql-rows username password draw db s none e f = record {
    result = ground (arith, e, f);
    connected = ground (arith, e, f);
    silent = ground (arith, e, f);
  }
  query_mysql-rows username password draw db s (some row) e f = record {
    result = ground (arith, e, f);
    connected = ground (arith, e, f);
    silent = ground (arith, e, f);
  }

  -- Either MySQL failed, or the answer is that of the table; the table is as before and nothing is
  -- sent.
  pub record Answered (t : IsTable m c) (db : m.State) (username password : String) (s : Server m c)
      (r : Option (Option ℕ) × Server m c) : Type 0 where
    pub db1 : m.State
    pub connected : r.1.mysql ≡ some db1
    pub same_table : (k : String) → t.table db1 k ≡ t.table db k
    pub answer :
        ((r.0 ≡ none) × ((m.query (select_sql m c username) db).1 ≡ none))
        ⊎ (r.0 ≡ some (login_of (t.table db username) password))
    pub silent : r.1.outbox ≡ s.outbox

  pub query_user-Answered :
      (h : IsHash c) (t : IsTable m c) (username password : String) (draw : ℕ) (db : m.State)
      (s : Server m c)
      → s.mysql ≡ some db
      → Answered t db username password s (query_user m c username password draw s)
  query_user-Answered h t username password draw db s e =
      rw (query_user-query_mysql username password draw s h) (
        let (same, result) = t.select username db in
        elim result [
          | inl f ↦
              (let a = query_mysql-fails username password draw db s e f in
                record {
                  db1 = (m.query (select_sql m c username) db).0;
                  connected = a.connected;
                  same_table = same;
                  answer = inl (a.result, f);
                  silent = a.silent;
                })
          | inr f ↦
              (let a = query_mysql-rows username password draw db s (t.table db username) e f in
                record {
                  db1 = (m.query (select_sql m c username) db).0;
                  connected = a.connected;
                  same_table = same;
                  answer = inr a.result;
                  silent = a.silent;
                })
        ])
