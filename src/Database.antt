-- ===== src/Database.antt =====
-- DBServer (src/Source/DBServer.cpp): login and registration over a MySQL table `user` and a Redis
-- cache. Both databases are parameters: their commands as the code gives them, and what it gets back.
-- A row's userid is the number that std::atoi reads of its column.
pub mod Handlers
pub mod Assumptions
pub mod Queries
pub mod Accounts
pub mod Caching
pub mod Connecting
mod Examples
use Prim.Native.String.{String, ◌++◌ as concat}
use text.Mathlib.Text.{◌==◌ as str_eq}
use ancestral_property_serve.Prelude.{
  ℕ, ◌+◌, ◌%◌, Bool, true, false, Option, none, some, List, [], ◌∷◌, ◌++◌, if◌then◌else◌, ◌==◌,
}
use ancestral_property_serve.Encryption.{generate_token}

pub record Row : Type 0 where
  pub username : String
  pub passwd : String
  pub userid : ℕ

-- `real_escape_string` is mysql_real_escape_string; `query` is mysql_query with mysql_store_result, and
-- `none` an error of either; `exec` is mysql_query alone, and whether it succeeded.
pub record Mysql : Type 1 where
  pub State : Type 0
  pub real_escape_string : String → String
  pub query : String → State → State × Option (List Row)
  pub exec : String → State → State × Bool

-- The types of a redisReply that the code tells apart; `null` is a null pointer.
pub data Reply : Type 0 where
  null nil error : Reply
  string : String → Reply
  integer : ℕ → Reply

-- The commands `hget K F`, `hmset K pwd "P" uid N`, `set K N` and `EXPIRE K S`.
pub record Redis : Type 1 where
  pub Cache : Type 0
  pub hget : String → String → Cache → Reply
  pub hmset : String → String → ℕ → Cache → Reply × Cache
  pub set : String → ℕ → Cache → Reply × Cache
  pub expire : String → ℕ → Cache → Cache

pub record LoginResponse : Type 0 where
  pub ret : Bool
  pub msg : String
  pub token : ℕ
  pub userid : Option ℕ
  pub user_fd : ℕ
  pub username : String

pub record RegistResponse : Type 0 where
  pub ret : Bool
  pub msg : String
  pub user_fd : ℕ

pub data Answer : Type 0 where
  login_response : LoginResponse → Answer
  regist_response : RegistResponse → Answer

module _ (m : Mysql) (c : Redis) where
  open m use {State, real_escape_string, query, exec}
  open c use {Cache, hget, hmset, set, expire}

  -- SQL_Escape, with a connection. The array for the result has twice the size of `sql`; a result that
  -- is longer with its final NUL is written beyond it, which is undefined and not told apart here.
  abbrev pub sql_escape : String → String
  sql_escape sql = real_escape_string sql

  -- The statements, as the code puts them together.
  abbrev pub exist_sql : String → String
  exist_sql username =
      concat "SELECT username FROM user where username = '" (concat (sql_escape username) "'")

  abbrev pub select_sql : String → String
  select_sql username =
      concat "SELECT username, passwd, userid FROM user where username = '"
        (concat (sql_escape username) "'")

  abbrev pub insert_sql : String → String → String
  insert_sql username password =
      concat "insert into user (username, passwd) VALUES ('"
        (concat (sql_escape username) (concat "', '" (concat (sql_escape password) "')")))

  -- `mysql` is `none` if the connection is the null pointer. `outbox` records the calls of SendMsg.
  pub record Server : Type 0 where
    pub mysql : Option State
    pub redis : Cache
    pub outbox : List (ℕ × Answer)

  unfoldable pub is_exist_user : String → Server → Bool × Server
  is_exist_user username s = elim s.mysql [
    | none ↦ (false, s)
    | some db ↦
        (let (db1, result) = query (exist_sql username) db in
          elim result [
            | none ↦ (false, record s { mysql = some db1 })
            | some [] ↦ (false, record s { mysql = some db1 })
            | some (row ∷ rows) ↦ (true, record s { mysql = some db1 })
          ])
  ]

  -- The cache's answer, if both fields have the types that QueryUser wants.
  unfoldable pub cached : Reply → Reply → Option (String × ℕ)
  cached (Reply.string pwd) (Reply.integer uid) = some (pwd, uid)
  cached _ _ = none

  -- What QueryUser returns: -1 is `none`, 1 is the userid, 0 is `some none`.
  abbrev pub found : String → String → ℕ → Option (Option ℕ)
  found password pwd uid = some (if str_eq password pwd then some uid else none)

  -- The caching of a user who was found. `draw` is what the random generator gives.
  unfoldable pub cache_user : String → String → ℕ → ℕ → Cache → Cache
  cache_user key password uid draw r =
      let (reply, r1) = hmset key password uid r in
      elim reply [ Reply.null ↦ r1 | _ ↦ expire key (draw % 500 + 500) r1 ]

  -- The part of QueryUser that asks MySQL.
  unfoldable pub query_mysql : String → String → ℕ → Server → Option (Option ℕ) × Server
  query_mysql username password draw s = elim s.mysql [
    | none ↦ (none, s)
    | some db ↦
        (let (db1, result) = query (select_sql username) db in
          let s1 : Server = record s { mysql = some db1 } in
          elim result [
            | none ↦ (none, s1)
            | some [] ↦ (some none, s1)
            | some (row ∷ rows) ↦
                if str_eq row.passwd password
                then (
                  some (some row.userid),
                  record s1 {
                    redis = cache_user (concat "user" username) password row.userid draw s1.redis;
                  },
                )
                else (some none, s1)
          ])
  ]

  unfoldable pub query_user : String → String → ℕ → Server → Option (Option ℕ) × Server
  query_user username password draw s =
      elim (cached (hget (concat "user" username) "pwd" s.redis)
        (hget (concat "user" username) "uid" s.redis)) [
          | some (pwd, uid) ↦ (found password pwd uid, s)
          | none ↦ query_mysql username password draw s
        ]

  unfoldable pub insert_user : String → String → Server → Bool × Server
  insert_user username password s = elim s.mysql [
    | none ↦ (false, s)
    | some db ↦
        (let (db1, ok) = exec (insert_sql username password) db in
          (ok, record s { mysql = some db1 }))
  ]
