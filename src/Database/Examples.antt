-- ===== src/Database/Examples.antt =====
-- A database of one possible account, on which the theorems about src/Source/DBServer.cpp apply.
use Prim.Native.String.{String}
use text.Mathlib.Text.{◌==◌ as str_eq}
use text.Mathlib.TextEquality.{eq_iff}
use ancestral_property_serve.Prelude.{
  ℕ, ◌≡◌, ◌⊎◌, refl, subst, inl, inr, Bool, true, false, Option, none, some, List, [], ◌∷◌,
  if◌then◌else◌, Bool-cases, arith,
}
use ancestral_property_serve.Database.{
  Row, Mysql, Redis, Reply, Server, exist_sql, select_sql, insert_sql,
}
use ancestral_property_serve.Database.Handlers.{
  handle_user_login, handle_user_register, regist_answer,
}
use ancestral_property_serve.Database.Assumptions.{IsTable, IsHash, rows_of}
use ancestral_property_serve.Database.Caching.{Alike, handle_user_login-Alike}
use ancestral_property_serve.Database.Accounts.{Told, handle_user_login-Told, login-register}

-- The name "ann" and the password "pw" are sent as one letter each, all else as another.
abbrev letter : String → String
letter s = if str_eq "ann" s then "a" else if str_eq "pw" s then "p" else "x"

abbrev ann : Row
ann = record { username = "ann"; passwd = "pw"; userid = 7 }

abbrev by_ann : Bool → Option Row
by_ann known = if known then some ann else none

abbrev mysql : Mysql
mysql = record {
  State = Bool;
  real_escape_string = letter;
  query = λ sql known. (
    known,
    if str_eq sql "SELECT username FROM user where username = 'a'"
        then some (rows_of (by_ann known))
        else if str_eq sql "SELECT username, passwd, userid FROM user where username = 'a'"
        then some (rows_of (by_ann known))
        else some [],
  );
  exec = λ sql known.
      if str_eq sql "insert into user (username, passwd) VALUES ('a', 'p')"
      then (true, true)
      else (known, false);
}

-- A cache that is always empty.
abbrev redis : Redis
redis = record {
  Cache = Unit {0};
  hget = λ key field r. Reply.nil;
  hmset = λ key password uid r. (Reply.nil, r);
  set = λ key token r. (Reply.nil, r);
  expire = λ key life r. r;
}

redis-IsHash : IsHash redis
redis-IsHash = record { hget_type = λ key field r n. ground arith }

abbrev accounts : Bool → String → Option Row
accounts known name = if str_eq "ann" name then by_ann known else none

exist-accounts :
    (name : String) (db : Bool)
    → (mysql.query (exist_sql mysql redis name) db).1 ≡ some (rows_of (accounts db name))
exist-accounts name db = elim (Bool-cases (str_eq "ann" name)) [
  | inl e ↦ rw e refl
  | inr e ↦ rw e (elim (Bool-cases (str_eq "pw" name)) [ inl f ↦ rw f refl | inr f ↦ rw f refl ])
]

select-accounts :
    (name : String) (db : Bool)
    → (mysql.query (select_sql mysql redis name) db).1 ≡ some (rows_of (accounts db name))
select-accounts name db = elim (Bool-cases (str_eq "ann" name)) [
  | inl e ↦ rw e refl
  | inr e ↦ rw e (elim (Bool-cases (str_eq "pw" name)) [ inl f ↦ rw f refl | inr f ↦ rw f refl ])
]

letter-cases :
    (s : String)
    → ((str_eq "ann" s ≡ true) × (letter s ≡ "a"))
      ⊎ (((str_eq "pw" s ≡ true) × (letter s ≡ "p")) ⊎ (letter s ≡ "x"))
letter-cases s = elim (Bool-cases (str_eq "ann" s)) [
  | inl e ↦ inl (e, rw e refl)
  | inr e ↦ elim (Bool-cases (str_eq "pw" s)) [
    | inl f ↦ inr (inl (f, rw (e, f) refl))
    | inr f ↦ inr (inr (rw (e, f) refl))
  ]
]

-- An INSERT of another name or another password fails here.
insert-refused :
    (name pass : String) (db : Bool)
    → (mysql.exec (insert_sql mysql redis name pass) db ≡ (db, false))
      ⊎ ((str_eq "ann" name ≡ true)
          × (str_eq "pw" pass ≡ true)
          × (mysql.exec (insert_sql mysql redis name pass) db ≡ (true, true)))
insert-refused name pass db = elim (letter-cases name) [
  | inl (n, e) ↦ rw e (elim (letter-cases pass) [
    | inl (p, f) ↦ rw f (inl refl)
    | inr (inl (p, f)) ↦ rw f (inr (n, p, refl))
    | inr (inr f) ↦ rw f (inl refl)
  ])
  | inr (inl (n, e)) ↦ rw e (elim (letter-cases pass) [
    | inl (p, f) ↦ rw f (inl refl)
    | inr (inl (p, f)) ↦ rw f (inl refl)
    | inr (inr f) ↦ rw f (inl refl)
  ])
  | inr (inr e) ↦ rw e (elim (letter-cases pass) [
    | inl (p, f) ↦ rw f (inl refl)
    | inr (inl (p, f)) ↦ rw f (inl refl)
    | inr (inr f) ↦ rw f (inl refl)
  ])
]

abbrev Stored : String → String → Type 0
Stored name pass =
    (k : String)
    → accounts true k ≡ (
        if str_eq name k
        then some (record { username = name; passwd = pass; userid = 7 })
        else accounts false k)

insert-accounts :
    (name pass : String) (db : Bool)
    → accounts db name ≡ none
    → let (db1, ok) = mysql.exec (insert_sql mysql redis name pass) db in
      ((ok ≡ false) × ((k : String) → accounts db1 k ≡ accounts db k))
      ⊎ ((ok ≡ true)
          × (uid : ℕ) × ((k : String)
              → accounts db1 k ≡ (
                  if str_eq name k
                  then some (record { username = name; passwd = pass; userid = uid })
                  else accounts db k)))
insert-accounts name pass true new = elim (insert-refused name pass true) [
  | inl e ↦ rw e (inl (refl, λ k. refl))
  | inr (n, p, e) ↦ ground (arith, n, new)
]
insert-accounts name pass false new = elim (insert-refused name pass false) [
  | inl e ↦ rw e (inl (refl, λ k. refl))
  | inr (n, p, e) ↦ rw e (
      inr (
        refl,
        7,
        subst (λ x. Stored x pass) ((eq_iff "ann" name).0 n)
            (subst (λ x. Stored "ann" x) ((eq_iff "pw" pass).0 p)
              (λ k. elim (Bool-cases (str_eq "ann" k)) [ inl f ↦ rw f refl | inr f ↦ rw f refl ])),
      ))
]

accounts-IsTable : IsTable mysql redis
accounts-IsTable = record {
  table = accounts;
  exist = λ name db. (λ k. refl, inr (exist-accounts name db));
  select = λ name db. (λ k. refl, inr (select-accounts name db));
  insert = insert-accounts;
}

abbrev bytes : String → List ℕ
bytes s = if str_eq "ann" s then 97 ∷ 110 ∷ 110 ∷ [] else 112 ∷ 119 ∷ []

abbrev server : Bool → Server mysql redis
server known = record { mysql = some known; redis = tt; outbox = [] }

handle_user_login-Told_example :
    let s' = handle_user_login mysql redis bytes "ann" "pw" 5 9 (3, 12345, 8) (server true) in
    ((s'.outbox ≡ []) × ((mysql.query (select_sql mysql redis "ann") true).1 ≡ none))
    ⊎ Told mysql redis (server true) s' "ann" 5 9 (some 7)
unfolding accounts-IsTable
handle_user_login-Told_example =
    handle_user_login-Told mysql redis redis-IsHash accounts-IsTable bytes "ann" "pw" 5 9
      (3, 12345, 8) true (server true) refl

-- A cache that has the account "ann" or is empty.
abbrev full_redis : Redis
full_redis = record {
  Cache = Bool;
  hget = λ key field known.
      if known then Reply.string (if str_eq field "pwd" then "pw" else "7") else Reply.nil;
  hmset = λ key password uid known. (Reply.nil, true);
  set = λ key token known. (Reply.nil, known);
  expire = λ key life known. known;
}

full_redis-IsHash : IsHash full_redis
full_redis-IsHash = record { hget_type = λ key field known n. ground arith }

abbrev uncached : Server mysql full_redis
uncached = record { mysql = some true; redis = false; outbox = [] }

handle_user_login-Alike_example :
    Alike mysql full_redis
      (handle_user_login mysql full_redis bytes "ann" "pw" 5 9 (3, 12345, 8) uncached)
      (handle_user_login mysql full_redis bytes "ann" "pw" 5 9
        (3, 12345, 8)
        (record uncached { redis = true }))
handle_user_login-Alike_example =
    handle_user_login-Alike mysql full_redis full_redis-IsHash bytes "ann" "pw" 5 9 (3, 12345, 8)
      uncached true

login-register_example :
    let s1 = handle_user_register mysql redis "ann" "pw" 5 9 (server false) in
    let s2 = handle_user_login mysql redis bytes "ann" "qw" 5 9 (3, 12345, 8) s1 in
    (db1 : Bool) × (s1.mysql ≡ some db1)
    × (((s1.outbox ≡ (9, regist_answer mysql redis false 5) ∷ []) × (accounts db1 "ann" ≡ none))
        ⊎ ((s1.outbox ≡ (9, regist_answer mysql redis true 5) ∷ [])
            × (uid : ℕ) × (accounts db1 "ann"
                ≡ some (record { username = "ann"; passwd = "pw"; userid = uid }))
            × (((s2.outbox ≡ s1.outbox)
                  × ((mysql.query (select_sql mysql redis "ann") db1).1 ≡ none))
                ⊎ Told mysql redis s1 s2 "ann" 5 9 (if str_eq "pw" "qw" then some uid else none))))
unfolding accounts-IsTable
login-register_example =
    login-register mysql redis redis-IsHash accounts-IsTable bytes "ann" "pw" "qw" 5 9 (3, 12345, 8)
      false (server false) refl refl
