-- ===== src/Database/Caching.antt =====
-- The cache of src/Source/DBServer.cpp makes no difference to a login.
use Prim.Native.String.{String}
use ancestral_property_serve.Prelude.{
  ℕ, ◌≡◌, ap, sym, subst, Option, none, some, List, ◌++◌, ◌∷◌, [], arith,
}
use ancestral_property_serve.Database.{Mysql, Redis, Server, Answer, query_mysql, query_user}
use ancestral_property_serve.Database.Handlers.{answer_login, handle_user_login, new_token}
use ancestral_property_serve.Database.Assumptions.{IsHash}
use ancestral_property_serve.Database.Queries.{query_user-query_mysql}

module _ (m : Mysql) (c : Redis) where
  -- The same, the caches apart.
  abbrev pub Alike : Server m c → Server m c → Type 0
  Alike s s' = (s'.mysql ≡ s.mysql) × (s'.outbox ≡ s.outbox)

  query_mysql-Alike :
      (username password : String) (draw : ℕ) (s : Server m c) (r : c.Cache)
      → let a = query_mysql m c username password draw s in
        let b = query_mysql m c username password draw (record s { redis = r }) in
        (b.0 ≡ a.0) × Alike a.1 b.1
  unfolding query_mysql
  query_mysql-Alike username password draw s r = (ground arith, (ground arith, ground arith))

  appended : {l l' : List (ℕ × Answer)} (x : ℕ × Answer) → l' ≡ l → l' ++ x ∷ [] ≡ l ++ x ∷ []
  appended x e = ap (λ l. l ++ x ∷ []) e

  answer_login-Alike :
      (bytes : String → List ℕ) (username passwd : String) (user_fd fd draw life : ℕ)
      (o : Option (Option ℕ)) (s s' : Server m c)
      → Alike s s'
      → Alike
          (answer_login m c bytes username passwd user_fd fd draw life o s)
          (answer_login m c bytes username passwd user_fd fd draw life o s')
  unfolding answer_login new_token
  answer_login-Alike bytes username passwd user_fd fd draw life none s s' e = e
  answer_login-Alike bytes username passwd user_fd fd draw life (some none) s s' e =
      (e.0, appended _ e.1)
  answer_login-Alike bytes username passwd user_fd fd draw life (some (some uid)) s s' e =
      (e.0, appended _ e.1)

  query_user-Alike :
      (h : IsHash c) (username password : String) (draw : ℕ) (s : Server m c) (r : c.Cache)
      → let a = query_user m c username password draw s in
        let b = query_user m c username password draw (record s { redis = r }) in
        (b.0 ≡ a.0) × Alike a.1 b.1
  query_user-Alike h username password draw s r =
      rw
        (
          query_user-query_mysql m c username password draw s h,
          query_user-query_mysql m c username password draw (record s { redis = r }) h,
        )
        (query_mysql-Alike username password draw s r)

  -- Whatever the cache holds, a login has the same answer and does the same to MySQL: two servers that
  -- differ in their caches only send the same and have the same connection after it. So no login is
  -- answered from the cache, if HGET never replies with an integer.
  pub handle_user_login-Alike :
      (h : IsHash c) (bytes : String → List ℕ) (username passwd : String) (user_fd fd : ℕ)
      (draws : ℕ × ℕ × ℕ) (s : Server m c) (r : c.Cache)
      → Alike
          (handle_user_login m c bytes username passwd user_fd fd draws s)
          (handle_user_login m c bytes username passwd user_fd fd draws (record s { redis = r }))
  unfolding handle_user_login
  handle_user_login-Alike h bytes username passwd user_fd fd draws s r =
      let a = query_user m c username passwd draws.0 s in
      let b = query_user m c username passwd draws.0 (record s { redis = r }) in
      let (same, alike) = query_user-Alike h username passwd draws.0 s r in
      subst
        (λ o.
          Alike (answer_login m c bytes username passwd user_fd fd draws.1 draws.2 a.0 a.1)
            (answer_login m c bytes username passwd user_fd fd draws.1 draws.2 o b.1))
        (sym same)
        (answer_login-Alike bytes username passwd user_fd fd draws.1 draws.2 a.0 a.1 b.1 alike)
