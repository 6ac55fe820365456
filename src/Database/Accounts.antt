-- ===== src/Database/Accounts.antt =====
-- HandleUserLogin and HandleUserRegister of src/Source/DBServer.cpp against the table of accounts.
use Prim.Native.String.{String}
use text.Mathlib.Text.{◌==◌ as str_eq}
use text.Mathlib.TextPositions.{eq_refl}
use ancestral_property_serve.Prelude.{
  ℕ, ◌≡◌, ◌⊎◌, ◌∙◌, ap, sym, subst, refl, inl, inr, Bool, true, false, Option, none, some, is_some,
  List, [], ◌∷◌, ◌++◌, if◌then◌else◌, Bool-cases, arith,
}
use ancestral_property_serve.Database.{
  Mysql, Redis, Answer, LoginResponse, Server, select_sql, exist_sql, insert_sql, query_user,
  is_exist_user, insert_user,
}
use ancestral_property_serve.Database.Handlers.{
  answer_login, new_token, handle_user_login, handle_user_register, regist_answer,
}
use ancestral_property_serve.Database.Assumptions.{IsTable, IsHash, rows_of}
use ancestral_property_serve.Database.Queries.{login_of, query_user-Answered}

module _ (m : Mysql) (c : Redis) where
  -- The answer to a login that gives `uid`.
  abbrev pub Told : Server m c → Server m c → String → ℕ → ℕ → Option ℕ → Type 0
  Told s s' username user_fd fd uid =
      (r : LoginResponse) × (s'.outbox ≡ s.outbox ++ (fd, Answer.login_response r) ∷ [])
      × (r.ret ≡ is_some uid)
      × (r.userid ≡ uid)
      × (r.user_fd ≡ user_fd)
      × (r.username ≡ username)

  answer_login-Told :
      (bytes : String → List ℕ) (username passwd : String) (user_fd fd draw life : ℕ)
      (result : Option ℕ) (s : Server m c)
      → Told s
          (answer_login m c bytes username passwd user_fd fd draw life (some result) s)
          username
          user_fd
          fd
          result
  unfolding answer_login new_token
  answer_login-Told bytes username passwd user_fd fd draw life none s =
      (_, refl, refl, refl, refl, refl)
  answer_login-Told bytes username passwd user_fd fd draw life (some uid) s =
      (_, refl, refl, refl, refl, refl)

  Told-from :
      (s s1 s' : Server m c) (username : String) (user_fd fd : ℕ) (uid : Option ℕ)
      → s1.outbox ≡ s.outbox
      → Told s1 s' username user_fd fd uid
      → Told s s' username user_fd fd uid
  Told-from s s1 s' username user_fd fd uid e (r, sent, ok, id, to, name) =
      (r, sent ∙ ap (λ o. o ++ (fd, Answer.login_response r) ∷ []) e, ok, id, to, name)

  -- HandleUserLogin answers by the table of accounts: the response says whether the name has the
  -- password, with its userid, and goes back to the gate with the client's socket. There is no answer
  -- only if MySQL fails.
  pub handle_user_login-Told :
      (h : IsHash c) (t : IsTable m c) (bytes : String → List ℕ) (username passwd : String)
      (user_fd fd : ℕ) (draws : ℕ × ℕ × ℕ) (db : m.State) (s : Server m c)
      → s.mysql ≡ some db
      → let s' = handle_user_login m c bytes username passwd user_fd fd draws s in
        ((s'.outbox ≡ s.outbox) × ((m.query (select_sql m c username) db).1 ≡ none))
        ⊎ Told s s' username user_fd fd (login_of m c (t.table db username) passwd)
  unfolding handle_user_login answer_login
  handle_user_login-Told h t bytes username passwd user_fd fd draws db s e =
      let a = query_user-Answered m c h t username passwd draws.0 db s e in
      let q = query_user m c username passwd draws.0 s in
      let reply : Option (Option ℕ) → Server m c =
        λ o. answer_login m c bytes username passwd user_fd fd draws.1 draws.2 o q.1 in
      elim a.answer [
        | inl (f, failed) ↦ inl (ap (λ o. (reply o).outbox) f ∙ a.silent, failed)
        | inr f ↦ inr (
            subst
              (λ o.
                Told s (reply o) username user_fd fd (login_of m c (t.table db username) passwd))
              (sym f)
              (Told-from s q.1 (reply (some (login_of m c (t.table db username) passwd))) username
                user_fd fd (login_of m c (t.table db username) passwd) a.silent
                (answer_login-Told bytes username passwd user_fd fd draws.1 draws.2
                  (login_of m c (t.table db username) passwd) q.1)))
      ]

  -- What a registration does: the answer ok, and the table of the connection after it.
  pub record Registered (t : IsTable m c) (db : m.State) (username passwd : String)
      (s s' : Server m c) (user_fd fd : ℕ) : Type 0 where
    pub ok : Bool
    pub db1 : m.State
    pub connected : s'.mysql ≡ some db1
    pub answered : s'.outbox ≡ s.outbox ++ (fd, regist_answer m c ok user_fd) ∷ []
    pub refused : ok ≡ false → (k : String) → t.table db1 k ≡ t.table db k
    pub done :
        ok ≡ true
        → (uid : ℕ) × ((k : String)
            → t.table db1 k ≡ (
                if str_eq username k
                then some (record { username = username; passwd = passwd; userid = uid })
                else t.table db k))

  -- A call that leaves the connection at db1 and sends nothing.
  record Left {A : Type 0} (a : A) (db1 : m.State) (s : Server m c) (r : A × Server m c)
      : Type 0 where
    result : r.0 ≡ a
    connected : r.1.mysql ≡ some db1
    silent : r.1.outbox ≡ s.outbox

  is_exist_user-new :
      (t : IsTable m c) (username : String) (db : m.State) (s : Server m c)
      → s.mysql ≡ some db
      → t.table db username ≡ none
      → Left false (m.query (exist_sql m c username) db).0 s (is_exist_user m c username s)
  unfolding is_exist_user
  is_exist_user-new t username db s e new = elim (t.exist username db).1 [
    | inl f ↦ record {
      result = ground (arith, e, f);
      connected = ground (arith, e, f);
      silent = ground (arith, e, f);
    }
    | inr f ↦
        (let f' : (m.query (exist_sql m c username) db).1 ≡ some [] =
            f ∙ ap (λ r. some (rows_of r)) new in
          record {
            result = ground (arith, e, f');
            connected = ground (arith, e, f');
            silent = ground (arith, e, f');
          })
  ]

  insert_user-Left :
      (username passwd : String) (db : m.State) (s : Server m c)
      → s.mysql ≡ some db
      → Left
          (m.exec (insert_sql m c username passwd) db).1
          (m.exec (insert_sql m c username passwd) db).0
          s
          (insert_user m c username passwd s)
  unfolding insert_user
  insert_user-Left username passwd db s e = record {
    result = ground (arith, e);
    connected = ground (arith, e);
    silent = ground (arith, e);
  }

  -- HandleUserRegister of a new name always answers. If it says yes the table has the new account and
  -- is else as before, and if it says no the table is as before.
  pub handle_user_register-Registered :
      (t : IsTable m c) (username passwd : String) (user_fd fd : ℕ) (db : m.State) (s : Server m c)
      → s.mysql ≡ some db
      → t.table db username ≡ none
      → Registered t db username passwd s
          (handle_user_register m c username passwd user_fd fd s)
          user_fd
          fd
  unfolding handle_user_register
  handle_user_register-Registered t username passwd user_fd fd db s e new =
      let x = is_exist_user-new t username db s e new in
      let s1 = (is_exist_user m c username s).1 in
      let db1 = (m.query (exist_sql m c username) db).0 in
      let same = (t.exist username db).0 in
      let y = insert_user-Left username passwd db1 s1 x.connected in
      let w = insert_user m c username passwd s1 in
      let sent : w.1.outbox ++ (fd, regist_answer m c w.0 user_fd) ∷ []
          ≡ s.outbox ++ (fd, regist_answer m c w.0 user_fd) ∷ [] =
        ap (λ o. o ++ (fd, regist_answer m c w.0 user_fd) ∷ []) (y.silent ∙ x.silent) in
      let inserted = t.insert username passwd db1 (same username ∙ new) in
      rw (x.result, handle_user_register)
        (record {
          ok = w.0;
          db1 = (m.exec (insert_sql m c username passwd) db1).0;
          connected = y.connected;
          answered = sent;
          refused = λ no' k. elim inserted [
            | inl (failed, kept) ↦ kept k ∙ same k
            | inr (ok, uid, kept) ↦ cc (no', y.result, ok)
          ];
          done = λ ok'. elim inserted [
            | inl (failed, kept) ↦ cc (ok', y.result, failed)
            | inr (ok, uid, kept) ↦ (
              uid,
              λ k.
                  kept k
                  ∙ ap
                      (λ o.
                        if str_eq username k
                        then some (record { username = username; passwd = passwd; userid = uid })
                        else o)
                      (same k),
            )
          ];
        })

  -- A registration of a new name is answered. Either the answer is no and the table has no row for the
  -- name after it; or it is yes, and the table has a row with the name, the password and some userid. In
  -- the second case the next login of the name is answered with that userid if it has that password,
  -- and refused if it has another; there is no answer only if MySQL fails on the query of that login.
  pub login-register :
      (h : IsHash c) (t : IsTable m c) (bytes : String → List ℕ) (username passwd attempt : String)
      (user_fd fd : ℕ) (draws : ℕ × ℕ × ℕ) (db : m.State) (s : Server m c)
      → s.mysql ≡ some db
      → t.table db username ≡ none
      → let s1 = handle_user_register m c username passwd user_fd fd s in
        let s2 = handle_user_login m c bytes username attempt user_fd fd draws s1 in
        (db1 : m.State) × (s1.mysql ≡ some db1)
        × (((s1.outbox ≡ s.outbox ++ (fd, regist_answer m c false user_fd) ∷ [])
              × (t.table db1 username ≡ none))
            ⊎ ((s1.outbox ≡ s.outbox ++ (fd, regist_answer m c true user_fd) ∷ [])
                × (uid : ℕ) × (t.table db1 username
                    ≡ some (record { username = username; passwd = passwd; userid = uid }))
                × (((s2.outbox ≡ s1.outbox) × ((m.query (select_sql m c username) db1).1 ≡ none))
                    ⊎ Told s1 s2 username user_fd fd
                        (if str_eq passwd attempt then some uid else none))))
  login-register h t bytes username passwd attempt user_fd fd draws db s e new =
      let r = handle_user_register-Registered t username passwd user_fd fd db s e new in
      let s1 = handle_user_register m c username passwd user_fd fd s in
      let s2 = handle_user_login m c bytes username attempt user_fd fd draws s1 in
      let told =
        handle_user_login-Told h t bytes username attempt user_fd fd draws r.db1 s1 r.connected in
      let answer : (ok : Bool)
          → r.ok ≡ ok
          → s1.outbox ≡ s.outbox ++ (fd, regist_answer m c ok user_fd) ∷ [] =
        λ ok f.
          subst (λ b. s1.outbox ≡ s.outbox ++ (fd, regist_answer m c b user_fd) ∷ []) f
            r.answered in
      (
        r.db1,
        r.connected,
        elim (Bool-cases r.ok) [
          | inr no' ↦ inl (answer false no', r.refused no' username ∙ new)
          | inl ok ↦
              (let (uid, kept) = r.done ok in
                let row : t.table r.db1 username
                    ≡ some (record { username = username; passwd = passwd; userid = uid }) =
                  kept username ∙ rw (eq_refl username) refl in
                inr (
                  answer true ok,
                  uid,
                  row,
                  elim told [
                    | inl silent ↦ inl silent
                    | inr answered ↦ inr (
                        subst (λ o. Told s1 s2 username user_fd fd (login_of m c o attempt)) row
                          answered)
                  ],
                ))
        ],
      )
