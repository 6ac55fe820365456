-- ===== src/Database/Handlers.antt =====
-- HandleUserLogin and HandleUserRegister of src/Source/DBServer.cpp, which OnMsgBodyAnalysised calls.
use Prim.Native.String.{String}
use ancestral_property_serve.Prelude.{
  ℕ, ◌+◌, ◌%◌, Bool, true, false, Option, none, some, List, [], ◌∷◌, ◌++◌, if◌then◌else◌,
}
use ancestral_property_serve.Encryption.{generate_token}
use ancestral_property_serve.Database.{
  Mysql, Redis, Reply, Answer, Server, query_user, is_exist_user, insert_user,
}

-- The messages that the server handles, with what the handler reads of the body.
pub data Request : Type 0 where
  login_request regist_request : (username passwd : String) → Request
  other : Request

module _ (m : Mysql) (c : Redis) where
  open c use {set, expire}

  -- The token of a login, cached under the user's name. `bytes` is a text as its bytes.
  unfoldable pub new_token :
      (String → List ℕ) → String → String → ℕ → ℕ → Server m c → ℕ × Server m c
  new_token bytes username passwd draw life s =
      let token = generate_token (bytes username) (bytes passwd) draw in
      let (reply, r1) = set username token s.redis in
      (
        token,
        record s {
          redis = elim reply [ Reply.null ↦ r1 | _ ↦ expire username (life % 500 + 500) r1 ];
        },
      )

  abbrev pub send_msg : ℕ → Answer → Server m c → Server m c
  send_msg fd answer s = record s { outbox = s.outbox ++ (fd, answer) ∷ [] }

  -- What HandleUserLogin does with the result of QueryUser.
  unfoldable pub answer_login :
      (String → List ℕ)
      → String
      → String
      → ℕ
      → ℕ
      → ℕ
      → ℕ
      → Option (Option ℕ)
      → Server m c
      → Server m c
  answer_login bytes username passwd user_fd fd draw life none s = s
  answer_login bytes username passwd user_fd fd draw life (some none) s =
      send_msg fd
        (Answer.login_response (record {
          ret = false;
          msg = "Passwd Error";
          token = 0;
          userid = none;
          user_fd = user_fd;
          username = username;
        }))
        s
  answer_login bytes username passwd user_fd fd draw life (some (some uid)) s =
      let (new, s1) = new_token bytes username passwd draw life s in
      send_msg fd
        (Answer.login_response (record {
          ret = true;
          msg = "Login Success!";
          token = new;
          userid = some uid;
          user_fd = user_fd;
          username = username;
        }))
        s1

  -- `user_fd` is the user id of the head, `draws` what the random generator gives in turn.
  unfoldable pub handle_user_login :
      (String → List ℕ) → String → String → ℕ → ℕ → ℕ × ℕ × ℕ → Server m c → Server m c
  handle_user_login bytes username passwd user_fd fd draws s =
      let (result, s1) = query_user m c username passwd draws.0 s in
      answer_login bytes username passwd user_fd fd draws.1 draws.2 result s1

  abbrev pub regist_answer : Bool → ℕ → Answer
  regist_answer ok user_fd = Answer.regist_response (record {
    ret = ok;
    msg = if ok then "Register Success!" else "Register Failed, username is exist";
    user_fd = user_fd;
  })

  -- InsertUser returns a bool, so -1 does not come back from it.
  unfoldable pub handle_user_register : String → String → ℕ → ℕ → Server m c → Server m c
  handle_user_register username passwd user_fd fd s =
      let (exists, s1) = is_exist_user m c username s in
      let (ok, s2) = insert_user m c username passwd s1 in
      if exists
      then send_msg fd (regist_answer false user_fd) s1
      else send_msg fd (regist_answer ok user_fd) s2

  unfoldable pub on_msg_body_analysised :
      (String → List ℕ) → Request → ℕ → ℕ → ℕ × ℕ × ℕ → Server m c → Server m c
  on_msg_body_analysised bytes (Request.login_request username passwd) user_fd fd draws s =
      handle_user_login bytes username passwd user_fd fd draws s
  on_msg_body_analysised bytes (Request.regist_request username passwd) user_fd fd draws s =
      handle_user_register username passwd user_fd fd s
  on_msg_body_analysised bytes Request.other user_fd fd draws s = s
