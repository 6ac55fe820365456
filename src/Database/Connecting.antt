-- ===== src/Database/Connecting.antt =====
-- ConnectToMysqlAndRedis of src/Source/DBServer.cpp. What the libraries give is an argument: whether
-- mysql_real_connect succeeds, the context of redisConnect with whether it has an error, and the reply
-- to AUTH.
use ancestral_property_serve.Prelude.{
  Bool, true, false, not, Option, none, some, if◌then◌else◌, ◌≡◌, refl, arith,
}
use ancestral_property_serve.Database.{Reply}

-- Whether the databases are connected; `none` is a read through the null pointer of the reply.
unfoldable pub connect_to_mysql_and_redis : Bool → Option Bool → Reply → Option Bool
connect_to_mysql_and_redis connected context reply =
    if not connected then some false else elim context [
      | none ↦ some false
      | some err ↦
          if err
          then some false
          else elim reply [ Reply.null ↦ none | Reply.error ↦ some false | _ ↦ some true ]
    ]

-- The databases are connected if both connections are made and the password is accepted. If the
-- connection to Redis is lost before its reply the result is undefined.
connect_to_mysql_and_redis_cases :
    (connected : Bool) (context : Option Bool) (reply : Reply)
    → (connect_to_mysql_and_redis connected context reply ≡ some true
        → (connected ≡ true) × (context ≡ some false))
      × (connect_to_mysql_and_redis true (some false) Reply.null ≡ none)
unfolding connect_to_mysql_and_redis
connect_to_mysql_and_redis_cases connected context reply =
    (λ h. (ground (arith, h), ground (arith, h)), refl)
