-- ===== src/Gate.antt =====
-- GateServer (src/Source/GateServer.cpp) over the connections of src/Source/ServerBase.cpp: the
-- packages that go from the clients to the logic and database servers and back. A client socket that
-- is -1 is `none`. The socket layer takes every package that SendMsg hands to it.
pub mod Routing
pub mod Trust
pub mod Heartbeat
pub mod Rounds
mod Examples
use ancestral_property_serve.Prelude.{
  ℕ, ℤ, predℤ, suc, ◌+◌, ◌-◌, Bool, true, false, not, ◌&&◌, ◌||◌, Option, none, some, List, [], ◌∷◌,
  ◌++◌, Map, IntSet, lookup, insert, erase, contains, touch, at, keys, ◌==◌, if◌then◌else◌,
}
use ancestral_property_serve.Enums.{BodyType, ServerType, body_type_code}
use ancestral_property_serve.Room.State.{RequestType}

-- What the gate reads of a body; `rest` is what it does not read.
pub data Content : Type 0 where
  login_response : (result : Bool) (userid : ℕ) → Content
  room_message : (type : RequestType) (rest : List ℕ) → Content
  user_logout : (userid fd : ℕ) → Content
  apply_server : ServerType → Content
  user_register : (fd : ℕ) → Content
  conns_change : ℤ → Content
  opaque : (rest : List ℕ) → Content

pub record Package : Type 0 where
  pub package_type : BodyType
  pub userid : ℕ
  pub content : Content

pub record ClientInfo : Type 0 where
  pub m_fd : ℕ
  pub m_lst_ms : ℕ

-- A `ClientInfo *`: to an object, null, or to an object that was deleted.
pub data Pointer : Type 0 where
  live : ClientInfo → Pointer
  null freed : Pointer

-- `undefined` is whether a null or a freed pointer has been used.
pub record Gate : Type 0 where
  pub center_server_client : Option ℕ
  pub logic_server_client : Option ℕ
  pub db_server_client : Option ℕ
  pub connections : IntSet
  pub conns_count : ℤ
  pub user_fd_record : Map ℕ
  pub fd_user_record : Map ℕ
  pub user_connections : Map Pointer
  pub undefined : Bool
  pub outbox : List (ℕ × Package)

-- `fd == client`
unfoldable pub is_client : Option ℕ → ℕ → Bool
is_client none fd = false
is_client (some c) fd = c == fd

-- SendMsg to a socket.
unfoldable pub send_msg : Package → ℕ → Gate → Gate
send_msg msg fd g =
    if contains fd g.connections then record g { outbox = g.outbox ++ (fd, msg) ∷ [] } else g

-- SendMsg to one of the server clients; there is no connection -1.
unfoldable pub send_to : Package → Option ℕ → Gate → Gate
send_to msg none g = g
send_to msg (some fd) g = send_msg msg fd g

-- SendMsg to `user_fd_record[userid]`, which leaves 0 behind for an unknown user.
unfoldable pub send_to_user : Package → Gate → Gate
send_to_user msg g =
    send_msg msg (at msg.userid 0 g.user_fd_record)
      (record g { user_fd_record = touch msg.userid 0 g.user_fd_record })

-- ServerBase::CloseClientSocket; the center server is told the number of connections.
unfoldable pub close_connection : ℕ → Gate → Gate
close_connection fd g =
    if contains fd g.connections
    then send_to
        (record {
          package_type = BodyType.server_conn_change;
          userid = 0;
          content = Content.conns_change (predℤ g.conns_count);
        })
        g.center_server_client
        (record g { connections = erase fd g.connections; conns_count = predℤ g.conns_count })
    else g

-- ApplyServerByType
unfoldable pub apply_server_by_type : ServerType → Gate → Gate
apply_server_by_type type g =
    send_to
      (record {
        package_type = BodyType.server_info;
        userid = 0;
        content = Content.apply_server type;
      })
      g.center_server_client g

unfoldable pub try_to_connect_available_server : Gate → Gate
try_to_connect_available_server g =
    let g1 : Gate = elim g.logic_server_client [
      | none ↦ apply_server_by_type ServerType.logic g
      | some _ ↦ g
    ] in
    elim g.db_server_client [ none ↦ apply_server_by_type ServerType.database g1 | some _ ↦ g1 ]

-- CloseClientSocket for the socket of a client: the logic server is told that its user is gone.
unfoldable pub close_user : ℕ → Gate → Gate
close_user fd g =
    let c = close_connection fd g in
    elim (lookup fd c.fd_user_record) [
      | none ↦ c
      | some u ↦
          (let s =
              send_to
                (record {
                  package_type = BodyType.user_info;
                  userid = 0;
                  content = Content.user_logout u fd;
                })
                c.logic_server_client c in
            record s {
              user_fd_record = erase u s.user_fd_record;
              fd_user_record = erase fd s.fd_user_record;
            })
    ]

abbrev pub is_server : Gate → ℕ → Bool
is_server g fd =
    is_client g.center_server_client fd
    || is_client g.logic_server_client fd
    || is_client g.db_server_client fd

-- DisconnectAllClients: each socket that it closes is a client's.
unfoldable pub disconnect_clients : List ℕ → Gate → Gate
disconnect_clients [] g = g
disconnect_clients (fd ∷ fds) g =
    disconnect_clients fds (if is_server g fd then g else close_user fd g)

unfoldable pub close_client_socket : ℕ → Gate → Gate
close_client_socket fd g =
    if is_client g.logic_server_client fd
    then (let c = close_connection fd g in
        try_to_connect_available_server
          (record (disconnect_clients (keys c.connections) c) { logic_server_client = none }))
    else if is_client g.db_server_client fd
    then try_to_connect_available_server
        (record (close_connection fd g) { db_server_client = none })
    else close_user fd g
