-- ===== src/Gate/Examples.antt =====
-- A concrete gate on which the theorem about src/Source/GateServer.cpp applies.
use ancestral_property_serve.Prelude.{ℤ, ◌≡◌, refl, false, true, arith, some, [], ◌∷◌, lookup}
use ancestral_property_serve.Enums.{BodyType}
use ancestral_property_serve.Room.State.{RequestType}
use ancestral_property_serve.Gate.{Gate, Pointer, ClientInfo, Package, Content}
use ancestral_property_serve.Gate.Routing.{on_msg_body_analysised}
use ancestral_property_serve.Gate.Heartbeat.{
  check_from, check_all_client_conn, check_all_client_conn-undefined,
}
use ancestral_property_serve.Gate.Rounds.{check_all_client_conn_total}
use ancestral_property_serve.Gate.Trust.{AtMost, on_msg_body_analysised-trusted}

-- User 77 is logged in on socket 9; the logic server is on socket 4.
abbrev gate : Gate
gate = record {
  center_server_client = some 3;
  logic_server_client = some 4;
  db_server_client = some 5;
  connections = (3, tt) ∷ (4, tt) ∷ (5, tt) ∷ (9, tt) ∷ [];
  conns_count = ℤ.pos 4;
  user_fd_record = (77, 9) ∷ [];
  fd_user_record = (9, 77) ∷ [];
  user_connections = [];
  undefined = false;
  outbox = [];
}

abbrev request : Package
request = record {
  package_type = BodyType.join_room;
  userid = 77;
  content = Content.room_message RequestType.request (1 ∷ []);
}

known : lookup 9 gate.fd_user_record ≡ some 77
unfolding lookup
known = refl

on_msg_body_analysised-trusted_example :
    AtMost (record request { userid = 77 }) gate (on_msg_body_analysised 1000 request 9 gate)
on_msg_body_analysised-trusted_example =
    on_msg_body_analysised-trusted 1000 request 9 77 gate known tt

-- User 77 has been silent for five seconds.
abbrev silent : ClientInfo
silent = record { m_fd = 9; m_lst_ms = 1000 }

check_all_client_conn-undefined_example :
    let g = record gate { user_connections = (77, Pointer.live silent) ∷ [] } in
    (check_all_client_conn 7000 (check_all_client_conn 6000 g)).undefined ≡ true
check_all_client_conn-undefined_example =
    check_all_client_conn-undefined 6000 7000 77 silent
      (record gate { user_connections = (77, Pointer.live silent) ∷ [] }) refl
      (λ e. omega (arith, e)) (omega arith)

check_all_client_conn_total_example :
    let g = record gate { user_connections = (77, Pointer.live silent) ∷ [] } in
    check_from 7 6000 0 g ≡ some (check_all_client_conn 6000 g)
check_all_client_conn_total_example =
    check_all_client_conn_total 4 6000
      (record gate { user_connections = (77, Pointer.live silent) ∷ [] })
