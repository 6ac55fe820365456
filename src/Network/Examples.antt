-- ===== src/Network/Examples.antt =====
-- A server whose connection to the center server closes, on which the theorems about
-- src/Source/ServerBase.cpp apply.
use ancestral_property_serve.Prelude.{
  ℕ, ◌+◌, ◌⊖◌, Bool, true, false, ◌≡◌, refl, some, [], ◌∷◌, length, lookup, insert, arith,
}
use ancestral_property_serve.Enums.{ServerType, ServerFreeLevel}
use ancestral_property_serve.Network.{
  Coder, Base, Outgoing, new_connection, send_to_center, send_to_center_by, handle_listener_event,
}
use ancestral_property_serve.Network.Address.{IpInfos}
use ancestral_property_serve.Network.Boot.{System, Handlers}
use ancestral_property_serve.Buffer.{new_ring_buffer}
use ancestral_property_serve.Network.Servers.{IsOpen, close_logic_socket_fuel}
use ancestral_property_serve.Network.Reconnecting.{close_logic_socket-IsOpen}
use ancestral_property_serve.Network.Runs.{Run, new_base, Run-new_base-count}

-- Messages of twenty bytes.
abbrev coder : Coder
coder = record {
  conn_change = λ type count. record { package_size = 20; bytes = some (1 ∷ []) };
  server_info = λ type level. record { package_size = 20; bytes = some (2 ∷ []) };
  apply_server = λ type. record { package_size = 20; bytes = some (3 ∷ []) };
}

abbrev sends : ℕ → Bool
sends fd = true

abbrev start : Base
start = new_base ServerType.gate 3 []

abbrev hello : Outgoing
hello = coder.server_info ServerType.gate ServerFreeLevel.free

abbrev connected : Base
connected =
    new_connection 5 []
      (record (send_to_center coder sends hello start).1 { center_server_client = some 5 })

connected-Run : Run coder start 0 1 connected
unfolding send_to_center_by lookup
connected-Run = Run.reconnects sends hello 5 [] Run.here refl

-- A client is accepted, and the count is that of one connection too few.
Run-new_base-count_example :
    let b = handle_listener_event coder sends 3 (some 6) true [] connected in
    b.conns_count ≡ (length b.connections + 0) ⊖ 1
unfolding send_to_center_by lookup insert
Run-new_base-count_example = Run-new_base-count coder (Run.accepts sends 6 [] connected-Run refl)

abbrev no_infos : IpInfos
no_infos = record { wip = []; nip = [] }

-- The port is in use.
abbrev busy : System
busy = record {
  socket_fd = some 3;
  reuse_address_ok = true;
  bind_ok = false;
  listen_ok = true;
  epoll_fd = some 4;
  add_event_ok = true;
}

-- A server that only counts what it is called for.
abbrev counting : Handlers Unit ℕ
counting = record {
  handle_listener_event = λ fd i n. n + 1;
  handle_conn_event = λ fd i n. n + 1;
  close_client_socket = λ fd n. n + 1;
  tick_all = λ now n. n + 1;
}

abbrev starting : ℕ → Bool × ℕ
starting n = (true, n)

-- A logic server that has the database server on socket 7, with the center server on socket 5.
abbrev logic : Base
logic = record (new_base ServerType.logic 3 []) {
  center_server_client = some 5;
  db_server_client = some 7;
  connections = (5, new_ring_buffer 1048576 []) ∷ (7, new_ring_buffer 1048576 []) ∷ [];
}

logic-IsOpen : IsOpen coder sends logic
unfolding lookup
logic-IsOpen = λ fd e. ground (arith, e)

close_logic_socket-IsOpen_example :
    (c : Base) × (close_logic_socket_fuel coder sends 2 7 logic ≡ some c) × IsOpen coder sends c
close_logic_socket-IsOpen_example = close_logic_socket-IsOpen coder sends 0 7 logic logic-IsOpen
