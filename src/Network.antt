-- ===== src/Network.antt =====
-- ServerBase (src/Source/ServerBase.cpp) and the connections of FuncServer (src/Source/FuncServer.cpp):
-- sockets accepted and opened, the count of them that goes to the center server, and SendMsg. What the
-- system calls give is an argument: -1 is `none`. A client that is -1 is `none`. CloseClientSocket is
-- that of ServerBase; the gate and the logic server have more to do after it.
pub mod Closing
pub mod Links
pub mod Keeping
pub mod Counting
pub mod Runs
pub mod Address
pub mod Servers
pub mod Reconnecting
pub mod Boot
pub mod Starting
pub mod Leaving
mod Examples
use ancestral_property_serve.Prelude.{
  ℕ, zero, suc, ℤ, sucℤ, predℤ, Bool, true, false, not, Option, none, some, List, [], ◌∷◌, ◌++◌,
  Map, insert, erase, contains, ltb, or_default, ◌==◌, if◌then◌else◌,
}
use ancestral_property_serve.Enums.{ServerType, ServerFreeLevel, CallbackType}
use ancestral_property_serve.Config.{max_buffer_size}
use ancestral_property_serve.Buffer.{RingBuffer, new_ring_buffer}
use ancestral_property_serve.Timer.{Timer, start}

-- A message as SendMsg sees it: the size in its head, and what SerializeToArray writes, if it can.
pub record Outgoing : Type 0 where
  pub package_size : ℕ
  pub bytes : Option (List ℕ)

-- What protobuf makes of the messages to the center server, with the server's own type and address:
-- the message of SendToCenterServerConnChange, and NewServerInfoMessage to register and to ask for a
-- server of a type.
pub record Coder : Type 0 where
  pub conn_change : ServerType → ℤ → Outgoing
  pub server_info : ServerType → ServerFreeLevel → Outgoing
  pub apply_server : ServerType → Outgoing

pub record Base : Type 0 where
  pub server_type : ServerType
  pub listen_fd : ℕ
  pub center_server_client : Option ℕ
  pub logic_server_client : Option ℕ
  pub db_server_client : Option ℕ
  pub connections : Map RingBuffer
  pub conns_count : ℤ
  pub m_callfunc_list : List (CallbackType × Timer)
  pub sent : List (ℕ × List ℕ)

abbrev pub is_center : ServerType → Bool
is_center ServerType.center = true
is_center _ = false

abbrev pub is_gate : ServerType → Bool
is_gate ServerType.gate = true
is_gate _ = false

abbrev pub new_connection : ℕ → List ℕ → Base → Base
new_connection fd memory b = record b {
  connections = insert fd (new_ring_buffer max_buffer_size memory) b.connections;
}

-- `sends fd` is whether send takes the bytes for fd.
module _ (p : Coder) (sends : ℕ → Bool) where
  -- SendMsg and CloseClientSocket call one another; `close` is the second.
  unfoldable pub send_msg_by : (ℕ → Base → Option Base) → Outgoing → ℕ → Base → Option (Bool × Base)
  send_msg_by close msg fd b =
      if not (contains fd b.connections)
      then some (false, b)
      else if ltb max_buffer_size msg.package_size
      then some (false, b)
      else elim msg.bytes [
        | none ↦ some (false, b)
        | some resp ↦
            if sends fd
            then some (true, record b { sent = b.sent ++ (fd, resp) ∷ [] })
            else elim (close fd b) [ none ↦ none | some c ↦ some (false, c) ]
      ]

  unfoldable pub send_to_center_by :
      (ℕ → Base → Option Base) → Outgoing → Base → Option (Bool × Base)
  send_to_center_by close msg b = elim b.center_server_client [
    | none ↦ some (false, b)
    | some fd ↦ send_msg_by close msg fd b
  ]

  -- SendConnsChange with SendToCenterServerConnChange. `change` adds or takes away one.
  unfoldable pub send_conns_change_by : (ℕ → Base → Option Base) → (ℤ → ℤ) → Base → Option Base
  send_conns_change_by close change b =
      let b1 : Base = record b { conns_count = change b.conns_count } in
      if is_center b.server_type
      then some b1
      else elim (send_to_center_by close (p.conn_change b1.server_type b1.conns_count) b1) [
        | none ↦ none
        | some (ok, c) ↦ some c
      ]

  unfoldable pub close_client_socket_fuel : ℕ → ℕ → Base → Option Base
  close_client_socket_fuel zero fd b = none
  close_client_socket_fuel (suc fuel) fd b =
      if contains fd b.connections
      then send_conns_change_by (close_client_socket_fuel fuel) predℤ
          (record b { connections = erase fd b.connections })
      else some b

  abbrev pub close_client_socket : ℕ → Base → Base
  close_client_socket fd b = or_default (close_client_socket_fuel 2 fd b) b

  abbrev pub send_msg : Outgoing → ℕ → Base → Bool × Base
  send_msg msg fd b = or_default (send_msg_by (close_client_socket_fuel 2) msg fd b) (false, b)

  abbrev pub send_to_center : Outgoing → Base → Bool × Base
  send_to_center msg b =
      or_default (send_to_center_by (close_client_socket_fuel 2) msg b) (false, b)

  abbrev pub send_conns_change : (ℤ → ℤ) → Base → Base
  send_conns_change change b =
      or_default (send_conns_change_by (close_client_socket_fuel 2) change b) b

  -- `conn` is what accept gives, `added` whether epoll takes it.
  unfoldable pub handle_listener_event : ℕ → Option ℕ → Bool → List ℕ → Base → Base
  handle_listener_event fd none added memory b = b
  handle_listener_event fd (some conn) added memory b =
      if fd == b.listen_fd
      then (let b1 = send_conns_change sucℤ b in
          if added then new_connection conn memory b1 else close_client_socket conn b1)
      else b
