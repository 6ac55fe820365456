-- ===== src/Network/Runs.antt =====
-- A server over its life: what happens to the connections of src/Source/ServerBase.cpp and
-- src/Source/FuncServer.cpp, in any order, and the count of them.
use ancestral_property_serve.Prelude.{
  ℕ, suc, ◌+◌, ◌<◌, ℤ, ◌⊖◌, Bool, true, false, ◌≡◌, ◌∙◌, ap, refl, Option, none, some, List, [],
  ◌∷◌, length, contains, if◌then◌else◌, arith,
}
use ancestral_property_serve.Enums.{ServerType, CallbackType}
use ancestral_property_serve.Timer.{Timer}
use ancestral_property_serve.Network.{
  Coder, Base, Outgoing, is_gate, new_connection, close_client_socket, send_msg, send_to_center,
  handle_listener_event,
}
use ancestral_property_serve.Network.Links.{
  dynamic_calc_server_free_level, send_self_info_to_center, handle_server_info,
}
use ancestral_property_serve.Network.Keeping.{
  close_client_socket-kept, send_msg-kept, send_to_center-kept,
}
use ancestral_property_serve.Network.Counting.{
  IsCounted, IsCounted-IsKept, uncounted-IsCounted, accepts-IsCounted, server_info-IsCounted,
  with_clients,
}

-- A server before its first connection.
abbrev pub new_base : ServerType → ℕ → List (CallbackType × Timer) → Base
new_base type fd timers = record {
  server_type = type;
  listen_fd = fd;
  center_server_client = none;
  logic_server_client = none;
  db_server_client = none;
  connections = [];
  conns_count = ℤ.pos 0;
  m_callfunc_list = timers;
  sent = [];
}

-- What happens to the connections of a server: a client is accepted, and epoll takes it or does not;
-- one is closed; a message is sent; the center server is connected anew when the report to it does not
-- get through; a server that the center server names is connected. A socket that the system gives is
-- none of the connections. `relinks` is for what changes the sockets that are on record for the other
-- servers and no connection: a link that fails, which leaves -1 or a socket that epoll did not take, and
-- a CloseClientSocket that overrides the base's and resets the socket that it has closed; it allows any
-- change of them. The two numbers count the accepted clients that epoll did not take, and the
-- connections that were opened and not counted.
pub data Run (p : Coder) (b : Base) : ℕ → ℕ → Base → Type 0 where
  here : Run p b 0 0 b
  accepts :
      {x y : ℕ} {c : Base} (sends : ℕ → Bool) (conn : ℕ) (memory : List ℕ)
      → Run p b x y c
      → contains conn c.connections ≡ false
      → Run p b x y (handle_listener_event p sends c.listen_fd (some conn) true memory c)
  accepts_unwatched :
      {x y : ℕ} {c : Base} (sends : ℕ → Bool) (conn : ℕ) (memory : List ℕ)
      → Run p b x y c
      → contains conn c.connections ≡ false
      → Run p b (suc x) y (handle_listener_event p sends c.listen_fd (some conn) false memory c)
  closes :
      {x y : ℕ} {c : Base} (sends : ℕ → Bool) (fd : ℕ)
      → Run p b x y c
      → Run p b x y (close_client_socket p sends fd c)
  sends_msg :
      {x y : ℕ} {c : Base} (sends : ℕ → Bool) (msg : Outgoing) (fd : ℕ)
      → Run p b x y c
      → Run p b x y (send_msg p sends msg fd c).1
  reconnects :
      {x y : ℕ} {c : Base} (sends : ℕ → Bool) (msg : Outgoing) (fd : ℕ) (memory : List ℕ)
      → Run p b x y c
      → contains fd (send_to_center p sends msg c).1.connections ≡ false
      → Run p b x (suc y) (
          new_connection fd memory
            (record (send_to_center p sends msg c).1 { center_server_client = some fd }))
  links_logic :
      {x y : ℕ} {c : Base} (sends : ℕ → Bool) (fd : ℕ) (memory : List ℕ)
      → Run p b x y c
      → c.logic_server_client ≡ none
      → contains fd c.connections ≡ false
      → Run p b x
          (if is_gate c.server_type then suc y else y)
          (handle_server_info p sends ServerType.logic (some fd) true memory c)
  links_database :
      {x y : ℕ} {c : Base} (sends : ℕ → Bool) (fd : ℕ) (memory : List ℕ)
      → Run p b x y c
      → c.db_server_client ≡ none
      → contains fd c.connections ≡ false
      → Run p b x
          (if is_gate c.server_type then suc y else y)
          (handle_server_info p sends ServerType.database (some fd) true memory c)
  relinks :
      {x y : ℕ} {c : Base} (center logic database : Option ℕ)
      → Run p b x y c
      → Run p b x y (record c {
        center_server_client = center;
        logic_server_client = logic;
        db_server_client = database;
      })

module _ (p : Coder) where
  Run-IsCounted : {b c : Base} {x y : ℕ} → IsCounted 0 0 b → Run p b x y c → IsCounted x y c
  Run-IsCounted v Run.here = v
  Run-IsCounted v (Run.accepts {x = x} {y = y} {c = c} sends conn memory run new) =
      accepts-IsCounted p sends conn x y true memory c new (Run-IsCounted v run)
  Run-IsCounted v (Run.accepts_unwatched {x = x} {y = y} {c = c} sends conn memory run new) =
      accepts-IsCounted p sends conn x y false memory c new (Run-IsCounted v run)
  Run-IsCounted v (Run.closes {x = x} {y = y} {c = c} sends fd run) =
      close_client_socket-kept p sends (IsCounted x y) (IsCounted-IsKept x y) fd c
        (Run-IsCounted v run)
  Run-IsCounted v (Run.sends_msg {x = x} {y = y} {c = c} sends msg fd run) =
      send_msg-kept p sends (IsCounted x y) (IsCounted-IsKept x y) msg fd c (Run-IsCounted v run)
  Run-IsCounted v (Run.reconnects {x = x} {y = y} {c = c} sends msg fd memory run new) =
      let b1 = (send_to_center p sends msg c).1 in
      let v1 =
        send_to_center-kept p sends (IsCounted x y) (IsCounted-IsKept x y) msg c
          (Run-IsCounted v run) in
      uncounted-IsCounted fd x y memory _ new
        (with_clients p x y b1 (some fd) b1.logic_server_client b1.db_server_client v1)
  Run-IsCounted v (Run.links_logic {x = x} {y = y} {c = c} sends fd memory run e new) =
      (server_info-IsCounted p sends fd x y memory c new (Run-IsCounted v run)).0 e
  Run-IsCounted v (Run.links_database {x = x} {y = y} {c = c} sends fd memory run e new) =
      (server_info-IsCounted p sends fd x y memory c new (Run-IsCounted v run)).1 e
  Run-IsCounted v (Run.relinks {x = x} {y = y} {c = c} center logic database run) =
      with_clients p x y c center logic database (Run-IsCounted v run)

  -- The count that a server reports is the number of its connections, plus one for each accepted client
  -- that epoll did not take, minus one for each connection to another server that was not counted when
  -- it was opened.
  pub Run-new_base-count :
      {type : ServerType} {fd x y : ℕ} {timers : List (CallbackType × Timer)} {b : Base}
      → Run p (new_base type fd timers) x y b
      → b.conns_count ≡ (length b.connections + x) ⊖ y
  unfolding ◌⊖◌
  Run-new_base-count run = (Run-IsCounted (record { sorted = tt; count = refl }) run).count

  below_zero : (m y : ℕ) → m < y → dynamic_calc_server_free_level (m ⊖ y) ≡ none
  unfolding dynamic_calc_server_free_level ◌⊖◌
  below_zero m y h = ground (arith, h)

  level :
      {type : ServerType} {fd x y : ℕ} {timers : List (CallbackType × Timer)} (b : Base)
      → Run p (new_base type fd timers) x y b
      → length b.connections + x < y
      → dynamic_calc_server_free_level b.conns_count ≡ none
  level {x = x} {y = y} b run h =
      ap dynamic_calc_server_free_level (Run-new_base-count run)
      ∙ below_zero (length b.connections + x) y h

  -- Once more connections were opened uncounted than there are connections, the report to the center
  -- server is undefined: DynamicCalcServerFreeLevel gives no level for a count below zero.
  pub Run-new_base-undefined :
      {type : ServerType} {fd x y : ℕ} {timers : List (CallbackType × Timer)} {b : Base}
      (sends : ℕ → Bool) (links : List (Option ℕ × Bool)) (memory : List ℕ)
      → Run p (new_base type fd timers) x y b
      → length b.connections + x < y
      → send_self_info_to_center p sends links memory b ≡ none
  unfolding send_self_info_to_center
  Run-new_base-undefined {b = b} sends [] memory run h =
      rw (level b run h, send_self_info_to_center) refl
  Run-new_base-undefined {b = b} sends ((link, added) ∷ links) memory run h =
      rw (level b run h, send_self_info_to_center) refl
