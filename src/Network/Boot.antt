-- ===== src/Network/Boot.antt =====
-- The start of a server: StartListener, BootServer with its event loop, CloseServer and
-- ConnectToOtherServer (src/Source/ServerBase.cpp), CloseServer of src/Source/FuncServer.cpp and
-- EpollMgr (src/Tool/EpollMgr.cpp). What the system calls give is an argument: a descriptor that is -1
-- is `none`, and `closed` records the calls of close.
use ancestral_property_serve.Prelude.{
  ℕ, predℤ, Bool, true, false, not, Option, none, some, is_some, List, [], ◌∷◌, ◌++◌, ◌==◌,
  if◌then◌else◌,
}
use ancestral_property_serve.Network.Address.{Text, IpInfos, own_address}
use ancestral_property_serve.Network.{Coder, Base, send_conns_change}

-- What the system says to the steps of StartListener and BootServer before the event loop.
pub record System : Type 0 where
  pub socket_fd : Option ℕ
  pub reuse_address_ok : Bool
  pub bind_ok : Bool
  pub listen_ok : Bool
  pub epoll_fd : Option ℕ
  pub add_event_ok : Bool

-- What StartListener leaves behind.
pub record Listener : Type 0 where
  pub listen_fd : Option ℕ
  pub closed : List (Option ℕ)
  pub ok : Bool

unfoldable pub start_listener : System → Listener
start_listener y =
    let fd = y.socket_fd in
    if not (is_some fd)
    then record { listen_fd = fd; closed = []; ok = false }
    else if not y.reuse_address_ok
    then record { listen_fd = fd; closed = []; ok = false }
    else if not y.bind_ok
    then record { listen_fd = fd; closed = fd ∷ []; ok = false }
    else if not y.listen_ok
    then record { listen_fd = fd; closed = fd ∷ []; ok = false }
    else record { listen_fd = fd; closed = []; ok = true }

-- A descriptor that epoll_wait reports, with its events and what the handlers read from it.
pub record Ready (I : Type 0) : Type 0 where
  pub fd : ℕ
  pub input : I
  pub has_in : Bool
  pub has_err : Bool
  pub has_hup : Bool

-- A server as its event loop sees it: the two handlers, CloseClientSocket, and the ticks of its timers
-- at a reading of the clock.
pub record Handlers (I S : Type 0) : Type 0 where
  pub handle_listener_event : ℕ → I → S → S
  pub handle_conn_event : ℕ → I → S → S
  pub close_client_socket : ℕ → S → S
  pub tick_all : ℕ → S → S

-- A round of the loop: what epoll_wait gives, `none` for -1, and the time of the ticks.
pub record Round (I : Type 0) : Type 0 where
  pub ready : Option (List (Ready I))
  pub now : ℕ

module _ {I S : Type 0} (h : Handlers I S) (listen_fd : ℕ) where
  unfoldable pub handle_ready : Ready I → S → S
  handle_ready e s =
      let s1 =
        if e.has_in
        then if e.fd == listen_fd
          then h.handle_listener_event e.fd e.input s
          else h.handle_conn_event e.fd e.input s
        else s in
      let s2 = if e.has_err then h.close_client_socket e.fd s1 else s1 in
      if e.has_hup then h.close_client_socket e.fd s2 else s2

  unfoldable pub handle_all : List (Ready I) → S → S
  handle_all [] s = s
  handle_all (e ∷ es) s = handle_all es (handle_ready e s)

  -- The loop over the rounds that are given, and whether it broke off in one of them.
  unfoldable pub event_loop : List (Round I) → S → Bool × S
  event_loop [] s = (false, s)
  event_loop (r ∷ rs) s = elim r.ready [
    | none ↦ (true, s)
    | some es ↦ event_loop rs (h.tick_all r.now (handle_all es s))
  ]

-- How far BootServer came.
pub data Stage : Type 0 where
  not_own_address not_listening no_epoll not_watched refused : Stage
  runs broken_off : Stage

pub record Booted (S : Type 0) : Type 0 where
  pub stage : Stage
  pub closed : List (Option ℕ)
  pub server : S

-- `nip` and `wip` are what the two commands print. `on_listener_start` is that of the server.
unfoldable pub boot_server :
    {I S : Type 0}
    → Handlers I S
    → (S → Bool × S)
    → Option Text
    → Option Text
    → Text
    → IpInfos
    → System
    → List (Round I)
    → S
    → Booted S
boot_server h on_listener_start nip wip ip infos y rounds s =
    let l = start_listener y in
    let started = on_listener_start s in
    if not (own_address nip wip ip infos)
    then record { stage = Stage.not_own_address; closed = []; server = s }
    else elim y.socket_fd [
      | none ↦ record { stage = Stage.not_listening; closed = l.closed ++ none ∷ []; server = s }
      | some fd ↦
          if not l.ok
          then record { stage = Stage.not_listening; closed = l.closed ++ some fd ∷ []; server = s }
          else if not (is_some y.epoll_fd)
          then record { stage = Stage.no_epoll; closed = some fd ∷ []; server = s }
          else if not y.add_event_ok
          then record { stage = Stage.not_watched; closed = some fd ∷ []; server = s }
          else if not started.0
          then record { stage = Stage.refused; closed = some fd ∷ []; server = started.1 }
          else (let r = event_loop h fd rounds started.1 in
              if r.0
              then record { stage = Stage.broken_off; closed = y.epoll_fd ∷ []; server = r.1 }
              else record { stage = Stage.runs; closed = []; server = r.1 })
    ]

-- ConnectToOtherServer: whether it connected, the descriptor that it leaves, and the sockets that it
-- opened.
pub record Dial : Type 0 where
  pub fd : Option ℕ
  pub opened : List ℕ

unfoldable pub connect_to_other_server : Option ℕ → Bool → Bool → Bool × Dial
connect_to_other_server none address_ok connect_ok = (false, record { fd = none; opened = [] })
connect_to_other_server (some s) address_ok connect_ok =
    if not address_ok
    then (false, record { fd = none; opened = s ∷ [] })
    else if not connect_ok
    then (false, record { fd = none; opened = s ∷ [] })
    else (true, record { fd = some s; opened = s ∷ [] })

-- `if (client > 0) { close(client); SendConnsChange(-1); }`
unfoldable pub close_client : Coder → (ℕ → Bool) → Option ℕ → List ℕ × Base → List ℕ × Base
close_client p sends none (closed, b) = (closed, b)
close_client p sends (some fd) (closed, b) =
    if fd == 0 then (closed, b) else (closed ++ fd ∷ [], send_conns_change p sends predℤ b)

-- CloseServer of a FuncServer: the sockets that it closes, and the server.
unfoldable pub close_server : Coder → (ℕ → Bool) → Base → List ℕ × Base
close_server p sends b =
    let closed = if b.listen_fd == 0 then [] else b.listen_fd ∷ [] in
    let c1 = close_client p sends b.center_server_client (closed, b) in
    let c2 = close_client p sends c1.1.logic_server_client c1 in
    close_client p sends c2.1.db_server_client c2
