-- ===== src/Network/Servers.antt =====
-- The connection of the logic server to the database server (CloseClientSocket and
-- TryToConnectAvailabeServer of src/Source/LogicServer.cpp, ApplyServerByType of
-- src/Source/FuncServer.cpp). CloseClientSocket is virtual: the one that SendMsg calls is this one.
use ancestral_property_serve.Prelude.{
  ℕ, zero, suc, predℤ, Bool, true, false, ◌||◌, ◌≡◌, Option, none, some, List, contains, erase,
  lookup-erase, or_default, OnSome, ◌==◌, if◌then◌else◌, if_keeps, arith,
}
use ancestral_property_serve.Enums.{ServerType}
use ancestral_property_serve.Network.{Coder, Base, send_to_center_by, send_conns_change_by}
use ancestral_property_serve.Network.Keeping.{
  Keeping, send_to_center_by-kept, send_conns_change_by-kept,
}

-- `fd == client`
abbrev pub is_client : Option ℕ → ℕ → Bool
is_client none fd = false
is_client (some c) fd = c == fd

module _ (p : Coder) (sends : ℕ → Bool) where
  -- TryToConnectAvailabeServer with ApplyServerByType.
  unfoldable pub try_to_connect_by : (ℕ → Base → Option Base) → Base → Option Base
  try_to_connect_by close b = elim b.db_server_client [
    | some fd ↦ some b
    | none ↦ elim (send_to_center_by p sends close (p.apply_server ServerType.database) b) [
      | none ↦ none
      | some (ok, c) ↦ some c
    ]
  ]

  -- OnConnectToCenterServer
  abbrev on_connect_to_center_server : (ℕ → Base → Option Base) → Base → Option Base
  on_connect_to_center_server close b = try_to_connect_by close b

  -- ServerBase::CloseClientSocket
  unfoldable pub close_connection_by : (ℕ → Base → Option Base) → ℕ → Base → Option Base
  close_connection_by close fd b =
      if contains fd b.connections
      then send_conns_change_by p sends close predℤ
          (record b { connections = erase fd b.connections })
      else some b

  -- What LogicServer::CloseClientSocket does after it.
  unfoldable pub after_close_by : (ℕ → Base → Option Base) → ℕ → Base → Option Base
  after_close_by close fd b =
      if is_client b.db_server_client fd
      then try_to_connect_by close (record b { db_server_client = none })
      else some b

  unfoldable pub close_logic_socket_fuel : ℕ → ℕ → Base → Option Base
  close_logic_socket_fuel zero fd b = none
  close_logic_socket_fuel (suc fuel) fd b =
      let close = close_logic_socket_fuel fuel in
      elim (close_connection_by close fd b) [ none ↦ none | some c ↦ after_close_by close fd c ]

  abbrev pub close_logic_socket : ℕ → Base → Base
  close_logic_socket fd b = or_default (close_logic_socket_fuel 2 fd b) b

  -- The client of the database server is a connection, but for the sockets in `but`.
  abbrev pub IsOpenBut : (ℕ → Bool) → Base → Type 0
  IsOpenBut but b =
      (fd : ℕ) → b.db_server_client ≡ some fd → but fd ≡ false → contains fd b.connections ≡ true

  abbrev pub IsOpen : Base → Type 0
  IsOpen b = (fd : ℕ) → b.db_server_client ≡ some fd → contains fd b.connections ≡ true

  pub sending :
      (but : ℕ → Bool) (b : Base) (l : List (ℕ × List ℕ))
      → IsOpenBut but b
      → IsOpenBut but (record b { sent = l })
  sending but b l v = v

  -- A result of SendMsg, without what it returns; and one that is there if there is no client.
  pub dropped-OnSome :
      (P : Base → Type 0) (o : Option (Bool × Base))
      → OnSome (λ r. P r.1) o
      → OnSome P (elim o [ none ↦ none | some (ok, c) ↦ some c ])
  dropped-OnSome P none h = tt
  dropped-OnSome P (some (ok, c)) h = h

  pub missing-OnSome :
      (P : Base → Type 0) (client : Option ℕ) (b : Base) (o : Option Base)
      → P b
      → OnSome P o
      → OnSome P (elim client [ some fd ↦ some b | none ↦ o ])
  missing-OnSome P none b o h k = k
  missing-OnSome P (some fd) b o h k = h

  try_to_connect_by-IsOpenBut :
      (close : ℕ → Base → Option Base) (but : ℕ → Bool) (b : Base)
      → Keeping p sends (IsOpenBut but) (sending but) close
      → IsOpenBut but b
      → OnSome (IsOpenBut but) (try_to_connect_by close b)
  unfolding try_to_connect_by
  try_to_connect_by-IsOpenBut close but b k v =
      missing-OnSome (IsOpenBut but) b.db_server_client b _ v (
        dropped-OnSome (IsOpenBut but) _ (
          send_to_center_by-kept p sends (IsOpenBut but) (sending but) close
            (p.apply_server ServerType.database) b k v))

  after_close_by-IsOpenBut :
      (close : ℕ → Base → Option Base) (fd : ℕ) (but : ℕ → Bool) (b : Base)
      → Keeping p sends (IsOpenBut but) (sending but) close
      → IsOpenBut (λ g. but g || (g == fd)) b
      → OnSome (IsOpenBut but) (after_close_by close fd b)
  unfolding after_close_by
  after_close_by-IsOpenBut close fd but b k v =
      if_keeps (OnSome (IsOpenBut but)) (is_client b.db_server_client fd)
        (λ _.
          try_to_connect_by-IsOpenBut close but (record b { db_server_client = none }) k
            (λ g h n. ground (arith, h)))
        (λ e. λ g h n. ground (arith, e, h, n, v g))

  pub then_OnSome :
      (P Q : Base → Type 0) (o : Option Base) (f : Base → Option Base)
      → OnSome P o
      → ((c : Base) → P c → OnSome Q (f c))
      → OnSome Q (elim o [ none ↦ none | some c ↦ f c ])
  then_OnSome P Q none f h k = tt
  then_OnSome P Q (some c) f h k = k c h

  pub close_logic-IsOpenBut :
      (fuel : ℕ) (but : ℕ → Bool)
      → Keeping p sends (IsOpenBut but) (sending but) (close_logic_socket_fuel fuel)
  unfolding close_logic_socket_fuel close_connection_by
  close_logic-IsOpenBut zero but fd b v = tt
  close_logic-IsOpenBut (suc fuel) but fd b v =
      let more : ℕ → Bool = λ g. but g || (g == fd) in
      then_OnSome (IsOpenBut more) (IsOpenBut but) _ _
        (if_keeps (OnSome (IsOpenBut more)) (contains fd b.connections)
          (λ _.
            send_conns_change_by-kept p sends (IsOpenBut more) (sending more)
              (close_logic_socket_fuel fuel) predℤ
              (record b { connections = erase fd b.connections }) (close_logic-IsOpenBut fuel more)
              (λ g h n. ground (arith, h, n, v g, lookup-erase fd g b.connections)))
          (λ _. λ g h n. ground (arith, h, n, v g)))
        (λ c w.
          after_close_by-IsOpenBut (close_logic_socket_fuel fuel) fd but c
            (close_logic-IsOpenBut fuel but) w)
