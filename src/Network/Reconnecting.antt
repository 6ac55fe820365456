-- ===== src/Network/Reconnecting.antt =====
-- CloseClientSocket of src/Source/LogicServer.cpp returns, and leaves no closed socket for the one of
-- the database server.
use ancestral_property_serve.Prelude.{
  ℕ, zero, suc, predℤ, Bool, true, false, ◌≡◌, subst, sym, refl, Option, none, some, List, contains,
  erase, lookup-erase, OnSome, if_keeps, Option-cases, inl, inr, arith,
}
use ancestral_property_serve.Enums.{ServerType}
use ancestral_property_serve.Network.{Coder, Base, Outgoing, send_to_center_by}
use ancestral_property_serve.Network.Closing.{
  Returns, send_msg_by-Returns, send_conns_change_by-Returns, contains-erase_other,
}
use ancestral_property_serve.Network.Keeping.{
  Keeping, send_to_center_by-kept, send_conns_change_by-kept,
}
use ancestral_property_serve.Network.Servers.{
  is_client, try_to_connect_by, close_connection_by, after_close_by, close_logic_socket_fuel,
  IsOpen, IsOpenBut, dropped-OnSome, then_OnSome, close_logic-IsOpenBut,
}

-- The center server has no connection.
abbrev IsCut : Base → Type 0
IsCut b = (d : ℕ) → b.center_server_client ≡ some d → contains d b.connections ≡ false

cut_sending : (b : Base) (l : List (ℕ × List ℕ)) → IsCut b → IsCut (record b { sent = l })
cut_sending b l v = v

module _ (p : Coder) (sends : ℕ → Bool) where
  close_logic-IsCut :
      (fuel : ℕ) → Keeping p sends IsCut cut_sending (close_logic_socket_fuel p sends fuel)
  unfolding close_logic_socket_fuel close_connection_by after_close_by try_to_connect_by
  close_logic-IsCut zero fd b v = tt
  close_logic-IsCut (suc fuel) fd b v =
      then_OnSome p sends IsCut IsCut _ _
        (if_keeps (OnSome IsCut) (contains fd b.connections)
          (λ _.
            send_conns_change_by-kept p sends IsCut cut_sending
              (close_logic_socket_fuel p sends fuel) predℤ
              (record b { connections = erase fd b.connections }) (close_logic-IsCut fuel)
              (λ d h. ground (arith, v d h, lookup-erase fd d b.connections)))
          (λ _. v))
        (λ c w.
          if_keeps (OnSome IsCut) (is_client c.db_server_client fd)
            (λ _. dropped-OnSome p sends IsCut _ (
              send_to_center_by-kept p sends IsCut cut_sending
                (close_logic_socket_fuel p sends fuel) (p.apply_server ServerType.database)
                (record c { db_server_client = none }) (close_logic-IsCut fuel) w))
            (λ _. w))

  send_to_center_by-Returns :
      (close : ℕ → Base → Option Base) (msg : Outgoing) (b : Base)
      → ((d : ℕ)
          → b.center_server_client ≡ some d
          → contains d b.connections ≡ true
          → Returns p sends (close d b))
      → Returns p sends (send_to_center_by p sends close msg b)
  unfolding send_to_center_by
  send_to_center_by-Returns close msg b h = elim (Option-cases b.center_server_client) [
    | inl e ↦ ((false, b), ground (arith, e))
    | inr (d, e) ↦
        (let (r, f) = send_msg_by-Returns p sends close msg d b (λ c. h d e c) in
          (r, ground (arith, e, f)))
  ]

  dropped-Returns :
      (o : Option (Bool × Base))
      → Returns p sends o
      → Returns p sends (elim o [ none ↦ none | some (ok, c) ↦ some c ])
  dropped-Returns o (r, f) =
      subst (λ x. Returns p sends (elim x [ none ↦ none | some (ok, c) ↦ some c ])) (sym f)
        (r.1, refl)

  chain-Returns :
      (o : Option Base) (f : Base → Option Base)
      → Returns p sends o
      → ((c : Base) → o ≡ some c → Returns p sends (f c))
      → Returns p sends (elim o [ none ↦ none | some c ↦ f c ])
  chain-Returns o f (c, e) k =
      subst (λ x. Returns p sends (elim x [ none ↦ none | some c ↦ f c ])) (sym e) (k c e)

  after_close_by-Returns :
      (close : ℕ → Base → Option Base) (fd : ℕ) (b : Base)
      → ((d : ℕ)
          → b.center_server_client ≡ some d
          → contains d b.connections ≡ true
          → Returns p sends (close d (record b { db_server_client = none })))
      → Returns p sends (after_close_by p sends close fd b)
  unfolding after_close_by try_to_connect_by
  after_close_by-Returns close fd b h =
      if_keeps (Returns p sends) (is_client b.db_server_client fd)
        (λ _.
          let (r, f) =
            send_to_center_by-Returns close (p.apply_server ServerType.database)
              (record b { db_server_client = none }) h in
          dropped-Returns _ (r, f))
        (λ _. (b, refl))

  close_connection_by-Returns :
      (close : ℕ → Base → Option Base) (fd : ℕ) (b : Base)
      → ((d : ℕ)
          → contains d (erase fd b.connections) ≡ true
          → b.center_server_client ≡ some d
          → Returns p sends (
              close d (record b {
                connections = erase fd b.connections;
                conns_count = predℤ b.conns_count;
              })))
      → Returns p sends (close_connection_by p sends close fd b)
  unfolding close_connection_by
  close_connection_by-Returns close fd b h =
      if_keeps (Returns p sends) (contains fd b.connections)
        (λ _.
          send_conns_change_by-Returns p sends close predℤ
            (record b { connections = erase fd b.connections }) h)
        (λ _. (b, refl))

  center_closed-IsCut :
      (fuel d : ℕ) (b : Base)
      → b.center_server_client ≡ some d
      → OnSome IsCut (close_connection_by p sends (close_logic_socket_fuel p sends fuel) d b)
  unfolding close_connection_by
  center_closed-IsCut fuel d b e =
      if_keeps (OnSome IsCut) (contains d b.connections)
        (λ _.
          send_conns_change_by-kept p sends IsCut cut_sending (close_logic_socket_fuel p sends fuel)
            predℤ (record b { connections = erase d b.connections }) (close_logic-IsCut fuel)
            (λ g h. ground (arith, e, h, lookup-erase d g b.connections)))
        (λ n. λ g h. ground (arith, e, h, n))

  -- A close of the center server's own socket.
  close_center-Returns :
      (fuel d : ℕ) (b : Base)
      → b.center_server_client ≡ some d
      → Returns p sends (close_logic_socket_fuel p sends (suc fuel) d b)
  unfolding close_logic_socket_fuel
  close_center-Returns fuel d b e =
      let close = close_logic_socket_fuel p sends fuel in
      chain-Returns (close_connection_by p sends close d b) (after_close_by p sends close d)
        (close_connection_by-Returns close d b (λ g k h.
          let (apart, known) = contains-erase_other p sends d g b.connections k in
          absurd (apart (ground (arith, e, h)))))
        (λ c f.
          let cut = subst (OnSome IsCut) f (center_closed-IsCut fuel d b e) in
          after_close_by-Returns close d c (λ g h k. ground (arith, cut g h, k)))

  -- CloseClientSocket of the logic server calls SendMsg for its two messages to the center server, and
  -- SendMsg calls it when they do not get through; it returns at depth two. If the client of the
  -- database server was one of the connections or none before, it is so afterwards.
  pub close_logic_socket-IsOpen :
      (fuel fd : ℕ) (b : Base)
      → IsOpen p sends b
      → (c : Base) × (close_logic_socket_fuel p sends (suc (suc fuel)) fd b ≡ some c)
        × IsOpen p sends c
  unfolding close_logic_socket_fuel
  close_logic_socket-IsOpen fuel fd b v =
      let close = close_logic_socket_fuel p sends (suc fuel) in
      let (c, e) =
        chain-Returns (close_connection_by p sends close fd b) (after_close_by p sends close fd)
          (close_connection_by-Returns close fd b (λ g k h. close_center-Returns fuel g _ h))
          (λ c f. after_close_by-Returns close fd c (λ g h k. close_center-Returns fuel g _ h)) in
      let kept =
        close_logic-IsOpenBut p sends (suc (suc fuel)) (λ g. false) fd b (λ g h n. v g h) in
      (c, e, λ g h. (subst (OnSome (IsOpenBut p sends (λ g. false))) e kept) g h refl)
