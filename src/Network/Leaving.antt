-- ===== src/Network/Leaving.antt =====
-- CloseServer of src/Source/FuncServer.cpp: the sockets that it closes, and the count it reports.
use ancestral_property_serve.Prelude.{
  ℕ, ℤ, predℤ, Bool, true, false, not, Option, none, some, List, [], ◌∷◌, ◌++◌, ◌≡◌, ap, sym, refl,
  ◌==◌, if◌then◌else◌, if_keeps, Bool-cases, Option-cases, inl, inr, append-nil, contains, ltb,
  or_default, arith,
}
use ancestral_property_serve.Config.{max_buffer_size}
use ancestral_property_serve.Network.{
  Coder, Base, Outgoing, is_center, send_msg_by, send_to_center_by, send_conns_change_by,
  close_client_socket_fuel, send_conns_change,
}
use ancestral_property_serve.Network.Boot.{close_client, close_server}

-- A descriptor that CloseServer closes.
abbrev pub is_open : Option ℕ → Bool
is_open none = false
is_open (some fd) = not (fd == 0)

abbrev pub closed_of : Option ℕ → List ℕ
closed_of none = []
closed_of (some fd) = if fd == 0 then [] else fd ∷ []

abbrev pub lowered : Option ℕ → ℤ → ℤ
lowered client n = if is_open client then predℤ n else n

module _ (p : Coder) (sends : ℕ → Bool) (through : (fd : ℕ) → sends fd ≡ true) where
  -- There is a result, and only what was sent differs in it.
  abbrev Quiet : Base → Option (Bool × Base) → Type 0
  Quiet b o = (r : Bool × Base) × (o ≡ some r) × (r.1 ≡ record b { sent = r.1.sent })

  -- What gets through closes nothing.
  send_msg_by-Quiet :
      (close : ℕ → Base → Option Base) (msg : Outgoing) (fd : ℕ) (b : Base)
      → Quiet b (send_msg_by p sends close msg fd b)
  unfolding send_msg_by
  send_msg_by-Quiet close msg fd b =
      if_keeps (Quiet b) (not (contains fd b.connections)) (λ _. (_, refl, refl))
        (λ _.
          if_keeps (Quiet b) (ltb max_buffer_size msg.package_size) (λ _. (_, refl, refl))
            (λ _. elim (Option-cases msg.bytes) [
              | inl e ↦ rw e (_, refl, refl)
              | inr (resp, e) ↦ rw e (rw (through fd) (_, refl, refl))
            ]))

  send_to_center_by-Quiet :
      (close : ℕ → Base → Option Base) (msg : Outgoing) (b : Base)
      → Quiet b (send_to_center_by p sends close msg b)
  unfolding send_to_center_by
  send_to_center_by-Quiet close msg b = elim (Option-cases b.center_server_client) [
    | inl e ↦ ((false, b), ground (arith, e), refl)
    | inr (fd, e) ↦
        (let (r, f, g) = send_msg_by-Quiet close msg fd b in (r, ground (arith, e, f), g))
  ]

  send_conns_change-eq :
      (change : ℤ → ℤ) (b : Base)
      → (l : List (ℕ × List ℕ)) × (send_conns_change p sends change b
          ≡ record b { conns_count = change b.conns_count; sent = l })
  unfolding send_conns_change_by
  send_conns_change-eq change b =
      if_keeps
        (λ o.
          (l : List (ℕ × List ℕ)) × (or_default o b
            ≡ record b { conns_count = change b.conns_count; sent = l }))
        (is_center b.server_type) (λ _. (b.sent, refl))
        (λ _.
          let b1 : Base = record b { conns_count = change b.conns_count } in
          let (r, f, g) =
            send_to_center_by-Quiet (close_client_socket_fuel p sends 2)
              (p.conn_change b1.server_type b1.conns_count) b1 in
          rw f (r.1.sent, g))

  -- The part of CloseServer for one client.
  close_client-eq :
      (client : Option ℕ) (closed : List ℕ) (b : Base)
      → (l : List (ℕ × List ℕ)) × (close_client p sends client (closed, b) ≡ (
        closed ++ closed_of client,
        record b { conns_count = lowered client b.conns_count; sent = l },
      ))
  unfolding close_client
  close_client-eq none closed b = (b.sent, ap (λ c. (c, b)) (sym (append-nil closed)))
  close_client-eq (some fd) closed b = elim (Bool-cases (fd == 0)) [
    | inl e ↦ (b.sent, rw e (ap (λ c. (c, b)) (sym (append-nil closed))))
    | inr e ↦
        (let (l, f) = send_conns_change-eq predℤ b in
          (l, rw e (ap (λ c. (closed ++ fd ∷ [], c)) f)))
  ]

  -- CloseServer closes the listening socket and those of the center, the logic and the database server,
  -- in this order, each if the server has it, and lowers the count of connections by one for each of the
  -- last three; none of them is taken off the connections. All reports to the center server get through.
  pub close_server-eq :
      (b : Base)
      → ((close_server p sends b).0
          ≡ closed_of (some b.listen_fd)
            ++ closed_of b.center_server_client
            ++ closed_of b.logic_server_client
            ++ closed_of b.db_server_client)
        × ((close_server p sends b).1.conns_count
            ≡ lowered b.db_server_client
                (lowered b.logic_server_client (lowered b.center_server_client b.conns_count)))
        × ((close_server p sends b).1.connections ≡ b.connections)
  unfolding close_server
  close_server-eq b =
      let closed = closed_of (some b.listen_fd) in
      let (l1, e1) = close_client-eq b.center_server_client closed b in
      let b1 : Base = record b {
        conns_count = lowered b.center_server_client b.conns_count;
        sent = l1;
      } in
      let closed1 = closed ++ closed_of b.center_server_client in
      let (l2, e2) = close_client-eq b.logic_server_client closed1 b1 in
      let b2 : Base = record b1 {
        conns_count = lowered b.logic_server_client b1.conns_count;
        sent = l2;
      } in
      let (l3, e3) =
        close_client-eq b.db_server_client (closed1 ++ closed_of b.logic_server_client) b2 in
      rw e1 (rw e2 (rw e3 (refl, refl, refl)))
