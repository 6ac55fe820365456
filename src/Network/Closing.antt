-- ===== src/Network/Closing.antt =====
-- CloseClientSocket and SendMsg of src/Source/ServerBase.cpp call one another and still return.
use ancestral_property_serve.Prelude.{
  ℕ, suc, ℤ, predℤ, Bool, true, false, ◌≡◌, refl, Option, some, Map, contains, erase, lookup-erase,
  ltb, inl, inr, if_keeps, Bool-cases, Option-cases, ◌≢◌, arith,
}
use ancestral_property_serve.Config.{max_buffer_size}
use ancestral_property_serve.Network.{
  Coder, Base, Outgoing, is_center, send_msg_by, send_to_center_by, send_conns_change_by,
  close_client_socket_fuel,
}

module _ (p : Coder) (sends : ℕ → Bool) where
  -- There is a result.
  abbrev pub Returns {ℓ} : {A : Type ℓ} → Option A → Type ℓ
  Returns {A = A} o = (a : A) × (o ≡ some a)

  pub send_msg_by-Returns :
      (close : ℕ → Base → Option Base) (msg : Outgoing) (fd : ℕ) (b : Base)
      → (contains fd b.connections ≡ true → Returns (close fd b))
      → Returns (send_msg_by p sends close msg fd b)
  unfolding send_msg_by
  send_msg_by-Returns close msg fd b h = elim (Bool-cases (contains fd b.connections)) [
    | inr e ↦ rw (e, send_msg_by) (_, refl)
    | inl e ↦
        (let (c, f) = h e in
          rw (e, send_msg_by)
            (if_keeps Returns (ltb max_buffer_size msg.package_size) (λ _. (_, refl))
              (λ _. elim (Option-cases msg.bytes) [
                | inl g ↦ rw g (_, refl)
                | inr (resp, g) ↦
                    rw g (if_keeps Returns (sends fd) (λ _. (_, refl)) (λ _. rw f (_, refl)))
              ])))
  ]

  pub send_conns_change_by-Returns :
      (close : ℕ → Base → Option Base) (change : ℤ → ℤ) (b : Base)
      → ((fd : ℕ)
          → contains fd b.connections ≡ true
          → b.center_server_client ≡ some fd
          → Returns (close fd (record b { conns_count = change b.conns_count })))
      → Returns (send_conns_change_by p sends close change b)
  unfolding send_conns_change_by send_to_center_by
  send_conns_change_by-Returns close change b h =
      if_keeps Returns (is_center b.server_type) (λ _. (_, refl))
        (λ _. elim (Option-cases b.center_server_client) [
          | inl e ↦ rw e (_, refl)
          | inr (fd, e) ↦
              (let b1 : Base = record b { conns_count = change b.conns_count } in
                let (r, f) =
                  send_msg_by-Returns close (p.conn_change b1.server_type b1.conns_count) fd b1
                    (λ c. h fd c e) in
                rw e (rw f (_, refl)))
        ])

  missing-Returns :
      (fuel fd : ℕ) (b : Base)
      → contains fd b.connections ≡ false
      → Returns (close_client_socket_fuel p sends (suc fuel) fd b)
  unfolding close_client_socket_fuel
  missing-Returns fuel fd b e = rw (e, close_client_socket_fuel) (b, refl)

  pub contains-erase_other :
      {V : Type 0} (k j : ℕ) (m : Map V)
      → contains j (erase k m) ≡ true
      → (j ≢ k) × (contains j m ≡ true)
  contains-erase_other k j m h = ground (arith, h, lookup-erase k j m)

  -- A close goes one level deep if no other socket is that of the center server.
  alone-Returns :
      (fuel fd : ℕ) (b : Base)
      → ((c : ℕ) → b.center_server_client ≡ some c → contains c b.connections ≡ true → c ≡ fd)
      → Returns (close_client_socket_fuel p sends (suc fuel) fd b)
  unfolding close_client_socket_fuel
  alone-Returns fuel fd b h =
      if_keeps Returns (contains fd b.connections)
        (λ _.
          send_conns_change_by-Returns (close_client_socket_fuel p sends fuel) predℤ
            (record b { connections = erase fd b.connections })
            (λ c k e.
              (let (apart, known) = contains-erase_other fd c b.connections k in
                absurd (apart (h c e known)))))
        (λ _. (b, refl))

  -- CloseClientSocket reports the new count to the center server, and SendMsg closes that connection
  -- too if the report does not get through; then it stops. Both return from every state at depth two.
  pub close_client_socket_total :
      (fuel fd : ℕ) (b : Base) → Returns (close_client_socket_fuel p sends (suc (suc fuel)) fd b)
  unfolding close_client_socket_fuel
  close_client_socket_total fuel fd b =
      if_keeps Returns (contains fd b.connections)
        (λ _.
          send_conns_change_by-Returns (close_client_socket_fuel p sends (suc fuel)) predℤ
            (record b { connections = erase fd b.connections })
            (λ c k e. alone-Returns fuel c _ (λ d f _. ground (arith, e, f))))
        (λ _. (b, refl))

  pub send_msg_total :
      (fuel : ℕ) (msg : Outgoing) (fd : ℕ) (b : Base)
      → Returns (send_msg_by p sends (close_client_socket_fuel p sends (suc (suc fuel))) msg fd b)
  send_msg_total fuel msg fd b =
      send_msg_by-Returns (close_client_socket_fuel p sends (suc (suc fuel))) msg fd b
        (λ _. close_client_socket_total fuel fd b)
