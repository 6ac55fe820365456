-- ===== src/Network/Keeping.antt =====
-- What CloseClientSocket and SendMsg of src/Source/ServerBase.cpp keep, whichever of the connections
-- they close on the way.
use ancestral_property_serve.Prelude.{
  ℕ, zero, suc, ℤ, predℤ, Bool, true, false, not, ◌≡◌, subst, sym, Option, List, contains, erase,
  ltb, or_default, OnSome, OnSome-or_default, inl, inr, if_keeps, Option-cases,
}
use ancestral_property_serve.Config.{max_buffer_size}
use ancestral_property_serve.Network.{
  Coder, Base, Outgoing, is_center, send_msg_by, send_to_center_by, send_conns_change_by,
  close_client_socket_fuel, close_client_socket, send_msg, send_to_center, send_conns_change,
}
use ancestral_property_serve.Network.Closing.{
  close_client_socket_total, send_conns_change_by-Returns,
}

-- A predicate that sending keeps, and closing one connection with its count.
pub record IsKept (P : Base → Type 0) : Type 0 where
  pub by_sending : (b : Base) (l : List (ℕ × List ℕ)) → P b → P (record b { sent = l })
  pub by_closing :
      (b : Base) (fd : ℕ)
      → contains fd b.connections ≡ true
      → P b
      → P (record b { connections = erase fd b.connections; conns_count = predℤ b.conns_count })

module _ (p : Coder) (sends : ℕ → Bool) (P : Base → Type 0)
    (by_sending : (b : Base) (l : List (ℕ × List ℕ)) → P b → P (record b { sent = l })) where
  abbrev pub Keeping : (ℕ → Base → Option Base) → Type 0
  Keeping close = (fd : ℕ) (b : Base) → P b → OnSome P (close fd b)

  pub send_msg_by-kept :
      (close : ℕ → Base → Option Base) (msg : Outgoing) (fd : ℕ) (b : Base)
      → Keeping close
      → P b
      → OnSome (λ r. P r.1) (send_msg_by p sends close msg fd b)
  unfolding send_msg_by
  send_msg_by-kept close msg fd b h v =
      if_keeps (OnSome (λ r. P r.1)) (not (contains fd b.connections)) (λ _. v)
        (λ _.
          if_keeps (OnSome (λ r. P r.1)) (ltb max_buffer_size msg.package_size) (λ _. v)
            (λ _. elim (Option-cases msg.bytes) [
              | inl e ↦ rw e v
              | inr (resp, e) ↦ rw e (
                  if_keeps (OnSome (λ r. P r.1)) (sends fd) (λ _. by_sending b _ v)
                    (λ _. elim (Option-cases (close fd b)) [
                      | inl f ↦ rw f tt
                      | inr (c, f) ↦ rw f (subst (OnSome P) f (h fd b v))
                    ]))
            ]))

  pub send_to_center_by-kept :
      (close : ℕ → Base → Option Base) (msg : Outgoing) (b : Base)
      → Keeping close
      → P b
      → OnSome (λ r. P r.1) (send_to_center_by p sends close msg b)
  unfolding send_to_center_by
  send_to_center_by-kept close msg b h v = elim (Option-cases b.center_server_client) [
    | inl e ↦ rw (e, send_to_center_by) v
    | inr (fd, e) ↦ rw (e, send_to_center_by) (send_msg_by-kept close msg fd b h v)
  ]

  pub send_conns_change_by-kept :
      (close : ℕ → Base → Option Base) (change : ℤ → ℤ) (b : Base)
      → Keeping close
      → P (record b { conns_count = change b.conns_count })
      → OnSome P (send_conns_change_by p sends close change b)
  unfolding send_conns_change_by
  send_conns_change_by-kept close change b h v =
      let b1 : Base = record b { conns_count = change b.conns_count } in
      let msg = p.conn_change b1.server_type b1.conns_count in
      if_keeps (OnSome P) (is_center b.server_type) (λ _. v)
        (λ _. elim (Option-cases (send_to_center_by p sends close msg b1)) [
          | inl e ↦ rw e tt
          | inr ((ok, c), e) ↦
              rw e (subst (OnSome (λ r. P r.1)) e (send_to_center_by-kept close msg b1 h v))
        ])

module _ (p : Coder) (sends : ℕ → Bool) (P : Base → Type 0) (k : IsKept P) where
  close_fuel-kept :
      (fuel : ℕ) → Keeping p sends P k.by_sending (close_client_socket_fuel p sends fuel)
  unfolding close_client_socket_fuel
  close_fuel-kept zero fd b v = tt
  close_fuel-kept (suc fuel) fd b v =
      if_keeps (OnSome P) (contains fd b.connections)
        (λ c.
          send_conns_change_by-kept p sends P k.by_sending (close_client_socket_fuel p sends fuel)
            predℤ (record b { connections = erase fd b.connections }) (close_fuel-kept fuel)
            (k.by_closing b fd c v))
        (λ _. v)

  pub close_client_socket-kept : (fd : ℕ) (b : Base) → P b → P (close_client_socket p sends fd b)
  close_client_socket-kept fd b v = OnSome-or_default P _ b (close_fuel-kept 2 fd b v) v

  pub send_msg-kept : (msg : Outgoing) (fd : ℕ) (b : Base) → P b → P (send_msg p sends msg fd b).1
  send_msg-kept msg fd b v =
      OnSome-or_default (λ r. P r.1) _ (false, b)
        (send_msg_by-kept p sends P k.by_sending (close_client_socket_fuel p sends 2) msg fd b
          (close_fuel-kept 2) v)
        v

  pub send_to_center-kept : (msg : Outgoing) (b : Base) → P b → P (send_to_center p sends msg b).1
  send_to_center-kept msg b v =
      OnSome-or_default (λ r. P r.1) _ (false, b)
        (send_to_center_by-kept p sends P k.by_sending (close_client_socket_fuel p sends 2) msg b
          (close_fuel-kept 2) v)
        v

  pub send_conns_change-kept :
      (change : ℤ → ℤ) (b : Base)
      → P (record b { conns_count = change b.conns_count })
      → P (send_conns_change p sends change b)
  send_conns_change-kept change b v =
      let (c, e) =
        send_conns_change_by-Returns p sends (close_client_socket_fuel p sends 2) change b
          (λ fd _ _. close_client_socket_total p sends 0 fd _) in
      subst (λ o. P (or_default o b)) (sym e)
        (subst (OnSome P) e (
          send_conns_change_by-kept p sends P k.by_sending (close_client_socket_fuel p sends 2)
            change b (close_fuel-kept 2) v))
