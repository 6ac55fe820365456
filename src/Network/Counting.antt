-- ===== src/Network/Counting.antt =====
-- The count of connections that src/Source/ServerBase.cpp reports, and src/Source/FuncServer.cpp turns
-- into a level.
use ancestral_property_serve.Prelude.{
  ℕ, suc, ◌+◌, sucℤ, predℤ, ◌⊖◌, sucℤ-⊖, predℤ-⊖, suc⊖suc, Bool, true, false, ◌≡◌, ◌∙◌, ap, subst,
  sym, Option, none, some, List, Sorted, length, contains, erase, lookup-erase, if◌then◌else◌,
  ==_refl, arith,
}
use ancestral_property_serve.Prelude.Sizes.{
  insert-Sorted, erase-Sorted, length-insert, length-erase,
}
use ancestral_property_serve.Config.{max_buffer_size}
use ancestral_property_serve.Enums.{ServerType}
use ancestral_property_serve.Buffer.{new_ring_buffer}
use ancestral_property_serve.Network.{
  Coder, Base, is_gate, new_connection, close_client_socket, send_conns_change,
  handle_listener_event,
}
use ancestral_property_serve.Network.Links.{handle_server_info, linked, retry}
use ancestral_property_serve.Network.Keeping.{
  IsKept, close_client_socket-kept, send_conns_change-kept,
}

-- The count is that of the connections, with `extra` that are none and without `uncounted`.
pub record IsCounted (extra uncounted : ℕ) (b : Base) : Type 0 where
  pub sorted : Sorted b.connections
  pub count : b.conns_count ≡ (length b.connections + extra) ⊖ uncounted

abbrev pub Absent : ℕ → Base → Type 0
Absent fd b = contains fd b.connections ≡ false

Absent-IsKept : (fd : ℕ) → IsKept (Absent fd)
Absent-IsKept fd = record {
  by_sending = λ b l v. v;
  by_closing = λ b k known v. ground (arith, v, lookup-erase k fd b.connections);
}

pub IsCounted-IsKept : (x y : ℕ) → IsKept (IsCounted x y)
IsCounted-IsKept x y = record {
  by_sending = λ b l v. record { sorted = v.sorted; count = v.count };
  by_closing = λ b fd known v. record {
    sorted = erase-Sorted fd b.connections v.sorted;
    count =
        ap predℤ v.count
        ∙ predℤ-⊖ (length b.connections + x) y
        ∙ ap (λ n. n ⊖ suc y) (erased b fd known v.sorted)
        ∙ suc⊖suc (length (erase fd b.connections) + x) y;
  };
}
  where
    erased :
        (b : Base) (fd : ℕ)
        → contains fd b.connections ≡ true
        → Sorted b.connections
        → length b.connections + x ≡ suc (length (erase fd b.connections) + x)
    erased b fd known s = ground (arith, known, length-erase 0 fd b.connections s)

-- A connection that is put in with its count already in.
insert-IsCounted :
    (fd x y : ℕ) (memory : List ℕ) (b : Base)
    → Absent fd b
    → IsCounted (suc x) y b
    → IsCounted x y (new_connection fd memory b)
insert-IsCounted fd x y memory b new v = record {
  sorted = insert-Sorted fd _ b.connections v.sorted;
  count =
      v.count
      ∙ ap (λ n. n ⊖ y)
          (ground (
            arith,
            new,
            length-insert 0 fd (new_ring_buffer max_buffer_size memory) b.connections v.sorted,
          ));
}

-- One that is put in and not counted.
pub uncounted-IsCounted :
    (fd x y : ℕ) (memory : List ℕ) (b : Base)
    → Absent fd b
    → IsCounted x y b
    → IsCounted x (suc y) (new_connection fd memory b)
uncounted-IsCounted fd x y memory b new v = record {
  sorted = insert-Sorted fd _ b.connections v.sorted;
  count =
      v.count
      ∙ sym (suc⊖suc (length b.connections + x) y)
      ∙ ap (λ n. n ⊖ suc y)
          (ground (
            arith,
            new,
            length-insert 0 fd (new_ring_buffer max_buffer_size memory) b.connections v.sorted,
          ));
}

raised-IsCounted :
    (x y : ℕ) (b : Base)
    → IsCounted x y b
    → IsCounted (suc x) y (record b { conns_count = sucℤ b.conns_count })
raised-IsCounted x y b v = record {
  sorted = v.sorted;
  count = ap sucℤ v.count ∙ sucℤ-⊖ (length b.connections + x) y ∙ ap (λ n. n ⊖ y) (omega arith);
}

module _ (p : Coder) where
  -- Fields that the count is not about.
  pub with_clients :
      (x y : ℕ) (b : Base) (center logic db : Option ℕ)
      → IsCounted x y b
      → IsCounted x y (record b {
        center_server_client = center;
        logic_server_client = logic;
        db_server_client = db;
      })
  with_clients x y b center logic db v = record { sorted = v.sorted; count = v.count }

  retried :
      (sends : ℕ → Bool) (x y : ℕ) (b : Base) → IsCounted x y b → IsCounted x y (retry p sends b)
  retried sends x y b v = record { sorted = v.sorted; count = v.count }

  if_both :
      (P : ℕ → Base → Type 0) (t : Bool) (m n : ℕ) (a b : Base)
      → P m a
      → P n b
      → P (if t then m else n) (if t then a else b)
  if_both P true m n a b u v = u
  if_both P false m n a b u v = v

  -- Both numbers may be one less.
  lowered-IsCounted : (x y : ℕ) (b : Base) → IsCounted (suc x) (suc y) b → IsCounted x y b
  lowered-IsCounted x y b v = record {
    sorted = v.sorted;
    count = v.count ∙ ap (λ n. n ⊖ suc y) (omega arith) ∙ suc⊖suc (length b.connections + x) y;
  }

  listener_event-eq :
      (sends : ℕ → Bool) (conn : ℕ) (added : Bool) (memory : List ℕ) (b : Base)
      → handle_listener_event p sends b.listen_fd (some conn) added memory b ≡ (
          if added
          then new_connection conn memory (send_conns_change p sends sucℤ b)
          else close_client_socket p sends conn (send_conns_change p sends sucℤ b))
  unfolding handle_listener_event
  listener_event-eq sends conn added memory b =
      ap
        (λ t.
          if t
          then if added
            then new_connection conn memory (send_conns_change p sends sucℤ b)
            else close_client_socket p sends conn (send_conns_change p sends sucℤ b)
          else b)
        (==_refl b.listen_fd)

  pub accepts-IsCounted :
      (sends : ℕ → Bool) (conn x y : ℕ) (added : Bool) (memory : List ℕ) (b : Base)
      → Absent conn b
      → IsCounted x y b
      → IsCounted
          (if added then x else suc x)
          y
          (handle_listener_event p sends b.listen_fd (some conn) added memory b)
  accepts-IsCounted sends conn x y added memory b new v =
      let b1 = send_conns_change p sends sucℤ b in
      let new1 = send_conns_change-kept p sends (Absent conn) (Absent-IsKept conn) sucℤ b new in
      let v1 =
        send_conns_change-kept p sends (IsCounted (suc x) y) (IsCounted-IsKept (suc x) y) sucℤ b
          (raised-IsCounted x y b v) in
      subst (IsCounted (if added then x else suc x) y)
        (sym (listener_event-eq sends conn added memory b))
        (if_both (λ n c. IsCounted n y c) added x (suc x) _ _
          (insert-IsCounted conn x y memory b1 new1 v1)
          (close_client_socket-kept p sends (IsCounted (suc x) y) (IsCounted-IsKept (suc x) y) conn
            b1 v1))

  linked-IsCounted :
      (sends : ℕ → Bool) (fd x y : ℕ) (memory : List ℕ) (b : Base)
      → Absent fd b
      → IsCounted x y b
      → IsCounted x (if is_gate b.server_type then suc y else y) (linked p sends fd memory b)
  linked-IsCounted sends fd x y memory b new v =
      let b1 = new_connection fd memory b in
      let v1 = uncounted-IsCounted fd x y memory b new v in
      if_both (λ n c. IsCounted x n c) (is_gate b.server_type) (suc y) y _ _ v1
        (send_conns_change-kept p sends (IsCounted x y) (IsCounted-IsKept x y) sucℤ b1
          (lowered-IsCounted x y _ (raised-IsCounted x (suc y) b1 v1)))

  pub server_info-IsCounted :
      (sends : ℕ → Bool) (fd x y : ℕ) (memory : List ℕ) (b : Base)
      → Absent fd b
      → IsCounted x y b
      → (b.logic_server_client ≡ none
          → IsCounted x
              (if is_gate b.server_type then suc y else y)
              (handle_server_info p sends ServerType.logic (some fd) true memory b))
        × (b.db_server_client ≡ none
            → IsCounted x
                (if is_gate b.server_type then suc y else y)
                (handle_server_info p sends ServerType.database (some fd) true memory b))
  unfolding handle_server_info
  server_info-IsCounted sends fd x y memory b new v = (
    λ e.
        rw (e, handle_server_info)
          (retried sends x _ _ (
            linked-IsCounted sends fd x y memory _ new
              (with_clients x y b b.center_server_client (some fd) b.db_server_client v))),
    λ e.
        rw (e, handle_server_info)
          (retried sends x _ _ (
            linked-IsCounted sends fd x y memory _ new
              (with_clients x y b b.center_server_client b.logic_server_client (some fd) v))),
  )
