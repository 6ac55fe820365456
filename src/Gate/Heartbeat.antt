-- ===== src/Gate/Heartbeat.antt =====
-- CheckAllClientConn of src/Source/GateServer.cpp, which closes the clients that have sent no heartbeat
-- for a while.
use ancestral_property_serve.Prelude.{
  ℕ, zero, suc, ◌+◌, ◌≡◌, ◌≢◌, ◌<◌, ◌∙◌, refl, ap, subst, sym, true, Option, none, some, List, [],
  ◌∷◌, Map, lookup, insert, erase, length, ltb, contains, if◌then◌else◌, if_keeps, keys, or_default,
  arith,
}
use ancestral_property_serve.Enums.{ServerType}
use ancestral_property_serve.Config.{max_heartbeat_diff}
use ancestral_property_serve.Gate.{
  is_client, Gate, Pointer, ClientInfo, send_msg, send_to, close_connection, apply_server_by_type,
  try_to_connect_available_server, close_user, disconnect_clients, close_client_socket, is_server,
}

-- The first entry whose key is at least `from`: where an iterator stands.
unfoldable pub entry_from : ℕ → Map Pointer → Option (ℕ × Pointer)
entry_from from [] = none
entry_from from ((k, v) ∷ m) =
    let rest = entry_from from m in if ltb k from then rest else some (k, v)

-- `delete m_user_connections[k]`: a missing key gets the null pointer, whose deletion does nothing.
unfoldable pub delete_at : ℕ → Gate → Gate
delete_at k g = elim (lookup k g.user_connections) [
  | none ↦ record g { user_connections = insert k Pointer.null g.user_connections }
  | some (Pointer.live c) ↦ record g {
    user_connections = insert k Pointer.freed g.user_connections;
  }
  | some Pointer.null ↦ g
  | some Pointer.freed ↦ record g { undefined = true }
]

-- The body of the loop for a client that is late.
unfoldable pub drop_client : ℕ → ClientInfo → Gate → Gate
drop_client k c g =
    let g1 = delete_at c.m_fd (close_client_socket c.m_fd g) in
    record g1 { user_connections = erase k g1.user_connections }

-- The loop from the entry at `from` on, `none` if it is not over when the fuel is out. It stops at a
-- pointer that may not be used.
unfoldable pub check_from : ℕ → ℕ → ℕ → Gate → Option Gate
check_from zero now from g = none
check_from (suc fuel) now from g = elim (entry_from from g.user_connections) [
  | none ↦ some g
  | some (k, Pointer.live c) ↦
      check_from fuel now (suc k)
        (if ltb (c.m_lst_ms + max_heartbeat_diff) now then drop_client k c g else g)
  | some (k, Pointer.null) ↦ some (record g { undefined = true })
  | some (k, Pointer.freed) ↦ some (record g { undefined = true })
]

-- Each round but one at a null pointer leaves an entry of the start behind.
abbrev pub check_all_client_conn : ℕ → Gate → Gate
check_all_client_conn now g = or_default (check_from (length g.user_connections + 2) now 0 g) g

-- Closing a socket leaves the heartbeats alone.
abbrev pub Same : Gate → Gate → Type 0
Same g h = h.user_connections ≡ g.user_connections

send_to-Same : (m : _) (o : Option ℕ) (g : Gate) → Same g (send_to m o g)
unfolding send_to send_msg
send_to-Same m none g = refl
send_to-Same m (some fd) g = ground arith

close_connection-Same : (fd : ℕ) (g : Gate) → Same g (close_connection fd g)
unfolding close_connection
close_connection-Same fd g =
    if_keeps (Same g) (contains fd g.connections) (λ _. send_to-Same _ g.center_server_client _)
      (λ _. refl)

-- What holds of both cases of an option holds of the case split.
elim_keeps :
    {A : Type 0} (P : Gate → Type 0) (o : Option A) {x : Gate} {y : A → Gate}
    → P x
    → ((a : A) → P (y a))
    → P (elim o [ none ↦ x | some a ↦ y a ])
elim_keeps P none h k = h
elim_keeps P (some a) h k = k a

apply_server_by_type-Same : (t : _) (g : Gate) → Same g (apply_server_by_type t g)
unfolding apply_server_by_type
apply_server_by_type-Same t g = send_to-Same _ g.center_server_client g

try_to_connect-Same : (g : Gate) → Same g (try_to_connect_available_server g)
unfolding try_to_connect_available_server
try_to_connect-Same g =
    let g1 : Gate = elim g.logic_server_client [
      | none ↦ apply_server_by_type ServerType.logic g
      | some _ ↦ g
    ] in
    let first : Same g g1 =
      elim_keeps (Same g) g.logic_server_client (apply_server_by_type-Same ServerType.logic g)
        (λ _. refl) in
    elim_keeps (Same g) g.db_server_client
      (apply_server_by_type-Same ServerType.database g1 ∙ first) (λ _. first)

close_user-Same : (fd : ℕ) (g : Gate) → Same g (close_user fd g)
unfolding close_user
close_user-Same fd g =
    let c = close_connection fd g in
    elim_keeps (Same g) (lookup fd c.fd_user_record) (close_connection-Same fd g)
      (λ u. send_to-Same _ c.logic_server_client c ∙ close_connection-Same fd g)

disconnect_clients-Same : (fds : List ℕ) (g : Gate) → Same g (disconnect_clients fds g)
unfolding disconnect_clients
disconnect_clients-Same [] g = refl
disconnect_clients-Same (fd ∷ fds) g =
    disconnect_clients-Same fds (if is_server g fd then g else close_user fd g)
    ∙ if_keeps (Same g) (is_server g fd) (λ _. refl) (λ _. close_user-Same fd g)

pub close_client_socket-Same : (fd : ℕ) (g : Gate) → Same g (close_client_socket fd g)
unfolding close_client_socket
close_client_socket-Same fd g =
    let c = close_connection fd g in
    if_keeps (Same g) (is_client g.logic_server_client fd)
      (λ _.
        try_to_connect-Same _
        ∙ disconnect_clients-Same (keys c.connections) c
        ∙ close_connection-Same fd g)
      (λ _.
        if_keeps (Same g) (is_client g.db_server_client fd)
          (λ _. try_to_connect-Same _ ∙ close_connection-Same fd g) (λ _. close_user-Same fd g))

delete_missing :
    (k : ℕ) (g : Gate)
    → lookup k g.user_connections ≡ none
    → (delete_at k g).user_connections ≡ insert k Pointer.null g.user_connections
unfolding delete_at
delete_missing k g e = ground (arith, e)

apart-eq :
    (u f : ℕ) (v : Pointer)
    → f ≢ u
    → (lookup f ((u, v) ∷ []) ≡ none)
      × (erase u (insert f Pointer.null ((u, v) ∷ [])) ≡ (f, Pointer.null) ∷ [])
unfolding lookup insert erase
apart-eq u f v apart = (ground (arith, apart), ground (arith, apart))

-- A client that is alone and late, and whose socket is not its user id.
drop_client-eq :
    (u : ℕ) (c : ClientInfo) (g : Gate)
    → g.user_connections ≡ (u, Pointer.live c) ∷ []
    → c.m_fd ≢ u
    → (drop_client u c g).user_connections ≡ (c.m_fd, Pointer.null) ∷ []
unfolding drop_client
drop_client-eq u c g e apart =
    let h = close_client_socket c.m_fd g in
    let kept : h.user_connections ≡ (u, Pointer.live c) ∷ [] =
      close_client_socket-Same c.m_fd g ∙ e in
    let (missing, left) = apart-eq u c.m_fd (Pointer.live c) apart in
    ap (erase u) (
      delete_missing c.m_fd h (ap (lookup c.m_fd) kept ∙ missing)
      ∙ ap (insert c.m_fd Pointer.null) kept)
    ∙ left

entry-eq :
    (from u : ℕ) (v : Pointer) (g : Gate)
    → g.user_connections ≡ (u, v) ∷ []
    → entry_from from g.user_connections ≡ (if ltb u from then none else some (u, v))
unfolding entry_from
entry-eq from u v g e = ap (entry_from from) e

alone-eq :
    (fuel now u : ℕ) (c : ClientInfo) (g : Gate)
    → g.user_connections ≡ (u, Pointer.live c) ∷ []
    → c.m_lst_ms + max_heartbeat_diff < now
    → check_from (suc fuel) now 0 g ≡ check_from fuel now (suc u) (drop_client u c g)
unfolding check_from
alone-eq fuel now u c g e late =
    let first : entry_from 0 g.user_connections ≡ some (u, Pointer.live c) =
      entry-eq 0 u (Pointer.live c) g e ∙ ground arith in
    let due : ltb (c.m_lst_ms + max_heartbeat_diff) now ≡ true = ground (arith, late) in
    rw (first, check_from) (rw due refl)

null-eq :
    (fuel now from f : ℕ) (g : Gate)
    → g.user_connections ≡ (f, Pointer.null) ∷ []
    → check_from (suc fuel) now from g
      ≡ some (if ltb f from then g else record g { undefined = true })
unfolding check_from
null-eq fuel now from f g e = ground (arith, entry-eq from f Pointer.null g e)

null-undefined :
    (now f : ℕ) (g : Gate)
    → g.user_connections ≡ (f, Pointer.null) ∷ []
    → (check_all_client_conn now g).undefined ≡ true
null-undefined now f g e =
    ap (λ n. (or_default (check_from (n + 2) now 0 g) g).undefined) (ap length e)
    ∙ ap (λ o. (or_default o g).undefined) (null-eq 2 now 0 f g e)
    ∙ ground arith

-- When the only client that has sent heartbeats is late, and its socket does not have the number of
-- its user id, CheckAllClientConn puts a null pointer into the map that it walks, and this check or
-- the next one uses it.
pub check_all_client_conn-undefined :
    (now later u : ℕ) (c : ClientInfo) (g : Gate)
    → g.user_connections ≡ (u, Pointer.live c) ∷ []
    → c.m_fd ≢ u
    → c.m_lst_ms + max_heartbeat_diff < now
    → (check_all_client_conn later (check_all_client_conn now g)).undefined ≡ true
check_all_client_conn-undefined now later u c g e apart late =
    let d = drop_client u c g in
    let ed = drop_client-eq u c g e apart in
    let after : check_all_client_conn now g
        ≡ (if ltb c.m_fd (suc u) then d else record d { undefined = true }) =
      ap (λ n. or_default (check_from (n + 2) now 0 g) g) (ap length e)
      ∙ ap (λ o. or_default o g)
          (alone-eq 2 now u c g e late ∙ null-eq 1 now (suc u) c.m_fd d ed) in
    null-undefined later c.m_fd (check_all_client_conn now g) (
      subst (λ h. h.user_connections ≡ (c.m_fd, Pointer.null) ∷ []) (sym after)
        (if_keeps (λ h. h.user_connections ≡ (c.m_fd, Pointer.null) ∷ []) (ltb c.m_fd (suc u))
          {x = d} {y = record d { undefined = true }} (λ _. ed) (λ _. ed)))
