-- ===== src/Gate/Rounds.antt =====
-- CheckAllClientConn of src/Source/GateServer.cpp ends: it goes over each client once, and stops at an
-- entry that it puts in itself.
use ancestral_property_serve.Prelude.{
  ℕ, zero, suc, ◌+◌, ◌≡◌, ◌≤◌, ◌<◌, ◌∙◌, refl, ap, Option, none, some, [], ◌∷◌, Map, insert, erase,
  length, ltb, if◌then◌else◌, if_keeps, Bool-cases, Option-cases, inl, inr, true, is_some,
  or_default, arith,
}
use ancestral_property_serve.Config.{max_heartbeat_diff}
use ancestral_property_serve.Gate.{Gate, Pointer, ClientInfo, close_client_socket}
use ancestral_property_serve.Gate.Heartbeat.{
  entry_from, delete_at, drop_client, check_from, check_all_client_conn, close_client_socket-Same,
}

abbrev alive : Pointer → ℕ
alive (Pointer.live c) = 1
alive Pointer.null = 0
alive Pointer.freed = 0

-- The clients that the loop has still before it.
live_from : ℕ → Map Pointer → ℕ
live_from from [] = 0
live_from from ((k, v) ∷ m) = (if ltb k from then 0 else alive v) + live_from from m

live_from_mono : (a b : ℕ) (m : Map Pointer) → a ≤ b → live_from b m ≤ live_from a m
unfolding live_from
live_from_mono a b [] h = omega arith
live_from_mono a b ((k, v) ∷ m) h = ground (arith, live_from_mono a b m h)

live_from-insert :
    (from k : ℕ) (v : Pointer) (m : Map Pointer)
    → alive v ≡ 0
    → live_from from (insert k v m) ≤ live_from from m
unfolding live_from insert
live_from-insert from k v [] h = ground (arith, h)
live_from-insert from k v ((j, w) ∷ m) h = ground (arith, h, live_from-insert from k v m h)

live_from-erase : (from k : ℕ) (m : Map Pointer) → live_from from (erase k m) ≤ live_from from m
unfolding live_from erase
live_from-erase from k [] = omega arith
live_from-erase from k ((j, w) ∷ m) = ground (arith, live_from-erase from k m)

live_from-length : (from : ℕ) (m : Map Pointer) → live_from from m ≤ length m
unfolding live_from
live_from-length from [] = omega arith
live_from-length from ((k, Pointer.live c) ∷ m) = ground (arith, live_from-length from m)
live_from-length from ((k, Pointer.null) ∷ m) = ground (arith, live_from-length from m)
live_from-length from ((k, Pointer.freed) ∷ m) = ground (arith, live_from-length from m)

key_of : Option (ℕ × Pointer) → ℕ
key_of none = 0
key_of (some (k, v)) = k

alive_of : Option (ℕ × Pointer) → ℕ
alive_of none = 0
alive_of (some (k, v)) = alive v

entry_from-later :
    (from k : ℕ) (c : ClientInfo) (m : Map Pointer)
    → entry_from from m ≡ some (k, Pointer.live c)
    → (from ≤ k) × (live_from (suc k) m < live_from from m)
unfolding entry_from live_from key_of alive_of
entry_from-later from k c [] e = ground (arith, e)
entry_from-later from k c ((j, v) ∷ m) e = elim (Bool-cases (ltb j from)) [
  | inl h ↦
      (let rest : entry_from from m ≡ some (k, Pointer.live c) = ground (arith, h, e) in
        let (a, b) = entry_from-later from k c m rest in (a, ground (arith, h, a, b)))
  | inr h ↦
      (let here : ◌≡◌ {A = Option (ℕ × Pointer)} (some (j, v)) (some (k, Pointer.live c)) =
          ground (arith, h, e) in
        let same : j ≡ k = ap key_of here in
        let one : alive v ≡ 1 = ap alive_of here in
        (ground (arith, h, same), ground (arith, h, same, one, live_from_mono from (suc k) m)))
]

live_from-delete_at :
    (from k : ℕ) (g : Gate)
    → live_from from (delete_at k g).user_connections ≤ live_from from g.user_connections
unfolding delete_at
live_from-delete_at from k g = ground (
  arith,
  live_from-insert from k Pointer.null g.user_connections refl,
  live_from-insert from k Pointer.freed g.user_connections refl,
)

live_from-drop_client :
    (from k : ℕ) (c : ClientInfo) (g : Gate)
    → live_from from (drop_client k c g).user_connections ≤ live_from from g.user_connections
unfolding drop_client
live_from-drop_client from k c g =
    let h = close_client_socket c.m_fd g in
    omega (
      arith,
      live_from-erase from k (delete_at c.m_fd h).user_connections,
      live_from-delete_at from c.m_fd h,
      ap (live_from from) (close_client_socket-Same c.m_fd g),
    )

-- After a round at a client there are fewer of them to come.
fewer_left :
    (now from k fuel : ℕ) (c : ClientInfo) (g : Gate)
    → entry_from from g.user_connections ≡ some (k, Pointer.live c)
    → live_from from g.user_connections < suc fuel
    → live_from
        (suc k)
        (if ltb (c.m_lst_ms + max_heartbeat_diff) now
          then drop_client k c g
          else g).user_connections
      < fuel
fewer_left now from k fuel c g e h =
    let fewer =
      if_keeps (λ d. live_from (suc k) d.user_connections ≤ live_from (suc k) g.user_connections)
        (ltb (c.m_lst_ms + max_heartbeat_diff) now) {x = drop_client k c g} {y = g}
        (λ _. live_from-drop_client (suc k) k c g) (λ _. omega arith) in
    let left = (entry_from-later from k c g.user_connections e).1 in omega (arith, fewer, left, h)

-- Once the fuel is more than the clients that are left, more of it changes nothing.
check_from-enough :
    (fuel now from : ℕ) (g : Gate)
    → live_from from g.user_connections < fuel
    → check_from (suc fuel) now from g ≡ check_from fuel now from g
unfolding check_from
check_from-enough zero now from g h = ground (arith, h)
check_from-enough (suc fuel) now from g h =
    elim (Option-cases (entry_from from g.user_connections)) [
      | inl e ↦ rw (e, check_from) refl
      | inr ((k, Pointer.null), e) ↦ rw (e, check_from) refl
      | inr ((k, Pointer.freed), e) ↦ rw (e, check_from) refl
      | inr ((k, Pointer.live c), e) ↦
          rw (e, check_from)
            (check_from-enough fuel now (suc k)
              (if ltb (c.m_lst_ms + max_heartbeat_diff) now then drop_client k c g else g)
              (fewer_left now from k fuel c g e h))
    ]

check_from-returns :
    (fuel now from : ℕ) (g : Gate)
    → live_from from g.user_connections < fuel
    → is_some (check_from fuel now from g) ≡ true
unfolding check_from
check_from-returns zero now from g h = ground (arith, h)
check_from-returns (suc fuel) now from g h =
    elim (Option-cases (entry_from from g.user_connections)) [
      | inl e ↦ rw (e, check_from) refl
      | inr ((k, Pointer.null), e) ↦ rw (e, check_from) refl
      | inr ((k, Pointer.freed), e) ↦ rw (e, check_from) refl
      | inr ((k, Pointer.live c), e) ↦
          rw (e, check_from)
            (check_from-returns fuel now (suc k)
              (if ltb (c.m_lst_ms + max_heartbeat_diff) now then drop_client k c g else g)
              (fewer_left now from k fuel c g e h))
    ]

returned : {A : Type 0} (o : Option A) (d : A) → is_some o ≡ true → o ≡ some (or_default o d)
returned none d h = ground (arith, h)
returned (some a) d h = refl

-- The loop of CheckAllClientConn comes to its end, from any clients and at any time, within one round
-- more than there are clients and one to find the end; and a longer run of it has the same result.
pub check_all_client_conn_total :
    (extra now : ℕ) (g : Gate)
    → check_from (extra + (length g.user_connections + 2)) now 0 g
      ≡ some (check_all_client_conn now g)
check_all_client_conn_total zero now g =
    ap (λ n. check_from n now 0 g) (omega arith)
    ∙ returned (check_from (length g.user_connections + 2) now 0 g) g (
        check_from-returns (length g.user_connections + 2) now 0 g
          (omega (arith, live_from-length 0 g.user_connections)))
check_all_client_conn_total (suc extra) now g =
    ap (λ n. check_from n now 0 g) (omega arith)
    ∙ check_from-enough (extra + (length g.user_connections + 2)) now 0 g
        (omega (arith, live_from-length 0 g.user_connections))
    ∙ check_all_client_conn_total extra now g
