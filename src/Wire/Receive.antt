-- ===== src/Wire/Receive.antt =====
-- HandleReceivedMsg and HandleConnEvent of src/Source/ServerBase.cpp: how received bytes are cut
-- into packages.
use ancestral_property_serve.Prelude.{
  ℕ, zero, suc, ◌+◌, ◌-◌, Bool, true, false, ◌&&◌, Option, none, some, is_some, List, [], ◌∷◌, ltb,
  if◌then◌else◌, length, take, drop,
}
use ancestral_property_serve.Config.{head_size}
use ancestral_property_serve.Buffer.{
  RingBuffer, add_buffer, pop_buffer, get_buffer, get_capacity, sub_u32,
}
use ancestral_property_serve.Wire.{MessageHead, parse_head, check_header_is_valid}
use ancestral_property_serve.Wire.Body.{create_message_body}

-- What OnMsgBodyAnalysised is handed: the head and the bytes that the body is parsed from, none
-- where the type has no message class.
pub record Package : Type 0 where
  pub head : MessageHead
  pub body : List ℕ

-- The packages that were dispatched, in order, and whether the code then read outside its memory.
pub record Outcome : Type 0 where
  pub packages : List Package
  pub overrun : Bool

abbrev pub reads_body : MessageHead → Bool
reads_body h = is_some (create_message_body h.m_package_type)

abbrev dispatched : Package → Option Outcome → Option Outcome
dispatched p none = none
dispatched p (some o) = some (record o { packages = p ∷ o.packages })

-- The loop of HandleReceivedMsg. `recv` is the memory from the pointer on; buffer_size is a
-- uint32_t, which wraps. `none` is fuel run out.
unfoldable pub receive_loop : ℕ → List ℕ → ℕ → Option Outcome
receive_loop zero recv buffer_size = none
receive_loop (suc fuel) recv buffer_size =
    if ltb buffer_size head_size
    then some (record { packages = []; overrun = false })
    else elim (parse_head recv head_size) [
      | none ↦ some (record { packages = []; overrun = true })
      | some h ↦
          (let next =
              receive_loop fuel (drop h.m_package_size recv)
                (sub_u32 buffer_size h.m_package_size) in
            let body =
              if reads_body h
              then take (h.m_package_size - head_size) (drop head_size recv)
              else [] in
            let stop = receive_loop fuel recv 0 in
            if check_header_is_valid h
            then if reads_body h && ltb (length recv) h.m_package_size
              then some (record { packages = []; overrun = true })
              else dispatched (record { head = h; body = body }) next
            else stop)
    ]

-- Every round but the last takes at least a head, so the number of bytes is fuel enough
-- (Wire/Framing).
unfoldable pub handle_received_msg : RingBuffer → Option (Outcome × RingBuffer)
handle_received_msg r =
    let size = get_capacity r in
    elim (receive_loop (size + 2) (get_buffer size r) size) [
      | none ↦ none
      | some o ↦ some (o, (pop_buffer (get_capacity r) r).1)
    ]

-- What a call of recv gives: some bytes, EAGAIN or EWOULDBLOCK, another error, or an end of file.
pub data RecvResult : Type 0 where
  received : List ℕ → RecvResult
  would_block failed closed : RecvResult

-- What HandleConnEvent comes to: it hands on what it has read, or closes the connection.
pub data ConnEvent : Type 0 where
  handles : RingBuffer → ConnEvent
  closes : ConnEvent

-- The reading loop. Where the buffer is full `errno` is that of an earlier call, `stale`: true if
-- it is EAGAIN or EWOULDBLOCK. A list that ends stands for a connection with nothing more to read.
unfoldable pub handle_conn_event : Bool → List RecvResult → RingBuffer → ConnEvent
handle_conn_event stale [] r = handles r
handle_conn_event stale (would_block ∷ rs) r = handles r
handle_conn_event stale (failed ∷ rs) r = closes
handle_conn_event stale (closed ∷ rs) r = closes
handle_conn_event stale (received bytes ∷ rs) r =
    let (added, r') = add_buffer bytes r in
    elim added [
      | true ↦ handle_conn_event stale rs r'
      | false ↦ if stale then handles r else closes
    ]
