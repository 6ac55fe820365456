-- ===== src/Wire/Messages.antt =====
-- A message that is built by one of the New…Message functions, serialized and decoded
-- (src/Tool/Message.cpp, src/Header/Message/MessageUtils.h).
use ancestral_property_serve.Prelude.{
  ℕ, ◌+◌, ◌^◌, ◌<◌, ◌≡◌, ◌∙◌, ap, true, some, List, ◌++◌, length, length-append, arith,
}
use ancestral_property_serve.Config.{head_size}
use ancestral_property_serve.Wire.{MessageHead}
use ancestral_property_serve.Wire.Bytes.{IsHead, head_bytes, parse_head-serialize_head}
use ancestral_property_serve.Wire.Framing.{drop-head_bytes, length-head_bytes}
use ancestral_property_serve.Wire.Body.{
  Protobuf, create_message_body, serialize_message, decode_message, parse_body, new_message,
}

module _ (pb : Protobuf) where
  open pb use {Payload, kind, serialize, parse, parse-serialize}

  parse_body-serialize :
      (type : ℕ) (p : Payload)
      → create_message_body type ≡ some (kind p)
      → parse_body pb type (serialize p) ≡ (true, some p)
  unfolding parse_body
  parse_body-serialize type p e = rw (e, parse_body) (rw (parse-serialize p))

  -- What such a function builds is serialized into exactly the size in its head, and these bytes are
  -- decoded to the same message, if the type is one for the payload's class.
  pub decode-serialize :
      (type userid : ℕ) (p : Payload)
      → create_message_body type ≡ some (kind p)
      → type < 2 ^ 32
      → userid < 2 ^ 32
      → head_size + length (serialize p) < 2 ^ 31
      → let m = new_message pb type userid p in
        (bytes : List ℕ) × (serialize_message pb m m.head.m_package_size ≡ some bytes)
        × (length bytes ≡ m.head.m_package_size)
        × (decode_message pb bytes ≡ some m)
  unfolding new_message serialize_message decode_message
  decode-serialize type userid p e t u small =
      let h : MessageHead = record {
        m_package_size = head_size + length (serialize p);
        m_package_type = type;
        m_userid = userid;
      } in
      let word : IsHead h = record { size_word = omega arith; type_word = t; userid_word = u } in
      let io = parse_head-serialize_head h (serialize p) word in
      let body = parse_body-serialize type p e in
      let behind = drop-head_bytes h (serialize p) in
      (
        head_bytes h ++ serialize p,
        ground arith,
        length-append (head_bytes h) (serialize p)
            ∙ ap (λ n. n + length (serialize p)) (length-head_bytes h),
        rw (io.1, decode_message) (rw (behind, decode_message) (rw (body, decode_message))),
      )
