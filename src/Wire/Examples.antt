-- ===== src/Wire/Examples.antt =====
-- Concrete packages on which the theorems about src/Source/ServerBase.cpp and src/Tool/Message.cpp
-- apply.
use ancestral_property_serve.Prelude.{
  ℕ, ◌+◌, ◌≡◌, refl, true, false, some, is_some, List, [], ◌∷◌, ◌++◌, length, arith, lookup,
}
use ancestral_property_serve.Enums.{body_type_code}
use ancestral_property_serve.Buffer.{RingBuffer, read_bytes, get_buffer}
use ancestral_property_serve.Buffer.Invariant
use ancestral_property_serve.Buffer.Fifo.{contents}
use ancestral_property_serve.Wire.{MessageHead, check_header_is_valid, int_to_byte}
use ancestral_property_serve.Wire.Bytes.{IsHead, head_bytes}
use ancestral_property_serve.Wire.Body.{
  Protobuf, BodyKind, create_message_body, serialize_message, decode_message, new_message,
}
use ancestral_property_serve.Wire.Receive.{Package, receive_loop, handle_received_msg, reads_body}
use ancestral_property_serve.Wire.Framing.{IsPackage, all_bytes, receive_loop_total}
use ancestral_property_serve.Wire.Split.{framing, cut_package_overruns}
use ancestral_property_serve.Wire.Messages.{decode-serialize}

-- A JoinRoom package of user 77, with a body of two bytes.
abbrev head : MessageHead
head = record { m_package_size = 14; m_package_type = 5; m_userid = 77 }

abbrev joining : Package
joining = record { head = head; body = 8 ∷ 9 ∷ [] }

head-IsHead : IsHead head
head-IsHead = record { size_word = omega arith; type_word = omega arith; userid_word = omega arith }

head_accepted : check_header_is_valid head ≡ true
unfolding check_header_is_valid body_type_code
head_accepted = refl

head_typed : reads_body head ≡ true
unfolding create_message_body body_type_code lookup
head_typed = refl

joining-IsPackage : IsPackage joining
joining-IsPackage = record {
  head_word = head-IsHead;
  accepted = head_accepted;
  sized = refl;
  typed = head_typed;
}

abbrev filled : List ℕ → RingBuffer
filled bytes = record {
  max = length bytes + 1;
  buffer = bytes ++ 0 ∷ [];
  begin = 0;
  end = length bytes;
  remain = 1;
  capacity = length bytes;
}

abbrev one : List ℕ
one = 0 ∷ 0 ∷ 0 ∷ 14 ∷ 0 ∷ 0 ∷ 0 ∷ 5 ∷ 0 ∷ 0 ∷ 0 ∷ 77 ∷ 8 ∷ 9 ∷ []

one-IsValid : Invariant.IsValid (filled one)
one-IsValid = record {
  max_pos = omega arith;
  max_int = omega arith;
  allocated = refl;
  begin_in = omega arith;
  total = refl;
  end_at = refl;
}

one_bytes : contents (filled one) ≡ all_bytes (joining ∷ [])
unfolding read_bytes int_to_byte get_buffer
one_bytes = refl

framing_example :
    (r' : RingBuffer) × (handle_received_msg (filled one)
      ≡ some (record { packages = joining ∷ []; overrun = false }, r'))
    × (contents r' ≡ [])
framing_example = framing (filled one) (joining ∷ []) one-IsValid (joining-IsPackage, tt) one_bytes

-- The same head with one byte of its body.
abbrev cut : List ℕ
cut = 0 ∷ 0 ∷ 0 ∷ 14 ∷ 0 ∷ 0 ∷ 0 ∷ 5 ∷ 0 ∷ 0 ∷ 0 ∷ 77 ∷ 8 ∷ []

cut-IsValid : Invariant.IsValid (filled cut)
cut-IsValid = record {
  max_pos = omega arith;
  max_int = omega arith;
  allocated = refl;
  begin_in = omega arith;
  total = refl;
  end_at = refl;
}

cut_bytes : contents (filled cut) ≡ all_bytes [] ++ (head_bytes head ++ 8 ∷ [])
unfolding read_bytes int_to_byte get_buffer
cut_bytes = refl

cut_package_overruns_example :
    (r' : RingBuffer) × (handle_received_msg (filled cut)
      ≡ some (record { packages = []; overrun = true }, r'))
cut_package_overruns_example =
    cut_package_overruns (filled cut) [] head (8 ∷ []) cut-IsValid tt cut_bytes head-IsHead
      head_accepted head_typed (omega arith)

receive_loop_total_example : is_some (receive_loop 16 one 14) ≡ true
receive_loop_total_example = receive_loop_total 16 one 14 (omega arith)

-- A message is its class and its bytes.
abbrev plain : Protobuf
plain = record {
  Payload = BodyKind × List ℕ;
  kind = λ p. p.0;
  serialize = λ p. p.1;
  parse = λ k bytes. (true, (k, bytes));
  parse-serialize = λ p. refl;
}

join_kind : create_message_body 5 ≡ some BodyKind.join_room
unfolding create_message_body body_type_code lookup
join_kind = refl

decode-serialize_example :
    let m = new_message plain 5 77 (BodyKind.join_room, 8 ∷ 9 ∷ []) in
    (bytes : List ℕ) × (serialize_message plain m m.head.m_package_size ≡ some bytes)
    × (length bytes ≡ m.head.m_package_size)
    × (decode_message plain bytes ≡ some m)
decode-serialize_example =
    decode-serialize plain 5 77 (BodyKind.join_room, 8 ∷ 9 ∷ []) join_kind (omega arith)
      (omega arith) (omega arith)
