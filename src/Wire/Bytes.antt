-- ===== src/Wire/Bytes.antt =====
-- Heads go through bytes and back (src/Tool/Message.cpp).
use ancestral_property_serve.Prelude.{
  ℕ, ◌^◌, ◌≤◌, ◌<◌, ◌≡◌, ◌↔◌, refl, true, some, List, ◌++◌, arith, ap,
}
use ancestral_property_serve.Config.{head_size, max_buffer_size}
use ancestral_property_serve.Wire.{
  MessageHead, int_to_byte, byte_to_int, parse_head, serialize_head, check_header_is_valid,
}

-- Fields that fit in 32 bits.
pub record IsHead (h : MessageHead) : Type 0 where
  pub size_word : h.m_package_size < 2 ^ 32
  pub type_word : h.m_package_type < 2 ^ 32
  pub userid_word : h.m_userid < 2 ^ 32

abbrev pub head_bytes : MessageHead → List ℕ
head_bytes h =
    int_to_byte h.m_package_size ++ (int_to_byte h.m_package_type ++ int_to_byte h.m_userid)

-- The bytes of a 32-bit value read back as that value, whatever follows them.
pub byte_to_int-int_to_byte :
    (x : ℕ) (rest : List ℕ) → x < 2 ^ 32 → byte_to_int (int_to_byte x ++ rest) ≡ some x
unfolding byte_to_int int_to_byte
byte_to_int-int_to_byte x rest h = ap some (omega arith)

-- A head that is written is read back, whatever follows it.
pub parse_head-serialize_head :
    (h : MessageHead) (rest : List ℕ)
    → IsHead h
    → (serialize_head h head_size ≡ some (head_bytes h))
      × (parse_head (head_bytes h ++ rest) head_size ≡ some h)
unfolding parse_head serialize_head int_to_byte
parse_head-serialize_head h rest v = (
  refl,
  rw (
    byte_to_int-int_to_byte h.m_package_size
        (int_to_byte h.m_package_type ++ (int_to_byte h.m_userid ++ rest)) v.size_word,
    byte_to_int-int_to_byte h.m_package_type (int_to_byte h.m_userid ++ rest) v.type_word,
    byte_to_int-int_to_byte h.m_userid rest v.userid_word,
  ),
)

-- CheckHeaderIsValid accepts sizes 12 to 1048576 and types 0 to 400, also against negative values.
pub check_header_is_valid_iff :
    (h : MessageHead)
    → IsHead h
    → (check_header_is_valid h ≡ true) ↔ (
        (head_size ≤ h.m_package_size)
        × (h.m_package_size ≤ max_buffer_size)
        × (h.m_package_type ≤ 400))
unfolding check_header_is_valid
check_header_is_valid_iff h v = (λ e. ground arith, λ e. ground arith)
