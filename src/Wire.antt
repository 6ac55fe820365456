-- ===== src/Wire.antt =====
-- The package format between the servers: src/Header/Message/MessageUtils.h,
-- src/Header/Message/Message.h and src/Tool/Message.cpp.
-- An int or uint32_t is its 32-bit pattern, a number below 2 ^ 32. A read outside the memory of a
-- list is `none`.
pub mod Bytes
pub mod Body
pub mod Receive
pub mod Framing
pub mod Split
pub mod Messages
mod Examples
use ancestral_property_serve.Prelude.{
  ℕ, ◌+◌, ◌-◌, ◌*◌, ◌/◌, ◌%◌, ◌^◌, Bool, true, false, Option, none, some, List, [], ◌∷◌, ◌++◌, ltb,
  leb, if◌then◌else◌, drop,
}
use ancestral_property_serve.Config.{head_size, head_size_s, max_buffer_size}
use ancestral_property_serve.Enums.{body_type_code, BodyType}

-- IntToByte and UintToByte: the most significant byte comes first.
unfoldable pub int_to_byte : ℕ → List ℕ
int_to_byte x = x / 2 ^ 24 % 256 ∷ x / 2 ^ 16 % 256 ∷ x / 2 ^ 8 % 256 ∷ x % 256 ∷ []

-- `(ret << 8) + x`
abbrev shift_in : ℕ → ℕ → ℕ
shift_in ret x = (ret * 2 ^ 8 + x) % 2 ^ 32

-- ByteToInt and ByteToUint, of the first four bytes of the memory.
unfoldable pub byte_to_int : List ℕ → Option ℕ
byte_to_int (a ∷ b ∷ c ∷ d ∷ rest) = some (shift_in (shift_in (shift_in (shift_in 0 a) b) c) d)
byte_to_int _ = none

pub record MessageHead : Type 0 where
  pub m_package_size : ℕ
  pub m_package_type : ℕ
  pub m_userid : ℕ

-- MessageHead(const uint8_t *buffer, int len).
unfoldable pub parse_head : List ℕ → ℕ → Option MessageHead
parse_head buffer len =
    if ltb len head_size
    then some (record {
      m_package_size = 0;
      m_package_type = body_type_code BodyType.error_package;
      m_userid = 0;
    })
    else elim (byte_to_int buffer) [
      | none ↦ none
      | some size ↦ elim (byte_to_int (drop head_size_s buffer)) [
        | none ↦ none
        | some type ↦ elim (byte_to_int (drop (2 * head_size_s) buffer)) [
          | none ↦ none
          | some userid ↦
              some (record { m_package_size = size; m_package_type = type; m_userid = userid })
        ]
      ]
    ]

-- SerailizeToArray: the bytes that are written, `none` where it returns false.
unfoldable pub serialize_head : MessageHead → ℕ → Option (List ℕ)
serialize_head h len =
    if ltb len head_size
    then none
    else some
        (int_to_byte h.m_package_size ++ (int_to_byte h.m_package_type ++ int_to_byte h.m_userid))

-- The order of ints on their patterns.
abbrev pub lt_int : ℕ → ℕ → Bool
lt_int a b = ltb ((a + 2 ^ 31) % 2 ^ 32) ((b + 2 ^ 31) % 2 ^ 32)

unfoldable pub check_header_is_valid : MessageHead → Bool
unfolding body_type_code
check_header_is_valid h =
    if lt_int h.m_package_size head_size
    then false
    else if lt_int max_buffer_size h.m_package_size
    then false
    else if lt_int h.m_package_type (body_type_code BodyType.login_request)
    then false
    else if lt_int (body_type_code BodyType.error_token) h.m_package_type
    then false
    else true
