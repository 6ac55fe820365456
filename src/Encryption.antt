-- ===== src/Encryption.antt =====
-- Encryption (src/Header/Tool/Encryption.hpp): the token of a login. A std::string is the list of its
-- bytes, and uint32_t is computed mod 2 ^ 32. `draw` is what the random generator gives.
pub mod Collisions
mod Examples
use ancestral_property_serve.Prelude.{
  ℕ, zero, suc, ◌+◌, ◌-◌, ◌*◌, ◌/◌, ◌%◌, ◌^◌, List, [], ◌∷◌, length, ltb, ◌==◌, if◌then◌else◌,
}

-- `(uint32_t)it` of a char, which is signed: a byte from 128 on is extended by its sign.
abbrev pub widen : ℕ → ℕ
widen c = if ltb c 128 then c else 2 ^ 32 - 256 + c

-- `_hash_redix_` and `_hash_ret_`.
pub record Hash : Type 0 where
  pub radix : ℕ
  pub ret : ℕ

-- One of the loops over a text.
unfoldable pub hash_text : List ℕ → Hash → Hash
hash_text [] h = h
hash_text (c ∷ cs) h =
    hash_text cs
      (record { radix = (h.radix * 114514) % 2 ^ 32; ret = (h.ret + h.radix * widen c) % 2 ^ 32 })

-- std::to_string, at no more than `fuel` digits.
unfoldable pub digits : ℕ → ℕ → List ℕ → List ℕ
digits zero n acc = acc
digits (suc fuel) n acc =
    let more = digits fuel (n / 10) ((48 + n % 10) ∷ acc) in
    if ltb n 10 then (48 + n) ∷ acc else more

-- A uint32_t has at most ten digits.
abbrev pub to_string : ℕ → List ℕ
to_string n = digits 10 n []

unfoldable pub generation_suffix : List ℕ → List ℕ → List ℕ
unfolding hash_text digits
generation_suffix username passwd =
    to_string (hash_text passwd (hash_text username (record { radix = 1; ret = 0 }))).ret

unfoldable pub generate_token : List ℕ → List ℕ → ℕ → ℕ
unfolding hash_text generation_suffix
generate_token username passwd draw =
    let named = hash_text username (record { radix = 1; ret = 0 }) in
    let scaled : Hash = record named { ret = (named.ret * length username) % 2 ^ 32 } in
    ((hash_text (generation_suffix username passwd) (hash_text passwd scaled)).ret * draw) % 2 ^ 32
