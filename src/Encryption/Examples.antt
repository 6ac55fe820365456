-- ===== src/Encryption/Examples.antt =====
-- Concrete texts for the theorem about src/Header/Tool/Encryption.hpp, and a token by evaluation.
use ancestral_property_serve.Prelude.{ℕ, ◌≡◌, refl, List, [], ◌∷◌, replicate, arith}
use ancestral_property_serve.Encryption.{generate_token, generation_suffix, digits}
use ancestral_property_serve.Encryption.Collisions.{generate_token-ignores_passwd}

abbrev long_name : List ℕ
long_name = replicate 32 b'a'

generate_token-ignores_passwd_example :
    generate_token long_name (b's' ∷ []) 7 ≡ generate_token long_name (b'q' ∷ b'r' ∷ []) 7
generate_token-ignores_passwd_example =
    generate_token-ignores_passwd long_name (b's' ∷ []) (b'q' ∷ b'r' ∷ []) 7 (omega arith)

-- 97 + 114514 * 98 for "a" and "b".
suffix_ab : generation_suffix (b'a' ∷ []) (b'b' ∷ []) ≡ digits 10 11222469 []
unfolding generation_suffix
suffix_ab = refl
