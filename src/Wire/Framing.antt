-- ===== src/Wire/Framing.antt =====
-- One round of the receiving loop of src/Source/ServerBase.cpp, and packages as bytes.
use ancestral_property_serve.Prelude.{
  ℕ, zero, suc, ◌+◌, ◌-◌, ◌^◌, ◌≤◌, ◌<◌, ◌≡◌, refl, ◌∙◌, ap, sym, true, some, is_some, List, [],
  ◌∷◌, ◌++◌, append_assoc, length, length-append, take, drop, take-append, drop-append, length-drop,
  arith, Bool-cases, Option-cases, inl, inr,
}
use ancestral_property_serve.Config.{head_size}
use ancestral_property_serve.Buffer.{sub_u32}
use ancestral_property_serve.Wire.{
  byte_to_int, MessageHead, parse_head, check_header_is_valid, int_to_byte,
}
use ancestral_property_serve.Wire.Bytes.{IsHead, head_bytes, parse_head-serialize_head}
use ancestral_property_serve.Wire.Receive.{Package, Outcome, receive_loop, reads_body}

-- A package as a sender makes it: a head that is accepted and tells the length, and a body, which
-- only a type with a message class has.
pub record IsPackage (p : Package) : Type 0 where
  pub head_word : IsHead p.head
  pub accepted : check_header_is_valid p.head ≡ true
  pub sized : p.head.m_package_size ≡ head_size + length p.body
  pub typed : reads_body p.head ≡ true

abbrev pub package_bytes : Package → List ℕ
package_bytes p = head_bytes p.head ++ p.body

abbrev pub all_bytes : List Package → List ℕ
all_bytes [] = []
all_bytes (p ∷ ps) = package_bytes p ++ all_bytes ps

abbrev pub AllPackages : List Package → Type 0
AllPackages [] = Unit {0}
AllPackages (p ∷ ps) = IsPackage p × AllPackages ps

pub length-head_bytes : (h : MessageHead) → length (head_bytes h) ≡ head_size
unfolding int_to_byte
length-head_bytes h = refl

pub drop-head_bytes :
    (h : MessageHead) (rest : List ℕ) → drop head_size (head_bytes h ++ rest) ≡ rest
unfolding int_to_byte
drop-head_bytes h rest = refl

pub drop-eq : (n : ℕ) (xs ys : List ℕ) → n ≡ length xs → drop n (xs ++ ys) ≡ ys
drop-eq n xs ys e = rw e (drop-append xs ys)

take-eq : (n : ℕ) (xs ys : List ℕ) → n ≡ length xs → take n (xs ++ ys) ≡ xs
take-eq n xs ys e = rw e (take-append xs ys)

pub length-package_bytes : (p : Package) → length (package_bytes p) ≡ head_size + length p.body
length-package_bytes p =
    length-append (head_bytes p.head) p.body
    ∙ ap (λ n. n + length p.body) (length-head_bytes p.head)

byte_to_int-length : (xs : List ℕ) (x : ℕ) → byte_to_int xs ≡ some x → 4 ≤ length xs
unfolding byte_to_int
byte_to_int-length (a ∷ b ∷ c ∷ d ∷ xs) x e = omega arith
byte_to_int-length [] x e = ground arith
byte_to_int-length (a ∷ []) x e = ground arith
byte_to_int-length (a ∷ b ∷ []) x e = ground arith
byte_to_int-length (a ∷ b ∷ c ∷ []) x e = ground arith

pub parse_head-length :
    (recv : List ℕ) (h : MessageHead) → parse_head recv head_size ≡ some h → head_size ≤ length recv
unfolding parse_head
parse_head-length recv h e = elim (Option-cases (byte_to_int (drop 8 recv))) [
  | inl n ↦ ground arith
  | inr (x, s) ↦ omega (arith, byte_to_int-length (drop 8 recv) x s, length-drop 8 recv)
]

check-size : (h : MessageHead) → check_header_is_valid h ≡ true → head_size ≤ h.m_package_size
unfolding check_header_is_valid
check-size h e = ground arith

-- The loop ends on any memory, whatever the count says: each round but the last uses up a head's
-- worth of bytes, so fuel above their number plus one is enough.
pub receive_loop_total :
    (fuel : ℕ) (recv : List ℕ) (size : ℕ)
    → length recv + 1 < fuel
    → is_some (receive_loop fuel recv size) ≡ true
unfolding receive_loop
receive_loop_total zero recv size h = absurd (omega arith)
receive_loop_total (suc zero) recv size h = absurd (omega arith)
receive_loop_total (suc (suc fuel)) recv size h = elim (Option-cases (parse_head recv head_size)) [
  | inl e ↦ ground arith
  | inr (hd, e) ↦ elim (Bool-cases (check_header_is_valid hd)) [
    | inl c ↦
        (let more =
            receive_loop_total (suc fuel) (drop hd.m_package_size recv)
              (sub_u32 size hd.m_package_size)
              (omega (
                arith,
                length-drop hd.m_package_size recv,
                parse_head-length recv hd e,
                check-size hd c,
              )) in
          ground arith)
    | inr c ↦ ground arith
  ]
]

-- One whole package at the front is dispatched, and the loop goes on behind it.
pub receive-package :
    (fuel : ℕ) (p : Package) (rest : List ℕ) (size : ℕ)
    → IsPackage p
    → size ≡ length (package_bytes p ++ rest)
    → size < 2 ^ 32
    → (o : Outcome) → receive_loop fuel rest (length rest) ≡ some o
    → receive_loop (suc fuel) (package_bytes p ++ rest) size
      ≡ some (record o { packages = p ∷ o.packages })
unfolding receive_loop
receive-package fuel p rest size v e small o r =
    let all = append_assoc (head_bytes p.head) p.body rest in
    let parsed : parse_head (package_bytes p ++ rest) head_size ≡ some p.head =
      rw all (parse_head-serialize_head p.head (p.body ++ rest) v.head_word).1 in
    let body_at : drop head_size (package_bytes p ++ rest) ≡ p.body ++ rest =
      rw all (drop-head_bytes p.head (p.body ++ rest)) in
    let body_is : take (p.head.m_package_size - head_size) (p.body ++ rest) ≡ p.body =
      take-eq (p.head.m_package_size - head_size) p.body rest (omega (arith, v.sized)) in
    let rest_at : drop p.head.m_package_size (package_bytes p ++ rest) ≡ rest =
      drop-eq p.head.m_package_size (package_bytes p) rest
        (v.sized ∙ sym (length-package_bytes p)) in
    let lens : length (package_bytes p ++ rest) ≡ p.head.m_package_size + length rest =
      omega (arith, length-append (package_bytes p) rest, length-package_bytes p, v.sized) in
    let round : sub_u32 size p.head.m_package_size ≡ length rest = omega (arith, lens) in
    ground (arith, v.sized)
