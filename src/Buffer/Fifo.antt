-- ===== src/Buffer/Fifo.antt =====
-- A valid RingBuffer is a queue of bytes: AddBuffer appends, PopBuffer drops from the front and
-- GetBuffer reads without taking.
use ancestral_property_serve.Prelude.{
  ℕ, zero, suc, ◌+◌, ◌-◌, ◌%◌, ◌^◌, ◌≤◌, ◌<◌, ◌≡◌, ◌≢◌, refl, ◌∙◌, ap, ap₂, sym, Bool, true, false,
  List, [], ◌∷◌, ◌++◌, append_assoc, append-nil, length, length-set, set, get_or, get_or-set_self,
  get_or-set_ne, arith, if_keeps, ltb, take, drop,
}
use native.Mathlib.Nat.{mod-lt, mod-add-mod, mod-eq_of_lt, mod-eq-sub-mod, add-zero}
use native.Mathlib.Decide.{dec_lt}
use ancestral_property_serve.Buffer.{
  RingBuffer, add_u32, sub_u32, write_bytes, add_buffer, pop_buffer, read_bytes, get_buffer,
}
use ancestral_property_serve.Buffer.Invariant.{IsValid, end_in, Written, write_bytes-Written}

-- The stored bytes, oldest first: what HandleReceivedMsg reads.
abbrev pub contents : RingBuffer → List ℕ
contents r = get_buffer r.capacity r

pub length-read_bytes : (r : RingBuffer) (start n : ℕ) → length (read_bytes r start n) ≡ n
unfolding read_bytes
length-read_bytes r start zero = refl
length-read_bytes r start (suc n) = ap suc (length-read_bytes r (add_u32 start 1 % r.max) n)

-- Going on from an index by less than a whole round does not lead back to it.
round-ne : (max i k : ℕ) → i < max → suc k < max → (i + suc k) % max ≢ i
round-ne max i k hi hk = elim (dec_lt (i + suc k) max) [
  | yes below ↦ omega (arith, mod-eq_of_lt below)
  | no past ↦ omega (
    arith,
    mod-eq-sub-mod {n = i + suc k} {m = max} (omega arith),
    mod-eq_of_lt {n = i + suc k - max} {m = max} (omega arith),
  )
]

-- A byte written right behind n bytes that are read is read behind them.
read-write :
    (r : RingBuffer) (x start n e : ℕ)
    → length r.buffer ≡ r.max
    → r.max < 2 ^ 31
    → start < r.max
    → n < r.max
    → r.end ≡ (start + n) % r.max
    → read_bytes (record r { buffer = set r.buffer r.end x; end = e }) start (suc n)
      ≡ read_bytes r start n ++ x ∷ []
unfolding read_bytes
read-write r x start zero e len int hs hn at =
    let here : r.end ≡ start = at ∙ rw add-zero (mod-eq_of_lt hs) in
    ap (λ y. y ∷ [])
      (ap (λ i. get_or (set r.buffer i x) start 0) here
        ∙ get_or-set_self r.buffer start x 0 (omega arith))
read-write r x start (suc n) e len int hs hn at =
    let away : r.end ≢ start = λ same. round-ne r.max start n hs hn (sym at ∙ same) in
    let shift : (start + suc n) % r.max ≡ (add_u32 start 1 % r.max + n) % r.max =
      ap (λ k. k % r.max) (omega arith) ∙ sym (mod-add-mod (add_u32 start 1) r.max n) in
    ap₂ ◌∷◌ (get_or-set_ne r.buffer r.end start x 0 away) (
      read-write r x (add_u32 start 1 % r.max) n e len int (mod-lt (add_u32 start 1) (omega arith))
        (omega arith) (at ∙ shift))

read-write_bytes :
    (xs : List ℕ) (r : RingBuffer) (start n : ℕ)
    → length r.buffer ≡ r.max
    → r.max < 2 ^ 31
    → start < r.max
    → n + length xs ≤ r.max
    → r.end ≡ (start + n) % r.max
    → read_bytes (write_bytes xs r) start (n + length xs) ≡ read_bytes r start n ++ xs
unfolding write_bytes
read-write_bytes [] r start n len int hs hn at = rw (add-zero, append-nil)
read-write_bytes (x ∷ xs) r start n len int hs hn at =
    let r1 : RingBuffer = record r {
      buffer = set r.buffer r.end x;
      end = add_u32 r.end 1 % r.max;
    } in
    let small : r.end < r.max = rw at (mod-lt (start + n) (omega arith)) in
    let at1 : add_u32 r.end 1 % r.max ≡ (start + suc n) % r.max =
      ap (λ k. k % r.max) (omega arith)
      ∙ mod-add-mod (start + n) r.max 1
      ∙ ap (λ k. k % r.max) (omega arith) in
    ap (read_bytes (write_bytes xs r1) start) (omega arith)
    ∙ read-write_bytes xs r1 start (suc n) (length-set r.buffer r.end x ∙ len) int hs (omega arith)
        at1
    ∙ ap (λ l. l ++ xs) (read-write r x start n _ len int hs (omega arith) at)
    ∙ append_assoc (read_bytes r start n) (x ∷ []) xs

drop-read :
    (r : RingBuffer) (k start n : ℕ)
    → r.max < 2 ^ 31
    → start < r.max
    → drop k (read_bytes r start (k + n)) ≡ read_bytes r ((start + k) % r.max) n
unfolding read_bytes
drop-read r zero start n int hs =
    ap₂ (read_bytes r) (sym (rw add-zero (mod-eq_of_lt hs))) (omega arith)
drop-read r (suc k) start n int hs =
    let e : suc k + n ≡ suc (k + n) = omega arith in
    ap (λ m. drop (suc k) (read_bytes r start m)) e
    ∙ drop-read r k (add_u32 start 1 % r.max) n int (mod-lt (add_u32 start 1) (omega arith))
    ∙ ap (λ s. read_bytes r s n)
        (mod-add-mod (add_u32 start 1) r.max k ∙ ap (λ m. m % r.max) (omega arith))

take-read :
    (r : RingBuffer) (k start n : ℕ) → take k (read_bytes r start (k + n)) ≡ read_bytes r start k
unfolding read_bytes
take-read r zero start n = refl
take-read r (suc k) start n =
    let e : suc k + n ≡ suc (k + n) = omega arith in
    ap (λ m. take (suc k) (read_bytes r start m)) e
    ∙ ap (◌∷◌ (get_or r.buffer start 0)) (take-read r k (add_u32 start 1 % r.max) n)

-- Reading looks at the bytes and at `max` only.
read_bytes-same :
    (r : RingBuffer) (b e c m start n : ℕ)
    → read_bytes (record r { begin = b; end = e; capacity = c; remain = m }) start n
      ≡ read_bytes r start n
unfolding read_bytes
read_bytes-same r b e c m start zero = refl
read_bytes-same r b e c m start (suc n) =
    ap (◌∷◌ (get_or r.buffer start 0)) (read_bytes-same r b e c m (add_u32 start 1 % r.max) n)

-- AddBuffer of bytes that fit appends them; of more it is refused and changes nothing.
pub add_buffer_appends :
    (bytes : List ℕ) (r : RingBuffer)
    → IsValid r
    → (length bytes ≤ r.remain
        → ((add_buffer bytes r).0 ≡ true) × (contents (add_buffer bytes r).1 ≡ contents r ++ bytes))
      × (r.remain < length bytes → add_buffer bytes r ≡ (false, r))
unfolding add_buffer get_buffer
add_buffer_appends bytes r v = (
  λ fits.
      if_keeps (λ (q : Bool × RingBuffer). (q.0 ≡ true) × (contents q.1 ≡ contents r ++ bytes))
        (ltb r.remain (length bytes)) (λ too_big. absurd (ground arith))
        λ _. (
          refl,
          read_bytes-same (write_bytes bytes r) _ _ _ _ _ _
              ∙ ap₂ (read_bytes (write_bytes bytes r)) w.same_begin (omega arith)
              ∙ read-write_bytes bytes r r.begin r.capacity v.allocated v.max_int v.begin_in
                  (omega arith) v.end_at,
        ),
  λ too_big. ground arith,
)
  where
    w : Written (length bytes) r (write_bytes bytes r)
    w = write_bytes-Written bytes r v.max_pos v.max_int (end_in v)

-- PopBuffer of no more than is stored drops that much from the front; of more it is refused.
pub pop_buffer_drops :
    (size : ℕ) (r : RingBuffer)
    → IsValid r
    → (size ≤ r.capacity
        → ((pop_buffer size r).0 ≡ true)
          × (contents (pop_buffer size r).1 ≡ drop size (contents r)))
      × (r.capacity < size → pop_buffer size r ≡ (false, r))
unfolding pop_buffer get_buffer
pop_buffer_drops size r v = (
  λ stored.
      if_keeps (λ (q : Bool × RingBuffer). (q.0 ≡ true) × (contents q.1 ≡ drop size (contents r)))
        (ltb r.capacity size) (λ too_big. absurd (ground arith))
        λ _.
          let e : r.capacity ≡ size + (r.capacity - size) = omega arith in
          let rest : sub_u32 r.capacity size ≡ r.capacity - size = omega arith in
          let from : add_u32 r.begin size ≡ r.begin + size = omega arith in
          (
            refl,
            read_bytes-same r _ _ _ _ _ _
                ∙ ap₂ (λ b n. read_bytes r (b % r.max) n) from rest
                ∙ sym (drop-read r size r.begin (r.capacity - size) v.max_int v.begin_in)
                ∙ sym (ap (λ n. drop size (read_bytes r r.begin n)) e),
          ),
  λ too_big. ground arith,
)

-- GetBuffer of no more than is stored is that many of the oldest bytes.
pub get_buffer_takes :
    (len : ℕ) (r : RingBuffer) → len ≤ r.capacity → get_buffer len r ≡ take len (contents r)
unfolding get_buffer
get_buffer_takes len r h = sym (
    ap (λ m. take len (read_bytes r r.begin m)) (omega arith)
    ∙ take-read r len r.begin (r.capacity - len))
