-- ===== src/Buffer/Invariant.antt =====
-- The representation invariant of RingBuffer (src/Tool/RingBuffer.cpp) under its calls.
use ancestral_property_serve.Prelude.{
  ℕ, ◌+◌, ◌%◌, ◌^◌, ◌≤◌, ◌<◌, ◌≡◌, refl, ◌∙◌, ap, sym, Bool, List, [], ◌∷◌, length, set, length-set,
  arith, ltb, if_keeps,
}
use native.Mathlib.Nat.{mod-lt, mod-add-mod, mod-eq_of_lt, add-zero}
use ancestral_property_serve.Buffer.{
  RingBuffer, add_u32, sub_u32, new_ring_buffer, write_bytes, add_buffer, pop_buffer,
}

pub record IsValid (r : RingBuffer) : Type 0 where
  pub max_pos : 0 < r.max
  pub max_int : r.max < 2 ^ 31
  pub allocated : length r.buffer ≡ r.max
  pub begin_in : r.begin < r.max
  pub total : r.capacity + r.remain ≡ r.max
  pub end_at : r.end ≡ (r.begin + r.capacity) % r.max

pub new_ring_buffer-IsValid :
    (max : ℕ) (memory : List ℕ)
    → 0 < max
    → max < 2 ^ 31
    → length memory ≡ max
    → IsValid (new_ring_buffer max memory)
unfolding new_ring_buffer
new_ring_buffer-IsValid max memory pos int e = record {
  max_pos = pos;
  max_int = int;
  allocated = e;
  begin_in = pos;
  total = omega arith;
  end_at = sym (mod-eq_of_lt (omega arith));
}

-- What the copying loop leaves alone, and where it stops.
pub record Written (n : ℕ) (r w : RingBuffer) : Type 0 where
  pub same_max : w.max ≡ r.max
  pub same_length : length w.buffer ≡ length r.buffer
  pub same_begin : w.begin ≡ r.begin
  pub same_capacity : w.capacity ≡ r.capacity
  pub same_remain : w.remain ≡ r.remain
  pub end_moved : w.end ≡ (r.end + n) % r.max

pub write_bytes-Written :
    (xs : List ℕ) (r : RingBuffer)
    → 0 < r.max
    → r.max < 2 ^ 31
    → r.end < r.max
    → Written (length xs) r (write_bytes xs r)
unfolding write_bytes
write_bytes-Written [] r pos int h = record {
  same_max = refl;
  same_length = refl;
  same_begin = refl;
  same_capacity = refl;
  same_remain = refl;
  end_moved = rw add-zero (sym (mod-eq_of_lt h));
}
write_bytes-Written (x ∷ xs) r pos int h =
    let r1 : RingBuffer = record r {
      buffer = set r.buffer r.end x;
      end = add_u32 r.end 1 % r.max;
    } in
    let w = write_bytes-Written xs r1 pos int (mod-lt (add_u32 r.end 1) pos) in
    record {
      same_max = w.same_max;
      same_length = w.same_length ∙ length-set r.buffer r.end x;
      same_begin = w.same_begin;
      same_capacity = w.same_capacity;
      same_remain = w.same_remain;
      end_moved =
          w.end_moved
          ∙ mod-add-mod (add_u32 r.end 1) r.max (length xs)
          ∙ ap (λ k. k % r.max) (omega arith);
    }

pub end_in : {r : RingBuffer} → IsValid r → r.end < r.max
end_in {r} v = rw v.end_at (mod-lt (r.begin + r.capacity) v.max_pos)

-- AddBuffer keeps the invariant.
pub add_buffer-IsValid :
    (bytes : List ℕ) (r : RingBuffer) → IsValid r → IsValid (add_buffer bytes r).1
unfolding add_buffer
add_buffer-IsValid bytes r v =
    if_keeps (λ (q : Bool × RingBuffer). IsValid q.1) (ltb r.remain (length bytes)) (λ _. v)
      λ fits.
        let w = write_bytes-Written bytes r v.max_pos v.max_int (end_in v) in
        let room : length bytes ≤ r.remain = ground arith in
        record {
          max_pos = rw w.same_max v.max_pos;
          max_int = rw w.same_max v.max_int;
          allocated = w.same_length ∙ v.allocated ∙ sym w.same_max;
          begin_in = rw (w.same_begin, w.same_max) v.begin_in;
          total = rw w.same_max (omega arith);
          end_at =
              w.end_moved
              ∙ ap (λ e. (e + length bytes) % r.max) v.end_at
              ∙ mod-add-mod (r.begin + r.capacity) r.max (length bytes)
              ∙ rw (w.same_begin, w.same_max) (ap (λ k. k % r.max) (omega arith));
        }

-- PopBuffer keeps the invariant.
pub pop_buffer-IsValid : (size : ℕ) (r : RingBuffer) → IsValid r → IsValid (pop_buffer size r).1
unfolding pop_buffer
pop_buffer-IsValid size r v =
    if_keeps (λ (q : Bool × RingBuffer). IsValid q.1) (ltb r.capacity size) (λ _. v)
      λ fits.
        let room : size ≤ r.capacity = ground arith in
        record {
          max_pos = v.max_pos;
          max_int = v.max_int;
          allocated = v.allocated;
          begin_in = mod-lt (add_u32 r.begin size) v.max_pos;
          total = omega arith;
          end_at =
              v.end_at
              ∙ ap (λ k. k % r.max) (omega arith)
              ∙ sym (mod-add-mod (add_u32 r.begin size) r.max (sub_u32 r.capacity size));
        }
