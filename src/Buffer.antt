-- ===== src/Buffer.antt =====
-- The receive buffer of a connection: src/Header/Tool/RingBuffer.h and src/Tool/RingBuffer.cpp.
-- uint32_t sums and differences are taken mod 2 ^ 32. `max` is JSON.MAX_BUFFER_SIZE, an int.
pub mod Invariant
pub mod Fifo
pub mod Refinement
mod Examples
use ancestral_property_serve.Prelude.{
  ℕ, zero, suc, ◌+◌, ◌-◌, ◌%◌, ◌^◌, Bool, true, false, ◌||◌, List, [], ◌∷◌, length, get_or, set,
  replicate, ltb, leb, if◌then◌else◌,
}

pub record RingBuffer : Type 0 where
  pub max : ℕ
  pub buffer : List ℕ
  pub begin : ℕ
  pub end : ℕ
  pub remain : ℕ
  pub capacity : ℕ

abbrev pub add_u32 : ℕ → ℕ → ℕ
add_u32 a b = (a + b) % 2 ^ 32

abbrev pub sub_u32 : ℕ → ℕ → ℕ
sub_u32 a b = (a + 2 ^ 32 - b) % 2 ^ 32

-- The constructor. `memory` is what `new uint8_t[max]` gives.
unfoldable pub new_ring_buffer : ℕ → List ℕ → RingBuffer
new_ring_buffer max memory = record {
  max = max;
  buffer = memory;
  begin = 0;
  end = 0;
  remain = max;
  capacity = 0;
}

-- The copying loop of AddBuffer over the bytes that are left.
unfoldable pub write_bytes : List ℕ → RingBuffer → RingBuffer
write_bytes [] r = r
write_bytes (x ∷ xs) r =
    write_bytes xs (record r { buffer = set r.buffer r.end x; end = add_u32 r.end 1 % r.max })

unfoldable pub add_buffer : List ℕ → RingBuffer → Bool × RingBuffer
add_buffer bytes r =
    if ltb r.remain (length bytes)
    then (false, r)
    else let w = write_bytes bytes r in
      (
        true,
        record w {
          capacity = add_u32 r.capacity (length bytes);
          remain = sub_u32 r.remain (length bytes);
        },
      )

unfoldable pub pop_buffer : ℕ → RingBuffer → Bool × RingBuffer
pop_buffer size r = if ltb r.capacity size then (false, r) else (
  true,
  record r {
    begin = add_u32 r.begin size % r.max;
    capacity = sub_u32 r.capacity size;
    remain = add_u32 r.remain size;
  },
)

-- The loop of GetBuffer: `len` bytes from index `start` on.
unfoldable pub read_bytes : RingBuffer → ℕ → ℕ → List ℕ
read_bytes r start zero = []
read_bytes r start (suc len) = get_or r.buffer start 0 ∷ read_bytes r (add_u32 start 1 % r.max) len

unfoldable pub get_buffer : ℕ → RingBuffer → List ℕ
get_buffer len r = read_bytes r r.begin len

unfoldable pub get_remain : RingBuffer → ℕ
get_remain r = r.remain

unfoldable pub get_capacity : RingBuffer → ℕ
get_capacity r = r.capacity

-- operator[]. `id` is the bit pattern of an int, so 2 ^ 31 and above is negative.
unfoldable pub at_index : RingBuffer → ℕ → ℕ
at_index r id = if leb (2 ^ 31) id || leb r.max id then 0 else get_or r.buffer id 0
