-- ===== src/Buffer/Refinement.antt =====
-- A RingBuffer of src/Tool/RingBuffer.cpp against a bounded queue that is a list.
use ancestral_property_serve.Prelude.{
  ℕ, ◌+◌, ◌≡◌, ◌∙◌, refl, ap, ap₂, Bool, true, false, List, [], ◌∷◌, ◌++◌, length, drop, ltb,
  if◌then◌else◌, Bool-cases, inl, inr, arith,
}
use ancestral_property_serve.Buffer.{RingBuffer, add_buffer, pop_buffer, get_buffer}
use ancestral_property_serve.Buffer.Invariant.{
  IsValid, end_in, write_bytes-Written, add_buffer-IsValid, pop_buffer-IsValid,
}
use ancestral_property_serve.Buffer.Fifo.{
  contents, length-read_bytes, add_buffer_appends, pop_buffer_drops,
}

pub data Call : Type 0 where
  adds : (bytes : List ℕ) → Call
  pops : (size : ℕ) → Call

abbrev pub call : Call → RingBuffer → Bool × RingBuffer
call (Call.adds bytes) r = add_buffer bytes r
call (Call.pops size) r = pop_buffer size r

-- The results of the calls, in order, and the buffer.
unfoldable pub run : List Call → RingBuffer → List Bool × RingBuffer
run [] r = ([], r)
run (c ∷ cs) r = let one = call c r in let rest = run cs one.1 in (one.0 ∷ rest.0, rest.1)

-- The queue of at most `max` bytes that the buffer is to be.
abbrev pub queue_call : ℕ → Call → List ℕ → Bool × List ℕ
queue_call max (Call.adds bytes) q =
    if ltb max (length q + length bytes) then (false, q) else (true, q ++ bytes)
queue_call max (Call.pops size) q = if ltb (length q) size then (false, q) else (true, drop size q)

unfoldable pub queue_run : ℕ → List Call → List ℕ → List Bool × List ℕ
queue_run max [] q = ([], q)
queue_run max (c ∷ cs) q =
    let one = queue_call max c q in let rest = queue_run max cs one.1 in (one.0 ∷ rest.0, rest.1)

length-contents : (r : RingBuffer) → length (contents r) ≡ r.capacity
unfolding get_buffer
length-contents r = length-read_bytes r r.begin r.capacity

-- One call, seen as the queue's.
record Refined (max : ℕ) (one : Bool × RingBuffer) (spec : Bool × List ℕ) : Type 0 where
  result : one.0 ≡ spec.0
  stored : contents one.1 ≡ spec.1
  valid : IsValid one.1
  same_max : one.1.max ≡ max

call-max : (c : Call) (r : RingBuffer) → IsValid r → (call c r).1.max ≡ r.max
unfolding add_buffer pop_buffer
call-max (Call.adds bytes) r v =
    ground (arith, (write_bytes-Written bytes r v.max_pos v.max_int (end_in v)).same_max)
call-max (Call.pops size) r v = ground arith

call-Refined :
    (c : Call) (r : RingBuffer)
    → IsValid r
    → Refined r.max (call c r) (queue_call r.max c (contents r))
call-Refined (Call.adds bytes) r v =
    elim (Bool-cases (ltb r.max (length (contents r) + length bytes))) [
      | inl h ↦
          (let e =
              (add_buffer_appends bytes r v).1 (ground (arith, h, length-contents r, v.total)) in
            rw h (record {
              result = ap (λ p. p.0) e;
              stored = ap (λ p. contents p.1) e;
              valid = add_buffer-IsValid bytes r v;
              same_max = call-max (Call.adds bytes) r v;
            }))
      | inr h ↦
          (let e =
              (add_buffer_appends bytes r v).0 (ground (arith, h, length-contents r, v.total)) in
            rw h (record {
              result = e.0;
              stored = e.1;
              valid = add_buffer-IsValid bytes r v;
              same_max = call-max (Call.adds bytes) r v;
            }))
    ]
call-Refined (Call.pops size) r v = elim (Bool-cases (ltb (length (contents r)) size)) [
  | inl h ↦
      (let e = (pop_buffer_drops size r v).1 (ground (arith, h, length-contents r)) in
        rw h (record {
          result = ap (λ p. p.0) e;
          stored = ap (λ p. contents p.1) e;
          valid = pop_buffer-IsValid size r v;
          same_max = call-max (Call.pops size) r v;
        }))
  | inr h ↦
      (let e = (pop_buffer_drops size r v).0 (ground (arith, h, length-contents r)) in
        rw h (record {
          result = e.0;
          stored = e.1;
          valid = pop_buffer-IsValid size r v;
          same_max = call-max (Call.pops size) r v;
        }))
]

-- Any calls of AddBuffer and PopBuffer on a valid ring buffer have the results that a bounded queue
-- gives, which takes bytes that fit at its end and drops stored bytes at its front, and the bytes that
-- are stored at the end are those of the queue.
pub run-queue_run :
    (cs : List Call) (r : RingBuffer)
    → IsValid r
    → ((run cs r).0 ≡ (queue_run r.max cs (contents r)).0)
      × (contents (run cs r).1 ≡ (queue_run r.max cs (contents r)).1)
unfolding run queue_run
run-queue_run [] r v = (refl, refl)
run-queue_run (c ∷ cs) r v =
    let k = call-Refined c r v in
    let one = call c r in
    let rest = run-queue_run cs one.1 k.valid in
    let same : queue_run one.1.max cs (contents one.1)
        ≡ queue_run r.max cs (queue_call r.max c (contents r)).1 =
      ap₂ (λ n q. queue_run n cs q) k.same_max k.stored in
    (ap₂ ◌∷◌ k.result (rest.0 ∙ ap (λ x. x.0) same), rest.1 ∙ ap (λ x. x.1) same)
