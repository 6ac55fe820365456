-- ===== src/Wire/Split.antt =====
-- What HandleReceivedMsg of src/Source/ServerBase.cpp makes of a buffer: whole packages, and what
-- follows them.
use ancestral_property_serve.Prelude.{
  ℕ, zero, suc, ◌+◌, ◌-◌, ◌^◌, ◌≤◌, ◌<◌, ◌≡◌, refl, ◌∙◌, ap, ap₂, sym, true, false, some, List, [],
  ◌∷◌, ◌++◌, append_assoc, append-nil, length, length-append, drop, arith,
}
use ancestral_property_serve.Config.{head_size}
use ancestral_property_serve.Buffer.{RingBuffer, pop_buffer, get_buffer, get_capacity}
use ancestral_property_serve.Buffer.Invariant
use ancestral_property_serve.Buffer.Fifo.{contents, pop_buffer_drops, length-read_bytes}
use ancestral_property_serve.Wire.{MessageHead, check_header_is_valid}
use ancestral_property_serve.Wire.Bytes.{IsHead, head_bytes, parse_head-serialize_head}
use ancestral_property_serve.Wire.Receive.{
  Package, Outcome, receive_loop, handle_received_msg, reads_body,
}
use ancestral_property_serve.Wire.Framing.{
  AllPackages, package_bytes, all_bytes, length-package_bytes, receive-package, drop-eq,
  length-head_bytes,
}

-- The packages at the front are dispatched in order; what follows them decides the rest.
pub receive-packages :
    (n fuel : ℕ) (ps : List Package) (tail : List ℕ)
    → n ≡ length ps + fuel
    → AllPackages ps
    → length (all_bytes ps ++ tail) < 2 ^ 32
    → (o : Outcome) → receive_loop fuel tail (length tail) ≡ some o
    → receive_loop n (all_bytes ps ++ tail) (length (all_bytes ps ++ tail))
      ≡ some (record { packages = ps ++ o.packages; overrun = o.overrun })
receive-packages n fuel [] tail e v small o r = let same : n ≡ fuel = omega arith in rw same r
receive-packages zero fuel (p ∷ ps) tail e v small o r = absurd (omega arith)
receive-packages (suc n) fuel (p ∷ ps) tail e v small o r =
    let all = append_assoc (package_bytes p) (all_bytes ps) tail in
    let smaller : length (package_bytes p ++ (all_bytes ps ++ tail)) < 2 ^ 32 = rw all at small in
    rw all (
      receive-package n p (all_bytes ps ++ tail) _ v.0 refl smaller
        (record { packages = ps ++ o.packages; overrun = o.overrun })
        (receive-packages n fuel ps tail (omega arith) v.1
          (omega (arith, length-append (package_bytes p) (all_bytes ps ++ tail))) o r))

length-all_bytes : (ps : List Package) → length ps ≤ length (all_bytes ps)
length-all_bytes [] = omega arith
length-all_bytes (p ∷ ps) = omega (
  arith,
  length-append (package_bytes p) (all_bytes ps),
  length-package_bytes p,
  length-all_bytes ps,
)

length-contents : (r : RingBuffer) → length (contents r) ≡ r.capacity
unfolding get_buffer
length-contents r = length-read_bytes r r.begin r.capacity

drop-all : (n : ℕ) (xs : List ℕ) → n ≡ length xs → drop n xs ≡ []
drop-all n xs e = ap (drop n) (sym (append-nil xs)) ∙ drop-eq n xs [] e

-- HandleReceivedMsg over packages and a tail that the loop ends on, with any fuel.
pub handle-packages :
    (r : RingBuffer) (ps : List Package) (tail : List ℕ) (o : Outcome)
    → Invariant.IsValid r
    → contents r ≡ all_bytes ps ++ tail
    → AllPackages ps
    → ((fuel : ℕ) → receive_loop (suc fuel) tail (length tail) ≡ some o)
    → (r' : RingBuffer) × (handle_received_msg r
        ≡ some (record { packages = ps ++ o.packages; overrun = o.overrun }, r'))
      × (contents r' ≡ [])
unfolding handle_received_msg get_capacity
handle-packages r ps tail o v e whole ends =
    let count : r.capacity ≡ length (all_bytes ps ++ tail) =
      sym (length-contents r) ∙ ap length e in
    let fuel : ℕ = r.capacity + 1 - length ps in
    let enough : r.capacity + 2 ≡ length ps + suc fuel =
      omega (arith, length-all_bytes ps, length-append (all_bytes ps) tail) in
    let loop : receive_loop (r.capacity + 2) (all_bytes ps ++ tail) (length (all_bytes ps ++ tail))
        ≡ some (record { packages = ps ++ o.packages; overrun = o.overrun }) =
      receive-packages (r.capacity + 2) (suc fuel) ps tail enough whole
        (omega (arith, v.total, v.max_int)) o (ends fuel) in
    let all : receive_loop (r.capacity + 2) (get_buffer r.capacity r) r.capacity
        ≡ some (record { packages = ps ++ o.packages; overrun = o.overrun }) =
      ap₂ (receive_loop (r.capacity + 2)) e count ∙ loop in
    (
      (pop_buffer r.capacity r).1,
      rw (all, handle_received_msg),
      ((pop_buffer_drops r.capacity r v).0 (omega arith)).1
          ∙ drop-all r.capacity (contents r) (sym (length-contents r)),
    )

-- A valid buffer that holds whole packages is cut into exactly these, in order; then it is empty.
pub framing :
    (r : RingBuffer) (ps : List Package)
    → Invariant.IsValid r
    → AllPackages ps
    → contents r ≡ all_bytes ps
    → (r' : RingBuffer) × (handle_received_msg r
        ≡ some (record { packages = ps; overrun = false }, r'))
      × (contents r' ≡ [])
unfolding receive_loop
framing r ps v whole e =
    let (r', done, empty) =
      handle-packages r ps [] (record { packages = []; overrun = false }) v
        (e ∙ sym (append-nil (all_bytes ps))) whole (λ fuel. refl) in
    (
      r',
      done ∙ ap (λ l. some (record { packages = l; overrun = false }, r')) (append-nil ps),
      empty,
    )

-- Fewer bytes than a head behind the last whole package are thrown away with the buffer: the part
-- of a package that has arrived is lost.
pub short_tail_lost :
    (r : RingBuffer) (ps : List Package) (part : List ℕ)
    → Invariant.IsValid r
    → AllPackages ps
    → contents r ≡ all_bytes ps ++ part
    → length part < head_size
    → (r' : RingBuffer) × (handle_received_msg r
        ≡ some (record { packages = ps; overrun = false }, r'))
      × (contents r' ≡ [])
unfolding receive_loop
short_tail_lost r ps part v whole e short =
    let (r', done, empty) =
      handle-packages r ps part (record { packages = []; overrun = false }) v e whole
        (λ fuel. ground arith) in
    (
      r',
      done ∙ ap (λ l. some (record { packages = l; overrun = false }, r')) (append-nil ps),
      empty,
    )

overrun_loop :
    (fuel : ℕ) (h : MessageHead) (part : List ℕ)
    → IsHead h
    → check_header_is_valid h ≡ true
    → reads_body h ≡ true
    → head_size + length part < h.m_package_size
    → receive_loop (suc fuel) (head_bytes h ++ part) (length (head_bytes h ++ part))
      ≡ some (record { packages = []; overrun = true })
unfolding receive_loop
overrun_loop fuel h part word ok typed cut =
    let parsed = (parse_head-serialize_head h part word).1 in
    let size = length-append (head_bytes h) part in let twelve = length-head_bytes h in ground arith

-- A head with less than its package behind it makes the code read beyond the bytes received.
pub cut_package_overruns :
    (r : RingBuffer) (ps : List Package) (h : MessageHead) (part : List ℕ)
    → Invariant.IsValid r
    → AllPackages ps
    → contents r ≡ all_bytes ps ++ (head_bytes h ++ part)
    → IsHead h
    → check_header_is_valid h ≡ true
    → reads_body h ≡ true
    → head_size + length part < h.m_package_size
    → (r' : RingBuffer) × (handle_received_msg r
        ≡ some (record { packages = ps; overrun = true }, r'))
cut_package_overruns r ps h part v whole e word ok typed cut =
    let (r', done, empty) =
      handle-packages r ps (head_bytes h ++ part) (record { packages = []; overrun = true }) v e
        whole (λ fuel. overrun_loop fuel h part word ok typed cut) in
    (r', done ∙ ap (λ l. some (record { packages = l; overrun = true }, r')) (append-nil ps))
