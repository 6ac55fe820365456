-- ===== src/Buffer/Examples.antt =====
-- A concrete buffer on which the theorems about src/Tool/RingBuffer.cpp apply.
use ancestral_property_serve.Prelude.{◌≡◌, refl, List, [], ◌∷◌, arith}
use ancestral_property_serve.Buffer.{RingBuffer}
use ancestral_property_serve.Buffer.Invariant.{IsValid}
use ancestral_property_serve.Buffer.Fifo.{contents}
use ancestral_property_serve.Buffer.Refinement.{Call, run, queue_run, run-queue_run}

-- Five cells, with the bytes 7 8 9 stored over the end.
abbrev wrapped : RingBuffer
wrapped = record {
  max = 5;
  buffer = 9 ∷ 0 ∷ 0 ∷ 7 ∷ 8 ∷ [];
  begin = 3;
  end = 1;
  remain = 2;
  capacity = 3;
}

wrapped-IsValid : IsValid wrapped
wrapped-IsValid = record {
  max_pos = omega arith;
  max_int = omega arith;
  allocated = refl;
  begin_in = omega arith;
  total = refl;
  end_at = refl;
}

-- Bytes that fit, a pop, bytes that do not fit.
abbrev calls : List Call
calls = Call.adds (1 ∷ 2 ∷ []) ∷ Call.pops 1 ∷ Call.adds (4 ∷ 5 ∷ []) ∷ []

run-queue_run_example :
    ((run calls wrapped).0 ≡ (queue_run 5 calls (contents wrapped)).0)
    × (contents (run calls wrapped).1 ≡ (queue_run 5 calls (contents wrapped)).1)
run-queue_run_example = run-queue_run calls wrapped wrapped-IsValid
