-- ===== src/Timer/Examples.antt =====
-- A timer of one frame, on which the theorems about src/Tool/Timer.cpp apply.
use ancestral_property_serve.Prelude.{ℕ, ◌+◌, ◌<◌, ◌≡◌, refl, true, false, List, [], ◌∷◌, arith}
use ancestral_property_serve.Timer.{Timer, control, tick, run}
use ancestral_property_serve.Timer.Firing.{Regular, run-Regular, last}

abbrev frame_timer : Timer
frame_timer = record { m_interval = 30; m_pre_time = 100; m_once_flag = false; m_already = true }

-- Readings of a clock whose loop takes at most eleven milliseconds.
abbrev readings : List ℕ
readings = 105 ∷ 116 ∷ 127 ∷ 138 ∷ 149 ∷ 160 ∷ 171 ∷ []

calls : (run (λ now. []) readings frame_timer).0 ≡ 138 ∷ 171 ∷ []
unfolding run tick control
calls = refl

run-Regular_example :
    let calls = (run (λ now. []) readings frame_timer).0 in
    Regular 30 41 100 calls × (last 100 readings < last 100 calls + 30)
run-Regular_example =
    run-Regular 11 100 readings frame_timer refl refl (omega arith) (omega arith) (
      omega arith,
      omega arith,
      (
        omega arith,
        omega arith,
        (
          omega arith,
          omega arith,
          (
            omega arith,
            omega arith,
            (omega arith, omega arith, (omega arith, omega arith, (omega arith, omega arith, tt))),
          ),
        ),
      ),
    )
