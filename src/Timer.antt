-- ===== src/Timer.antt =====
-- Timer (src/Tool/Timer.cpp), which the servers tick in their event loop. The clock's readings are
-- given; `now - m_preTime >= m_interval` of signed numbers is written without a subtraction.
pub mod Firing
mod Examples
use ancestral_property_serve.Prelude.{
  ℕ, ◌+◌, Bool, true, false, not, List, [], ◌∷◌, if◌then◌else◌, leb,
}

pub record Timer : Type 0 where
  pub m_interval : ℕ
  pub m_pre_time : ℕ
  pub m_once_flag : Bool
  pub m_already : Bool

abbrev pub new_timer : ℕ → Timer
new_timer interval = record {
  m_interval = interval;
  m_pre_time = 0;
  m_once_flag = false;
  m_already = false;
}

abbrev pub start : Timer → Timer
start t = record t { m_already = true }

abbrev pub stop : Timer → Timer
stop t = record t { m_already = false }

abbrev pub set_once : Timer → Timer
set_once t = record t { m_once_flag = true }

-- The calls of the timer's own methods that a callback makes.
pub data Control : Type 0 where
  starts stops sets_once : Control

unfoldable pub control : List Control → Timer → Timer
control [] t = t
control (Control.starts ∷ cs) t = control cs (start t)
control (Control.stops ∷ cs) t = control cs (stop t)
control (Control.sets_once ∷ cs) t = control cs (set_once t)

-- Tick at the reading `now`: whether the callback was called, and the timer. `callback` is what the
-- callback does to the timer that calls it.
unfoldable pub tick : List Control → ℕ → Timer → Bool × Timer
tick callback now t =
    if not t.m_already
    then (false, t)
    else if leb (t.m_pre_time + t.m_interval) now
    then (let t1 = if t.m_once_flag then stop t else t in
        (true, record (control callback t1) { m_pre_time = now }))
    else (false, t)

-- The readings at which the callback was called, of a loop that ticks at `times`, and the timer.
unfoldable pub run : (ℕ → List Control) → List ℕ → Timer → List ℕ × Timer
run callback [] t = ([], t)
run callback (now ∷ times) t =
    let r = tick (callback now) now t in
    let rest = run callback times r.1 in (if r.0 then now ∷ rest.0 else rest.0, rest.1)
