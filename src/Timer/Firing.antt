-- ===== src/Timer/Firing.antt =====
-- When the callback of a Timer (src/Tool/Timer.cpp) is called.
use ancestral_property_serve.Prelude.{
  ℕ, ◌+◌, ◌≤◌, ◌<◌, ◌≡◌, refl, Bool, true, false, List, [], ◌∷◌, if◌then◌else◌, if_keeps, leb,
  Bool-cases, inl, inr, arith,
}
use ancestral_property_serve.Timer.{Timer, Control, control, tick, run, start, stop, set_once}

-- Each reading is at least `gap` after the one before it, the first after `from`.
abbrev pub Spaced : ℕ → ℕ → List ℕ → Type 0
Spaced gap from [] = Unit {0}
Spaced gap from (x ∷ xs) = (from + gap ≤ x) × Spaced gap x xs

-- Each reading is at most `gap` after the one before it, and none before it.
abbrev pub Steady : ℕ → ℕ → List ℕ → Type 0
Steady gap from [] = Unit {0}
Steady gap from (x ∷ xs) = (from ≤ x) × (x ≤ from + gap) × Steady gap x xs

abbrev pub last : ℕ → List ℕ → ℕ
last from [] = from
last from (x ∷ xs) = last x xs

Spaced-at :
    {gap gap' from from' : ℕ} (xs : List ℕ)
    → gap ≡ gap'
    → from ≡ from'
    → Spaced gap from xs
    → Spaced gap' from' xs
Spaced-at [] e f h = tt
Spaced-at (x ∷ xs) e f h = (omega (arith, e, f, h.0), Spaced-at xs e refl h.1)

interval-control : (cs : List Control) (t : Timer) → (control cs t).m_interval ≡ t.m_interval
unfolding control
interval-control [] t = refl
interval-control (Control.starts ∷ cs) t = interval-control cs (start t)
interval-control (Control.stops ∷ cs) t = interval-control cs (stop t)
interval-control (Control.sets_once ∷ cs) t = interval-control cs (set_once t)

-- What one tick does, seen from the times.
record Ticked (now : ℕ) (t : Timer) (r : Bool × Timer) : Type 0 where
  same_interval : r.1.m_interval ≡ t.m_interval
  waits : r.0 ≡ false → r.1.m_pre_time ≡ t.m_pre_time
  fires : r.0 ≡ true → r.1.m_pre_time ≡ now
  due : r.0 ≡ true → t.m_pre_time + t.m_interval ≤ now

tick-Ticked : (cs : List Control) (now : ℕ) (t : Timer) → Ticked now t (tick cs now t)
unfolding tick
tick-Ticked cs now t = record {
  same_interval = ground (arith, interval-control cs t, interval-control cs (stop t));
  waits = ground arith;
  fires = ground arith;
  due = ground arith;
}

-- Two calls of the callback are at least the interval apart, and the first as far from the last call
-- before, whatever the clock does and whatever the callback does to the timer.
pub run-Spaced :
    (callback : ℕ → List Control) (times : List ℕ) (t : Timer)
    → Spaced t.m_interval t.m_pre_time (run callback times t).0
unfolding run
run-Spaced callback [] t = tt
run-Spaced callback (now ∷ times) t =
    let k = tick-Ticked (callback now) now t in
    let r = tick (callback now) now t in
    let rest = run-Spaced callback times r.1 in
    if_keeps (Spaced t.m_interval t.m_pre_time) r.0
      (λ b. (k.due b, Spaced-at (run callback times r.1).0 k.same_interval (k.fires b) rest))
      (λ b. Spaced-at (run callback times r.1).0 k.same_interval (k.waits b) rest)

-- Each reading is at least `low` and less than `high` after the one before it.
abbrev pub Regular : ℕ → ℕ → ℕ → List ℕ → Type 0
Regular low high from [] = Unit {0}
Regular low high from (x ∷ xs) = (from + low ≤ x) × (x < from + high) × Regular low high x xs

tick_due :
    (now : ℕ) (t : Timer)
    → t.m_already ≡ true
    → t.m_once_flag ≡ false
    → tick [] now t ≡ (
        if leb (t.m_pre_time + t.m_interval) now
        then (true, record t { m_pre_time = now })
        else (false, t))
unfolding tick control
tick_due now t on again = ground (arith, on, again)

-- A repeating timer that runs and is ticked every `gap` milliseconds or more often calls its callback
-- again and again, each time at least the interval and less than the interval and `gap` after the
-- last time, and at the end of the ticks it is not overdue.
pub run-Regular :
    (gap from : ℕ) (times : List ℕ) (t : Timer)
    → t.m_already ≡ true
    → t.m_once_flag ≡ false
    → 0 < t.m_interval
    → from < t.m_pre_time + t.m_interval
    → Steady gap from times
    → let calls = (run (λ now. []) times t).0 in
      Regular t.m_interval (t.m_interval + gap) t.m_pre_time calls
      × (last from times < last t.m_pre_time calls + t.m_interval)
unfolding run
run-Regular gap from [] t on again positive early steady = (tt, early)
run-Regular gap from (now ∷ times) t on again positive early (later, soon, steady) =
    rw (tick_due now t on again) (elim (Bool-cases (leb (t.m_pre_time + t.m_interval) now)) [
      | inl due ↦
          (let rest =
              run-Regular gap now times (record t { m_pre_time = now }) on again positive
                (omega (arith, positive)) steady in
            rw due ((ground (arith, due), omega (arith, early, soon), rest.0), rest.1))
      | inr wait ↦
          (let rest = run-Regular gap now times t on again positive (ground (arith, wait)) steady in
            rw wait rest)
    ])
