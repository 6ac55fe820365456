-- ===== src/SafeQueue/Examples.antt =====
-- A producer and two consumers, on which the theorems about src/Tool/ThreadSafetyQueue.cpp apply.
use ancestral_property_serve.Prelude.{ℕ, suc, ◌≡◌, ◌≤◌, refl, some, [], ◌∷◌, ◌++◌, length, arith}
use ancestral_property_serve.SafeQueue.{
  ThreadSafeQueue, Step, Run, new_queue, notify_one, wait_and_pop, resume,
}
use ancestral_property_serve.SafeQueue.Order.{Run-fifo}
use ancestral_property_serve.SafeQueue.Wakeups.{Run-new_queue-served}

-- Two consumers sleep, one push wakes one of them, which has not come to the mutex yet.
abbrev both_asleep : ThreadSafeQueue ℕ
both_asleep = record { queue = []; asleep = 2; awake = 0 }

abbrev one_woken : ThreadSafeQueue ℕ
one_woken = record { queue = 7 ∷ []; asleep = 1; awake = 1 }

one_push : Run new_queue (7 ∷ []) [] one_woken
unfolding notify_one wait_and_pop
one_push =
    Run.next
      (Run.next (Run.next Run.here (Step.waits new_queue))
        (Step.waits (record { queue = []; asleep = 1; awake = 0 })))
      (Step.pushes both_asleep 7)

Run-fifo_example : (new_queue {A = ℕ}).queue ++ 7 ∷ [] ≡ [] ++ one_woken.queue
Run-fifo_example = Run-fifo one_push

Run-new_queue-served_example :
    (n : ℕ) × (one_woken.awake ≡ suc n)
    × (length one_woken.queue ≤ one_woken.awake)
    × (resume n one_woken ≡ (some 7, record one_woken { queue = []; awake = n }))
Run-new_queue-served_example = Run-new_queue-served 7 [] one_push (omega arith) refl
