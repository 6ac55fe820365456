-- ===== src/SafeQueue/Wakeups.antt =====
-- The wake-ups of a ThreadSafeQueue (src/Tool/ThreadSafetyQueue.cpp).
use ancestral_property_serve.Prelude.{
  ℕ, suc, ◌-◌, ◌≤◌, ◌<◌, ◌≡◌, some, List, [], ◌∷◌, length, length-append, arith,
}
use ancestral_property_serve.SafeQueue.{
  ThreadSafeQueue, Step, Run, new_queue, push, notify_one, try_pop, wait_and_pop, resume,
}

module _ {ℓ} {A : Type ℓ} where
  -- While a thread sleeps there is a woken thread for each element.
  abbrev pub IsServed : ThreadSafeQueue A → Type 0
  IsServed q = 0 < q.asleep → length q.queue ≤ q.awake

  push-IsServed : (x : A) (q : ThreadSafeQueue A) → IsServed q → IsServed (push x q)
  unfolding notify_one
  push-IsServed x q v h = ground (arith, v, h, length-append q.queue (x ∷ []))

  try_pop-IsServed : (q : ThreadSafeQueue A) → IsServed q → IsServed (try_pop q).1
  unfolding try_pop
  try_pop-IsServed q v h = ground (arith, v, h)

  wait_and_pop-IsServed : (q : ThreadSafeQueue A) → IsServed q → IsServed (wait_and_pop q).1
  unfolding wait_and_pop
  wait_and_pop-IsServed q v h = ground (arith, v, h)

  -- A woken thread that gets the mutex takes one element or finds none.
  resume-IsServed :
      (n : ℕ) (q : ThreadSafeQueue A)
      → q.awake ≡ suc n
      → IsServed q
      → IsServed (wait_and_pop (record q { awake = n })).1
  unfolding wait_and_pop
  resume-IsServed n q e v h = ground (arith, v, h, e)

  Step-IsServed :
      {q r : ThreadSafeQueue A} {pushed popped : List A}
      → Step q pushed popped r
      → IsServed q
      → IsServed r
  Step-IsServed (Step.pushes q x) v = push-IsServed x q v
  Step-IsServed (Step.tries q) v = try_pop-IsServed q v
  Step-IsServed (Step.waits q) v = wait_and_pop-IsServed q v
  Step-IsServed (Step.resumes q n e) v = resume-IsServed n q e v
  Step-IsServed (Step.wakes q n e) v = λ h. omega (arith, v (omega (arith, e)))

  Run-IsServed :
      {q r : ThreadSafeQueue A} {pushed popped : List A}
      → Run q pushed popped r
      → IsServed q
      → IsServed r
  Run-IsServed Run.here v = v
  Run-IsServed (Run.next run step) v = Step-IsServed step (Run-IsServed run v)

  wait_and_pop-front :
      (x : A) (xs : List A) (q : ThreadSafeQueue A)
      → q.queue ≡ x ∷ xs
      → wait_and_pop q ≡ (some x, record q { queue = xs })
  unfolding wait_and_pop
  wait_and_pop-front x xs q e = ground (arith, e)

  -- The woken thread number n + 1 gets the mutex.
  resume-front :
      (n : ℕ) (x : A) (xs : List A) (q : ThreadSafeQueue A)
      → q.queue ≡ x ∷ xs
      → resume n q ≡ (some x, record q { queue = xs; awake = n })
  resume-front n x xs q e = wait_and_pop-front x xs (record q { awake = n }) e

  -- No wake-up is lost: whatever the threads have done, if the queue has elements while a thread
  -- sleeps, then at least as many other threads as there are elements have been woken, so there is
  -- one, and when it gets the mutex it takes the first element and does not sleep again.
  pub Run-new_queue-served :
      {pushed popped : List A} {q : ThreadSafeQueue A} (x : A) (xs : List A)
      → Run new_queue pushed popped q
      → 0 < q.asleep
      → q.queue ≡ x ∷ xs
      → (n : ℕ) × (q.awake ≡ suc n)
        × (length q.queue ≤ q.awake)
        × (resume n q ≡ (some x, record q { queue = xs; awake = n }))
  Run-new_queue-served {q = q} x xs run sleeps e =
      let served = Run-IsServed run (λ h. omega arith) sleeps in
      let n = q.awake - 1 in (n, ground (arith, e, served), served, resume-front n x xs q e)
