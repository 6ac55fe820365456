-- ===== src/SafeQueue/Order.antt =====
-- The order of the elements of a ThreadSafeQueue (src/Tool/ThreadSafetyQueue.cpp).
use ancestral_property_serve.Prelude.{
  ◌≡◌, ◌∙◌, ap, sym, List, [], ◌∷◌, ◌++◌, append_assoc, append-nil, arith,
}
use ancestral_property_serve.SafeQueue.{
  ThreadSafeQueue, Step, Run, notify_one, try_pop, wait_and_pop, given,
}

module _ {ℓ} {A : Type ℓ} where
  queue-notify_one : (q : ThreadSafeQueue A) → (notify_one q).queue ≡ q.queue
  unfolding notify_one
  queue-notify_one q = ground arith

  queue-try_pop : (q : ThreadSafeQueue A) → q.queue ≡ given (try_pop q).0 ++ (try_pop q).1.queue
  unfolding try_pop
  queue-try_pop q = ground arith

  queue-wait_and_pop :
      (q : ThreadSafeQueue A) → q.queue ≡ given (wait_and_pop q).0 ++ (wait_and_pop q).1.queue
  unfolding wait_and_pop
  queue-wait_and_pop q = ground arith

  Step-fifo :
      {q r : ThreadSafeQueue A} {pushed popped : List A}
      → Step q pushed popped r
      → q.queue ++ pushed ≡ popped ++ r.queue
  Step-fifo (Step.pushes q x) = sym (queue-notify_one (record q { queue = q.queue ++ x ∷ [] }))
  Step-fifo (Step.tries q) = append-nil q.queue ∙ queue-try_pop q
  Step-fifo (Step.waits q) = append-nil q.queue ∙ queue-wait_and_pop q
  Step-fifo (Step.resumes q n e) = append-nil q.queue ∙ queue-wait_and_pop (record q { awake = n })
  Step-fifo (Step.wakes q n e) = append-nil q.queue

  -- In any interleaving of the threads the elements are popped in the order in which they are pushed,
  -- none is lost and none is given twice: what was stored and pushed is what was popped and is stored.
  pub Run-fifo :
      {q r : ThreadSafeQueue A} {pushed popped : List A}
      → Run q pushed popped r
      → q.queue ++ pushed ≡ popped ++ r.queue
  Run-fifo Run.here = append-nil _
  Run-fifo
        (Run.next {pushed = pushed} {popped = popped} {more = more} {got = got} {r = r} {s = s} run
          step) =
      sym (append_assoc _ pushed more)
      ∙ ap (λ l. l ++ more) (Run-fifo run)
      ∙ append_assoc popped r.queue more
      ∙ ap (λ l. popped ++ l) (Step-fifo step)
      ∙ sym (append_assoc popped got s.queue)
