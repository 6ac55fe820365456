-- ===== src/SafeQueue.antt =====
-- ThreadSafeQueue (src/Tool/ThreadSafetyQueue.cpp), the queue of messages to be sent. A method is one
-- step, since it holds the mutex from its first line to its last or to the wait; `asleep` counts the
-- threads in the wait and `awake` those that were woken and do not have the mutex yet.
pub mod Order
pub mod Wakeups
mod Examples
use ancestral_property_serve.Prelude.{
  ℕ, zero, suc, ◌+◌, ◌≡◌, Bool, Option, none, some, List, [], ◌∷◌, ◌++◌, is_empty as list_is_empty,
}

pub record ThreadSafeQueue {ℓ} (A : Type ℓ) : Type ℓ where
  pub queue : List A
  pub asleep : ℕ
  pub awake : ℕ

module _ {ℓ} {A : Type ℓ} where
  abbrev pub new_queue : ThreadSafeQueue A
  new_queue = record { queue = []; asleep = 0; awake = 0 }

  -- not_empty_cv_.notify_one()
  unfoldable pub notify_one : ThreadSafeQueue A → ThreadSafeQueue A
  notify_one q = elim q.asleep [ zero ↦ q | suc n ↦ record q { asleep = n; awake = suc q.awake } ]

  abbrev pub push : A → ThreadSafeQueue A → ThreadSafeQueue A
  push x q = notify_one (record q { queue = q.queue ++ x ∷ [] })

  unfoldable pub try_pop : ThreadSafeQueue A → Option A × ThreadSafeQueue A
  try_pop q = elim q.queue [ [] ↦ (none, q) | x ∷ xs ↦ (some x, record q { queue = xs }) ]

  -- `none` if the thread goes to sleep: the predicate of the wait is false.
  unfoldable pub wait_and_pop : ThreadSafeQueue A → Option A × ThreadSafeQueue A
  wait_and_pop q = elim q.queue [
    | [] ↦ (none, record q { asleep = suc q.asleep })
    | x ∷ xs ↦ (some x, record q { queue = xs })
  ]

  -- A thread that was woken gets the mutex and tests the predicate again.
  abbrev pub resume : ℕ → ThreadSafeQueue A → Option A × ThreadSafeQueue A
  resume n q = wait_and_pop (record q { awake = n })

  abbrev pub is_empty : ThreadSafeQueue A → Bool
  is_empty q = list_is_empty q.queue

  abbrev pub given : Option A → List A
  given none = []
  given (some x) = x ∷ []

  -- What some thread does next, with the element that it pushes and the one that it gets. A wait may
  -- end without a notification.
  pub data Step : ThreadSafeQueue A → List A → List A → ThreadSafeQueue A → Type ℓ where
    pushes : (q : ThreadSafeQueue A) (x : A) → Step q (x ∷ []) [] (push x q)
    tries : (q : ThreadSafeQueue A) → Step q [] (given (try_pop q).0) (try_pop q).1
    waits : (q : ThreadSafeQueue A) → Step q [] (given (wait_and_pop q).0) (wait_and_pop q).1
    resumes :
        (q : ThreadSafeQueue A) (n : ℕ)
        → q.awake ≡ suc n
        → Step q [] (given (resume n q).0) (resume n q).1
    wakes :
        (q : ThreadSafeQueue A) (n : ℕ)
        → q.asleep ≡ suc n
        → Step q [] [] (record q { asleep = n; awake = suc q.awake })

  -- Any interleaving of the threads, with the elements pushed and popped in their order.
  pub data Run (q : ThreadSafeQueue A) : List A → List A → ThreadSafeQueue A → Type ℓ where
    here : Run q [] [] q
    next :
        {pushed popped more got : List A} {r s : ThreadSafeQueue A}
        → Run q pushed popped r
        → Step r more got s
        → Run q (pushed ++ more) (popped ++ got) s
