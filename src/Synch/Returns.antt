-- ===== src/Synch/Returns.antt =====
-- The semaphore functions of threads/synch.c return, and the scheduler's invariant holds after them.
use ee468_pintos_project.Prelude.{
  ℕ, ◌+◌, ◌-◌, ◌≡◌, ◌≢◌, refl, ap, ◌∙◌, true, false, ◌==◌, List, [], ◌∷◌, ◌++◌, Outcome, ok, ◌>>=◌,
  arith, Bool-cases, inl, inr, ◌⊎◌,
}
use ee468_pintos_project.Threads.{
  Kernel, Semaphore, is_thread, thread_blocked, thread_ready, thread_block,
}
use ee468_pintos_project.Threads.Sched.{IsSched, status_of}
use ee468_pintos_project.Threads.Calls.{leave, thread_block-GivesUp, off-IsSched, current_ok}
use ee468_pintos_project.Threads.Change.{change}
use ee468_pintos_project.Threads.Unblock.{thread_unblock-IsSched}
use ee468_pintos_project.Threads.Switch.{Switched}
use ee468_pintos_project.Synch.{Round, sleeps, takes, sema_down_round, sema_sleep, sema_up, wake}

abbrev pub quiet : Kernel → Kernel
quiet k = record k { intr_on = false }

-- The semaphore is positive: the thread takes one and goes on. It is 0: the thread waits at the back
-- of the waiters, blocked, and the next thread runs.
abbrev pub Down : Kernel → Semaphore → Outcome (Round × Kernel × Semaphore) → Type 0
Down k sema r =
    ((sema.value ≢ 0) × (r ≡ ok (takes, k, record sema { value = sema.value - 1 })))
    ⊎ ((sema.value ≡ 0)
        × (k' : Kernel) × (r
            ≡ ok (sleeps, k', record sema { waiters = sema.waiters ++ k.cpu ∷ [] }))
        × IsSched k'
        × Switched (leave (quiet k) thread_blocked k.ready_list k.all_list) k')

sleep_round :
    (k k1 : Kernel) (sema : Semaphore)
    → IsSched k
    → sema.value ≡ 0
    → thread_block (quiet k) ≡ ok k1
    → sema_down_round k sema ≡ ok (sleeps, k1, record sema { waiters = sema.waiters ++ k.cpu ∷ [] })
unfolding sema_down_round sema_sleep
sleep_round k k1 sema v z r =
    ground (arith, v.queue.threads_only, z, current_ok (quiet k) (off-IsSched k v), r)

-- A round of sema_down takes one from a positive semaphore and changes nothing else; when the value is
-- 0, the running thread waits at the back of the waiters and the next ready thread runs. The
-- scheduler's invariant holds after both.
pub round-Down : (k : Kernel) (sema : Semaphore) → IsSched k → Down k sema (sema_down_round k sema)
unfolding sema_down_round
round-Down k sema v = elim (Bool-cases (sema.value == 0)) [
  | inl z ↦
      let (k1, r, is, w) = thread_block-GivesUp (quiet k) (off-IsSched k v) refl in
      let zero : sema.value ≡ 0 = ground arith in
      inr (zero, k1, sleep_round k k1 sema v zero r, is, w)
  | inr n ↦ inl (ground arith, ground (arith, v.queue.threads_only, n))
]

abbrev risen : Semaphore → Kernel × List ℕ → Outcome (Kernel × Semaphore)
risen sema r = ok (r.0, record { value = sema.value + 1; waiters = r.1 })

-- sema_up adds one to the semaphore; the first waiter, if there is one, becomes ready at the back of
-- the ready list. The waiters are blocked threads, and not the idle thread; the scheduler's invariant
-- stays.
pub sema_up-IsSched :
    (k : Kernel) (sema : Semaphore)
    → IsSched k
    → (sema.waiters ≡ [] → sema_up k sema ≡ ok (k, record { value = sema.value + 1; waiters = [] }))
      × ((t : ℕ) (ts : List ℕ)
          → sema.waiters ≡ t ∷ ts
          → is_thread k t ≡ true
          → status_of k t ≡ thread_blocked
          → t ≢ k.idle_thread
          → let k' = change k t thread_ready (k.ready_list ++ t ∷ []) k.all_list in
            (sema_up k sema ≡ ok (k', record { value = sema.value + 1; waiters = ts }))
            × IsSched k')
unfolding sema_up wake
sema_up-IsSched k sema v = (
  λ e. ap (λ ws. wake k ws >>= risen sema) e,
  λ t ts e there st ne.
      let (r, is) = thread_unblock-IsSched k t v there st ne in
      (
        ap (λ ws. wake k ws >>= risen sema) e
            ∙ ap (λ o. o >>= (λ k1. ok (k1, ts)) >>= risen sema) r,
        is,
      ),
)
