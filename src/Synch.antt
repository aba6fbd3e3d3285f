-- ===== src/Synch.antt =====
-- threads/synch.c: semaphores and locks, over the scheduler of Threads.antt. A function here is a
-- stretch of code with interrupts off; sema_down is its rounds, since a thread that sleeps in it
-- goes on with a round of its own when it runs again.
pub mod Excludes
pub mod Waits
pub mod Guards
pub mod Effects
pub mod Invariant
pub mod Exclusion
pub mod Returns
mod Tests
use ee468_pintos_project.Prelude.{
  ℕ, zero, suc, ◌+◌, ◌-◌, ◌≡◌, ◌≢◌, Bool, true, false, not, ltb, ◌==◌, if◌then◌else◌, List, [], ◌∷◌,
  ◌++◌, Outcome, ok, ◌>>=◌, ◌>>◌, assert,
}
use ee468_pintos_project.Memory.{null}
use ee468_pintos_project.Threads.{
  Kernel, Semaphore, Lock, thread_current, thread_block, thread_unblock, put, lock_init, is_thread,
  is_blocked, is_dying,
}
use ee468_pintos_project.Threads.Sched.{status_of, IsSched}

pub data Round : Type 0 where
  sleeps : Round
  takes : Round

-- The body of the loop of sema_down.
pub sema_sleep : Kernel → Semaphore → Outcome (Kernel × Semaphore)
sema_sleep k sema = do
  cur ← thread_current k
  k' ← thread_block k
  ok (k', record sema { waiters = sema.waiters ++ cur ∷ [] })

-- One test of the loop of sema_down, with what follows it; interrupts are off.
unfoldable pub sema_down_round : Kernel → Semaphore → Outcome (Round × Kernel × Semaphore)
sema_down_round k sema = do
  assert (not k.intr_context)
  let k1 = record k { intr_on = false }
  if sema.value == 0
      then (sema_sleep k1 sema >>= λ r. ok (sleeps, r.0, r.1))
      else ok (takes, k, record sema { value = sema.value - 1 })

pub sema_try_down : Semaphore → Semaphore × Bool
sema_try_down sema =
    if ltb 0 sema.value then (record sema { value = sema.value - 1 }, true) else (sema, false)

-- thread_unblock on the first of the waiters, if there is one; the result is the other waiters.
pub wake : Kernel → List ℕ → Outcome (Kernel × List ℕ)
wake k [] = ok (k, [])
wake k (t ∷ ts) = thread_unblock k t >>= λ k'. ok (k', ts)

pub sema_up : Kernel → Semaphore → Outcome (Kernel × Semaphore)
sema_up k sema = do
  (k', ts) ← wake k sema.waiters
  ok (k', record { value = sema.value + 1; waiters = ts })

unfoldable pub lock_held_by_current_thread : Kernel → Lock → Outcome Bool
lock_held_by_current_thread k lock = do cur ← thread_current k; ok (lock.holder == cur)

-- The assertions of lock_acquire, of lock_release and of lock_try_acquire.
unfoldable pub acquire_checks : Kernel → Lock → Outcome (Unit {0})
acquire_checks k lock = do
  assert (not k.intr_context)
  held ← lock_held_by_current_thread k lock
  assert (not held)

pub release_checks : Kernel → Lock → Outcome (Unit {0})
release_checks k lock = do held ← lock_held_by_current_thread k lock; assert held

unfoldable pub try_checks : Kernel → Lock → Outcome (Unit {0})
try_checks k lock = do held ← lock_held_by_current_thread k lock; assert (not held)

pub lock_try_acquire : Kernel → Lock → Outcome (Lock × Bool)
lock_try_acquire k lock = do
  try_checks k lock
  let (sema, success) = sema_try_down lock.semaphore
  cur ← thread_current k
  ok (
      if success
      then (record { holder = cur; semaphore = sema }, true)
      else (record lock { semaphore = sema }, false))

-- Where a thread stands in lock_acquire and lock_release of one lock.
pub data Phase : Type 0 where
  outside : Phase
  trying : Phase
  asleep : Phase
  taken : Phase
  inside : Phase
  leaving : Phase

-- One lock among the threads of the kernel.
pub record System : Type 0 where
  pub kernel : Kernel
  pub lock : Lock
  pub phase : ℕ → Phase

abbrev pub cpu_of : System → ℕ
cpu_of s = s.kernel.cpu

abbrev pub move : System → Phase → ℕ → Phase
move s p = put s.phase (cpu_of s) p

-- The thread is in none of the calls: it may call any of them.
abbrev pub is_between : Phase → Bool
is_between outside = true
is_between trying = false
is_between asleep = false
is_between taken = false
is_between inside = true
is_between leaving = false

-- The thread is in sema_down.
abbrev pub in_down : Phase → Bool
in_down outside = false
in_down trying = true
in_down asleep = true
in_down taken = false
in_down inside = false
in_down leaving = false

abbrev pub is_blocked_in : Kernel → ℕ → Bool
is_blocked_in k t = is_blocked (status_of k t)

-- What the rest of the kernel does, a switch of threads included: it keeps the scheduler's invariant, and
-- a thread that is in sema_down of the lock is neither blocked nor unblocked nor ended.
pub record Elsewhere (k : Kernel) (phase : ℕ → Phase) (k' : Kernel) : Type 0 where
  pub sched : IsSched k'
  pub same_idle : k'.idle_thread ≡ k.idle_thread
  pub in_down_kept :
      (t : ℕ)
      → in_down (phase t) ≡ true
      → (is_thread k' t ≡ is_thread k t)
        × (is_blocked_in k' t ≡ is_blocked_in k t)
        × (is_dying (status_of k' t) ≡ is_dying (status_of k t))

-- A step of the running thread in lock_acquire, lock_try_acquire or lock_release, or of the kernel
-- elsewhere. A thread that is in none of the calls may call each of them, whether it has the lock or not:
-- only the assertions keep it from going on. A thread that was asleep goes on when it has the CPU. The
-- idle thread calls none of them.
pub data Step : System → System → Type 0 where
  start_acquire :
      (s : System)
      → is_between (s.phase (cpu_of s)) ≡ true
      → cpu_of s ≢ s.kernel.idle_thread
      → acquire_checks s.kernel s.lock ≡ ok tt
      → Step s (record s { phase = move s trying })
  round_sleeps :
      (s : System) (k : Kernel) (sema : Semaphore)
      → s.phase (cpu_of s) ≡ trying
      → sema_down_round s.kernel s.lock.semaphore ≡ ok (sleeps, k, sema)
      → Step s
          (record { kernel = k; lock = record s.lock { semaphore = sema }; phase = move s asleep })
  resumes : (s : System) → s.phase (cpu_of s) ≡ asleep → Step s (record s { phase = move s trying })
  round_takes :
      (s : System) (k : Kernel) (sema : Semaphore)
      → s.phase (cpu_of s) ≡ trying
      → sema_down_round s.kernel s.lock.semaphore ≡ ok (takes, k, sema)
      → Step s
          (record { kernel = k; lock = record s.lock { semaphore = sema }; phase = move s taken })
  set_holder :
      (s : System)
      → s.phase (cpu_of s) ≡ taken
      → Step s (record s { lock = record s.lock { holder = cpu_of s }; phase = move s inside })
  try_takes :
      (s : System) (sema : Semaphore)
      → is_between (s.phase (cpu_of s)) ≡ true
      → try_checks s.kernel s.lock ≡ ok tt
      → sema_try_down s.lock.semaphore ≡ (sema, true)
      → Step s (record s { lock = record s.lock { semaphore = sema }; phase = move s taken })
  start_release :
      (s : System)
      → is_between (s.phase (cpu_of s)) ≡ true
      → release_checks s.kernel s.lock ≡ ok tt
      → Step s (record s { lock = record s.lock { holder = null }; phase = move s leaving })
  finish_release :
      (s : System) (k : Kernel) (sema : Semaphore)
      → s.phase (cpu_of s) ≡ leaving
      → sema_up s.kernel s.lock.semaphore ≡ ok (k, sema)
      → Step s
          (record { kernel = k; lock = record s.lock { semaphore = sema }; phase = move s outside })
  elsewhere :
      (s : System) (k : Kernel) → Elsewhere s.kernel s.phase k → Step s (record s { kernel = k })

-- The states of a lock that lock_init made, whatever the threads do from a state with the scheduler's
-- invariant on.
pub data Reachable : System → Type 0 where
  start :
      (k : Kernel)
      → IsSched k
      → Reachable (record { kernel = k; lock = lock_init; phase = λ t. outside })
  next : (s s' : System) → Reachable s → Step s s' → Reachable s'
