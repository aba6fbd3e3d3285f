-- ===== src/Threads/Sched.antt =====
-- The invariant of the scheduler of threads/thread.c, while a thread runs and while it switches.
use ee468_pintos_project.Prelude.{
  ℕ, ◌≡◌, ◌≢◌, true, false, ◌==◌, if◌then◌else◌, List, [], ◌∷◌, arith,
}
use ee468_pintos_project.KernelList.Chain.{mem, Distinct}
use ee468_pintos_project.Threads.{
  Kernel, Status, thread_running, thread_ready, is_running, is_dying, is_thread, set_status,
}

abbrev pub status_of : Kernel → ℕ → Status
status_of k t = (k.threads t).status

-- What holds of the queue: its threads are ready, each stands in it once, and a ready thread stands
-- in it unless it is the idle thread, which never does.
pub record Queue (k : Kernel) : Type 0 where
  pub queued :
      (t : ℕ) → mem t k.ready_list ≡ true → (is_thread k t ≡ true) × (status_of k t ≡ thread_ready)
  pub listed :
      (t : ℕ)
      → is_thread k t ≡ true
      → status_of k t ≡ thread_ready
      → t ≢ k.idle_thread
      → mem t k.ready_list ≡ true
  pub once : Distinct k.ready_list
  pub idle_out : mem k.idle_thread k.ready_list ≡ false
  pub idle_there : is_thread k k.idle_thread ≡ true
  pub idle_lives : is_dying (status_of k k.idle_thread) ≡ false
  pub threads_only : k.intr_context ≡ false

-- The thread of the CPU is the one running thread.
pub record IsSched (k : Kernel) : Type 0 where
  pub queue : Queue k
  pub current : is_thread k k.cpu ≡ true
  pub runs : status_of k k.cpu ≡ thread_running
  pub alone : (t : ℕ) → is_thread k t ≡ true → status_of k t ≡ thread_running → t ≡ k.cpu

-- Between the change of its status and the switch no thread runs.
pub record Switching (k : Kernel) : Type 0 where
  pub queue : Queue k
  pub current : is_thread k k.cpu ≡ true
  pub off : k.intr_on ≡ false
  pub stopped : (t : ℕ) → is_thread k t ≡ true → is_running (status_of k t) ≡ false

-- The thread that runs next.
abbrev pub next_thread : ℕ → List ℕ → ℕ
next_thread idle [] = idle
next_thread idle (t ∷ ts) = t

abbrev pub rest : List ℕ → List ℕ
rest [] = []
rest (t ∷ ts) = ts

pub status-set_status :
    (k : Kernel) (t : ℕ) (s : Status) (x : ℕ)
    → status_of (set_status k t s) x ≡ (if x == t then s else status_of k x)
status-set_status k t s x = ground arith

pub is_thread-set_status :
    (k : Kernel) (t : ℕ) (s : Status) (x : ℕ) → is_thread (set_status k t s) x ≡ is_thread k x
unfolding is_thread
is_thread-set_status k t s x = ground arith
