-- ===== src/Threads/Calls.antt =====
-- thread_yield, thread_block and thread_exit of threads/thread.c.
use ee468_pintos_project.Prelude.{
  ℕ, ◌≡◌, ◌≢◌, refl, sym, ap, ◌∙◌, subst, true, false, ◌==◌, if◌then◌else◌, List, [], ◌∷◌, ◌++◌,
  arith, inl, inr, ok, Outcome, ==_ne, ==_refl, Bool-cases, ℕ_discrete,
}
use ee468_pintos_project.KernelList.Chain.{mem, Distinct, mem-append}
use ee468_pintos_project.Threads.{
  Kernel, Status, thread_running, thread_ready, thread_blocked, thread_dying, is_running, is_dying,
  is_blocked, is_thread, schedule, thread_yield, thread_block, thread_exit, thread_current, drop,
}
use ee468_pintos_project.Threads.Sched.{status_of, Queue, IsSched, Switching}
use ee468_pintos_project.Threads.Change.{
  change, at_back-Distinct, change-Queue, status_here, status_else, thread_change,
}
use ee468_pintos_project.Threads.Switch.{Switched, schedule-Switched, Switched-IsSched}

-- The running thread takes another status and leaves the queue `q` and the list `all`.
abbrev pub leave : Kernel → Status → List ℕ → List ℕ → Kernel
leave k s q all = change k k.cpu s q all

not_running : (s : Status) → s ≢ thread_running → is_running s ≡ false
not_running thread_running h = absurd (h refl)
not_running thread_ready h = refl
not_running thread_blocked h = refl
not_running thread_dying h = refl

cpu_only : (k : Kernel) → IsSched k → (t : ℕ) → mem t k.ready_list ≡ true → t ≢ k.cpu
cpu_only k v t m e =
    let h = ap is_running (sym (v.queue.queued t m).1 ∙ ap (status_of k) e ∙ v.runs) in ground arith

module _ (k : Kernel) (v : IsSched k) (s : Status) (q all : List ℕ) where
  stopped_after :
      is_running s ≡ false
      → (t : ℕ) → is_thread (leave k s q all) t ≡ true
      → is_running (status_of (leave k s q all) t) ≡ false
  stopped_after stop t there = elim (ℕ_discrete t k.cpu) [
    | yes e ↦ ap is_running (status_here k v.queue k.cpu v.current s q all t e) ∙ stop
    | no o ↦
        ap is_running (status_else k v.queue k.cpu v.current s q all t o)
        ∙ not_running (status_of k t)
            (λ h. o (v.alone t (sym (thread_change k v.queue k.cpu v.current s q all t) ∙ there) h))
  ]

  leave-Switching :
      k.intr_on ≡ false
      → is_running s ≡ false
      → Queue (leave k s q all)
      → Switching (leave k s q all)
  leave-Switching off stop queue = record {
    queue = queue;
    current = thread_change k v.queue k.cpu v.current s q all k.cpu ∙ v.current;
    off = off;
    stopped = stopped_after stop;
  }

-- What a call that gives the CPU up does: the invariant holds after it, and it is a switch of the
-- running thread, which has the status `s`, from the queue `q`.
abbrev pub GivesUp : Kernel → Status → List ℕ → List ℕ → Outcome Kernel → Type 0
GivesUp k s q all r = (k' : Kernel) × (r ≡ ok k') × IsSched k' × Switched (leave k s q all) k'

-- The calls switch from the state `leave`, once their assertions hold.
gives_up :
    (k : Kernel) (s : Status) (q all : List ℕ)
    → Switching (leave k s q all)
    → GivesUp k s q all (schedule (leave k s q all))
gives_up k s q all sw =
    let (k', r, w) = schedule-Switched (leave k s q all) sw in
    (k', r, Switched-IsSched (leave k s q all) k' sw w, w)

pub current_ok : (k : Kernel) → IsSched k → thread_current k ≡ ok k.cpu
unfolding thread_current
current_ok k v = ground (arith, v.current, v.runs)

cpu_out : (k : Kernel) → IsSched k → mem k.cpu k.ready_list ≡ false
cpu_out k v = elim (Bool-cases (mem k.cpu k.ready_list)) [
  | inl m ↦ absurd (cpu_only k v k.cpu m refl)
  | inr n ↦ n
]

-- The running thread stops and is not ready.
stop-Switching :
    (k : Kernel) (s : Status) (all : List ℕ)
    → IsSched k
    → k.intr_on ≡ false
    → is_running s ≡ false
    → s ≢ thread_ready
    → (k.cpu ≡ k.idle_thread → is_dying s ≡ false)
    → Switching (leave k s k.ready_list all)
stop-Switching k s all v off stop ne lives = leave-Switching k v s k.ready_list all off stop (
    change-Queue k v.queue k.cpu v.current s k.ready_list all (λ t n. refl)
      (λ m. absurd (cpu_only k v k.cpu m refl)) (λ h. absurd (ne h)) v.queue.once v.queue.idle_out
      lives)

-- thread_block, which is called with interrupts off, blocks the running thread and runs the first of
-- the ready list, or the idle thread when there is none; the scheduler's invariant holds again.
pub thread_block-GivesUp :
    (k : Kernel)
    → IsSched k
    → k.intr_on ≡ false
    → GivesUp k thread_blocked k.ready_list k.all_list (thread_block k)
unfolding thread_block
thread_block-GivesUp k v off =
    let (k', r, is, w) = gives_up k thread_blocked k.ready_list k.all_list (
      stop-Switching k thread_blocked k.all_list v off refl (λ h. ground (arith, ap is_blocked h))
        (λ e. refl)) in
    (k', ground (arith, v.queue.threads_only, off, current_ok k v) ∙ r, is, w)

off : Kernel → Kernel
off k = record k { intr_on = false }

pub off-IsSched : (k : Kernel) → IsSched k → IsSched (record k { intr_on = false })
unfolding off is_thread
off-IsSched k v = record {
  queue = record {
    queued = v.queue.queued;
    listed = v.queue.listed;
    once = v.queue.once;
    idle_out = v.queue.idle_out;
    idle_there = v.queue.idle_there;
    idle_lives = v.queue.idle_lives;
    threads_only = v.queue.threads_only;
  };
  current = v.current;
  runs = v.runs;
  alone = v.alone;
}

-- The ready list when the running thread yields.
abbrev pub yield_queue : Kernel → List ℕ
yield_queue k = if k.cpu == k.idle_thread then k.ready_list else k.ready_list ++ k.cpu ∷ []

yield_queue-Distinct : (k : Kernel) → IsSched k → Distinct (yield_queue k)
yield_queue-Distinct k v = elim (Bool-cases (k.cpu == k.idle_thread)) [
  | inl e ↦ subst Distinct (ground (arith, e)) v.queue.once
  | inr n ↦
      subst Distinct (ground (arith, n))
        (at_back-Distinct k.cpu k.ready_list (cpu_out k v) v.queue.once)
]

yield-Switching :
    (k : Kernel) → IsSched k → Switching (leave (off k) thread_ready (yield_queue k) k.all_list)
unfolding off
yield-Switching k v =
    let q = yield_queue k in
    let there_ends = mem-append k.cpu k.ready_list (k.cpu ∷ []) in
    let w = off-IsSched k v in
    leave-Switching (off k) w thread_ready q k.all_list refl refl (
      change-Queue (off k) w.queue k.cpu w.current thread_ready q k.all_list
        (λ t n. ground (arith, mem-append t k.ready_list (k.cpu ∷ []), ==_ne t k.cpu n)) (λ m. refl)
        (λ h n. ground (arith, there_ends, ==_refl k.cpu, ==_ne k.cpu k.idle_thread n))
        (yield_queue-Distinct k v)
        (ground (arith, v.queue.idle_out, mem-append k.idle_thread k.ready_list (k.cpu ∷ [])))
        (λ e. refl))

yields :
    (k : Kernel)
    → IsSched k
    → thread_yield k ≡ schedule (leave (off k) thread_ready (yield_queue k) k.all_list)
unfolding thread_yield off
yields k v = elim (Bool-cases (k.cpu == k.idle_thread)) [
  | inl e ↦ ground (arith, e, v.queue.threads_only, current_ok k v)
  | inr n ↦ ground (arith, n, v.queue.threads_only, current_ok k v)
]

-- thread_yield puts the running thread at the back of the ready list, unless it is the idle thread,
-- and runs the first of that list, with interrupts off; the scheduler's invariant holds again.
pub thread_yield-GivesUp :
    (k : Kernel)
    → IsSched k
    → GivesUp
        (record k { intr_on = false })
        thread_ready
        (yield_queue k)
        k.all_list
        (thread_yield k)
unfolding off
thread_yield-GivesUp k v =
    let (k', r, is, w) =
      gives_up (off k) thread_ready (yield_queue k) k.all_list (yield-Switching k v) in
    (k', yields k v ∙ r, is, w)

-- thread_exit, behind process_exit, takes a thread that is not the idle thread out of the list of
-- all threads and runs the next one, which destroys it unless it is the initial thread; the
-- scheduler's invariant holds again.
pub thread_exit-GivesUp :
    (k : Kernel)
    → IsSched k
    → k.cpu ≢ k.idle_thread
    → GivesUp
        (record k { intr_on = false })
        thread_dying
        k.ready_list
        (drop k.cpu k.all_list)
        (thread_exit k)
unfolding thread_exit off
thread_exit-GivesUp k v ne =
    let (k', r, is, w) = gives_up (off k) thread_dying k.ready_list (drop k.cpu k.all_list) (
      stop-Switching (off k) thread_dying (drop k.cpu k.all_list) (off-IsSched k v) refl refl
        (λ h. ground (arith, ap is_dying h)) (λ e. absurd (ne e))) in
    (k', ground (arith, v.queue.threads_only, current_ok k v) ∙ r, is, w)
