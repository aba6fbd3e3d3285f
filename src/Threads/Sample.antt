-- ===== src/Threads/Sample.antt =====
-- A state of threads/thread.c to evaluate on: 1 runs, 2 and 3 are ready, 4 is the idle thread, and 5
-- is blocked.
use ee468_pintos_project.Prelude.{
  ◌≡◌, refl, ap, ℕ, [], ◌∷◌, arith, ◌==◌, if◌then◌else◌, true, false,
}
use ee468_pintos_project.Threads.{
  Kernel, Status, thread_running, thread_ready, thread_blocked, thread_dying, lock_init,
  thread_magic, is_thread,
}
use ee468_pintos_project.Threads.Sched.{IsSched}

abbrev pub code : Status → ℕ
code thread_running = 0
code thread_ready = 1
code thread_blocked = 2
code thread_dying = 3

abbrev status : ℕ → Status
status a =
    if a == 1
    then thread_running
    else if a == 2
    then thread_ready
    else if a == 3
    then thread_ready
    else if a == 4
    then thread_blocked
    else thread_blocked

abbrev pub five : Kernel
five = record {
  threads = λ a. record {
    tid = a;
    status = status a;
    name = [];
    stack = 0;
    priority = 31;
    open_files = [];
    next_fd = 2;
    child_load = 0;
    child_lock = lock_init;
    child_condition = record { cond_waiters = [] };
    children = [];
    parent_tid = 0;
    pagedir = 0;
    magic = thread_magic;
  };
  ready_list = 2 ∷ 3 ∷ [];
  all_list = 1 ∷ 2 ∷ 3 ∷ 4 ∷ 5 ∷ [];
  cpu = 1;
  idle_thread = 4;
  initial_thread = 1;
  next_tid = 6;
  idle_ticks = 0;
  kernel_ticks = 0;
  user_ticks = 0;
  thread_ticks = 4;
  intr_on = false;
  intr_context = false;
  yield_on_return = false;
  words = λ a. 0;
}

pub five-IsSched : IsSched five
unfolding is_thread
five-IsSched = record {
  queue = record {
    queued = λ t m. (ground arith, ground arith);
    listed = λ t there st ne. let h = ap code st in ground arith;
    once = (refl, (refl, tt));
    idle_out = refl;
    idle_there = refl;
    idle_lives = refl;
    threads_only = refl;
  };
  current = refl;
  runs = refl;
  alone = λ t there st. let h = ap code st in ground arith;
}

pub there : (t : ℕ) → (t == 0) ≡ false → is_thread five t ≡ true
unfolding is_thread
there t ne = ground arith
