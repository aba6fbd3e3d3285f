-- ===== src/Threads.antt =====
-- threads/thread.c: the threads of the kernel and its round-robin scheduler. A thread is the address
-- of its page; null is 0. The lists of threads are the sequences of their elements, which is what
-- the operations of lib/kernel/list.c do to a list. A function that switches threads ends in the
-- thread that goes on, with interrupts still off; that thread then restores its own level.
pub mod Sched
pub mod Switch
pub mod Change
pub mod Calls
pub mod Unblock
pub mod Turns
pub mod Sample
mod Tests
use ee468_pintos_project.Prelude.{
  ℕ, zero, suc, ◌+◌, ◌-◌, ◌%◌, ◌^◌, Bool, true, false, not, ◌&&◌, ◌||◌, ltb, leb, ◌==◌,
  if◌then◌else◌, List, [], ◌∷◌, ◌++◌, Outcome, ok, panic, ◌>>=◌, ◌>>◌, assert,
}
use ee468_pintos_project.Memory.{null}

-- enum thread_status.
pub data Status : Type 0 where
  thread_running : Status
  thread_ready : Status
  thread_blocked : Status
  thread_dying : Status

abbrev pub is_running : Status → Bool
is_running thread_running = true
is_running thread_ready = false
is_running thread_blocked = false
is_running thread_dying = false

abbrev pub is_blocked : Status → Bool
is_blocked thread_running = false
is_blocked thread_ready = false
is_blocked thread_blocked = true
is_blocked thread_dying = false

abbrev pub is_dying : Status → Bool
is_dying thread_running = false
is_dying thread_ready = false
is_dying thread_blocked = false
is_dying thread_dying = true

-- struct semaphore, struct lock and struct condition of threads/synch.h, with the waiters in order.
pub record Semaphore : Type 0 where
  pub value : ℕ
  pub waiters : List ℕ

pub record Lock : Type 0 where
  pub holder : ℕ
  pub semaphore : Semaphore

pub record Condition : Type 0 where
  pub cond_waiters : List ℕ

-- The fields of a struct thread that thread.c sets; memset clears the others.
pub record Thread : Type 0 where
  pub tid : ℕ
  pub status : Status
  pub name : List ℕ
  pub stack : ℕ
  pub priority : ℕ
  pub open_files : List ℕ
  pub next_fd : ℕ
  pub child_load : ℕ
  pub child_lock : Lock
  pub child_condition : Condition
  pub children : List ℕ
  pub parent_tid : ℕ
  pub pagedir : ℕ
  pub magic : ℕ

-- The variables of thread.c, the CPU's thread (running_thread), its interrupt state and the words
-- of the kernel stacks by address.
pub record Kernel : Type 0 where
  pub threads : ℕ → Thread
  pub ready_list : List ℕ
  pub all_list : List ℕ
  pub cpu : ℕ
  pub idle_thread : ℕ
  pub initial_thread : ℕ
  pub next_tid : ℕ
  pub idle_ticks : ℕ
  pub kernel_ticks : ℕ
  pub user_ticks : ℕ
  pub thread_ticks : ℕ
  pub intr_on : Bool
  pub intr_context : Bool
  pub yield_on_return : Bool
  pub words : ℕ → ℕ

abbrev pub put {ℓ} : {A : Type ℓ} → (ℕ → A) → ℕ → A → ℕ → A
put f a v x = if x == a then v else f x

abbrev pub thread_magic : ℕ
thread_magic = 0xcd6abf4b

abbrev pub pri_max : ℕ
pri_max = 63

abbrev pub pgsize : ℕ
pgsize = 4096

abbrev time_slice : ℕ
time_slice = 4

abbrev pub tid_error : ℕ
tid_error = 2 ^ 32 - 1

unfoldable pub is_thread : Kernel → ℕ → Bool
is_thread k t = not (t == null) && ((k.threads t).magic == thread_magic)

abbrev pub set_status : Kernel → ℕ → Status → Kernel
set_status k t s = record k { threads = put k.threads t (record (k.threads t) { status = s }) }

unfoldable pub thread_current : Kernel → Outcome ℕ
thread_current k = do
  assert (is_thread k k.cpu)
  assert (is_running (k.threads k.cpu).status)
  ok k.cpu

-- list_remove on a sequence of distinct threads.
pub drop : ℕ → List ℕ → List ℕ
drop t [] = []
drop t (x ∷ xs) = if x == t then xs else x ∷ drop t xs

abbrev pub pick_next : Kernel → List ℕ → Kernel × ℕ
pick_next k [] = (k, k.idle_thread)
pick_next k (t ∷ ts) = (record k { ready_list = ts }, t)

unfoldable pub next_thread_to_run : Kernel → Kernel × ℕ
next_thread_to_run k = pick_next k k.ready_list

-- palloc_free_page on the page of a thread: no thread stands there any more.
unfoldable pub free_thread : Kernel → ℕ → Kernel
free_thread k t = record k { threads = put k.threads t (record (k.threads t) { magic = 0 }) }

unfoldable pub thread_schedule_tail : Kernel → ℕ → Outcome Kernel
thread_schedule_tail k prev = do
  assert (not k.intr_on)
  let k1 = record (set_status k k.cpu thread_running) { thread_ticks = 0 }
  if not (prev == null) && is_dying (k1.threads prev).status && not (prev == k1.initial_thread)
      then assert (not (prev == k1.cpu)) >> ok (free_thread k1 prev)
      else ok k1

-- switch_threads makes `next` the thread of the CPU and returns the old one in it.
unfoldable pub switch_to : Kernel → (cur next : ℕ) → Outcome Kernel
switch_to k cur next = do
  assert (not k.intr_on)
  assert (not (is_running (k.threads cur).status))
  assert (is_thread k next)
  if cur == next
      then thread_schedule_tail k null
      else thread_schedule_tail (record k { cpu = next }) cur

unfoldable pub schedule : Kernel → Outcome Kernel
schedule k = let (k1, next) = next_thread_to_run k in switch_to k1 k.cpu next

unfoldable pub thread_block : Kernel → Outcome Kernel
thread_block k = do
  assert (not k.intr_context)
  assert (not k.intr_on)
  t ← thread_current k
  schedule (set_status k t thread_blocked)

unfoldable pub thread_unblock : Kernel → ℕ → Outcome Kernel
thread_unblock k t = do
  assert (is_thread k t)
  assert (is_blocked (k.threads t).status)
  ok (set_status (record k { ready_list = k.ready_list ++ t ∷ [] }) t thread_ready)

pub thread_yield : Kernel → Outcome Kernel
thread_yield k = do
  cur ← thread_current k
  assert (not k.intr_context)
  let k1 = record k { intr_on = false }
  let k2 =
      if cur == k1.idle_thread then k1 else record k1 { ready_list = k1.ready_list ++ cur ∷ [] }
  schedule (set_status k2 cur thread_ready)

-- thread_exit behind process_exit.
pub thread_exit : Kernel → Outcome Kernel
thread_exit k = do
  assert (not k.intr_context)
  t ← thread_current k
  schedule (set_status (record k { intr_on = false; all_list = drop t k.all_list }) t thread_dying)

pub thread_tick : Kernel → Outcome Kernel
thread_tick k = do
  t ← thread_current k
  let k1 =
      if t == k.idle_thread
      then record k { idle_ticks = k.idle_ticks + 1 }
      else if (k.threads t).pagedir == null
      then record k { kernel_ticks = k.kernel_ticks + 1 }
      else record k { user_ticks = k.user_ticks + 1 }
  let k2 = record k1 { thread_ticks = k1.thread_ticks + 1 }
  ok (if leb time_slice k2.thread_ticks then record k2 { yield_on_return = true } else k2)

unfoldable pub sema_init : ℕ → Semaphore
sema_init value = record { value = value; waiters = [] }

unfoldable pub lock_init : Lock
lock_init = record { holder = null; semaphore = sema_init 1 }

-- strlcpy into the 16 bytes of `name`.
pub copy_name : ℕ → List ℕ → List ℕ
copy_name zero name = []
copy_name (suc n) [] = []
copy_name (suc n) (c ∷ name) = c ∷ copy_name n name

pub init_thread : Kernel → (t : ℕ) → (name : List ℕ) → (priority : ℕ) → Outcome Kernel
init_thread k t name priority = do
  assert (not (t == null))
  assert (leb priority pri_max)
  let thread : Thread = record {
    tid = 0;
    status = thread_blocked;
    name = copy_name 15 name;
    stack = t + pgsize;
    priority = priority;
    open_files = [];
    next_fd = 2;
    child_load = 0;
    child_lock = lock_init;
    child_condition = record { cond_waiters = [] };
    children = [];
    parent_tid = 0;
    pagedir = null;
    magic = thread_magic;
  }
  ok (record k { threads = put k.threads t thread; all_list = k.all_list ++ t ∷ [] })

pub alloc_frame : Kernel → (t size : ℕ) → Outcome (Kernel × ℕ)
alloc_frame k t size = do
  assert (is_thread k t)
  assert (size % 4 == 0)
  let thread = record (k.threads t) { stack = (k.threads t).stack - size }
  ok (record k { threads = put k.threads t thread }, thread.stack)

-- allocate_tid; the lock that it takes is given back before it returns.
abbrev pub allocate_tid : Kernel → Kernel × ℕ
allocate_tid k = (record k { next_tid = k.next_tid + 1 }, k.next_tid)

-- The addresses of the code that a new thread starts with.
pub record Entry : Type 0 where
  pub switch_entry : ℕ
  pub kernel_thread : ℕ

-- The frames that a new thread starts on: for kernel_thread, switch_entry and switch_threads.
pub start_frames : Entry → Kernel → (t function aux : ℕ) → Outcome Kernel
start_frames entry k t function aux = do
  (k1, kf) ← alloc_frame k t 12
  let w1 = put (put (put k1.words kf null) (kf + 4) function) (kf + 8) aux
  (k2, ef) ← alloc_frame (record k1 { words = w1 }) t 4
  let w2 = put k2.words ef entry.kernel_thread
  (k3, sf) ← alloc_frame (record k2 { words = w2 }) t 28
  ok (record k3 { words = put (put k3.words (sf + 16) entry.switch_entry) (sf + 8) 0 })

-- `page` is what palloc_get_page returned.
pub thread_create :
    Entry
    → Kernel
    → (page : ℕ) → (name : List ℕ) → (priority function aux : ℕ) → Outcome (Kernel × ℕ)
thread_create entry k page name priority function aux = do
  assert (not (function == null))
  if page == null then ok (k, tid_error) else do
    k1 ← init_thread k page name priority
    let (k2, tid) = allocate_tid k1
    cur ← thread_current k2
    let thread : Thread = record (k2.threads page) { tid = tid; parent_tid = (k2.threads cur).tid }
    k3 ← start_frames entry (record k2 { threads = put k2.threads page thread }) page function aux
    k4 ← thread_unblock k3 page
    ok (k4, tid)
