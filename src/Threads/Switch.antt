-- ===== src/Threads/Switch.antt =====
-- schedule of threads/thread.c.
use ee468_pintos_project.Prelude.{
  ℕ, ◌≡◌, ◌≢◌, refl, sym, ap, ap₂, ◌∙◌, subst, Bool, true, false, not, ◌&&◌, ◌==◌, if◌then◌else◌,
  List, [], ◌∷◌, arith, ok, ==_ne, ==_refl, ℕ_discrete,
}
use ee468_pintos_project.Memory.{null}
use ee468_pintos_project.KernelList.Chain.{mem, Distinct, ne_of_mem}
use ee468_pintos_project.Threads.{
  Kernel, thread_running, thread_ready, is_running, is_dying, is_thread, set_status, schedule,
  thread_schedule_tail, switch_to, next_thread_to_run, pick_next, free_thread,
}
use ee468_pintos_project.Threads.Sched.{status_of, IsSched, Switching, next_thread, rest}

-- The thread `n` runs.
pub run : Kernel → ℕ → Kernel
run k n = record (set_status (record k { cpu = n }) n thread_running) { thread_ticks = 0 }

-- thread_schedule_tail destroys the thread that the CPU leaves.
abbrev pub dies : Kernel → ℕ → Bool
dies k t = not (t == null) && is_dying (status_of k t) && not (t == k.initial_thread)

pub switched : Kernel → ℕ → Kernel
switched k n = if dies k k.cpu then free_thread (run k n) k.cpu else run k n

tail_lem :
    (k : Kernel) (prev n : ℕ)
    → k.intr_on ≡ false
    → prev ≢ n
    → thread_schedule_tail (record k { cpu = n }) prev
      ≡ ok (if dies k prev then free_thread (run k n) prev else run k n)
unfolding thread_schedule_tail run
tail_lem k prev n off ne = ground (arith, off, ==_ne prev n ne)

tail_null : (k : Kernel) → k.intr_on ≡ false → thread_schedule_tail k null ≡ ok (run k k.cpu)
unfolding thread_schedule_tail run
tail_null k off = ground (arith, off)

switch_to_self :
    (k : Kernel)
    → k.intr_on ≡ false
    → is_running (status_of k k.cpu) ≡ false
    → is_thread k k.cpu ≡ true
    → is_dying (status_of k k.cpu) ≡ false
    → switch_to k k.cpu k.cpu ≡ ok (switched k k.cpu)
unfolding switch_to switched
switch_to_self k off stop there lives =
    ground (arith, off, stop, there, lives, ==_refl k.cpu, tail_null k off)

switch_to_other :
    (k : Kernel) (n : ℕ)
    → k.cpu ≢ n
    → k.intr_on ≡ false
    → is_running (status_of k k.cpu) ≡ false
    → is_thread k n ≡ true
    → switch_to k k.cpu n ≡ ok (switched k n)
unfolding switch_to switched
switch_to_other k n ne off stop there =
    ground (arith, off, stop, there, ==_ne k.cpu n ne, tail_lem k k.cpu n off ne)

switch_to_lem :
    (k : Kernel) (n : ℕ)
    → k.intr_on ≡ false
    → is_running (status_of k k.cpu) ≡ false
    → is_thread k n ≡ true
    → is_dying (status_of k n) ≡ false
    → switch_to k k.cpu n ≡ ok (switched k n)
switch_to_lem k n off stop there lives = elim (ℕ_discrete k.cpu n) [
  | yes e ↦
      subst (λ m. switch_to k k.cpu m ≡ ok (switched k m)) e
        (switch_to_self k off stop (subst (λ m. is_thread k m ≡ true) (sym e) there)
          (subst (λ m. is_dying (status_of k m) ≡ false) (sym e) lives))
  | no ne ↦ switch_to_other k n ne off stop there
]

pick_next_lem :
    (k : Kernel) (ts : List ℕ)
    → pick_next (record k { ready_list = ts }) ts
      ≡ (record k { ready_list = rest ts }, next_thread k.idle_thread ts)
pick_next_lem k [] = refl
pick_next_lem k (t ∷ ts) = refl

-- What a switch from the state `k` leads to: the next thread runs with a new time slice, it has left
-- the queue, and a dying thread that the CPU leaves is destroyed, unless it is the initial one.
pub record Switched (k k' : Kernel) : Type 0 where
  pub goes_on : k'.cpu ≡ next_thread k.idle_thread k.ready_list
  pub left : k'.ready_list ≡ rest k.ready_list
  pub same_idle : k'.idle_thread ≡ k.idle_thread
  pub same_all : k'.all_list ≡ k.all_list
  pub statuses : (t : ℕ) → status_of k' t ≡ (if t == k'.cpu then thread_running else status_of k t)
  pub still_there : (t : ℕ) → is_thread k' t ≡ (not (t == k.cpu && dies k k.cpu) && is_thread k t)
  pub still_off : k'.intr_on ≡ k.intr_on
  pub same_context : k'.intr_context ≡ k.intr_context
  pub new_slice : k'.thread_ticks ≡ 0

status-free_thread : (k : Kernel) (t x : ℕ) → status_of (free_thread k t) x ≡ status_of k x
unfolding free_thread
status-free_thread k t x = ground arith

is_thread-free_thread :
    (k : Kernel) (t x : ℕ) → is_thread (free_thread k t) x ≡ (not (x == t) && is_thread k x)
unfolding free_thread is_thread
is_thread-free_thread k t x = ground arith

is_thread-run : (k : Kernel) (n x : ℕ) → is_thread (run k n) x ≡ is_thread k x
unfolding run is_thread
is_thread-run k n x = ground arith

status-run :
    (k : Kernel) (n x : ℕ)
    → status_of (run k n) x ≡ (if x == n then thread_running else status_of k x)
unfolding run
status-run k n x = ground arith

module _ (k : Kernel) where
  next_of : ℕ
  next_of = next_thread k.idle_thread k.ready_list

  popped : Kernel
  popped = record k { ready_list = rest k.ready_list }

  is_thread-popped : (t : ℕ) → is_thread popped t ≡ is_thread k t
  unfolding popped is_thread
  is_thread-popped t = refl

  by_death :
      (b : Bool)
      → dies k k.cpu ≡ b
      → Switched k (if b then free_thread (run popped next_of) k.cpu else run popped next_of)
  unfolding free_thread run popped next_of
  by_death true e = record {
    goes_on = refl;
    left = refl;
    same_idle = refl;
    same_all = refl;
    statuses = λ t. status-free_thread (run popped next_of) k.cpu t ∙ status-run popped next_of t;
    still_there = λ t. ground (
      arith,
      e,
      is_thread-free_thread (run popped next_of) k.cpu t,
      is_thread-run popped next_of t,
      is_thread-popped t,
    );
    still_off = refl;
    same_context = refl;
    new_slice = refl;
  }
  by_death false e = record {
    goes_on = refl;
    left = refl;
    same_idle = refl;
    same_all = refl;
    statuses = λ t. status-run popped next_of t;
    still_there = λ t. ground (arith, e, is_thread-run popped next_of t, is_thread-popped t);
    still_off = refl;
    same_context = refl;
    new_slice = refl;
  }

  switched-Switched : Switched k (switched popped next_of)
  unfolding switched popped next_of
  switched-Switched = by_death (dies k k.cpu) refl

module _ (k : Kernel) (s : Switching k) where
  next : ℕ
  next = next_thread k.idle_thread k.ready_list

  -- The next thread is a thread that is not dying.
  next-facts : (is_thread k next ≡ true) × (is_dying (status_of k next) ≡ false)
  unfolding next
  next-facts = by_list k.ready_list s.queue.queued
    where
      by_list :
          (ts : List ℕ)
          → ((t : ℕ) → mem t ts ≡ true → (is_thread k t ≡ true) × (status_of k t ≡ thread_ready))
          → (is_thread k (next_thread k.idle_thread ts) ≡ true)
            × (is_dying (status_of k (next_thread k.idle_thread ts)) ≡ false)
      by_list [] q = (s.queue.idle_there, s.queue.idle_lives)
      by_list (t ∷ ts) q = let (a, b) = q t (ground (arith, ==_refl t)) in (a, ap is_dying b)

  schedule_ok : schedule k ≡ ok (switched (popped k) next)
  unfolding schedule next_thread_to_run next is_thread popped
  schedule_ok =
      ap (λ p. switch_to p.0 k.cpu p.1) (pick_next_lem k k.ready_list)
      ∙ switch_to_lem (popped k) next s.off (s.stopped k.cpu s.current) next-facts.0 next-facts.1

  pub schedule-Switched : (k' : Kernel) × (schedule k ≡ ok k') × Switched k k'
  unfolding next next_of
  schedule-Switched = (switched (popped k) next, schedule_ok, switched-Switched k)

rest-mem : (t : ℕ) (ts : List ℕ) → mem t (rest ts) ≡ true → mem t ts ≡ true
rest-mem t [] m = m
rest-mem t (x ∷ ts) m = ground arith

rest-Distinct :
    (idle : ℕ) (ts : List ℕ)
    → Distinct ts
    → mem idle ts ≡ false
    → Distinct (rest ts)
      × (mem (next_thread idle ts) (rest ts) ≡ false)
      × ((t : ℕ) → mem t ts ≡ true → t ≢ next_thread idle ts → mem t (rest ts) ≡ true)
rest-Distinct idle [] d o = (tt, refl, λ t m ne. m)
rest-Distinct idle (x ∷ ts) d o = (d.1, d.0, λ t m ne. ground arith)

ready_or_running : thread_ready ≢ thread_running
ready_or_running h = ground (arith, ap is_running h)

module _ (k k' : Kernel) (s : Switching k) (w : Switched k k') where
  facts :
      Distinct (rest k.ready_list)
      × (mem (next_thread k.idle_thread k.ready_list) (rest k.ready_list) ≡ false)
      × ((t : ℕ)
          → mem t k.ready_list ≡ true
          → t ≢ next_thread k.idle_thread k.ready_list
          → mem t (rest k.ready_list) ≡ true)
  facts = rest-Distinct k.idle_thread k.ready_list s.queue.once s.queue.idle_out

  -- A thread that is not dying is not destroyed.
  stays : (t : ℕ) → is_thread k t ≡ true → is_dying (status_of k t) ≡ false → is_thread k' t ≡ true
  stays t there lives = elim (ℕ_discrete t k.cpu) [
    | yes e ↦
        let d : is_dying (status_of k k.cpu) ≡ false =
          subst (λ x. is_dying (status_of k x) ≡ false) e lives in
        ground (arith, w.still_there t, d)
    | no ne ↦ ground (arith, w.still_there t, ==_ne t k.cpu ne)
  ]

  left-mem : (t : ℕ) → mem t k'.ready_list ≡ true → mem t (rest k.ready_list) ≡ true
  left-mem t m = sym (ap (mem t) w.left) ∙ m

  was_there : (t : ℕ) → is_thread k' t ≡ true → is_thread k t ≡ true
  was_there t m = ground (arith, w.still_there t)

  not_next : (t : ℕ) → mem t (rest k.ready_list) ≡ true → t ≢ k'.cpu
  not_next t m e =
      ne_of_mem t (next_thread k.idle_thread k.ready_list) (rest k.ready_list) m facts.1
        (e ∙ w.goes_on)

  status_else : (t : ℕ) → t ≢ k'.cpu → status_of k' t ≡ status_of k t
  status_else t ne = ground (arith, w.statuses t, ==_ne t k'.cpu ne)

  status_cpu : status_of k' k'.cpu ≡ thread_running
  status_cpu = ground (arith, w.statuses k'.cpu)

  idle_stays_out : mem k'.idle_thread k'.ready_list ≡ false
  idle_stays_out =
      ground
        (arith, s.queue.idle_out, rest-mem k.idle_thread k.ready_list, ap₂ mem w.same_idle w.left)

  idle_stays : is_dying (status_of k' k'.idle_thread) ≡ false
  idle_stays =
      ground (arith, w.statuses k'.idle_thread, ap (status_of k) w.same_idle, s.queue.idle_lives)

  is_next : (t : ℕ) → is_thread k' t ≡ true → status_of k' t ≡ thread_running → t ≡ k'.cpu
  is_next t there st = elim (ℕ_discrete t k'.cpu) [
    | yes e ↦ e
    | no ne ↦
        let h = ap is_running (sym (status_else t ne) ∙ st) in
        ground (arith, s.stopped t (was_there t there))
  ]

  -- After the switch the invariant holds.
  pub Switched-IsSched : IsSched k'
  unfolding next
  Switched-IsSched =
      let nf = next-facts k s in
      record {
        queue = record {
          queued = λ t m.
              let m' = left-mem t m in
              let (there, st) = s.queue.queued t (rest-mem t k.ready_list m') in
              (stays t there (ap is_dying st), status_else t (not_next t m') ∙ st);
          listed = λ t there st ne.
              let ne' : t ≢ k'.cpu =
                λ e. ready_or_running (sym st ∙ ap (status_of k') e ∙ status_cpu) in
              ap (mem t) w.left
              ∙ facts.2 t
                  (s.queue.listed t (was_there t there) (sym (status_else t ne') ∙ st)
                    (λ e. ne (e ∙ sym w.same_idle)))
                  (λ e. ne' (e ∙ sym w.goes_on));
          once = subst Distinct (sym w.left) facts.0;
          idle_out = idle_stays_out;
          idle_there =
              subst (λ t. is_thread k' t ≡ true) (sym w.same_idle)
                (stays k.idle_thread s.queue.idle_there s.queue.idle_lives);
          idle_lives = idle_stays;
          threads_only = w.same_context ∙ s.queue.threads_only;
        };
        current =
            subst (λ t. is_thread k' t ≡ true) (sym w.goes_on)
              (stays (next_thread k.idle_thread k.ready_list) nf.0 nf.1);
        runs = status_cpu;
        alone = λ t there st. is_next t there st;
      }
