-- ===== src/Synch/Tests.antt =====
-- threads/synch.c on the threads of Threads/Tests.antt.
use ee468_pintos_project.Prelude.{
  ◌≡◌, refl, sym, subst, ap, ℕ, List, [], ◌∷◌, ok, true, ◌≢◌, ◌⊎◌, arith, ◌==◌, if◌then◌else◌,
}
use ee468_pintos_project.Memory.{null}
use ee468_pintos_project.KernelList.Chain.{mem, Distinct}
use ee468_pintos_project.Threads.{
  Kernel, Lock, Status, thread_running, thread_ready, thread_blocked, lock_init, sema_init,
  is_thread, is_dying, thread_current, thread_block, thread_unblock, schedule, thread_schedule_tail,
  switch_to, next_thread_to_run, set_status,
}
use ee468_pintos_project.Threads.Change.{change}
use ee468_pintos_project.Threads.Sched.{IsSched, status_of}
use ee468_pintos_project.Threads.Sample.{five, five-IsSched, code}
use ee468_pintos_project.Synch.{
  sleeps, takes, System, Reachable, Step, start, next, start_acquire, round_takes, round_sleeps,
  set_holder, start_release, finish_release, elsewhere, Elsewhere, outside, trying, asleep, taken,
  inside, leaving, in_down, sema_down_round, sema_sleep, sema_up, wake, is_blocked_in,
  acquire_checks, release_checks, lock_held_by_current_thread, move,
}
use ee468_pintos_project.Synch.Excludes.{critical, is_inside}
use ee468_pintos_project.Synch.Exclusion.{lock_excludes, no_lost_wakeup}
use ee468_pintos_project.Synch.Returns.{Down, round-Down}

-- Thread 1 calls lock_acquire on a lock that nobody holds, and is inside.
abbrev s0 : System
s0 = record { kernel = five; lock = lock_init; phase = λ t. outside }

abbrev s1 : System
s1 = record s0 { phase = move s0 trying }

abbrev s2 : System
s2 = record s1 {
  lock = record { holder = null; semaphore = record { value = 0; waiters = [] } };
  phase = move s1 taken;
}

abbrev s3 : System
s3 = record s2 { lock = record s2.lock { holder = 1 }; phase = move s2 inside }

checks : acquire_checks five lock_init ≡ ok tt
unfolding acquire_checks lock_held_by_current_thread thread_current is_thread lock_init
checks = refl

one_round :
    sema_down_round five (sema_init 1) ≡ ok (takes, five, record { value = 0; waiters = [] })
unfolding sema_down_round sema_init
one_round = refl

abbrev placed : (ℕ → Status) → (cpu : ℕ) → List ℕ → Kernel
placed st cpu ready = record five {
  threads = λ a. record (five.threads a) { status = st a };
  ready_list = ready;
  cpu = cpu;
}

abbrev two_runs : ℕ → Status
two_runs a =
    if a == 1
    then thread_ready
    else if a == 2
    then thread_running
    else if a == 3
    then thread_ready
    else thread_blocked

abbrev two_blocked : ℕ → Status
two_blocked a =
    if a == 1
    then thread_running
    else if a == 2
    then thread_blocked
    else if a == 3
    then thread_ready
    else thread_blocked

-- Then 1 gives the CPU up: 2 runs, and 3 and 1 are ready.
abbrev after_yield : Kernel
after_yield = placed two_runs 2 (3 ∷ 1 ∷ [])

-- 2 calls lock_acquire and sleeps: 3 runs.
abbrev asleep_two : Kernel
asleep_two =
    record (change (record (set_status after_yield 2 thread_blocked) { cpu = 3 }) 3 thread_running
      (1 ∷ []) after_yield.all_list) { thread_ticks = 0 }

abbrev held : Lock
held = record { holder = 1; semaphore = record { value = 0; waiters = [] } }

abbrev wanted : Lock
wanted = record { holder = 1; semaphore = record { value = 0; waiters = 2 ∷ [] } }

abbrev s4 : System
s4 = record s3 { kernel = after_yield }

abbrev s5 : System
s5 = record s4 { phase = move s4 trying }

abbrev s6 : System
s6 = record { kernel = asleep_two; lock = wanted; phase = move s5 asleep }

-- 3 gives the CPU up: 1 runs again, releases the lock, and unblocks 2.
abbrev back : Kernel
back = placed two_blocked 1 (3 ∷ [])

abbrev s7 : System
s7 = record s6 { kernel = back }

abbrev s8 : System
s8 = record s7 { lock = record s7.lock { holder = null }; phase = move s7 leaving }

abbrev woken : Kernel
woken = change back 2 thread_ready (3 ∷ 2 ∷ []) back.all_list

abbrev s9 : System
s9 = record {
  kernel = woken;
  lock = record { holder = null; semaphore = record { value = 1; waiters = [] } };
  phase = move s8 outside;
}

after_yield-IsSched : IsSched after_yield
unfolding is_thread
after_yield-IsSched = record {
  queue = record {
    queued = λ t m. (ground arith, ground arith);
    listed = λ t there st ne. let h = ap code st in ground arith;
    once = (refl, (refl, tt));
    idle_out = refl;
    idle_there = refl;
    idle_lives = refl;
    threads_only = refl;
  };
  current = refl;
  runs = refl;
  alone = λ t there st. let h = ap code st in ground arith;
}

back-IsSched : IsSched back
unfolding is_thread
back-IsSched = record {
  queue = record {
    queued = λ t m. (ground arith, ground arith);
    listed = λ t there st ne. let h = ap code st in ground arith;
    once = (refl, tt);
    idle_out = refl;
    idle_there = refl;
    idle_lives = refl;
    threads_only = refl;
  };
  current = refl;
  runs = refl;
  alone = λ t there st. let h = ap code st in ground arith;
}

yields : Elsewhere s3.kernel s3.phase after_yield
yields = record {
  sched = after_yield-IsSched;
  same_idle = refl;
  in_down_kept = λ t d. ground (arith, d);
}

checks_two : acquire_checks after_yield held ≡ ok tt
unfolding acquire_checks lock_held_by_current_thread thread_current is_thread
checks_two = refl

sleep_round : sema_down_round after_yield held.semaphore ≡ ok (sleeps, asleep_two, wanted.semaphore)
unfolding sema_down_round sema_sleep thread_current is_thread thread_block schedule
    thread_schedule_tail switch_to next_thread_to_run
sleep_round = refl

switches : Elsewhere s6.kernel s6.phase back
unfolding is_thread
switches = record {
  sched = back-IsSched;
  same_idle = refl;
  in_down_kept = λ t d.
      let two : t ≡ 2 = ground (arith, d) in
      subst
        (λ x.
          (is_thread back x ≡ is_thread asleep_two x)
          × (is_blocked_in back x ≡ is_blocked_in asleep_two x)
          × (is_dying (status_of back x) ≡ is_dying (status_of asleep_two x)))
        (sym two) (refl, refl, refl);
}

release : release_checks back wanted ≡ ok tt
unfolding release_checks lock_held_by_current_thread thread_current is_thread
release = refl

up : sema_up back wanted.semaphore ≡ ok (woken, record { value = 1; waiters = [] })
unfolding sema_up wake thread_unblock is_thread
up = refl

step1 : Step s0 s1
step1 = start_acquire s0 refl (λ e. omega (arith, e)) checks

step2 : Step s1 s2
unfolding lock_init sema_init
step2 = round_takes s1 five (record { value = 0; waiters = [] }) refl one_round

step3 : Step s2 s3
step3 = set_holder s2 refl

step4 : Step s3 s4
step4 = elsewhere s3 after_yield yields

step5 : Step s4 s5
step5 = start_acquire s4 refl (λ e. omega (arith, e)) checks_two

step6 : Step s5 s6
step6 = round_sleeps s5 asleep_two wanted.semaphore refl sleep_round

step7 : Step s6 s7
step7 = elsewhere s6 back switches

step8 : Step s7 s8
step8 = start_release s7 refl release

step9 : Step s8 s9
step9 = finish_release s8 woken (record { value = 1; waiters = [] }) refl up

reach : Reachable s6
reach =
    next s5 s6
      (next s4 s5
        (next s3 s4
          (next s2 s3 (next s1 s2 (next s0 s1 (start five five-IsSched) step1) step2) step3) step4)
        step5)
      step6

-- The lock is released, and the thread that waited is ready.
reach_woken : Reachable s9
reach_woken = next s8 s9 (next s7 s8 (next s6 s7 reach step7) step8) step9

lock_excludes_example :
    ((t u : ℕ) → critical (s6.phase t) ≡ true → critical (s6.phase u) ≡ true → t ≡ u)
    × ((t : ℕ) → s6.phase t ≡ inside → s6.lock.holder ≡ t)
    × (s6.lock.holder ≢ null → is_inside (s6.phase s6.lock.holder) ≡ true)
lock_excludes_example = lock_excludes s6 reach

no_lost_wakeup_example :
    Distinct s6.lock.semaphore.waiters
    × ((t : ℕ)
        → mem t s6.lock.semaphore.waiters ≡ true
        → (s6.phase t ≡ asleep) × (status_of asleep_two t ≡ thread_blocked))
    × ((t : ℕ)
        → s6.phase t ≡ asleep
        → status_of asleep_two t ≡ thread_blocked
        → mem t s6.lock.semaphore.waiters ≡ true)
    × ((t : ℕ) → s6.phase t ≡ trying → status_of asleep_two t ≢ thread_blocked)
    × ((s6.lock.semaphore.waiters ≡ [])
        ⊎ ((s6.lock.semaphore.value ≡ 0)
            ⊎ ((t : ℕ) × (in_down (s6.phase t) ≡ true)
                × ((t ≡ asleep_two.cpu) ⊎ (mem t asleep_two.ready_list ≡ true)))))
no_lost_wakeup_example = no_lost_wakeup s6 reach

round-Down_example : Down five (sema_init 0) (sema_down_round five (sema_init 0))
round-Down_example = round-Down five (sema_init 0) five-IsSched
