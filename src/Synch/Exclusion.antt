-- ===== src/Synch/Exclusion.antt =====
-- Mutual exclusion and wake-ups of a lock of threads/synch.c, in every state that threads can reach.
use ee468_pintos_project.Prelude.{
  ℕ, ◌-◌, ◌≡◌, ◌≢◌, refl, sym, ap, ◌∙◌, subst, Bool, true, false, if◌then◌else◌, [], arith, inl,
  inr, Bool-cases, ltb, ◌⊎◌,
}
use ee468_pintos_project.Memory.{null}
use ee468_pintos_project.KernelList.Chain.{mem, Distinct}
use ee468_pintos_project.Threads.{
  Kernel, Status, thread_running, thread_ready, thread_blocked, thread_dying, is_blocked, is_dying,
  lock_init, sema_init, put, Semaphore,
}
use ee468_pintos_project.Threads.Sched.{IsSched, status_of}
use ee468_pintos_project.Synch.{
  Phase, outside, trying, asleep, taken, inside, leaving, System, Step, Reachable, start_acquire,
  round_sleeps, resumes, round_takes, set_holder, try_takes, start_release, finish_release,
  elsewhere, start, next, cpu_of, sema_try_down, in_down, is_between,
}
use ee468_pintos_project.Synch.Excludes.{Excl, critical, is_inside, owner}
use ee468_pintos_project.Synch.Guards.{cpu_real, acquire_lem, release_lem}
use ee468_pintos_project.Synch.Effects.{Lives, sleeps_lem, takes_lem, up_lem}
use ee468_pintos_project.Synch.Invariant.{
  LockInv, trying-LockInv, take-LockInv, hold-LockInv, sleep-LockInv, waiting_living, up-LockInv,
  Elsewhere-LockInv,
}

abbrev pub Inv : System → Type 0
Inv s = LockInv s.kernel s.lock.semaphore s.lock.holder s.phase

abbrev pair : Semaphore → Bool → Semaphore × Bool
pair sema b = (sema, b)

try_cases :
    (b : Bool) (x y z : Semaphore)
    → (if b then pair x true else pair y false) ≡ pair z true
    → (b ≡ true) × (z ≡ x)
try_cases true x y z h = (refl, sym (ap (λ p. p.0) h))
try_cases false x y z h = let e = ap (λ p. p.1) h in ground arith

try_down_lem :
    (sema sema' : Semaphore)
    → sema_try_down sema ≡ (sema', true)
    → (sema.value ≢ 0) × (sema' ≡ record sema { value = sema.value - 1 })
unfolding sema_try_down
try_down_lem sema sema' h =
    let (b, e) =
      try_cases (ltb 0 sema.value) (record sema { value = sema.value - 1 }) sema sema' h in
    ((λ z. ground arith), e)

exclusion :
    (v h : ℕ) (phase : ℕ → Phase)
    → Excl v h phase
    → ((t u : ℕ) → critical (phase t) ≡ true → critical (phase u) ≡ true → t ≡ u)
      × ((t : ℕ) → phase t ≡ inside → h ≡ t)
      × (h ≢ null → is_inside (phase h) ≡ true)
exclusion v h phase (inl (a, b, cr)) = (
  (λ t u ct cu. ground (arith, cr t)),
  (λ t i. let x = ap critical i in ground (arith, cr t)),
  λ ne. absurd (ne b),
)
exclusion v h phase (inr (o, a, b, cr)) = (
  (λ t u ct cu. sym (owner phase o t cr ct) ∙ owner phase o u cr cu),
  (λ t i.
      let o_t = owner phase o t cr (ap critical i) in
      b
      ∙ ap (λ x. if is_inside (phase x) then x else null) o_t
      ∙ ap (λ p. if is_inside p then t else null) i),
  λ ne. elim (Bool-cases (is_inside (phase o))) [
    | inl i ↦ ap (λ x. is_inside (phase x)) (b ∙ ap (λ c. if c then o else null) i) ∙ i
    | inr n ↦ absurd (ne (b ∙ ap (λ c. if c then o else null) n))
  ],
)

between_cases : (p : Phase) → is_between p ≡ true → (p ≡ outside) ⊎ (p ≡ inside)
between_cases outside h = inl refl
between_cases inside h = inr refl
between_cases trying h = ground arith
between_cases asleep h = ground arith
between_cases taken h = ground arith
between_cases leaving h = ground arith

-- A running thread that passes the assertions of lock_acquire does not have the lock.
outside_lem :
    (s : System)
    → Inv s
    → is_between (s.phase (cpu_of s)) ≡ true
    → s.lock.holder ≢ cpu_of s
    → s.phase (cpu_of s) ≡ outside
outside_lem s i b ne = elim (between_cases (s.phase (cpu_of s)) b) [
  | inl o ↦ o
  | inr n ↦
      absurd (ne ((exclusion s.lock.semaphore.value s.lock.holder s.phase i.excl).1 (cpu_of s) n))
]

-- A running thread that passes the assertion of lock_release does.
inside_lem :
    (s : System)
    → Inv s
    → is_between (s.phase (cpu_of s)) ≡ true
    → s.lock.holder ≡ cpu_of s
    → s.phase (cpu_of s) ≡ inside
inside_lem s i b e = elim (between_cases (s.phase (cpu_of s)) b) [
  | inr n ↦ n
  | inl o ↦
      let real : s.lock.holder ≢ null = λ n. cpu_real s.kernel i.sched (sym e ∙ n) in
      let n =
        sym (ap is_inside (ap s.phase e ∙ o))
        ∙ (exclusion s.lock.semaphore.value s.lock.holder s.phase i.excl).2 real in
      ground arith
]

-- Every step keeps the invariant of the lock.
pub Step-LockInv : {s s' : System} → Step s s' → Inv s → Inv s'
Step-LockInv (start_acquire s b idle checks) i =
    let o = outside_lem s i b (acquire_lem s.kernel s.lock i.sched checks) in
    trying-LockInv s.kernel s.lock.semaphore s.lock.holder s.phase i (ap critical o)
      record { there = i.sched.current; not_idle = idle; lives = ap is_dying i.sched.runs }
Step-LockInv (round_sleeps s k sema at r) i =
    let (z, e, eff) = sleeps_lem s.kernel k s.lock.semaphore sema i.sched r in
    subst (λ x. LockInv k x s.lock.holder (put s.phase (cpu_of s) asleep)) (sym e)
      (sleep-LockInv s.kernel s.lock.semaphore s.lock.holder s.phase i k at z eff)
Step-LockInv (resumes s at) i =
    trying-LockInv s.kernel s.lock.semaphore s.lock.holder s.phase i (ap critical at)
      (i.living (cpu_of s) (ap in_down at))
Step-LockInv (round_takes s k sema at r) i =
    let (ne, e, same) = takes_lem s.kernel k s.lock.semaphore sema i.sched r in
    subst (λ x. LockInv k x s.lock.holder (put s.phase (cpu_of s) taken)) (sym e)
      (subst
        (λ x.
          LockInv x (record (s.lock.semaphore) { value = s.lock.semaphore.value - 1 }) s.lock.holder
            (put s.phase (cpu_of s) taken))
        (sym same) (take-LockInv s.kernel s.lock.semaphore s.lock.holder s.phase i ne))
Step-LockInv (set_holder s at) i =
    hold-LockInv s.kernel s.lock.semaphore s.lock.holder s.phase i (cpu_of s) inside
      (ap critical at) refl (ap in_down at) refl
Step-LockInv (try_takes s sema b checks r) i =
    let (ne, e) = try_down_lem s.lock.semaphore sema r in
    subst (λ x. LockInv s.kernel x s.lock.holder (put s.phase (cpu_of s) taken)) (sym e)
      (take-LockInv s.kernel s.lock.semaphore s.lock.holder s.phase i ne)
Step-LockInv (start_release s b checks) i =
    let n = inside_lem s i b (release_lem s.kernel s.lock i.sched checks) in
    hold-LockInv s.kernel s.lock.semaphore s.lock.holder s.phase i null leaving (ap critical n) refl
      (ap in_down n) refl
Step-LockInv (finish_release s k sema at r) i =
    let (e, eff) =
      up_lem s.kernel k s.lock.semaphore sema i.sched
        (waiting_living s.kernel s.lock.semaphore s.lock.holder s.phase i) r in
    subst (λ x. LockInv k x s.lock.holder (put s.phase (cpu_of s) outside)) (sym e)
      (up-LockInv s.kernel s.lock.semaphore s.lock.holder s.phase i k at eff)
Step-LockInv (elsewhere s k e) i =
    Elsewhere-LockInv s.kernel s.lock.semaphore s.lock.holder s.phase i k e

pub Reachable-LockInv : {s : System} → Reachable s → Inv s
unfolding lock_init sema_init
Reachable-LockInv (start k sched) = record {
  sched = sched;
  excl = inl (refl, refl, λ t. refl);
  waits = record {
    once = tt;
    asleep_in = λ t m. ground arith;
    all_in = λ t a x. let h = ap in_down a in ground arith;
    awake = λ t a. let h = ap in_down a in ground arith;
    not_lost = inl refl;
  };
  living = λ t d. ground arith;
}
Reachable-LockInv (next s s' r st) = Step-LockInv st (Reachable-LockInv r)

-- In every state that threads can reach, whichever of the three calls a thread makes: at most one thread
-- has taken the lock and not given it back; a thread that lock_acquire made the holder and that has not
-- called lock_release yet is the lock's holder, and a holder that is not null is such a thread.
pub lock_excludes :
    (s : System)
    → Reachable s
    → ((t u : ℕ) → critical (s.phase t) ≡ true → critical (s.phase u) ≡ true → t ≡ u)
      × ((t : ℕ) → s.phase t ≡ inside → s.lock.holder ≡ t)
      × (s.lock.holder ≢ null → is_inside (s.phase s.lock.holder) ≡ true)
lock_excludes s r =
    exclusion s.lock.semaphore.value s.lock.holder s.phase (Reachable-LockInv r).excl

blocked_status : (x : Status) → is_blocked x ≡ true → x ≡ thread_blocked
blocked_status thread_blocked h = refl
blocked_status thread_running h = ground arith
blocked_status thread_ready h = ground arith
blocked_status thread_dying h = ground arith

awake_cases :
    (x : Status)
    → is_blocked x ≡ false
    → is_dying x ≡ false
    → (x ≡ thread_running) ⊎ (x ≡ thread_ready)
awake_cases thread_running b d = inl refl
awake_cases thread_ready b d = inr refl
awake_cases thread_blocked b d = ground arith
awake_cases thread_dying b d = ground arith

-- A living thread that is not blocked has the CPU or stands in the ready list.
queued_lem :
    (k : Kernel) (t : ℕ)
    → IsSched k
    → Lives k t
    → is_blocked (status_of k t) ≡ false
    → (t ≡ k.cpu) ⊎ (mem t k.ready_list ≡ true)
queued_lem k t v l b = elim (awake_cases (status_of k t) b l.lives) [
  | inl r ↦ inl (v.alone t l.there r)
  | inr r ↦ inr (v.queue.listed t l.there r l.not_idle)
]

-- In every state that threads can reach: the waiters of the lock are each there once, and are exactly the
-- threads that sleep in it and that the kernel has blocked. A thread that goes on to test the lock is
-- not blocked. No wake-up is lost: when there are waiters and the lock is free, a thread that is about to
-- test the lock has the CPU or stands in the ready list.
pub no_lost_wakeup :
    (s : System)
    → Reachable s
    → Distinct s.lock.semaphore.waiters
      × ((t : ℕ)
          → mem t s.lock.semaphore.waiters ≡ true
          → (s.phase t ≡ asleep) × (status_of s.kernel t ≡ thread_blocked))
      × ((t : ℕ)
          → s.phase t ≡ asleep
          → status_of s.kernel t ≡ thread_blocked
          → mem t s.lock.semaphore.waiters ≡ true)
      × ((t : ℕ) → s.phase t ≡ trying → status_of s.kernel t ≢ thread_blocked)
      × ((s.lock.semaphore.waiters ≡ [])
          ⊎ ((s.lock.semaphore.value ≡ 0)
              ⊎ ((t : ℕ) × (in_down (s.phase t) ≡ true)
                  × ((t ≡ s.kernel.cpu) ⊎ (mem t s.kernel.ready_list ≡ true)))))
no_lost_wakeup s r =
    let i = Reachable-LockInv r in
    (
      i.waits.once,
      λ t m. let (a, b) = i.waits.asleep_in t m in (a, blocked_status (status_of s.kernel t) b),
      λ t a b. i.waits.all_in t a (ap is_blocked b),
      λ t a b. let h = sym (ap is_blocked b) ∙ i.waits.awake t a in ground arith,
      elim i.waits.not_lost [
        | inl z ↦ inl z
        | inr f ↦ elim f [
          | inl z ↦ inr (inl z)
          | inr (t, d, b) ↦ inr (inr (t, d, queued_lem s.kernel t i.sched (i.living t d) b))
        ]
      ],
    )
