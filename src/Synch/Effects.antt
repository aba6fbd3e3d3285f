-- ===== src/Synch/Effects.antt =====
-- What the semaphore functions of threads/synch.c do to the threads of the kernel.
use ee468_pintos_project.Prelude.{
  ℕ, ◌+◌, ◌-◌, ◌≡◌, ◌≢◌, refl, sym, ap, ◌∙◌, subst, Bool, true, false, ◌==◌, if◌then◌else◌, List,
  [], ◌∷◌, ◌++◌, ok, arith, inl, inr, ==_refl, ==_ne, ℕ_discrete, ok-injective,
}
use ee468_pintos_project.KernelList.Chain.{mem}
use ee468_pintos_project.Threads.{
  Kernel, Semaphore, Status, thread_running, thread_ready, thread_blocked, thread_dying, is_blocked,
  is_dying, is_running, is_thread, put,
}
use ee468_pintos_project.Threads.Sched.{IsSched, status_of, rest, next_thread}
use ee468_pintos_project.Threads.Change.{change, thread_change}
use ee468_pintos_project.Threads.Switch.{Switched, dies}
use ee468_pintos_project.Threads.Calls.{leave}
use ee468_pintos_project.Synch.{Round, sleeps, takes, sema_down_round, sema_up, is_blocked_in}
use ee468_pintos_project.Synch.Waits.{unblocked}
use ee468_pintos_project.Synch.Returns.{round-Down, quiet, sema_up-IsSched}

-- A thread that is there, that is not the idle thread and that has not ended.
pub record Lives (k : Kernel) (t : ℕ) : Type 0 where
  pub there : is_thread k t ≡ true
  pub not_idle : t ≢ k.idle_thread
  pub lives : is_dying (status_of k t) ≡ false

-- What changes in the kernel for the threads that live: which are blocked.
pub record Effect (k k' : Kernel) (blocked : ℕ → Bool) : Type 0 where
  pub sched : IsSched k'
  pub blocked_after : (t : ℕ) → Lives k t → is_blocked_in k' t ≡ blocked t
  pub lives_after : (t : ℕ) → Lives k t → Lives k' t

-- The next thread, when it is not the idle thread, was ready.
next_ready :
    (k : Kernel) (ready : List ℕ)
    → ((t : ℕ) → mem t ready ≡ true → status_of k t ≡ thread_ready)
    → next_thread k.idle_thread ready ≢ k.idle_thread
    → status_of k (next_thread k.idle_thread ready) ≡ thread_ready
next_ready k [] q ne = absurd (ne refl)
next_ready k (t ∷ ts) q ne = q t (ground (arith, ==_refl t))

module _ (k k' : Kernel) (v : IsSched k) (is : IsSched k')
    (w : Switched (leave (quiet k) thread_blocked k.ready_list k.all_list) k') where
  left : Kernel
  left = leave (quiet k) thread_blocked k.ready_list k.all_list

  left_status : (t : ℕ) → status_of left t ≡ (if t == k.cpu then thread_blocked else status_of k t)
  unfolding left
  left_status t = ground arith

  left_there : (t : ℕ) → is_thread left t ≡ is_thread k t
  unfolding left is_thread
  left_there t = ground arith

  left_stays : dies left k.cpu ≡ false
  left_stays =
      let b : is_dying (status_of left k.cpu) ≡ false =
        ap is_dying (left_status k.cpu) ∙ ground (arith, ==_refl k.cpu) in
      ground (arith, b)

  status_after :
      (t : ℕ)
      → status_of k' t ≡ (
          if t == k'.cpu
          then thread_running
          else if t == k.cpu
          then thread_blocked
          else status_of k t)
  unfolding left
  status_after t =
      w.statuses t ∙ ap (λ s. if t == k'.cpu then thread_running else s) (left_status t)

  switched-Lives : (t : ℕ) → Lives k t → Lives k' t
  unfolding left
  switched-Lives t l = record {
    there = w.still_there t ∙ ground (arith, left_stays, left_there t, l.there);
    not_idle = λ e. l.not_idle (e ∙ w.same_idle);
    lives = ap is_dying (status_after t) ∙ ground (arith, l.lives);
  }

  -- A living thread that gets the CPU was ready.
  was_ready : (t : ℕ) → Lives k t → t ≡ k'.cpu → status_of k t ≡ thread_ready
  unfolding left
  was_ready t l e =
      let next : t ≡ next_thread k.idle_thread k.ready_list = e ∙ w.goes_on in
      ap (status_of k) next
      ∙ next_ready k k.ready_list (λ u m. (v.queue.queued u m).1) (λ h. l.not_idle (next ∙ h))

  switched_blocked : (t : ℕ) → Lives k t → is_blocked_in k' t ≡ put (is_blocked_in k) k.cpu true t
  switched_blocked t l = elim (ℕ_discrete t k'.cpu) [
    | yes e ↦
        let ready = was_ready t l e in
        let other : t ≢ k.cpu =
          λ q. let h = ap is_running (sym ready ∙ ap (status_of k) q ∙ v.runs) in ground arith in
        ap is_blocked (status_after t) ∙ ground (arith, e, ==_ne t k.cpu other, ap is_blocked ready)
    | no ne ↦ ap is_blocked (status_after t) ∙ ground (arith, ==_ne t k'.cpu ne)
  ]

abbrev is_sleeps : Round → Bool
is_sleeps sleeps = true
is_sleeps takes = false

sleeps_ne_takes : sleeps ≢ takes
sleeps_ne_takes h = let e = ap is_sleeps h in ground arith

-- A round that sleeps: the value was 0, the running thread is the last of the waiters, and it is the one
-- that is blocked now.
pub sleeps_lem :
    (k k' : Kernel) (sema sema' : Semaphore)
    → IsSched k
    → sema_down_round k sema ≡ ok (sleeps, k', sema')
    → (sema.value ≡ 0)
      × (sema' ≡ record sema { waiters = sema.waiters ++ k.cpu ∷ [] })
      × Effect k k' (put (is_blocked_in k) k.cpu true)
sleeps_lem k k' sema sema' v h = elim (round-Down k sema v) [
  | inl (ne, r) ↦ absurd (sleeps_ne_takes (sym (ap (λ x. x.0) (ok-injective (sym r ∙ h)))))
  | inr (z, k1, r, is, w) ↦
      let e : (sleeps, k1, record sema { waiters = sema.waiters ++ k.cpu ∷ [] })
          ≡ (sleeps, k', sema') =
        ok-injective (sym r ∙ h) in
      (
        z,
        sym (ap (λ x. x.2) e),
        subst (λ x. Effect k x (put (is_blocked_in k) k.cpu true)) (ap (λ x. x.1) e)
            record {
              sched = is;
              blocked_after = switched_blocked k k1 v is w;
              lives_after = switched-Lives k k1 v is w;
            },
      )
]

-- A round that takes changes nothing but the value.
pub takes_lem :
    (k k' : Kernel) (sema sema' : Semaphore)
    → IsSched k
    → sema_down_round k sema ≡ ok (takes, k', sema')
    → (sema.value ≢ 0) × (sema' ≡ record sema { value = sema.value - 1 }) × (k' ≡ k)
takes_lem k k' sema sema' v h = elim (round-Down k sema v) [
  | inl (ne, r) ↦
      let e : (takes, k, record sema { value = sema.value - 1 }) ≡ (takes, k', sema') =
        ok-injective (sym r ∙ h) in
      (ne, sym (ap (λ x. x.2) e), sym (ap (λ x. x.1) e))
  | inr (z, k1, r, is, w) ↦ absurd (sleeps_ne_takes (ap (λ x. x.0) (ok-injective (sym r ∙ h))))
]

blocked_status : (s : Status) → is_blocked s ≡ true → s ≡ thread_blocked
blocked_status thread_blocked h = refl
blocked_status thread_running h = ground arith
blocked_status thread_ready h = ground arith
blocked_status thread_dying h = ground arith

unblock-Effect :
    (k : Kernel) (t : ℕ)
    → IsSched k
    → Lives k t
    → IsSched (change k t thread_ready (k.ready_list ++ t ∷ []) k.all_list)
    → Effect k
        (change k t thread_ready (k.ready_list ++ t ∷ []) k.all_list)
        (put (is_blocked_in k) t false)
unfolding is_thread
unblock-Effect k t v l is = record {
  sched = is;
  blocked_after = λ u x. ground arith;
  lives_after = λ u x. record {
    there =
        thread_change k v.queue t l.there thread_ready (k.ready_list ++ t ∷ []) k.all_list u
        ∙ x.there;
    not_idle = x.not_idle;
    lives = ground (arith, x.lives);
  };
}

nothing-Effect : (k : Kernel) → IsSched k → Effect k k (is_blocked_in k)
nothing-Effect k v = record { sched = v; blocked_after = λ t l. refl; lives_after = λ t l. l }

-- sema_up: the first of the waiters, which are blocked, is not blocked any more.
pub up_lem :
    (k k' : Kernel) (sema sema' : Semaphore)
    → IsSched k
    → ((t : ℕ) → mem t sema.waiters ≡ true → Lives k t × (is_blocked_in k t ≡ true))
    → sema_up k sema ≡ ok (k', sema')
    → (sema' ≡ record { value = sema.value + 1; waiters = rest sema.waiters })
      × Effect k k' (unblocked (is_blocked_in k) sema.waiters)
up_lem k k' sema sema' v all h = by_waiters sema.waiters refl
  where
    by_waiters :
        (ws : List ℕ)
        → sema.waiters ≡ ws
        → (sema' ≡ record { value = sema.value + 1; waiters = rest ws })
          × Effect k k' (unblocked (is_blocked_in k) ws)
    by_waiters [] e =
        let same = ok-injective (sym ((sema_up-IsSched k sema v).0 e) ∙ h) in
        (
          sym (ap (λ x. x.1) same),
          subst (λ x. Effect k x (is_blocked_in k)) (ap (λ x. x.0) same) (nothing-Effect k v),
        )
    by_waiters (t ∷ ts) e =
        let (l, b) = all t (ap (mem t) e ∙ ground (arith, ==_refl t)) in
        let (r, is) =
          (sema_up-IsSched k sema v).1 t ts e l.there (blocked_status (status_of k t) b)
            l.not_idle in
        let same = ok-injective (sym r ∙ h) in
        (
          sym (ap (λ x. x.1) same),
          subst (λ x. Effect k x (put (is_blocked_in k) t false)) (ap (λ x. x.0) same)
              (unblock-Effect k t v l is),
        )
