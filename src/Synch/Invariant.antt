-- ===== src/Synch/Invariant.antt =====
-- The invariant of a lock of threads/synch.c, of its semaphore and of the threads in sema_down, under each
-- change that a call makes.
use ee468_pintos_project.Prelude.{
  ℕ, ◌+◌, ◌-◌, ◌≡◌, ◌≢◌, refl, sym, ap, ◌∙◌, subst, true, false, if◌then◌else◌, ◌++◌, [], ◌∷◌,
  arith, inl, inr, ◌⊎◌, ℕ_discrete,
}
use ee468_pintos_project.Memory.{null}
use ee468_pintos_project.KernelList.Chain.{mem}
use ee468_pintos_project.Threads.{Kernel, Semaphore, put, is_blocked}
use ee468_pintos_project.Threads.Sched.{IsSched, rest}
use ee468_pintos_project.Synch.{
  Phase, outside, trying, asleep, taken, inside, leaving, in_down, is_blocked_in, Elsewhere,
}
use ee468_pintos_project.Synch.Excludes.{
  Excl, critical, is_inside, put_here, put_else, put_same, Excl-move, Excl-take, Excl-hold,
  Excl-release,
}
use ee468_pintos_project.Synch.Waits.{
  Waits, Waits-same, Waits-move, Waits-sleep, Waits-up, Waits-zero, running_out, unblocked,
  in_asleep,
}
use ee468_pintos_project.Synch.Effects.{Lives, Effect}

pub record LockInv (k : Kernel) (sema : Semaphore) (holder : ℕ) (phase : ℕ → Phase) : Type 0 where
  pub sched : IsSched k
  pub excl : Excl sema.value holder phase
  pub waits : Waits sema.value sema.waiters phase (is_blocked_in k)
  pub living : (t : ℕ) → in_down (phase t) ≡ true → Lives k t

critical_not_asleep : (p : Phase) → critical p ≡ true → p ≢ asleep
critical_not_asleep p h e = let n = sym (ap critical e) ∙ h in ground arith

critical_not_down : (p : Phase) → critical p ≡ true → in_down p ≢ true
critical_not_down outside h e = ground arith
critical_not_down trying h e = ground arith
critical_not_down asleep h e = ground arith
critical_not_down taken h e = ground arith
critical_not_down inside h e = ground arith
critical_not_down leaving h e = ground arith

-- Who is in sema_down after one thread moved.
still_down :
    (phase : ℕ → Phase) (c : ℕ) (p : Phase) (t : ℕ)
    → in_down (put phase c p t) ≡ true
    → ((t ≡ c) × (in_down p ≡ true)) ⊎ ((t ≢ c) × (in_down (phase t) ≡ true))
still_down phase c p t h = elim (ℕ_discrete t c) [
  | yes e ↦ inl (e, sym (ap in_down (put_here phase c t p e)) ∙ h)
  | no ne ↦ inr (ne, sym (ap in_down (put_else phase c t p ne)) ∙ h)
]

module _ (k : Kernel) (sema : Semaphore) (h : ℕ) (phase : ℕ → Phase)
    (i : LockInv k sema h phase) where
  not_blocked : is_blocked_in k k.cpu ≡ false
  not_blocked = ap is_blocked i.sched.runs

  cpu_out : mem k.cpu sema.waiters ≡ false
  cpu_out = running_out sema.value sema.waiters phase (is_blocked_in k) k.cpu not_blocked i.waits

  living_move :
      (p : Phase)
      → (in_down p ≡ true → Lives k k.cpu)
      → (t : ℕ) → in_down (put phase k.cpu p t) ≡ true
      → Lives k t
  living_move p l t d = elim (still_down phase k.cpu p t d) [
    | inl (e, q) ↦ subst (Lives k) (sym e) (l q)
    | inr (ne, q) ↦ i.living t q
  ]

  -- The running thread goes on to test the semaphore.
  pub trying-LockInv :
      critical (phase k.cpu) ≡ false → Lives k k.cpu → LockInv k sema h (put phase k.cpu trying)
  trying-LockInv cr l = record {
    sched = i.sched;
    excl =
        Excl-move sema.value h phase (put phase k.cpu trying) (put_same phase k.cpu trying cr refl)
          i.excl;
    waits =
        Waits-move sema.value sema.waiters phase (is_blocked_in k) k.cpu trying cpu_out
          (λ e. ground (arith, ap in_asleep e)) not_blocked (inr (inr refl)) i.waits;
    living = living_move trying (λ q. l);
  }

  value_one : sema.value ≢ 0 → Excl sema.value h phase → sema.value ≡ 1
  value_one ne (inl (a, b, c)) = a
  value_one ne (inr (o, a, b, c)) = absurd (ne a)

  -- It takes one.
  pub take-LockInv :
      sema.value ≢ 0 → LockInv k (record sema { value = sema.value - 1 }) h (put phase k.cpu taken)
  take-LockInv ne = record {
    sched = i.sched;
    excl = Excl-take sema.value h phase k.cpu ne i.excl;
    waits =
        subst (λ v. Waits v sema.waiters (put phase k.cpu taken) (is_blocked_in k))
          (omega (arith, value_one ne i.excl))
          (Waits-move 0 sema.waiters phase (is_blocked_in k) k.cpu taken cpu_out
            (λ e. ground (arith, ap in_asleep e)) not_blocked (inr (inl refl))
            (Waits-zero sema.value sema.waiters phase (is_blocked_in k) i.waits));
    living = living_move taken (λ q. ground arith);
  }

  -- It moves on within its critical section.
  pub hold-LockInv :
      (h' : ℕ) (p' : Phase)
      → critical (phase k.cpu) ≡ true
      → critical p' ≡ true
      → in_down (phase k.cpu) ≡ false
      → h' ≡ (if is_inside p' then k.cpu else null)
      → LockInv k sema h' (put phase k.cpu p')
  hold-LockInv h' p' cr cr' down e = record {
    sched = i.sched;
    excl = Excl-hold sema.value h h' phase k.cpu p' cr cr' e i.excl;
    waits =
        Waits-move sema.value sema.waiters phase (is_blocked_in k) k.cpu p' cpu_out
          (λ q. critical_not_asleep p' cr' q) not_blocked (inl down) i.waits;
    living = living_move p' (λ q. absurd (critical_not_down p' cr' q));
  }

  -- It sleeps.
  pub sleep-LockInv :
      (k' : Kernel)
      → phase k.cpu ≡ trying
      → sema.value ≡ 0
      → Effect k k' (put (is_blocked_in k) k.cpu true)
      → LockInv k' (record sema { waiters = sema.waiters ++ k.cpu ∷ [] }) h (put phase k.cpu asleep)
  sleep-LockInv k' at z eff =
      let living' = living_move asleep (λ q. i.living k.cpu (ap in_down at)) in
      record {
        sched = eff.sched;
        excl =
            Excl-move sema.value h phase (put phase k.cpu asleep)
              (put_same phase k.cpu asleep (ap critical at) refl) i.excl;
        waits =
            Waits-same sema.value (sema.waiters ++ k.cpu ∷ []) (put phase k.cpu asleep)
              (put (is_blocked_in k) k.cpu true) (is_blocked_in k')
              (λ t d. eff.blocked_after t (living' t d))
              (subst
                (λ v.
                  Waits v (sema.waiters ++ k.cpu ∷ []) (put phase k.cpu asleep)
                    (put (is_blocked_in k) k.cpu true))
                (sym z)
                (Waits-sleep sema.waiters phase (is_blocked_in k) k.cpu not_blocked
                  (Waits-zero sema.value sema.waiters phase (is_blocked_in k) i.waits)));
        living = λ t d. eff.lives_after t (living' t d);
      }

  pub waiting_living : (t : ℕ) → mem t sema.waiters ≡ true → Lives k t × (is_blocked_in k t ≡ true)
  waiting_living t m = let (a, b) = i.waits.asleep_in t m in (i.living t (ap in_down a), b)

  -- It gives one back.
  pub up-LockInv :
      (k' : Kernel)
      → phase k.cpu ≡ leaving
      → Effect k k' (unblocked (is_blocked_in k) sema.waiters)
      → LockInv k'
          (record { value = sema.value + 1; waiters = rest sema.waiters })
          h
          (put phase k.cpu outside)
  up-LockInv k' at eff =
      let living' = living_move outside (λ q. ground arith) in
      record {
        sched = eff.sched;
        excl =
            Excl-release sema.value h phase phase k.cpu (ap critical at) (ap is_inside at)
              (λ t. (refl, refl)) i.excl;
        waits =
            Waits-same (sema.value + 1) (rest sema.waiters) (put phase k.cpu outside)
              (unblocked (is_blocked_in k) sema.waiters) (is_blocked_in k')
              (λ t d. eff.blocked_after t (living' t d))
              (Waits-up sema.value sema.waiters (put phase k.cpu outside) (is_blocked_in k) (
                Waits-move sema.value sema.waiters phase (is_blocked_in k) k.cpu outside cpu_out
                  (λ e. ground (arith, ap in_asleep e)) not_blocked (inl (ap in_down at)) i.waits));
        living = λ t d. eff.lives_after t (living' t d);
      }

  pub Elsewhere-LockInv : (k' : Kernel) → Elsewhere k phase k' → LockInv k' sema h phase
  Elsewhere-LockInv k' e = record {
    sched = e.sched;
    excl = i.excl;
    waits =
        Waits-same sema.value sema.waiters phase (is_blocked_in k) (is_blocked_in k')
          (λ t d. (let (a, c, d') = e.in_down_kept t d in c)) i.waits;
    living = λ t d.
        let (a, b, c) = e.in_down_kept t d in
        let l = i.living t d in
        record {
          there = a ∙ l.there;
          not_idle = λ q. l.not_idle (q ∙ e.same_idle);
          lives = c ∙ l.lives;
        };
  }
