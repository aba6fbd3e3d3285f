-- ===== src/Synch/Waits.antt =====
-- The invariant of the waiters of a lock of threads/synch.c: they are the blocked threads that sleep in
-- it, and none is forgotten.
use ee468_pintos_project.Prelude.{
  ℕ, ◌+◌, Bool-cases, ◌≡◌, ◌≢◌, refl, sym, ap, ◌∙◌, Bool, true, false, List, [], ◌∷◌, ◌++◌, arith,
  ◌⊎◌, inl, inr, ==_refl, ==_ne, ℕ_discrete,
}
use ee468_pintos_project.KernelList.Chain.{mem, Distinct, mem-append, ne_of_mem}
use ee468_pintos_project.Threads.Change.{at_back-Distinct}
use ee468_pintos_project.Threads.{put}
use ee468_pintos_project.Threads.Sched.{rest}
use ee468_pintos_project.Synch.Excludes.{put_here, put_else}
use ee468_pintos_project.Synch.{Phase, outside, trying, asleep, taken, inside, leaving, in_down}

abbrev pub in_asleep : Phase → Bool
in_asleep outside = false
in_asleep trying = false
in_asleep asleep = true
in_asleep taken = false
in_asleep inside = false
in_asleep leaving = false

abbrev pub unblocked : (ℕ → Bool) → List ℕ → ℕ → Bool
unblocked b [] = b
unblocked b (t ∷ ts) = put b t false

-- The waiters are exactly the threads that sleep in sema_down and are blocked, each once; a thread that
-- tests the semaphore is not blocked. When there are waiters, the lock is taken or a thread of sema_down
-- is not blocked.
pub record Waits (value : ℕ) (ws : List ℕ) (phase : ℕ → Phase) (blocked : ℕ → Bool) : Type 0 where
  pub once : Distinct ws
  pub asleep_in : (t : ℕ) → mem t ws ≡ true → (phase t ≡ asleep) × (blocked t ≡ true)
  pub all_in : (t : ℕ) → phase t ≡ asleep → blocked t ≡ true → mem t ws ≡ true
  pub awake : (t : ℕ) → phase t ≡ trying → blocked t ≡ false
  pub not_lost :
      (ws ≡ []) ⊎ ((value ≡ 0) ⊎ ((t : ℕ) × (in_down (phase t) ≡ true) × (blocked t ≡ false)))

-- Only the threads in sema_down count.
pub Waits-same :
    (v : ℕ) (ws : List ℕ) (phase : ℕ → Phase) (b b' : ℕ → Bool)
    → ((t : ℕ) → in_down (phase t) ≡ true → b' t ≡ b t)
    → Waits v ws phase b
    → Waits v ws phase b'
Waits-same v ws phase b b' same w = record {
  once = w.once;
  asleep_in = λ t m. let (a, x) = w.asleep_in t m in (a, same t (ap in_down a) ∙ x);
  all_in = λ t a x. w.all_in t a (sym (same t (ap in_down a)) ∙ x);
  awake = λ t a. same t (ap in_down a) ∙ w.awake t a;
  not_lost = elim w.not_lost [
    | inl z ↦ inl z
    | inr f ↦ elim f [ inl z ↦ inr (inl z) | inr g ↦ inr (inr (g.0, g.1, same g.0 g.1 ∙ g.2)) ]
  ];
}

-- A thread that is no waiter moves on, to a phase that the waiters do not have. If it leaves sema_down,
-- the lock is taken.
pub Waits-move :
    (v : ℕ) (ws : List ℕ) (phase : ℕ → Phase) (b : ℕ → Bool) (c : ℕ) (p : Phase)
    → mem c ws ≡ false
    → p ≢ asleep
    → b c ≡ false
    → ((in_down (phase c) ≡ false) ⊎ ((v ≡ 0) ⊎ (in_down p ≡ true)))
    → Waits v ws phase b
    → Waits v ws (put phase c p) b
Waits-move v ws phase b c p out ne run stays w = record {
  once = w.once;
  asleep_in = λ t m.
      let other : t ≢ c = ne_of_mem t c ws m out in
      let (a, x) = w.asleep_in t m in (put_else phase c t p other ∙ a, x);
  all_in = λ t a x. elim (ℕ_discrete t c) [
    | yes e ↦ absurd (ne (sym (put_here phase c t p e) ∙ a))
    | no o ↦ w.all_in t (sym (put_else phase c t p o) ∙ a) x
  ];
  awake = λ t a. elim (ℕ_discrete t c) [
    | yes e ↦ ap b e ∙ run
    | no o ↦ w.awake t (sym (put_else phase c t p o) ∙ a)
  ];
  not_lost = elim w.not_lost [
    | inl z ↦ inl z
    | inr f ↦ elim f [
      | inl z ↦ inr (inl z)
      | inr g ↦ elim (ℕ_discrete g.0 c) [
        | no o ↦ inr (inr (g.0, ap in_down (put_else phase c g.0 p o) ∙ g.1, g.2))
        | yes e ↦ elim stays [
          | inl q ↦ let h = sym (g.1) ∙ ap (λ x. in_down (phase x)) e ∙ q in ground arith
          | inr q ↦ elim q [
            | inl z ↦ inr (inl z)
            | inr d ↦ inr (inr (c, ap in_down (put_here phase c c p refl) ∙ d, run))
          ]
        ]
      ]
    ]
  ];
}

-- A thread that is not blocked is no waiter.
pub running_out :
    (v : ℕ) (ws : List ℕ) (phase : ℕ → Phase) (b : ℕ → Bool) (c : ℕ)
    → b c ≡ false
    → Waits v ws phase b
    → mem c ws ≡ false
running_out v ws phase b c run w = elim (Bool-cases (mem c ws)) [
  | inl m ↦ let h = sym (w.asleep_in c m).1 ∙ run in ground arith
  | inr n ↦ n
]

-- A thread that was not blocked is blocked in sema_down, at the back of the waiters.
pub Waits-sleep :
    (ws : List ℕ) (phase : ℕ → Phase) (b : ℕ → Bool) (c : ℕ)
    → b c ≡ false
    → Waits 0 ws phase b
    → Waits 0 (ws ++ c ∷ []) (put phase c asleep) (put b c true)
Waits-sleep ws phase b c run w =
    let out = running_out 0 ws phase b c run w in
    record {
      once = at_back-Distinct c ws out w.once;
      asleep_in = λ t m. elim (ℕ_discrete t c) [
        | yes e ↦ (put_here phase c t asleep e, ground (arith, e))
        | no ne ↦
            let (a, x) = w.asleep_in t (ground (arith, mem-append t ws (c ∷ []), ==_ne t c ne)) in
            (put_else phase c t asleep ne ∙ a, ground (arith, x, ==_ne t c ne))
      ];
      all_in = λ t a x. elim (ℕ_discrete t c) [
        | yes e ↦ ground (arith, mem-append t ws (c ∷ []), e)
        | no ne ↦
            let there =
              w.all_in t (sym (put_else phase c t asleep ne) ∙ a)
                (ground (arith, x, ==_ne t c ne)) in
            ground (arith, mem-append t ws (c ∷ []), there)
      ];
      awake = λ t a. elim (ℕ_discrete t c) [
        | yes e ↦ let h = ap in_asleep (sym (put_here phase c t asleep e) ∙ a) in ground arith
        | no ne ↦
            let still = w.awake t (sym (put_else phase c t asleep ne) ∙ a) in
            ground (arith, still, ==_ne t c ne)
      ];
      not_lost = inr (inl refl);
    }

-- The first waiter is unblocked.
pub Waits-up :
    (v : ℕ) (ws : List ℕ) (phase : ℕ → Phase) (b : ℕ → Bool)
    → Waits v ws phase b
    → Waits (v + 1) (rest ws) phase (unblocked b ws)
Waits-up v [] phase b w = record {
  once = tt;
  asleep_in = w.asleep_in;
  all_in = w.all_in;
  awake = w.awake;
  not_lost = inl refl;
}
Waits-up v (x ∷ ws) phase b w =
    let here : mem x (x ∷ ws) ≡ true = ground (arith, ==_refl x) in
    let down : in_down (phase x) ≡ true = ap in_down (w.asleep_in x here).0 in
    record {
      once = w.once.1;
      asleep_in = λ t m.
          let ne : t ≢ x = ne_of_mem t x ws m w.once.0 in
          let (a, y) = w.asleep_in t (ground arith) in (a, ground (arith, y, ==_ne t x ne));
      all_in = λ t a y. elim (ℕ_discrete t x) [
        | yes e ↦ ground (arith, e, y)
        | no ne ↦
            let there = w.all_in t a (ground (arith, y, ==_ne t x ne)) in
            ground (arith, there, ==_ne t x ne)
      ];
      awake = λ t a. let still = w.awake t a in ground (arith, still);
      not_lost = inr (inr (x, down, ground (arith, ==_refl x)));
    }

-- The lock is taken.
pub Waits-zero :
    (v : ℕ) (ws : List ℕ) (phase : ℕ → Phase) (b : ℕ → Bool)
    → Waits v ws phase b
    → Waits 0 ws phase b
Waits-zero v ws phase b w = record {
  once = w.once;
  asleep_in = w.asleep_in;
  all_in = w.all_in;
  awake = w.awake;
  not_lost = inr (inl refl);
}
