-- ===== src/Synch/Excludes.antt =====
-- The invariant of a lock of threads/synch.c: one thread at most between the end of sema_down in
-- lock_acquire and sema_up in lock_release.
use ee468_pintos_project.Prelude.{
  ℕ, ◌+◌, ◌-◌, ◌≡◌, ◌≢◌, refl, sym, ap, ◌∙◌, Bool, true, false, ◌==◌, if◌then◌else◌, arith, ◌⊎◌,
  inl, inr, ==_iff, ==_refl, ==_ne, ℕ_discrete,
}
use ee468_pintos_project.Memory.{null}
use ee468_pintos_project.Threads.{put}
use ee468_pintos_project.Synch.{Phase, outside, trying, asleep, taken, inside, leaving}

abbrev pub critical : Phase → Bool
critical outside = false
critical trying = false
critical asleep = false
critical taken = true
critical inside = true
critical leaving = true

abbrev pub is_inside : Phase → Bool
is_inside outside = false
is_inside trying = false
is_inside asleep = false
is_inside taken = false
is_inside inside = true
is_inside leaving = false

-- The lock is free, or one thread `o` is in its critical section, which is the holder while it is
-- inside.
abbrev pub Free : (value holder : ℕ) → (ℕ → Phase) → Type 0
Free value holder phase = (value ≡ 1) × (holder ≡ null) × ((t : ℕ) → critical (phase t) ≡ false)

abbrev pub Held : (value holder : ℕ) → (ℕ → Phase) → Type 0
Held value holder phase =
    (o : ℕ) × (value ≡ 0)
    × (holder ≡ (if is_inside (phase o) then o else null))
    × ((t : ℕ) → critical (phase t) ≡ (t == o))

abbrev pub Excl : (value holder : ℕ) → (ℕ → Phase) → Type 0
Excl value holder phase = Free value holder phase ⊎ Held value holder phase

abbrev pub CriticalSame : (ℕ → Phase) → (ℕ → Phase) → Type 0
CriticalSame phase phase' =
    (t : ℕ)
    → (critical (phase' t) ≡ critical (phase t)) × (is_inside (phase' t) ≡ is_inside (phase t))

-- A thread outside the section moves to another place outside it.
pub Excl-move :
    (v h : ℕ) (phase phase' : ℕ → Phase)
    → CriticalSame phase phase'
    → Excl v h phase
    → Excl v h phase'
Excl-move v h phase phase' same (inl (a, b, c)) = inl (a, b, λ t. (same t).0 ∙ c t)
Excl-move v h phase phase' same (inr (o, a, b, c)) =
    inr (o, a, b ∙ ap (λ x. if x then o else null) (sym (same o).1), λ t. (same t).0 ∙ c t)

not_inside : (p : Phase) → critical p ≡ false → is_inside p ≡ false
not_inside outside h = refl
not_inside trying h = refl
not_inside asleep h = refl
not_inside taken h = refl
not_inside inside h = ground arith
not_inside leaving h = refl

pub put_here : (phase : ℕ → Phase) (c t : ℕ) (p : Phase) → t ≡ c → put phase c p t ≡ p
put_here phase c t p e = ground arith

pub put_else : (phase : ℕ → Phase) (c t : ℕ) (p : Phase) → t ≢ c → put phase c p t ≡ phase t
put_else phase c t p ne = ground (arith, ==_ne t c ne)

pub put_same :
    (phase : ℕ → Phase) (c : ℕ) (p : Phase)
    → critical (phase c) ≡ false
    → critical p ≡ false
    → CriticalSame phase (put phase c p)
put_same phase c p h k t = elim (ℕ_discrete t c) [
  | yes e ↦ (
    ap critical (put_here phase c t p e) ∙ k ∙ sym h ∙ ap (λ x. critical (phase x)) (sym e),
    ap is_inside (put_here phase c t p e)
        ∙ not_inside p k
        ∙ sym (not_inside (phase c) h)
        ∙ ap (λ x. is_inside (phase x)) (sym e),
  )
  | no ne ↦ (ap critical (put_else phase c t p ne), ap is_inside (put_else phase c t p ne))
]

-- sema_down succeeds.
pub Excl-take :
    (v h : ℕ) (phase : ℕ → Phase) (c : ℕ)
    → v ≢ 0
    → Excl v h phase
    → Excl (v - 1) h (put phase c taken)
Excl-take v h phase c ne (inl (a, b, cr)) = inr (
  c,
  omega arith,
  b ∙ ap (λ p. if is_inside p then c else null) (sym (put_here phase c c taken refl)),
  λ t. ground (arith, cr t),
)
Excl-take v h phase c ne (inr (o, a, b, cr)) = absurd (ne a)

pub owner :
    (phase : ℕ → Phase) (o c : ℕ)
    → ((t : ℕ) → critical (phase t) ≡ (t == o))
    → critical (phase c) ≡ true
    → o ≡ c
owner phase o c cr h = sym ((==_iff c o).0 (sym (cr c) ∙ h))

-- The thread in the section moves to another place in it, with the holder that belongs there.
pub Excl-hold :
    (v h h' : ℕ) (phase : ℕ → Phase) (c : ℕ) (p : Phase)
    → critical (phase c) ≡ true
    → critical p ≡ true
    → h' ≡ (if is_inside p then c else null)
    → Excl v h phase
    → Excl v h' (put phase c p)
Excl-hold v h h' phase c p now k e (inl (a, b, cr)) = ground (arith, cr c)
Excl-hold v h h' phase c p now k e (inr (o, a, b, cr)) =
    let oc = owner phase o c cr now in
    inr (
      c,
      a,
      e ∙ ap (λ q. if is_inside q then c else null) (sym (put_here phase c c p refl)),
      λ t. elim (ℕ_discrete t c) [
        | yes q ↦ ap critical (put_here phase c t p q) ∙ k ∙ sym (ground (arith, ==_refl c))
        | no n ↦ ap critical (put_else phase c t p n) ∙ cr t ∙ ap (λ x. t == x) oc
      ],
    )

-- sema_up.
pub Excl-release :
    (v h : ℕ) (phase phase' : ℕ → Phase) (c : ℕ)
    → critical (phase c) ≡ true
    → is_inside (phase c) ≡ false
    → CriticalSame phase phase'
    → Excl v h phase
    → Excl (v + 1) h (put phase' c outside)
Excl-release v h phase phase' c now n same (inl (a, b, cr)) = ground (arith, cr c)
Excl-release v h phase phase' c now n same (inr (o, a, b, cr)) =
    let oc = owner phase o c cr now in
    inl (
      omega arith,
      b ∙ ap (λ x. if is_inside (phase x) then x else null) oc ∙ ap (λ x. if x then c else null) n,
      λ t. elim (ℕ_discrete t c) [
        | yes q ↦ ap critical (put_here phase' c t outside q)
        | no ne ↦
            ap critical (put_else phase' c t outside ne)
            ∙ (same t).0
            ∙ cr t
            ∙ ap (λ x. t == x) oc
            ∙ ==_ne t c ne
      ],
    )
