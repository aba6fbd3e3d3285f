-- ===== src/Children/Calls.antt =====
-- What sys_exit, the end of process_execute and process_wait do to the status of every child.
use mathlib.Core.List.{reverse-reverse, reverse-append}
use ee468_pintos_project.Prelude.{
  ℕ, ◌^◌, ◌≤◌, ◌<◌, ◌≡◌, ◌≢◌, ◌⊎◌, inl, inr, refl, sym, ap, ◌∙◌, Bool, false, ◌==◌, if◌then◌else◌,
  List, reverse, Option, none, some, arith, Bool-cases,
}
use ee468_pintos_project.Children.{
  ChildStatus, Parent, tid_error, mark_waited, at_head, add_child, exit_child, sys_exit,
  take_status, take_from_last, process_wait,
}
use ee468_pintos_project.Children.Status.{
  find, status_of, mark_reverse, exited_find, Taken, take_lem,
}

-- The lookup behind each call.
pub exit_lem :
    (p : Parent) (tid exit_status u : ℕ)
    → tid < 2 ^ 31
    → 2 ^ 31 ≤ p.first_waiter
    → let q = sys_exit p tid exit_status in
      (status_of q u
        ≡ elim (status_of p u) [ none ↦ none | some c ↦ some (exit_child tid exit_status c) ])
      × (q.waiters_end ≡ p.waiters_end)
      × (q.before_head ≡ p.before_head)
      × (q.first_waiter ≡ p.first_waiter)
unfolding sys_exit find
exit_lem p tid exit_status u small big =
    let off : (p.first_waiter == tid) ≡ false = ground (arith, small, big) in
    rw off (
      ap (find u) (mark_reverse tid exit_status p.children)
          ∙ exited_find tid exit_status (reverse p.children) u,
      refl,
      refl,
      refl,
    )

pub add_lem :
    (p : Parent) (tid elem u : ℕ)
    → status_of (add_child p tid elem) u ≡ (
        if tid == u
        then some (record {
          child_tid = tid;
          exited = false;
          has_been_waited = false;
          child_exit_status = 0;
          elem = elem;
        })
        else status_of p u)
unfolding add_child find
add_lem p tid elem u = ap (find u) (reverse-append p.children _)

-- What a call of process_wait that returned did.
pub record Waited (alive : ℕ → Bool) (p : Parent) (tid : ℕ) (q : Parent) (ret : ℕ) : Type 0 where
  pub end_kept : q.waiters_end ≡ p.waiters_end
  pub before_kept : q.before_head ≡ p.before_head
  pub link_kept : q.first_waiter ≡ p.first_waiter
  pub others : (u : ℕ) → u ≢ tid → status_of q u ≡ status_of p u
  pub own :
      ((c : ChildStatus) × (status_of p tid ≡ some c)
        × (alive tid ≡ false)
        × (ret ≡ (take_status c).1)
        × (status_of q tid ≡ some (take_status c).0))
      ⊎ ((status_of q tid ≡ status_of p tid)
          × (0 < tid → tid < 2 ^ 31 → (ret ≡ tid_error) × (status_of p tid ≡ none)))

unfoldable pub WaitedIf : (alive : ℕ → Bool) → Parent → (tid : ℕ) → Option (Parent × ℕ) → Type 0
WaitedIf alive p tid none = Unit
WaitedIf alive p tid (some (q, ret)) = Waited alive p tid q ret

module _ (alive : ℕ → Bool) (p : Parent) (tid : ℕ) (end_null : p.waiters_end ≡ 0)
    (before_null : p.before_head ≡ 0) (kernel_link : 2 ^ 31 ≤ p.first_waiter) where
  if_lem :
      (q : Parent) (ret : ℕ)
      → (alive tid ≡ false → Waited alive p tid q ret)
      → WaitedIf alive p tid (if alive tid then none else some (q, ret))
  unfolding WaitedIf
  if_lem q ret h = elim (Bool-cases (alive tid)) [ inl e ↦ rw e record {} | inr e ↦ rw e (h e) ]

  kept_lem :
      (q : Parent) (ret : ℕ)
      → q.children ≡ p.children
      → (q.waiters_end ≡ p.waiters_end)
        × (q.before_head ≡ p.before_head)
        × (q.first_waiter ≡ p.first_waiter)
      → (0 < tid → tid < 2 ^ 31 → (ret ≡ tid_error) × (status_of p tid ≡ none))
      → Waited alive p tid q ret
  kept_lem q ret same (e, b, f) missing = record {
    end_kept = e;
    before_kept = b;
    link_kept = f;
    others = λ u ne. ap (λ cs. find u (reverse cs)) same;
    own = inr (ap (λ cs. find tid (reverse cs)) same, missing);
  }

  search_lem :
      (found : Option (List ChildStatus × ℕ))
      → Taken tid (reverse p.children) found
      → WaitedIf alive p tid (elim found [
        | some (cs, ret) ↦
            if alive tid then none else some (record p { children = reverse cs }, ret)
        | none ↦
            if p.first_waiter == tid
            then (if alive tid
                then none
                else some (
                  record p { last_waiter = mark_waited p.last_waiter },
                  (take_status (at_head p)).1,
                ))
            else some (p, tid_error)
      ])
  unfolding Taken WaitedIf
  search_lem none missing = elim (Bool-cases (p.first_waiter == tid)) [
    | inl e ↦ rw e (
        if_lem _ _ (λ dead.
          kept_lem _ _ refl (refl, refl, refl)
            (λ low high. absurd (ground (arith, e, high, kernel_link)))))
    | inr ne ↦ rw ne (kept_lem p tid_error refl (refl, refl, refl) (λ low high. (refl, missing)))
  ]
  search_lem (some (cs, ret)) (c, found, r, taken, others) = if_lem _ _ (λ dead. record {
    end_kept = refl;
    before_kept = refl;
    link_kept = refl;
    others = λ u ne. ap (find u) (reverse-reverse cs) ∙ others u ne;
    own = inl (c, found, dead, r, ap (find tid) (reverse-reverse cs) ∙ taken);
  })

  pub wait_lem : WaitedIf alive p tid (process_wait alive p tid)
  unfolding process_wait WaitedIf
  wait_lem = elim (Bool-cases (tid == tid_error)) [
    | inl e ↦ rw e (
        kept_lem p tid_error refl (refl, refl, refl) (λ low high. absurd (ground (arith, e, high))))
    | inr ne ↦ rw ne (elim (Bool-cases (p.waiters_end == tid)) [
      | inl e ↦ rw e (
          if_lem _ _ (λ dead.
            kept_lem _ _ refl (refl, ap mark_waited before_null ∙ sym before_null, refl)
              (λ low high. absurd (ground (arith, e, low, end_null)))))
      | inr ne ↦
          rw ne (
            search_lem (take_from_last tid (reverse p.children))
              (take_lem tid (reverse p.children)))
    ])
  ]
