-- ===== src/Children/Once.antt =====
-- What process_wait of userprog/process.c returns, in every order of the calls.
use mathlib.Core.Option.{none-ne-some, some-injective}
use ee468_pintos_project.Prelude.{
  ℕ, ◌^◌, ◌<◌, ◌≡◌, inl, inr, refl, subst, sym, ap, ◌∙◌, true, false, ◌==◌, if◌then◌else◌, List,
  reverse, Option, some, arith, ==_refl,
}
use ee468_pintos_project.Children.{ChildStatus, tid_error, take_status}
use ee468_pintos_project.Children.Status.{status_of, find_tid}
use ee468_pintos_project.Children.Calls.{add_lem}
use ee468_pintos_project.Children.Runs.{
  Family, Event, Move, Run, IsFamily, Fresh, adds, exits, waits, create, add, exit, wait,
}
use ee468_pintos_project.Children.Collect.{
  keep_run, keep, AllQuiet, AllQuiet-run, IsWaited-run, waited_lem, some_exit,
}

-- What a wait returns for a child in the list, and what it leaves.
returned_lem :
    {f g : Family} (tid ret : ℕ) (c : ChildStatus)
    → Move f (wait tid ret) g
    → IsFamily f
    → 0 < tid
    → tid < 2 ^ 31
    → status_of f.parent tid ≡ some c
    → (ret ≡ (take_status c).1) × (status_of g.parent tid ≡ some (take_status c).0)
returned_lem tid ret c (waits f _ _ p idle h) inv low high found =
    elim (waited_lem f tid ret p inv h).own [
      | inl (d, found2, dead, r, taken) ↦
          let same : d ≡ c = some-injective d c (sym found2 ∙ found) in
          (r ∙ ap (λ x. (take_status x).1) same, taken ∙ ap (λ x. some (take_status x).0) same)
      | inr (kept, more) ↦ absurd (none-ne-some c (sym (more low high).1 ∙ found))
    ]

exit_step :
    (tid s : ℕ) {f g : Family} (c : ChildStatus)
    → Move f (exit tid s) g
    → IsFamily f
    → status_of f.parent tid ≡ some c
    → (0 < tid)
      × (tid < 2 ^ 31)
      × (status_of g.parent tid ≡ some (record c { exited = true; child_exit_status = s }))
exit_step tid s c (exits f _ _ lives low high) inv found =
    let own : (c.child_tid == tid) ≡ true =
      ground (arith, find_tid tid (reverse f.parent.children) c found) in
    (
      low,
      high,
      some_exit f.parent tid s tid c high inv.kernel_link found
          ∙ ap (λ b. some (if b then record c { exited = true; child_exit_status = s } else c)) own,
    )

-- From a state with the invariant IsFamily, in every order of the calls of a parent and of its children:
-- a child that is in the list and that was not waited for calls sys_exit; then any calls follow but an
-- exit of this child or a wait for it. The next process_wait for the child that returns gives the status
-- of sys_exit. Whatever is called then, every later process_wait for it that returns gives -1.
pub wait-sys_exit :
    {f g h i j k : Family} (es es2 : List Event) (tid exit_status ret ret2 : ℕ) (c : ChildStatus)
    → IsFamily f
    → status_of f.parent tid ≡ some c
    → c.has_been_waited ≡ false
    → Move f (exit tid exit_status) g
    → Run g es h
    → AllQuiet tid es
    → Move h (wait tid ret) i
    → Run i es2 j
    → Move j (wait tid ret2) k
    → (ret ≡ exit_status) × (ret2 ≡ tid_error)
wait-sys_exit es es2 tid exit_status ret ret2 c inv found fresh left between quiet first after
      second =
    let c1 : ChildStatus = record c { exited = true; child_exit_status = exit_status } in
    let (low, high, marked) = exit_step tid exit_status c left inv found in
    let (inv1, found1) = AllQuiet-run es tid c1 between (keep left inv) quiet marked in
    let (r, taken) = returned_lem tid ret c1 first inv1 low high found1 in
    let was : (take_status c1).0.has_been_waited ≡ true = ground (arith, fresh) in
    let (inv2, (c2, found2, was2)) =
      IsWaited-run es2 tid after (keep first inv1) ((take_status c1).0, taken, was) in
    let (r2, taken2) = returned_lem tid ret2 c2 second inv2 low high found2 in
    (r ∙ ground (arith, fresh), r2 ∙ ground (arith, was2))

-- A child has not exited, as its parent sees it, when it is put into the list.
added_lem :
    (tid : ℕ) {f g : Family}
    → Move f (add tid) g
    → IsFamily f
    → (0 < tid)
      × (tid < 2 ^ 31)
      × ((c : ChildStatus) × (status_of g.parent tid ≡ some c) × (c.exited ≡ false))
added_lem tid (adds f _ elem h) inv =
    let (missing, was, low, high) = subst (Fresh f.parent f.seen) h inv.fresh in
    let c : ChildStatus = record {
      child_tid = tid;
      exited = false;
      has_been_waited = false;
      child_exit_status = 0;
      elem = elem;
    } in
    (
      low,
      high,
      (
        c,
        add_lem f.parent tid elem tid
            ∙ ap {B = Option ChildStatus} (λ b. if b then some c else status_of f.parent tid)
                (==_refl tid),
        refl,
      ),
    )

-- From a state with the invariant IsFamily: a child that calls sys_exit at any time before
-- process_execute has put it into the list of its parent loses its status, whatever else is called
-- before, between and after these calls, but an exit of this child or a wait for it after it was put
-- into the list: the next process_wait for the child that returns gives -1.
pub wait-early_exit :
    {f g h i j k l m : Family} (before between after : List Event) (tid exit_status ret : ℕ)
    → IsFamily f
    → Move f (create tid) g
    → Run g before h
    → Move h (exit tid exit_status) i
    → Run i between j
    → Move j (add tid) k
    → Run k after l
    → AllQuiet tid after
    → Move l (wait tid ret) m
    → ret ≡ tid_error
wait-early_exit before between after tid exit_status ret inv created r1 left r2 added r3 quiet
      waited =
    let inv1 = keep_run between r2 (keep left (keep_run before r1 (keep created inv))) in
    let (low, high, (c, found, runs)) = added_lem tid added inv1 in
    let (inv2, found2) = AllQuiet-run after tid c r3 (keep added inv1) quiet found in
    (returned_lem tid ret c waited inv2 low high found2).0 ∙ ground (arith, runs)
