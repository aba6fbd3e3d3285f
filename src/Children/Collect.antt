-- ===== src/Children/Collect.antt =====
-- Every order of the calls of a parent and its children, of userprog/process.c and userprog/syscall.c: what
-- process_wait returns.
use mathlib.Core.Bool.{true≢false}
use mathlib.Core.Option.{none-ne-some, some-injective}
use ee468_pintos_project.Prelude.{
  ℕ, ◌^◌, ◌≤◌, ◌<◌, ◌≡◌, ◌≢◌, inl, inr, sym, ap, ◌∙◌, subst, Bool, true, List, [], ◌∷◌, reverse,
  Option, none, some, arith, ℕ_discrete,
}
use ee468_pintos_project.Children.{
  ChildStatus, Parent, add_child, exit_child, sys_exit, take_status, process_wait,
}
use ee468_pintos_project.Children.Status.{status_of, find_tid}
use ee468_pintos_project.Children.Calls.{exit_lem, add_lem, Waited, WaitedIf, wait_lem}
use ee468_pintos_project.Children.Runs.{
  Family, Event, Move, Run, IsFamily, Fresh, creates, adds, exits, dies, queues, waits, create, add,
  exit, die, queue, wait, stop, step,
}

pub waited_lem :
    (f : Family) (tid ret : ℕ) (p : Parent)
    → IsFamily f
    → process_wait f.alive f.parent tid ≡ some (p, ret)
    → Waited f.alive f.parent tid p ret
unfolding WaitedIf
waited_lem f tid ret p inv h =
    subst (WaitedIf f.alive f.parent tid) h
      (wait_lem f.alive f.parent tid inv.end_null inv.before_null inv.kernel_link)

-- A status that is not there stays away, whatever is called but the end of process_execute.
none_exit :
    (p : Parent) (tid exit_status u : ℕ)
    → tid < 2 ^ 31
    → 2 ^ 31 ≤ p.first_waiter
    → status_of p u ≡ none
    → status_of (sys_exit p tid exit_status) u ≡ none
none_exit p tid exit_status u small big h =
    (exit_lem p tid exit_status u small big).0
    ∙ ap {B = Option ChildStatus}
        (λ o. elim o [ none ↦ none | some c ↦ some (exit_child tid exit_status c) ]) h

pub some_exit :
    (p : Parent) (tid exit_status u : ℕ) (c : ChildStatus)
    → tid < 2 ^ 31
    → 2 ^ 31 ≤ p.first_waiter
    → status_of p u ≡ some c
    → status_of (sys_exit p tid exit_status) u ≡ some (exit_child tid exit_status c)
some_exit p tid exit_status u c small big h =
    (exit_lem p tid exit_status u small big).0
    ∙ ap {B = Option ChildStatus}
        (λ o. elim o [ none ↦ none | some c ↦ some (exit_child tid exit_status c) ]) h

none_wait :
    (alive : ℕ → Bool) (p : Parent) (tid : ℕ) (q : Parent) (ret u : ℕ)
    → Waited alive p tid q ret
    → status_of p u ≡ none
    → status_of q u ≡ none
none_wait alive p tid q ret u w h = elim (ℕ_discrete u tid) [
  | no ne ↦ w.others u ne ∙ h
  | yes e ↦ elim w.own [
    | inl (c, found, dead, r, taken) ↦ absurd (none-ne-some _ (sym h ∙ ap (status_of p) e ∙ found))
    | inr (same, more) ↦ ap (status_of q) e ∙ same ∙ ap (status_of p) (sym e) ∙ h
  ]
]

Fresh-map :
    (p q : Parent) (seen : ℕ → Bool) (o : Option ℕ)
    → ((u : ℕ) → status_of p u ≡ none → status_of q u ≡ none)
    → Fresh p seen o
    → Fresh q seen o
Fresh-map p q seen none h x = x
Fresh-map p q seen (some tid) h (missing, more, low, high) = (h tid missing, more, low, high)

pub keep : {f g : Family} {e : Event} → Move f e g → IsFamily f → IsFamily g
unfolding add_child
keep (creates f tid idle new low high) inv = record {
  end_null = inv.end_null;
  before_null = inv.before_null;
  kernel_link = inv.kernel_link;
  known = λ u h. inv.known u (ground (arith, h));
  fresh = (inv.known tid new, ground arith, low, high);
}
keep (adds f tid elem h) inv =
    let (missing, was, low, high) = subst (Fresh f.parent f.seen) h inv.fresh in
    record {
      end_null = inv.end_null;
      before_null = inv.before_null;
      kernel_link = inv.kernel_link;
      known = λ u new.
          let ne : tid ≢ u = λ e. true≢false (sym was ∙ ap f.seen e ∙ new) in
          add_lem f.parent tid elem u ∙ ground (arith, ne, inv.known u new);
      fresh = record {};
    }
keep (exits f tid exit_status lives low high) inv =
    let (st, a, b, c) = exit_lem f.parent tid exit_status 0 high inv.kernel_link in
    record {
      end_null = a ∙ inv.end_null;
      before_null = b ∙ inv.before_null;
      kernel_link = omega (arith, c, inv.kernel_link);
      known = λ u h. none_exit f.parent tid exit_status u high inv.kernel_link (inv.known u h);
      fresh =
          Fresh-map f.parent (sys_exit f.parent tid exit_status) f.seen f.pending
            (λ u. none_exit f.parent tid exit_status u high inv.kernel_link) inv.fresh;
    }
keep (dies f tid) inv = record {
  end_null = inv.end_null;
  before_null = inv.before_null;
  kernel_link = inv.kernel_link;
  known = inv.known;
  fresh = inv.fresh;
}
keep (queues f first last big) inv = record {
  end_null = inv.end_null;
  before_null = inv.before_null;
  kernel_link = big;
  known = inv.known;
  fresh =
      Fresh-map f.parent (record (f.parent) { first_waiter = first; last_waiter = last }) f.seen
        f.pending (λ u h. h) inv.fresh;
}
keep (waits f tid ret p idle h) inv =
    let w = waited_lem f tid ret p inv h in
    record {
      end_null = w.end_kept ∙ inv.end_null;
      before_null = w.before_kept ∙ inv.before_null;
      kernel_link = omega (arith, w.link_kept, inv.kernel_link);
      known = λ u h. none_wait f.alive f.parent tid p ret u w (inv.known u h);
      fresh =
          Fresh-map f.parent p f.seen f.pending (λ u. none_wait f.alive f.parent tid p ret u w)
            inv.fresh;
    }

-- The event is neither an exit of the child nor a wait for it.
abbrev pub Quiet : (tid : ℕ) → Event → Type 0
Quiet tid (exit t s) = t ≢ tid
Quiet tid (wait t r) = t ≢ tid
Quiet tid (create t) = Unit
Quiet tid (add t) = Unit
Quiet tid (die t) = Unit
Quiet tid queue = Unit

abbrev pub AllQuiet : (tid : ℕ) → List Event → Type 0
AllQuiet tid [] = Unit
AllQuiet tid (e ∷ es) = Quiet tid e × AllQuiet tid es

-- A status in the list is not hidden by a child that is added.
add_keeps :
    (f : Family) (t elem tid : ℕ) (c : ChildStatus)
    → IsFamily f
    → f.pending ≡ some t
    → status_of f.parent tid ≡ some c
    → status_of (add_child f.parent t elem) tid ≡ some c
add_keeps f t elem tid c inv h found =
    let (missing, was, low, high) = subst (Fresh f.parent f.seen) h inv.fresh in
    let ne : t ≢ tid = λ e. none-ne-some _ (sym missing ∙ ap (status_of f.parent) e ∙ found) in
    add_lem f.parent t elem tid ∙ ground (arith, ne, found)

Quiet-step :
    {f g : Family} {e : Event} (tid : ℕ) (c : ChildStatus)
    → Move f e g
    → IsFamily f
    → Quiet tid e
    → status_of f.parent tid ≡ some c
    → status_of g.parent tid ≡ some c
Quiet-step tid c (creates f t idle new low high) inv q found = found
Quiet-step tid c (adds f t elem h) inv q found = add_keeps f t elem tid c inv h found
Quiet-step tid c (exits f t s lives low high) inv q found =
    let own : c.child_tid ≡ tid = find_tid tid (reverse f.parent.children) c found in
    some_exit f.parent t s tid c high inv.kernel_link found
    ∙ ap {B = Option ChildStatus} some (ground (arith, own, q))
Quiet-step tid c (dies f t) inv q found = found
Quiet-step tid c (queues f first last big) inv q found = found
Quiet-step tid c (waits f t ret p idle h) inv q found =
    (waited_lem f t ret p inv h).others tid (λ e. q (sym e)) ∙ found

pub AllQuiet-run :
    {f g : Family} (es : List Event) (tid : ℕ) (c : ChildStatus)
    → Run f es g
    → IsFamily f
    → AllQuiet tid es
    → status_of f.parent tid ≡ some c
    → IsFamily g × (status_of g.parent tid ≡ some c)
AllQuiet-run _ tid c (stop f) inv q found = (inv, found)
AllQuiet-run _ tid c (step f g h e es s r) inv (q, qs) found =
    AllQuiet-run es tid c r (keep s inv) qs (Quiet-step tid c s inv q found)

-- That a child has been waited for is not forgotten.
abbrev pub IsWaited : Family → (tid : ℕ) → Type 0
IsWaited f tid = (c : ChildStatus) × (status_of f.parent tid ≡ some c) × (c.has_been_waited ≡ true)

IsWaited-step :
    {f g : Family} {e : Event} (tid : ℕ) → Move f e g → IsFamily f → IsWaited f tid → IsWaited g tid
IsWaited-step tid (creates f t idle new low high) inv w = w
IsWaited-step tid (adds f t elem h) inv (c, found, was) =
    (c, add_keeps f t elem tid c inv h found, was)
IsWaited-step tid (exits f t s lives low high) inv (c, found, was) =
    (exit_child t s c, some_exit f.parent t s tid c high inv.kernel_link found, ground (arith, was))
IsWaited-step tid (dies f t) inv w = w
IsWaited-step tid (queues f first last big) inv w = w
IsWaited-step tid (waits f t ret p idle h) inv (c, found, was) =
    let done = waited_lem f t ret p inv h in
    elim (ℕ_discrete tid t) [
      | no ne ↦ (c, done.others tid ne ∙ found, was)
      | yes e ↦ elim done.own [
        | inl (d, found2, dead, r, taken) ↦ (
          (take_status d).0,
          ap (status_of p) e ∙ taken,
          ground (arith, was, some-injective c d (sym found ∙ ap (status_of f.parent) e ∙ found2)),
        )
        | inr (same, more) ↦
            (c, ap (status_of p) e ∙ same ∙ ap (status_of f.parent) (sym e) ∙ found, was)
      ]
    ]

pub IsWaited-run :
    {f g : Family} (es : List Event) (tid : ℕ)
    → Run f es g
    → IsFamily f
    → IsWaited f tid
    → IsFamily g × IsWaited g tid
IsWaited-run _ tid (stop f) inv w = (inv, w)
IsWaited-run _ tid (step f g h e es s r) inv w =
    IsWaited-run es tid r (keep s inv) (IsWaited-step tid s inv w)

pub keep_run : {f g : Family} (es : List Event) → Run f es g → IsFamily f → IsFamily g
keep_run _ (stop f) inv = inv
keep_run _ (step f g h e es s r) inv = keep_run es r (keep s inv)
