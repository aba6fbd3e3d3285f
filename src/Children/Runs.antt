-- ===== src/Children/Runs.antt =====
-- The calls of a parent and of its children in any order, of userprog/process.c and userprog/syscall.c.
use ee468_pintos_project.Prelude.{
  ℕ, ◌^◌, ◌≤◌, ◌<◌, ◌≡◌, Bool, true, false, ◌==◌, if◌then◌else◌, List, [], ◌∷◌, Option, none, some,
}
use ee468_pintos_project.Children.{Parent, add_child, sys_exit, process_wait}
use ee468_pintos_project.Children.Status.{status_of}

-- A parent and the threads: which ones live, which ones were ever created, and the thread that
-- process_execute created and has not put into the list yet.
pub record Family : Type 0 where
  pub parent : Parent
  pub alive : ℕ → Bool
  pub seen : ℕ → Bool
  pub pending : Option ℕ

pub data Event : Type 0 where
  create : (tid : ℕ) → Event
  add : (tid : ℕ) → Event
  exit : (tid exit_status : ℕ) → Event
  die : (tid : ℕ) → Event
  queue : Event
  wait : (tid ret : ℕ) → Event

abbrev pub with_bit : (ℕ → Bool) → ℕ → Bool → ℕ → Bool
with_bit f t b u = if u == t then b else f u

-- Thread numbers are positive and below 2 ^ 31. `exits` is sys_exit up to thread_exit, `dies` the end
-- of a thread, with sys_exit or without; `queues` is any change of the waiters of child_condition,
-- whose links are addresses of the kernel. A call of process_wait is a step when it returns.
pub data Move : Family → Event → Family → Type 0 where
  creates :
      (f : Family) (tid : ℕ)
      → f.pending ≡ none
      → f.seen tid ≡ false
      → 0 < tid
      → tid < 2 ^ 31
      → Move f (create tid) (record f {
        alive = with_bit f.alive tid true;
        seen = with_bit f.seen tid true;
        pending = some tid;
      })
  adds :
      (f : Family) (tid elem : ℕ)
      → f.pending ≡ some tid
      → Move f (add tid) (record f { parent = add_child f.parent tid elem; pending = none })
  exits :
      (f : Family) (tid exit_status : ℕ)
      → f.alive tid ≡ true
      → 0 < tid
      → tid < 2 ^ 31
      → Move f (exit tid exit_status) (record f { parent = sys_exit f.parent tid exit_status })
  dies : (f : Family) (tid : ℕ) → Move f (die tid) (record f { alive = with_bit f.alive tid false })
  queues :
      (f : Family) (first last : ℕ)
      → 2 ^ 31 ≤ first
      → Move f queue
          (record f { parent = record (f.parent) { first_waiter = first; last_waiter = last } })
  waits :
      (f : Family) (tid ret : ℕ) (p : Parent)
      → f.pending ≡ none
      → process_wait f.alive f.parent tid ≡ some (p, ret)
      → Move f (wait tid ret) (record f { parent = p })

pub data Run : Family → List Event → Family → Type 0 where
  stop : (f : Family) → Run f [] f
  step : (f g h : Family) (e : Event) (es : List Event) → Move f e g → Run g es h → Run f (e ∷ es) h

-- A thread that is pending was created, and is not in the list.
abbrev pub Fresh : Parent → (seen : ℕ → Bool) → Option ℕ → Type 0
Fresh p seen none = Unit
Fresh p seen (some tid) = (status_of p tid ≡ none) × (seen tid ≡ true) × (0 < tid) × (tid < 2 ^ 31)

-- The words before the sentinels are links of an initialized list, and the children are threads that
-- were created.
pub record IsFamily (f : Family) : Type 0 where
  pub end_null : f.parent.waiters_end ≡ 0
  pub before_null : f.parent.before_head ≡ 0
  pub kernel_link : 2 ^ 31 ≤ f.parent.first_waiter
  pub known : (u : ℕ) → f.seen u ≡ false → status_of f.parent u ≡ none
  pub fresh : Fresh f.parent f.seen f.pending
