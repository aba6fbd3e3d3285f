-- ===== src/Threads/Turns.antt =====
-- Round robin: how long a ready thread of threads/thread.c waits while the others yield.
use mathlib.Core.List.{append_assoc, append-nil}
use ee468_pintos_project.Prelude.{
  ℕ, zero, suc, ◌≡◌, sym, ap, ◌∙◌, ◌==◌, if◌then◌else◌, List, [], ◌∷◌, ◌++◌, ok, Outcome, ◌>>=◌,
  length, true, false, Bool,
}
use ee468_pintos_project.Threads.{Kernel, thread_yield}
use ee468_pintos_project.Threads.Sched.{IsSched, next_thread, rest}
use ee468_pintos_project.Threads.Calls.{thread_yield-GivesUp, yield_queue}

-- `n` threads yield, one after the other.
abbrev pub turns : ℕ → Kernel → Outcome Kernel
turns zero k = ok k
turns (suc n) k = thread_yield k >>= turns n

behind : Kernel → List ℕ
behind k = if k.cpu == k.idle_thread then [] else k.cpu ∷ []

at_end :
    (b : Bool) (c : ℕ) (q xs : List ℕ)
    → q ≡ xs
    → (if b then q else q ++ c ∷ []) ≡ xs ++ (if b then [] else c ∷ [])
at_end true c q xs h = h ∙ sym (append-nil xs)
at_end false c q xs h = ap (λ r. r ++ c ∷ []) h

yield_queue_lem : (k : Kernel) (xs : List ℕ) → k.ready_list ≡ xs → yield_queue k ≡ xs ++ behind k
unfolding behind
yield_queue_lem k xs h = at_end (k.cpu == k.idle_thread) k.cpu k.ready_list xs h

-- Round robin: when every thread that runs yields, a thread with the threads `xs` before it in the
-- ready list runs after one turn for each of them and one more, and the scheduler's invariant holds.
pub turn_comes :
    (k : Kernel) (t : ℕ) (xs ys : List ℕ)
    → IsSched k
    → k.ready_list ≡ xs ++ t ∷ ys
    → (k' : Kernel) × (turns (suc (length xs)) k ≡ ok k') × IsSched k' × (k'.cpu ≡ t)
turn_comes k t [] ys v h =
    let (k', r, is, w) = thread_yield-GivesUp k v in
    (
      k',
      ap (λ o. o >>= turns 0) r,
      is,
      w.goes_on ∙ ap (next_thread k.idle_thread) (yield_queue_lem k (t ∷ ys) h),
    )
turn_comes k t (x ∷ xs) ys v h =
    let (k1, r, is, w) = thread_yield-GivesUp k v in
    let left =
      w.left
      ∙ ap rest (yield_queue_lem k (x ∷ xs ++ t ∷ ys) h)
      ∙ append_assoc xs (t ∷ ys) (behind k) in
    let (k', r', is', at) = turn_comes k1 t xs (ys ++ behind k) is left in
    (k', ap (λ o. o >>= turns (suc (length xs))) r ∙ r', is', at)
