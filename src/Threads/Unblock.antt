-- ===== src/Threads/Unblock.antt =====
-- thread_unblock of threads/thread.c.
use ee468_pintos_project.Prelude.{
  ℕ, ◌≡◌, ◌≢◌, refl, sym, ap, ◌∙◌, true, false, List, [], ◌∷◌, ◌++◌, arith, inl, inr, ok, ==_ne,
  ==_refl, Bool-cases, ℕ_discrete,
}
use ee468_pintos_project.KernelList.Chain.{mem, mem-append}
use ee468_pintos_project.Threads.{
  Kernel, thread_running, thread_ready, thread_blocked, is_running, is_blocked, is_thread,
  thread_unblock,
}
use ee468_pintos_project.Threads.Sched.{status_of, IsSched}
use ee468_pintos_project.Threads.Change.{
  change, at_back-Distinct, change-Queue, status_here, status_else, thread_change,
}

blocked_out :
    (k : Kernel) (t : ℕ) → IsSched k → status_of k t ≡ thread_blocked → mem t k.ready_list ≡ false
blocked_out k t v st = elim (Bool-cases (mem t k.ready_list)) [
  | inl m ↦ let h = ap is_blocked (sym (v.queue.queued t m).1 ∙ st) in ground arith
  | inr n ↦ n
]

blocked_ne_cpu : (k : Kernel) (t : ℕ) → IsSched k → status_of k t ≡ thread_blocked → t ≢ k.cpu
blocked_ne_cpu k t v st e =
    let h = ap is_blocked (sym v.runs ∙ sym (ap (status_of k) e) ∙ st) in ground arith

alone_after :
    (k : Kernel) (t : ℕ)
    → IsSched k
    → (there : is_thread k t ≡ true) → status_of k t ≡ thread_blocked
    → (q : List ℕ) (x : ℕ) → is_thread (change k t thread_ready q k.all_list) x ≡ true
    → status_of (change k t thread_ready q k.all_list) x ≡ thread_running
    → x ≡ k.cpu
alone_after k t v there st q x th r = elim (ℕ_discrete x t) [
  | yes e ↦
      let h =
        ap is_running (sym (status_here k v.queue t there thread_ready q k.all_list x e) ∙ r) in
      ground arith
  | no ne ↦
      v.alone x (sym (thread_change k v.queue t there thread_ready q k.all_list x) ∙ th)
        (sym (status_else k v.queue t there thread_ready q k.all_list x ne) ∙ r)
]

-- thread_unblock makes a blocked thread ready, at the back of the ready list, and changes nothing
-- else; the scheduler's invariant stays.
pub thread_unblock-IsSched :
    (k : Kernel) (t : ℕ)
    → IsSched k
    → is_thread k t ≡ true
    → status_of k t ≡ thread_blocked
    → t ≢ k.idle_thread
    → (thread_unblock k t ≡ ok (change k t thread_ready (k.ready_list ++ t ∷ []) k.all_list))
      × IsSched (change k t thread_ready (k.ready_list ++ t ∷ []) k.all_list)
unfolding thread_unblock
thread_unblock-IsSched k t v there st ne =
    let q = k.ready_list ++ t ∷ [] in
    (
      ground (arith, there, st),
      record {
        queue =
            change-Queue k v.queue t there thread_ready q k.all_list
              (λ x n. ground (arith, mem-append x k.ready_list (t ∷ []), ==_ne x t n)) (λ m. refl)
              (λ h n. ground (arith, mem-append t k.ready_list (t ∷ []), ==_refl t))
              (at_back-Distinct t k.ready_list (blocked_out k t v st) v.queue.once)
              (ground (
                arith,
                v.queue.idle_out,
                mem-append k.idle_thread k.ready_list (t ∷ []),
                ==_ne k.idle_thread t (λ e. ne (sym e)),
              ))
              (λ e. refl);
        current = thread_change k v.queue t there thread_ready q k.all_list k.cpu ∙ v.current;
        runs =
            status_else k v.queue t there thread_ready q k.all_list k.cpu
              (λ e. blocked_ne_cpu k t v st (sym e))
            ∙ v.runs;
        alone = λ x th r. alone_after k t v there st q x th r;
      },
    )
