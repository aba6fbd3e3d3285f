-- ===== src/Threads/Change.antt =====
-- A change of the status of one thread of threads/thread.c together with the ready list.
use ee468_pintos_project.Prelude.{
  ℕ, ◌≡◌, ◌≢◌, refl, sym, ap, ◌∙◌, true, false, ◌==◌, if◌then◌else◌, List, [], ◌∷◌, ◌++◌, arith,
  ==_ne, ℕ_discrete,
}
use ee468_pintos_project.KernelList.Chain.{mem, Distinct, ne_of_mem, append-Distinct}
use ee468_pintos_project.Threads.{Kernel, Status, thread_ready, is_dying, is_thread, set_status}
use ee468_pintos_project.Threads.Sched.{status_of, Queue}

pub at_back-Distinct :
    (t : ℕ) (ts : List ℕ) → mem t ts ≡ false → Distinct ts → Distinct (ts ++ t ∷ [])
at_back-Distinct t ts out d =
    append-Distinct ts (t ∷ []) d (refl, tt) (λ x m. ground (arith, ne_of_mem x t ts m out))

-- The thread `u` takes the status `s`, with the ready list `q` and the list of all threads `all`.
abbrev pub change : Kernel → ℕ → Status → List ℕ → List ℕ → Kernel
change k u s q all = set_status (record k { ready_list = q; all_list = all }) u s

module _ (k : Kernel) (v : Queue k) (u : ℕ) (there_u : is_thread k u ≡ true) (s : Status)
    (q all : List ℕ) where
  status_change : (t : ℕ) → status_of (change k u s q all) t ≡ (if t == u then s else status_of k t)
  status_change t = ground arith

  pub thread_change : (t : ℕ) → is_thread (change k u s q all) t ≡ is_thread k t
  unfolding is_thread
  thread_change t = ground arith

  pub status_here : (t : ℕ) → t ≡ u → status_of (change k u s q all) t ≡ s
  status_here t e = ground arith

  pub status_else : (t : ℕ) → t ≢ u → status_of (change k u s q all) t ≡ status_of k t
  status_else t ne = ground (arith, ==_ne t u ne)

  module _ (others : (t : ℕ) → t ≢ u → mem t q ≡ mem t k.ready_list)
      (here : mem u q ≡ true → s ≡ thread_ready)
      (waits : s ≡ thread_ready → u ≢ k.idle_thread → mem u q ≡ true) (once : Distinct q)
      (out : mem k.idle_thread q ≡ false) (lives : u ≡ k.idle_thread → is_dying s ≡ false) where
    queued_after :
        (t : ℕ)
        → mem t q ≡ true
        → (is_thread (change k u s q all) t ≡ true)
          × (status_of (change k u s q all) t ≡ thread_ready)
    queued_after t m = elim (ℕ_discrete t u) [
      | yes e ↦ (
        thread_change t ∙ ap (is_thread k) e ∙ there_u,
        status_here t e ∙ here (sym (ap (λ x. mem x q) e) ∙ m),
      )
      | no ne ↦
          let (there, st) = v.queued t (sym (others t ne) ∙ m) in
          (thread_change t ∙ there, status_else t ne ∙ st)
    ]

    listed_after :
        (t : ℕ)
        → is_thread (change k u s q all) t ≡ true
        → status_of (change k u s q all) t ≡ thread_ready
        → t ≢ k.idle_thread
        → mem t q ≡ true
    listed_after t there st ne = elim (ℕ_discrete t u) [
      | yes e ↦ ap (λ x. mem x q) e ∙ waits (sym (status_here t e) ∙ st) (λ h. ne (e ∙ h))
      | no o ↦
          others t o ∙ v.listed t (sym (thread_change t) ∙ there) (sym (status_else t o) ∙ st) ne
    ]

    idle_after : is_dying (status_of (change k u s q all) k.idle_thread) ≡ false
    idle_after = elim (ℕ_discrete k.idle_thread u) [
      | yes e ↦ ap is_dying (status_here k.idle_thread e) ∙ lives (sym e)
      | no o ↦ ap is_dying (status_else k.idle_thread o) ∙ v.idle_lives
    ]

    pub change-Queue : Queue (change k u s q all)
    change-Queue = record {
      queued = queued_after;
      listed = listed_after;
      once = once;
      idle_out = out;
      idle_there = thread_change k.idle_thread ∙ v.idle_there;
      idle_lives = idle_after;
      threads_only = v.threads_only;
    }
