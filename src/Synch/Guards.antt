-- ===== src/Synch/Guards.antt =====
-- The assertions of lock_acquire, lock_release and lock_try_acquire of threads/synch.c, as the code's own
-- conditions on the holder.
use ee468_pintos_project.Prelude.{◌≡◌, ◌≢◌, sym, ap, ◌∙◌, not, ◌==◌, ok, ◌>>=◌, ◌>>◌, assert, arith}
use ee468_pintos_project.Memory.{null}
use ee468_pintos_project.Threads.{Kernel, Lock, is_thread}
use ee468_pintos_project.Threads.Sched.{IsSched}
use ee468_pintos_project.Threads.Calls.{current_ok}
use ee468_pintos_project.Synch.{
  acquire_checks, release_checks, try_checks, lock_held_by_current_thread,
}

pub cpu_real : (k : Kernel) → IsSched k → k.cpu ≢ null
unfolding is_thread
cpu_real k v e = let h = v.current in ground (arith, e, h)

held_ok :
    (k : Kernel) (lock : Lock)
    → IsSched k
    → lock_held_by_current_thread k lock ≡ ok (lock.holder == k.cpu)
unfolding lock_held_by_current_thread
held_ok k lock v = ap (λ o. o >>= λ cur. ok (lock.holder == cur)) (current_ok k v)

-- Who calls lock_release without a failure holds the lock.
pub release_lem :
    (k : Kernel) (lock : Lock) → IsSched k → release_checks k lock ≡ ok tt → lock.holder ≡ k.cpu
unfolding release_checks
release_lem k lock v h =
    let e : assert (lock.holder == k.cpu) ≡ ok tt =
      sym (ap (λ o. o >>= λ held. assert held) (held_ok k lock v)) ∙ h in
    ground (arith, e)

-- Who calls lock_acquire or lock_try_acquire without a failure does not.
pub try_lem :
    (k : Kernel) (lock : Lock) → IsSched k → try_checks k lock ≡ ok tt → lock.holder ≢ k.cpu
unfolding try_checks
try_lem k lock v h =
    let e : assert (not (lock.holder == k.cpu)) ≡ ok tt =
      sym (ap (λ o. o >>= λ held. assert (not held)) (held_ok k lock v)) ∙ h in
    λ same. ground (arith, e, same)

pub acquire_lem :
    (k : Kernel) (lock : Lock) → IsSched k → acquire_checks k lock ≡ ok tt → lock.holder ≢ k.cpu
unfolding acquire_checks
acquire_lem k lock v h =
    let e : (assert (not k.intr_context) >> assert (not (lock.holder == k.cpu))) ≡ ok tt =
      sym (
        ap (λ o. assert (not k.intr_context) >> (o >>= λ held. assert (not held)))
          (held_ok k lock v))
      ∙ h in
    λ same. ground (arith, e, same)
