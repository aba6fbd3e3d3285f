-- ===== src/IntQueue/Fifo.antt =====
-- The ring buffer of devices/intq.c as a sequence of bytes, the oldest first.
use ee468_pintos_project.Prelude.{
  ℕ, zero, suc, ◌+◌, ◌-◌, ◌%◌, ◌<◌, ◌≤◌, ◌≡◌, refl, ◌≢◌, sym, ap, ap₂, ◌∙◌, subst, true, false,
  if◌then◌else◌, ℕ_discrete, ◌==◌, List, [], ◌∷◌, ◌++◌, length, ok, arith, ==_ne,
}
use ee468_pintos_project.Memory.{null, poke}
use ee468_pintos_project.Threads.{Kernel, thread_blocked, thread_ready, is_thread}
use ee468_pintos_project.Threads.Sched.{status_of, IsSched}
use ee468_pintos_project.Threads.Change.{change}
use ee468_pintos_project.Threads.Unblock.{thread_unblock-IsSched}
use ee468_pintos_project.IntQueue.{
  IntQ, next, intq_empty, intq_full, wake_waiter, signal_not_full, signal_not_empty, get_byte,
  put_byte,
}

-- `n` bytes from the position `pos` on, around the end of the buffer.
abbrev pub ring : (n pos : ℕ) → (ℕ → ℕ) → List ℕ
ring zero pos buf = []
ring (suc n) pos buf = buf pos ∷ ring n (next pos) buf

abbrev pub count : IntQ → ℕ
count q = (q.head + 64 - q.tail) % 64

abbrev pub contents : IntQ → List ℕ
contents q = ring (count q) q.tail q.buf

pub record IsIntQ (q : IntQ) : Type 0 where
  pub head_in : q.head < 64
  pub tail_in : q.tail < 64

length-ring : (n pos : ℕ) (buf : ℕ → ℕ) → length (ring n pos buf) ≡ n
length-ring zero pos buf = refl
length-ring (suc n) pos buf = ap suc (length-ring n (next pos) buf)

-- A byte written behind the last one.
ring-poke :
    (n pos at : ℕ) (buf : ℕ → ℕ) (byte : ℕ)
    → n < 64
    → pos < 64
    → at ≡ (pos + n) % 64
    → ring (suc n) pos (poke buf at byte) ≡ ring n pos buf ++ byte ∷ []
ring-poke zero pos at buf byte h p e = ap₂ ◌∷◌ (ground arith) refl
ring-poke (suc n) pos at buf byte h p e =
    ap₂ ◌∷◌ (ground (arith, ==_ne pos at (λ x. omega arith)))
      (ring-poke n (next pos) at buf byte (omega arith) (omega arith) (omega arith))

-- The kernel after the waiting thread, if there is one, became ready at the back of the ready list.
abbrev pub roused : Kernel → (waiter : ℕ) → Kernel
roused k waiter =
    if waiter == null
    then k
    else change k waiter thread_ready (k.ready_list ++ waiter ∷ []) k.all_list

-- The waiter, if there is one, is a blocked thread, and not the idle thread.
abbrev pub IsWaiter : Kernel → ℕ → Type 0
IsWaiter k waiter =
    waiter ≢ null
    → (is_thread k waiter ≡ true) × (status_of k waiter ≡ thread_blocked) × (waiter ≢ k.idle_thread)

wake_waiter_lem :
    (k : Kernel) (waiter : ℕ)
    → IsSched k
    → IsWaiter k waiter
    → (wake_waiter k waiter ≡ ok (roused k waiter)) × IsSched (roused k waiter)
unfolding wake_waiter
wake_waiter_lem k waiter v w = elim (ℕ_discrete waiter null) [
  | yes e ↦ let none : (waiter == null) ≡ true = ground (arith, e) in rw none (refl, v)
  | no ne ↦
      let some : (waiter == null) ≡ false = ==_ne waiter null ne in
      let (there, st, idle) = w ne in rw some (thread_unblock-IsSched k waiter v there st idle)
]

-- A byte that is put goes behind the bytes of a queue that is not full. The thread that waits for a byte,
-- if there is one, becomes ready, at the back of the ready list, and the queue forgets it; nothing else of
-- the kernel changes, and the scheduler's invariant stays. Interrupts are off, and the thread that waits
-- is blocked and not the idle thread.
pub put-contents :
    (k : Kernel) (q : IntQ) (byte : ℕ)
    → k.intr_on ≡ false
    → IsIntQ q
    → length (contents q) < 63
    → IsSched k
    → IsWaiter k q.not_empty
    → (q' : IntQ) × (put_byte k q byte ≡ ok (roused k q.not_empty, q'))
      × IsSched (roused k q.not_empty)
      × IsIntQ q'
      × (contents q' ≡ contents q ++ byte ∷ [])
      × (q'.not_empty ≡ null)
      × (q'.not_full ≡ q.not_full)
unfolding put_byte signal_not_empty intq_empty
put-contents k q byte off v room sched waits =
    let (w, is) = wake_waiter_lem k q.not_empty sched waits in
    let few : count q < 63 = subst (λ n. n < 63) (length-ring (count q) q.tail q.buf) room in
    (
      record q { buf = poke q.buf q.head byte; head = next q.head; not_empty = null },
      ground (arith, off, w, ==_ne (next q.head) q.tail (λ e. omega (arith, few))),
      is,
      record { head_in = omega arith; tail_in = v.tail_in },
      ap (λ c. ring c q.tail (poke q.buf q.head byte)) {y = suc (count q)} (omega (arith, few))
          ∙ ring-poke (count q) q.tail q.head q.buf byte (omega (arith, few)) v.tail_in
              (omega arith),
      refl,
      refl,
    )

-- From a queue that is not empty a get takes the oldest byte and returns it. The thread that waits for
-- room, if there is one, becomes ready, at the back of the ready list, and the queue forgets it; nothing
-- else of the kernel changes, and the scheduler's invariant stays. Interrupts are off, and the thread
-- that waits is blocked and not the idle thread.
pub get-contents :
    (k : Kernel) (q : IntQ)
    → k.intr_on ≡ false
    → IsIntQ q
    → 0 < length (contents q)
    → IsSched k
    → IsWaiter k q.not_full
    → (q' : IntQ) × (byte : ℕ) × (get_byte k q ≡ ok (roused k q.not_full, q', byte))
      × IsSched (roused k q.not_full)
      × IsIntQ q'
      × (contents q ≡ byte ∷ contents q')
      × (q'.not_full ≡ null)
      × (q'.not_empty ≡ q.not_empty)
unfolding get_byte signal_not_full intq_full
get-contents k q off v some sched waits =
    let (w, is) = wake_waiter_lem k q.not_full sched waits in
    let any : 0 < count q = subst (λ n. 0 < n) (length-ring (count q) q.tail q.buf) some in
    (
      record q { tail = next q.tail; not_full = null },
      q.buf q.tail,
      ground (arith, off, w, ==_ne (next q.head) (next q.tail) (λ e. omega (arith, any))),
      is,
      record { head_in = v.head_in; tail_in = omega arith },
      ap (λ c. ring c q.tail q.buf) {y = suc ((q.head + 64 - next q.tail) % 64)}
          (omega (arith, any)),
      refl,
      refl,
    )

empty_test : (h t : ℕ) → h < 64 → t < 64 → (h == t) ≡ ((h + 64 - t) % 64 == 0)
empty_test h t a b = ground arith

full_test : (h t : ℕ) → h < 64 → t < 64 → (next h == t) ≡ ((h + 64 - t) % 64 == 63)
full_test h t a b = ground arith

-- With interrupts off, intq_empty answers whether the queue holds no byte, and intq_full whether it
-- holds 63, the most that it ever holds.
pub empty_full-contents :
    (k : Kernel) (q : IntQ)
    → k.intr_on ≡ false
    → IsIntQ q
    → (intq_empty k q ≡ ok (length (contents q) == 0))
      × (intq_full k q ≡ ok (length (contents q) == 63))
      × (length (contents q) ≤ 63)
unfolding intq_empty intq_full
empty_full-contents k q off v =
    let n = length-ring (count q) q.tail q.buf in
    (
      subst (λ m. intq_empty k q ≡ ok (m == 0)) (sym n)
          (ground (arith, off) ∙ ap ok (empty_test q.head q.tail v.head_in v.tail_in)),
      subst (λ m. intq_full k q ≡ ok (m == 63)) (sym n)
          (ground (arith, off) ∙ ap ok (full_test q.head q.tail v.head_in v.tail_in)),
      omega (arith, n),
    )
