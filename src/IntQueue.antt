-- ===== src/IntQueue.antt =====
-- devices/intq.c: a ring buffer of bytes between threads and interrupt handlers, with a thread that
-- may wait at each end. get_byte and put_byte are intq_getc and intq_putc behind their waiting loops.
pub mod Fifo
mod Tests
use ee468_pintos_project.Prelude.{
  ℕ, zero, suc, ◌+◌, ◌-◌, ◌%◌, Bool, not, ◌==◌, if◌then◌else◌, List, [], ◌∷◌, Outcome, ok, ◌>>=◌,
  ◌>>◌, assert,
}
use ee468_pintos_project.Memory.{null, poke}
use ee468_pintos_project.Threads.{Kernel, Lock, lock_init, thread_unblock}

abbrev pub intq_bufsize : ℕ
intq_bufsize = 64

pub record IntQ : Type 0 where
  pub lock : Lock
  pub not_full : ℕ
  pub not_empty : ℕ
  pub buf : ℕ → ℕ
  pub head : ℕ
  pub tail : ℕ

-- The bytes of the buffer stay as they are.
abbrev pub intq_init : IntQ → IntQ
intq_init q = record q { lock = lock_init; not_full = null; not_empty = null; head = 0; tail = 0 }

abbrev pub next : ℕ → ℕ
next pos = (pos + 1) % intq_bufsize

pub intq_empty : Kernel → IntQ → Outcome Bool
intq_empty k q = assert (not k.intr_on) >> ok (q.head == q.tail)

pub intq_full : Kernel → IntQ → Outcome Bool
intq_full k q = assert (not k.intr_on) >> ok (next q.head == q.tail)

-- Wakes the thread `waiter`, if there is one.
pub wake_waiter : Kernel → (waiter : ℕ) → Outcome Kernel
wake_waiter k waiter = if not (waiter == null) then thread_unblock k waiter else ok k

pub signal_not_full : Kernel → IntQ → Outcome (Kernel × IntQ)
signal_not_full k q = do
  full ← intq_full k q
  assert (not full)
  k' ← wake_waiter k q.not_full
  ok (k', record q { not_full = null })

pub signal_not_empty : Kernel → IntQ → Outcome (Kernel × IntQ)
signal_not_empty k q = do
  empty ← intq_empty k q
  assert (not empty)
  k' ← wake_waiter k q.not_empty
  ok (k', record q { not_empty = null })

pub get_byte : Kernel → IntQ → Outcome (Kernel × IntQ × ℕ)
get_byte k q = do
  let byte = q.buf q.tail
  (k', q') ← signal_not_full k (record q { tail = next q.tail })
  ok (k', q', byte)

pub put_byte : Kernel → IntQ → (byte : ℕ) → Outcome (Kernel × IntQ)
put_byte k q byte =
    signal_not_empty k (record q { buf = poke q.buf q.head byte; head = next q.head })
