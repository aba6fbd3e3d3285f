-- ===== src/IntQueue/Tests.antt =====
-- devices/intq.c on a queue of the bytes 7 and 8 around the end of the buffer, for which thread 5 of
-- Threads/Sample.antt waits.
use ee468_pintos_project.Prelude.{◌≡◌, refl, ℕ, ok, arith, [], ◌∷◌, ◌==◌, if◌then◌else◌}
use ee468_pintos_project.Memory.{null}
use ee468_pintos_project.Threads.{Kernel, lock_init, thread_ready, is_thread}
use ee468_pintos_project.Threads.Change.{change}
use ee468_pintos_project.Threads.Sched.{IsSched}
use ee468_pintos_project.Threads.Sample.{five, five-IsSched}
use ee468_pintos_project.IntQueue.{IntQ, put_byte, get_byte}
use ee468_pintos_project.IntQueue.Fifo.{IsIntQ, contents, IsWaiter, put-contents, get-contents}

abbrev two : IntQ
two = record {
  lock = lock_init;
  not_full = 0;
  not_empty = 0;
  buf = λ a. if a == 63 then 7 else 8;
  head = 1;
  tail = 63;
}

two-IsIntQ : {full empty : ℕ} → IsIntQ (record two { not_full = full; not_empty = empty })
two-IsIntQ = record { head_in = omega arith; tail_in = omega arith }

waiting : IsWaiter five 5
unfolding is_thread
waiting ne = (refl, refl, λ e. omega (arith, e))

abbrev fifth : Kernel
fifth = change five 5 thread_ready (2 ∷ 3 ∷ 5 ∷ []) (1 ∷ 2 ∷ 3 ∷ 4 ∷ 5 ∷ [])

put-contents_example :
    (q : IntQ) × (put_byte five (record two { not_empty = 5 }) 9 ≡ ok (fifth, q))
    × IsSched fifth
    × IsIntQ q
    × (contents q ≡ 7 ∷ 8 ∷ 9 ∷ [])
    × (q.not_empty ≡ null)
    × (q.not_full ≡ 0)
put-contents_example =
    put-contents five (record two { not_empty = 5 }) 9 refl two-IsIntQ (omega arith) five-IsSched
      waiting

get-contents_example :
    (q : IntQ) × (byte : ℕ) × (get_byte five (record two { not_full = 5 }) ≡ ok (fifth, q, byte))
    × IsSched fifth
    × IsIntQ q
    × (7 ∷ 8 ∷ [] ≡ byte ∷ contents q)
    × (q.not_full ≡ null)
    × (q.not_empty ≡ 0)
get-contents_example =
    get-contents five (record two { not_full = 5 }) refl two-IsIntQ (omega arith) five-IsSched
      waiting
