-- ===== src/Threads/Tests.antt =====
-- threads/thread.c on the threads of Sample.antt.
use ee468_pintos_project.Prelude.{◌≡◌, refl, [], ◌∷◌, ok, false}
use ee468_pintos_project.Threads.{Kernel, thread_ready, thread_blocked, thread_yield, thread_block}
use ee468_pintos_project.Threads.Sched.{IsSched}
use ee468_pintos_project.Threads.Calls.{
  GivesUp, thread_block-GivesUp, thread_yield-GivesUp, yield_queue,
}
use ee468_pintos_project.Threads.Turns.{turns, turn_comes}
use ee468_pintos_project.Threads.Sample.{five, five-IsSched}

thread_yield-GivesUp_example :
    GivesUp
      (record five { intr_on = false })
      thread_ready
      (yield_queue five)
      five.all_list
      (thread_yield five)
thread_yield-GivesUp_example = thread_yield-GivesUp five five-IsSched

thread_block-GivesUp_example :
    GivesUp five thread_blocked five.ready_list five.all_list (thread_block five)
thread_block-GivesUp_example = thread_block-GivesUp five five-IsSched refl

turn_comes_example : (k : Kernel) × (turns 2 five ≡ ok k) × IsSched k × (k.cpu ≡ 3)
turn_comes_example = turn_comes five 3 (2 ∷ []) [] five-IsSched refl
