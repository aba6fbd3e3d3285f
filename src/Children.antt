-- ===== src/Children.antt =====
-- The children of a process: what process_execute and process_wait of userprog/process.c and sys_exit of
-- userprog/syscall.c do with the list of struct child_status of the parent. That list
-- grows only by the parent's own calls, so that the element that process_wait finds before it waits is
-- the one that it would find afterwards. `alive` is
-- whether thread_get_by_id finds a thread. An int is its word. The parent lives, since where sys_exit
-- does not find it there is nothing to change, and calloc gives memory.
pub mod Status
pub mod Calls
pub mod Runs
pub mod Collect
pub mod Once
mod Tests
use ee468_pintos_project.Prelude.{
  ℕ, ◌+◌, ◌-◌, ◌*◌, ◌/◌, ◌%◌, ◌^◌, Bool, true, false, not, ◌||◌, ◌==◌, if◌then◌else◌, List, [], ◌∷◌,
  ◌++◌, reverse, Option, none, some,
}

pub record ChildStatus : Type 0 where
  pub child_tid : ℕ
  pub exited : Bool
  pub has_been_waited : Bool
  pub child_exit_status : ℕ
  pub elem : ℕ

-- The fields of a parent's struct thread. The words before the list of children are the list of waiters
-- of child_condition: `first_waiter` is the `next` of its head, `last_waiter` and `waiters_end` are
-- the `prev` and the `next` of its tail. `head` and `tail` are the addresses of the sentinels of the list
-- of children, and `before_head` is the `prev` of its head.
pub record Parent : Type 0 where
  pub first_waiter : ℕ
  pub last_waiter : ℕ
  pub waiters_end : ℕ
  pub before_head : ℕ
  pub head : ℕ
  pub tail : ℕ
  pub children : List ChildStatus

abbrev pub tid_error : ℕ
tid_error = 2 ^ 32 - 1

-- The bytes 0 and 1 of a word, as values of type bool.
abbrev pub byte_0 : ℕ → Bool
byte_0 x = not (x % 256 == 0)

abbrev pub byte_1 : ℕ → Bool
byte_1 x = not (x / 256 % 256 == 0)

-- The words of struct thread before a sentinel, read as a struct child_status.
abbrev pub at_head : Parent → ChildStatus
at_head p = record {
  child_tid = p.first_waiter;
  exited = byte_0 p.last_waiter;
  has_been_waited = byte_1 p.last_waiter;
  child_exit_status = p.waiters_end;
  elem = p.head;
}

abbrev pub at_tail : Parent → ChildStatus
at_tail p = record {
  child_tid = p.waiters_end;
  exited = byte_0 p.before_head;
  has_been_waited = byte_1 p.before_head;
  child_exit_status = elim p.children [ [] ↦ p.tail | c ∷ cs ↦ c.elem ];
  elem = p.tail;
}

-- Byte 0 or byte 1 of a word becomes true.
abbrev pub with_byte_0 : ℕ → ℕ
with_byte_0 x = x / 256 * 256 + 1

abbrev pub with_byte_1 : ℕ → ℕ
with_byte_1 x = x / 2 ^ 16 * 2 ^ 16 + 256 + x % 256

-- What process_execute does behind thread_create: the new child is put at the end of the list.
unfoldable pub add_child : Parent → (tid elem : ℕ) → Parent
add_child p tid elem = record p {
  children =
      p.children
      ++ record {
        child_tid = tid;
        exited = false;
        has_been_waited = false;
        child_exit_status = 0;
        elem = elem;
      }
        ∷ [];
}

-- The loop of sys_exit of the child `tid`, on one status and on the list.
abbrev pub exit_child : (tid exit_status : ℕ) → ChildStatus → ChildStatus
exit_child tid exit_status c =
    if c.child_tid == tid then record c { exited = true; child_exit_status = exit_status } else c

unfoldable pub mark_exited : (tid exit_status : ℕ) → List ChildStatus → List ChildStatus
mark_exited tid exit_status [] = []
mark_exited tid exit_status (c ∷ cs) = exit_child tid exit_status c ∷ mark_exited tid exit_status cs

-- sys_exit of the child `tid`, up to thread_exit.
unfoldable pub sys_exit : Parent → (tid exit_status : ℕ) → Parent
unfolding mark_exited
sys_exit p tid exit_status =
    let children = mark_exited tid exit_status p.children in
    if p.first_waiter == tid
    then record p {
      last_waiter = with_byte_0 p.last_waiter;
      waiters_end = exit_status;
      children = children;
    }
    else record p { children = children }

-- The end of process_wait, when the child is not alive.
abbrev pub take_status : ChildStatus → ChildStatus × ℕ
take_status child =
    if not child.exited || child.has_been_waited
    then (child, tid_error)
    else (record child { has_been_waited = true }, child.child_exit_status)

-- `has_been_waited = true` of the same, on the word that is read as the two flags.
abbrev pub mark_waited : ℕ → ℕ
mark_waited flags = if not (byte_0 flags) || byte_1 flags then flags else with_byte_1 flags

-- The children from the last one on: the first with the number `child_tid`.
unfoldable pub take_from_last : (child_tid : ℕ) → List ChildStatus → Option (List ChildStatus × ℕ)
take_from_last child_tid [] = none
take_from_last child_tid (c ∷ cs) =
    let rest = take_from_last child_tid cs in
    if c.child_tid == child_tid
    then some ((take_status c).0 ∷ cs, (take_status c).1)
    else elim rest [ none ↦ none | some (cs', ret) ↦ some (c ∷ cs', ret) ]

-- The search starts at the tail and looks at the head last. The result is none while the parent waits.
unfoldable pub process_wait : (alive : ℕ → Bool) → Parent → (child_tid : ℕ) → Option (Parent × ℕ)
unfolding take_from_last
process_wait alive p child_tid =
    let wait : Parent × ℕ → Option (Parent × ℕ) =
      λ done. if alive child_tid then none else some done in
    if child_tid == tid_error
    then some (p, tid_error)
    else if p.waiters_end == child_tid
    then wait (record p { before_head = mark_waited p.before_head }, (take_status (at_tail p)).1)
    else elim (take_from_last child_tid (reverse p.children)) [
      | some (cs, ret) ↦ wait (record p { children = reverse cs }, ret)
      | none ↦
          if p.first_waiter == child_tid
          then wait
              (record p { last_waiter = mark_waited p.last_waiter }, (take_status (at_head p)).1)
          else some (p, tid_error)
    ]
