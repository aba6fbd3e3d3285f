-- ===== src/Descriptors.antt =====
-- The open files of a thread, in userprog/syscall.c: the list of file descriptors of the current thread,
-- and the system calls that look one up. Each call holds filesys_lock from its start to its end, so it
-- is one step. What filesys_open and malloc give are arguments; a write through a null pointer stops
-- the kernel.
pub mod Table
pub mod Close
pub mod Transfer
mod Tests
use ee468_pintos_project.Prelude.{
  ℕ, zero, suc, ◌+◌, ◌-◌, ◌^◌, Bool, true, false, not, ◌&&◌, ltb, ◌==◌, if◌then◌else◌, List, [],
  ◌∷◌, ◌++◌, reverse, Option, none, some, Outcome, ok, panic, running, ◌>>=◌, add32,
}
use ee468_pintos_project.Memory.{Memory, null, poke}
use ee468_pintos_project.BlockDevice.{Block}
use ee468_pintos_project.File.{
  File, Inodes, file_length, file_seek, file_tell, file_read, file_write,
}

-- `elem` is the address of the list element.
pub record FileDescriptor : Type 0 where
  pub fd_num : ℕ
  pub owner : ℕ
  pub file_struct : ℕ
  pub elem : ℕ

-- The fields of the current struct thread that the calls read, the words before the list of open files
-- among them, and the addresses of the two sentinels of that list.
pub record Owner : Type 0 where
  pub tid : ℕ
  pub priority : ℕ
  pub allelem_prev : ℕ
  pub allelem_next : ℕ
  pub head : ℕ
  pub tail : ℕ
  pub next_fd : ℕ
  pub open_files : List FileDescriptor

-- -1 as an unsigned word.
abbrev pub minus_one : ℕ
minus_one = 2 ^ 32 - 1

-- list_begin of the open files.
abbrev pub begin : Owner → ℕ
begin t = elim t.open_files [ [] ↦ t.tail | d ∷ ds ↦ d.elem ]

-- The words of struct thread before a sentinel, read as a struct file_descriptor: before the head
-- stand the priority and the element of all_list, before the tail the end of that and the head.
abbrev pub at_head : Owner → FileDescriptor
at_head t = record {
  fd_num = t.priority;
  owner = t.allelem_prev;
  file_struct = t.allelem_next;
  elem = t.head;
}

abbrev pub at_tail : Owner → FileDescriptor
at_tail t = record { fd_num = t.allelem_next; owner = null; file_struct = begin t; elem = t.tail }

-- The first descriptor with the number `fd`.
unfoldable pub first_with : (fd : ℕ) → List FileDescriptor → Option FileDescriptor
first_with fd [] = none
first_with fd (d ∷ ds) = if d.fd_num == fd then some d else first_with fd ds

-- The loop starts at the head and compares the tail last.
unfoldable pub retrieve_file : Owner → (fd : ℕ) → Option FileDescriptor
unfolding first_with
retrieve_file t fd = first_with fd (at_head t ∷ (t.open_files ++ at_tail t ∷ []))

-- `opened` is what filesys_open gives, `memory` the element of the descriptor that malloc gives, or null.
unfoldable pub sys_open : Owner → (opened memory : ℕ) → Outcome (Owner × ℕ)
sys_open t opened memory =
    if opened == null
    then ok (t, minus_one)
    else if memory == null
    then panic
    else let new_thread_file : FileDescriptor = record {
      fd_num = t.next_fd;
      owner = t.tid;
      file_struct = opened;
      elem = memory;
    } in
      ok (
        record t { next_fd = add32 t.next_fd 1; open_files = t.open_files ++ new_thread_file ∷ [] },
        t.next_fd,
      )

-- The files by address.
abbrev pub Files : Type 0
Files = ℕ → File

abbrev pub with_file : Files → ℕ → File → Files
with_file files f file a = if a == f then file else files a

unfoldable pub sys_filesize : Owner → Inodes → Files → (fd_num : ℕ) → ℕ
unfolding retrieve_file
sys_filesize t inodes files fd_num = elim (retrieve_file t fd_num) [
  | none ↦ minus_one
  | some d ↦ file_length inodes (files d.file_struct)
]

unfoldable pub sys_seek : Owner → Files → (fd position : ℕ) → Files
unfolding retrieve_file
sys_seek t files fd position = elim (retrieve_file t fd) [
  | none ↦ files
  | some d ↦ with_file files d.file_struct (file_seek (files d.file_struct) position)
]

unfoldable pub sys_tell : Owner → Files → (fd : ℕ) → ℕ
unfolding retrieve_file
sys_tell t files fd = elim (retrieve_file t fd) [
  | none ↦ 0
  | some d ↦ file_tell (files d.file_struct)
]

-- The loop of close_extra_files. At the head, it looks at the first descriptor; if that is not the one
-- asked for, `elem = temp` goes back to the head. The second result is the file to close.
unfoldable pub close_extra_files : (fuel : ℕ) → Owner → (fd_num : ℕ) → Outcome (Owner × Option ℕ)
close_extra_files zero t fd_num = running
close_extra_files (suc fuel) t fd_num = elim t.open_files [
  | [] ↦ ok (t, none)
  | d ∷ ds ↦ elim (d.fd_num == fd_num) [
    | true ↦ ok (record t { open_files = ds }, some d.file_struct)
    | false ↦ close_extra_files fuel t fd_num
  ]
]

unfoldable pub sys_close : (fuel : ℕ) → Owner → (fd : ℕ) → Outcome (Owner × Option ℕ)
unfolding retrieve_file close_extra_files
sys_close fuel t fd = elim (retrieve_file t fd) [
  | none ↦ ok (t, none)
  | some d ↦ if d.owner == t.tid then close_extra_files fuel t fd else ok (t, none)
]

-- The loop of close_thread_files over the descriptors from the last one on. At the tail, it looks at
-- the last descriptor, and goes back to the tail, whether that was taken out or not. The result is
-- the files closed, in order.
unfoldable pub close_last : (fuel : ℕ) → (tid : ℕ) → List FileDescriptor → Outcome (List ℕ)
close_last zero tid from_last = running
close_last (suc fuel) tid [] = ok []
close_last (suc fuel) tid (d ∷ ds) = elim (d.owner == tid) [
  | true ↦ close_last fuel tid ds >>= λ closed. ok (d.file_struct ∷ closed)
  | false ↦ close_last fuel tid (d ∷ ds)
]

unfoldable pub close_thread_files : (fuel : ℕ) → Owner → (tid : ℕ) → Outcome (Owner × List ℕ)
unfolding close_last
close_thread_files fuel t tid = do
  closed ← close_last fuel tid (reverse t.open_files)
  ok (record t { open_files = [] }, closed)

-- The bytes of a buffer.
abbrev pub bytes_at : Memory → (buffer size : ℕ) → List ℕ
bytes_at m buffer zero = []
bytes_at m buffer (suc size) = m buffer ∷ bytes_at m (buffer + 1) size

-- sys_write behind its checks of the buffer. The results are the device, the files, what putbuf writes to
-- the console and the value returned.
unfoldable pub write_descriptor :
    (fuel : ℕ)
    → (bounce_ok : Bool) → Block
    → Owner
    → Inodes
    → Files
    → Memory
    → (fd buffer size : ℕ) → Outcome (Block × Files × List ℕ × ℕ)
unfolding retrieve_file
write_descriptor fuel bounce_ok b t inodes files m fd buffer size =
    if fd == 0
    then ok (b, files, [], minus_one)
    else if fd == 1
    then ok (b, files, bytes_at m buffer size, size)
    else elim (retrieve_file t fd) [
      | none ↦ ok (b, files, [], 0)
      | some d ↦
          file_write fuel bounce_ok b inodes (files d.file_struct) m buffer size >>= λ (b', f, n).
          ok (b', with_file files d.file_struct f, [], n)
    ]

-- The loop of sys_read over the keys typed, with `counter` bytes of room. It is running while it waits
-- for a key. `buf` stays where it is: the loop advances `buffer`, which is not read again.
unfoldable pub stdin_loop : (keys : List ℕ) → Memory → (buf counter : ℕ) → Outcome (Memory × ℕ)
stdin_loop [] m buf counter = if ltb 1 counter then running else ok (m, counter)
stdin_loop (c ∷ keys) m buf counter = elim (ltb 1 counter) [
  | false ↦ ok (m, counter)
  | true ↦ elim (c == 0) [
    | true ↦ ok (m, counter)
    | false ↦ stdin_loop keys (poke m buf c) buf (counter - 1)
  ]
]

unfoldable pub read_stdin : (keys : List ℕ) → Memory → (buffer size : ℕ) → Outcome (Memory × ℕ)
unfolding stdin_loop
read_stdin keys m buffer size = do
  (m', counter) ← stdin_loop keys m buffer size
  ok (poke m' buffer 0, size - counter)

-- sys_read behind its checks of the buffer. The results are the device, the memory, the files and the
-- value returned.
unfoldable pub read_descriptor :
    (fuel : ℕ)
    → (bounce_ok : Bool) → (keys : List ℕ) → Block
    → Owner
    → Inodes
    → Files
    → Memory
    → (fd buffer size : ℕ) → Outcome (Block × Memory × Files × ℕ)
unfolding retrieve_file read_stdin
read_descriptor fuel bounce_ok keys b t inodes files m fd buffer size =
    if fd == 1
    then ok (b, m, files, minus_one)
    else if fd == 0
    then (read_stdin keys m buffer size >>= λ (m', n). ok (b, m', files, n))
    else elim (retrieve_file t fd) [
      | none ↦ ok (b, m, files, 0)
      | some d ↦
          file_read fuel bounce_ok b inodes (files d.file_struct) m buffer size
          >>= λ (b', m', f, n). ok (b', m', with_file files d.file_struct f, n)
    ]
