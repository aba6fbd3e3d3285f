-- ===== src/Syscall.antt =====
-- userprog/syscall.c: the checks of user pointers and the dispatcher of the system calls. The page
-- directory of the thread maps user pages to kernel pages, 0 if there is none; the words of the user's
-- memory are by address. A call that the dispatcher makes is a value; sys_exit does not return.
pub mod Checks
mod Tests
use ee468_pintos_project.Prelude.{
  ℕ, zero, suc, ◌+◌, ◌-◌, ◌*◌, ◌/◌, ◌%◌, ◌^◌, Bool, true, false, not, ◌&&◌, ltb, ◌==◌,
  if◌then◌else◌, Outcome, ok, running, add32,
}
use ee468_pintos_project.Memory.{null}

abbrev pub pgsize : ℕ
pgsize = 4096

abbrev pub phys_base : ℕ
phys_base = 0xc0000000

abbrev pub Pagedir : Type 0
Pagedir = ℕ → ℕ

abbrev pub is_user_vaddr : (vaddr : ℕ) → Bool
is_user_vaddr vaddr = ltb vaddr phys_base

-- pagedir_get_page finds the page of `uaddr`.
abbrev pub is_mapped : Pagedir → (uaddr : ℕ) → Bool
is_mapped pagedir uaddr = not (pagedir (uaddr / pgsize) == null)

unfoldable pub is_valid_ptr : Pagedir → (user_ptr : ℕ) → Bool
is_valid_ptr pagedir user_ptr =
    if not (user_ptr == null) && is_user_vaddr user_ptr then is_mapped pagedir user_ptr else false

-- What the dispatcher calls. `unimplemented` prints an error and exits with -1.
pub data Call : Type 0 where
  sys_halt : Call
  sys_exit : (exit_status : ℕ) → Call
  process_wait : (child_tid : ℕ) → Call
  filesys_create : (name initial_size : ℕ) → Call
  filesys_remove : (name : ℕ) → Call
  sys_write : (fd buffer size : ℕ) → Call
  sys_read : (fd buffer size : ℕ) → Call
  sys_seek : (fd position : ℕ) → Call
  sys_tell : (fd : ℕ) → Call
  sys_exec : (cmdline : ℕ) → Call
  sys_open : (file_name : ℕ) → Call
  sys_filesize : (fd_num : ℕ) → Call
  sys_close : (fd : ℕ) → Call
  mmap : (fd addr : ℕ) → Call
  munmap : (mapping : ℕ) → Call
  unimplemented : Call

abbrev pub exit_failed : Call
exit_failed = sys_exit (2 ^ 32 - 1)

module _ (pagedir : Pagedir) (word : ℕ → ℕ) (esp : ℕ) where
  -- The address of the argument number `i`, and its value.
  abbrev pub arg_at : ℕ → ℕ
  arg_at i = add32 esp (4 * i)

  abbrev pub arg : ℕ → ℕ
  arg i = word (arg_at i)

  -- `if (!is_valid_ptr (p)) sys_exit (-1);`
  abbrev pub checked : (p : ℕ) → Call → Call
  checked p call = if is_valid_ptr pagedir p then call else exit_failed

  -- The last byte of a buffer, as the code computes it.
  abbrev pub last_byte : (buffer size : ℕ) → ℕ
  last_byte buffer size = (buffer + size + 2 ^ 32 - 1) % 2 ^ 32

  -- The arguments of SYS_WRITE and SYS_READ.
  abbrev pub checked_buffer : Call → Call
  checked_buffer call = checked (arg_at 5) (
      checked (arg_at 6)
        (checked (arg_at 7) (checked (arg 6) (checked (last_byte (arg 6) (arg 7)) call))))

  unfoldable pub dispatch : (number : ℕ) → Call
  dispatch number =
      if number == 0
      then sys_halt
      else if number == 1
      then checked (arg_at 1) (sys_exit (arg 1))
      else if number == 2
      then checked (arg_at 1) (checked (arg 1) (sys_exec (arg 1)))
      else if number == 3
      then checked (arg_at 1) (process_wait (arg 1))
      else if number == 4
      then checked (arg_at 5)
          (checked (arg_at 4) (checked (arg 4) (filesys_create (arg 4) (arg 5))))
      else if number == 5
      then checked (arg_at 4) (checked (arg 4) (filesys_remove (arg 1)))
      else if number == 6
      then checked (arg_at 1) (checked (arg 1) (sys_open (arg 1)))
      else if number == 7
      then checked (arg_at 1) (sys_filesize (arg 1))
      else if number == 8
      then checked_buffer (sys_read (arg 5) (arg 6) (arg 7))
      else if number == 9
      then checked_buffer (sys_write (arg 5) (arg 6) (arg 7))
      else if number == 10
      then checked (arg_at 4) (checked (arg_at 5) (sys_seek (arg 4) (arg 5)))
      else if number == 11
      then checked (arg_at 1) (sys_tell (arg 1))
      else if number == 12
      then checked (arg_at 1) (sys_close (arg 1))
      else if number == 13
      then mmap (arg 1) (arg 2)
      else if number == 14
      then munmap (arg 1)
      else unimplemented

  unfoldable pub syscall_handler : Call
  unfolding dispatch
  syscall_handler = checked esp (dispatch (word esp))

-- The loop of sys_write over its buffer: true if every pointer that it tests is valid, false if it exits.
-- `size` is the size of the whole buffer.
unfoldable pub check_loop :
    (fuel : ℕ) → Pagedir → (buffer size buffer_tmp buffer_size : ℕ) → Outcome Bool
check_loop zero pagedir buffer size buffer_tmp buffer_size = running
check_loop (suc fuel) pagedir buffer size buffer_tmp buffer_size = elim (buffer_tmp == null) [
  | true ↦ ok true
  | false ↦ elim (is_valid_ptr pagedir buffer_tmp) [
    | false ↦ ok false
    | true ↦ elim (ltb pgsize buffer_size) [
      | true ↦ check_loop fuel pagedir buffer size (add32 buffer_tmp pgsize) (buffer_size - pgsize)
      | false ↦ elim (buffer_size == 0) [
        | true ↦ ok true
        | false ↦ check_loop fuel pagedir buffer size ((buffer + size + 2 ^ 32 - 1) % 2 ^ 32) 0
      ]
    ]
  ]
]
