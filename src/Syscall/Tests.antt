-- ===== src/Syscall/Tests.antt =====
-- userprog/syscall.c with the user page at 0x8000 mapped, a stack in it and two calls on the stack.
use ee468_pintos_project.Prelude.{
  ℕ, ◌+◌, ◌≤◌, ◌<◌, ◌≡◌, refl, Bool, true, false, ◌==◌, if◌then◌else◌, ok, arith,
}
use ee468_pintos_project.Syscall.{
  Pagedir, is_valid_ptr, sys_open, syscall_handler, exit_failed, check_loop,
}
use ee468_pintos_project.Syscall.Checks.{IsChecked, handler-IsChecked, check_loop-all}

abbrev one_page : Pagedir
one_page page = if page == 8 then 0x12000 else 0

-- SYS_OPEN of the name at 0x8100.
abbrev open_call : ℕ → ℕ
open_call a = if a == 0x8800 then 6 else 0x8100

opens : syscall_handler one_page open_call 0x8800 ≡ sys_open 0x8100
unfolding syscall_handler is_valid_ptr
opens = refl

handler-IsChecked_example :
    IsChecked one_page (syscall_handler one_page open_call 0x8800)
    × (is_valid_ptr one_page 0x8800 ≡ false
        → syscall_handler one_page open_call 0x8800 ≡ exit_failed)
handler-IsChecked_example = handler-IsChecked one_page open_call 0x8800

check_loop-all_example :
    (b : Bool) × (check_loop 4 one_page 0x8100 5000 0x8100 5000 ≡ ok b)
    × (b ≡ true → (a : ℕ) → 0x8100 ≤ a → a < 0x8100 + 5000 → is_valid_ptr one_page a ≡ true)
    × (((a : ℕ) → 0x8100 ≤ a → a < 0x8100 + 5000 → is_valid_ptr one_page a ≡ true) → b ≡ true)
check_loop-all_example =
    check_loop-all 4 one_page 0x8100 5000 (omega arith) (omega arith) (omega arith) (omega arith)
