-- ===== src/Syscall/Checks.antt =====
-- What the checks of userprog/syscall.c keep from the kernel: bad pointers of the user.
use ee468_pintos_project.Prelude.{
  ℕ, zero, suc, ◌+◌, ◌-◌, ◌/◌, ◌%◌, ◌^◌, ◌≤◌, ◌<◌, ◌≡◌, inl, inr, refl, sym, ap, ◌∙◌, Bool, true,
  false, not, ltb, ◌==◌, Outcome, ok, arith, add32_lem, lt→ltb, le→not_ltb, Bool-cases, ==_ne,
  ℕ_discrete,
}
use ee468_pintos_project.Memory.{null}
use ee468_pintos_project.Syscall.{
  Pagedir, is_valid_ptr, Call, sys_exec, sys_open, filesys_create, sys_write, sys_read, exit_failed,
  dispatch, syscall_handler, check_loop, pgsize, is_mapped,
}

-- The pointers that a call is given are valid, for the calls that read through them at once. A buffer
-- has a valid first byte and a valid last byte. (SYS_REMOVE, SYS_MMAP and SYS_MUNMAP are not checked.)
abbrev pub IsChecked : Pagedir → Call → Type 0
IsChecked pagedir (sys_exec cmdline) = is_valid_ptr pagedir cmdline ≡ true
IsChecked pagedir (sys_open file_name) = is_valid_ptr pagedir file_name ≡ true
IsChecked pagedir (filesys_create name initial_size) = is_valid_ptr pagedir name ≡ true
IsChecked pagedir (sys_write fd buffer size) =
    (is_valid_ptr pagedir buffer ≡ true)
    × (is_valid_ptr pagedir ((buffer + size + 2 ^ 32 - 1) % 2 ^ 32) ≡ true)
IsChecked pagedir (sys_read fd buffer size) =
    (is_valid_ptr pagedir buffer ≡ true)
    × (is_valid_ptr pagedir ((buffer + size + 2 ^ 32 - 1) % 2 ^ 32) ≡ true)
IsChecked pagedir call = Unit {0}

module _ (pagedir : Pagedir) (word : ℕ → ℕ) (esp : ℕ) where
  -- The dispatcher calls sys_exec, sys_open and filesys_create only with a valid pointer, and sys_read
  -- and sys_write only with a buffer whose first and last bytes are valid, whatever the stack of the
  -- user holds; the stack pointer, if it is not valid, leads to sys_exit with -1.
  pub handler-IsChecked :
      IsChecked pagedir (syscall_handler pagedir word esp)
      × (is_valid_ptr pagedir esp ≡ false → syscall_handler pagedir word esp ≡ exit_failed)
  unfolding syscall_handler dispatch
  handler-IsChecked = (ground arith, λ h. ground (arith, h))

-- An address of the user in the page of a valid one.
same_page_valid :
    (pagedir : Pagedir) (a b : ℕ)
    → is_valid_ptr pagedir a ≡ true
    → a / pgsize ≡ b / pgsize
    → 0 < b
    → is_valid_ptr pagedir b ≡ true
unfolding is_valid_ptr
same_page_valid pagedir a b v same pos =
    let user : a < 0xc0000000 = ground (arith, v) in
    let mapped : is_mapped pagedir a ≡ true = ground (arith, v) in
    let here : is_mapped pagedir b ≡ true = ap (λ p. not (pagedir p == null)) (sym same) ∙ mapped in
    ground (
      arith,
      here,
      ==_ne b 0 (λ z. omega (arith, z, pos)),
      lt→ltb b 0xc0000000 (omega (arith, same, user)),
    )

module _ (pagedir : Pagedir) (buffer size : ℕ) (pos : 0 < buffer)
    (fits : buffer + size ≤ 2 ^ 32) where
  -- Every byte from `from` on, `n` of them, is valid.
  abbrev Valid : (from n : ℕ) → Type 0
  Valid from n = (a : ℕ) → from ≤ a → a < from + n → is_valid_ptr pagedir a ≡ true

  abbrev Checks : Outcome Bool → (from n : ℕ) → Type 0
  Checks o from n = (b : Bool) × (o ≡ ok b) × (b ≡ true → Valid from n) × (Valid from n → b ≡ true)

  last_check :
      (fuel tmp : ℕ)
      → tmp + 1 ≡ buffer + size
      → buffer ≤ tmp
      → check_loop (suc fuel) pagedir buffer size tmp 0 ≡ ok (is_valid_ptr pagedir tmp)
  unfolding check_loop
  last_check fuel tmp e h = ground (arith, ==_ne tmp 0 (λ z. omega (arith, z, h, pos)))

  skip_page :
      (fuel tmp left : ℕ)
      → tmp + left ≡ buffer + size
      → buffer ≤ tmp
      → pgsize < left
      → is_valid_ptr pagedir tmp ≡ true
      → check_loop (suc fuel) pagedir buffer size tmp left
        ≡ check_loop fuel pagedir buffer size (tmp + pgsize) (left - pgsize)
  unfolding check_loop
  skip_page fuel tmp left e h more good =
      ground (arith, ==_ne tmp 0 (λ z. omega (arith, z, h, pos)), good, lt→ltb pgsize left more)
      ∙ ap (λ a. check_loop fuel pagedir buffer size a (left - pgsize))
          (add32_lem tmp pgsize (omega (arith, e, more, fits)))

  skip_rest :
      (fuel tmp left : ℕ)
      → tmp + left ≡ buffer + size
      → buffer ≤ tmp
      → 0 < left
      → left ≤ pgsize
      → is_valid_ptr pagedir tmp ≡ true
      → check_loop (suc fuel) pagedir buffer size tmp left
        ≡ check_loop fuel pagedir buffer size (buffer + size - 1) 0
  unfolding check_loop
  skip_rest fuel tmp left e h p few good =
      ground (
        arith,
        ==_ne tmp 0 (λ z. omega (arith, z, h, pos)),
        good,
        le→not_ltb left pgsize few,
        ==_ne left 0 (λ z. omega (arith, z, p)),
      )
      ∙ ap (λ a. check_loop fuel pagedir buffer size a 0)
          {x = (buffer + size + 2 ^ 32 - 1) % 2 ^ 32} (omega arith)

  finish :
      (fuel tmp left : ℕ)
      → tmp + left ≡ buffer + size
      → buffer ≤ tmp
      → 0 < left
      → left ≤ pgsize
      → is_valid_ptr pagedir tmp ≡ true
      → 1 ≤ fuel
      → check_loop (suc fuel) pagedir buffer size tmp left
        ≡ ok (is_valid_ptr pagedir (buffer + size - 1))
  finish zero tmp left e h p few good f = absurd (omega arith)
  finish (suc fuel) tmp left e h p few good f =
      skip_rest (suc fuel) tmp left e h p few good
      ∙ last_check fuel (buffer + size - 1) (omega (arith, e, p)) (omega (arith, e, p, h))

  bad_page :
      (fuel tmp left : ℕ)
      → buffer ≤ tmp
      → is_valid_ptr pagedir tmp ≡ false
      → check_loop (suc fuel) pagedir buffer size tmp left ≡ ok false
  unfolding check_loop
  bad_page fuel tmp left h bad = ground (arith, ==_ne tmp 0 (λ z. omega (arith, z, h, pos)), bad)

  -- The pages of a range of bytes that begin behind its first byte.
  within :
      (tmp a b : ℕ) (good : is_valid_ptr pagedir tmp ≡ true)
      → is_valid_ptr pagedir b ≡ true
      → buffer ≤ tmp
      → tmp ≤ a
      → a ≤ b
      → b ≤ tmp + pgsize
      → is_valid_ptr pagedir a ≡ true
  within tmp a b good good' h lo hi near = elim (ℕ_discrete (tmp / pgsize) (a / pgsize)) [
    | yes same ↦ same_page_valid pagedir tmp a good same (omega arith)
    | no ne ↦ same_page_valid pagedir b a good' (omega (arith, ne)) (omega arith)
  ]

  check_loop-Checks :
      (fuel tmp left : ℕ)
      → tmp + left ≡ buffer + size
      → buffer ≤ tmp
      → 0 < left
      → left / pgsize + 2 ≤ fuel
      → Checks (check_loop fuel pagedir buffer size tmp left) tmp left
  check_loop-Checks zero tmp left e h p f = absurd (omega arith)
  check_loop-Checks (suc fuel) tmp left e h p f = elim (Bool-cases (is_valid_ptr pagedir tmp)) [
    | inr bad ↦ (
      false,
      bad_page fuel tmp left h bad,
      λ t. cc,
      λ all. cc (all tmp (omega arith) (omega arith)),
    )
    | inl good ↦ elim (Bool-cases (ltb pgsize left)) [
      | inl more ↦
          let many : pgsize < left = ground arith in
          let (b, run, sound, complete) =
            check_loop-Checks fuel (tmp + pgsize) (left - pgsize) (omega (arith, e, many))
              (omega (arith, h)) (omega (arith, many)) (omega (arith, f, many)) in
          (
            b,
            skip_page fuel tmp left e h many good ∙ run,
            λ t a lo hi. elim (Bool-cases (ltb a (tmp + pgsize))) [
              | inl near ↦
                  within tmp a (tmp + pgsize) good
                    (sound t (tmp + pgsize) (omega arith) (omega (arith, many))) h lo (ground arith)
                    (omega arith)
              | inr far ↦ sound t a (ground arith) (omega (arith, hi, many))
            ],
            λ all. complete (λ a lo hi. all a (omega (arith, lo)) (omega (arith, hi, many))),
          )
      | inr last ↦
          let few : left ≤ pgsize = ground arith in
          let end = buffer + size - 1 in
          elim (Bool-cases (is_valid_ptr pagedir end)) [
            | inl good_end ↦ (
              true,
              finish fuel tmp left e h p few good (omega (arith, f)) ∙ ap ok good_end,
              λ t a lo hi.
                  within tmp a end good good_end h lo (omega (arith, e, hi))
                    (omega (arith, e, few)),
              λ all. refl,
            )
            | inr bad_end ↦ (
              false,
              finish fuel tmp left e h p few good (omega (arith, f)) ∙ ap ok bad_end,
              λ t. cc,
              λ all. cc (all end (omega (arith, e, p)) (omega (arith, e, p)), bad_end),
            )
          ]
    ]
  ]

-- The loop of sys_write over a buffer of the user that is not empty ends, within two rounds more than
-- it has pages, and lets the call go on exactly if every byte of the buffer is at a valid address.
-- The buffer begins at a real address and ends within the address space.
pub check_loop-all :
    (fuel : ℕ) (pagedir : Pagedir) (buffer size : ℕ)
    → 0 < buffer
    → 0 < size
    → buffer + size ≤ 2 ^ 32
    → size / pgsize + 2 ≤ fuel
    → (b : Bool) × (check_loop fuel pagedir buffer size buffer size ≡ ok b)
      × (b ≡ true → (a : ℕ) → buffer ≤ a → a < buffer + size → is_valid_ptr pagedir a ≡ true)
      × (((a : ℕ) → buffer ≤ a → a < buffer + size → is_valid_ptr pagedir a ≡ true) → b ≡ true)
check_loop-all fuel pagedir buffer size pos some fits enough =
    check_loop-Checks pagedir buffer size pos fits fuel buffer size refl (omega arith) some enough
