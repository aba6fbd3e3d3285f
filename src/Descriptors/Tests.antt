-- ===== src/Descriptors/Tests.antt =====
-- userprog/syscall.c for a thread with the descriptors 2 and 3 open.
use ee468_pintos_project.Prelude.{
  ℕ, ◌≡◌, ◌≢◌, refl, ◌==◌, if◌then◌else◌, [], ◌∷◌, none, some, ok, running, arith,
}
use ee468_pintos_project.Descriptors.{
  FileDescriptor, Owner, first_with, retrieve_file, sys_open, sys_close, close_thread_files,
  read_stdin,
}
use ee468_pintos_project.Memory.{Memory}
use ee468_pintos_project.Descriptors.Transfer.{read_stdin-loses}
use ee468_pintos_project.Descriptors.Table.{IsFds, retrieve-sys_open, sys_close-priority}
use ee468_pintos_project.Descriptors.Close.{sys_close-first, close_thread_files-all}

abbrev fd2 : FileDescriptor
fd2 = record { fd_num = 2; owner = 9; file_struct = 500; elem = 600 }

abbrev fd3 : FileDescriptor
fd3 = record { fd_num = 3; owner = 9; file_struct = 510; elem = 610 }

abbrev nine : Owner
nine = record {
  tid = 9;
  priority = 31;
  allelem_prev = 1000;
  allelem_next = 2000;
  head = 3000;
  tail = 3008;
  next_fd = 4;
  open_files = fd2 ∷ fd3 ∷ [];
}

nine-IsFds : IsFds nine
unfolding first_with
nine-IsFds = record {
  fds = (refl, omega arith, omega arith, refl, (refl, omega arith, omega arith, refl, tt));
  standard = omega arith;
}

retrieve-sys_open_example :
    let new : FileDescriptor = record { fd_num = 4; owner = 9; file_struct = 520; elem = 620 } in
    (t' : Owner) × (sys_open nine 520 620 ≡ ok (t', 4))
    × IsFds t'
    × (first_with 4 (fd2 ∷ fd3 ∷ []) ≡ none)
    × ((n : ℕ)
        → n ≢ 31
        → n ≢ 2000
        → retrieve_file t' n ≡ (if 4 == n then some new else retrieve_file nine n))
retrieve-sys_open_example =
    retrieve-sys_open nine 520 620 nine-IsFds (λ e. omega arith) (λ e. omega arith) (omega arith)

sys_close-priority_example :
    (d : FileDescriptor) × (retrieve_file nine 31 ≡ some d)
    × (d.file_struct ≡ 2000)
    × (sys_close 5 nine 31 ≡ ok (nine, none))
sys_close-priority_example = sys_close-priority 5 nine (λ e. omega arith)

has_two : first_with 2 (fd2 ∷ fd3 ∷ []) ≡ some fd2
unfolding first_with
has_two = refl

sys_close-first_example :
    (fd2.fd_num ≡ 2
      → (t' : Owner) × (sys_close 5 nine 2 ≡ ok (t', some 500))
        × (t'.open_files ≡ fd3 ∷ [])
        × IsFds t')
    × (fd2.fd_num ≢ 2 → sys_close 4 nine 2 ≡ running)
sys_close-first_example =
    sys_close-first 4 nine fd2 fd2 (fd3 ∷ []) nine-IsFds refl has_two (λ e. omega arith)
      (λ e. omega arith)

close_thread_files-all_example :
    close_thread_files 3 nine 9 ≡ ok (record nine { open_files = [] }, 510 ∷ 500 ∷ [])
close_thread_files-all_example = close_thread_files-all 3 nine nine-IsFds (omega arith)

abbrev sevens : Memory
sevens a = 7

read_stdin-loses_example :
    (m : Memory) × (read_stdin (104 ∷ 105 ∷ 0 ∷ []) sevens 50 10 ≡ ok (m, 2))
    × (m 50 ≡ 0)
    × ((a : ℕ) → a ≢ 50 → m a ≡ sevens a)
read_stdin-loses_example =
    read_stdin-loses (104 ∷ 105 ∷ []) [] sevens 50 10 ((λ e. omega arith), ((λ e. omega arith), tt))
      (omega arith)
