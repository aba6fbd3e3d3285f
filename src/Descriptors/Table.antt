-- ===== src/Descriptors/Table.antt =====
-- The open files of a thread as a map from numbers to descriptors: sys_open and retrieve_file of
-- userprog/syscall.c.
use ee468_pintos_project.Prelude.{
  ℕ, ◌+◌, ◌^◌, ◌≤◌, ◌<◌, ◌≡◌, ◌≢◌, refl, sym, ap, ◌∙◌, ◌==◌, if◌then◌else◌, List, [], ◌∷◌, ◌++◌,
  Option, none, some, Outcome, ok, arith, add32, add32_lem, ==_ne, ==_refl, ==_iff, subst,
  ℕ_discrete,
}
use ee468_pintos_project.Memory.{null}
use ee468_pintos_project.Descriptors.{
  FileDescriptor, Owner, at_head, at_tail, first_with, retrieve_file, sys_open, sys_close,
  close_extra_files,
}

-- The descriptors belong to the thread, and their numbers are different and below the next one.
abbrev pub Fds : (tid limit : ℕ) → List FileDescriptor → Type 0
Fds tid limit [] = Unit {0}
Fds tid limit (d ∷ ds) =
    (d.owner ≡ tid)
    × (2 ≤ d.fd_num)
    × (d.fd_num < limit)
    × (first_with d.fd_num ds ≡ none)
    × Fds tid limit ds

pub record IsFds (t : Owner) : Type 0 where
  pub fds : Fds t.tid t.next_fd t.open_files
  pub standard : 2 ≤ t.next_fd

either_first : (a b : Option FileDescriptor) → Option FileDescriptor
either_first none b = b
either_first (some d) b = some d

either-none : (a : Option FileDescriptor) → either_first a none ≡ a
unfolding either_first
either-none none = refl
either-none (some d) = refl

first_with-append :
    (n : ℕ) (xs ys : List FileDescriptor)
    → first_with n (xs ++ ys) ≡ either_first (first_with n xs) (first_with n ys)
unfolding first_with either_first
first_with-append n [] ys = refl
first_with-append n (d ∷ xs) ys = ground (arith, first_with-append n xs ys)

-- No descriptor has the number `limit` or a greater one.
first_with-limit :
    (tid limit n : ℕ) (ds : List FileDescriptor)
    → Fds tid limit ds
    → limit ≤ n
    → first_with n ds ≡ none
unfolding first_with
first_with-limit tid limit n [] f h = refl
first_with-limit tid limit n (d ∷ ds) f h =
    ground
      (arith, first_with-limit tid limit n ds, ==_ne d.fd_num n (λ e. omega (arith, f.2, h, e)))

Fds-open :
    (tid limit : ℕ) (ds : List FileDescriptor) (d : FileDescriptor)
    → Fds tid limit ds
    → d.owner ≡ tid
    → d.fd_num ≡ limit
    → 2 ≤ limit
    → Fds tid (limit + 1) (ds ++ d ∷ [])
unfolding first_with either_first
Fds-open tid limit [] d f o e two = (o, omega (arith, e), omega (arith, e), refl, tt)
Fds-open tid limit (c ∷ ds) d f o e two = (
  f.0,
  f.1,
  omega (arith, f.2),
  first_with-append c.fd_num ds (d ∷ [])
      ∙ ap (λ x. either_first x (first_with c.fd_num (d ∷ []))) f.3
      ∙ ground (arith, ==_ne d.fd_num c.fd_num (λ x. omega (arith, x, e, f.2))),
  Fds-open tid limit ds d f.4 o e two,
)

-- For a number that the sentinels are not read as, the list of open files is searched.
pub retrieve_lem :
    (t : Owner) (n : ℕ)
    → n ≢ t.priority
    → n ≢ t.allelem_next
    → retrieve_file t n ≡ first_with n t.open_files
unfolding retrieve_file either_first
retrieve_lem t n np nn =
    ground (arith, ==_ne t.priority n (λ e. np (sym e)))
    ∙ first_with-append n t.open_files (at_tail t ∷ [])
    ∙ ap (either_first (first_with n t.open_files)) {y = none}
        (ground (arith, ==_ne t.allelem_next n (λ e. nn (sym e))))
    ∙ either-none (first_with n t.open_files)

found_new :
    (n : ℕ) (ds : List FileDescriptor) (new : FileDescriptor) (before : Option FileDescriptor)
    → first_with n ds ≡ before
    → (new.fd_num ≡ n → first_with n ds ≡ none)
    → either_first (first_with n ds) (first_with n (new ∷ []))
      ≡ (if new.fd_num == n then some new else before)
unfolding first_with either_first
found_new n ds new before same fresh = elim (ℕ_discrete new.fd_num n) [
  | yes e ↦
      ap (λ x. either_first x (first_with n (new ∷ []))) (fresh e)
      ∙ ground (arith, (==_iff new.fd_num n).1 e)
  | no ne ↦
      ap (either_first (first_with n ds)) {y = none} (ground (arith, ==_ne new.fd_num n ne))
      ∙ either-none (first_with n ds)
      ∙ same
      ∙ ground (arith, ==_ne new.fd_num n ne)
]

-- sys_open of a file that opens, with memory for the descriptor: the number returned is new, and
-- afterwards retrieve_file finds the new descriptor under it, and under every other number what it
-- found before; the table stays well formed. This holds for the numbers that are not the thread's
-- priority, nor the word behind it in all_list, which the sentinels of the list are read as.
pub retrieve-sys_open :
    (t : Owner) (opened memory : ℕ)
    → IsFds t
    → opened ≢ null
    → memory ≢ null
    → t.next_fd + 1 < 2 ^ 32
    → let new : FileDescriptor = record {
      fd_num = t.next_fd;
      owner = t.tid;
      file_struct = opened;
      elem = memory;
    } in
      (t' : Owner) × (sys_open t opened memory ≡ ok (t', t.next_fd))
      × IsFds t'
      × (first_with t.next_fd t.open_files ≡ none)
      × ((n : ℕ)
          → n ≢ t.priority
          → n ≢ t.allelem_next
          → retrieve_file t' n ≡ (if t.next_fd == n then some new else retrieve_file t n))
unfolding sys_open
retrieve-sys_open t opened memory v real given room =
    let new : FileDescriptor = record {
      fd_num = t.next_fd;
      owner = t.tid;
      file_struct = opened;
      elem = memory;
    } in
    let t' = record t { next_fd = add32 t.next_fd 1; open_files = t.open_files ++ new ∷ [] } in
    let next : add32 t.next_fd 1 ≡ t.next_fd + 1 = add32_lem t.next_fd 1 room in
    (
      t',
      ground (arith, ==_ne opened 0 real, ==_ne memory 0 given),
      record {
        fds =
            subst (λ n. Fds t.tid n (t.open_files ++ new ∷ [])) (sym next)
              (Fds-open t.tid t.next_fd t.open_files new v.fds refl refl v.standard);
        standard = omega (arith, next, v.standard);
      },
      first_with-limit t.tid t.next_fd t.next_fd t.open_files v.fds (omega arith),
      λ n np nn.
          retrieve_lem t' n np nn
          ∙ first_with-append n t.open_files (new ∷ [])
          ∙ found_new n t.open_files new (retrieve_file t n) (sym (retrieve_lem t n np nn))
              (λ e. first_with-limit t.tid t.next_fd n t.open_files v.fds (omega (arith, e))),
    )

-- A number equal to the thread's priority, 31 by default, is no good as a descriptor, whether or not a
-- file is open under it: retrieve_file takes the words before the list's head for its descriptor,
-- whose file is then the address of the next thread's element, and sys_close does nothing, if the
-- thread's number is not the address of the element before.
pub sys_close-priority :
    (fuel : ℕ) (t : Owner)
    → t.allelem_prev ≢ t.tid
    → (d : FileDescriptor) × (retrieve_file t t.priority ≡ some d)
      × (d.file_struct ≡ t.allelem_next)
      × (sys_close fuel t t.priority ≡ ok (t, none))
unfolding sys_close retrieve_file
sys_close-priority fuel t ne = (
  at_head t,
  ground (arith, ==_refl t.priority),
  refl,
  ap
        (λ c.
          elim (if c
              then some (at_head t)
              else first_with t.priority (t.open_files ++ at_tail t ∷ []))
            as (λ x. Outcome (Owner × Option ℕ)) [
              | none ↦ ok (t, none)
              | some d ↦
                  if d.owner == t.tid then close_extra_files fuel t t.priority else ok (t, none)
            ])
        (==_refl t.priority)
      ∙ ground (arith, ==_ne t.allelem_prev t.tid ne),
)
