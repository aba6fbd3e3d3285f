-- ===== src/Descriptors/Close.antt =====
-- Which files sys_close and close_thread_files of userprog/syscall.c close.
use mathlib.Core.List.{reverse-cons}
use ee468_pintos_project.Prelude.{
  ℕ, zero, suc, ◌<◌, ◌≡◌, ◌≢◌, inl, inr, refl, sym, ap, ◌∙◌, subst, true, false, ◌==◌,
  if◌then◌else◌, List, [], ◌∷◌, ◌++◌, map, reverse, length, length-append, Option, none, some,
  Outcome, ok, running, ◌>>=◌, arith, ==_ne, ==_iff, Bool-cases,
}
use ee468_pintos_project.Descriptors.{
  FileDescriptor, Owner, first_with, close_extra_files, sys_close, close_last, close_thread_files,
}
use ee468_pintos_project.Descriptors.Table.{Fds, IsFds, retrieve_lem}

abbrev branch : ℕ → Owner → ℕ → List FileDescriptor → Outcome (Owner × Option ℕ)
branch fuel t fd l = elim l [
  | [] ↦ ok (t, none)
  | c ∷ cs ↦ elim (c.fd_num == fd) [
    | true ↦ ok (record t { open_files = cs }, some c.file_struct)
    | false ↦ close_extra_files fuel t fd
  ]
]

-- The loop of close_extra_files that stays at the head.
stays :
    (fuel : ℕ) (t : Owner) (d : FileDescriptor) (ds : List FileDescriptor) (fd : ℕ)
    → t.open_files ≡ d ∷ ds
    → d.fd_num ≢ fd
    → close_extra_files fuel t fd ≡ running
unfolding close_extra_files
stays zero t d ds fd e ne = refl
stays (suc fuel) t d ds fd e ne =
    ap (branch fuel t fd) e ∙ ground (arith, ==_ne d.fd_num fd ne, stays fuel t d ds fd e ne)

takes_out :
    (fuel : ℕ) (t : Owner) (d : FileDescriptor) (ds : List FileDescriptor) (fd : ℕ)
    → t.open_files ≡ d ∷ ds
    → d.fd_num ≡ fd
    → close_extra_files (suc fuel) t fd ≡ ok (record t { open_files = ds }, some d.file_struct)
unfolding close_extra_files
takes_out fuel t d ds fd e same =
    ap (branch fuel t fd) e ∙ ground (arith, (==_iff d.fd_num fd).1 same)

owner_of : Option FileDescriptor → ℕ
owner_of none = 0
owner_of (some d) = d.owner

file_of : Option FileDescriptor → ℕ
file_of none = 0
file_of (some d) = d.file_struct

found_owned :
    (tid limit fd : ℕ) (ds : List FileDescriptor) (d : FileDescriptor)
    → Fds tid limit ds
    → first_with fd ds ≡ some d
    → d.owner ≡ tid
unfolding first_with owner_of
found_owned tid limit fd [] d f e = cc
found_owned tid limit fd (c ∷ ds) d f e = elim (Bool-cases (c.fd_num == fd)) [
  | inl hit ↦
      sym (ap owner_of e) ∙ ap (λ b. owner_of (if b then some c else first_with fd ds)) hit ∙ f.0
  | inr miss ↦
      found_owned tid limit fd ds d f.4
        (sym (ap (λ b. if b then some c else first_with fd ds) miss) ∙ e)
]

closing : (fuel : ℕ) (t : Owner) (fd : ℕ) → Option FileDescriptor → Outcome (Owner × Option ℕ)
closing fuel t fd o = elim o [
  | none ↦ ok (t, none)
  | some d ↦ if d.owner == t.tid then close_extra_files fuel t fd else ok (t, none)
]

-- sys_close of an open descriptor whose number the sentinels are not read as closes its file and
-- takes it out if it is the first of the list. If it is not, sys_close never returns, however long it
-- runs.
pub sys_close-first :
    (fuel : ℕ) (t : Owner) (c d : FileDescriptor) (ds : List FileDescriptor)
    → IsFds t
    → t.open_files ≡ c ∷ ds
    → first_with d.fd_num t.open_files ≡ some d
    → d.fd_num ≢ t.priority
    → d.fd_num ≢ t.allelem_next
    → (c.fd_num ≡ d.fd_num
        → (t' : Owner) × (sys_close (suc fuel) t d.fd_num ≡ ok (t', some d.file_struct))
          × (t'.open_files ≡ ds)
          × IsFds t')
      × (c.fd_num ≢ d.fd_num → sys_close fuel t d.fd_num ≡ running)
unfolding sys_close closing first_with file_of
sys_close-first fuel t c d ds v e found np nn =
    let enter : (f : ℕ) → sys_close f t d.fd_num ≡ close_extra_files f t d.fd_num = λ f.
      ap (closing f t d.fd_num) (retrieve_lem t d.fd_num np nn ∙ found)
      ∙ ap (λ b. if b then close_extra_files f t d.fd_num else ok (t, none))
          ((==_iff d.owner t.tid).1
            (found_owned t.tid t.next_fd d.fd_num t.open_files d v.fds found)) in
    (
      λ same. (
        record t { open_files = ds },
        enter (suc fuel)
            ∙ takes_out fuel t c ds d.fd_num e same
            ∙ ap (λ f. ok (record t { open_files = ds }, some f))
                (sym (
                    ap (λ b. file_of (if b then some c else first_with d.fd_num ds))
                      ((==_iff c.fd_num d.fd_num).1 same))
                  ∙ ap file_of (sym (ap (first_with d.fd_num) e) ∙ found)),
        refl,
        record { fds = (subst (Fds t.tid t.next_fd) e v.fds).4; standard = v.standard },
      ),
      λ ne. enter fuel ∙ stays fuel t c ds d.fd_num e ne,
    )

abbrev Owned : ℕ → List FileDescriptor → Type 0
Owned tid [] = Unit {0}
Owned tid (d ∷ ds) = (d.owner ≡ tid) × Owned tid ds

Fds-Owned : (tid limit : ℕ) (ds : List FileDescriptor) → Fds tid limit ds → Owned tid ds
Fds-Owned tid limit [] f = tt
Fds-Owned tid limit (d ∷ ds) f = (f.0, Fds-Owned tid limit ds f.4)

Owned-append :
    (tid : ℕ) (xs ys : List FileDescriptor) → Owned tid xs → Owned tid ys → Owned tid (xs ++ ys)
Owned-append tid [] ys p q = q
Owned-append tid (d ∷ xs) ys p q = (p.0, Owned-append tid xs ys p.1 q)

Owned-reverse : (tid : ℕ) (ds : List FileDescriptor) → Owned tid ds → Owned tid (reverse ds)
Owned-reverse tid [] p = tt
Owned-reverse tid (d ∷ ds) p =
    subst (Owned tid) (sym (reverse-cons d ds))
      (Owned-append tid (reverse ds) (d ∷ []) (Owned-reverse tid ds p.1) (p.0, tt))

close_last-Owned :
    (fuel tid : ℕ) (ds : List FileDescriptor)
    → Owned tid ds
    → length ds < fuel
    → close_last fuel tid ds ≡ ok (map (λ d. d.file_struct) ds)
unfolding close_last
close_last-Owned zero tid ds o h = absurd (omega arith)
close_last-Owned (suc fuel) tid [] o h = refl
close_last-Owned (suc fuel) tid (d ∷ ds) o h =
    ground (arith, (==_iff d.owner tid).1 o.0, close_last-Owned fuel tid ds o.1)

length-reverse : (ds : List FileDescriptor) → length (reverse ds) ≡ length ds
length-reverse [] = refl
length-reverse (d ∷ ds) =
    ap length (reverse-cons d ds)
    ∙ omega (arith, length-append (reverse ds) (d ∷ []), length-reverse ds)

-- close_thread_files for the thread itself, as its exit calls it, ends, within one round more than
-- there are open files: it closes every one of them, the last one opened first, and leaves none.
pub close_thread_files-all :
    (fuel : ℕ) (t : Owner)
    → IsFds t
    → length t.open_files < fuel
    → close_thread_files fuel t t.tid
      ≡ ok (record t { open_files = [] }, map (λ d. d.file_struct) (reverse t.open_files))
unfolding close_thread_files
close_thread_files-all fuel t v h =
    ap (λ o. o >>= λ closed. ok (record t { open_files = [] }, closed))
      (close_last-Owned fuel t.tid (reverse t.open_files)
        (Owned-reverse t.tid t.open_files (Fds-Owned t.tid t.next_fd t.open_files v.fds))
        (omega (arith, length-reverse t.open_files, h)))
