-- ===== src/Segment/Sizes.antt =====
-- What validate_segment of userprog/process.c makes sure of, and what load then asks of load_segment.
use ee468_pintos_project.Prelude.{
  ℕ, ◌+◌, ◌-◌, ◌*◌, ◌/◌, ◌%◌, ◌^◌, ◌≤◌, ◌<◌, ◌≡◌, true, ltb, arith, add32, lt→ltb, Bool-cases, inl,
  inr,
}
use ee468_pintos_project.Syscall.{pgsize, phys_base}
use ee468_pintos_project.Segment.{Elf32Phdr, validate_segment, plan, round_up}

-- The fields of a program header are words.
pub record AreWords (phdr : Elf32Phdr) : Type 0 where
  pub offset_word : phdr.p_offset < 2 ^ 32
  pub vaddr_word : phdr.p_vaddr < 2 ^ 32
  pub filesz_word : phdr.p_filesz < 2 ^ 32
  pub memsz_word : phdr.p_memsz < 2 ^ 32

-- What the checks say, one by one.
pub record Valid (phdr : Elf32Phdr) (file_length : ℕ) : Type 0 where
  pub same_offset : phdr.p_offset % pgsize ≡ phdr.p_vaddr % pgsize
  pub in_file : phdr.p_offset ≤ file_length
  pub fits : phdr.p_filesz ≤ phdr.p_memsz
  pub some : 0 < phdr.p_memsz
  pub user : phdr.p_vaddr + phdr.p_memsz < phys_base
  pub not_first : pgsize ≤ phdr.p_vaddr

pub validate-Valid :
    (phdr : Elf32Phdr) (file_length : ℕ)
    → AreWords phdr
    → validate_segment phdr file_length ≡ true
    → Valid phdr file_length
unfolding validate_segment
validate-Valid phdr file_length w h = ground arith

module _ (phdr : Elf32Phdr) (file_length : ℕ) (w : AreWords phdr) (v : Valid phdr file_length) where
  read_lem : 0 < phdr.p_filesz → (plan phdr).read_bytes ≡ phdr.p_vaddr % pgsize + phdr.p_filesz
  unfolding plan
  read_lem some = ground (arith, lt→ltb 0 phdr.p_filesz some)

  whole_lem :
      round_up (add32 (phdr.p_vaddr % pgsize) phdr.p_memsz) pgsize
      ≡ (phdr.p_vaddr % pgsize + phdr.p_memsz + 4095) / pgsize * pgsize
  whole_lem = omega (arith, v.user)

  -- The size of the pages that hold the segment.
  total :
      (plan phdr).read_bytes + (plan phdr).zero_bytes
      ≡ (phdr.p_vaddr % pgsize + phdr.p_memsz + 4095) / pgsize * pgsize
  unfolding plan
  total = elim (Bool-cases (ltb 0 phdr.p_filesz)) [
    | inl some ↦ rw some (omega (arith, whole_lem, v.user, v.fits))
    | inr none ↦ rw none (omega (arith, whole_lem))
  ]

-- A program header that validate_segment accepts gives sizes at which the assertions of load_segment
-- hold, without wrapping around. The pages lie in the user's part of the address space, behind the
-- first page; they hold the segment. The bytes read end with the file's part of the segment, and
-- each of that part is read from its offset in the file.
pub plan-validate_segment :
    (phdr : Elf32Phdr) (file_length : ℕ)
    → AreWords phdr
    → validate_segment phdr file_length ≡ true
    → let p = plan phdr in
      let all = p.read_bytes + p.zero_bytes in
      (all < 2 ^ 32)
      × (all % pgsize ≡ 0)
      × (p.mem_page % pgsize ≡ 0)
      × (p.file_page % pgsize ≡ 0)
      × (pgsize ≤ p.mem_page)
      × (p.mem_page + all ≤ phys_base)
      × (p.mem_page ≤ phdr.p_vaddr)
      × (phdr.p_vaddr + phdr.p_memsz ≤ p.mem_page + all)
      × (0 < phdr.p_filesz → p.mem_page + p.read_bytes ≡ phdr.p_vaddr + phdr.p_filesz)
      × (p.file_page + (phdr.p_vaddr - p.mem_page) ≡ phdr.p_offset)
unfolding plan
plan-validate_segment phdr file_length w h =
    let v = validate-Valid phdr file_length w h in
    let read = read_lem phdr file_length w v in
    let whole = total phdr file_length w v in
    (
      omega (arith, whole, v),
      omega (arith, whole),
      omega arith,
      omega arith,
      omega (arith, v.not_first),
      omega (arith, whole, v.user),
      omega arith,
      omega (arith, whole),
      λ some. omega (arith, read some),
      omega (arith, v.same_offset),
    )
