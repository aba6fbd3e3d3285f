-- ===== src/Segment.antt =====
-- The loading of a segment of a program in userprog/process.c: validate_segment, the sizes that load
-- computes from a program header, and load_segment. What vm_get_frame gives, one page after the other,
-- is a list of frames, null from its end on; `set_ok` says whether pagedir_set_page has memory for its
-- tables. An address, an offset or a size of a program header is a word.
pub mod Sizes
pub mod Load
pub mod Pages
pub mod Loop
mod Tests
use ee468_pintos_project.Prelude.{
  ℕ, zero, suc, ◌+◌, ◌-◌, ◌*◌, ◌/◌, ◌%◌, ◌^◌, Bool, true, false, not, ◌&&◌, ltb, ◌==◌,
  if◌then◌else◌, List, [], ◌∷◌, Outcome, ok, ◌>>=◌, ◌>>◌, assert, add32,
}
use ee468_pintos_project.Memory.{Memory, null, poke, memset}
use ee468_pintos_project.BlockDevice.{Block}
use ee468_pintos_project.File.{File, Inodes, file_read, file_seek}
use ee468_pintos_project.Syscall.{pgsize, phys_base, is_user_vaddr}

pub record Elf32Phdr : Type 0 where
  pub p_type : ℕ
  pub p_offset : ℕ
  pub p_vaddr : ℕ
  pub p_paddr : ℕ
  pub p_filesz : ℕ
  pub p_memsz : ℕ
  pub p_flags : ℕ
  pub p_align : ℕ

-- `x & PGMASK` and `x & ~PGMASK`.
abbrev pub pg_ofs : ℕ → ℕ
pg_ofs x = x % pgsize

abbrev pub pg_start : ℕ → ℕ
pg_start x = x / pgsize * pgsize

-- ROUND_UP of lib/round.h, on words.
abbrev pub round_up : (x step : ℕ) → ℕ
round_up x step = add32 x (step - 1) / step * step

unfoldable pub validate_segment : (phdr : Elf32Phdr) → (file_length : ℕ) → Bool
validate_segment phdr file_length =
    if not (pg_ofs phdr.p_offset == pg_ofs phdr.p_vaddr)
    then false
    else if ltb file_length phdr.p_offset
    then false
    else if ltb phdr.p_memsz phdr.p_filesz
    then false
    else if phdr.p_memsz == 0
    then false
    else if not (is_user_vaddr phdr.p_vaddr)
    then false
    else if not (is_user_vaddr (add32 phdr.p_vaddr phdr.p_memsz))
    then false
    else if ltb (add32 phdr.p_vaddr phdr.p_memsz) phdr.p_vaddr
    then false
    else if ltb phdr.p_vaddr pgsize
    then false
    else true

-- What load hands to load_segment for a program header.
pub record Plan : Type 0 where
  pub file_page : ℕ
  pub mem_page : ℕ
  pub read_bytes : ℕ
  pub zero_bytes : ℕ

unfoldable pub plan : Elf32Phdr → Plan
plan phdr =
    let page_offset = pg_ofs phdr.p_vaddr in
    let whole = round_up (add32 page_offset phdr.p_memsz) pgsize in
    let read = if ltb 0 phdr.p_filesz then add32 page_offset phdr.p_filesz else 0 in
    record {
      file_page = pg_start phdr.p_offset;
      mem_page = pg_start phdr.p_vaddr;
      read_bytes = read;
      zero_bytes = if ltb 0 phdr.p_filesz then (whole + 2 ^ 32 - read) % 2 ^ 32 else whole;
    }

-- What load_segment changes: the device, the memory, the position of the file, and the page directory
-- of the thread: `pd` is its address, `pagedir` the frame of every page.
pub record Loader : Type 0 where
  pub device : Block
  pub memory : Memory
  pub file : File
  pub pd : ℕ
  pub pagedir : ℕ → ℕ
  pub writable : ℕ → Bool

abbrev pub page_read_bytes : (read_bytes : ℕ) → ℕ
page_read_bytes read_bytes = if ltb read_bytes pgsize then read_bytes else pgsize

-- What the kernel fixes when it starts: its own page directory and the number of pages of memory.
pub record Machine : Type 0 where
  pub init_page_dir : ℕ
  pub init_ram_pages : ℕ

-- vtop of threads/vaddr.h.
unfoldable pub vtop : (vaddr : ℕ) → Outcome ℕ
vtop vaddr = do assert (not (is_user_vaddr vaddr)); ok (vaddr - phys_base)

-- A page that is not present has the entry null. lookup_page asserts that the page directory is not null.
unfoldable pub pagedir_get_page : Loader → (uaddr : ℕ) → Outcome ℕ
pagedir_get_page l uaddr = do
  assert (is_user_vaddr uaddr)
  assert (not (l.pd == null))
  ok (
      if l.pagedir (uaddr / pgsize) == null
      then null
      else l.pagedir (uaddr / pgsize) + pg_ofs uaddr)

unfoldable pub pagedir_set_page :
    Machine
    → (set_ok : Bool) → Loader
    → (upage kpage : ℕ) → (writable : Bool) → Outcome (Loader × Bool)
unfolding vtop
pagedir_set_page machine set_ok l upage kpage writable = do
  assert (pg_ofs upage == 0)
  assert (pg_ofs kpage == 0)
  assert (is_user_vaddr upage)
  physical ← vtop kpage
  assert (ltb (physical / pgsize) machine.init_ram_pages)
  assert (not (l.pd == machine.init_page_dir))
  assert (not (l.pd == null))
  if set_ok
      then (assert (l.pagedir (upage / pgsize) == null)
          >> ok (
            record l {
              pagedir = poke l.pagedir (upage / pgsize) kpage;
              writable = λ page. if page == upage / pgsize then writable else l.writable page;
            },
            true,
          ))
      else ok (l, false)

unfoldable pub install_page :
    Machine
    → (set_ok : Bool) → Loader
    → (upage kpage : ℕ) → (writable : Bool) → Outcome (Loader × Bool)
unfolding pagedir_get_page pagedir_set_page
install_page machine set_ok l upage kpage writable = do
  page ← pagedir_get_page l upage
  if page == null then pagedir_set_page machine set_ok l upage kpage writable else ok (l, false)

module _ (fuel : ℕ) (bounce_ok set_ok : Bool) (machine : Machine) (inodes : Inodes)
    (writable : Bool) where
  -- The page at `upage` is read into `kpage`, filled up with zeros and mapped; false if one of these
  -- fails.
  unfoldable pub load_page : Loader → (upage kpage page_read : ℕ) → Outcome (Loader × Bool)
  unfolding install_page
  load_page l upage kpage page_read = do
    (device, memory, file, n) ←
        file_read fuel bounce_ok l.device inodes l.file l.memory kpage page_read
    let l1 = record l { device = device; memory = memory; file = file }
    if not (n == page_read)
        then ok (l1, false)
        else (memset memory (kpage + page_read) 0 (pgsize - page_read) >>= λ (zeroed, p).
            install_page machine set_ok (record l1 { memory = zeroed }) upage kpage writable)

  unfoldable pub load_loop :
      (frames : List ℕ) → Loader → (upage read_bytes zero_bytes : ℕ) → Outcome (Loader × Bool)
  unfolding load_page
  load_loop [] l upage read_bytes zero_bytes = ok (l, (read_bytes == 0) && (zero_bytes == 0))
  load_loop (kpage ∷ frames) l upage read_bytes zero_bytes =
      let page_read = page_read_bytes read_bytes in
      let page_zero = pgsize - page_read in
      if (read_bytes == 0) && (zero_bytes == 0)
      then ok (l, true)
      else if kpage == null
      then ok (l, false)
      else (load_page l upage kpage page_read >>= λ (l1, loaded). elim loaded [
        | true ↦
            load_loop frames l1 (add32 upage pgsize) (read_bytes - page_read)
              (zero_bytes - page_zero)
        | false ↦ ok (l1, false)
      ])

  unfoldable pub load_segment :
      (frames : List ℕ) → Loader → (ofs upage read_bytes zero_bytes : ℕ) → Outcome (Loader × Bool)
  unfolding load_loop
  load_segment frames l ofs upage read_bytes zero_bytes = do
    assert (add32 read_bytes zero_bytes % pgsize == 0)
    assert (pg_ofs upage == 0)
    assert (ofs % pgsize == 0)
    load_loop frames (record l { file = file_seek l.file ofs }) upage read_bytes zero_bytes
