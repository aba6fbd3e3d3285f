-- ===== src/Segment/Load.antt =====
-- What a round of load_segment of userprog/process.c leaves in the memory and in the page directory.
use ee468_pintos_project.Prelude.{
  ℕ, ◌+◌, ◌-◌, ◌/◌, ◌%◌, ◌≤◌, ◌<◌, ◌≡◌, ◌≢◌, ap, ◌∙◌, Bool, true, false, not, ltb, ◌==◌,
  if◌then◌else◌, Outcome, ok, ◌>>=◌, arith, ==_refl, ==_ne,
}
use ee468_pintos_project.Memory.{Memory, null, poke, in_block, memset}
use ee468_pintos_project.Memory.Copy.{memset_at}
use ee468_pintos_project.BlockDevice.{Block}
use ee468_pintos_project.Inode.{Inode}
use ee468_pintos_project.Inode.Read.{OnDevice, transfer, file_byte, read_at-ReadsTo}
use ee468_pintos_project.File.{File, Inodes, file_read}
use ee468_pintos_project.Syscall.{pgsize, phys_base}
use ee468_pintos_project.Segment.{
  Machine, vtop, pagedir_get_page, pagedir_set_page, Loader, install_page, load_page,
}

-- The byte `k` of a page into which `read` bytes of the file from `pos` on are read.
abbrev pub page_byte : Block → Inode → (pos read k : ℕ) → ℕ
page_byte b inode pos read k = if ltb k read then file_byte b inode (pos + k) else 0

filled_lem :
    (kpage read a x y : ℕ)
    → read ≤ pgsize
    → (if in_block (kpage + read) (pgsize - read) a
        then 0
        else if in_block kpage read a
        then x
        else y)
      ≡ (if in_block kpage pgsize a then (if ltb (a - kpage) read then x else 0) else y)
filled_lem kpage read a x y small = ground arith

-- The loader after the page at `upage` is read into `kpage`, with the device `b` and the memory `m`.
abbrev pub after_page :
    Loader → (writable : Bool) → (upage kpage read : ℕ) → Block → Memory → Loader
after_page l writable upage kpage read b m = record {
  device = b;
  memory = m;
  file = record (l.file) { pos = l.file.pos + read };
  pd = l.pd;
  pagedir = poke l.pagedir (upage / pgsize) kpage;
  writable = λ page. if page == upage / pgsize then writable else l.writable page;
}

-- A frame that a page directory may map: it is a page of the kernel's addresses that is memory.
pub record IsFrame (machine : Machine) (kpage : ℕ) : Type 0 where
  pub kernel : phys_base ≤ kpage
  pub page : kpage % pgsize ≡ 0
  pub in_ram : (kpage - phys_base) / pgsize < machine.init_ram_pages

-- The page directory of a thread.
pub record IsOwn (machine : Machine) (pd : ℕ) : Type 0 where
  pub real : pd ≢ null
  pub not_init : pd ≢ machine.init_page_dir

install_ok :
    (machine : Machine) (l : Loader) (upage kpage : ℕ) (writable : Bool)
    → IsFrame machine kpage
    → IsOwn machine l.pd
    → upage < phys_base
    → upage % pgsize ≡ 0
    → l.pagedir (upage / pgsize) ≡ 0
    → install_page machine true l upage kpage writable
      ≡ ok (
        record l {
          pagedir = poke l.pagedir (upage / pgsize) kpage;
          writable = λ page. if page == upage / pgsize then writable else l.writable page;
        },
        true,
      )
unfolding install_page pagedir_get_page pagedir_set_page vtop
install_ok machine l upage kpage writable frame own user aligned free =
    let real = ==_ne l.pd null own.real in
    let other = ==_ne l.pd machine.init_page_dir own.not_init in
    ground (arith, frame, user, aligned, free, real, other)

module _ (fuel : ℕ) (machine : Machine) (inodes : Inodes) (writable : Bool) where
  -- What load_page does behind file_read.
  continue : Loader → (upage kpage read : ℕ) → Block → Memory → File → ℕ → Outcome (Loader × Bool)
  continue l upage kpage read device memory file n =
      let l1 = record l { device = device; memory = memory; file = file } in
      if not (n == read)
      then ok (l1, false)
      else (memset memory (kpage + read) 0 (pgsize - read) >>= λ (x, p).
          install_page machine true (record l1 { memory = x }) upage kpage writable)

  -- One page: it holds the bytes of the file and zeros behind them, and is mapped; no other byte and
  -- no other page changes.
  pub load_page_lem :
      (l : Loader) (upage kpage read : ℕ)
      → let inode = inodes l.file.inode in
        OnDevice l.device inode
        → IsFrame machine kpage
        → IsOwn machine l.pd
        → upage < phys_base
        → upage % pgsize ≡ 0
        → read ≤ pgsize
        → pgsize < fuel
        → read ≤ inode.disk_inode.length - l.file.pos
        → l.pagedir (upage / pgsize) ≡ 0
        → (b : Block) × (m : Memory) × (load_page fuel true true machine inodes writable l upage
              kpage read
            ≡ ok (after_page l writable upage kpage read b m, true))
          × (b.bytes ≡ l.device.bytes)
          × (b.size ≡ l.device.size)
          × ((a : ℕ)
              → m a ≡ (
                  if in_block kpage pgsize a
                  then page_byte l.device inode l.file.pos read (a - kpage)
                  else l.memory a))
  unfolding load_page file_read continue
  load_page_lem l upage kpage read on frame own user aligned small f enough free =
      let inode = inodes l.file.inode in
      let (b', m', run, (bytes, kept, size)) =
        read_at-ReadsTo fuel l.device inode l.memory kpage read l.file.pos on
          (omega (arith, small, f)) in
      let all : transfer inode read l.file.pos ≡ read = omega (arith, enough) in
      let (g, zeroed, zeros) =
        memset_at m' (kpage + read) 0 (pgsize - read) (λ z. omega (arith, z, frame.kernel)) in
      let file' : File = record (l.file) { pos = l.file.pos + read } in
      let l1 : Loader = record l { device = b'; memory = m'; file = file' } in
      let mapped : Memory → Outcome (Loader × Bool) =
        λ x. install_page machine true (record l1 { memory = x }) upage kpage writable in
      let filled : Outcome (Loader × Bool) =
        memset m' (kpage + read) 0 (pgsize - read) >>= λ (x, p). mapped x in
      (
        b',
        g,
        ap
              (λ o.
                (o >>= λ (d, m, n). ok (d, m, record (l.file) { pos = l.file.pos + n }, n))
                >>= λ (d, m, x, n). continue l upage kpage read d m x n)
              (run ∙ ap (λ n. ok (b', m', n)) all)
            ∙ ap (λ c. if not c then ok (l1, false) else filled) (==_refl read)
            ∙ ap (λ o. o >>= λ (x, p). mapped x) zeroed
            ∙ install_ok machine (record l1 { memory = g }) upage kpage writable frame own user
                aligned free,
        kept,
        size,
        λ a.
            zeros a
            ∙ ap (λ x. if in_block (kpage + read) (pgsize - read) a then 0 % 256 else x) (bytes a)
            ∙ ap
                (λ n.
                  if in_block (kpage + read) (pgsize - read) a
                  then 0
                  else if in_block kpage n a
                  then file_byte l.device inode (l.file.pos + (a - kpage))
                  else l.memory a)
                all
            ∙ filled_lem kpage read a (file_byte l.device inode (l.file.pos + (a - kpage)))
                (l.memory a) small,
      )
