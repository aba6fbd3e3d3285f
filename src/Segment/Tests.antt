-- ===== src/Segment/Tests.antt =====
-- userprog/process.c on a program whose segment of 5000 bytes, at 0x1000 of a file of 10000 bytes, is
-- loaded into the frames at 0xc0010000 and 0xc0020000.
use ee468_pintos_project.Prelude.{
  ℕ, ◌+◌, ◌-◌, ◌%◌, ◌^◌, ◌≤◌, ◌<◌, ◌≡◌, refl, List, [], ◌∷◌, ok, true, false, arith,
}
use ee468_pintos_project.BlockDevice.{Block}
use ee468_pintos_project.File.{Inodes, file_seek}
use ee468_pintos_project.Syscall.{pgsize, phys_base}
use ee468_pintos_project.Segment.{Machine, Elf32Phdr, Loader, validate_segment, plan, load_segment}
use ee468_pintos_project.Segment.Sizes.{AreWords, plan-validate_segment}
use ee468_pintos_project.Segment.Load.{IsFrame, IsOwn}
use ee468_pintos_project.Segment.Pages.{AreFrames, Loaded}
use ee468_pintos_project.Segment.Loop.{load_segment-Loaded}

abbrev phdr : Elf32Phdr
phdr = record {
  p_type = 1;
  p_offset = 0x1004;
  p_vaddr = 0x8048004;
  p_paddr = 0x8048004;
  p_filesz = 5000;
  p_memsz = 6000;
  p_flags = 7;
  p_align = 0x1000;
}

phdr-AreWords : AreWords phdr
phdr-AreWords = record {
  offset_word = omega arith;
  vaddr_word = omega arith;
  filesz_word = omega arith;
  memsz_word = omega arith;
}

accepted : validate_segment phdr 10000 ≡ true
unfolding validate_segment
accepted = refl

plan-validate_segment_example :
    let p = plan phdr in
    let all = p.read_bytes + p.zero_bytes in
    (all < 2 ^ 32)
    × (all % pgsize ≡ 0)
    × (p.mem_page % pgsize ≡ 0)
    × (p.file_page % pgsize ≡ 0)
    × (pgsize ≤ p.mem_page)
    × (p.mem_page + all ≤ phys_base)
    × (p.mem_page ≤ 0x8048004)
    × (0x8048004 + 6000 ≤ p.mem_page + all)
    × (0 < 5000 → p.mem_page + p.read_bytes ≡ 0x8048004 + 5000)
    × (p.file_page + (0x8048004 - p.mem_page) ≡ 0x1004)
plan-validate_segment_example = plan-validate_segment phdr 10000 phdr-AreWords accepted

abbrev device : Block
device = record { size = 30; foreign = false; bytes = λ a. a % 256; read_cnt = 0; write_cnt = 0 }

abbrev inodes : Inodes
inodes = λ a. record {
  sector = 3;
  open_cnt = 1;
  removed = false;
  deny_write_cnt = 0;
  disk_inode = record { start = 4; length = 10000; magic = 0x494e4f44 };
}

abbrev loader : Loader
loader = record {
  device = device;
  memory = λ a. 0xcc;
  file = record { inode = 40; pos = 0; deny_write = false };
  pd = 0xc0400000;
  pagedir = λ page. 0;
  writable = λ page. false;
}

abbrev frames : List ℕ
frames = 0xc0010000 ∷ 0xc0020000 ∷ []

abbrev machine : Machine
machine = record { init_page_dir = 0xc0101000; init_ram_pages = 1024 }

IsFrame-at :
    (frame : ℕ)
    → phys_base ≤ frame
    → frame < phys_base + 0x400000
    → frame % pgsize ≡ 0
    → IsFrame machine frame
IsFrame-at frame low high page = record {
  kernel = low;
  page = page;
  in_ram = omega (arith, low, high);
}

frames-AreFrames : AreFrames machine frames
frames-AreFrames = (
  IsFrame-at 0xc0010000 (omega arith) (omega arith) refl,
  (λ k h. (ground (arith, h), record {})),
  (IsFrame-at 0xc0020000 (omega arith) (omega arith) refl, (λ k h. record {}), record {}),
)

own : IsOwn machine loader.pd
own = record { real = λ e. omega (arith, e); not_init = λ e. omega (arith, e) }

load_segment-Loaded_example :
    (l' : Loader) × (load_segment 5000 true true machine inodes true frames loader 0x1000 0x8048000
        5004 3188
      ≡ ok (l', true))
    × Loaded inodes true
        (record loader { file = file_seek loader.file 0x1000 })
        0x8048000
        5004
        (5004 + 3188)
        frames
        l'
load_segment-Loaded_example =
    load_segment-Loaded 5000 machine inodes true frames loader 0x1000 0x8048000 5004 3188
      (omega arith) frames-AreFrames own (omega arith) (omega arith) refl refl refl (omega arith)
      (omega arith) (λ page low high. refl)
