-- ===== src/File/Tests.antt =====
-- filesys/file.c on a file of the device of Inode/Tests.antt, at address 40, with two openers.
use ee468_pintos_project.Prelude.{◌≡◌, refl, ℕ, ◌+◌, ◌-◌, ok, arith, false, true, if◌then◌else◌}
use ee468_pintos_project.Memory.{Memory, in_block}
use ee468_pintos_project.BlockDevice.{Block}
use ee468_pintos_project.File.{
  File, Inodes, file_read, file_write, file_seek, file_tell, file_deny_write, file_allow_write,
}
use ee468_pintos_project.File.Sharing.{file_read-file_write, deny_write-file_write}

abbrev device : Block
device = record { size = 4; foreign = false; bytes = λ a. a; read_cnt = 0; write_cnt = 0 }

abbrev inodes : Inodes
inodes = λ a. record {
  sector = 3;
  open_cnt = 2;
  removed = false;
  deny_write_cnt = 0;
  disk_inode = record { start = 1; length = 700; magic = 0x494e4f44 };
}

abbrev file : File
file = record { inode = 40; pos = 500; deny_write = false }

file_read-file_write_example :
    (b1 b2 : Block) × (f1 f2 : File) × (m : Memory) × (file_write 301 true device inodes file
        (λ a. a + 7)
        9
        300
      ≡ ok (b1, f1, 200))
    × (file_read 301 true b1 inodes (file_seek f1 500) (λ a. a + 7) 4000 300 ≡ ok (b2, m, f2, 200))
    × ((a : ℕ) → m a ≡ (if in_block 4000 200 a then 9 + (a - 4000) + 7 else a + 7))
    × (file_tell f2 ≡ file_tell f1)
    × (file_tell f1 ≡ 700)
file_read-file_write_example =
    file_read-file_write 301 device inodes file (λ a. a + 7) 9 4000 300 (omega arith) refl refl
      (omega arith)

deny_write-file_write_example :
    (inodes' : Inodes) × (f : File) × (file_deny_write inodes file ≡ ok (inodes', f))
    × ((g : File) (buffer size : ℕ)
        → g.inode ≡ 40
        → file_write 301 true device inodes' g (λ a. 0) buffer size ≡ ok (device, g, 0))
    × (file_deny_write inodes' f ≡ ok (inodes', f))
    × ((inodes2 : Inodes) × (file_allow_write inodes' f ≡ ok (inodes2, file))
        × ((a : ℕ) → inodes2 a ≡ inodes a))
deny_write-file_write_example =
    deny_write-file_write 301 device inodes file (λ a. 0) refl (omega arith)
