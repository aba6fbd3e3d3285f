-- ===== src/Inode/Tests.antt =====
-- filesys/inode.c on a file of 700 bytes in the sectors 1 and 2 of a device of four sectors.
use ee468_pintos_project.Prelude.{◌≡◌, refl, ℕ, ◌+◌, ◌-◌, ok, arith, false, true, if◌then◌else◌}
use ee468_pintos_project.Memory.{Memory, in_block}
use ee468_pintos_project.BlockDevice.{Block}
use ee468_pintos_project.Inode.{Inode, inode_read_at, inode_write_at}
use ee468_pintos_project.Inode.Read.{ReadsTo, read_at-ReadsTo}
use ee468_pintos_project.Inode.Write.{WritesTo, write_at-WritesTo, read-write}

abbrev device : Block
device = record { size = 4; foreign = false; bytes = λ a. a; read_cnt = 0; write_cnt = 0 }

abbrev file : Inode
file = record {
  sector = 3;
  open_cnt = 1;
  removed = false;
  deny_write_cnt = 0;
  disk_inode = record { start = 1; length = 700; magic = 0x494e4f44 };
}

read_at-ReadsTo_example :
    (b : Block) × (m : Memory) × (inode_read_at 301 true device file (λ a. 0) 9 300 500
      ≡ ok (b, m, 200))
    × ReadsTo device file (λ a. 0) 9 500 200 b m
read_at-ReadsTo_example =
    read_at-ReadsTo 301 device file (λ a. 0) 9 300 500 (omega arith) (omega arith)

write_at-WritesTo_example :
    (b : Block) × (inode_write_at 301 true device file (λ a. 7) 9 300 500 ≡ ok (b, 200))
    × WritesTo device file (λ a. 7) 9 500 200 b
write_at-WritesTo_example =
    (write_at-WritesTo 301 device file (λ a. 7) 9 300 500 (omega arith) refl (omega arith)).1 refl

read-write_example :
    (b1 b2 : Block) × (m : Memory) × (inode_write_at 301 true device file (λ a. a + 7) 9 300 500
      ≡ ok (b1, 200))
    × (inode_read_at 301 true b1 file (λ a. a + 7) 4000 300 500 ≡ ok (b2, m, 200))
    × ((a : ℕ) → m a ≡ (if in_block 4000 200 a then 9 + (a - 4000) + 7 else a + 7))
read-write_example =
    read-write 301 device file (λ a. a + 7) 9 4000 300 500 (omega arith) refl refl (omega arith)
