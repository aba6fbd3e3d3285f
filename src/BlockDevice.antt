-- ===== src/BlockDevice.antt =====
-- devices/block.c: reading and writing the sectors of a block device. The bytes of all sectors stand
-- one sector after the other; a driver keeps in a sector what was last written there.
use ee468_pintos_project.Prelude.{
  ℕ, ◌+◌, ◌-◌, ◌*◌, ◌<◌, ◌≡◌, Bool, false, not, arith, lt→ltb, ltb, if◌then◌else◌, Outcome, ok,
  panic, ◌>>◌, assert,
}
use ee468_pintos_project.Memory.{Memory, in_block}

abbrev pub block_sector_size : ℕ
block_sector_size = 512

-- `foreign` tells whether the type is BLOCK_FOREIGN.
pub record Block : Type 0 where
  pub size : ℕ
  pub foreign : Bool
  pub bytes : Memory
  pub read_cnt : ℕ
  pub write_cnt : ℕ

-- `n` bytes of `from`, from its start on, replace those of `m` at `dst`.
abbrev pub splice : Memory → (dst n : ℕ) → (ℕ → ℕ) → Memory
splice m dst n from a = if in_block dst n a then from (a - dst) else m a

abbrev pub sector_bytes : Block → ℕ → ℕ → ℕ
sector_bytes b sector i = b.bytes (sector * block_sector_size + i)

-- A sector past the end stops the kernel.
unfoldable pub check_sector : Block → ℕ → Outcome (Unit {0})
check_sector b sector = if ltb sector b.size then ok tt else panic

unfoldable pub block_read : Block → (sector : ℕ) → Memory → (buffer : ℕ) → Outcome (Block × Memory)
block_read b sector m buffer = do
  check_sector b sector
  ok (
    record b { read_cnt = b.read_cnt + 1 },
    splice m buffer block_sector_size (sector_bytes b sector),
  )

unfoldable pub block_write : Block → (sector : ℕ) → Memory → (buffer : ℕ) → Outcome Block
block_write b sector m buffer = do
  check_sector b sector
  assert (not b.foreign)
  ok (record b {
    bytes = splice b.bytes (sector * block_sector_size) block_sector_size (λ i. m (buffer + i));
    write_cnt = b.write_cnt + 1;
  })

pub block_read_ok :
    (b : Block) (sector : ℕ) (m : Memory) (buffer : ℕ)
    → sector < b.size
    → block_read b sector m buffer
      ≡ ok (
        record b { read_cnt = b.read_cnt + 1 },
        splice m buffer block_sector_size (sector_bytes b sector),
      )
unfolding block_read check_sector
block_read_ok b sector m buffer h = ground (arith, lt→ltb sector b.size h)

pub block_write_ok :
    (b : Block) (sector : ℕ) (m : Memory) (buffer : ℕ)
    → sector < b.size
    → b.foreign ≡ false
    → block_write b sector m buffer
      ≡ ok (record b {
        bytes = splice b.bytes (sector * block_sector_size) block_sector_size (λ i. m (buffer + i));
        write_cnt = b.write_cnt + 1;
      })
unfolding block_write check_sector
block_write_ok b sector m buffer h f = ground (arith, f, lt→ltb sector b.size h)
