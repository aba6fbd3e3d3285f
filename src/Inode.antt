-- ===== src/Inode.antt =====
-- filesys/inode.c: the bytes of a file on the file system's device. An off_t is a number: the code
-- treats a negative size or rest like 0. `bounce_ok` tells whether malloc gives the bounce buffer,
-- whose bytes are a memory of their own. The loops take fuel.
pub mod Read
pub mod Write
mod Tests
use ee468_pintos_project.Prelude.{
  ℕ, zero, suc, ◌+◌, ◌-◌, ◌*◌, ◌/◌, ◌%◌, ◌^◌, Bool, true, false, not, ◌&&◌, ◌||◌, ltb, leb, ◌==◌,
  if◌then◌else◌, Outcome, ok, panic, running, ◌>>=◌, ◌>>◌, assert,
}
use ee468_pintos_project.Memory.{Memory, null}
use ee468_pintos_project.BlockDevice.{Block, block_sector_size, splice, block_read, block_write}

pub record InodeDisk : Type 0 where
  pub start : ℕ
  pub length : ℕ
  pub magic : ℕ

pub record Inode : Type 0 where
  pub sector : ℕ
  pub open_cnt : ℕ
  pub removed : Bool
  pub deny_write_cnt : ℕ
  pub disk_inode : InodeDisk

-- DIV_ROUND_UP (size, BLOCK_SECTOR_SIZE)
abbrev pub bytes_to_sectors : ℕ → ℕ
bytes_to_sectors size = (size + (block_sector_size - 1)) / block_sector_size

abbrev pub byte_to_sector : Inode → ℕ → ℕ
byte_to_sector inode pos =
    if ltb pos inode.disk_inode.length
    then inode.disk_inode.start + pos / block_sector_size
    else 2 ^ 32 - 1

abbrev pub inode_length : Inode → ℕ
inode_length inode = inode.disk_inode.length

-- The number of bytes that one round transfers.
abbrev pub chunk : Inode → (size offset : ℕ) → ℕ
chunk inode size offset =
    let inode_left = inode_length inode - offset in
    let sector_left = block_sector_size - offset % block_sector_size in
    let min_left = if ltb inode_left sector_left then inode_left else sector_left in
    if ltb size min_left then size else min_left

-- What one round reads into `buffer`; none when there is no bounce buffer.
pub read_chunk :
    Bool → Block → Inode → Memory → (buffer offset chunk_size : ℕ) → Outcome (Bool × Block × Memory)
read_chunk bounce_ok b inode m buffer offset chunk_size =
    let sector_idx = byte_to_sector inode offset in
    let sector_ofs = offset % block_sector_size in
    if sector_ofs == 0 && chunk_size == block_sector_size
    then (block_read b sector_idx m buffer >>= λ r. ok (true, r.0, r.1))
    else if bounce_ok
    then (block_read b sector_idx (λ a. 0) 0 >>= λ r.
        ok (true, r.0, splice m buffer chunk_size (λ i. r.1 (sector_ofs + i))))
    else ok (false, b, m)

pub read_loop :
    ℕ
    → Bool
    → Block
    → Inode
    → Memory
    → (buffer size offset bytes_read : ℕ) → Outcome (Block × Memory × ℕ)
read_loop zero bounce_ok b inode m buffer size offset bytes_read = running
read_loop (suc fuel) bounce_ok b inode m buffer size offset bytes_read =
    let chunk_size = chunk inode size offset in
    if size == 0 || chunk_size == 0 then ok (b, m, bytes_read) else do
      (went, b', m') ← read_chunk bounce_ok b inode m (buffer + bytes_read) offset chunk_size
      let rest =
          read_loop fuel bounce_ok b' inode m' buffer (size - chunk_size) (offset + chunk_size)
            (bytes_read + chunk_size)
      if went then rest else ok (b', m', bytes_read)

unfoldable pub inode_read_at :
    ℕ → Bool → Block → Inode → Memory → (buffer size offset : ℕ) → Outcome (Block × Memory × ℕ)
inode_read_at fuel bounce_ok b inode m buffer size offset =
    read_loop fuel bounce_ok b inode m buffer size offset 0

-- The bounce buffer when a part of a sector is written: the sector as it is, or zeros.
pub fill_bounce : Block → (sector_idx sector_ofs chunk_size : ℕ) → Outcome (Block × Memory)
fill_bounce b sector_idx sector_ofs chunk_size =
    if ltb 0 sector_ofs || ltb chunk_size (block_sector_size - sector_ofs)
    then block_read b sector_idx (λ a. 0) 0
    else ok (b, λ a. 0)

pub write_part :
    Block → Memory → (buffer sector_idx sector_ofs chunk_size : ℕ) → Outcome (Bool × Block)
write_part b m buffer sector_idx sector_ofs chunk_size = do
  (b1, bounce) ← fill_bounce b sector_idx sector_ofs chunk_size
  b2 ← block_write b1 sector_idx (splice bounce sector_ofs chunk_size (λ i. m (buffer + i))) 0
  ok (true, b2)

-- What one round writes from `buffer`; false when there is no bounce buffer.
pub write_chunk :
    Bool → Block → Inode → Memory → (buffer offset chunk_size : ℕ) → Outcome (Bool × Block)
write_chunk bounce_ok b inode m buffer offset chunk_size =
    let sector_idx = byte_to_sector inode offset in
    let sector_ofs = offset % block_sector_size in
    if sector_ofs == 0 && chunk_size == block_sector_size
    then (block_write b sector_idx m buffer >>= λ b'. ok (true, b'))
    else if bounce_ok
    then write_part b m buffer sector_idx sector_ofs chunk_size
    else ok (false, b)

pub write_loop :
    ℕ → Bool → Block → Inode → Memory → (buffer size offset bytes_written : ℕ) → Outcome (Block × ℕ)
write_loop zero bounce_ok b inode m buffer size offset bytes_written = running
write_loop (suc fuel) bounce_ok b inode m buffer size offset bytes_written =
    let chunk_size = chunk inode size offset in
    if size == 0 || chunk_size == 0 then ok (b, bytes_written) else do
      (went, b') ← write_chunk bounce_ok b inode m (buffer + bytes_written) offset chunk_size
      let rest =
          write_loop fuel bounce_ok b' inode m buffer (size - chunk_size) (offset + chunk_size)
            (bytes_written + chunk_size)
      if went then rest else ok (b', bytes_written)

unfoldable pub inode_write_at :
    ℕ → Bool → Block → Inode → Memory → (buffer size offset : ℕ) → Outcome (Block × ℕ)
inode_write_at fuel bounce_ok b inode m buffer size offset =
    if not (inode.deny_write_cnt == 0)
    then ok (b, 0)
    else write_loop fuel bounce_ok b inode m buffer size offset 0

unfoldable pub inode_deny_write : Inode → Outcome Inode
inode_deny_write inode = do
  let inode' = record inode { deny_write_cnt = inode.deny_write_cnt + 1 }
  assert (leb inode'.deny_write_cnt inode'.open_cnt)
  ok inode'

unfoldable pub inode_allow_write : Inode → Outcome Inode
inode_allow_write inode = do
  assert (ltb 0 inode.deny_write_cnt)
  assert (leb inode.deny_write_cnt inode.open_cnt)
  ok (record inode { deny_write_cnt = inode.deny_write_cnt - 1 })

abbrev pub inode_reopen : Inode → Inode
inode_reopen inode = record inode { open_cnt = inode.open_cnt + 1 }

abbrev pub inode_get_inumber : Inode → ℕ
inode_get_inumber inode = inode.sector

abbrev pub inode_remove : Inode → Inode
inode_remove inode = record inode { removed = true }
