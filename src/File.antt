-- ===== src/File.antt =====
-- filesys/file.c: open files, each with a position, over the inodes in memory. A file names its inode
-- by the inode's address, so that files can share one. file_open, file_reopen and file_close, which
-- open and close inodes, are not here.
pub mod Sharing
mod Tests
use ee468_pintos_project.Prelude.{
  ℕ, ◌+◌, Bool, true, false, not, ◌==◌, if◌then◌else◌, Outcome, ok, ◌>>=◌,
}
use ee468_pintos_project.Memory.{Memory}
use ee468_pintos_project.BlockDevice.{Block}
use ee468_pintos_project.Inode.{
  Inode, inode_length, inode_read_at, inode_write_at, inode_deny_write, inode_allow_write,
}

pub record File : Type 0 where
  pub inode : ℕ
  pub pos : ℕ
  pub deny_write : Bool

-- The inodes in memory, by address.
abbrev pub Inodes : Type 0
Inodes = ℕ → Inode

abbrev pub with_inode : Inodes → ℕ → Inode → Inodes
with_inode inodes i inode a = if a == i then inode else inodes a

abbrev pub file_get_inode : File → ℕ
file_get_inode file = file.inode

unfoldable pub file_read :
    ℕ
    → Bool
    → Block
    → Inodes
    → File
    → Memory
    → (buffer size : ℕ) → Outcome (Block × Memory × File × ℕ)
file_read fuel bounce_ok b inodes file m buffer size = do
  (b', m', bytes_read) ← inode_read_at fuel bounce_ok b (inodes file.inode) m buffer size file.pos
  ok (b', m', record file { pos = file.pos + bytes_read }, bytes_read)

abbrev pub file_read_at :
    ℕ
    → Bool
    → Block
    → Inodes
    → File
    → Memory
    → (buffer size file_ofs : ℕ) → Outcome (Block × Memory × ℕ)
file_read_at fuel bounce_ok b inodes file m buffer size file_ofs =
    inode_read_at fuel bounce_ok b (inodes file.inode) m buffer size file_ofs

unfoldable pub file_write :
    ℕ → Bool → Block → Inodes → File → Memory → (buffer size : ℕ) → Outcome (Block × File × ℕ)
file_write fuel bounce_ok b inodes file m buffer size = do
  (b', bytes_written) ← inode_write_at fuel bounce_ok b (inodes file.inode) m buffer size file.pos
  ok (b', record file { pos = file.pos + bytes_written }, bytes_written)

abbrev pub file_write_at :
    ℕ → Bool → Block → Inodes → File → Memory → (buffer size file_ofs : ℕ) → Outcome (Block × ℕ)
file_write_at fuel bounce_ok b inodes file m buffer size file_ofs =
    inode_write_at fuel bounce_ok b (inodes file.inode) m buffer size file_ofs

unfoldable pub file_deny_write : Inodes → File → Outcome (Inodes × File)
file_deny_write inodes file =
    if not file.deny_write
    then (inode_deny_write (inodes file.inode) >>= λ inode.
        ok (with_inode inodes file.inode inode, record file { deny_write = true }))
    else ok (inodes, file)

unfoldable pub file_allow_write : Inodes → File → Outcome (Inodes × File)
file_allow_write inodes file =
    if file.deny_write
    then (inode_allow_write (inodes file.inode) >>= λ inode.
        ok (with_inode inodes file.inode inode, record file { deny_write = false }))
    else ok (inodes, file)

abbrev pub file_length : Inodes → File → ℕ
file_length inodes file = inode_length (inodes file.inode)

-- A position is not negative.
abbrev pub file_seek : File → (new_pos : ℕ) → File
file_seek file new_pos = record file { pos = new_pos }

abbrev pub file_tell : File → ℕ
file_tell file = file.pos
