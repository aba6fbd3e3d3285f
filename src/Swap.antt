-- ===== src/Swap.antt =====
-- vm/swap.c: pages in the slots of the swap device. A bit of swap_map is true while its slot is free.
pub mod Sectors
pub mod Slots
mod Tests
use ee468_pintos_project.Prelude.{
  ℕ, zero, suc, ◌+◌, ◌*◌, ◌/◌, Bool, true, ◌==◌, if◌then◌else◌, Option, some, none, List, Outcome,
  ok, panic, ◌>>=◌, ◌>>◌,
}
use ee468_pintos_project.Memory.{Memory}
use ee468_pintos_project.Bitmap.{
  Bitmap, bitmap_create, bitmap_set_all, bitmap_scan_and_flip, bitmap_flip, bitmap_error,
}
use ee468_pintos_project.BlockDevice.{Block, block_sector_size, block_read, block_write}

pub record Swap : Type 0 where
  pub swap_device : Block
  pub swap_map : Bitmap

abbrev pub sectors_per_page : ℕ
sectors_per_page = 4096 / block_sector_size

-- SWAP_ERROR
abbrev pub swap_error : ℕ
swap_error = bitmap_error

abbrev pub swap_size_in_page : Block → ℕ
swap_size_in_page device = device.size / sectors_per_page

-- The loop of vm_swap_out with `rounds` of its rounds left.
pub write_sectors : (rounds : ℕ) → Block → Memory → (swap_idx uva counter : ℕ) → Outcome Block
write_sectors zero device m swap_idx uva counter = ok device
write_sectors (suc rounds) device m swap_idx uva counter = do
  device' ←
      block_write device (swap_idx * sectors_per_page + counter) m
        (uva + counter * block_sector_size)
  write_sectors rounds device' m swap_idx uva (counter + 1)

-- The loop of vm_swap_in.
pub read_sectors :
    (rounds : ℕ) → Block → Memory → (swap_idx uva counter : ℕ) → Outcome (Block × Memory)
read_sectors zero device m swap_idx uva counter = ok (device, m)
read_sectors (suc rounds) device m swap_idx uva counter = do
  (device', m') ←
      block_read device (swap_idx * sectors_per_page + counter) m
        (uva + counter * block_sector_size)
  read_sectors rounds device' m' swap_idx uva (counter + 1)

unfoldable pub vm_swap_out : Swap → Memory → (uva : ℕ) → Outcome (Swap × ℕ)
vm_swap_out s m uva = do
  (map, swap_idx) ← bitmap_scan_and_flip s.swap_map 0 1 true
  if swap_idx == bitmap_error
      then ok (record s { swap_map = map }, swap_error)
      else (write_sectors sectors_per_page s.swap_device m swap_idx uva 0 >>= λ device.
          ok (record { swap_device = device; swap_map = map }, swap_idx))

unfoldable pub vm_swap_in : Swap → Memory → (swap_idx uva : ℕ) → Outcome (Swap × Memory)
vm_swap_in s m swap_idx uva = do
  (device, m') ← read_sectors sectors_per_page s.swap_device m swap_idx uva 0
  ok (record { swap_device = device; swap_map = bitmap_flip s.swap_map swap_idx }, m')

abbrev pub vm_clear_swap_slot : Swap → ℕ → Swap
vm_clear_swap_slot s swap_idx = record s { swap_map = bitmap_flip s.swap_map swap_idx }

-- The device of the role, if there is one, and what malloc gives for the bitmap are parameters.
unfoldable pub vm_swap_init : Bool → Option Block → Option (List ℕ) → Outcome Swap
vm_swap_init struct_mem none elem_mem = panic
vm_swap_init struct_mem (some device) elem_mem = do
  made ← bitmap_create struct_mem elem_mem (swap_size_in_page device)
  fresh device made
  where
    fresh : Block → Option Bitmap → Outcome Swap
    fresh device none = panic
    fresh device (some map) = do
      map' ← bitmap_set_all map true
      ok (record { swap_device = device; swap_map = map' })
