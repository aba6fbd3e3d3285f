-- ===== src/FreeMap.antt =====
-- filesys/free-map.c: the sectors of the file system's device that are in use. `written` tells whether
-- bitmap_write writes the whole bitmap to its file, and `has_file` whether free_map_file is set.
pub mod Sectors
mod Tests
use ee468_pintos_project.Prelude.{
  ℕ, Bool, true, false, not, ◌&&◌, ◌==◌, if◌then◌else◌, Option, some, none, List, Outcome, ok,
  panic, ◌>>=◌, ◌>>◌, assert,
}
use ee468_pintos_project.Bitmap.{
  Bitmap, bitmap_create, bitmap_mark, bitmap_scan_and_flip, bitmap_set_multiple, bitmap_all,
  bitmap_error,
}

abbrev pub free_map_sector : ℕ
free_map_sector = 0

abbrev pub root_dir_sector : ℕ
root_dir_sector = 1

abbrev pub reserve : Option Bitmap → Outcome Bitmap
reserve none = panic
reserve (some map) = ok (bitmap_mark (bitmap_mark map free_map_sector) root_dir_sector)

-- `device_size` is block_size (fs_device); the memory for the bitmap is what malloc gives.
pub free_map_init : Bool → Option (List ℕ) → (device_size : ℕ) → Outcome Bitmap
free_map_init struct_mem elem_mem device_size = do
  made ← bitmap_create struct_mem elem_mem device_size
  reserve made

-- The new map, and the first of the sectors, if they were allocated.
pub free_map_allocate : (has_file written : Bool) → Bitmap → (cnt : ℕ) → Outcome (Bitmap × Option ℕ)
free_map_allocate has_file written map cnt = do
  (map1, sector) ← bitmap_scan_and_flip map 0 cnt false
  if not (sector == bitmap_error) && (has_file && not written)
      then (bitmap_set_multiple map1 sector cnt false >>= λ map2. ok (map2, none))
      else ok (map1, (if sector == bitmap_error then none else some sector))

pub free_map_release : Bitmap → (sector cnt : ℕ) → Outcome Bitmap
free_map_release map sector cnt = do
  used ← bitmap_all map sector cnt
  assert used
  bitmap_set_multiple map sector cnt false
