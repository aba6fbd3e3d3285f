-- ===== src/Palloc.antt =====
-- threads/palloc.c: the page allocator, two pools of pages over the bitmaps of lib/kernel/bitmap.c.
-- The macros on addresses are those of threads/vaddr.h. Each function runs to its end here, so the
-- lock of a pool, which palloc_get_multiple holds across its search, has no state in the model.
pub mod Get
pub mod Free
pub mod Init
pub mod Roundtrip
mod Tests
use ee468_pintos_project.Prelude.{
  ℕ, zero, suc, ◌+◌, ◌-◌, ◌*◌, ◌/◌, ◌%◌, ◌^◌, ◌≤◌, ◌≡◌, Bool, true, false, not, ◌&&◌, ◌||◌, List,
  ltb, leb, ◌==◌, add32, if◌then◌else◌, Outcome, ok, panic, ◌>>=◌, ◌>>◌, assert,
}
use ee468_pintos_project.Bits.{digit}
use ee468_pintos_project.Memory.{Memory, null, memset}
use ee468_pintos_project.Bitmap.{
  Bitmap, IsBitmap, bitmap_error, bitmap_scan_and_flip, bitmap_all, bitmap_set_multiple,
  bitmap_buf_size, bitmap_create_in_buf,
}

abbrev pub pg_size : ℕ
pg_size = 4096

abbrev pub pg_ofs : ℕ → ℕ
pg_ofs va = va % pg_size

abbrev pub pg_no : ℕ → ℕ
pg_no va = va / pg_size

abbrev pub phys_base : ℕ
phys_base = 0xc000_0000

abbrev pub ptov : ℕ → ℕ
ptov paddr = add32 paddr phys_base

-- The bits of enum palloc_flags.
abbrev pub pal_assert : ℕ → Bool
pal_assert flags = digit flags 0

abbrev pub pal_zero : ℕ → Bool
pal_zero flags = digit flags 1

abbrev pub pal_user : ℕ → Bool
pal_user flags = digit flags 2

pub record Pool : Type 0 where
  pub used_map : Bitmap
  pub base : ℕ

pub record Pages : Type 0 where
  pub kernel_pool : Pool
  pub user_pool : Pool
  pub memory : Memory

-- `&user_pool` or `&kernel_pool`.
abbrev pub pool_at : Bool → Pages → Pool
pool_at true s = s.user_pool
pool_at false s = s.kernel_pool

abbrev pub set_pool : Bool → Pool → Pages → Pages
set_pool true p s = record s { user_pool = p }
set_pool false p s = record s { kernel_pool = p }

-- memset (pages, value, n) on the memory of the state.
abbrev clear_pages : Pages → ℕ → ℕ → ℕ → Outcome Pages
clear_pages s pages value n = do
  (m, p) ← memset s.memory pages value n
  ok (record s { memory = m })

-- `page_idx != BITMAP_ERROR ? pool->base + PGSIZE * page_idx : NULL`
page_address : Pool → ℕ → ℕ
page_address pool page_idx =
    if page_idx == bitmap_error then null else add32 pool.base (pg_size * page_idx)

-- What follows the search: the pages are cleared if the flags say so; without pages the kernel may
-- panic.
hand_over : Pages → (flags page_cnt pages : ℕ) → Outcome (Pages × ℕ)
hand_over s flags page_cnt pages =
    if pages == null
    then (if pal_assert flags then panic else ok (s, pages))
    else if pal_zero flags
    then (do s' ← clear_pages s pages 0 (pg_size * page_cnt); ok (s', pages))
    else ok (s, pages)

-- The result is the address of the pages, or null.
pub palloc_get_multiple : Pages → (flags page_cnt : ℕ) → Outcome (Pages × ℕ)
unfolding page_address hand_over
palloc_get_multiple s flags page_cnt = if page_cnt == 0 then ok (s, null) else do
  let user = pal_user flags
  let pool = pool_at user s
  (map, page_idx) ← bitmap_scan_and_flip pool.used_map 0 page_cnt false
  hand_over (set_pool user (record pool { used_map = map }) s) flags page_cnt
      (page_address pool page_idx)

pub palloc_get_page : Pages → ℕ → Outcome (Pages × ℕ)
palloc_get_page s flags = palloc_get_multiple s flags 1

pub page_from_pool : Pool → ℕ → Bool
page_from_pool pool page =
    leb (pg_no pool.base) (pg_no page) && ltb (pg_no page) (pg_no pool.base + pool.used_map.bit_cnt)

-- The pool of the pages; `user` says which one it is.
free_in : Bool → Pages → ℕ → ℕ → Outcome Pages
free_in user s pages page_cnt = do
  let pool = pool_at user s
  let page_idx = pg_no pages - pg_no pool.base
  s' ← clear_pages s pages 0xcc (pg_size * page_cnt)
  all ← bitmap_all pool.used_map page_idx page_cnt
  assert all
  map ← bitmap_set_multiple pool.used_map page_idx page_cnt false
  ok (set_pool user (record pool { used_map = map }) s')

pub palloc_free_multiple : Pages → (pages page_cnt : ℕ) → Outcome Pages
unfolding free_in page_from_pool
palloc_free_multiple s pages page_cnt = do
  assert (pg_ofs pages == 0)
  if pages == null || page_cnt == 0
      then ok s
      else if page_from_pool s.kernel_pool pages
      then free_in false s pages page_cnt
      else if page_from_pool s.user_pool pages
      then free_in true s pages page_cnt
      else panic

pub palloc_free_page : Pages → ℕ → Outcome Pages
palloc_free_page s page = palloc_free_multiple s page 1

-- `block` is what the buffer of the bitmap, at the base of the pool, holds behind the struct, and
-- `bm_pages` the number of pages of that buffer.
init_behind : (base page_cnt bm_pages : ℕ) (block : List ℕ) → Outcome Pool
init_behind base page_cnt bm_pages block = if ltb page_cnt bm_pages then panic else do
  used_map ← bitmap_create_in_buf (page_cnt - bm_pages) block (bm_pages * pg_size)
  ok (record { used_map = used_map; base = add32 base (bm_pages * pg_size) })

pub init_pool : (base page_cnt : ℕ) (block : List ℕ) → Outcome Pool
unfolding init_behind
init_pool base page_cnt block =
    init_behind base page_cnt (add32 (bitmap_buf_size page_cnt) (pg_size - 1) / pg_size) block

-- `init_ram_pages` is the size of the RAM that the loader found.
pub palloc_init :
    (init_ram_pages user_page_limit : ℕ) (kernel_block user_block : List ℕ) → Memory → Outcome Pages
palloc_init init_ram_pages user_page_limit kernel_block user_block m =
    let free_start = ptov (1024 * 1024) in
    let free_end = ptov (init_ram_pages * pg_size) in
    let free_pages = (free_end - free_start) / pg_size in
    let half = free_pages / 2 in
    let user_pages = if ltb user_page_limit half then user_page_limit else half in
    let kernel_pages = free_pages - user_pages in
    do
      kernel ← init_pool free_start kernel_pages kernel_block
      user ← init_pool (add32 free_start (kernel_pages * pg_size)) user_pages user_block
      ok (record { kernel_pool = kernel; user_pool = user; memory = m })

-- A pool whose pages are aligned and lie below the end of the address space.
pub record IsPool (p : Pool) : Type 0 where
  pub valid : IsBitmap p.used_map
  pub aligned : p.base % pg_size ≡ 0
  pub positive : 1 ≤ p.base
  pub bounded : p.base + pg_size * p.used_map.bit_cnt ≤ 2 ^ 32

-- Both pools, the kernel's below the user's.
pub record IsPages (s : Pages) : Type 0 where
  pub kernel : IsPool s.kernel_pool
  pub user : IsPool s.user_pool
  pub apart : s.kernel_pool.base + pg_size * s.kernel_pool.used_map.bit_cnt ≤ s.user_pool.base
