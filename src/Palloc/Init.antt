-- ===== src/Palloc/Init.antt =====
-- How palloc_init of threads/palloc.c divides the memory.
use ee468_pintos_project.Prelude.{
  ℕ, ◌+◌, ◌-◌, ◌*◌, ◌/◌, ◌%◌, ◌^◌, ◌<◌, ◌≤◌, ◌≡◌, refl, ap, ◌∙◌, false, ltb, le→not_ltb, List,
  length, add32, if◌then◌else◌, ok, arith,
}
use ee468_pintos_project.Memory.{Memory}
use ee468_pintos_project.Bitmap.{bit, elem_cnt, bitmap_buf_size}
use ee468_pintos_project.Bitmap.Create.{create_in_buf-IsClear}
use ee468_pintos_project.Palloc.{
  Pages, Pool, IsPool, IsPages, pg_size, ptov, init_pool, init_behind, palloc_init,
}

-- The pages of the buffer that holds the bitmap of a pool.
abbrev pub bm_pages : ℕ → ℕ
bm_pages page_cnt = add32 (bitmap_buf_size page_cnt) (pg_size - 1) / pg_size

-- A pool that takes `page_cnt` pages from `start` on, the first `bm` of them for its bitmap, and none
-- of the others in use.
pub record Fresh (start page_cnt bm : ℕ) (p : Pool) : Type 0 where
  pub pool : IsPool p
  pub free : (j : ℕ) → j < p.used_map.bit_cnt → bit p.used_map j ≡ false
  pub base : p.base ≡ start + bm * pg_size
  pub size : p.used_map.bit_cnt + bm ≡ page_cnt

module _ (start page_cnt : ℕ) (real : 1 ≤ start) (aligned : start % pg_size ≡ 0)
    (some_pages : 1 ≤ page_cnt) (bound : start + pg_size * page_cnt < 2 ^ 32) where
  init_behind-Fresh :
      (bm : ℕ) (block : List ℕ)
      → bm ≤ page_cnt
      → bitmap_buf_size (page_cnt - bm) ≤ bm * pg_size
      → length block ≡ elem_cnt (page_cnt - bm)
      → (p : Pool) × (init_behind start page_cnt bm block ≡ ok p) × Fresh start page_cnt bm p
  unfolding init_behind
  init_behind-Fresh bm block fits enough room =
      let plain : add32 start (bm * pg_size) ≡ start + bm * pg_size = omega arith in
      let (b, e, c) =
        create_in_buf-IsClear (page_cnt - bm) (omega arith) block room (bm * pg_size) enough in
      (
        record { used_map = b; base = add32 start (bm * pg_size) },
        rw (le→not_ltb bm page_cnt fits, e),
        record {
          pool = record {
            valid = c.valid;
            aligned = omega arith;
            positive = omega arith;
            bounded = omega (arith, c.size);
          };
          free = λ j l. c.clear j (omega (arith, c.size));
          base = plain;
          size = omega (arith, c.size);
        },
      )

  init_pool-Fresh :
      (block : List ℕ)
      → length block ≡ elem_cnt (page_cnt - bm_pages page_cnt)
      → (p : Pool) × (init_pool start page_cnt block ≡ ok p)
        × Fresh start page_cnt (bm_pages page_cnt) p
  unfolding init_pool
  init_pool-Fresh block room =
      init_behind-Fresh (bm_pages page_cnt) block (omega arith) (omega arith) room

-- The RAM, in pages, above the first megabyte.
abbrev pub free_pages : ℕ → ℕ
free_pages init_ram_pages = init_ram_pages - 256

-- The pages of the user pool.
abbrev pub user_pages : ℕ → ℕ → ℕ
user_pages init_ram_pages limit =
    if ltb limit (free_pages init_ram_pages / 2) then limit else free_pages init_ram_pages / 2

abbrev pub kernel_pages : ℕ → ℕ → ℕ
kernel_pages init_ram_pages limit = free_pages init_ram_pages - user_pages init_ram_pages limit

ram_above :
    (ram : ℕ)
    → ram < 2 ^ 18
    → (ptov (ram * pg_size) - ptov (1024 * 1024)) / pg_size ≡ free_pages ram
ram_above ram h = omega arith

palloc_init-ok :
    (ram limit : ℕ) (kernel_block user_block : List ℕ) (m : Memory) (p q : Pool)
    → ram < 2 ^ 18
    → init_pool (ptov 0x10_0000) (kernel_pages ram limit) kernel_block ≡ ok p
    → init_pool
        (add32 (ptov 0x10_0000) (kernel_pages ram limit * pg_size))
        (user_pages ram limit)
        user_block
      ≡ ok q
    → palloc_init ram limit kernel_block user_block m
      ≡ ok (record { kernel_pool = p; user_pool = q; memory = m })
unfolding palloc_init
palloc_init-ok ram limit kernel_block user_block m p q h e e' = rw (ram_above ram h, e, e')

-- palloc_init, on a machine with at least two pages above the first megabyte and less than a
-- gigabyte, and with a user page limit of at least 1, gives the kernel and the user pools that it
-- should: each has its bitmap in its first pages and no page in use, and they do not overlap.
pub palloc_init-Fresh :
    (ram limit : ℕ) (kernel_block user_block : List ℕ) (m : Memory)
    → 258 ≤ ram
    → ram < 2 ^ 18
    → 1 ≤ limit
    → length kernel_block ≡ elem_cnt (kernel_pages ram limit - bm_pages (kernel_pages ram limit))
    → length user_block ≡ elem_cnt (user_pages ram limit - bm_pages (user_pages ram limit))
    → (s : Pages) × (palloc_init ram limit kernel_block user_block m ≡ ok s)
      × IsPages s
      × Fresh
          (ptov 0x10_0000)
          (kernel_pages ram limit)
          (bm_pages (kernel_pages ram limit))
          s.kernel_pool
      × Fresh
          (ptov 0x10_0000 + kernel_pages ram limit * pg_size)
          (user_pages ram limit)
          (bm_pages (user_pages ram limit))
          s.user_pool
palloc_init-Fresh ram limit kernel_block user_block m low high some room room' =
    let k = kernel_pages ram limit in
    let u = user_pages ram limit in
    let start = ptov 0x10_0000 in
    let some_user : 1 ≤ u = ground arith in
    let sum : k + u ≡ ram - 256 = ground arith in
    let some_kernel : 1 ≤ k = ground arith in
    let plain : add32 start (k * pg_size) ≡ start + k * pg_size = omega arith in
    let (p, e, f) =
      init_pool-Fresh start k (omega arith) refl some_kernel (omega arith) kernel_block room in
    let (q, e', f') =
      init_pool-Fresh (start + k * pg_size) u (omega arith) (omega arith) some_user (omega arith)
        user_block room' in
    (
      record { kernel_pool = p; user_pool = q; memory = m },
      palloc_init-ok ram limit kernel_block user_block m p q high e
          (ap (λ b. init_pool b u user_block) plain ∙ e'),
      record { kernel = f.pool; user = f'.pool; apart = omega (arith, f.base, f.size, f'.base) },
      f,
      f',
    )
