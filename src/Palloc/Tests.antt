-- ===== src/Palloc/Tests.antt =====
-- threads/palloc.c on two small pools.
use ee468_pintos_project.Prelude.{◌≡◌, refl, ◌*◌, ◌+◌, [], ◌∷◌, true, ok, arith, replicate}
use ee468_pintos_project.Bitmap.{
  bitmap_scan_and_flip, bitmap_scan, bitmap_contains, bitmap_test, bitmap_set_multiple, bitmap_set,
  bitmap_mark,
}
use ee468_pintos_project.Bits.{digit}
use ee468_pintos_project.Palloc.{
  Pages, IsPages, palloc_get_multiple, palloc_free_multiple, palloc_init, pg_size, ptov,
}
use ee468_pintos_project.Palloc.Get.{Got, get_multiple-Got}
use ee468_pintos_project.Palloc.Free.{Freed, SameUse, free_multiple-Freed}
use ee468_pintos_project.Palloc.Roundtrip.{free-get}
use ee468_pintos_project.Palloc.Init.{Fresh, bm_pages, kernel_pages, user_pages, palloc_init-Fresh}

abbrev pages : Pages
pages = record {
  kernel_pool = record { used_map = record { bit_cnt = 4; bits = 3 ∷ [] }; base = 0x1000 };
  user_pool = record { used_map = record { bit_cnt = 4; bits = 5 ∷ [] }; base = 0x5000 };
  memory = λ a. 1;
}

pages-IsPages : IsPages pages
pages-IsPages = omega arith

get_multiple-Got_example : Got pages 6 1 (palloc_get_multiple pages 6 1)
get_multiple-Got_example = get_multiple-Got pages 6 1 pages-IsPages (omega arith)

free_multiple-Freed_example : Freed true pages 1 2 (palloc_free_multiple pages 0x7000 1)
free_multiple-Freed_example =
    free_multiple-Freed true pages 1 2 pages-IsPages (omega arith) (omega arith)

abbrev taken : Pages
taken = record pages {
  user_pool = record { used_map = record { bit_cnt = 4; bits = 7 ∷ [] }; base = 0x5000 };
}

free-get_example :
    (r : Pages) × (palloc_free_multiple taken 0x6000 1 ≡ ok r) × IsPages r × SameUse pages r
unfolding palloc_get_multiple bitmap_scan_and_flip bitmap_scan bitmap_contains bitmap_test
    bitmap_set_multiple bitmap_set bitmap_mark digit
free-get_example = free-get pages taken 4 1 0x6000 pages-IsPages (omega arith) refl (omega arith)

palloc_init-Fresh_example :
    (s : Pages) × (palloc_init 1024 1000 (replicate 12 9) (replicate 12 9) (λ a. 0) ≡ ok s)
    × IsPages s
    × Fresh
        (ptov 0x10_0000)
        (kernel_pages 1024 1000)
        (bm_pages (kernel_pages 1024 1000))
        s.kernel_pool
    × Fresh
        (ptov 0x10_0000 + kernel_pages 1024 1000 * pg_size)
        (user_pages 1024 1000)
        (bm_pages (user_pages 1024 1000))
        s.user_pool
palloc_init-Fresh_example =
    palloc_init-Fresh 1024 1000 (replicate 12 9) (replicate 12 9) (λ a. 0) (omega arith)
      (omega arith) (omega arith) refl refl
