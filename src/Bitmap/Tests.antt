-- ===== src/Bitmap/Tests.antt =====
-- lib/kernel/bitmap.c on a bitmap of forty bits, of which the first two and the fifth are set.
use ee468_pintos_project.Prelude.{ℕ, ◌≡◌, refl, true, false, not, [], ◌∷◌, some, ok, arith, ◌+◌}
use ee468_pintos_project.Bitmap.{
  Bitmap, IsBitmap, bit, bitmap_flip, bitmap_scan_and_flip, bitmap_contains, bitmap_count,
  bitmap_create, bitmap_scan, bitmap_test,
}
use ee468_pintos_project.Bitmap.Bit.{Wrote, flip-Wrote}
use ee468_pintos_project.Bitmap.Scan.{TakenFirst, scan_and_flip-TakenFirst}
use ee468_pintos_project.Bitmap.Create.{IsClear, create-IsClear}
use ee468_pintos_project.Bitmap.Count.{count-not}

abbrev sample : Bitmap
sample = record { bit_cnt = 40; bits = 0x13 ∷ 0 ∷ [] }

sample-IsBitmap : IsBitmap sample
sample-IsBitmap = record { small = omega arith; room = refl }

scan_result : bitmap_scan sample 0 3 false ≡ ok 5
unfolding bitmap_scan bitmap_contains bitmap_test
scan_result = refl

flip-Wrote_example : Wrote sample 33 (not (bit sample 33)) (bitmap_flip sample 33)
flip-Wrote_example = flip-Wrote sample sample-IsBitmap 33 (omega arith)

scan_and_flip-TakenFirst_example : TakenFirst sample 3 false (bitmap_scan_and_flip sample 0 3 false)
scan_and_flip-TakenFirst_example = scan_and_flip-TakenFirst sample sample-IsBitmap 3 false

create-IsClear_example :
    (b : Bitmap) × (bitmap_create true (some (0xff ∷ 7 ∷ [])) 40 ≡ ok (some b)) × IsClear 40 b
create-IsClear_example = create-IsClear 40 (omega arith) (0xff ∷ 7 ∷ []) refl

count-not_example :
    (m n : ℕ) × (bitmap_count sample 0 6 true ≡ ok m)
    × (bitmap_count sample 0 6 false ≡ ok n)
    × (m + n ≡ 6)
count-not_example = count-not sample sample-IsBitmap 0 6 (omega arith) true
