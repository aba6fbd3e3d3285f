-- ===== src/FreeMap/Tests.antt =====
-- filesys/free-map.c on a map of eight sectors, of which 0, 1 and 4 are in use.
use ee468_pintos_project.Prelude.{refl, zero, suc, arith, true, [], ◌∷◌}
use ee468_pintos_project.Bitmap.{Bitmap, IsBitmap, bit}
use ee468_pintos_project.Bitmap.Range.{HasRun}
use ee468_pintos_project.Bits.{digit}

abbrev map8 : Bitmap
map8 = record { bit_cnt = 8; bits = 19 ∷ [] }

map8-IsBitmap : IsBitmap map8
map8-IsBitmap = omega arith

used : HasRun map8 0 2 true
unfolding digit bit
used zero h = refl
used (suc zero) h = refl
used (suc (suc k)) h = absurd (omega arith)
