-- ===== src/Bitmap/Count.antt =====
-- `bitmap_count` of lib/kernel/bitmap.c.
use ee468_pintos_project.Prelude.{
  ℕ, zero, suc, ◌+◌, ◌<◌, ◌≤◌, ◌≡◌, refl, Bool, not, same, if◌then◌else◌, ok, arith, ◌∙◌, ap,
}
use native.Mathlib.Nat.{add_assoc, add-zero}
use ee468_pintos_project.Bitmap.{Bitmap, bit, IsBitmap, count_loop, bitmap_count}
use ee468_pintos_project.Bitmap.Range.{test_at, assert_start, assert_end}

-- The number of the bits among the `n` from `i` on that are the value.
pub tally : Bitmap → ℕ → Bool → ℕ → ℕ
tally b i v zero = 0
tally b i v (suc n) = (if same (bit b i) v then 1 else 0) + tally b (i + 1) v n

tally-not : (b : Bitmap) (i : ℕ) (v : Bool) (n : ℕ) → tally b i v n + tally b i (not v) n ≡ n
unfolding tally
tally-not b i v zero = refl
tally-not b i v (suc n) = ground (arith, tally-not b (i + 1) v n)

count_loop-suc :
    (b : Bitmap) (w : IsBitmap b) (start i : ℕ) (v : Bool) (rounds acc : ℕ)
    → start + i < b.bit_cnt
    → count_loop b start i v (suc rounds) acc
      ≡ count_loop b start (i + 1) v rounds (if same (bit b (start + i)) v then acc + 1 else acc)
unfolding count_loop
count_loop-suc b w start i v rounds acc h = rw (test_at b w start i h)

count_loop-tally :
    (b : Bitmap) (w : IsBitmap b) (start i : ℕ) (v : Bool) (rounds acc : ℕ)
    → start + i + rounds ≤ b.bit_cnt
    → count_loop b start i v rounds acc ≡ ok (acc + tally b (start + i) v rounds)
unfolding tally
count_loop-tally b w start i v zero acc h = unfold count_loop in ap ok (omega arith)
count_loop-tally b w start i v (suc rounds) acc h =
    count_loop-suc b w start i v rounds acc (omega arith)
    ∙ count_loop-tally b w start (i + 1) v rounds _ (omega arith)
    ∙ ap ok (ground (arith, add_assoc start i 1))

module _ (b : Bitmap) (w : IsBitmap b) (start cnt : ℕ) (inside : start + cnt ≤ b.bit_cnt) where
  count-tally : (v : Bool) → bitmap_count b start cnt v ≡ ok (tally b start v cnt)
  unfolding bitmap_count
  count-tally v =
      rw (assert_start b w start cnt inside, assert_end b w start cnt inside)
        (count_loop-tally b w start 0 v cnt 0 (omega arith)
          ∙ ap ok (ground (arith, add-zero start)))

  -- `bitmap_count` answers on a range inside the bitmap, and what it counts of the two values adds
  -- up to the length of the range.
  pub count-not :
      (v : Bool)
      → (m n : ℕ) × (bitmap_count b start cnt v ≡ ok m)
        × (bitmap_count b start cnt (not v) ≡ ok n)
        × (m + n ≡ cnt)
  count-not v = (
    tally b start v cnt,
    tally b start (not v) cnt,
    count-tally v,
    count-tally (not v),
    tally-not b start v cnt,
  )
