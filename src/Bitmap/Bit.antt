-- ===== src/Bitmap/Bit.antt =====
-- The operations of lib/kernel/bitmap.c on a single bit, in terms of the abstract view.
use ee468_pintos_project.Prelude.{
  ℕ, zero, suc, ◌-◌, ◌/◌, ◌%◌, ◌^◌, ◌<◌, ◌≡◌, refl, ap, Bool, true, false, not, bit_or, bit_and,
  bit_xor, length, get_or, set, length-set, get_or-set, ◌==◌, if◌then◌else◌, ok, arith, lt→ltb,
}
use native.Mathlib.Nat.{two-pow-succ}
use ee468_pintos_project.Bits.{
  digit, digit-bit_or, digit-bit_and, digit-bit_xor, digit-pow, digit-complement, bit_and-pow,
  pow-pos,
}
use ee468_pintos_project.Bitmap.{
  Bitmap, bitmap_mark, bitmap_reset, bitmap_flip, bitmap_set, bitmap_test, bit, IsBitmap, elem,
  bit_mask,
}

pow-lt : (k n : ℕ) → k < n → 2 ^ k < 2 ^ n
pow-lt k zero h = absurd (omega arith)
pow-lt zero (suc n) h = omega (arith, two-pow-succ n, pow-pos n)
pow-lt (suc k) (suc n) h = omega (arith, two-pow-succ n, two-pow-succ k, pow-lt k n (omega arith))

module _ (b : Bitmap) (i j : ℕ) (room : i / 32 < length b.bits) where
  -- The digit that the abstract view reads after the element of `i` was given the value `w`.
  digit-store :
      (w : ℕ)
      → digit (get_or (set b.bits (i / 32) w) (j / 32) 0) (j % 32)
        ≡ (if i / 32 == j / 32 then digit w (j % 32) else bit b j)
  unfolding bit
  digit-store w = ground (arith, get_or-set b.bits (i / 32) (j / 32) w 0 room)

  pub bit-mark : bit (bitmap_mark b i) j ≡ (if i == j then true else bit b j)
  unfolding bit bitmap_mark
  bit-mark = ground (
    arith,
    digit-store (bit_or (elem b i) (bit_mask i)),
    digit-bit_or (elem b i) (bit_mask i) (j % 32),
    digit-pow (i % 32) (j % 32),
  )

  pub bit-reset : bit (bitmap_reset b i) j ≡ (if i == j then false else bit b j)
  unfolding bit bitmap_reset
  bit-reset = ground (
    arith,
    digit-store (bit_and (elem b i) (2 ^ 32 - 1 - bit_mask i)),
    digit-bit_and (elem b i) (2 ^ 32 - 1 - bit_mask i) (j % 32),
    digit-complement 32 (bit_mask i) (j % 32) (pow-lt (i % 32) 32 (omega arith)) (omega arith),
    digit-pow (i % 32) (j % 32),
  )

  pub bit-flip : bit (bitmap_flip b i) j ≡ (if i == j then not (bit b j) else bit b j)
  unfolding bit bitmap_flip
  bit-flip = ground (
    arith,
    digit-store (bit_xor (elem b i) (bit_mask i)),
    digit-bit_xor (elem b i) (bit_mask i) (j % 32),
    digit-pow (i % 32) (j % 32),
  )

-- What one write does: the bit `i` takes the value, and all else stays.
pub record Wrote (b : Bitmap) (i : ℕ) (v : Bool) (c : Bitmap) : Type 0 where
  pub valid : IsBitmap c
  pub size : c.bit_cnt ≡ b.bit_cnt
  pub bits_at : (j : ℕ) → bit c j ≡ (if i == j then v else bit b j)

module _ (b : Bitmap) (w : IsBitmap b) (i : ℕ) (inside : i < b.bit_cnt) where
  in_room : i / 32 < length b.bits
  in_room = omega (arith, w.small, w.room)

  pub mark-Wrote : Wrote b i true (bitmap_mark b i)
  unfolding bitmap_mark
  mark-Wrote = record {
    valid = record { small = w.small; room = rw (length-set b.bits (i / 32)) w.room };
    size = refl;
    bits_at = λ j. bit-mark b i j in_room;
  }

  pub reset-Wrote : Wrote b i false (bitmap_reset b i)
  unfolding bitmap_reset
  reset-Wrote = record {
    valid = record { small = w.small; room = rw (length-set b.bits (i / 32)) w.room };
    size = refl;
    bits_at = λ j. bit-reset b i j in_room;
  }

  pub flip-Wrote : Wrote b i (not (bit b i)) (bitmap_flip b i)
  unfolding bitmap_flip
  flip-Wrote = record {
    valid = record { small = w.small; room = rw (length-set b.bits (i / 32)) w.room };
    size = refl;
    bits_at = λ j. ground (arith, bit-flip b i j in_room, ap (bit b) {x = i} {y = j});
  }

  pub set-Wrote : (v : Bool) → (c : Bitmap) × (bitmap_set b i v ≡ ok c) × Wrote b i v c
  unfolding bitmap_set
  set-Wrote true = (bitmap_mark b i, rw (lt→ltb i b.bit_cnt inside), mark-Wrote)
  set-Wrote false = (bitmap_reset b i, rw (lt→ltb i b.bit_cnt inside), reset-Wrote)

  pub test-bit : bitmap_test b i ≡ ok (bit b i)
  unfolding bitmap_test bit
  test-bit = rw (lt→ltb i b.bit_cnt inside, bit_and-pow (i % 32) (elem b i))
