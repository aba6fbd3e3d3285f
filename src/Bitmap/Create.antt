-- ===== src/Bitmap/Create.antt =====
-- The creation of a bitmap, of lib/kernel/bitmap.c.
use ee468_pintos_project.Prelude.{
  ℕ, ◌+◌, ◌^◌, ◌<◌, ◌≤◌, ◌≡◌, true, false, ok, arith, le→leb, List, some, length,
}
use ee468_pintos_project.Bitmap.{
  Bitmap, bit, IsBitmap, elem_cnt, bitmap_set_all, bitmap_create, bitmap_create_in_buf,
  bitmap_buf_size,
}
use ee468_pintos_project.Bitmap.Range.{set_all-Filled}

-- A bitmap of `n` bits, all of them false.
pub record IsClear (n : ℕ) (b : Bitmap) : Type 0 where
  pub valid : IsBitmap b
  pub size : b.bit_cnt ≡ n
  pub clear : (j : ℕ) → j < n → bit b j ≡ false

module _ (n : ℕ) (small : n + 31 < 2 ^ 32) (block : List ℕ) (room : length block ≡ elem_cnt n) where
  set_all-IsClear :
      (b : Bitmap) × (bitmap_set_all (record { bit_cnt = n; bits = block }) false ≡ ok b)
      × IsClear n b
  set_all-IsClear =
      let b : Bitmap = record { bit_cnt = n; bits = block } in
      let (c, e, f) = set_all-Filled b (record { small = small; room = room }) false in
      (c, e, record { valid = f.valid; size = f.size; clear = λ j l. ground (arith, f.bits_at j) })

  -- `bitmap_create` makes a bitmap of false bits of the memory it is given, whatever that holds.
  pub create-IsClear :
      (b : Bitmap) × (bitmap_create true (some block) n ≡ ok (some b)) × IsClear n b
  unfolding bitmap_create
  create-IsClear = let (b, e, c) = set_all-IsClear in (b, rw e, c)

  -- `bitmap_create_in_buf` does so in a buffer of at least `bitmap_buf_size` bytes.
  pub create_in_buf-IsClear :
      (size : ℕ)
      → bitmap_buf_size n ≤ size
      → (b : Bitmap) × (bitmap_create_in_buf n block size ≡ ok b) × IsClear n b
  unfolding bitmap_create_in_buf
  create_in_buf-IsClear size h =
      let (b, e, c) = set_all-IsClear in (b, rw (le→leb (bitmap_buf_size n) size h, e), c)
