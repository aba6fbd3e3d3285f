-- ===== src/Bitmap.antt =====
-- lib/kernel/bitmap.c: an array of bits packed into 32-bit elements (`unsigned long` of the i386).
-- A size_t is a number below 2 ^ 32, and its sums wrap. The bitmaps are passed as values, so the
-- tests against null pointers have no counterpart here.
pub mod Bit
pub mod Range
pub mod Scan
mod Tests
pub mod Count
pub mod Create
use ee468_pintos_project.Prelude.{
  ℕ, zero, suc, ◌+◌, ◌-◌, ◌*◌, ◌/◌, ◌%◌, ◌^◌, ◌<◌, ◌≡◌, Bool, true, false, not, ◌&&◌, List, Option,
  none, some, bit_and, bit_or, bit_xor, length, get_or, set, ltb, leb, ◌==◌, same, add32,
  if◌then◌else◌, Outcome, ok, panic, ◌>>=◌, ◌>>◌, assert,
}
use ee468_pintos_project.Bits.{digit}

pub record Bitmap : Type 0 where
  pub bit_cnt : ℕ
  pub bits : List ℕ

abbrev pub elem_bits : ℕ
elem_bits = 32

-- SIZE_MAX
abbrev pub bitmap_error : ℕ
bitmap_error = 2 ^ 32 - 1

abbrev pub elem_idx : ℕ → ℕ
elem_idx bit_idx = bit_idx / elem_bits

abbrev pub bit_mask : ℕ → ℕ
bit_mask bit_idx = 2 ^ (bit_idx % elem_bits)

-- DIV_ROUND_UP (bit_cnt, ELEM_BITS)
abbrev pub elem_cnt : ℕ → ℕ
elem_cnt bit_cnt = add32 bit_cnt (elem_bits - 1) / elem_bits

abbrev pub byte_cnt : ℕ → ℕ
byte_cnt bit_cnt = 4 * elem_cnt bit_cnt

-- The mask of the bits used in the last element.
unfoldable pub last_mask : Bitmap → ℕ
last_mask b =
    let last_bits = b.bit_cnt % elem_bits in
    if last_bits == 0 then 2 ^ 32 - 1 else 2 ^ last_bits - 1

-- The element that holds the bit `idx`.
abbrev pub elem : Bitmap → ℕ → ℕ
elem b idx = get_or b.bits (elem_idx idx) 0

abbrev store : Bitmap → ℕ → ℕ → Bitmap
store b idx w = record b { bits = set b.bits (elem_idx idx) w }

-- bits[idx] |= mask
unfoldable pub bitmap_mark : Bitmap → ℕ → Bitmap
bitmap_mark b bit_idx = store b bit_idx (bit_or (elem b bit_idx) (bit_mask bit_idx))

-- bits[idx] &= ~mask
unfoldable pub bitmap_reset : Bitmap → ℕ → Bitmap
bitmap_reset b bit_idx = store b bit_idx (bit_and (elem b bit_idx) (2 ^ 32 - 1 - bit_mask bit_idx))

-- bits[idx] ^= mask
unfoldable pub bitmap_flip : Bitmap → ℕ → Bitmap
bitmap_flip b bit_idx = store b bit_idx (bit_xor (elem b bit_idx) (bit_mask bit_idx))

unfoldable pub bitmap_set : Bitmap → ℕ → Bool → Outcome Bitmap
bitmap_set b idx value = do
  assert (ltb idx b.bit_cnt)
  ok (if value then bitmap_mark b idx else bitmap_reset b idx)

unfoldable pub bitmap_test : Bitmap → ℕ → Outcome Bool
bitmap_test b idx = do
  assert (ltb idx b.bit_cnt)
  ok (not (bit_and (elem b idx) (bit_mask idx) == 0))

abbrev assert_range : Bitmap → ℕ → ℕ → Outcome (Unit {0})
assert_range b start cnt = do assert (leb start b.bit_cnt); assert (leb (add32 start cnt) b.bit_cnt)

-- `rounds` is what is left of the `cnt` rounds of the loop.
set_loop : ℕ → ℕ → Bool → ℕ → Bitmap → Outcome Bitmap
set_loop start i value zero b = ok b
set_loop start i value (suc rounds) b = do
  b' ← bitmap_set b (add32 start i) value
  set_loop start (i + 1) value rounds b'

unfoldable pub bitmap_set_multiple : Bitmap → ℕ → ℕ → Bool → Outcome Bitmap
unfolding set_loop
bitmap_set_multiple b start cnt value = do assert_range b start cnt; set_loop start 0 value cnt b

unfoldable pub bitmap_set_all : Bitmap → Bool → Outcome Bitmap
bitmap_set_all b value = bitmap_set_multiple b 0 b.bit_cnt value

count_loop : Bitmap → ℕ → ℕ → Bool → ℕ → ℕ → Outcome ℕ
count_loop b start i value zero value_cnt = ok value_cnt
count_loop b start i value (suc rounds) value_cnt = do
  v ← bitmap_test b (add32 start i)
  count_loop b start (i + 1) value rounds (if same v value then value_cnt + 1 else value_cnt)

unfoldable pub bitmap_count : Bitmap → ℕ → ℕ → Bool → Outcome ℕ
unfolding count_loop
bitmap_count b start cnt value = do assert_range b start cnt; count_loop b start 0 value cnt 0

contains_loop : Bitmap → ℕ → ℕ → Bool → ℕ → Outcome Bool
contains_loop b start i value zero = ok false
contains_loop b start i value (suc rounds) = do
  v ← bitmap_test b (add32 start i)
  elim (same v value) [ true ↦ ok true | false ↦ contains_loop b start (i + 1) value rounds ]

unfoldable pub bitmap_contains : Bitmap → ℕ → ℕ → Bool → Outcome Bool
unfolding contains_loop
bitmap_contains b start cnt value = do assert_range b start cnt; contains_loop b start 0 value cnt

unfoldable pub bitmap_any : Bitmap → ℕ → ℕ → Outcome Bool
bitmap_any b start cnt = bitmap_contains b start cnt true

unfoldable pub bitmap_none : Bitmap → ℕ → ℕ → Outcome Bool
bitmap_none b start cnt = do c ← bitmap_contains b start cnt true; ok (not c)

unfoldable pub bitmap_all : Bitmap → ℕ → ℕ → Outcome Bool
bitmap_all b start cnt = do c ← bitmap_contains b start cnt false; ok (not c)

-- `rounds` is the number of values that `i` still takes up to `last`.
scan_loop : Bitmap → ℕ → Bool → ℕ → ℕ → Outcome ℕ
scan_loop b cnt value zero i = ok bitmap_error
scan_loop b cnt value (suc rounds) i = do
  c ← bitmap_contains b i cnt (not value)
  elim c [ false ↦ ok i | true ↦ scan_loop b cnt value rounds (i + 1) ]

unfoldable pub bitmap_scan : Bitmap → ℕ → ℕ → Bool → Outcome ℕ
unfolding scan_loop
bitmap_scan b start cnt value = do
  assert (leb start b.bit_cnt)
  if leb cnt b.bit_cnt
      then scan_loop b cnt value (b.bit_cnt - cnt + 1 - start) start
      else ok bitmap_error

unfoldable pub bitmap_scan_and_flip : Bitmap → ℕ → ℕ → Bool → Outcome (Bitmap × ℕ)
bitmap_scan_and_flip b start cnt value = do
  idx ← bitmap_scan b start cnt value
  if idx == bitmap_error
      then ok (b, idx)
      else do b' ← bitmap_set_multiple b idx cnt (not value); ok (b', idx)

-- `struct_mem` and `elem_mem` are what the two calls of malloc return: the second is a block of
-- elements with any contents.
unfoldable pub bitmap_create :
    (struct_mem : Bool) (elem_mem : Option (List ℕ)) → ℕ → Outcome (Option Bitmap)
bitmap_create false elem_mem bit_cnt = ok none
bitmap_create true (some block) bit_cnt = do
  b ← bitmap_set_all (record { bit_cnt = bit_cnt; bits = block }) false
  ok (some b)
bitmap_create true none bit_cnt =
    if bit_cnt == 0
    then (do b ← bitmap_set_all (record { bit_cnt = bit_cnt; bits = List.[] }) false; ok (some b))
    else ok none

-- The struct itself takes 8 bytes.
abbrev pub bitmap_buf_size : ℕ → ℕ
bitmap_buf_size bit_cnt = 8 + byte_cnt bit_cnt

-- `block` holds the elements that stand behind the struct in the buffer.
unfoldable pub bitmap_create_in_buf : ℕ → List ℕ → ℕ → Outcome Bitmap
bitmap_create_in_buf bit_cnt block block_size = do
  assert (leb (bitmap_buf_size bit_cnt) block_size)
  bitmap_set_all (record { bit_cnt = bit_cnt; bits = block }) false

-- The abstract view: the bit number `k`.
unfoldable pub bit : Bitmap → ℕ → Bool
bit b k = digit (elem b k) (k % elem_bits)

-- The elements suffice for the bits, and their number did not overflow.
pub record IsBitmap (b : Bitmap) : Type 0 where
  pub small : b.bit_cnt + 31 < 2 ^ 32
  pub room : length b.bits ≡ elem_cnt b.bit_cnt
