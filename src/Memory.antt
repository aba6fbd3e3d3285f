-- ===== src/Memory.antt =====
-- The memory blocks of lib/string.c: memcpy, memmove, memset, memcmp and memchr, over a memory that
-- maps addresses to bytes. A pointer is its address; null is 0.
pub mod Copy
pub mod Compare
mod Tests
use ee468_pintos_project.Prelude.{
  ℕ, zero, suc, ◌+◌, ◌-◌, ◌%◌, ◌≡◌, Bool, true, false, not, ◌&&◌, ◌||◌, ltb, leb, ◌==◌,
  if◌then◌else◌, Outcome, ok, ◌>>=◌, ◌>>◌, assert,
}

abbrev pub Memory : Type 0
Memory = ℕ → ℕ

abbrev pub null : ℕ
null = 0

abbrev pub poke : Memory → ℕ → ℕ → Memory
poke m a v = λ x. if x == a then v else m x

-- Whether the address `a` is one of the `n` from `start` on.
abbrev pub in_block : ℕ → ℕ → ℕ → Bool
in_block start n a = leb start a && ltb a (start + n)

-- ASSERT (p != NULL || size == 0)
abbrev assert_block : ℕ → ℕ → Outcome (Unit {0})
assert_block p size = assert (not (p == null) || size == 0)

-- `while (size-- > 0) *dst++ = *src++;`
pub copy_up : ℕ → ℕ → ℕ → Memory → Memory
copy_up zero dst src m = m
copy_up (suc size) dst src m = copy_up size (dst + 1) (src + 1) (poke m dst (m src))

-- `while (size-- > 0) *--dst = *--src;`
pub copy_down : ℕ → ℕ → ℕ → Memory → Memory
copy_down zero dst src m = m
copy_down (suc size) dst src m = copy_down size (dst - 1) (src - 1) (poke m (dst - 1) (m (src - 1)))

-- The result is the pointer returned.
pub memcpy : Memory → (dst src size : ℕ) → Outcome (Memory × ℕ)
memcpy m dst src size = do
  assert_block dst size
  assert_block src size
  ok (copy_up size dst src m, dst)

pub memmove : Memory → (dst src size : ℕ) → Outcome (Memory × ℕ)
memmove m dst src size = do
  assert_block dst size
  assert_block src size
  if ltb dst src
      then ok (copy_up size dst src m, dst + size)
      else ok (copy_down size (dst + size) (src + size) m, dst + size - size)

set_up : ℕ → ℕ → ℕ → Memory → Memory
set_up zero dst value m = m
set_up (suc size) dst value m = set_up size (dst + 1) value (poke m dst (value % 256))

pub memset : Memory → (dst value size : ℕ) → Outcome (Memory × ℕ)
memset m dst value size = do assert_block dst size; ok (set_up size dst value m, dst)

-- The sign of the int that memcmp returns.
pub data Sign : Type 0 where
  negative equal positive : Sign

unfoldable pub compare_up : Memory → ℕ → ℕ → ℕ → Sign
compare_up m zero a b = equal
compare_up m (suc size) a b =
    let rest = compare_up m size (a + 1) (b + 1) in
    if m a == m b then rest else if ltb (m b) (m a) then positive else negative

unfoldable pub memcmp : Memory → (a b size : ℕ) → Outcome Sign
memcmp m a b size = do assert_block a size; assert_block b size; ok (compare_up m size a b)

pub chr_up : Memory → ℕ → ℕ → ℕ → ℕ
chr_up m zero block ch = null
chr_up m (suc size) block ch =
    let rest = chr_up m size (block + 1) ch in if m block == ch then block else rest

pub memchr : Memory → (block ch size : ℕ) → Outcome ℕ
memchr m block ch size = do assert_block block size; ok (chr_up m size block (ch % 256))
