-- ===== src/Memory/Copy.antt =====
-- What memcpy, memmove and memset of lib/string.c leave in the memory.
use ee468_pintos_project.Prelude.{
  ℕ, zero, suc, ◌+◌, ◌-◌, ◌%◌, ◌≤◌, ◌≡◌, ◌≢◌, refl, ap, ◌⊎◌, inl, inr, ltb, if◌then◌else◌, ok,
  arith, Bool-cases, ==_ne,
}
use ee468_pintos_project.Memory.{
  Memory, null, poke, in_block, copy_up, copy_down, set_up, memcpy, memmove, memset,
}

-- The memory `m` after `n` bytes were copied to `dst` from `src`.
abbrev pub IsCopy : Memory → ℕ → ℕ → ℕ → Memory → Type 0
IsCopy m dst src n g = (a : ℕ) → g a ≡ (if in_block dst n a then m (src + (a - dst)) else m a)

copy_up-IsCopy :
    (n dst src : ℕ) (m : Memory)
    → (dst ≤ src) ⊎ (src + n ≤ dst)
    → IsCopy m dst src n (copy_up n dst src m)
unfolding copy_up
copy_up-IsCopy zero dst src m h a = ground arith
copy_up-IsCopy (suc n) dst src m h a =
    ground (arith, copy_up-IsCopy n (dst + 1) (src + 1) (poke m dst (m src)) (omega arith) a)

copy_down-IsCopy :
    (n dst src d s : ℕ) (m : Memory)
    → d ≡ dst + n
    → s ≡ src + n
    → src ≤ dst
    → IsCopy m dst src n (copy_down n d s m)
unfolding copy_down
copy_down-IsCopy zero dst src d s m p q h a = ground arith
copy_down-IsCopy (suc n) dst src d s m p q h a = ground (
  arith,
  copy_down-IsCopy n dst src (d - 1) (s - 1) (poke m (d - 1) (m (s - 1))) (omega arith)
      (omega arith) h a,
)

set_up_at :
    (n dst value : ℕ) (m : Memory) (a : ℕ)
    → set_up n dst value m a ≡ (if in_block dst n a then value % 256 else m a)
unfolding set_up
set_up_at zero dst value m a = ground arith
set_up_at (suc n) dst value m a =
    ground (arith, set_up_at n (dst + 1) value (poke m dst (value % 256)) a)

module _ (m : Memory) (dst src size : ℕ) (real : dst ≢ null) (real' : src ≢ null) where
  -- On blocks at real addresses, memmove copies the bytes whether or not the blocks overlap, and
  -- changes no byte outside the destination.
  pub memmove-IsCopy :
      (g : Memory) × (p : ℕ) × (memmove m dst src size ≡ ok (g, p)) × IsCopy m dst src size g
  unfolding memmove
  memmove-IsCopy = elim (Bool-cases (ltb dst src)) [
    | inl before ↦ (
      copy_up size dst src m,
      dst + size,
      rw (==_ne dst null real, ==_ne src null real', before),
      copy_up-IsCopy size dst src m (inl (ground arith)),
    )
    | inr after ↦ (
      copy_down size (dst + size) (src + size) m,
      dst + size - size,
      rw (==_ne dst null real, ==_ne src null real', after),
      copy_down-IsCopy size dst src (dst + size) (src + size) m refl refl (ground arith),
    )
  ]

  -- memmove returns its destination only when that does not lie below the source: otherwise it
  -- returns the end of the block that it wrote.
  pub memmove_result :
      (g : Memory) × (memmove m dst src size ≡ ok (g, if ltb dst src then dst + size else dst))
  unfolding memmove
  memmove_result = elim (Bool-cases (ltb dst src)) [
    | inl before ↦ (copy_up size dst src m, rw (==_ne dst null real, ==_ne src null real', before))
    | inr after ↦ (
      copy_down size (dst + size) (src + size) m,
      rw (==_ne dst null real, ==_ne src null real', after)
          (ap (λ p. ok (copy_down size (dst + size) (src + size) m, p)) (omega arith)),
    )
  ]

  -- memcpy copies the bytes between blocks at real addresses that do not overlap, changes no other
  -- byte, and returns the destination.
  pub memcpy-IsCopy :
      (src + size ≤ dst) ⊎ (dst + size ≤ src)
      → (g : Memory) × (memcpy m dst src size ≡ ok (g, dst)) × IsCopy m dst src size g
  unfolding memcpy
  memcpy-IsCopy apart = (
    copy_up size dst src m,
    rw (==_ne dst null real, ==_ne src null real'),
    copy_up-IsCopy size dst src m (omega arith),
  )

-- memset at a real address gives the block the low byte of the value, and changes no other byte.
pub memset_at :
    (m : Memory) (dst value size : ℕ)
    → dst ≢ null
    → (g : Memory) × (memset m dst value size ≡ ok (g, dst))
      × ((a : ℕ) → g a ≡ (if in_block dst size a then value % 256 else m a))
unfolding memset
memset_at m dst value size real =
    (set_up size dst value m, rw (==_ne dst null real), set_up_at size dst value m)
