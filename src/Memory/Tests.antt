-- ===== src/Memory/Tests.antt =====
-- The memory functions of lib/string.c on a memory whose bytes are the addresses modulo 7.
use ee468_pintos_project.Prelude.{ℕ, ◌%◌, ◌≡◌, refl, ok, arith, if◌then◌else◌, inl}
use ee468_pintos_project.Memory.{
  Memory, memcpy, memmove, memset, memcmp, memchr, in_block, negative, compare_up,
}
use ee468_pintos_project.Memory.Copy.{IsCopy, memmove-IsCopy, memcpy-IsCopy, memset_at}
use ee468_pintos_project.Memory.Compare.{FirstByte, memchr-FirstByte}

abbrev sample : Memory
sample a = a % 7

memcmp_result : memcmp sample 7 15 4 ≡ ok negative
unfolding memcmp compare_up
memcmp_result = refl

memmove-IsCopy_example :
    (g : Memory) × (p : ℕ) × (memmove sample 12 10 5 ≡ ok (g, p)) × IsCopy sample 12 10 5 g
memmove-IsCopy_example = memmove-IsCopy sample 12 10 5 (omega arith) (omega arith)

memcpy-IsCopy_example :
    (g : Memory) × (memcpy sample 30 10 5 ≡ ok (g, 30)) × IsCopy sample 30 10 5 g
memcpy-IsCopy_example = memcpy-IsCopy sample 30 10 5 (omega arith) (omega arith) (inl (omega arith))

memset_at_example :
    (g : Memory) × (memset sample 20 300 4 ≡ ok (g, 20))
    × ((a : ℕ) → g a ≡ (if in_block 20 4 a then 44 else sample a))
memset_at_example = memset_at sample 20 300 4 (omega arith)

memchr-FirstByte_example : (p : ℕ) × (memchr sample 8 3 9 ≡ ok p) × FirstByte sample 8 3 9 p
memchr-FirstByte_example = memchr-FirstByte sample 8 3 9 (omega arith)
