-- ===== src/Memory/Compare.antt =====
-- What memcmp and memchr of lib/string.c answer.
use ee468_pintos_project.Prelude.{
  ℕ, zero, suc, ◌+◌, ◌<◌, ◌≡◌, ◌≢◌, refl, inl, inr, ltb, ◌==◌, if◌then◌else◌, ok, arith, Bool-cases,
  ==_ne, ◌%◌,
}
use native.Mathlib.Nat.{add-zero}
use ee468_pintos_project.Memory.{
  Memory, null, Sign, negative, equal, positive, compare_up, memcmp, chr_up, memchr,
}

-- The first `n` bytes of the blocks agree.
abbrev pub Agree : Memory → ℕ → ℕ → ℕ → Type 0
Agree m a b n = (k : ℕ) → k < n → m (a + k) ≡ m (b + k)

shift : (a k : ℕ) → a + suc k ≡ a + 1 + k
shift a k = omega arith

Agree-cons : (m : Memory) (a b n : ℕ) → m a ≡ m b → Agree m (a + 1) (b + 1) n → Agree m a b (suc n)
Agree-cons m a b n h r zero l = ground (arith, add-zero a, add-zero b)
Agree-cons m a b n h r (suc k) l = ground (arith, r k, shift a k, shift b k)

-- A sign tells how two blocks of `n` bytes compare, by the first byte in which they differ.
pub data Compares (m : Memory) (a b n : ℕ) (s : Sign) : Type 0 where
  alike : Agree m a b n → s ≡ equal → Compares m a b n s
  differs :
      (k : ℕ)
      → k < n
      → Agree m a b k
      → m (a + k) ≢ m (b + k)
      → s ≡ (if ltb (m (b + k)) (m (a + k)) then positive else negative)
      → Compares m a b n s

Compares-later :
    (m : Memory) (a b n : ℕ) (s : Sign)
    → m a ≡ m b
    → Compares m (a + 1) (b + 1) n s
    → Compares m a b (suc n) s
Compares-later m a b n s h (alike r e) = alike (Agree-cons m a b n h r) e
Compares-later m a b n s h (differs k l r d e) =
    differs (suc k) (omega arith) (Agree-cons m a b k h r) (ground (arith, shift a k, shift b k))
      (ground (arith, shift a k, shift b k))

compare_up-Compares : (m : Memory) (n a b : ℕ) → Compares m a b n (compare_up m n a b)
unfolding compare_up
compare_up-Compares m zero a b = alike (λ k l. absurd (omega arith)) refl
compare_up-Compares m (suc n) a b = elim (Bool-cases (m a == m b)) [
  | inl e ↦ rw e (Compares-later m a b n _ (ground arith) (compare_up-Compares m n (a + 1) (b + 1)))
  | inr e ↦
      differs 0 (omega arith) (λ k l. absurd (omega arith)) (ground (arith, add-zero a, add-zero b))
        (ground (arith, add-zero a, add-zero b))
]

-- memcmp on two blocks at real addresses tells whether they agree, and if not, which is greater at
-- the first byte in which they differ.
pub memcmp-Compares :
    (m : Memory) (a b size : ℕ)
    → a ≢ null
    → b ≢ null
    → (s : Sign) × (memcmp m a b size ≡ ok s) × Compares m a b size s
unfolding memcmp
memcmp-Compares m a b size real real' = (
  compare_up m size a b,
  rw (==_ne a null real, ==_ne b null real'),
  compare_up-Compares m size a b,
)

-- The first address of the block that holds the byte, or null.
pub data FirstByte (m : Memory) (block ch n p : ℕ) : Type 0 where
  found :
      (k : ℕ)
      → k < n
      → ((j : ℕ) → j < k → m (block + j) ≢ ch)
      → m (block + k) ≡ ch
      → p ≡ block + k
      → FirstByte m block ch n p
  missing : ((j : ℕ) → j < n → m (block + j) ≢ ch) → p ≡ null → FirstByte m block ch n p

Absent-cons :
    (m : Memory) (block ch n : ℕ)
    → m block ≢ ch
    → ((j : ℕ) → j < n → m (block + 1 + j) ≢ ch)
    → (j : ℕ) → j < suc n
    → m (block + j) ≢ ch
Absent-cons m block ch n h r zero l = ground (arith, add-zero block)
Absent-cons m block ch n h r (suc j) l = ground (arith, shift block j, r j)

FirstByte-later :
    (m : Memory) (block ch n p : ℕ)
    → m block ≢ ch
    → FirstByte m (block + 1) ch n p
    → FirstByte m block ch (suc n) p
FirstByte-later m block ch n p h (found k l r e q) =
    found (suc k) (omega arith) (Absent-cons m block ch k h r) (ground (arith, shift block k))
      (omega arith)
FirstByte-later m block ch n p h (missing r q) = missing (Absent-cons m block ch n h r) q

chr_up-FirstByte : (m : Memory) (n block ch : ℕ) → FirstByte m block ch n (chr_up m n block ch)
unfolding chr_up
chr_up-FirstByte m zero block ch = missing (λ j l. absurd (omega arith)) refl
chr_up-FirstByte m (suc n) block ch = elim (Bool-cases (m block == ch)) [
  | inl e ↦ rw e (
      found 0 (omega arith) (λ j l. absurd (omega arith)) (ground (arith, add-zero block))
        (omega arith))
  | inr e ↦
      rw e (FirstByte-later m block ch n _ (ground arith) (chr_up-FirstByte m n (block + 1) ch))
]

-- memchr at a real address returns the first address of the block that holds the low byte of `ch`,
-- and null exactly if none does.
pub memchr-FirstByte :
    (m : Memory) (block ch size : ℕ)
    → block ≢ null
    → (p : ℕ) × (memchr m block ch size ≡ ok p) × FirstByte m block (ch % 256) size p
unfolding memchr
memchr-FirstByte m block ch size real = (
  chr_up m size block (ch % 256),
  rw (==_ne block null real),
  chr_up-FirstByte m size block (ch % 256),
)
