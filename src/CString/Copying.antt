-- ===== src/CString/Copying.antt =====
-- What strlcpy of lib/string.c leaves at its destination.
use ee468_pintos_project.Prelude.{
  ℕ, zero, suc, ◌+◌, ◌-◌, ◌≤◌, ◌<◌, ◌≡◌, ◌≢◌, ◌⊎◌, inl, inr, refl, sym, ap, ◌∙◌, false, ltb,
  if◌then◌else◌, List, [], ◌∷◌, length, Outcome, ok, ◌>>=◌, arith, ==_ne, lt→ltb, Bool-cases, subst,
}
use native.Mathlib.Nat.{add-zero}
use ee468_pintos_project.Memory.{Memory, null, poke, in_block, memcpy}
use ee468_pintos_project.Memory.Copy.{memcpy-IsCopy}
use ee468_pintos_project.CString.{strlcpy}
use ee468_pintos_project.CString.Text.{Text, strlen-Text}

-- The first `n` items.
abbrev pub take : ℕ → List ℕ → List ℕ
take zero xs = []
take (suc n) [] = []
take (suc n) (x ∷ xs) = x ∷ take n xs

-- Bytes copied from a string, and a terminator behind them.
Text-take :
    (n : ℕ) (m g : Memory) (src dst : ℕ) (xs : List ℕ)
    → Text m src xs
    → n ≤ length xs
    → ((k : ℕ) → k < n → g (dst + k) ≡ m (src + k))
    → g (dst + n) ≡ 0
    → Text g dst (take n xs)
Text-take zero m g src dst xs t h same end = ap g (sym (add-zero dst)) ∙ end
Text-take (suc n) m g src dst [] t h same end = absurd (omega arith)
Text-take (suc n) m g src dst (x ∷ xs) t h same end = (
  ap g (sym (add-zero dst)) ∙ same 0 (omega arith) ∙ ap m (add-zero src) ∙ t.0,
  t.1,
  t.2,
  Text-take n m g (src + 1) (dst + 1) xs t.3 (omega arith)
      (λ k l.
        ap g {x = dst + 1 + k} {y = dst + suc k} (omega arith)
        ∙ same (suc k) (omega arith)
        ∙ ap m {x = src + suc k} {y = src + 1 + k} (omega arith))
      (ap g {x = dst + 1 + n} {y = dst + suc n} (omega arith) ∙ end),
)

take-all : (n : ℕ) (xs : List ℕ) → length xs ≤ n → take n xs ≡ xs
take-all zero [] h = refl
take-all zero (x ∷ xs) h = absurd (omega arith)
take-all (suc n) [] h = refl
take-all (suc n) (x ∷ xs) h = ap (◌∷◌ x) (take-all n xs (omega arith))

-- The number of characters that strlcpy copies.
abbrev fitting : (src_len dst_len : ℕ) → ℕ
fitting src_len dst_len = if ltb src_len dst_len then src_len else dst_len

take-fitting : (n : ℕ) (xs : List ℕ) → take (fitting (length xs) n) xs ≡ take n xs
take-fitting n xs = elim (Bool-cases (ltb (length xs) n)) [
  | inl e ↦
      ap (λ c. take (if c then length xs else n) xs) e
      ∙ take-all (length xs) xs (omega arith)
      ∙ sym (take-all n xs (ground arith))
  | inr e ↦ ap (λ c. take (if c then length xs else n) xs) e
]

copied_at :
    (m : Memory) (dst src n k : ℕ)
    → k < n
    → (if in_block dst n (dst + k) then m (src + (dst + k - dst)) else m (dst + k)) ≡ m (src + k)
copied_at m dst src n k l = ground arith ∙ ap m {x = src + (dst + k - dst)} (omega arith)

not_copied :
    (m : Memory) (dst src n size a : ℕ)
    → n < size
    → in_block dst size a ≡ false
    → (if in_block dst n a then m (src + (a - dst)) else m a) ≡ m a
not_copied m dst src n size a fits out = ground arith

-- strlcpy of a string into a block of `size` bytes apart from it returns the length of the string and
-- leaves its first size - 1 characters at the destination, terminated; nothing outside the block
-- changes. The size is not 0.
pub strlcpy-Text :
    (fuel : ℕ) (m : Memory) (dst src size : ℕ) (xs : List ℕ)
    → Text m src xs
    → dst ≢ null
    → src ≢ null
    → 0 < size
    → length xs < fuel
    → (dst + size ≤ src) ⊎ (src + length xs < dst)
    → (g : Memory) × (strlcpy fuel m dst src size ≡ ok (g, length xs))
      × Text g dst (take (size - 1) xs)
      × ((a : ℕ) → in_block dst size a ≡ false → g a ≡ m a)
unfolding strlcpy
strlcpy-Text fuel m dst src size xs t nd ns pos h apart =
    let n = fitting (length xs) (size - 1) in
    let short : n ≤ length xs = ground arith in
    let fits : n < size = ground arith in
    let (g, run, copied) = memcpy-IsCopy m dst src n nd ns (omega (arith, apart, short, fits)) in
    let rest : ℕ → Outcome (Memory × ℕ) = λ src_len.
      let dst_len = fitting src_len (size - 1) in
      if ltb 0 size
      then (memcpy m dst src dst_len >>= λ (m', p). ok (poke m' (dst + dst_len) 0, src_len))
      else ok (m, src_len) in
    (
      poke g (dst + n) 0,
      ground (arith, ==_ne dst 0 nd, ==_ne src 0 ns)
          ∙ ap (λ o. o >>= rest) (strlen-Text fuel m src xs t ns h)
          ∙ ap
              (λ c.
                if c
                then (memcpy m dst src n >>= λ (m', p). ok (poke m' (dst + n) 0, length xs))
                else ok (m, length xs))
              (lt→ltb 0 size pos)
          ∙ ap (λ o. o >>= λ (m', p). ok (poke m' (dst + n) 0, length xs)) run,
      subst (Text (poke g (dst + n) 0) dst) (take-fitting (size - 1) xs) (
          Text-take n m (poke g (dst + n) 0) src dst xs t short
            (λ k l.
              ground (arith, ==_ne (dst + k) (dst + n) (λ e. omega (arith, e, l)))
              ∙ copied (dst + k)
              ∙ copied_at m dst src n k l)
            (ground arith)),
      λ a out.
          ground (arith, ==_ne a (dst + n) (λ e. ground (arith, e, out, fits)))
          ∙ copied a
          ∙ not_copied m dst src n size a fits out,
    )
