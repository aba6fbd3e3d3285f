-- ===== src/CString/Text.antt =====
-- What a terminated string holds, and what strlen, strcmp, strchr and hash_string of lib/string.c and
-- lib/kernel/hash.c answer for it.
use ee468_pintos_project.Prelude.{
  ℕ, zero, suc, ◌+◌, ◌-◌, ◌%◌, ◌<◌, ◌≡◌, ◌≢◌, sym, ap, ◌∙◌, not, ◌||◌, ltb, ◌==◌, if◌then◌else◌,
  List, [], ◌∷◌, length, ok, ◌>>=◌, arith, ==_ne, ℕ_discrete,
}
use native.Mathlib.Nat.{add-zero}
use ee468_pintos_project.Memory.{Memory, null, Sign, negative, equal, positive}
use ee468_pintos_project.KernelList.Chain.{mem}
use ee468_pintos_project.CString.{
  end_from, strlen, strcmp_loop, strcmp, strchr_loop, strchr, fnv, hash_bytes_loop, hash_bytes,
  hash_string_loop, hash_string,
}

-- The characters `xs`, none of them '\0', and a terminator stand at the address `s`.
abbrev pub Text : Memory → ℕ → List ℕ → Type 0
Text m s [] = m s ≡ 0
Text m s (x ∷ xs) = (m s ≡ x) × (0 < x) × (x < 256) × Text m (s + 1) xs

pub end_from-Text :
    (fuel : ℕ) (m : Memory) (s : ℕ) (xs : List ℕ)
    → Text m s xs
    → length xs < fuel
    → end_from fuel m s ≡ ok (s + length xs)
unfolding end_from
end_from-Text zero m s xs t h = absurd (omega arith)
end_from-Text (suc fuel) m s [] t h = ground (arith, t, add-zero s)
end_from-Text (suc fuel) m s (x ∷ xs) t h =
    ground (arith, ==_ne (m s) 0 (λ e. omega (arith, t.0, t.1)))
    ∙ end_from-Text fuel m (s + 1) xs t.3 (omega arith)
    ∙ ap ok (omega arith)

pub strlen-Text :
    (fuel : ℕ) (m : Memory) (s : ℕ) (xs : List ℕ)
    → Text m s xs
    → s ≢ null
    → length xs < fuel
    → strlen fuel m s ≡ ok (length xs)
unfolding strlen
strlen-Text fuel m s xs t ne h =
    ground (arith, ==_ne s 0 ne)
    ∙ ap (λ o. o >>= λ p. ok (p - s)) (end_from-Text fuel m s xs t h)
    ∙ ap ok (omega arith)

-- The order of two strings, by the first characters that differ.
abbrev pub in_order : List ℕ → List ℕ → Sign
in_order [] [] = equal
in_order [] (y ∷ ys) = negative
in_order (x ∷ xs) [] = positive
in_order (x ∷ xs) (y ∷ ys) =
    if x == y then in_order xs ys else if ltb x y then negative else positive

strcmp_loop-Text :
    (fuel : ℕ) (m : Memory) (a b : ℕ) (xs ys : List ℕ)
    → Text m a xs
    → Text m b ys
    → length xs < fuel
    → strcmp_loop fuel m a b ≡ ok (in_order xs ys)
unfolding strcmp_loop
strcmp_loop-Text zero m a b xs ys t u h = absurd (omega arith)
strcmp_loop-Text (suc fuel) m a b [] [] t u h = ground arith
strcmp_loop-Text (suc fuel) m a b [] (y ∷ ys) t u h = ground (arith, t, u.0, u.1)
strcmp_loop-Text (suc fuel) m a b (x ∷ xs) [] t u h = ground (arith, t.0, t.1, u)
strcmp_loop-Text (suc fuel) m a b (x ∷ xs) (y ∷ ys) t u h = elim (ℕ_discrete x y) [
  | yes e ↦
      ground (arith, t.0, t.1, u.0, e)
      ∙ strcmp_loop-Text fuel m (a + 1) (b + 1) xs ys t.3 u.3 (omega arith)
      ∙ ground (arith, e)
  | no ne ↦ ground (arith, t.0, t.1, u.0, u.1, ne)
]

-- strcmp of two strings ends, and its sign is that of the order of their characters: of the first ones
-- that differ, or the shorter string first.
pub strcmp-in_order :
    (fuel : ℕ) (m : Memory) (a b : ℕ) (xs ys : List ℕ)
    → Text m a xs
    → Text m b ys
    → a ≢ null
    → b ≢ null
    → length xs < fuel
    → strcmp fuel m a b ≡ ok (in_order xs ys)
unfolding strcmp
strcmp-in_order fuel m a b xs ys t u na nb h =
    ground (arith, ==_ne a 0 na, ==_ne b 0 nb) ∙ strcmp_loop-Text fuel m a b xs ys t u h

strchr_loop-Text :
    (fuel : ℕ) (m : Memory) (d c : ℕ) (xs : List ℕ)
    → Text m d xs
    → d ≢ null
    → length xs < fuel
    → (p : ℕ) × (strchr_loop fuel m d c ≡ ok p) × ((p == null) ≡ not ((c == 0) || mem c xs))
unfolding strchr_loop
strchr_loop-Text zero m d c xs t ne h = absurd (omega arith)
strchr_loop-Text (suc fuel) m d c [] t ne h = elim (ℕ_discrete c 0) [
  | yes e ↦ (d, ground (arith, t, e), ground (arith, e, ==_ne d 0 ne))
  | no nc ↦ (null, ground (arith, t, ==_ne c 0 nc), ground (arith, ==_ne c 0 nc))
]
strchr_loop-Text (suc fuel) m d c (x ∷ xs) t ne h = elim (ℕ_discrete x c) [
  | yes e ↦ (d, ground (arith, t.0, e), ground (arith, e, ==_ne d 0 ne))
  | no nx ↦
      let (p, run, found) =
        strchr_loop-Text fuel m (d + 1) c xs t.3 (λ z. omega arith) (omega arith) in
      (p, ground (arith, t.0, t.1, nx) ∙ run, found ∙ ground (arith, ==_ne c x (λ e. nx (sym e))))
]

-- strchr of a string finds nothing exactly if the character is neither in it nor '\0'.
pub strchr-Text :
    (fuel : ℕ) (m : Memory) (d c : ℕ) (xs : List ℕ)
    → Text m d xs
    → d ≢ null
    → c < 256
    → length xs < fuel
    → (p : ℕ) × (strchr fuel m d c ≡ ok p) × ((p == null) ≡ not ((c == 0) || mem c xs))
unfolding strchr
strchr-Text fuel m d c xs t ne small h =
    let (p, run, found) = strchr_loop-Text fuel m d c xs t ne h in
    (
      p,
      ground (arith, ==_ne d 0 ne)
          ∙ ap (strchr_loop fuel m d) {x = c % 256} {y = c} (omega arith)
          ∙ run,
      found,
    )

hash_loops :
    (fuel : ℕ) (m : Memory) (s hash : ℕ) (xs : List ℕ)
    → Text m s xs
    → length xs < fuel
    → hash_string_loop fuel m s hash ≡ ok (hash_bytes_loop (length xs) m s hash)
unfolding hash_string_loop hash_bytes_loop
hash_loops zero m s hash xs t h = absurd (omega arith)
hash_loops (suc fuel) m s hash [] t h = ground (arith, t)
hash_loops (suc fuel) m s hash (x ∷ xs) t h =
    ground (arith, ==_ne (m s) 0 (λ e. omega (arith, t.0, t.1)))
    ∙ hash_loops fuel m (s + 1) (fnv hash (m s)) xs t.3 (omega arith)

-- hash_string of a string ends with the value of hash_bytes of its characters, as many as strlen counts.
pub hash_string-hash_bytes :
    (fuel : ℕ) (m : Memory) (s : ℕ) (xs : List ℕ)
    → Text m s xs
    → s ≢ null
    → length xs < fuel
    → hash_string fuel m s ≡ (strlen fuel m s >>= λ size. hash_bytes m s size)
unfolding hash_string hash_bytes
hash_string-hash_bytes fuel m s xs t ne h =
    ground (arith, ==_ne s 0 ne)
    ∙ hash_loops fuel m s 2166136261 xs t h
    ∙ sym (ground (arith, ==_ne s 0 ne))
    ∙ ap (λ o. o >>= λ size. hash_bytes m s size) (sym (strlen-Text fuel m s xs t ne h))
