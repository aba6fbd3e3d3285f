-- ===== src/Bitmap/Scan.antt =====
-- The search of lib/kernel/bitmap.c for a group of equal bits, and the allocation built on it.
use ee468_pintos_project.Prelude.{
  ℕ, zero, suc, ◌+◌, ◌-◌, ◌<◌, ◌≤◌, ◌≡◌, refl, ap, sym, subst, ◌∙◌, Bool, true, false, not, leb,
  ◌==◌, ok, arith, le→leb, Bool-cases, ◌⊎◌, inl, inr, Outcome,
}
use ee468_pintos_project.Bitmap.{
  Bitmap, bit, IsBitmap, scan_loop, bitmap_scan, bitmap_scan_and_flip, bitmap_error,
  bitmap_contains,
}
use ee468_pintos_project.Bitmap.Range.{
  Filled, HasRun, HasBit, contains-Answers, set_multiple-Filled,
}

-- No group of `cnt` bits at the value `v` starts at one of the `n` places from `start` on: each has
-- a bit that differs.
abbrev pub NoRun : Bitmap → ℕ → ℕ → ℕ → Bool → Type 0
NoRun b start n cnt v = (j : ℕ) → j < n → HasBit b (start + j) cnt (not v)

NoRun-cons :
    (b : Bitmap) (i n cnt : ℕ) (v : Bool)
    → HasBit b i cnt (not v)
    → NoRun b (i + 1) n cnt v
    → NoRun b i (suc n) cnt v
NoRun-cons b i n cnt v h r zero l = subst (λ k. HasBit b k cnt (not v)) (omega arith) h
NoRun-cons b i n cnt v h r (suc j) l =
    subst (λ k. HasBit b k cnt (not v)) (omega arith) (r j (omega arith))

-- The first of the `n` places from `start` on where a group starts, or the mark that there is none.
pub data FirstRun (b : Bitmap) (start n cnt : ℕ) (v : Bool) (r : Outcome ℕ) : Type 0 where
  found :
      (k : ℕ)
      → k < n
      → HasRun b (start + k) cnt v
      → NoRun b start k cnt v
      → r ≡ ok (start + k)
      → FirstRun b start n cnt v r
  missing : NoRun b start n cnt v → r ≡ ok bitmap_error → FirstRun b start n cnt v r

FirstRun-later :
    (b : Bitmap) (start n cnt : ℕ) (v : Bool) {r : Outcome ℕ}
    → HasBit b start cnt (not v)
    → FirstRun b (start + 1) n cnt v r
    → FirstRun b start (suc n) cnt v r
FirstRun-later b start n cnt v h (found k l run none e) =
    found (suc k) (omega arith) (subst (λ j. HasRun b j cnt v) (omega arith) run)
      (NoRun-cons b start k cnt v h none) (e ∙ ap ok (omega arith))
FirstRun-later b start n cnt v h (missing none e) = missing (NoRun-cons b start n cnt v h none) e

module _ (b : Bitmap) (cnt : ℕ) (v : Bool) (rounds i : ℕ) where
  scan_loop-stop :
      bitmap_contains b i cnt (not v) ≡ ok false → scan_loop b cnt v (suc rounds) i ≡ ok i
  unfolding scan_loop
  scan_loop-stop e = rw e

  scan_loop-go :
      bitmap_contains b i cnt (not v) ≡ ok true
      → scan_loop b cnt v (suc rounds) i ≡ scan_loop b cnt v rounds (i + 1)
  unfolding scan_loop
  scan_loop-go e = rw e

not-not : (v : Bool) → not (not v) ≡ v
not-not v = ground arith

scan_loop-FirstRun :
    (b : Bitmap) (w : IsBitmap b) (cnt : ℕ) (v : Bool) (rounds i : ℕ)
    → (rounds ≡ 0) ⊎ (i + rounds + cnt ≤ b.bit_cnt + 1)
    → FirstRun b i rounds cnt v (scan_loop b cnt v rounds i)
unfolding scan_loop
scan_loop-FirstRun b w cnt v zero i h = missing (λ j l. absurd (omega arith)) refl
scan_loop-FirstRun b w cnt v (suc rounds) i h =
    elim (contains-Answers b w i cnt (omega arith) (not v)) [
      | inl (e, bad) ↦ FirstRun-later b i rounds cnt v bad (
          subst (FirstRun b (i + 1) rounds cnt v) (sym (scan_loop-go b cnt v rounds i e))
            (scan_loop-FirstRun b w cnt v rounds (i + 1) (omega arith)))
      | inr (e, run) ↦
          found 0 (omega arith)
            (λ k l. subst (λ j. bit b j ≡ v) (omega arith) (run k l ∙ not-not v))
            (λ j l. absurd (omega arith)) (scan_loop-stop b cnt v rounds i e ∙ ap ok (omega arith))
    ]

module _ (b : Bitmap) (w : IsBitmap b) (start cnt : ℕ) (v : Bool) where
  -- The number of places from `start` on where a group of `cnt` bits fits.
  abbrev pub places : ℕ
  places = b.bit_cnt + 1 - cnt - start

  scan_loop-places :
      (rounds : ℕ)
      → rounds ≡ places
      → cnt ≤ b.bit_cnt
      → FirstRun b start places cnt v (scan_loop b cnt v rounds start)
  scan_loop-places rounds e h =
      subst (λ n. FirstRun b start n cnt v (scan_loop b cnt v rounds start)) e
        (scan_loop-FirstRun b w cnt v rounds start (ground arith))

  -- `bitmap_scan` finds the first group of `cnt` bits at the value from `start` on; it answers
  -- BITMAP_ERROR exactly if there is none.
  pub scan-FirstRun : start ≤ b.bit_cnt → FirstRun b start places cnt v (bitmap_scan b start cnt v)
  unfolding bitmap_scan
  scan-FirstRun h = elim (Bool-cases (leb cnt b.bit_cnt)) [
    | inl fits ↦
        rw (le→leb start b.bit_cnt h, fits)
          (scan_loop-places (b.bit_cnt - cnt + 1 - start) (ground arith) (ground arith))
    | inr big ↦ rw (le→leb start b.bit_cnt h, big) (missing (λ j l. absurd (ground arith)) refl)
  ]

  -- What `bitmap_scan_and_flip` does: it takes the first group, or it changes nothing.
  pub data Taken : Outcome (Bitmap × ℕ) → Type 0 where
    taken :
        {r : Outcome (Bitmap × ℕ)} (c : Bitmap) (k : ℕ)
        → k < places
        → HasRun b (start + k) cnt v
        → NoRun b start k cnt v
        → Filled b (start + k) cnt (not v) c
        → r ≡ ok (c, start + k)
        → Taken r
    full :
        {r : Outcome (Bitmap × ℕ)} → NoRun b start places cnt v → r ≡ ok (b, bitmap_error) → Taken r

  pub scan_and_flip-Taken : start ≤ b.bit_cnt → Taken (bitmap_scan_and_flip b start cnt v)
  unfolding bitmap_scan_and_flip
  scan_and_flip-Taken h = elim (scan-FirstRun h) [
    | found k l run none e ↦
        let (c, e', filled) = set_multiple-Filled b w (start + k) cnt (omega arith) (not v) in
        let far : (start + k == bitmap_error) ≡ false = ground (arith, w.small) in
        taken c k l run none filled (rw (e, far, e'))
    | missing none e ↦ full none (rw e)
  ]

-- The search from the first bit, as the allocators make it.
pub data TakenFirst (b : Bitmap) (cnt : ℕ) (v : Bool) (r : Outcome (Bitmap × ℕ)) : Type 0 where
  first :
      (c : Bitmap) (k : ℕ)
      → k + cnt ≤ b.bit_cnt
      → HasRun b k cnt v
      → NoRun b 0 k cnt v
      → Filled b k cnt (not v) c
      → r ≡ ok (c, k)
      → TakenFirst b cnt v r
  none_left :
      NoRun b 0 (b.bit_cnt + 1 - cnt) cnt v → r ≡ ok (b, bitmap_error) → TakenFirst b cnt v r

zero_add : (k : ℕ) → 0 + k ≡ k
zero_add k = omega arith

-- bitmap_scan_and_flip from the first bit on takes the first group of `cnt` bits at the value: it
-- flips just these bits and returns where they start. Only if there is no such group, it changes
-- nothing and returns BITMAP_ERROR.
pub scan_and_flip-TakenFirst :
    (b : Bitmap) (w : IsBitmap b) (cnt : ℕ) (v : Bool)
    → TakenFirst b cnt v (bitmap_scan_and_flip b 0 cnt v)
scan_and_flip-TakenFirst b w cnt v = elim (scan_and_flip-Taken b w 0 cnt v (omega arith)) [
  | taken c k l run none filled e ↦
      first c k (omega arith) (subst (λ j. HasRun b j cnt v) (zero_add k) run) none
        (subst (λ j. Filled b j cnt (not v) c) (zero_add k) filled)
        (e ∙ ap (λ j. ok (c, j)) (omega arith))
  | full none e ↦ none_left (λ j l. none j (omega arith)) e
]
