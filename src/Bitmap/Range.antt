-- ===== src/Bitmap/Range.antt =====
-- The loops of lib/kernel/bitmap.c over a range of bits.
use ee468_pintos_project.Prelude.{
  ℕ, zero, suc, ◌+◌, ◌^◌, ◌<◌, ◌≤◌, ◌≡◌, refl, subst, ◌∙◌, Bool, true, false, not, ◌&&◌, ltb, leb,
  if◌then◌else◌, ok, arith, same, le→leb, add32, add32_lem, Bool-cases, ◌⊎◌, inl, inr, Outcome,
}
use ee468_pintos_project.Bitmap.{
  Bitmap, bitmap_set, bitmap_test, bit, IsBitmap, set_loop, bitmap_set_multiple, bitmap_set_all,
  contains_loop, bitmap_contains, bitmap_all,
}
use ee468_pintos_project.Bitmap.Bit.{Wrote, set-Wrote, test-bit}

-- The `n` bits from `start` on.
abbrev pub within : ℕ → ℕ → ℕ → Bool
within start n j = leb start j && ltb j (start + n)

-- The bits of the range take the value, and all else stays.
pub record Filled (b : Bitmap) (start n : ℕ) (v : Bool) (c : Bitmap) : Type 0 where
  pub valid : IsBitmap c
  pub size : c.bit_cnt ≡ b.bit_cnt
  pub bits_at : (j : ℕ) → bit c j ≡ (if within start n j then v else bit b j)

Filled-step :
    (b b' c : Bitmap) (k n : ℕ) (v : Bool)
    → Wrote b k v b'
    → Filled b' (k + 1) n v c
    → Filled b k (suc n) v c
Filled-step b b' c k n v w f = record {
  valid = f.valid;
  size = omega (arith, f.size, w.size);
  bits_at = λ j. ground (arith, f.bits_at j, w.bits_at j);
}

set_loop-suc :
    (start i : ℕ) (v : Bool) (rounds : ℕ) (b b' : Bitmap) {r : Outcome Bitmap}
    → start + i < 2 ^ 32
    → bitmap_set b (start + i) v ≡ ok b'
    → set_loop start (i + 1) v rounds b' ≡ r
    → set_loop start i v (suc rounds) b ≡ r
unfolding set_loop
set_loop-suc start i v rounds b b' h e rest = rw (add32_lem start i h, e) rest

set_loop-Filled :
    (start i : ℕ) (v : Bool) (rounds : ℕ) (b : Bitmap)
    → IsBitmap b
    → start + i + rounds ≤ b.bit_cnt
    → (c : Bitmap) × (set_loop start i v rounds b ≡ ok c) × Filled b (start + i) rounds v c
unfolding set_loop
set_loop-Filled start i v zero b w h =
    (b, refl, record { valid = w; size = refl; bits_at = λ j. ground arith })
set_loop-Filled start i v (suc rounds) b w h =
    let (b', e, wrote) = set-Wrote b w (start + i) (omega arith) v in
    let (c, e', filled) =
      set_loop-Filled start (i + 1) v rounds b' wrote.valid (omega (arith, wrote.size)) in
    (
      c,
      set_loop-suc start i v rounds b b' (omega (arith, w.small)) e e',
      Filled-step b b' c (start + i) rounds v wrote
          (subst (λ k. Filled b' k rounds v c) (omega arith) filled),
    )

module _ (b : Bitmap) (w : IsBitmap b) (start cnt : ℕ) (inside : start + cnt ≤ b.bit_cnt) where
  pub assert_start : leb start b.bit_cnt ≡ true
  assert_start = le→leb _ _ (omega arith)

  pub assert_end : leb (add32 start cnt) b.bit_cnt ≡ true
  assert_end = le→leb _ _ (omega (arith, w.small))

  -- `bitmap_set_multiple` on a range inside the bitmap sets those bits and no other.
  pub set_multiple-Filled :
      (v : Bool)
      → (c : Bitmap) × (bitmap_set_multiple b start cnt v ≡ ok c) × Filled b start cnt v c
  unfolding bitmap_set_multiple
  set_multiple-Filled v =
      let (c, e, filled) = set_loop-Filled start 0 v cnt b w (omega arith) in
      (c, rw (assert_start, assert_end) e, subst (λ k. Filled b k cnt v c) (omega arith) filled)

module _ (b : Bitmap) (w : IsBitmap b) where
  -- `bitmap_set_all` succeeds and leaves every bit of the bitmap at the value.
  pub set_all-Filled :
      (v : Bool) → (c : Bitmap) × (bitmap_set_all b v ≡ ok c) × Filled b 0 b.bit_cnt v c
  unfolding bitmap_set_all
  set_all-Filled v = set_multiple-Filled b w 0 b.bit_cnt (omega arith) v

  pub test_at :
      (start i : ℕ) → start + i < b.bit_cnt → bitmap_test b (add32 start i) ≡ ok (bit b (start + i))
  test_at start i h = rw (add32_lem start i (omega (arith, w.small))) (test-bit b w (start + i) h)

-- The range holds the value throughout.
abbrev pub HasRun : Bitmap → ℕ → ℕ → Bool → Type 0
HasRun b start n v = (k : ℕ) → k < n → bit b (start + k) ≡ v

-- Some bit of the range is the value.
abbrev pub HasBit : Bitmap → ℕ → ℕ → Bool → Type 0
HasBit b start n v = (k : ℕ) × (k < n) × (bit b (start + k) ≡ v)

-- What `bitmap_contains` answers, in terms of the bits.
abbrev pub Answers : Bitmap → ℕ → ℕ → Bool → Outcome Bool → Type 0
Answers b start n v r =
    ((r ≡ ok true) × HasBit b start n v) ⊎ ((r ≡ ok false) × HasRun b start n (not v))

HasBit-later :
    (b : Bitmap) (s s' n : ℕ) (v : Bool) → s' ≡ s + 1 → HasBit b s' n v → HasBit b s (suc n) v
HasBit-later b s s' n v e (k, l, h) = (k + 1, omega arith, subst (λ j. bit b j ≡ v) (omega arith) h)

HasRun-cons :
    (b : Bitmap) (s s' n : ℕ) (v : Bool)
    → s' ≡ s + 1
    → bit b s ≡ v
    → HasRun b s' n v
    → HasRun b s (suc n) v
HasRun-cons b s s' n v e h r zero l = subst (λ j. bit b j ≡ v) (omega arith) h
HasRun-cons b s s' n v e h r (suc k) l = subst (λ j. bit b j ≡ v) (omega arith) (r k (omega arith))

module _ (b : Bitmap) (w : IsBitmap b) (start i : ℕ) (v : Bool) (rounds : ℕ) where
  contains_loop-suc :
      start + i < b.bit_cnt
      → contains_loop b start i v (suc rounds)
        ≡ (if same (bit b (start + i)) v then ok true else contains_loop b start (i + 1) v rounds)
  unfolding contains_loop
  contains_loop-suc h = rw (test_at b w start i h) (ground arith)

  Answers-suc :
      start + i < b.bit_cnt
      → Answers b (start + (i + 1)) rounds v (contains_loop b start (i + 1) v rounds)
      → Answers b (start + i) (suc rounds) v (contains_loop b start i v (suc rounds))
  Answers-suc h rest = elim (Bool-cases (same (bit b (start + i)) v)) [
    | inl hit ↦ inl (
      contains_loop-suc h ∙ rw hit refl,
      (0, omega arith, subst (λ j. bit b j ≡ v) {x = start + i} (omega arith) (ground arith)),
    )
    | inr miss ↦ elim rest [
      | inl (e, later) ↦ inl (
        contains_loop-suc h ∙ rw miss e,
        HasBit-later b (start + i) (start + (i + 1)) rounds v (omega arith) later,
      )
      | inr (e, run) ↦ inr (
        contains_loop-suc h ∙ rw miss e,
        HasRun-cons b (start + i) (start + (i + 1)) rounds (not v) (omega arith) (ground arith) run,
      )
    ]
  ]

contains_loop-Answers :
    (b : Bitmap) (w : IsBitmap b) (start i : ℕ) (v : Bool) (rounds : ℕ)
    → start + i + rounds ≤ b.bit_cnt
    → Answers b (start + i) rounds v (contains_loop b start i v rounds)
unfolding contains_loop
contains_loop-Answers b w start i v zero h = inr (refl, λ k l. absurd (omega arith))
contains_loop-Answers b w start i v (suc rounds) h =
    Answers-suc b w start i v rounds (omega arith)
      (contains_loop-Answers b w start (i + 1) v rounds (omega arith))

module _ (b : Bitmap) (w : IsBitmap b) (start cnt : ℕ) (inside : start + cnt ≤ b.bit_cnt) where
  -- `bitmap_contains` on a range inside the bitmap tells whether some bit of it is the value.
  pub contains-Answers : (v : Bool) → Answers b start cnt v (bitmap_contains b start cnt v)
  unfolding bitmap_contains
  contains-Answers v =
      rw (assert_start b w start cnt inside, assert_end b w start cnt inside)
        (subst (λ k. Answers b k cnt v (contains_loop b start 0 v cnt)) (omega arith)
          (contains_loop-Answers b w start 0 v cnt (omega arith)))

  -- `bitmap_all` answers, and its answer is true exactly if every bit of the range is set.
  pub all-HasRun :
      ((bitmap_all b start cnt ≡ ok true) × HasRun b start cnt true)
      ⊎ ((bitmap_all b start cnt ≡ ok false) × HasBit b start cnt false)
  unfolding bitmap_all
  all-HasRun = elim (contains-Answers false) [
    | inl (e, h) ↦ inr (rw e refl, h)
    | inr (e, h) ↦ inl (rw e refl, h)
  ]
