-- ===== src/HashTable/Rehash.antt =====
-- The number of buckets that rehash of lib/kernel/hash.c computes, and the table that it leaves.
use native.Mathlib.Nat.{two-pow-succ}
use ee468_pintos_project.Prelude.{
  ℕ, zero, suc, ◌+◌, ◌*◌, ◌/◌, ◌^◌, ◌≤◌, ◌<◌, ◌≡◌, ◌≢◌, inl, inr, refl, sym, ap, ◌∙◌, Bool, true,
  false, ltb, ◌==◌, if◌then◌else◌, List, [], ◌∷◌, Outcome, ok, ◌>>=◌, arith, max, ==_ne, ℕ_discrete,
  Bool-cases,
}
use ee468_pintos_project.Bits.{pow-pos}
use ee468_pintos_project.Bits.Power.{bit_and-mask, turn_off_cases}
use ee468_pintos_project.HashTable.{
  Buckets, Hash, find_bucket, push_front, hash_find, hash_apply, power_loop, new_bucket_cnt,
  is_power_of_2, turn_off_least_1bit, move_bucket, move_buckets, resize, rehash,
}
use ee468_pintos_project.HashTable.Elements.{
  weigh, is, one, count, weight, weight-push, weight-nil, weight_step, weigh-one, is-ne,
}
use ee468_pintos_project.HashTable.Find.{IsHashing, IsHash, hash_find-same}

-- The power of two at or below a number.
log_below : (n : ℕ) → 1 ≤ n → (k : ℕ) × (2 ^ k ≤ n) × (n < 2 ^ suc k)
log_below zero h = absurd (omega arith)
log_below (suc zero) h = (0, omega arith, omega arith)
log_below (suc (suc n)) h =
    let (k, lo, hi) = log_below (suc n) (omega arith) in
    elim (ℕ_discrete (suc (suc n)) (2 ^ suc k)) [
      | yes e ↦ (suc k, omega (arith, e), omega (arith, e, two-pow-succ (suc k), pow-pos (suc k)))
      | no ne ↦ (k, omega (arith, lo), omega (arith, hi, ne))
    ]

power_branch : (fuel n : ℕ) → Bool → Outcome ℕ
power_branch fuel n c = elim c [ true ↦ ok n | false ↦ power_loop fuel (turn_off_least_1bit n) ]

power_loop_ends :
    (fuel k n : ℕ) → 2 ^ k ≤ n → n < 2 ^ suc k → n < fuel → power_loop fuel n ≡ ok (2 ^ k)
unfolding power_loop power_branch
power_loop_ends zero k n lo hi f = absurd (omega arith)
power_loop_ends (suc fuel) k n lo hi f = elim (turn_off_cases k n lo hi) [
  | inl (e, z) ↦
      let yes_power : is_power_of_2 n ≡ true =
        ground (arith, z, ==_ne n 0 (λ n0. omega (arith, n0, pow-pos k))) in
      ap (power_branch fuel n) yes_power ∙ ap ok e
  | inr (lo', less) ↦
      let no_power : is_power_of_2 n ≡ false =
        ground (arith, ==_ne (turn_off_least_1bit n) 0 (λ t0. omega (arith, t0, lo', pow-pos k))) in
      ap (power_branch fuel n) no_power
      ∙ power_loop_ends fuel k (turn_off_least_1bit n) lo' (omega (arith, less, hi))
          (omega (arith, less))
]

four_of_power : (k : ℕ) → 2 < 2 ^ k → 4 ≤ 2 ^ k
four_of_power zero h = absurd (omega arith)
four_of_power (suc zero) h = absurd (omega arith)
four_of_power (suc (suc k)) h = omega (arith, two-pow-succ (suc k), two-pow-succ k, pow-pos k)

-- The loop of rehash that looks for a power of two ends, within one round more than the number that it
-- starts from: the number of buckets wanted is the greatest power of two up to half the number of
-- elements, or four if that is less than four.
pub new_bucket_cnt_power :
    (fuel elem_cnt : ℕ)
    → max 4 (elem_cnt / 2) < fuel
    → (k : ℕ) × (new_bucket_cnt fuel elem_cnt ≡ ok (2 ^ k))
      × (4 ≤ 2 ^ k)
      × (2 ^ k ≤ max 4 (elem_cnt / 2))
      × (elem_cnt / 2 < 2 ^ suc k)
unfolding new_bucket_cnt
new_bucket_cnt_power fuel elem_cnt h =
    let start = if ltb (elem_cnt / 2) 4 then 4 else elem_cnt / 2 in
    let same : start ≡ max 4 (elem_cnt / 2) = ground arith in
    let (k, lo, hi) = log_below (max 4 (elem_cnt / 2)) (omega arith) in
    (
      k,
      ap (power_loop fuel) same ∙ power_loop_ends fuel k (max 4 (elem_cnt / 2)) lo hi h,
      four_of_power k (omega (arith, hi)),
      lo,
      omega (arith, hi),
    )

module _ (hash : ℕ → ℕ) (less : ℕ → ℕ → Bool) where
  -- Every element stands in its bucket, among `n` buckets.
  abbrev Placed : ℕ → Buckets → Type 0
  Placed n b = (i a : ℕ) → i < n → find_bucket hash less n a ≢ i → count a (b i) ≡ 0

  push-Placed :
      (n e : ℕ) (b : Buckets) → Placed n b → Placed n (push_front b (find_bucket hash less n e) e)
  push-Placed n e b p i a h ne = elim (ℕ_discrete i (find_bucket hash less n e)) [
    | yes here ↦
        ap (count a) {y = e ∷ b i} (ground (arith, here))
        ∙ omega
            (arith, is-ne a e (λ ae. ne (ap (find_bucket hash less n) ae ∙ sym here)), p i a h ne)
    | no other ↦ ap (count a) {y = b i} (ground (arith, ==_ne i _ other)) ∙ p i a h ne
  ]

  module _ (n : ℕ) (pos : 0 < n) where
    move_bucket-Placed :
        (es : List ℕ) (b : Buckets) → Placed n b → Placed n (move_bucket hash less n es b)
    unfolding move_bucket
    move_bucket-Placed [] b p = p
    move_bucket-Placed (e ∷ es) b p =
        move_bucket-Placed es (push_front b (find_bucket hash less n e) e) (push-Placed n e b p)

    weight-move_bucket :
        (w : ℕ → ℕ) (es : List ℕ) (b : Buckets)
        → weight w n 0 (move_bucket hash less n es b) ≡ weigh w es + weight w n 0 b
    unfolding move_bucket
    weight-move_bucket w [] b = omega arith
    weight-move_bucket w (e ∷ es) b =
        let i = find_bucket hash less n e in
        omega (
          arith,
          weight-move_bucket w es (push_front b i e),
          weight-push w n 0 i e b (omega arith) (omega (arith, bit_and-mask (hash e) n pos)),
        )

    move_buckets-Placed :
        (cnt i : ℕ) (old b : Buckets) → Placed n b → Placed n (move_buckets hash less n cnt i old b)
    unfolding move_buckets
    move_buckets-Placed zero i old b p = p
    move_buckets-Placed (suc cnt) i old b p =
        move_buckets-Placed cnt (suc i) old (move_bucket hash less n (old i) b)
          (move_bucket-Placed (old i) b p)

    weight-move_buckets :
        (w : ℕ → ℕ) (cnt i : ℕ) (old b : Buckets)
        → weight w n 0 (move_buckets hash less n cnt i old b) ≡ weight w cnt i old + weight w n 0 b
    unfolding move_buckets
    weight-move_buckets w zero i old b = omega arith
    weight-move_buckets w (suc cnt) i old b = omega (
      arith,
      weight-move_buckets w cnt (suc i) old (move_bucket hash less n (old i) b),
      weight-move_bucket w (old i) b,
      weight_step w cnt i old,
    )

    -- The elements stay the same, whatever is added up of them.
    pub weight-resize :
        (w : ℕ → ℕ) (h : Hash)
        → weigh w (hash_apply (resize hash less h n)) ≡ weigh w (hash_apply h)
    unfolding resize
    weight-resize w h =
        omega (arith, weight-move_buckets w h.bucket_cnt 0 h.buckets (λ i. []), weight-nil w n 0)

    resize-Placed : (h : Hash) → Placed n (resize hash less h n).buckets
    unfolding resize
    resize-Placed h = move_buckets-Placed h.bucket_cnt 0 h.buckets (λ i. []) (λ i a lt ne. refl)

  resize-elem_cnt : (h : Hash) (n : ℕ) → (resize hash less h n).elem_cnt ≡ h.elem_cnt
  unfolding resize
  resize-elem_cnt h n = refl

  resize-bucket_cnt : (h : Hash) (n : ℕ) → (resize hash less h n).bucket_cnt ≡ n
  unfolding resize
  resize-bucket_cnt h n = refl

  pub resize-IsHash :
      (h : Hash) (k : ℕ)
      → 4 ≤ 2 ^ k
      → IsHash hash less h
      → IsHash hash less (resize hash less h (2 ^ k))
  resize-IsHash h k four v =
      let pos : 0 < 2 ^ k = omega (arith, four) in
      let kept = λ (a : ℕ). weight-resize (2 ^ k) pos (is a) h in
      let total = weight-resize (2 ^ k) pos one h in
      record {
        own = λ i a. (unfold resize in resize-Placed (2 ^ k) pos h i a);
        once = λ a. omega (arith, kept a, v.once a);
        apart = λ a b p q. v.apart a b (λ z. p (kept a ∙ z)) (λ z. q (kept b ∙ z));
        sized = omega (
          arith,
          resize-elem_cnt h (2 ^ k),
          v.sized,
          total,
          weigh-one (hash_apply h),
          weigh-one (hash_apply (resize hash less h (2 ^ k))),
        );
        small = omega (arith, resize-elem_cnt h (2 ^ k), v.small);
        log = k;
        power = resize-bucket_cnt h (2 ^ k);
        four = omega (arith, resize-bucket_cnt h (2 ^ k), four);
      }

  -- rehash returns, whether or not malloc gives memory: the table keeps its elements, every hash_find
  -- finds what it found, and the invariant is kept. With memory the number of buckets is then the
  -- greatest power of two up to half the number of elements, or four if that is less than four.
  pub rehash_keeps :
      (fuel : ℕ) (memory : Bool) (h : Hash)
      → IsHashing hash less
      → IsHash hash less h
      → max 4 (h.elem_cnt / 2) < fuel
      → (h' : Hash) × (rehash hash less fuel memory h ≡ ok h')
        × IsHash hash less h'
        × (h'.elem_cnt ≡ h.elem_cnt)
        × ((a : ℕ) → count a (hash_apply h') ≡ count a (hash_apply h))
        × ((e : ℕ) → hash_find hash less h' e ≡ hash_find hash less h e)
        × (memory ≡ true
            → (h'.bucket_cnt ≤ max 4 (h.elem_cnt / 2)) × (h.elem_cnt / 2 < 2 * h'.bucket_cnt))
  unfolding rehash
  rehash_keeps fuel memory h f v enough =
      let (k, r, four, le, gt) = new_bucket_cnt_power fuel h.elem_cnt enough in
      let branch =
        λ (n : ℕ). if n == h.bucket_cnt then h else if memory then resize hash less h n else h in
      let run = ap (λ o. o >>= λ n. ok (branch n)) r in
      let pos : 0 < 2 ^ k = omega (arith, four) in
      elim (ℕ_discrete (2 ^ k) h.bucket_cnt) [
        | yes same ↦ (
          h,
          run ∙ ap ok (ground (arith, same)),
          v,
          refl,
          λ a. refl,
          λ e. refl,
          λ m. (omega (arith, same, le), omega (arith, same, gt, two-pow-succ k)),
        )
        | no differ ↦ elim (Bool-cases memory) [
          | inl m ↦
              let w = resize-IsHash h k four v in
              let kept = λ (a : ℕ). weight-resize (2 ^ k) pos (is a) h in
              (
                resize hash less h (2 ^ k),
                run ∙ ap ok (ground (arith, m, ==_ne _ _ differ)),
                w,
                resize-elem_cnt h (2 ^ k),
                kept,
                λ e.
                    hash_find-same hash less f h (resize hash less h (2 ^ k)) e v w
                      (λ x eq. kept x),
                λ _. (
                  omega (arith, resize-bucket_cnt h (2 ^ k), le),
                  omega (arith, resize-bucket_cnt h (2 ^ k), gt, two-pow-succ k),
                ),
              )
          | inr m ↦ (h, run ∙ ap ok (ground (arith, m)), v, refl, λ a. refl, λ e. refl, λ t. cc)
        ]
      ]
