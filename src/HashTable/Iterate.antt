-- ===== src/HashTable/Iterate.antt =====
-- The walks of lib/kernel/hash.c over a whole table: the iterator, and hash_clear with its destructor.
use ee468_pintos_project.Prelude.{
  ℕ, zero, suc, ◌+◌, ◌-◌, ◌^◌, ◌≤◌, ◌<◌, ◌≡◌, ◌⊎◌, inl, inr, refl, sym, ap, ap₂, ◌∙◌, Bool, true,
  false, List, [], ◌∷◌, ◌++◌, length, Option, none, some, Outcome, ok, running, ◌>>=◌, arith, ==_ne,
  ℕ_discrete,
}
use ee468_pintos_project.Bits.Power.{bit_and-mask}
use ee468_pintos_project.HashTable.{
  Buckets, Hash, HashIterator, put_bucket, clear_buckets, hash_clear, hash_init, hash_destroy,
  apply_buckets, hash_apply, hash_first, next_in, hash_next, hash_cur, hash_find, find_elem,
  find_bucket,
}
use ee468_pintos_project.HashTable.Elements.{count, apply-put_before}
use ee468_pintos_project.HashTable.Find.{IsHash}

-- The elements that `while (hash_next (&i)) ... hash_cur (&i) ...` goes through, in order.
abbrev pub visited : Option ℕ → Outcome (List ℕ) → Outcome (List ℕ)
visited none rest = ok []
visited (some e) rest = rest >>= λ es. ok (e ∷ es)

pub iterate : (fuel : ℕ) → Hash → HashIterator → Outcome (List ℕ)
iterate zero h i = running
iterate (suc fuel) h i = visited (hash_cur (hash_next h i)) (iterate fuel h (hash_next h i))

-- One call of hash_next comes to the first element that is left, or to the end.
next_in_cases :
    (left : ℕ) (h : Hash) (k : ℕ) (l : List ℕ)
    → ((l ++ apply_buckets left (k + 1) h.buckets ≡ []) × ((next_in left h k l).elem ≡ none))
      ⊎ ((e k' left' : ℕ) × (l' : List ℕ) × (next_in left h k l
            ≡ record { bucket = k'; behind = l'; elem = some e })
          × (l ++ apply_buckets left (k + 1) h.buckets
              ≡ e ∷ (l' ++ apply_buckets left' (k' + 1) h.buckets))
          × (k' + left' ≡ k + left))
unfolding next_in
next_in_cases left h k (e ∷ es) = inr (e, k, left, es, refl, refl, refl)
next_in_cases zero h k [] = inl (refl, refl)
next_in_cases (suc left) h k [] =
    let next_bucket =
      ap (λ i. h.buckets (k + 1) ++ apply_buckets left i h.buckets) {x = suc (k + 1)}
        {y = k + 1 + 1} (omega arith) in
    elim (next_in_cases left h (k + 1) (h.buckets (k + 1))) [
      | inl (nothing, over) ↦ inl (next_bucket ∙ nothing, over)
      | inr (e, k', left', l', run, split, room) ↦
          inr (e, k', left', l', run, next_bucket ∙ split, omega (arith, room))
    ]

iterate_from :
    (fuel : ℕ) (h : Hash) (k left : ℕ) (l : List ℕ) (cur : Option ℕ)
    → k + left + 1 ≡ h.bucket_cnt
    → length (l ++ apply_buckets left (k + 1) h.buckets) < fuel
    → iterate fuel h (record { bucket = k; behind = l; elem = cur })
      ≡ ok (l ++ apply_buckets left (k + 1) h.buckets)
unfolding iterate hash_next
iterate_from zero h k left l cur n f = absurd (omega arith)
iterate_from (suc fuel) h k left l cur n f =
    let step : HashIterator → Outcome (List ℕ) = λ i. visited (hash_cur i) (iterate fuel h i) in
    let here =
      ap (λ m. step (next_in m h k l)) {x = h.bucket_cnt - 1 - k} {y = left} (omega arith) in
    elim (next_in_cases left h k l) [
      | inl (nothing, over) ↦
          here
          ∙ ap (λ o. visited o (iterate fuel h (next_in left h k l))) over
          ∙ ap ok (sym nothing)
      | inr (e, k', left', l', run, split, room) ↦
          here
          ∙ ap step run
          ∙ ap (visited (some e)) (
              iterate_from fuel h k' left' l' (some e) (omega (arith, room))
                (omega (arith, ap length split, f)))
          ∙ ap ok (sym split)
    ]

-- The iterator goes through the same elements as hash_apply, in the same order, and then gives null, so
-- that the loop of its idiom ends: the rounds are one more than there are elements. The table has a
-- bucket.
pub iterate-hash_apply :
    (fuel : ℕ) (h : Hash)
    → 0 < h.bucket_cnt
    → length (hash_apply h) < fuel
    → iterate fuel h (hash_first h) ≡ ok (hash_apply h)
iterate-hash_apply fuel h pos f =
    let all : h.buckets 0 ++ apply_buckets (h.bucket_cnt - 1) (0 + 1) h.buckets ≡ hash_apply h =
      ap (λ n. apply_buckets n 0 h.buckets) {x = suc (h.bucket_cnt - 1)} (omega arith) in
    iterate_from fuel h 0 (h.bucket_cnt - 1) (h.buckets 0) none (omega arith)
      (omega (arith, ap length all, f))
    ∙ ap ok all

cleared_calls : (n i : ℕ) (b : Buckets) → (clear_buckets n i b).1 ≡ apply_buckets n i b
unfolding clear_buckets
cleared_calls zero i b = refl
cleared_calls (suc n) i b =
    ap (◌++◌ (b i)) (
      cleared_calls n (suc i) (put_bucket b i []) ∙ apply-put_before n (suc i) i b [] (omega arith))

cleared_before : (n i j : ℕ) (b : Buckets) → j < i → (clear_buckets n i b).0 j ≡ b j
unfolding clear_buckets
cleared_before zero i j b h = refl
cleared_before (suc n) i j b h =
    cleared_before n (suc i) j (put_bucket b i []) (omega arith)
    ∙ ground (arith, ==_ne j i (λ e. omega arith))

cleared : (n i j : ℕ) (b : Buckets) → i ≤ j → j < i + n → (clear_buckets n i b).0 j ≡ []
unfolding clear_buckets
cleared zero i j b lo hi = absurd (omega arith)
cleared (suc n) i j b lo hi = elim (ℕ_discrete j i) [
  | yes e ↦ cleared_before n (suc i) j (put_bucket b i []) (omega arith) ∙ ground (arith, e)
  | no ne ↦ cleared n (suc i) j (put_bucket b i []) (omega arith) (omega arith)
]

apply_empty :
    (n i : ℕ) (b : Buckets) → ((j : ℕ) → i ≤ j → j < i + n → b j ≡ []) → apply_buckets n i b ≡ []
apply_empty zero i b h = refl
apply_empty (suc n) i b h =
    ap₂ ◌++◌ (h i (omega arith) (omega arith))
      (apply_empty n (suc i) b (λ j p q. h j (omega arith) (omega arith)))

hash_clear-apply : (h : Hash) → hash_apply (hash_clear h).0 ≡ []
unfolding hash_clear
hash_clear-apply h =
    apply_empty h.bucket_cnt 0 (clear_buckets h.bucket_cnt 0 h.buckets).0
      (λ j p q. cleared h.bucket_cnt 0 j h.buckets p q)

module _ (hash : ℕ → ℕ) (less : ℕ → ℕ → Bool) where
  empty-IsHash :
      (h : Hash) (k : ℕ)
      → h.bucket_cnt ≡ 2 ^ k
      → 4 ≤ h.bucket_cnt
      → IsHash hash less (hash_clear h).0
  unfolding hash_clear
  empty-IsHash h k p four =
      let none_left = hash_clear-apply h in
      record {
        own = λ i a lt ne.
            ap (count a) (cleared h.bucket_cnt 0 i h.buckets (omega arith) (omega (arith, lt)));
        once = λ a. omega (arith, ap (count a) none_left);
        apart = λ a b p q eq. absurd (p (ap (count a) none_left));
        sized = sym (ap length none_left);
        small = omega arith;
        log = k;
        power = p;
        four = four;
      }

  -- hash_clear leaves an empty table of the same size, in which nothing is found; it calls the
  -- destructor once on every element, in the order of hash_apply, and hash_destroy does so too.
  pub hash_clear_empties :
      (h : Hash)
      → IsHash hash less h
      → ((hash_clear h).1 ≡ hash_apply h)
        × (hash_destroy true h ≡ hash_apply h)
        × IsHash hash less (hash_clear h).0
        × (hash_apply (hash_clear h).0 ≡ [])
        × ((e : ℕ) → hash_find hash less (hash_clear h).0 e ≡ none)
  unfolding hash_clear hash_destroy hash_find
  hash_clear_empties h v = (
    cleared_calls h.bucket_cnt 0 h.buckets,
    cleared_calls h.bucket_cnt 0 h.buckets,
    empty-IsHash h v.log v.power v.four,
    hash_clear-apply h,
    λ e.
        let i = find_bucket hash less h.bucket_cnt e in
        ap (λ l. find_elem hash less l e)
          (cleared h.bucket_cnt 0 i h.buckets (omega arith)
            (omega (arith, bit_and-mask (hash e) h.bucket_cnt (omega (arith, v.four))))),
  )

  -- hash_init, if malloc gives memory, returns true and leaves an empty table, whatever the memory
  -- held; without memory it returns false.
  pub hash_init_empty :
      (uninitialized : Buckets)
      → let h = (hash_init true uninitialized).0 in
        ((hash_init true uninitialized).1 ≡ true)
        × IsHash hash less h
        × (hash_apply h ≡ [])
        × ((hash_init false uninitialized).1 ≡ false)
  unfolding hash_init hash_clear
  hash_init_empty uninitialized =
      let h : Hash = record { elem_cnt = 0; bucket_cnt = 4; buckets = uninitialized } in
      (refl, empty-IsHash h 2 refl (omega arith), hash_clear-apply h, refl)
