-- ===== src/HashTable/Elements.antt =====
-- The elements of a table of lib/kernel/hash.c, counted and weighed over all its buckets.
use ee468_pintos_project.Prelude.{
  ℕ, zero, suc, ◌+◌, ◌≤◌, ◌<◌, ◌≡◌, ◌≢◌, inl, inr, refl, sym, ap, ap₂, ◌∙◌, ◌==◌, if◌then◌else◌,
  List, [], ◌∷◌, ◌++◌, length, arith, ==_ne, ℕ_discrete, Bool-cases, ==_iff,
}
use ee468_pintos_project.HashTable.{Buckets, put_bucket, push_front, unlink, apply_buckets}

-- The sum of the weights of the elements of a list.
abbrev pub weigh : (ℕ → ℕ) → List ℕ → ℕ
weigh w [] = 0
weigh w (x ∷ xs) = w x + weigh w xs

abbrev pub is : ℕ → ℕ → ℕ
is a x = if a == x then 1 else 0

-- How often `a` stands in a list.
abbrev pub count : ℕ → List ℕ → ℕ
count a xs = weigh (is a) xs

abbrev pub one : ℕ → ℕ
one x = 1

pub weigh-append : (w : ℕ → ℕ) (xs ys : List ℕ) → weigh w (xs ++ ys) ≡ weigh w xs + weigh w ys
weigh-append w [] ys = omega arith
weigh-append w (x ∷ xs) ys = omega (arith, weigh-append w xs ys)

pub weigh-one : (xs : List ℕ) → weigh one xs ≡ length xs
weigh-one [] = refl
weigh-one (x ∷ xs) = omega (arith, weigh-one xs)

pub is-eq : (a x : ℕ) → a ≡ x → is a x ≡ 1
is-eq a x e = ground arith

pub is-ne : (a x : ℕ) → a ≢ x → is a x ≡ 0
is-ne a x ne = ground (arith, ==_ne a x ne)

-- The elements of `n` buckets from `i` on, weighed.
abbrev pub weight : (ℕ → ℕ) → (n i : ℕ) → Buckets → ℕ
weight w n i b = weigh w (apply_buckets n i b)

pub weight_step :
    (w : ℕ → ℕ) (n i : ℕ) (b : Buckets)
    → weight w (suc n) i b ≡ weigh w (b i) + weight w n (suc i) b
weight_step w n i b = weigh-append w (b i) (apply_buckets n (suc i) b)

-- A bucket in front of the ones that are weighed does not count.
pub apply-put_before :
    (n i j : ℕ) (b : Buckets) (l : List ℕ)
    → j < i
    → apply_buckets n i (put_bucket b j l) ≡ apply_buckets n i b
apply-put_before zero i j b l h = refl
apply-put_before (suc n) i j b l h =
    ap₂ ◌++◌ (ground (arith, ==_ne i j (λ e. omega arith)))
      (apply-put_before n (suc i) j b l (omega arith))

-- An element put in front of one of the buckets counts once more.
pub weight-push :
    (w : ℕ → ℕ) (n i j e : ℕ) (b : Buckets)
    → i ≤ j
    → j < i + n
    → weight w n i (push_front b j e) ≡ w e + weight w n i b
weight-push w zero i j e b h k = absurd (omega arith)
weight-push w (suc n) i j e b h k = elim (ℕ_discrete i j) [
  | yes same ↦ omega (
    arith,
    weight_step w n i b,
    weight_step w n i (push_front b j e),
    ap (weigh w) {x = push_front b j e i} {y = e ∷ b i} (ground arith),
    ap (weigh w) (apply-put_before n (suc i) j b (e ∷ b j) (omega arith)),
  )
  | no ne ↦ omega (
    arith,
    weight_step w n i b,
    weight_step w n i (push_front b j e),
    ap (weigh w) {x = push_front b j e i} {y = b i} (ground (arith, ==_ne i j ne)),
    weight-push w n (suc i) j e b (omega arith) (omega arith),
  )
]

pub weight-nil : (w : ℕ → ℕ) (n i : ℕ) → weight w n i (λ j. []) ≡ 0
weight-nil w zero i = refl
weight-nil w (suc n) i = weight-nil w n (suc i)

pub unlink-absent : (e : ℕ) (l : List ℕ) → count e l ≡ 0 → unlink e l ≡ l
unlink-absent e [] h = refl
unlink-absent e (x ∷ xs) h = ground (arith, unlink-absent e xs)

unlink-append_absent :
    (e : ℕ) (xs ys : List ℕ) → count e xs ≡ 0 → unlink e (xs ++ ys) ≡ xs ++ unlink e ys
unlink-append_absent e [] ys h = refl
unlink-append_absent e (x ∷ xs) ys h = ground (arith, unlink-append_absent e xs ys)

unlink-append_present :
    (e : ℕ) (xs ys : List ℕ) → count e xs ≢ 0 → unlink e (xs ++ ys) ≡ unlink e xs ++ ys
unlink-append_present e [] ys h = absurd (h refl)
unlink-append_present e (x ∷ xs) ys h = elim (Bool-cases (e == x)) [
  | inl same ↦ rw same refl
  | inr ne ↦ rw ne (ap (◌∷◌ x) (unlink-append_present e xs ys (λ z. h (ground (arith, ne, z)))))
]

pub weigh-unlink :
    (w : ℕ → ℕ) (e : ℕ) (l : List ℕ) → count e l ≢ 0 → w e + weigh w (unlink e l) ≡ weigh w l
weigh-unlink w e [] h = absurd (h refl)
weigh-unlink w e (x ∷ xs) h = elim (ℕ_discrete e x) [
  | yes same ↦ rw ((==_iff e x).1 same) (omega (arith, ap w same))
  | no ne ↦
      rw (==_ne e x ne)
        (omega (arith, weigh-unlink w e xs (λ z. h (omega (arith, is-ne e x ne, z)))))
]

-- Unlinking an element that stands at most once, from every bucket.
pub apply-unlink :
    (e n i : ℕ) (b : Buckets)
    → weight (is e) n i b ≤ 1
    → apply_buckets n i (λ j. unlink e (b j)) ≡ unlink e (apply_buckets n i b)
apply-unlink e zero i b h = refl
apply-unlink e (suc n) i b h =
    let rest : weight (is e) n (suc i) b ≤ 1 = omega (arith, weight_step (is e) n i b) in
    elim (ℕ_discrete (count e (b i)) 0) [
      | yes z ↦
          ap₂ ◌++◌ (unlink-absent e (b i) z) (apply-unlink e n (suc i) b rest)
          ∙ sym (unlink-append_absent e (b i) (apply_buckets n (suc i) b) z)
      | no p ↦
          ap (◌++◌ (unlink e (b i))) (
            apply-unlink e n (suc i) b rest
            ∙ unlink-absent e (apply_buckets n (suc i) b) (omega (arith, weight_step (is e) n i b)))
          ∙ sym (unlink-append_present e (b i) (apply_buckets n (suc i) b) p)
    ]

-- What stands in one of the buckets stands in all of them together.
pub count-le-weight :
    (a n i j : ℕ) (b : Buckets) → i ≤ j → j < i + n → count a (b j) ≤ weight (is a) n i b
count-le-weight a zero i j b h k = absurd (omega arith)
count-le-weight a (suc n) i j b h k = elim (ℕ_discrete i j) [
  | yes same ↦ omega (arith, weight_step (is a) n i b, ap (λ x. count a (b x)) same)
  | no ne ↦
      omega (
        arith,
        weight_step (is a) n i b,
        count-le-weight a n (suc i) j b (omega arith) (omega arith),
      )
]

weight-absent :
    (a n i : ℕ) (b : Buckets)
    → ((j : ℕ) → i ≤ j → j < i + n → count a (b j) ≡ 0)
    → weight (is a) n i b ≡ 0
weight-absent a zero i b h = refl
weight-absent a (suc n) i b h = omega (
  arith,
  weight_step (is a) n i b,
  h i (omega arith) (omega arith),
  weight-absent a n (suc i) b (λ j p q. h j (omega arith) (omega arith)),
)

-- An element that stands in no other bucket.
pub weight-own :
    (a n i k : ℕ) (b : Buckets)
    → i ≤ k
    → k < i + n
    → ((j : ℕ) → i ≤ j → j < i + n → k ≢ j → count a (b j) ≡ 0)
    → weight (is a) n i b ≡ count a (b k)
weight-own a zero i k b lo hi h = absurd (omega arith)
weight-own a (suc n) i k b lo hi h = elim (ℕ_discrete i k) [
  | yes same ↦ omega (
    arith,
    weight_step (is a) n i b,
    ap (λ x. count a (b x)) same,
    weight-absent a n (suc i) b (λ j p q. h j (omega arith) (omega arith) (λ e. omega arith)),
  )
  | no ne ↦ omega (
    arith,
    weight_step (is a) n i b,
    h i (omega arith) (omega arith) (λ e. ne (sym e)),
    weight-own a n (suc i) k b (omega arith) (omega arith)
        (λ j p q. h j (omega arith) (omega arith)),
  )
]
