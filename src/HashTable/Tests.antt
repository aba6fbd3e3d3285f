-- ===== src/HashTable/Tests.antt =====
-- lib/kernel/hash.c on a table of the numbers 2 and 5, each its own hash, in four buckets.
use ee468_pintos_project.Prelude.{
  ℕ, suc, ◌+◌, ◌*◌, ◌/◌, ◌^◌, ◌≤◌, ◌<◌, ◌≡◌, ◌≢◌, refl, sym, ap, ◌∙◌, true, ltb, ◌==◌,
  if◌then◌else◌, [], ◌∷◌, none, some, ok, arith, max, ℕ_discrete, ==_ne,
}
use ee468_pintos_project.HashTable.{
  Hash, find_bucket, equal, hash_find, hash_apply, hash_insert, hash_delete, hash_first,
  new_bucket_cnt, rehash,
}
use ee468_pintos_project.HashTable.Elements.{count}
use ee468_pintos_project.HashTable.Find.{IsHashing, IsHash}
use ee468_pintos_project.HashTable.Rehash.{new_bucket_cnt_power, rehash_keeps}
use ee468_pintos_project.HashTable.Map.{
  hash_find-hash_insert, hash_find-hash_delete, added, or_else, comes_in,
}
use ee468_pintos_project.HashTable.Iterate.{iterate, iterate-hash_apply}

abbrev itself : ℕ → ℕ
itself e = e

ltb-IsHashing : IsHashing itself ltb
ltb-IsHashing = record {
  irreflexive = λ a. ground arith;
  transitive = λ a b c p q. ground arith;
  hashed = λ a b p. ground arith;
}

abbrev two_five : Hash
two_five = record {
  elem_cnt = 2;
  bucket_cnt = 4;
  buckets = λ i. if i == 1 then 5 ∷ [] else if i == 2 then 2 ∷ [] else [];
}

two_five_own : (i a : ℕ) → i < 4 → find_bucket itself ltb 4 a ≢ i → count a (two_five.buckets i) ≡ 0
two_five_own i a lt ne = elim (ℕ_discrete i 1) [
  | yes one ↦ ground (arith, ==_ne a 5 (λ e. ne (ap (find_bucket itself ltb 4) e ∙ sym one)))
  | no not_one ↦ elim (ℕ_discrete i 2) [
    | yes two ↦ ground (arith, ==_ne a 2 (λ e. ne (ap (find_bucket itself ltb 4) e ∙ sym two)))
    | no not_two ↦ ground (arith, ==_ne i 1 not_one, ==_ne i 2 not_two)
  ]
]

two_five-IsHash : IsHash itself ltb two_five
two_five-IsHash = record {
  own = two_five_own;
  once = λ a. ground arith;
  apart = λ a b p q eq. ground arith;
  sized = refl;
  small = omega arith;
  log = 2;
  power = refl;
  four = omega arith;
}

inserts_nine : hash_find itself ltb two_five 9 ≡ none
unfolding hash_find
inserts_nine = refl

insert_run :
    (h : Hash) × (hash_insert itself ltb 9 true two_five 9 ≡ ok (h, none))
    × (hash_apply h ≡ 9 ∷ 5 ∷ 2 ∷ [])
unfolding hash_insert
insert_run = (
  record {
    elem_cnt = 3;
    bucket_cnt = 4;
    buckets = λ i. if i == 1 then 9 ∷ two_five.buckets 1 else two_five.buckets i;
  },
  refl,
  refl,
)

hash_find-hash_insert_example :
    let old = hash_find itself ltb two_five 9 in
    (h : Hash) × (hash_insert itself ltb 9 true two_five 9 ≡ ok (h, old))
    × IsHash itself ltb h
    × ((e : ℕ)
        → hash_find itself ltb h e ≡ (
            if equal itself ltb 9 e then some (or_else old 9) else hash_find itself ltb two_five e))
    × (h.elem_cnt ≡ 2 + added old)
    × ((x : ℕ) → count x (hash_apply h) ≡ comes_in old 9 x + count x (5 ∷ 2 ∷ []))
hash_find-hash_insert_example =
    hash_find-hash_insert itself ltb ltb-IsHashing 9 true two_five 9 two_five-IsHash (omega arith)
      (omega arith)

hash_find-hash_delete_example :
    let old = hash_find itself ltb two_five 2 in
    (h : Hash) × (hash_delete itself ltb 9 true two_five 2 ≡ ok (h, old))
    × IsHash itself ltb h
    × ((e : ℕ)
        → hash_find itself ltb h e
          ≡ (if equal itself ltb 2 e then none else hash_find itself ltb two_five e))
    × (h.elem_cnt + 1 ≡ 2 + added old)
hash_find-hash_delete_example =
    hash_find-hash_delete itself ltb ltb-IsHashing 9 true two_five 2 two_five-IsHash (omega arith)

new_bucket_cnt_power_example :
    (k : ℕ) × (new_bucket_cnt 100 50 ≡ ok (2 ^ k))
    × (4 ≤ 2 ^ k)
    × (2 ^ k ≤ max 4 (50 / 2))
    × (50 / 2 < 2 ^ suc k)
new_bucket_cnt_power_example = new_bucket_cnt_power 100 50 (omega arith)

rehash_keeps_example :
    (h : Hash) × (rehash itself ltb 9 true two_five ≡ ok h)
    × IsHash itself ltb h
    × (h.elem_cnt ≡ 2)
    × ((a : ℕ) → count a (hash_apply h) ≡ count a (5 ∷ 2 ∷ []))
    × ((e : ℕ) → hash_find itself ltb h e ≡ hash_find itself ltb two_five e)
    × (true ≡ true → (h.bucket_cnt ≤ max 4 (2 / 2)) × (2 / 2 < 2 * h.bucket_cnt))
rehash_keeps_example =
    rehash_keeps itself ltb 9 true two_five ltb-IsHashing two_five-IsHash (omega arith)

iterate-hash_apply_example : iterate 3 two_five (hash_first two_five) ≡ ok (5 ∷ 2 ∷ [])
iterate-hash_apply_example = iterate-hash_apply 3 two_five (omega arith) (omega arith)
