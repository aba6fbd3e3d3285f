-- ===== src/HashTable/Find.antt =====
-- The invariant of a table of lib/kernel/hash.c, and what hash_find finds in it.
use ee468_pintos_project.Prelude.{
  ℕ, ◌-◌, ◌^◌, ◌≤◌, ◌<◌, ◌≡◌, ◌≢◌, ◌⊎◌, inl, inr, refl, sym, ap, ◌∙◌, Bool, true, false, not, ◌&&◌,
  if◌then◌else◌, List, [], ◌∷◌, length, Option, none, some, arith, Bool-cases, Option-cases,
  bit_and, ℕ_discrete,
}
use ee468_pintos_project.Bits.Power.{bit_and-mask}
use ee468_pintos_project.HashTable.{Hash, find_bucket, equal, find_elem, hash_find, hash_apply}
use ee468_pintos_project.HashTable.Elements.{count, weight-own, count-le-weight, is-eq, is-ne}

and_comm : (a b : Bool) → (a && b) ≡ (b && a)
and_comm true b = ground arith
and_comm false b = ground arith

-- What the functions given to hash_init must meet: no element is less than itself, to be equal is
-- transitive, and equal elements have the same hash.
pub record IsHashing (hash : ℕ → ℕ) (less : ℕ → ℕ → Bool) : Type 0 where
  pub irreflexive : (a : ℕ) → less a a ≡ false
  pub transitive :
      (a b c : ℕ)
      → equal hash less a b ≡ true
      → equal hash less b c ≡ true
      → equal hash less a c ≡ true
  pub hashed : (a b : ℕ) → equal hash less a b ≡ true → hash a ≡ hash b

-- Every element stands in its bucket, no two are equal, and they are counted; the number of buckets is
-- a power of two, and at least four.
pub record IsHash (hash : ℕ → ℕ) (less : ℕ → ℕ → Bool) (h : Hash) : Type 0 where
  pub own :
      (i a : ℕ)
      → i < h.bucket_cnt
      → find_bucket hash less h.bucket_cnt a ≢ i
      → count a (h.buckets i) ≡ 0
  pub once : (a : ℕ) → count a (hash_apply h) ≤ 1
  pub apart :
      (a b : ℕ)
      → count a (hash_apply h) ≢ 0
      → count b (hash_apply h) ≢ 0
      → equal hash less a b ≡ true
      → a ≡ b
  pub sized : h.elem_cnt ≡ length (hash_apply h)
  pub small : h.elem_cnt < 2 ^ 32
  pub log : ℕ
  pub power : h.bucket_cnt ≡ 2 ^ log
  pub four : 4 ≤ h.bucket_cnt

hit_or_rest :
    (c : Bool) (y x : ℕ) (r : Option ℕ)
    → (if c then some y else r) ≡ some x
    → ((c ≡ true) × (y ≡ x)) ⊎ (r ≡ some x)
hit_or_rest true y x r h = inl (refl, cc)
hit_or_rest false y x r h = inr h

neither :
    (c : Bool) (y : ℕ) (r : Option ℕ) → (if c then some y else r) ≡ none → (c ≡ false) × (r ≡ none)
neither true y r h = cc
neither false y r h = (refl, h)

module _ (hash : ℕ → ℕ) (less : ℕ → ℕ → Bool) where
  pub find-some :
      (l : List ℕ) (e x : ℕ)
      → find_elem hash less l e ≡ some x
      → (count x l ≢ 0) × (equal hash less x e ≡ true)
  unfolding find_elem
  find-some [] e x h = cc
  find-some (y ∷ l) e x h =
      elim (hit_or_rest (equal hash less y e) y x (find_elem hash less l e) h) [
        | inl (hit, same) ↦ (
          λ z. omega (arith, z, is-eq x y (sym same)),
          ap (λ a. equal hash less a e) (sym same) ∙ hit,
        )
        | inr later ↦ let (there, eq) = find-some l e x later in (λ z. there (omega (arith, z)), eq)
      ]

  pub find-none :
      (l : List ℕ) (e x : ℕ)
      → find_elem hash less l e ≡ none
      → count x l ≢ 0
      → equal hash less x e ≡ false
  unfolding find_elem
  find-none [] e x h p = absurd (p refl)
  find-none (y ∷ l) e x h p =
      let (miss, later) = neither (equal hash less y e) y (find_elem hash less l e) h in
      elim (ℕ_discrete x y) [
        | yes same ↦ ap (λ a. equal hash less a e) same ∙ miss
        | no ne ↦ find-none l e x later (λ z. p (omega (arith, z, is-ne x y ne)))
      ]

  pub equal_sym : (a b : ℕ) → equal hash less a b ≡ equal hash less b a
  equal_sym a b = and_comm (not (less a b)) (not (less b a))

  module _ (f : IsHashing hash less) (h : Hash) (v : IsHash hash less h) where
    pub bucket_in : (e : ℕ) → find_bucket hash less h.bucket_cnt e < h.bucket_cnt
    bucket_in e = bit_and-mask (hash e) h.bucket_cnt (omega (arith, v.four))

    -- An element stands in its bucket as often as in the table.
    pub count-own :
        (x : ℕ)
        → count x (hash_apply h) ≡ count x (h.buckets (find_bucket hash less h.bucket_cnt x))
    count-own x =
        weight-own x h.bucket_cnt 0 (find_bucket hash less h.bucket_cnt x) h.buckets (omega arith)
          (omega (arith, bucket_in x)) (λ j p q ne. v.own j x (omega arith) ne)

    -- What hash_find finds stands in the table and is equal.
    pub hash_find-some :
        (e x : ℕ)
        → hash_find hash less h e ≡ some x
        → (count x (hash_apply h) ≢ 0) × (equal hash less x e ≡ true)
    unfolding hash_find
    hash_find-some e x found =
        let i = find_bucket hash less h.bucket_cnt e in
        let (there, eq) = find-some (h.buckets i) e x found in
        (
          λ z. there (
              omega (
                arith,
                z,
                count-le-weight x h.bucket_cnt 0 i h.buckets (omega arith)
                    (omega (arith, bucket_in e)),
              )),
          eq,
        )

    equal-bucket :
        (x e : ℕ)
        → equal hash less x e ≡ true
        → find_bucket hash less h.bucket_cnt x ≡ find_bucket hash less h.bucket_cnt e
    equal-bucket x e eq = ap (λ w. bit_and w (h.bucket_cnt - 1)) (f.hashed x e eq)

    -- It finds nothing only if no element of the table is equal.
    pub hash_find-none :
        (e x : ℕ)
        → hash_find hash less h e ≡ none
        → count x (hash_apply h) ≢ 0
        → equal hash less x e ≡ false
    unfolding hash_find
    hash_find-none e x nothing there = elim (Bool-cases (equal hash less x e)) [
      | inl eq ↦
          find-none (h.buckets (find_bucket hash less h.bucket_cnt e)) e x nothing
            (λ z. there (count-own x ∙ ap (λ i. count x (h.buckets i)) (equal-bucket x e eq) ∙ z))
      | inr ne ↦ ne
    ]

    -- It finds the element of the table that is equal.
    pub hash_find-present :
        (e x : ℕ)
        → count x (hash_apply h) ≢ 0
        → equal hash less x e ≡ true
        → hash_find hash less h e ≡ some x
    hash_find-present e x there eq = elim (Option-cases (hash_find hash less h e)) [
      | inl nothing ↦ absurd (cc (hash_find-none e x nothing there, eq))
      | inr (y, found) ↦
          let (there', eq') = hash_find-some e y found in
          found ∙ ap some (v.apart y x there' there (f.transitive y e x eq' (equal_sym e x ∙ eq)))
    ]

    pub hash_find-absent :
        (e : ℕ)
        → ((x : ℕ) → count x (hash_apply h) ≢ 0 → equal hash less x e ≡ false)
        → hash_find hash less h e ≡ none
    hash_find-absent e all = elim (Option-cases (hash_find hash less h e)) [
      | inl nothing ↦ nothing
      | inr (y, found) ↦ let (there, eq) = hash_find-some e y found in absurd (cc (all y there, eq))
    ]

  -- Two tables that hold the same elements equal to `e` find the same.
  pub hash_find-same :
      (f : IsHashing hash less) (h k : Hash) (e : ℕ)
      → IsHash hash less h
      → IsHash hash less k
      → ((x : ℕ) → equal hash less x e ≡ true → count x (hash_apply k) ≡ count x (hash_apply h))
      → hash_find hash less k e ≡ hash_find hash less h e
  hash_find-same f h k e v w same = elim (Option-cases (hash_find hash less h e)) [
    | inl nothing ↦
        hash_find-absent f k w e (λ x there. elim (Bool-cases (equal hash less x e)) [
          | inl eq ↦ hash_find-none f h v e x nothing (λ z. there (same x eq ∙ z))
          | inr ne ↦ ne
        ])
        ∙ sym nothing
    | inr (y, found) ↦
        let (there, eq) = hash_find-some f h v e y found in
        hash_find-present f k w e y (λ z. there (sym (same y eq) ∙ z)) eq ∙ sym found
  ]
