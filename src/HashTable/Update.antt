-- ===== src/HashTable/Update.antt =====
-- The table of lib/kernel/hash.c with an element more or less, and what hash_find finds in it.
use ee468_pintos_project.Prelude.{
  ℕ, ◌+◌, ◌^◌, ◌≤◌, ◌<◌, ◌≡◌, ◌≢◌, inl, inr, refl, sym, ap, ◌∙◌, Bool, true, false, if◌then◌else◌,
  List, ◌∷◌, none, some, arith, ==_ne, ℕ_discrete, Bool-cases,
}
use ee468_pintos_project.HashTable.{
  Hash, find_bucket, equal, unlink, hash_find, hash_apply, insert_elem, remove_elem,
}
use ee468_pintos_project.HashTable.Elements.{
  weigh, is, one, count, weight-push, weigh-one, is-eq, is-ne, apply-unlink, weigh-unlink,
  unlink-absent,
}
use ee468_pintos_project.HashTable.Find.{
  IsHashing, IsHash, hash_find-same, hash_find-present, hash_find-absent, bucket_in, equal_sym,
}

count-unlink_le : (a e : ℕ) (l : List ℕ) → count a (unlink e l) ≤ count a l
count-unlink_le a e l = elim (ℕ_discrete (count e l) 0) [
  | yes z ↦ omega (arith, ap (count a) (unlink-absent e l z))
  | no p ↦ omega (arith, weigh-unlink (is a) e l p)
]

module _ (hash : ℕ → ℕ) (less : ℕ → ℕ → Bool) (f : IsHashing hash less) where
  pub equal_refl : (a : ℕ) → equal hash less a a ≡ true
  equal_refl a = ground (arith, f.irreflexive a)

  -- The table with `new` in its bucket, where no element is equal to it.
  module _ (h : Hash) (v : IsHash hash less h) (new : ℕ) where
    abbrev pub inserted : Hash
    inserted = insert_elem hash less h (find_bucket hash less h.bucket_cnt new) new

    pub weigh-inserted :
        (w : ℕ → ℕ) → weigh w (hash_apply inserted) ≡ w new + weigh w (hash_apply h)
    weigh-inserted w =
        weight-push w h.bucket_cnt 0 (find_bucket hash less h.bucket_cnt new) new h.buckets
          (omega arith) (omega (arith, bucket_in hash less f h v new))

    inserted_own :
        (i a : ℕ)
        → i < h.bucket_cnt
        → find_bucket hash less h.bucket_cnt a ≢ i
        → count a (inserted.buckets i) ≡ 0
    inserted_own i a lt ne = elim (ℕ_discrete i (find_bucket hash less h.bucket_cnt new)) [
      | yes here ↦
          ap (count a) {y = new ∷ h.buckets i} (ground (arith, here))
          ∙ omega (
            arith,
            is-ne a new (λ ae. ne (ap (find_bucket hash less h.bucket_cnt) ae ∙ sym here)),
            v.own i a lt ne,
          )
      | no other ↦
          ap (count a) {y = h.buckets i} (ground (arith, ==_ne i _ other)) ∙ v.own i a lt ne
    ]

    module _ (fresh : (x : ℕ) → count x (hash_apply h) ≢ 0 → equal hash less x new ≡ false)
        (room : h.elem_cnt + 1 < 2 ^ 32) where
      new_absent : count new (hash_apply h) ≡ 0
      new_absent = elim (ℕ_discrete (count new (hash_apply h)) 0) [
        | yes z ↦ z
        | no p ↦ absurd (cc (fresh new p, equal_refl new))
      ]

      -- What stands in the new table is `new` or stood in the old one.
      or_new : (x : ℕ) → x ≢ new → count x (hash_apply inserted) ≡ count x (hash_apply h)
      or_new x ne = omega (arith, weigh-inserted (is x), is-ne x new ne)

      inserted_apart :
          (a b : ℕ)
          → count a (hash_apply inserted) ≢ 0
          → count b (hash_apply inserted) ≢ 0
          → equal hash less a b ≡ true
          → a ≡ b
      inserted_apart a b p q eq = elim (ℕ_discrete a new) [
        | yes an ↦ elim (ℕ_discrete b new) [
          | yes bn ↦ an ∙ sym bn
          | no bne ↦ absurd (
              cc (
                fresh b (λ z. q (or_new b bne ∙ z)),
                equal_sym hash less b new ∙ ap (λ x. equal hash less x b) (sym an) ∙ eq,
              ))
        ]
        | no ane ↦ elim (ℕ_discrete b new) [
          | yes bn ↦
              absurd
                (cc (fresh a (λ z. p (or_new a ane ∙ z)), ap (equal hash less a) (sym bn) ∙ eq))
          | no bne ↦ v.apart a b (λ z. p (or_new a ane ∙ z)) (λ z. q (or_new b bne ∙ z)) eq
        ]
      ]

      pub inserted-IsHash : IsHash hash less inserted
      inserted-IsHash = record {
        own = inserted_own;
        once = λ a. elim (ℕ_discrete a new) [
          | yes an ↦ omega (
            arith,
            weigh-inserted (is a),
            is-eq a new an,
            new_absent,
            ap (λ x. count x (hash_apply h)) an,
          )
          | no ne ↦ omega (arith, or_new a ne, v.once a)
        ];
        apart = inserted_apart;
        sized = omega (
          arith,
          v.sized,
          room,
          weigh-inserted one,
          weigh-one (hash_apply h),
          weigh-one (hash_apply inserted),
        );
        small = omega arith;
        log = v.log;
        power = v.power;
        four = v.four;
      }

      pub inserted_finds :
          (e : ℕ)
          → hash_find hash less inserted e
            ≡ (if equal hash less new e then some new else hash_find hash less h e)
      inserted_finds e = elim (Bool-cases (equal hash less new e)) [
        | inl eq ↦
            hash_find-present hash less f inserted inserted-IsHash e new
              (λ z. omega (arith, z, weigh-inserted (is new), is-eq new new refl)) eq
            ∙ ap (λ c. if c then some new else hash_find hash less h e) (sym eq)
        | inr ne ↦
            hash_find-same hash less f h inserted e v inserted-IsHash
              (λ x eq. or_new x (λ xn. cc (ap (λ y. equal hash less y e) xn, eq, ne)))
            ∙ ap (λ c. if c then some new else hash_find hash less h e) (sym ne)
      ]

  -- The table without the element `o`.
  module _ (h : Hash) (v : IsHash hash less h) (o : ℕ) (there : count o (hash_apply h) ≢ 0) where
    abbrev pub removed : Hash
    removed = remove_elem hash less h o

    pub weigh-removed : (w : ℕ → ℕ) → w o + weigh w (hash_apply removed) ≡ weigh w (hash_apply h)
    weigh-removed w =
        ap (λ l. w o + weigh w l) (apply-unlink o h.bucket_cnt 0 h.buckets (v.once o))
        ∙ weigh-unlink w o (hash_apply h) there

    still : (x : ℕ) → count x (hash_apply removed) ≢ 0 → count x (hash_apply h) ≢ 0
    still x p = λ z. p (omega (arith, z, weigh-removed (is x)))

    gone : count o (hash_apply removed) ≡ 0
    gone = omega (arith, weigh-removed (is o), is-eq o o refl, v.once o)

    pub removed_size : removed.elem_cnt + 1 ≡ h.elem_cnt
    removed_size = omega (arith, v.sized, v.small, weigh-removed one, weigh-one (hash_apply h))

    pub removed-IsHash : IsHash hash less removed
    removed-IsHash = record {
      own = λ i a lt ne. omega (arith, v.own i a lt ne, count-unlink_le a o (h.buckets i));
      once = λ a. omega (arith, weigh-removed (is a), v.once a);
      apart = λ a b p q. v.apart a b (still a p) (still b q);
      sized = omega (
        arith,
        removed_size,
        v.sized,
        weigh-removed one,
        weigh-one (hash_apply h),
        weigh-one (hash_apply removed),
      );
      small = omega (arith, removed_size, v.small);
      log = v.log;
      power = v.power;
      four = v.four;
    }

    -- No element of the new table is equal to one that `o` was equal to.
    pub removed_fresh :
        (e : ℕ)
        → equal hash less o e ≡ true
        → (x : ℕ) → count x (hash_apply removed) ≢ 0
        → equal hash less x e ≡ false
    removed_fresh e oe x p = elim (Bool-cases (equal hash less x e)) [
      | inl eq ↦
          let xo : x ≡ o =
            v.apart x o (still x p) there (f.transitive x e o eq (equal_sym hash less e o ∙ oe)) in
          absurd (p (ap (λ y. count y (hash_apply removed)) xo ∙ gone))
      | inr ne ↦ ne
    ]

    pub removed_finds :
        (e : ℕ)
        → hash_find hash less removed e
          ≡ (if equal hash less o e then none else hash_find hash less h e)
    removed_finds e = elim (Bool-cases (equal hash less o e)) [
      | inl eq ↦
          hash_find-absent hash less f removed removed-IsHash e (removed_fresh e eq)
          ∙ ap (λ c. if c then none else hash_find hash less h e) (sym eq)
      | inr ne ↦
          hash_find-same hash less f h removed e v removed-IsHash (λ x eq. omega (
            arith,
            weigh-removed (is x),
            is-ne x o (λ xo. cc (ap (λ y. equal hash less y e) xo, eq, ne)),
          ))
          ∙ ap (λ c. if c then none else hash_find hash less h e) (sym ne)
    ]

    -- What is equal to `o` is equal to what `o` is equal to.
    pub equal_through :
        (e x : ℕ) → equal hash less o e ≡ true → equal hash less o x ≡ equal hash less e x
    equal_through e x oe = elim (Bool-cases (equal hash less e x)) [
      | inl ex ↦ f.transitive o e x oe ex ∙ sym ex
      | inr nx ↦ elim (Bool-cases (equal hash less o x)) [
        | inl ox ↦ absurd (cc (f.transitive e o x (equal_sym hash less e o ∙ oe) ox, nx))
        | inr no' ↦ no' ∙ sym nx
      ]
    ]
