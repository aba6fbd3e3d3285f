-- ===== src/HashTable/Map.antt =====
-- hash_insert, hash_replace and hash_delete of lib/kernel/hash.c, as changes of the finite map that
-- takes an element to the equal element of the table, which is what hash_find answers.
use ee468_pintos_project.Prelude.{
  ℕ, ◌+◌, ◌/◌, ◌^◌, ◌<◌, ◌≡◌, inl, inr, refl, sym, ap, ◌∙◌, Bool, true, false, if◌then◌else◌,
  Option, none, some, Outcome, ok, ◌>>=◌, arith, max, Bool-cases, Option-cases,
}
use ee468_pintos_project.HashTable.{
  Hash, find_bucket, equal, hash_find, insert_elem, remove_elem, rehash, hash_insert, hash_replace,
  hash_delete, hash_apply,
}
use ee468_pintos_project.HashTable.Find.{
  IsHashing, IsHash, hash_find-some, hash_find-none, hash_find-present, equal_sym,
}
use ee468_pintos_project.HashTable.Elements.{is, count}
use ee468_pintos_project.HashTable.Rehash.{rehash_keeps}
use ee468_pintos_project.HashTable.Update.{
  inserted, weigh-inserted, inserted-IsHash, inserted_finds, removed, removed-IsHash, removed_finds,
  removed_fresh, removed_size, equal_through,
}

abbrev pub or_else : Option ℕ → ℕ → ℕ
or_else none new = new
or_else (some old) new = old

abbrev pub added : Option ℕ → ℕ
added none = 1
added (some old) = 0

-- How often the new element comes in as `x`.
abbrev pub comes_in : Option ℕ → (new x : ℕ) → ℕ
comes_in none new x = is x new
comes_in (some old) new x = 0

abbrev with_result : Option ℕ → Hash → Outcome (Hash × Option ℕ)
with_result old h = ok (h, old)

else_only :
    (c : Bool) (new : ℕ) (p q : Option ℕ)
    → p ≡ (if c then none else q)
    → (if c then some new else p) ≡ (if c then some new else q)
else_only true new p q h = refl
else_only false new p q h = h

module _ (hash : ℕ → ℕ) (less : ℕ → ℕ → Bool) (f : IsHashing hash less) where
  -- Where nothing equal to `e0` stands, nothing is found for what is equal to it.
  nothing_there :
      (h : Hash)
      → IsHash hash less h
      → (e0 : ℕ) → hash_find hash less h e0 ≡ none
      → (e : ℕ)
      → hash_find hash less h e ≡ (if equal hash less e0 e then none else hash_find hash less h e)
  nothing_there h v e0 nothing e = elim (Bool-cases (equal hash less e0 e)) [
    | inl eq ↦ elim (Option-cases (hash_find hash less h e)) [
      | inl z ↦ z ∙ ap (λ c. if c then none else hash_find hash less h e) (sym eq)
      | inr (x, found) ↦
          let (there, xe) = hash_find-some hash less f h v e x found in
          absurd (
            cc (
              hash_find-none hash less f h v e0 x nothing there,
              f.transitive x e e0 xe (equal_sym hash less e e0 ∙ eq),
            ))
    ]
    | inr ne ↦ ap (λ c. if c then none else hash_find hash less h e) (sym ne)
  ]

  -- hash_insert returns, with the equal element of the table or null, whether or not rehash gets
  -- memory. It adds the new element if there was no equal one and no element otherwise: afterwards
  -- hash_find gives for an element that is equal to the new one the old element or else the new one,
  -- and for every other one what it gave before. No element goes and no other one comes in, the
  -- invariant is kept and the elements are counted. The table has room for one more element.
  pub hash_find-hash_insert :
      (fuel : ℕ) (memory : Bool) (h : Hash) (new : ℕ)
      → IsHash hash less h
      → h.elem_cnt + 1 < 2 ^ 32
      → max 4 ((h.elem_cnt + 1) / 2) < fuel
      → let old = hash_find hash less h new in
        (h' : Hash) × (hash_insert hash less fuel memory h new ≡ ok (h', old))
        × IsHash hash less h'
        × ((e : ℕ)
            → hash_find hash less h' e
              ≡ (if equal hash less new e then some (or_else old new) else hash_find hash less h e))
        × (h'.elem_cnt ≡ h.elem_cnt + added old)
        × ((x : ℕ) → count x (hash_apply h') ≡ comes_in old new x + count x (hash_apply h))
  unfolding hash_insert
  hash_find-hash_insert fuel memory h new v room enough =
      let add : Option ℕ → Hash =
        λ o. elim o [ none ↦ inserted hash less f h v new | some x ↦ h ] in
      let branch : Option ℕ → Outcome (Hash × Option ℕ) =
        λ o. rehash hash less fuel memory (add o) >>= with_result o in
      elim (Option-cases (hash_find hash less h new)) [
        | inl nothing ↦
            let fresh = λ (x : ℕ). hash_find-none hash less f h v new x nothing in
            let (h', run, w, cnt, same, finds, size) =
              rehash_keeps hash less fuel memory (inserted hash less f h v new) f
                (inserted-IsHash hash less f h v new fresh room) (omega arith) in
            (
              h',
              ap branch nothing
                  ∙ ap (λ o. o >>= with_result none) run
                  ∙ ap (λ o. ok (h', o)) (sym nothing),
              w,
              λ e.
                  finds e
                  ∙ inserted_finds hash less f h v new fresh room e
                  ∙ ap
                      (λ o.
                        if equal hash less new e
                        then some (or_else o new)
                        else hash_find hash less h e)
                      (sym nothing),
              omega (arith, cnt, ap added nothing),
              λ x. omega (
                arith,
                same x,
                weigh-inserted hash less f h v new (is x),
                ap (λ o. comes_in o new x) nothing,
              ),
            )
        | inr (x, found) ↦
            let (h', run, w, cnt, same, finds, size) =
              rehash_keeps hash less fuel memory h f v (omega arith) in
            let (there, eq) = hash_find-some hash less f h v new x found in
            (
              h',
              ap branch found
                  ∙ ap (λ o. o >>= with_result (some x)) run
                  ∙ ap (λ o. ok (h', o)) (sym found),
              w,
              λ e. finds e ∙ elim (Bool-cases (equal hash less new e)) [
                | inl ne ↦
                    hash_find-present hash less f h v e x there (f.transitive x new e eq ne)
                    ∙ ap (λ o. some (or_else o new)) (sym found)
                    ∙ ap
                        (λ c.
                          if c
                          then some (or_else (hash_find hash less h new) new)
                          else hash_find hash less h e)
                        (sym ne)
                | inr ne ↦
                    ap
                      (λ c.
                        if c
                        then some (or_else (hash_find hash less h new) new)
                        else hash_find hash less h e)
                      (sym ne)
              ],
              omega (arith, cnt, ap added found),
              λ y. omega (arith, same y, ap (λ o. comes_in o new y) found),
            )
      ]

  -- hash_replace returns, with the equal element of the table or null, whether or not rehash gets
  -- memory, and puts the new element in its place or adds it: afterwards hash_find gives the new
  -- element for an element that is equal to it, and for every other one what it gave before. The
  -- invariant is kept and the elements are counted. The table has room for one more element.
  pub hash_find-hash_replace :
      (fuel : ℕ) (memory : Bool) (h : Hash) (new : ℕ)
      → IsHash hash less h
      → h.elem_cnt + 1 < 2 ^ 32
      → max 4 ((h.elem_cnt + 1) / 2) < fuel
      → let old = hash_find hash less h new in
        (h' : Hash) × (hash_replace hash less fuel memory h new ≡ ok (h', old))
        × IsHash hash less h'
        × ((e : ℕ)
            → hash_find hash less h' e
              ≡ (if equal hash less new e then some new else hash_find hash less h e))
        × (h'.elem_cnt ≡ h.elem_cnt + added old)
  unfolding hash_replace
  hash_find-hash_replace fuel memory h new v room enough =
      let take_out : Option ℕ → Hash =
        λ o. elim o [ none ↦ h | some x ↦ remove_elem hash less h x ] in
      let branch : Option ℕ → Outcome (Hash × Option ℕ) = λ o.
        rehash hash less fuel memory
          (insert_elem hash less (take_out o) (find_bucket hash less h.bucket_cnt new) new)
        >>= with_result o in
      elim (Option-cases (hash_find hash less h new)) [
        | inl nothing ↦
            let fresh = λ (x : ℕ). hash_find-none hash less f h v new x nothing in
            let (h', run, w, cnt, same, finds, size) =
              rehash_keeps hash less fuel memory (inserted hash less f h v new) f
                (inserted-IsHash hash less f h v new fresh room) (omega arith) in
            (
              h',
              ap branch nothing
                  ∙ ap (λ o. o >>= with_result none) run
                  ∙ ap (λ o. ok (h', o)) (sym nothing),
              w,
              λ e. finds e ∙ inserted_finds hash less f h v new fresh room e,
              omega (arith, cnt, ap added nothing),
            )
        | inr (x, found) ↦
            let (there, eq) = hash_find-some hash less f h v new x found in
            let r = removed hash less f h v x there in
            let vr = removed-IsHash hash less f h v x there in
            let size = removed_size hash less f h v x there in
            let fresh = removed_fresh hash less f h v x there new eq in
            let room' : r.elem_cnt + 1 < 2 ^ 32 = omega (arith, size, v.small) in
            let (h', run, w, cnt, same, finds, size') =
              rehash_keeps hash less fuel memory (inserted hash less f r vr new) f
                (inserted-IsHash hash less f r vr new fresh room') (omega (arith, room', size)) in
            (
              h',
              ap branch found
                  ∙ ap (λ o. o >>= with_result (some x)) run
                  ∙ ap (λ o. ok (h', o)) (sym found),
              w,
              λ e.
                  finds e
                  ∙ inserted_finds hash less f r vr new fresh room' e
                  ∙ else_only (equal hash less new e) new (hash_find hash less r e)
                      (hash_find hash less h e)
                      (removed_finds hash less f h v x there e
                        ∙ ap (λ c. if c then none else hash_find hash less h e)
                            (equal_through hash less f h v x there new e eq)),
              omega (arith, cnt, ap added found, room', size),
            )
      ]

  -- hash_delete returns, with the equal element of the table or null, whether or not rehash gets memory,
  -- and takes that element out: afterwards hash_find gives null for every element that is equal to the
  -- one asked for, and for every other one what it gave before. The invariant is kept and the elements
  -- are counted.
  pub hash_find-hash_delete :
      (fuel : ℕ) (memory : Bool) (h : Hash) (e0 : ℕ)
      → IsHash hash less h
      → max 4 (h.elem_cnt / 2) < fuel
      → let old = hash_find hash less h e0 in
        (h' : Hash) × (hash_delete hash less fuel memory h e0 ≡ ok (h', old))
        × IsHash hash less h'
        × ((e : ℕ)
            → hash_find hash less h' e
              ≡ (if equal hash less e0 e then none else hash_find hash less h e))
        × (h'.elem_cnt + 1 ≡ h.elem_cnt + added old)
  unfolding hash_delete
  hash_find-hash_delete fuel memory h e0 v enough =
      let branch : Option ℕ → Outcome (Hash × Option ℕ) = λ o. elim o [
        | none ↦ ok (h, none)
        | some x ↦ rehash hash less fuel memory (remove_elem hash less h x) >>= with_result (some x)
      ] in
      elim (Option-cases (hash_find hash less h e0)) [
        | inl nothing ↦ (
          h,
          ap branch nothing ∙ ap (λ o. ok (h, o)) (sym nothing),
          v,
          λ e. nothing_there h v e0 nothing e,
          omega (arith, ap added nothing),
        )
        | inr (x, found) ↦
            let (there, eq) = hash_find-some hash less f h v e0 x found in
            let size = removed_size hash less f h v x there in
            let (h', run, w, cnt, same, finds, size') =
              rehash_keeps hash less fuel memory (removed hash less f h v x there) f
                (removed-IsHash hash less f h v x there) (omega (arith, size, enough)) in
            (
              h',
              ap branch found
                  ∙ ap (λ o. o >>= with_result (some x)) run
                  ∙ ap (λ o. ok (h', o)) (sym found),
              w,
              λ e.
                  finds e
                  ∙ removed_finds hash less f h v x there e
                  ∙ ap (λ c. if c then none else hash_find hash less h e)
                      (equal_through hash less f h v x there e0 e eq),
              omega (arith, cnt, size, ap added found),
            )
      ]
