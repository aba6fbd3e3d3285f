-- ===== src/KernelList/Walk.antt =====
-- The loops of lib/kernel/list.c that walk over the elements: list_size, list_max, list_min and
-- list_insert_ordered.
use mathlib.Core.List.{append-nil, append_assoc}
use ee468_pintos_project.Prelude.{
  ℕ, zero, suc, ◌+◌, ◌<◌, ◌≡◌, ◌≢◌, refl, sym, ap, ◌∙◌, subst, Bool, true, false, not, ◌==◌, List,
  [], ◌∷◌, ◌++◌, arith, ==_refl, ==_ne, ==_iff, ok, if◌then◌else◌, length, ◌>>=◌, ◌>>◌, assert,
  Bool-cases, inl, inr,
}
use ee468_pintos_project.Memory.{null}
use ee468_pintos_project.KernelList.{
  Links, KList, size_loop, list_size, list_next, is_head, is_interior, max_loop, list_max, min_loop,
  list_min, place_loop, list_insert_ordered, list_insert,
}
use ee468_pintos_project.KernelList.Chain.{
  mem, Distinct, first, Chain, mem-last, mem-first, mem-append, IsList, ne_of_mem, next-first,
}
use ee468_pintos_project.KernelList.Insert.{Inserted, insert-IsList}

module _ (l : Links) (list : KList) where
  -- What is left of a walk that stands at the start of `xs`.
  abbrev pub Ahead : ℕ → List ℕ → Type 0
  Ahead p xs =
      Chain l p xs list.tail
      × Distinct (xs ++ list.tail ∷ [])
      × (p ≢ null)
      × (mem null (xs ++ list.tail ∷ []) ≡ false)

  -- The walk is not at its end yet, and list_next goes on.
  pub step :
      (p x : ℕ) (xs : List ℕ)
      → Ahead p (x ∷ xs)
      → ((x == list.tail) ≡ false) × (list_next l x ≡ ok (first xs list.tail)) × Ahead x xs
  unfolding list_next is_head is_interior
  step p x xs (c, d, r, m) =
      let next = next-first l x xs list.tail c.2 in
      let real : first xs list.tail ≢ null =
        ne_of_mem _ null (xs ++ list.tail ∷ []) (mem-first list.tail xs) (ground arith) in
      (
        ==_ne x list.tail
            (λ h. ne_of_mem list.tail x (xs ++ list.tail ∷ []) (mem-last list.tail xs) d.0 (sym h)),
        ground (arith, next, real, c.1),
        (c.2, d.1, ground arith, ground arith),
      )

  pub start : (xs : List ℕ) → IsList l list xs → Ahead list.head xs
  start xs v = (v.chain, v.apart.1, ground (arith, v.real), ground (arith, v.real))

  size_loop-Ahead :
      (fuel p : ℕ) (xs : List ℕ) (cnt : ℕ)
      → Ahead p xs
      → length xs < fuel
      → size_loop fuel l list (first xs list.tail) cnt ≡ ok (cnt + length xs)
  unfolding size_loop
  size_loop-Ahead zero p xs cnt a h = absurd (omega arith)
  size_loop-Ahead (suc fuel) p [] cnt a h = ground arith
  size_loop-Ahead (suc fuel) p (x ∷ xs) cnt a h =
      let (ne, next, a') = step p x xs a in
      let ih = size_loop-Ahead fuel x xs (cnt + 1) a' (ground arith) in ground (arith, ne, next, ih)

-- list_size counts the elements of a list, with fuel for one round more than it has elements.
pub list_size_lem :
    (l : Links) (list : KList) (xs : List ℕ) (fuel : ℕ)
    → IsList l list xs
    → length xs < fuel
    → list_size fuel l list ≡ ok (length xs)
unfolding list_size
list_size_lem l list xs fuel v h =
    ap (λ e. size_loop fuel l list e 0) (next-first l list.head xs list.tail v.chain)
    ∙ size_loop-Ahead l list fuel list.head xs 0 (start l list xs v) h
    ∙ ap ok (omega arith)

-- `less` never lies one way and then the other.
abbrev pub Transitive : (ℕ → ℕ → Bool) → Type 0
Transitive less = (a b c : ℕ) → less a b ≡ true → less b c ≡ true → less a c ≡ true

abbrev pub Irreflexive : (ℕ → ℕ → Bool) → Type 0
Irreflexive less = (a : ℕ) → less a a ≡ false

-- `m` is in the list, and no element of it is greater (less) than it.
abbrev pub Greatest : (ℕ → ℕ → Bool) → ℕ → List ℕ → Type 0
Greatest less m xs = (mem m xs ≡ true) × ((a : ℕ) → mem a xs ≡ true → less m a ≡ false)

abbrev pub Least : (ℕ → ℕ → Bool) → ℕ → List ℕ → Type 0
Least less m xs = (mem m xs ≡ true) × ((a : ℕ) → mem a xs ≡ true → less a m ≡ false)

pub keep_larger :
    (less : ℕ → ℕ → Bool)
    → Transitive less
    → Irreflexive less
    → (m x : ℕ) (seen : List ℕ) → Greatest less m seen
    → Greatest less (if less m x then x else m) (seen ++ x ∷ [])
keep_larger less trans irr m x seen g = (
  ground (arith, mem-append x seen (x ∷ []), mem-append m seen (x ∷ []), g.0, ==_refl x),
  λ a h.
      let here : (a == x) ≡ true → a ≡ x = (==_iff a x).0 in
      elim (Bool-cases (less m x)) [
        | inl t ↦ elim (Bool-cases (a == x)) [
          | inl e ↦
              subst (λ b. less (if less m x then x else m) b ≡ false) (sym (here e))
                (ground (arith, t, irr x))
          | inr n ↦ ground (arith, t, n, mem-append a seen (x ∷ []), g.1 a, trans m x a)
        ]
        | inr f ↦ elim (Bool-cases (a == x)) [
          | inl e ↦
              subst (λ b. less (if less m x then x else m) b ≡ false) (sym (here e))
                (ground (arith, f))
          | inr n ↦ ground (arith, f, n, mem-append a seen (x ∷ []), g.1 a)
        ]
      ],
)

module _ (less : ℕ → ℕ → Bool) (l : Links) (list : KList) where
  max_round :
      (fuel e m e' m' : ℕ)
      → (e == list.tail) ≡ false
      → list_next l e ≡ ok e'
      → max_loop less fuel l list e' (if less m e then e else m) ≡ ok m'
      → max_loop less (suc fuel) l list e m ≡ ok m'
  unfolding max_loop
  max_round fuel e m e' m' ne next r = ground (arith, ne, next, r)

  max_loop-Greatest :
      Transitive less
      → Irreflexive less
      → (fuel p : ℕ) (xs seen : List ℕ) (m : ℕ) → Ahead l list p xs
      → Greatest less m seen
      → length xs < fuel
      → (m' : ℕ) × (max_loop less fuel l list (first xs list.tail) m ≡ ok m')
        × Greatest less m' (seen ++ xs)
  unfolding max_loop
  max_loop-Greatest trans irr zero p xs seen m a g h = absurd (omega arith)
  max_loop-Greatest trans irr (suc fuel) p [] seen m a g h =
      (m, ground arith, subst (Greatest less m) (sym (append-nil seen)) g)
  max_loop-Greatest trans irr (suc fuel) p (x ∷ xs) seen m a g h =
      let (ne, next, a') = step l list p x xs a in
      let m1 = if less m x then x else m in
      let g1 : Greatest less m1 (seen ++ x ∷ []) = keep_larger less trans irr m x seen g in
      let (m', r, g') =
        max_loop-Greatest trans irr fuel x xs (seen ++ x ∷ []) m1 a' g1 (ground arith) in
      (
        m',
        max_round fuel x m (first xs list.tail) m' ne next r,
        subst (Greatest less m') (append_assoc seen (x ∷ []) xs) g',
      )

  -- list_min is list_max for the opposite order.
  min_loop-max_loop :
      (fuel e m : ℕ) → min_loop less fuel l list e m ≡ max_loop (λ a b. less b a) fuel l list e m
  unfolding min_loop max_loop
  min_loop-max_loop fuel e m = refl

module _ (less : ℕ → ℕ → Bool) (l : Links) (list : KList) where
  max_start :
      (fuel x e m : ℕ)
      → l.next list.head ≡ x
      → (x == list.tail) ≡ false
      → list_next l x ≡ ok e
      → max_loop less fuel l list e x ≡ ok m
      → list_max less fuel l list ≡ ok m
  unfolding list_max
  max_start fuel x e m c ne next r =
      ap
        (λ a.
          if a == list.tail then ok a else (list_next l a >>= λ e. max_loop less fuel l list e a))
        c
      ∙ ground (arith, ne, next, r)

  -- list_max of a list with elements returns one of them that is not less than any, with fuel for
  -- one round for each, and of a list without elements its end; `less` is a strict order.
  pub list_max-Greatest :
      Transitive less
      → Irreflexive less
      → (fuel : ℕ)
      → (IsList l list [] → list_max less fuel l list ≡ ok list.tail)
        × ((x : ℕ) (xs : List ℕ)
            → IsList l list (x ∷ xs)
            → length xs < fuel
            → (m : ℕ) × (list_max less fuel l list ≡ ok m) × Greatest less m (x ∷ xs))
  unfolding list_max
  list_max-Greatest trans irr fuel = (
    λ v. ground (arith, v.chain.0),
    λ x xs v h.
        let (ne, next, a) = step l list list.head x xs (start l list (x ∷ xs) v) in
        let g : Greatest less x (x ∷ []) = (
          ground (arith, ==_refl x),
          λ a h. subst (λ b. less x b ≡ false) (sym ((==_iff a x).0 (ground (arith, h)))) (irr x),
        ) in
        let (m, r, g') = max_loop-Greatest less l list trans irr fuel x xs (x ∷ []) x a g h in
        (m, max_start fuel x (first xs list.tail) m v.chain.0 ne next r, g'),
  )

-- list_min of a list with elements returns one of them that no element is less than, with fuel for
-- one round for each, and of a list without elements its end; `less` is a strict order.
pub list_min-Least :
    (less : ℕ → ℕ → Bool) (l : Links) (list : KList)
    → Transitive less
    → Irreflexive less
    → (fuel : ℕ)
    → (IsList l list [] → list_min less fuel l list ≡ ok list.tail)
      × ((x : ℕ) (xs : List ℕ)
          → IsList l list (x ∷ xs)
          → length xs < fuel
          → (m : ℕ) × (list_min less fuel l list ≡ ok m) × Least less m (x ∷ xs))
unfolding list_min list_max min_loop max_loop
list_min-Least less l list trans irr fuel =
    list_max-Greatest (λ a b. less b a) l list (λ a b c h k. trans c b a k h) irr fuel

-- Every element is not less than the one before it: what is_sorted tests.
abbrev pub Sorted : (ℕ → ℕ → Bool) → List ℕ → Type 0
Sorted less [] = Unit {0}
Sorted less (x ∷ []) = Unit {0}
Sorted less (x ∷ y ∷ ys) = (less y x ≡ false) × Sorted less (y ∷ ys)

-- `e` goes between `xs` and `ys`: it is less than no element of `xs`, and than the first of `ys`.
abbrev pub Place : (ℕ → ℕ → Bool) → ℕ → List ℕ → List ℕ → Type 0
Place less e [] [] = Unit {0}
Place less e [] (y ∷ ys) = less e y ≡ true
Place less e (x ∷ xs) ys = (less e x ≡ false) × Place less e xs ys

module _ (less : ℕ → ℕ → Bool) (l : Links) (list : KList) (e : ℕ) where
  place_loop-Place :
      (fuel p : ℕ) (zs : List ℕ)
      → Ahead l list p zs
      → length zs < fuel
      → (xs ys : List ℕ) × (zs ≡ xs ++ ys)
        × (place_loop less fuel l list e (first zs list.tail) ≡ ok (first ys list.tail))
        × Place less e xs ys
  unfolding place_loop
  place_loop-Place zero p zs a h = absurd (omega arith)
  place_loop-Place (suc fuel) p [] a h = ([], [], refl, ground arith, tt)
  place_loop-Place (suc fuel) p (z ∷ zs) a h =
      let (ne, next, a') = step l list p z zs a in
      let (xs, ys, q, r, pl) = place_loop-Place fuel z zs a' (ground arith) in
      elim (Bool-cases (less e z)) [
        | inl t ↦ ([], z ∷ zs, refl, ground (arith, ne, t), t)
        | inr f ↦ (z ∷ xs, ys, ap (◌∷◌ z) q, ground (arith, ne, next, f, r), (f, pl))
      ]

Sorted-insert :
    (less : ℕ → ℕ → Bool)
    → Transitive less
    → Irreflexive less
    → (e : ℕ) (xs ys : List ℕ) → Sorted less (xs ++ ys)
    → Place less e xs ys
    → Sorted less (xs ++ e ∷ ys)
Sorted-insert less trans irr e [] [] s p = tt
Sorted-insert less trans irr e [] (y ∷ ys) s p = (ground (arith, trans e y e, irr e), s)
Sorted-insert less trans irr e (x ∷ []) [] s p = (p.0, tt)
Sorted-insert less trans irr e (x ∷ []) (y ∷ ys) s p =
    (p.0, (ground (arith, trans e y e, irr e), s.1))
Sorted-insert less trans irr e (x ∷ x' ∷ xs) ys s p =
    (s.0, Sorted-insert less trans irr e (x' ∷ xs) ys s.1 p.1)

ordered_round :
    (less : ℕ → ℕ → Bool) (l : Links) (list : KList) (e fuel a b : ℕ) (g : Links)
    → e ≢ null
    → l.next list.head ≡ a
    → place_loop less fuel l list e a ≡ ok b
    → list_insert l b e ≡ ok g
    → list_insert_ordered less fuel l list e ≡ ok g
unfolding list_insert_ordered
ordered_round less l list e fuel a b g real q r s =
    ap
      (λ c.
        assert (not (e == null)) >> (place_loop less fuel l list e c >>= λ d. list_insert l d e))
      q
    ∙ ground (arith, ==_ne e null real, r, s)

-- list_insert_ordered puts an element that is not in the list behind the elements that it is not
-- less than up to the first that it is less than, with fuel for one round more than there are
-- elements; a sorted list stays sorted, and no link outside the list changes. `less` is a strict
-- order.
pub insert_ordered-Place :
    (less : ℕ → ℕ → Bool) (l : Links) (list : KList) (zs : List ℕ) (e fuel : ℕ)
    → Transitive less
    → Irreflexive less
    → IsList l list zs
    → e ≢ null
    → mem e (list.head ∷ zs ++ list.tail ∷ []) ≡ false
    → length zs < fuel
    → (xs ys : List ℕ) × (zs ≡ xs ++ ys)
      × Place less e xs ys
      × (Sorted less zs → Sorted less (xs ++ e ∷ ys))
      × Inserted l list (xs ++ e ∷ ys) (list_insert_ordered less fuel l list e)
insert_ordered-Place less l list zs e fuel trans irr v real out h =
    let (xs, ys, q, r, pl) =
      place_loop-Place less l list e fuel list.head zs (start l list zs v) h in
    let (g, r', is, same) =
      insert-IsList l list xs ys e (subst (IsList l list) q v) real
        (subst (λ ws. mem e (list.head ∷ ws ++ list.tail ∷ []) ≡ false) q out) in
    (
      xs,
      ys,
      q,
      pl,
      (λ s. Sorted-insert less trans irr e xs ys (subst (Sorted less) q s) pl),
      (
        g,
        ordered_round less l list e fuel (first zs list.tail) (first ys list.tail) g real
            (next-first l list.head zs list.tail v.chain) r r',
        is,
        same,
      ),
    )
