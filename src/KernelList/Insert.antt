-- ===== src/KernelList/Insert.antt =====
-- list_insert of lib/kernel/list.c.
use mathlib.Core.List.{append-nil}
use ee468_pintos_project.Prelude.{
  ℕ, ◌≡◌, ◌≢◌, refl, sym, ap, ◌∙◌, subst, true, false, ◌==◌, List, [], ◌∷◌, ◌++◌, arith, ==_refl,
  ==_ne, ok, if◌then◌else◌, Outcome,
}
use ee468_pintos_project.Memory.{null}
use ee468_pintos_project.KernelList.{
  Links, KList, insert_links, list_insert, is_interior, is_tail, list_push_back, list_push_front,
  list_init,
}
use ee468_pintos_project.KernelList.Chain.{
  mem, Distinct, first, final, Chain, mem-append, mem-final, prev-first, next-first, Chain-split,
  Chain-append, Chain-end, Chain-start, Disjoint, append-Distinct, IsList, SameOutside, mem-first,
  ne_of_mem, mem-nodes, mem-last, parts, front-real, back-real, first-real, final-real, prev-gap,
  nodes_assoc,
}

module _ (l : Links) (p : ℕ) (xs ys : List ℕ) (q e : ℕ) (chain : Chain l p (xs ++ ys) q)
    (dx : Distinct (p ∷ xs)) (dy : Distinct (ys ++ q ∷ []))
    (apart : Disjoint (p ∷ xs) (ys ++ q ∷ [])) (out : mem e (p ∷ xs) ≡ false)
    (out' : mem e (ys ++ q ∷ []) ≡ false) where
  before : ℕ
  before = first ys q

  g : Links
  unfolding before
  g = insert_links l before e

  prev_before : l.prev before ≡ final p xs
  unfolding before
  prev_before = prev-first l (final p xs) ys q (Chain-split l p xs ys q chain).1

  e_ne_before : e ≢ before
  unfolding before
  e_ne_before h = ground (arith, mem-first q ys, ap (λ a. mem a (ys ++ q ∷ [])) h)

  next-g : (a : ℕ) → g.next a ≡ (if a == final p xs then e else if a == e then before else l.next a)
  unfolding insert_links g
  next-g a = ground (arith, prev_before, e_ne_before)

  prev-g : (a : ℕ) → g.prev a ≡ (if a == before then e else if a == e then final p xs else l.prev a)
  unfolding insert_links g
  prev-g a = ground (arith, prev_before, e_ne_before)

  e_ne_final : e ≢ final p xs
  e_ne_final h = ground (arith, mem-final p xs, ap (λ a. mem a (p ∷ xs)) h)

  -- An element of the front is not behind the gap.
  front_ne_before : (a : ℕ) → mem a (p ∷ xs) ≡ true → a ≢ before
  unfolding before
  front_ne_before a m h = ground (arith, mem-first q ys, apart a, ap (λ b. mem b (ys ++ q ∷ [])) h)

  back_ne_final : (a : ℕ) → mem a (ys ++ q ∷ []) ≡ true → a ≢ final p xs
  back_ne_final a m h = ground (arith, mem-final p xs, apart a, ap (λ b. mem b (p ∷ xs)) h)

  in_ne_e : (a : ℕ) (zs : List ℕ) → mem e zs ≡ false → mem a zs ≡ true → a ≢ e
  in_ne_e a zs n m h = ground (arith, ap (λ b. mem b zs) h)

  front-Chain : Chain g p xs e
  unfolding before
  front-Chain =
      Chain-end l g p xs before e (Chain-split l p xs ys q chain).0 dx
        (λ a m ne. ground (arith, next-g a, in_ne_e a (p ∷ xs) out m))
        (λ a m. ground (arith, prev-g a, in_ne_e a (p ∷ xs) out, front_ne_before a))
        (ground (arith, next-g (final p xs))) (ground (arith, prev-g e, e_ne_before))

  mem-init : (a : ℕ) (zs ws : List ℕ) → mem a zs ≡ true → mem a (zs ++ ws) ≡ true
  mem-init a zs ws m = ground (arith, mem-append a zs ws)

  back-Chain : Chain g e ys q
  unfolding before
  back-Chain =
      Chain-start l g (final p xs) ys q e (Chain-split l p xs ys q chain).1 dy
        (λ a m. ground (
          arith,
          next-g a,
          in_ne_e a (ys ++ q ∷ []) out',
          back_ne_final a,
          mem-init a ys (q ∷ []) m,
        ))
        (λ a m ne. ground (arith, prev-g a, in_ne_e a (ys ++ q ∷ []) out' m))
        (ground (arith, next-g e, e_ne_final)) (ground (arith, prev-g before))

  pub insert_links-Chain : Chain (insert_links l (first ys q) e) p (xs ++ e ∷ ys) q
  unfolding g before
  insert_links-Chain =
      Chain-append g p xs (e ∷ ys) q front-Chain
        (ground (arith, next-g (final p xs)), ground (arith, prev-g e, e_ne_before), back-Chain)

  -- No other link changes.
  pub insert_links_frame :
      (a : ℕ)
      → a ≢ e
      → mem a (p ∷ xs) ≡ false
      → mem a (ys ++ q ∷ []) ≡ false
      → let g' = insert_links l (first ys q) e in (g'.next a ≡ l.next a) × (g'.prev a ≡ l.prev a)
  unfolding g before
  insert_links_frame a ne o o' =
      let n : a ≢ final p xs = λ h. ground (arith, mem-final p xs, ap (λ b. mem b (p ∷ xs)) h) in
      let m : a ≢ before = λ h. ground (arith, mem-first q ys, ap (λ b. mem b (ys ++ q ∷ [])) h) in
      (ground (arith, next-g a), ground (arith, prev-g a))

  -- The links that lead out of the chain stay.
  pub insert_links_ends :
      let g' = insert_links l (first ys q) e in (g'.prev p ≡ l.prev p) × (g'.next q ≡ l.next q)
  unfolding g before
  insert_links_ends = (
    ground (
      arith,
      prev-g p,
      front_ne_before p (ground (arith, ==_refl p)),
      in_ne_e p (p ∷ xs) out (ground (arith, ==_refl p)),
    ),
    ground (
      arith,
      next-g q,
      back_ne_final q (mem-last q ys),
      in_ne_e q (ys ++ q ∷ []) out' (mem-last q ys),
    ),
  )

-- The assertions of list_insert hold.
list_insert_ok :
    (l : Links) (b e : ℕ)
    → b ≢ null
    → l.prev b ≢ null
    → e ≢ null
    → list_insert l b e ≡ ok (insert_links l b e)
unfolding list_insert is_interior is_tail
list_insert_ok l b e hb hp he =
    ground (arith, ==_ne b null hb, ==_ne (l.prev b) null hp, ==_ne e null he)

-- list_insert before the first element of `ys`, or before the tail if there is none, of an element
-- that is not in the list, puts it there; no link outside the list and the element changes.
pub insert-IsList :
    (l : Links) (list : KList) (xs ys : List ℕ) (e : ℕ)
    → IsList l list (xs ++ ys)
    → e ≢ null
    → mem e (list.head ∷ (xs ++ ys) ++ list.tail ∷ []) ≡ false
    → (g : Links) × (list_insert l (first ys list.tail) e ≡ ok g)
      × IsList g list (xs ++ e ∷ ys)
      × SameOutside (list.head ∷ (xs ++ e ∷ ys) ++ list.tail ∷ []) l g
insert-IsList l list xs ys e v real out =
    let (dx, dy, apart) = parts l list xs ys v in
    let os = mem-nodes l list xs ys e in
    let out1 : mem e (list.head ∷ xs) ≡ false = ground arith in
    let out2 : mem e (ys ++ list.tail ∷ []) ≡ false = ground arith in
    let ends = insert_links_ends l list.head xs ys list.tail e v.chain dx dy apart out1 out2 in
    let frame = insert_links_frame l list.head xs ys list.tail e v.chain dx dy apart out1 out2 in
    (
      insert_links l (first ys list.tail) e,
      list_insert_ok l (first ys list.tail) e (first-real l list xs ys v)
          (λ h. final-real l list xs ys v (sym (prev-gap l list xs ys v) ∙ h)) real,
      record {
        chain = insert_links-Chain l list.head xs ys list.tail e v.chain dx dy apart out1 out2;
        head_prev = ends.0 ∙ v.head_prev;
        tail_next = ends.1 ∙ v.tail_next;
        apart = subst Distinct (sym (nodes_assoc l list xs (e ∷ ys))) (
            append-Distinct (list.head ∷ xs) (e ∷ ys ++ list.tail ∷ []) dx (out2, dy)
              (λ a m. ground (arith, apart a m, ne_of_mem a e (list.head ∷ xs) m out1)));
        real = ground (
          arith,
          real,
          mem-nodes l list xs (e ∷ ys) null,
          front-real l list xs ys v,
          back-real l list xs ys v,
        );
      },
      λ a o.
          frame a (λ h. ground (arith, mem-nodes l list xs (e ∷ ys) a, ==_ne a e))
            (ground (arith, mem-nodes l list xs (e ∷ ys) a))
            (ground (arith, mem-nodes l list xs (e ∷ ys) a)),
    )

-- What an insertion of `e` leaves: `after` is in the list, and no other link changed.
abbrev pub Inserted : Links → KList → List ℕ → Outcome Links → Type 0
Inserted l list after r =
    (g : Links) × (r ≡ ok g)
    × IsList g list after
    × SameOutside (list.head ∷ after ++ list.tail ∷ []) l g

-- list_push_front and list_push_back put an element that is not in the list at the front and at the
-- back of it.
pub push-IsList :
    (l : Links) (list : KList) (xs : List ℕ) (e : ℕ)
    → IsList l list xs
    → e ≢ null
    → mem e (list.head ∷ xs ++ list.tail ∷ []) ≡ false
    → Inserted l list (e ∷ xs) (list_push_front l list e)
      × Inserted l list (xs ++ e ∷ []) (list_push_back l list e)
unfolding list_push_front list_push_back
push-IsList l list xs e v real out = (
  subst (λ b. Inserted l list (e ∷ xs) (list_insert l b e))
      (sym (next-first l list.head xs list.tail v.chain)) (insert-IsList l list [] xs e v real out),
  insert-IsList l list xs [] e (subst (IsList l list) (sym (append-nil xs)) v) real
      (subst (λ zs. mem e (list.head ∷ zs ++ list.tail ∷ []) ≡ false) (sym (append-nil xs)) out),
)

-- list_init makes an empty list of two distinct real sentinels, whatever the links were.
pub list_init-IsList :
    (l : Links) (list : KList)
    → list.head ≢ null
    → list.tail ≢ null
    → list.head ≢ list.tail
    → IsList (list_init l list) list []
      × SameOutside (list.head ∷ list.tail ∷ []) l (list_init l list)
unfolding list_init
list_init-IsList l list h t ne = (
  record {
    chain = (ground (arith, ne), ground (arith, ne));
    head_prev = ground (arith, ne);
    tail_next = ground (arith, ne);
    apart = (ground (arith, ==_ne list.head list.tail ne), (refl, tt));
    real = ground (arith, h, t);
  },
  λ a o. (ground arith, ground arith),
)
