-- ===== src/KernelList/Remove.antt =====
-- list_remove, list_pop_front and list_pop_back of lib/kernel/list.c.
use ee468_pintos_project.Prelude.{
  ℕ, ◌≡◌, ◌≢◌, sym, ap, ◌∙◌, subst, true, false, ◌==◌, List, [], ◌∷◌, ◌++◌, arith, ==_refl, ==_ne,
  ok, if◌then◌else◌, Outcome,
}
use ee468_pintos_project.Memory.{null}
use ee468_pintos_project.KernelList.{Links, KList, remove_links, list_remove, is_interior}
use ee468_pintos_project.KernelList.Chain.{
  mem, Distinct, first, final, Chain, mem-append, mem-final, mem-last, next-first, Chain-split,
  Chain-append, Chain-end, Chain-start, Disjoint, append-Distinct, IsList, SameOutside, mem-first,
  ne_of_mem, mem-nodes, parts, front-real, back-real, first-real, final-real, nodes_assoc,
}

module _ (l : Links) (p : ℕ) (xs ys : List ℕ) (q e : ℕ) (chain : Chain l p (xs ++ e ∷ ys) q)
    (dx : Distinct (p ∷ xs)) (de : Distinct (e ∷ ys ++ q ∷ []))
    (apart : Disjoint (p ∷ xs) (e ∷ ys ++ q ∷ [])) where
  after : ℕ
  after = first ys q

  g : Links
  g = remove_links l e

  back : Chain l (final p xs) (e ∷ ys) q
  back = (Chain-split l p xs (e ∷ ys) q chain).1

  next_e : l.next e ≡ after
  unfolding after
  next_e = next-first l e ys q back.2

  prev_e : l.prev e ≡ final p xs
  prev_e = back.1

  final_in : mem (final p xs) (p ∷ xs) ≡ true
  final_in = mem-final p xs

  after_in : mem after (ys ++ q ∷ []) ≡ true
  unfolding after
  after_in = mem-first q ys

  e_ne_final : e ≢ final p xs
  e_ne_final h = ground (arith, final_in, apart (final p xs) final_in)

  next-g : (a : ℕ) → g.next a ≡ (if a == final p xs then after else l.next a)
  unfolding remove_links g
  next-g a = ground (arith, prev_e, next_e)

  prev-g : (a : ℕ) → g.prev a ≡ (if a == after then final p xs else l.prev a)
  unfolding remove_links g
  prev-g a = ground (arith, prev_e, next_e, e_ne_final)

  front_ne_after : (a : ℕ) → mem a (p ∷ xs) ≡ true → a ≢ after
  front_ne_after a m h = ground (arith, after_in, apart a m, ap (λ b. mem b (ys ++ q ∷ [])) h)

  back_ne_final : (a : ℕ) → mem a (ys ++ q ∷ []) ≡ true → a ≢ final p xs
  back_ne_final a m h =
      ground (arith, apart (final p xs) final_in, ap (λ b. mem b (ys ++ q ∷ [])) h)

  front-Chain : Chain g p xs after
  unfolding after
  front-Chain =
      Chain-end l g p xs e after (Chain-split l p xs (e ∷ ys) q chain).0 dx
        (λ a m ne. ground (arith, next-g a, ne)) (λ a m. ground (arith, prev-g a, front_ne_after a))
        (ground (arith, next-g (final p xs))) (ground (arith, prev-g after))

  mem-init : (a : ℕ) (zs ws : List ℕ) → mem a zs ≡ true → mem a (zs ++ ws) ≡ true
  mem-init a zs ws m = ground (arith, mem-append a zs ws)

  back-Chain : Chain g (final p xs) ys q
  unfolding after
  back-Chain =
      Chain-start l g e ys q (final p xs) back.2 de.1
        (λ a m. ground (arith, next-g a, back_ne_final a, mem-init a ys (q ∷ []) m))
        (λ a m ne. ground (arith, prev-g a, ne)) (ground (arith, next-g (final p xs)))
        (ground (arith, prev-g after))

  pub remove_links-Chain : Chain (remove_links l e) p (xs ++ ys) q
  unfolding g after
  remove_links-Chain = Chain-append g p xs ys q front-Chain back-Chain

  -- The links that lead out of the chain stay, the element keeps its own, no other link changes.
  pub remove_links_frame :
      let g' = remove_links l e in
      (g'.prev p ≡ l.prev p)
      × (g'.next q ≡ l.next q)
      × (g'.next e ≡ first ys q)
      × ((a : ℕ)
          → mem a (p ∷ xs) ≡ false
          → mem a (ys ++ q ∷ []) ≡ false
          → (g'.next a ≡ l.next a) × (g'.prev a ≡ l.prev a))
  unfolding g after
  remove_links_frame = (
    ground (arith, prev-g p, front_ne_after p (ground (arith, ==_refl p))),
    ground (arith, next-g q, back_ne_final q (mem-last q ys)),
    ground (arith, next-g e, e_ne_final, next_e),
    λ a o o'. (
      ground (arith, next-g a, ne_of_mem _ a (p ∷ xs) final_in o),
      ground (arith, prev-g a, ne_of_mem _ a (ys ++ q ∷ []) after_in o'),
    ),
  )

-- The assertion of list_remove holds.
list_remove_ok :
    (l : Links) (e : ℕ)
    → e ≢ null
    → l.prev e ≢ null
    → l.next e ≢ null
    → list_remove l e ≡ ok (remove_links l e, (remove_links l e).next e)
unfolding list_remove is_interior
list_remove_ok l e he hp hn =
    ground (arith, ==_ne e null he, ==_ne (l.prev e) null hp, ==_ne (l.next e) null hn)

-- What the removal of an element leaves: `after` is in the list, the result is `out`, and no link
-- outside the list changed.
abbrev pub Removed : Links → KList → List ℕ → ℕ → Outcome (Links × ℕ) → Type 0
Removed l list after out r =
    (g : Links) × (r ≡ ok (g, out))
    × IsList g list after
    × SameOutside (list.head ∷ after ++ list.tail ∷ []) l g

-- list_remove takes an element out of the list that holds it, wherever it stands, and returns the
-- element behind it (the tail behind the last); no link of an element outside the list changes.
pub remove-IsList :
    (l : Links) (list : KList) (xs ys : List ℕ) (e : ℕ)
    → IsList l list (xs ++ e ∷ ys)
    → Removed l list (xs ++ ys) (first ys list.tail) (list_remove l e)
remove-IsList l list xs ys e v =
    let (dx, de, apart) = parts l list xs (e ∷ ys) v in
    let (fp, fq, fe, fo) = remove_links_frame l list.head xs ys list.tail e v.chain dx de apart in
    let cs = (Chain-split l list.head xs (e ∷ ys) list.tail v.chain).1 in
    let fr = front-real l list xs (e ∷ ys) v in
    let br = back-real l list xs (e ∷ ys) v in
    let real_next : l.next e ≢ null = λ h.
      ne_of_mem _ null (ys ++ list.tail ∷ []) (mem-first list.tail ys) (ground arith)
        (sym (next-first l e ys list.tail cs.2) ∙ h) in
    (
      remove_links l e,
      list_remove_ok l e (first-real l list xs (e ∷ ys) v)
            (λ h. final-real l list xs (e ∷ ys) v (sym cs.1 ∙ h)) real_next
          ∙ ap (λ b. ok (remove_links l e, b)) fe,
      record {
        chain = remove_links-Chain l list.head xs ys list.tail e v.chain dx de apart;
        head_prev = fp ∙ v.head_prev;
        tail_next = fq ∙ v.tail_next;
        apart = subst Distinct (sym (nodes_assoc l list xs ys)) (
            append-Distinct (list.head ∷ xs) (ys ++ list.tail ∷ []) dx de.1
              (λ a m. ground (arith, apart a m)));
        real = ground (arith, mem-nodes l list xs ys null);
      },
      λ a o.
          fo a (ground (arith, mem-nodes l list xs ys a))
            (ground (arith, mem-nodes l list xs ys a)),
    )
