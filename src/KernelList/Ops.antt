-- ===== src/KernelList/Ops.antt =====
-- list_front, list_back, list_pop_front, list_pop_back, list_empty and list_size of
-- lib/kernel/list.c, on a list that holds given elements.
use mathlib.Core.List.{append-nil}
use ee468_pintos_project.Prelude.{
  ℕ, ◌≡◌, sym, ap, ◌∙◌, subst, true, false, ◌==◌, List, [], ◌∷◌, ◌++◌, arith, ==_refl, ==_ne, ok,
  panic, Outcome, ◌>>=◌,
}
use ee468_pintos_project.KernelList.{
  Links, KList, list_remove, list_pop_front, list_pop_back, list_front, list_back, list_empty,
}
use ee468_pintos_project.KernelList.Chain.{mem-last, Chain-split, IsList, ne_of_mem}
use ee468_pintos_project.KernelList.Remove.{Removed, remove-IsList}

module _ (l : Links) (list : KList) where
  -- The list is empty just when it has no elements.
  pub empty_nil : IsList l list [] → list_empty l list ≡ true
  unfolding list_empty
  empty_nil v = ap (λ a. a == list.tail) v.chain.0 ∙ ==_refl list.tail

  pub empty_cons : (x : ℕ) (xs : List ℕ) → IsList l list (x ∷ xs) → list_empty l list ≡ false
  unfolding list_empty
  empty_cons x xs v =
      ap (λ a. a == list.tail) v.chain.0
      ∙ ==_ne x list.tail (λ h.
        ne_of_mem list.tail x (xs ++ list.tail ∷ []) (mem-last list.tail xs) v.apart.1.0 (sym h))

  empty_append : (xs ys : List ℕ) (e : ℕ) → IsList l list (xs ++ e ∷ ys) → list_empty l list ≡ false
  empty_append [] ys e v = empty_cons e ys v
  empty_append (x ∷ xs) ys e v = empty_cons x (xs ++ e ∷ ys) v

-- The removal of the element that list_front or list_back found.
take : Links → Outcome ℕ → Outcome (Links × ℕ)
take l found = found >>= λ e. list_remove l e >>= λ r. ok (r.0, e)

take-Removed :
    (l : Links) (list : KList) (xs ys : List ℕ) (e : ℕ) (found : Outcome ℕ)
    → IsList l list (xs ++ e ∷ ys)
    → found ≡ ok e
    → Removed l list (xs ++ ys) e (take l found)
unfolding take
take-Removed l list xs ys e found v h =
    let (g, r, is, same) = remove-IsList l list xs ys e v in
    (g, ap (take l) h ∙ ap (λ r. r >>= λ b. ok (b.0, e)) r, is, same)

-- list_pop_front takes the first element out of a list that has one and returns it; no link outside
-- the list changes, and a list without elements stops the kernel.
pub pop_front-Removed :
    (l : Links) (list : KList)
    → (IsList l list [] → list_pop_front l list ≡ panic)
      × ((e : ℕ) (xs : List ℕ)
          → IsList l list (e ∷ xs)
          → Removed l list xs e (list_pop_front l list))
unfolding list_pop_front list_front take
pop_front-Removed l list = (
  λ v. ground (arith, empty_nil l list v),
  λ e xs v.
      take-Removed l list [] xs e (list_front l list) v
        (ground (arith, empty_cons l list e xs v, v.chain.0)),
)

-- list_pop_back takes the last element out of a list that has one and returns it; no link outside
-- the list changes, and a list without elements stops the kernel.
pub pop_back-Removed :
    (l : Links) (list : KList)
    → (IsList l list [] → list_pop_back l list ≡ panic)
      × ((e : ℕ) (xs : List ℕ)
          → IsList l list (xs ++ e ∷ [])
          → Removed l list xs e (list_pop_back l list))
unfolding list_pop_back list_back take
pop_back-Removed l list = (
  λ v. ground (arith, empty_nil l list v),
  λ e xs v.
      subst (λ zs. Removed l list zs e (list_pop_back l list)) (append-nil xs)
        (take-Removed l list xs [] e (list_back l list) v (
          ground (
            arith,
            empty_append l list xs [] e v,
            (Chain-split l list.head xs (e ∷ []) list.tail v.chain).1.2.1,
          ))),
)
