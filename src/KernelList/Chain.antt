-- ===== src/KernelList/Chain.antt =====
-- What the links of lib/kernel/list.c stand for: chains of elements between two ends, and how a
-- change of links at an end of a chain gives another chain.
use mathlib.Core.List.{append_assoc}
use ee468_pintos_project.Prelude.{
  ℕ, ◌≡◌, ◌≢◌, refl, ap, ◌∙◌, Bool, true, false, ◌||◌, ◌==◌, List, [], ◌∷◌, ◌++◌, arith, ==_refl,
  subst,
}
use ee468_pintos_project.Memory.{null}
use ee468_pintos_project.KernelList.{Links, KList}

abbrev pub mem : ℕ → List ℕ → Bool
mem a [] = false
mem a (x ∷ xs) = (a == x) || mem a xs

abbrev pub Distinct : List ℕ → Type 0
Distinct [] = Unit {0}
Distinct (x ∷ xs) = (mem x xs ≡ false) × Distinct xs

-- The element that follows when `xs` is followed by `q`, and the one before the end after `p`.
abbrev pub first : List ℕ → ℕ → ℕ
first [] q = q
first (x ∷ xs) q = x

abbrev pub final : ℕ → List ℕ → ℕ
final p [] = p
final p (x ∷ xs) = final x xs

-- From `p` the links lead through `xs` to `q`, and back.
abbrev pub Chain : Links → ℕ → List ℕ → ℕ → Type 0
Chain l p [] q = (l.next p ≡ q) × (l.prev q ≡ p)
Chain l p (x ∷ xs) q = (l.next p ≡ x) × (l.prev x ≡ p) × Chain l x xs q

pub mem-append : (a : ℕ) (xs ys : List ℕ) → mem a (xs ++ ys) ≡ (mem a xs || mem a ys)
mem-append a [] ys = refl
mem-append a (x ∷ xs) ys = ground (arith, mem-append a xs ys)

pub mem-final : (p : ℕ) (xs : List ℕ) → mem (final p xs) (p ∷ xs) ≡ true
mem-final p [] = ground arith
mem-final p (x ∷ xs) = ground (arith, mem-final x xs)

pub next-first : (l : Links) (p : ℕ) (xs : List ℕ) (q : ℕ) → Chain l p xs q → l.next p ≡ first xs q
next-first l p [] q c = c.0
next-first l p (x ∷ xs) q c = c.0

pub prev-first :
    (l : Links) (p : ℕ) (xs : List ℕ) (q : ℕ) → Chain l p xs q → l.prev (first xs q) ≡ p
prev-first l p [] q c = c.1
prev-first l p (x ∷ xs) q c = c.1

pub prev-final : (l : Links) (p : ℕ) (xs : List ℕ) (q : ℕ) → Chain l p xs q → l.prev q ≡ final p xs
prev-final l p [] q c = c.1
prev-final l p (x ∷ xs) q c = prev-final l x xs q c.2

pub next-final :
    (l : Links) (p : ℕ) (xs : List ℕ) (q : ℕ) → Chain l p xs q → l.next (final p xs) ≡ q
next-final l p [] q c = c.0
next-final l p (x ∷ xs) q c = next-final l x xs q c.2

pub Chain-split :
    (l : Links) (p : ℕ) (xs ys : List ℕ) (q : ℕ)
    → Chain l p (xs ++ ys) q
    → Chain l p xs (first ys q) × Chain l (final p xs) ys q
Chain-split l p [] ys q c = ((next-first l p ys q c, prev-first l p ys q c), c)
Chain-split l p (x ∷ xs) ys q c = let (a, b) = Chain-split l x xs ys q c.2 in ((c.0, c.1, a), b)

pub Chain-append :
    (l : Links) (p : ℕ) (xs ys : List ℕ) (q : ℕ)
    → Chain l p xs (first ys q)
    → Chain l (final p xs) ys q
    → Chain l p (xs ++ ys) q
Chain-append l p [] ys q a b = b
Chain-append l p (x ∷ xs) ys q a b = (a.0, a.1, Chain-append l x xs ys q a.2 b)

-- The two states of the links agree on `next` at `xs`, on `prev` at `ys`.
abbrev pub SameNext : Links → Links → List ℕ → Type 0
SameNext l g xs = (a : ℕ) → mem a xs ≡ true → g.next a ≡ l.next a

abbrev pub SamePrev : Links → Links → List ℕ → Type 0
SamePrev l g ys = (a : ℕ) → mem a ys ≡ true → g.prev a ≡ l.prev a

-- A chain with a new end: only the last link to it changes.
pub Chain-end :
    (l g : Links) (p : ℕ) (xs : List ℕ) (q e : ℕ)
    → Chain l p xs q
    → Distinct (p ∷ xs)
    → ((a : ℕ) → mem a (p ∷ xs) ≡ true → a ≢ final p xs → g.next a ≡ l.next a)
    → SamePrev l g xs
    → g.next (final p xs) ≡ e
    → g.prev e ≡ final p xs
    → Chain g p xs e
Chain-end l g p [] q e c d n s h k = (h, k)
Chain-end l g p (x ∷ xs) q e c d n s h k = (
  n p (ground (arith, ==_refl p)) (ground (arith, mem-final x xs)) ∙ c.0,
  s x (ground (arith, ==_refl x)) ∙ c.1,
  Chain-end l g x xs q e c.2 d.1 (λ a m ne. n a (ground arith) ne) (λ a m. s a (ground arith)) h k,
)

Chain-frame :
    (l g : Links) (p : ℕ) (xs : List ℕ) (q : ℕ)
    → Chain l p xs q
    → SameNext l g (p ∷ xs)
    → SamePrev l g (xs ++ q ∷ [])
    → Chain g p xs q
Chain-frame l g p [] q c n s =
    (n p (ground (arith, ==_refl p)) ∙ c.0, s q (ground (arith, ==_refl q)) ∙ c.1)
Chain-frame l g p (x ∷ xs) q c n s = (
  n p (ground (arith, ==_refl p)) ∙ c.0,
  s x (ground (arith, ==_refl x)) ∙ c.1,
  Chain-frame l g x xs q c.2 (λ a m. n a (ground arith)) (λ a m. s a (ground arith)),
)

-- A chain with a new start: only the first link changes.
pub Chain-start :
    (l g : Links) (p : ℕ) (xs : List ℕ) (q e : ℕ)
    → Chain l p xs q
    → Distinct (xs ++ q ∷ [])
    → SameNext l g xs
    → ((a : ℕ) → mem a (xs ++ q ∷ []) ≡ true → a ≢ first xs q → g.prev a ≡ l.prev a)
    → g.next e ≡ first xs q
    → g.prev (first xs q) ≡ e
    → Chain g e xs q
Chain-start l g p [] q e c d n s h k = (h, k)
Chain-start l g p (x ∷ xs) q e c d n s h k =
    (h, k, Chain-frame l g x xs q c.2 n (λ a m. s a (ground arith) (ground arith)))

abbrev pub Disjoint : List ℕ → List ℕ → Type 0
Disjoint xs ys = (a : ℕ) → mem a xs ≡ true → mem a ys ≡ false

pub Distinct-append :
    (xs ys : List ℕ) → Distinct (xs ++ ys) → Distinct xs × Distinct ys × Disjoint xs ys
Distinct-append [] ys d = (tt, d, λ a m. cc)
Distinct-append (x ∷ xs) ys d =
    let (dx, dy, apart) = Distinct-append xs ys d.1 in
    (
      (ground (arith, d.0, mem-append x xs ys), dx),
      dy,
      λ a m. ground (arith, d.0, mem-append x xs ys, apart a),
    )

pub append-Distinct :
    (xs ys : List ℕ) → Distinct xs → Distinct ys → Disjoint xs ys → Distinct (xs ++ ys)
append-Distinct [] ys dx dy apart = dy
append-Distinct (x ∷ xs) ys dx dy apart = (
  ground (arith, dx.0, mem-append x xs ys, apart x, ==_refl x),
  append-Distinct xs ys dx.1 dy (λ a m. apart a (ground arith)),
)

-- The list `list` holds the elements `xs`, in this order: a chain between two real sentinels, over
-- distinct real elements.
pub record IsList (l : Links) (list : KList) (xs : List ℕ) : Type 0 where
  pub chain : Chain l list.head xs list.tail
  pub head_prev : l.prev list.head ≡ null
  pub tail_next : l.next list.tail ≡ null
  pub apart : Distinct (list.head ∷ xs ++ list.tail ∷ [])
  pub real : mem null (list.head ∷ xs ++ list.tail ∷ []) ≡ false

-- The links outside the addresses `xs` are the same.
abbrev pub SameOutside : List ℕ → Links → Links → Type 0
SameOutside xs l g = (a : ℕ) → mem a xs ≡ false → (g.next a ≡ l.next a) × (g.prev a ≡ l.prev a)

pub mem-first : (q : ℕ) (zs : List ℕ) → mem (first zs q) (zs ++ q ∷ []) ≡ true
mem-first q [] = ground (arith, ==_refl q)
mem-first q (z ∷ zs) = ground (arith, ==_refl z)

pub mem-last : (q : ℕ) (zs : List ℕ) → mem q (zs ++ q ∷ []) ≡ true
mem-last q [] = ground (arith, ==_refl q)
mem-last q (z ∷ zs) = ground (arith, mem-last q zs)

pub ne_of_mem : (a b : ℕ) (zs : List ℕ) → mem a zs ≡ true → mem b zs ≡ false → a ≢ b
ne_of_mem a b zs m n h = ground (arith, ap (λ c. mem c zs) h)

-- A list seen as a front and a back.
module _ (l : Links) (list : KList) (xs ys : List ℕ) where
  pub nodes_assoc :
      list.head ∷ (xs ++ ys) ++ list.tail ∷ [] ≡ (list.head ∷ xs) ++ (ys ++ list.tail ∷ [])
  nodes_assoc = ap (◌∷◌ list.head) (append_assoc xs ys (list.tail ∷ []))

  pub mem-nodes :
      (a : ℕ)
      → mem a (list.head ∷ (xs ++ ys) ++ list.tail ∷ [])
        ≡ (mem a (list.head ∷ xs) || mem a (ys ++ list.tail ∷ []))
  mem-nodes a = ap (mem a) nodes_assoc ∙ mem-append a (list.head ∷ xs) (ys ++ list.tail ∷ [])

  module _ (v : IsList l list (xs ++ ys)) where
    pub parts :
        Distinct (list.head ∷ xs)
        × Distinct (ys ++ list.tail ∷ [])
        × Disjoint (list.head ∷ xs) (ys ++ list.tail ∷ [])
    parts =
        Distinct-append (list.head ∷ xs) (ys ++ list.tail ∷ []) (subst Distinct nodes_assoc v.apart)

    pub front-real : mem null (list.head ∷ xs) ≡ false
    front-real = ground (arith, v.real, mem-nodes null)

    pub back-real : mem null (ys ++ list.tail ∷ []) ≡ false
    back-real = ground (arith, v.real, mem-nodes null)

    -- The first element behind the gap, and the one before it, are real.
    pub first-real : first ys list.tail ≢ null
    first-real = ne_of_mem _ null (ys ++ list.tail ∷ []) (mem-first list.tail ys) back-real

    pub final-real : final list.head xs ≢ null
    final-real = ne_of_mem _ null (list.head ∷ xs) (mem-final list.head xs) front-real

    pub prev-gap : l.prev (first ys list.tail) ≡ final list.head xs
    prev-gap =
        prev-first l (final list.head xs) ys list.tail
          (Chain-split l list.head xs ys list.tail v.chain).1
