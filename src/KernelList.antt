-- ===== src/KernelList.antt =====
-- lib/kernel/list.c: doubly linked lists with a head and a tail sentinel, over the links of all
-- elements. An element is its address; null is 0. A loop takes fuel and is `running` without it.
pub mod Chain
pub mod Insert
pub mod Remove
pub mod Walk
pub mod Ops
mod Tests
use ee468_pintos_project.Prelude.{
  ℕ, zero, suc, ◌+◌, Bool, true, false, not, ◌&&◌, ◌||◌, ◌==◌, if◌then◌else◌, Outcome, ok, running,
  ◌>>=◌, ◌>>◌, assert,
}
use ee468_pintos_project.Memory.{null, poke}

-- `next` and `prev` of every struct list_elem.
pub record Links : Type 0 where
  pub next : ℕ → ℕ
  pub prev : ℕ → ℕ

-- The addresses of the two sentinels of a struct list.
pub record KList : Type 0 where
  pub head : ℕ
  pub tail : ℕ

abbrev pub set_next : ℕ → ℕ → Links → Links
set_next e v l = record l { next = poke l.next e v }

abbrev pub set_prev : ℕ → ℕ → Links → Links
set_prev e v l = record l { prev = poke l.prev e v }

pub is_head : Links → ℕ → Bool
is_head l elem = not (elem == null) && (l.prev elem == null) && not (l.next elem == null)

pub is_interior : Links → ℕ → Bool
is_interior l elem = not (elem == null) && not (l.prev elem == null) && not (l.next elem == null)

pub is_tail : Links → ℕ → Bool
is_tail l elem = not (elem == null) && not (l.prev elem == null) && (l.next elem == null)

unfoldable pub list_init : Links → KList → Links
list_init l list =
    set_next list.tail null
      (set_prev list.tail list.head (set_next list.head list.tail (set_prev list.head null l)))

abbrev pub list_begin : Links → KList → ℕ
list_begin l list = l.next list.head

abbrev pub list_end : KList → ℕ
list_end list = list.tail

abbrev pub list_rbegin : Links → KList → ℕ
list_rbegin l list = l.prev list.tail

abbrev pub list_rend : KList → ℕ
list_rend list = list.head

abbrev pub list_head : KList → ℕ
list_head list = list.head

abbrev pub list_tail : KList → ℕ
list_tail list = list.tail

unfoldable pub list_next : Links → ℕ → Outcome ℕ
list_next l elem = do assert (is_head l elem || is_interior l elem); ok (l.next elem)

unfoldable pub list_prev : Links → ℕ → Outcome ℕ
list_prev l elem = do assert (is_interior l elem || is_tail l elem); ok (l.prev elem)

-- The four assignments of list_insert.
pub insert_links : Links → (before elem : ℕ) → Links
insert_links l before elem =
    let l1 = set_next elem before (set_prev elem (l.prev before) l) in
    set_prev before elem (set_next (l1.prev before) elem l1)

unfoldable pub list_insert : Links → (before elem : ℕ) → Outcome Links
list_insert l before elem = do
  assert (is_interior l before || is_tail l before)
  assert (not (elem == null))
  ok (insert_links l before elem)

unfoldable pub list_push_front : Links → KList → ℕ → Outcome Links
list_push_front l list elem = list_insert l (list_begin l list) elem

unfoldable pub list_push_back : Links → KList → ℕ → Outcome Links
list_push_back l list elem = list_insert l (list_end list) elem

-- The two assignments of list_remove.
pub remove_links : Links → ℕ → Links
remove_links l elem =
    let l1 = set_next (l.prev elem) (l.next elem) l in set_prev (l1.next elem) (l1.prev elem) l1

-- The result is the element that followed.
unfoldable pub list_remove : Links → ℕ → Outcome (Links × ℕ)
list_remove l elem = do
  assert (is_interior l elem)
  let l' = remove_links l elem
  ok (l', l'.next elem)

unfoldable pub list_empty : Links → KList → Bool
list_empty l list = list_begin l list == list_end list

unfoldable pub list_front : Links → KList → Outcome ℕ
list_front l list = do assert (not (list_empty l list)); ok (l.next list.head)

unfoldable pub list_back : Links → KList → Outcome ℕ
list_back l list = do assert (not (list_empty l list)); ok (l.prev list.tail)

unfoldable pub list_pop_front : Links → KList → Outcome (Links × ℕ)
list_pop_front l list = do
  front ← list_front l list
  (l', after) ← list_remove l front
  ok (l', front)

unfoldable pub list_pop_back : Links → KList → Outcome (Links × ℕ)
list_pop_back l list = do back ← list_back l list; (l', after) ← list_remove l back; ok (l', back)

pub size_loop : ℕ → Links → KList → (e cnt : ℕ) → Outcome ℕ
size_loop zero l list e cnt = running
size_loop (suc fuel) l list e cnt =
    if e == list_end list then ok cnt else do e' ← list_next l e; size_loop fuel l list e' (cnt + 1)

pub list_size : ℕ → Links → KList → Outcome ℕ
list_size fuel l list = size_loop fuel l list (list_begin l list) 0

-- `less a b` is the comparison of the elements `a` and `b` with its auxiliary data.
module _ (less : ℕ → ℕ → Bool) where
  pub place_loop : ℕ → Links → KList → (elem e : ℕ) → Outcome ℕ
  place_loop zero l list elem e = running
  place_loop (suc fuel) l list elem e =
      if e == list_end list
      then ok e
      else if less elem e
      then ok e
      else do e' ← list_next l e; place_loop fuel l list elem e'

  pub list_insert_ordered : ℕ → Links → KList → ℕ → Outcome Links
  list_insert_ordered fuel l list elem = do
    assert (not (elem == null))
    e ← place_loop fuel l list elem (list_begin l list)
    list_insert l e elem

  pub max_loop : ℕ → Links → KList → (e max : ℕ) → Outcome ℕ
  max_loop zero l list e max = running
  max_loop (suc fuel) l list e max =
      if e == list_end list
      then ok max
      else do e' ← list_next l e; max_loop fuel l list e' (if less max e then e else max)

  pub list_max : ℕ → Links → KList → Outcome ℕ
  list_max fuel l list =
      if list_begin l list == list_end list
      then ok (list_begin l list)
      else do e ← list_next l (list_begin l list); max_loop fuel l list e (list_begin l list)

  pub min_loop : ℕ → Links → KList → (e min : ℕ) → Outcome ℕ
  min_loop zero l list e min = running
  min_loop (suc fuel) l list e min =
      if e == list_end list
      then ok min
      else do e' ← list_next l e; min_loop fuel l list e' (if less e min then e else min)

  pub list_min : ℕ → Links → KList → Outcome ℕ
  list_min fuel l list =
      if list_begin l list == list_end list
      then ok (list_begin l list)
      else do e ← list_next l (list_begin l list); min_loop fuel l list e (list_begin l list)

-- The swaps of list_reverse: `prev` and `next` of each element, then the ends.
pub flip_loop : ℕ → KList → ℕ → Links → Outcome Links
flip_loop zero list e l = running
flip_loop (suc fuel) list e l =
    if e == list_end list
    then ok l
    else let l' = set_next e (l.prev e) (set_prev e (l.next e) l) in
      flip_loop fuel list (l'.prev e) l'

pub flip_ends : KList → Links → Links
flip_ends list l =
    let l1 = set_prev list.tail (l.next list.head) (set_next list.head (l.prev list.tail) l) in
    let first = l1.next list.head in
    let last = l1.prev list.tail in set_next last (l1.prev first) (set_prev first (l1.next last) l1)

pub list_reverse : ℕ → Links → KList → Outcome Links
list_reverse fuel l list =
    if list_empty l list
    then ok l
    else do l' ← flip_loop fuel list (list_begin l list) l; ok (flip_ends list l')
