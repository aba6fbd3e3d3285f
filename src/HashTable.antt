-- ===== src/HashTable.antt =====
-- lib/kernel/hash.c: a hash table with chaining, over the sequences that its bucket lists hold. An
-- element is its address. The functions `hash` and `less` that hash_init is given, with their auxiliary
-- data, are parameters of the section, and whether malloc returns memory is an argument `memory`.
pub mod Elements
pub mod Find
pub mod Rehash
pub mod Update
pub mod Map
pub mod Iterate
mod Tests
use ee468_pintos_project.Prelude.{
  ℕ, zero, suc, ◌+◌, ◌-◌, ◌*◌, ◌/◌, ◌%◌, ◌^◌, bit_and, Bool, true, false, not, ◌&&◌, ltb, ◌==◌,
  if◌then◌else◌, List, [], ◌∷◌, ◌++◌, Option, none, some, Outcome, ok, running, ◌>>=◌, add32,
}

-- The sequence of elements of each bucket list, by index.
abbrev pub Buckets : Type 0
Buckets = ℕ → List ℕ

pub record Hash : Type 0 where
  pub elem_cnt : ℕ
  pub bucket_cnt : ℕ
  pub buckets : Buckets

abbrev pub put_bucket : Buckets → ℕ → List ℕ → Buckets
put_bucket buckets idx list i = if i == idx then list else buckets i

abbrev pub push_front : Buckets → ℕ → ℕ → Buckets
push_front buckets idx e = put_bucket buckets idx (e ∷ buckets idx)

-- list_remove, which unlinks the element from the list that holds it.
abbrev pub unlink : ℕ → List ℕ → List ℕ
unlink e [] = []
unlink e (x ∷ xs) = if e == x then xs else x ∷ unlink e xs

-- The loop of hash_clear over the `n` buckets from `i` on: the emptied buckets and the elements given to
-- the destructor, in order.
unfoldable pub clear_buckets : (n i : ℕ) → Buckets → Buckets × List ℕ
clear_buckets zero i buckets = (buckets, [])
clear_buckets (suc n) i buckets =
    let (rest, calls) = clear_buckets n (suc i) (put_bucket buckets i []) in
    (rest, buckets i ++ calls)

-- The second result is what a destructor is called on.
unfoldable pub hash_clear : Hash → Hash × List ℕ
unfolding clear_buckets
hash_clear h =
    let (emptied, calls) = clear_buckets h.bucket_cnt 0 h.buckets in
    (record h { elem_cnt = 0; buckets = emptied }, calls)

-- `uninitialized` is what the memory of the buckets holds at first.
unfoldable pub hash_init : (memory : Bool) → (uninitialized : Buckets) → Hash × Bool
unfolding hash_clear
hash_init memory uninitialized =
    let h : Hash = record { elem_cnt = 0; bucket_cnt = 4; buckets = uninitialized } in
    if memory then ((hash_clear h).0, true) else (h, false)

-- What a destructor is called on, if there is one.
unfoldable pub hash_destroy : (destructor : Bool) → Hash → List ℕ
unfolding hash_clear
hash_destroy destructor h = if destructor then (hash_clear h).1 else []

abbrev pub hash_size : Hash → ℕ
hash_size h = h.elem_cnt

abbrev pub hash_empty : Hash → Bool
hash_empty h = h.elem_cnt == 0

abbrev pub turn_off_least_1bit : ℕ → ℕ
turn_off_least_1bit x = bit_and x (x - 1)

abbrev pub is_power_of_2 : ℕ → Bool
is_power_of_2 x = not (x == 0) && (turn_off_least_1bit x == 0)

-- `while (!is_power_of_2 (n)) n = turn_off_least_1bit (n);`
unfoldable pub power_loop : (fuel n : ℕ) → Outcome ℕ
power_loop zero n = running
power_loop (suc fuel) n = elim (is_power_of_2 n) [
  | true ↦ ok n
  | false ↦ power_loop fuel (turn_off_least_1bit n)
]

-- The number of buckets that rehash wants for `elem_cnt` elements.
unfoldable pub new_bucket_cnt : (fuel elem_cnt : ℕ) → Outcome ℕ
unfolding power_loop
new_bucket_cnt fuel elem_cnt = let n = elem_cnt / 2 in power_loop fuel (if ltb n 4 then 4 else n)

-- The elements of `n` buckets from `i` on, in the order in which hash_apply calls its action.
abbrev pub apply_buckets : (n i : ℕ) → Buckets → List ℕ
apply_buckets zero i buckets = []
apply_buckets (suc n) i buckets = buckets i ++ apply_buckets n (suc i) buckets

-- The elements that hash_apply calls its action on, in order.
abbrev pub hash_apply : Hash → List ℕ
hash_apply h = apply_buckets h.bucket_cnt 0 h.buckets

-- An iterator: its bucket, the elements behind the current one in that bucket, and the current one.
pub record HashIterator : Type 0 where
  pub bucket : ℕ
  pub behind : List ℕ
  pub elem : Option ℕ

-- At the head of the first bucket.
abbrev pub hash_first : Hash → HashIterator
hash_first h = record { bucket = 0; behind = h.buckets 0; elem = none }

-- The loop of hash_next, `left` buckets from the end.
unfoldable pub next_in : (left : ℕ) → Hash → (bucket : ℕ) → List ℕ → HashIterator
next_in left h bucket (e ∷ es) = record { bucket = bucket; behind = es; elem = some e }
next_in zero h bucket [] = record { bucket = bucket + 1; behind = []; elem = none }
next_in (suc left) h bucket [] = next_in left h (bucket + 1) (h.buckets (bucket + 1))

-- The iterator advanced; its element is the result.
unfoldable pub hash_next : Hash → HashIterator → HashIterator
unfolding next_in
hash_next h i = next_in (h.bucket_cnt - 1 - i.bucket) h i.bucket i.behind

abbrev pub hash_cur : HashIterator → Option ℕ
hash_cur i = i.elem

module _ (hash : ℕ → ℕ) (less : ℕ → ℕ → Bool) where
  -- The index of the bucket for `e` among `bucket_cnt`.
  abbrev pub find_bucket : (bucket_cnt e : ℕ) → ℕ
  find_bucket bucket_cnt e = bit_and (hash e) (bucket_cnt - 1)

  abbrev pub equal : ℕ → ℕ → Bool
  equal a b = not (less a b) && not (less b a)

  unfoldable pub find_elem : (bucket : List ℕ) → (e : ℕ) → Option ℕ
  find_elem [] e = none
  find_elem (hi ∷ rest) e = if equal hi e then some hi else find_elem rest e

  unfoldable pub hash_find : Hash → (e : ℕ) → Option ℕ
  unfolding find_elem
  hash_find h e = find_elem (h.buckets (find_bucket h.bucket_cnt e)) e

  abbrev pub insert_elem : Hash → (bucket e : ℕ) → Hash
  insert_elem h bucket e = record h {
    elem_cnt = add32 h.elem_cnt 1;
    buckets = push_front h.buckets bucket e;
  }

  abbrev pub remove_elem : Hash → (e : ℕ) → Hash
  remove_elem h e = record h {
    elem_cnt = add32 h.elem_cnt (2 ^ 32 - 1);
    buckets = λ i. unlink e (h.buckets i);
  }

  -- The elements of one old bucket, each moved to the front of its new bucket.
  unfoldable pub move_bucket : (bucket_cnt : ℕ) → List ℕ → Buckets → Buckets
  move_bucket bucket_cnt [] new = new
  move_bucket bucket_cnt (e ∷ es) new =
      move_bucket bucket_cnt es (push_front new (find_bucket bucket_cnt e) e)

  -- The elements of `n` old buckets from `i` on.
  unfoldable pub move_buckets : (bucket_cnt n i : ℕ) → (old new : Buckets) → Buckets
  unfolding move_bucket
  move_buckets bucket_cnt zero i old new = new
  move_buckets bucket_cnt (suc n) i old new =
      move_buckets bucket_cnt n (suc i) old (move_bucket bucket_cnt (old i) new)

  -- The table with `bucket_cnt` buckets.
  unfoldable pub resize : Hash → (bucket_cnt : ℕ) → Hash
  unfolding move_buckets
  resize h bucket_cnt = record h {
    bucket_cnt = bucket_cnt;
    buckets = move_buckets bucket_cnt h.bucket_cnt 0 h.buckets (λ i. []);
  }

  unfoldable pub rehash : (fuel : ℕ) → (memory : Bool) → Hash → Outcome Hash
  unfolding new_bucket_cnt resize
  rehash fuel memory h = do
    n ← new_bucket_cnt fuel h.elem_cnt
    ok (if n == h.bucket_cnt then h else if memory then resize h n else h)

  -- The result is the old element, if there is one.
  unfoldable pub hash_insert :
      (fuel : ℕ) → (memory : Bool) → Hash → (new : ℕ) → Outcome (Hash × Option ℕ)
  unfolding rehash hash_find
  hash_insert fuel memory h new = do
    let bucket = find_bucket h.bucket_cnt new
    let old = find_elem (h.buckets bucket) new
    let h1 : Hash = elim old [ none ↦ insert_elem h bucket new | some o ↦ h ]
    h2 ← rehash fuel memory h1
    ok (h2, old)

  unfoldable pub hash_replace :
      (fuel : ℕ) → (memory : Bool) → Hash → (new : ℕ) → Outcome (Hash × Option ℕ)
  unfolding rehash hash_find
  hash_replace fuel memory h new = do
    let bucket = find_bucket h.bucket_cnt new
    let old = find_elem (h.buckets bucket) new
    let h1 : Hash = elim old [ none ↦ h | some o ↦ remove_elem h o ]
    h2 ← rehash fuel memory (insert_elem h1 bucket new)
    ok (h2, old)

  unfoldable pub hash_delete :
      (fuel : ℕ) → (memory : Bool) → Hash → (e : ℕ) → Outcome (Hash × Option ℕ)
  unfolding rehash hash_find
  hash_delete fuel memory h e =
      let found = find_elem (h.buckets (find_bucket h.bucket_cnt e)) e in
      elim found [
        | none ↦ ok (h, none)
        | some o ↦ rehash fuel memory (remove_elem h o) >>= λ h1. ok (h1, some o)
      ]
