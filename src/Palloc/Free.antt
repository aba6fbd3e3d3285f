-- ===== src/Palloc/Free.antt =====
-- palloc_free_multiple of threads/palloc.c.
use ee468_pintos_project.Prelude.{
  ℕ, ◌+◌, ◌-◌, ◌*◌, ◌<◌, ◌≤◌, ◌≡◌, refl, ◌⊎◌, Bool, true, false, not, ◌==◌, ==_ne, if◌then◌else◌,
  Outcome, ok, panic, arith, inl, inr,
}
use ee468_pintos_project.Memory.{null, in_block}
use ee468_pintos_project.Memory.Copy.{memset_at}
use ee468_pintos_project.Bitmap.{bit}
use ee468_pintos_project.Bitmap.Range.{Filled, HasRun, HasBit, all-HasRun, set_multiple-Filled}
use ee468_pintos_project.Palloc.{
  Pages, Pool, IsPool, IsPages, pool_at, pg_size, page_from_pool, free_in, palloc_free_multiple,
  pg_no, pg_ofs,
}

-- The state after the pages from number `k` of the pool `u` on were given back, and their bytes
-- overwritten.
pub record GivenBack (u : Bool) (s : Pages) (cnt k : ℕ) (s' : Pages) : Type 0 where
  pub filled : Filled (pool_at u s).used_map k cnt false (pool_at u s').used_map
  pub base : (pool_at u s').base ≡ (pool_at u s).base
  pub other : pool_at (not u) s' ≡ pool_at (not u) s
  pub bytes :
      (a : ℕ)
      → s'.memory a ≡ (
          if in_block ((pool_at u s).base + pg_size * k) (pg_size * cnt) a
          then 0xcc
          else s.memory a)

-- A call gives the pages back if all of them are in use, and stops the kernel otherwise.
abbrev pub Freed : Bool → Pages → ℕ → ℕ → Outcome Pages → Type 0
Freed u s cnt k r =
    (HasRun (pool_at u s).used_map k cnt true
      × ((s' : Pages) × (r ≡ ok s') × GivenBack u s cnt k s'))
    ⊎ (HasBit (pool_at u s).used_map k cnt false × (r ≡ panic))

free_in-Freed :
    (u : Bool) (s : Pages) (cnt k : ℕ)
    → IsPool (pool_at u s)
    → k + cnt ≤ (pool_at u s).used_map.bit_cnt
    → Freed u s cnt k (free_in u s ((pool_at u s).base + pg_size * k) cnt)
unfolding free_in
free_in-Freed true s cnt k v h =
    let p = s.user_pool in
    let idx : pg_no (p.base + pg_size * k) - pg_no p.base ≡ k = omega (arith, v.aligned) in
    let (m, e, at) =
      memset_at s.memory (p.base + pg_size * k) 0xcc (pg_size * cnt) (omega (arith, v.positive)) in
    elim (all-HasRun p.used_map v.valid k cnt h) [
      | inl (e', run) ↦
          let (c, e'', filled) = set_multiple-Filled p.used_map v.valid k cnt h false in
          inl (
            run,
            (
              record s { user_pool = record p { used_map = c }; memory = m },
              rw (e, idx, e', e''),
              record { filled = filled; base = refl; other = refl; bytes = at },
            ),
          )
      | inr (e', bad) ↦ inr (bad, rw (e, idx, e'))
    ]
free_in-Freed false s cnt k v h =
    let p = s.kernel_pool in
    let idx : pg_no (p.base + pg_size * k) - pg_no p.base ≡ k = omega (arith, v.aligned) in
    let (m, e, at) =
      memset_at s.memory (p.base + pg_size * k) 0xcc (pg_size * cnt) (omega (arith, v.positive)) in
    elim (all-HasRun p.used_map v.valid k cnt h) [
      | inl (e', run) ↦
          let (c, e'', filled) = set_multiple-Filled p.used_map v.valid k cnt h false in
          inl (
            run,
            (
              record s { kernel_pool = record p { used_map = c }; memory = m },
              rw (e, idx, e', e''),
              record { filled = filled; base = refl; other = refl; bytes = at },
            ),
          )
      | inr (e', bad) ↦ inr (bad, rw (e, idx, e'))
    ]

module _ (p : Pool) (v : IsPool p) where
  pub page_from_pool-inside :
      (k : ℕ) → k < p.used_map.bit_cnt → page_from_pool p (p.base + pg_size * k) ≡ true
  unfolding page_from_pool
  page_from_pool-inside k h = ground (arith, v.aligned, v.positive)

  page_from_pool-above :
      (a : ℕ) → p.base + pg_size * p.used_map.bit_cnt ≤ a → page_from_pool p a ≡ false
  unfolding page_from_pool
  page_from_pool-above a h = ground (arith, v.aligned, v.positive)

-- palloc_free_multiple, given at least one page of a pool and no page beyond it, gives the pages
-- back exactly if all of them are in use, and fills their bytes with 0xcc; otherwise it panics.
pub free_multiple-Freed :
    (u : Bool) (s : Pages) (cnt k : ℕ)
    → IsPages s
    → 1 ≤ cnt
    → k + cnt ≤ (pool_at u s).used_map.bit_cnt
    → Freed u s cnt k (palloc_free_multiple s ((pool_at u s).base + pg_size * k) cnt)
unfolding palloc_free_multiple
free_multiple-Freed false s cnt k v l h =
    let a = s.kernel_pool.base + pg_size * k in
    let aligned : (pg_ofs a == 0) ≡ true = ground (arith, v.kernel.aligned) in
    rw
      (
        aligned,
        ==_ne a null (omega (arith, v.kernel.positive)),
        ==_ne cnt 0 (omega arith),
        page_from_pool-inside s.kernel_pool v.kernel k (omega arith),
      )
      (free_in-Freed false s cnt k v.kernel h)
free_multiple-Freed true s cnt k v l h =
    let a = s.user_pool.base + pg_size * k in
    let aligned : (pg_ofs a == 0) ≡ true = ground (arith, v.user.aligned) in
    rw
      (
        aligned,
        ==_ne a null (omega (arith, v.user.positive)),
        ==_ne cnt 0 (omega arith),
        page_from_pool-above s.kernel_pool v.kernel a (omega (arith, v.apart)),
        page_from_pool-inside s.user_pool v.user k (omega arith),
      )
      (free_in-Freed true s cnt k v.user h)

-- The bitmaps of the two states agree at every bit.
abbrev pub SameUse : Pages → Pages → Type 0
SameUse s t = (u : Bool) (j : ℕ) → bit (pool_at u t).used_map j ≡ bit (pool_at u s).used_map j
