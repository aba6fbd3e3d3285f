-- ===== src/Palloc/Get.antt =====
-- What palloc_get_multiple of threads/palloc.c hands out.
use ee468_pintos_project.Prelude.{
  ℕ, ◌+◌, ◌-◌, ◌*◌, ◌<◌, ◌≤◌, ◌≡◌, ◌≢◌, refl, ap, ◌∙◌, Bool, true, false, not, ◌&&◌, ==_ne,
  add32_lem, if◌then◌else◌, Outcome, ok, panic, arith, Bool-cases, inl, inr,
}
use ee468_pintos_project.Memory.{null, in_block}
use ee468_pintos_project.Memory.Copy.{memset_at}
use ee468_pintos_project.Bitmap.{Bitmap, bitmap_error, bitmap_scan_and_flip}
use ee468_pintos_project.Bitmap.Range.{Filled, HasRun}
use ee468_pintos_project.Bitmap.Scan.{NoRun, first, none_left, scan_and_flip-TakenFirst}
use ee468_pintos_project.Palloc.{
  Pages, Pool, IsPool, IsPages, pool_at, set_pool, pal_assert, pal_zero, pal_user, pg_size,
  palloc_get_multiple, hand_over, page_address,
}

-- The pool that the flags name.
abbrev pub pool_for : ℕ → Pages → Pool
pool_for flags s = pool_at (pal_user flags) s

-- The state after the pages from number `k` of the pool on were handed out.
pub record HandedOut (s : Pages) (flags cnt k : ℕ) (s' : Pages) : Type 0 where
  pub filled : Filled (pool_for flags s).used_map k cnt true (pool_for flags s').used_map
  pub base : (pool_for flags s').base ≡ (pool_for flags s).base
  pub other : pool_at (not (pal_user flags)) s' ≡ pool_at (not (pal_user flags)) s
  pub bytes :
      (a : ℕ)
      → s'.memory a ≡ (
          if pal_zero flags && in_block ((pool_for flags s).base + pg_size * k) (pg_size * cnt) a
          then 0
          else s.memory a)

-- The ways in which a call ends: with the first group of free pages, or for the want of one, with a
-- null pointer or a panic, as the flags say.
pub data Got (s : Pages) (flags cnt : ℕ) (r : Outcome (Pages × ℕ)) : Type 0 where
  got :
      (s' : Pages) (k : ℕ)
      → k + cnt ≤ (pool_for flags s).used_map.bit_cnt
      → HasRun (pool_for flags s).used_map k cnt false
      → NoRun (pool_for flags s).used_map 0 k cnt false
      → HandedOut s flags cnt k s'
      → r ≡ ok (s', (pool_for flags s).base + pg_size * k)
      → Got s flags cnt r
  out_of_pages :
      NoRun (pool_for flags s).used_map 0 ((pool_for flags s).used_map.bit_cnt + 1 - cnt) cnt false
      → r ≡ (if pal_assert flags then panic else ok (s, null))
      → Got s flags cnt r

pool_at-IsPool : (u : Bool) (s : Pages) → IsPages s → IsPool (pool_at u s)
pool_at-IsPool true s v = v.user
pool_at-IsPool false s v = v.kernel

set_pool_self : (u : Bool) (s : Pages) → set_pool u (pool_at u s) s ≡ s
set_pool_self true s = refl
set_pool_self false s = refl

pool_at-set_pool : (u : Bool) (p : Pool) (s : Pages) → pool_at u (set_pool u p s) ≡ p
pool_at-set_pool true p s = refl
pool_at-set_pool false p s = refl

pool_at-set_pool_other :
    (u : Bool) (p : Pool) (s : Pages) → pool_at (not u) (set_pool u p s) ≡ pool_at (not u) s
pool_at-set_pool_other true p s = refl
pool_at-set_pool_other false p s = refl

-- The state after a block of memory was given the value, if it was.
abbrev Cleared : Pages → Bool → ℕ → ℕ → Pages → Type 0
Cleared s zero? pages n s' =
    (s'.kernel_pool ≡ s.kernel_pool)
    × (s'.user_pool ≡ s.user_pool)
    × ((a : ℕ) → s'.memory a ≡ (if zero? && in_block pages n a then 0 else s.memory a))

hand_over-Cleared :
    (s : Pages) (flags cnt pages : ℕ)
    → pages ≢ null
    → (s' : Pages) × (hand_over s flags cnt pages ≡ ok (s', pages))
      × Cleared s (pal_zero flags) pages (pg_size * cnt) s'
unfolding hand_over
hand_over-Cleared s flags cnt pages real = elim (Bool-cases (pal_zero flags)) [
  | inl zeroed ↦
      let (m, e, at) = memset_at s.memory pages 0 (pg_size * cnt) real in
      (
        record s { memory = m },
        rw (==_ne pages null real, zeroed, e),
        (refl, refl, λ a. rw zeroed (at a)),
      )
  | inr kept ↦ (s, rw (==_ne pages null real, kept), (refl, refl, λ a. rw kept))
]

pool_at-Cleared :
    (u : Bool) (s s' : Pages)
    → s'.kernel_pool ≡ s.kernel_pool
    → s'.user_pool ≡ s.user_pool
    → pool_at u s' ≡ pool_at u s
pool_at-Cleared true s s' k e = e
pool_at-Cleared false s s' k e = k

memory-set_pool : (u : Bool) (p : Pool) (s : Pages) → (set_pool u p s).memory ≡ s.memory
memory-set_pool true p s = refl
memory-set_pool false p s = refl

module _ (s : Pages) (flags cnt : ℕ) where
  HandedOut_lem :
      (c : Bitmap) (k : ℕ) (s' : Pages)
      → Filled (pool_for flags s).used_map k cnt true c
      → let t =
          set_pool (pal_user flags) (record { used_map = c; base = (pool_for flags s).base }) s in
        Cleared t (pal_zero flags) ((pool_for flags s).base + pg_size * k) (pg_size * cnt) s'
        → HandedOut s flags cnt k s'
  HandedOut_lem c k s' filled (kernel, user, bytes) =
      let u = pal_user flags in
      let p : Pool = record { used_map = c; base = (pool_for flags s).base } in
      let at : pool_at u s' ≡ p = pool_at-Cleared u _ s' kernel user ∙ pool_at-set_pool u p s in
      record {
        filled = rw at filled;
        base = rw at;
        other = pool_at-Cleared (not u) _ s' kernel user ∙ pool_at-set_pool_other u p s;
        bytes = λ a. bytes a ∙ rw (memory-set_pool u p s) refl;
      }

  palloc_get_multiple_step :
      (c : Bitmap) (idx : ℕ)
      → 1 ≤ cnt
      → bitmap_scan_and_flip (pool_for flags s).used_map 0 cnt false ≡ ok (c, idx)
      → palloc_get_multiple s flags cnt
        ≡ hand_over
            (set_pool (pal_user flags) (record { used_map = c; base = (pool_for flags s).base }) s)
            flags
            cnt
            (page_address (pool_for flags s) idx)
  unfolding palloc_get_multiple
  palloc_get_multiple_step c idx h e = rw (==_ne cnt 0 (omega arith), e)

  page_address-found :
      (k : ℕ)
      → IsPool (pool_for flags s)
      → k < (pool_for flags s).used_map.bit_cnt
      → page_address (pool_for flags s) k ≡ (pool_for flags s).base + pg_size * k
  unfolding page_address
  page_address-found k v h = rw (
    ==_ne k bitmap_error (omega (arith, v.valid.small)),
    add32_lem (pool_for flags s).base (pg_size * k) (omega (arith, v.bounded)),
  )

  hand_over-null :
      (t : Pages)
      → t ≡ s
      → hand_over t flags cnt null ≡ (if pal_assert flags then panic else ok (s, null))
  unfolding hand_over
  hand_over-null t e = rw e

-- palloc_get_multiple, asked for at least one page, hands out the first free group of pages of the
-- pool that the flags name: it marks just these as used, leaves the other pool alone, and clears
-- their bytes and no others if PAL_ZERO is set. Only if there is no such group it changes nothing
-- and returns a null pointer, or panics if PAL_ASSERT is set.
pub get_multiple-Got :
    (s : Pages) (flags cnt : ℕ)
    → IsPages s
    → 1 ≤ cnt
    → Got s flags cnt (palloc_get_multiple s flags cnt)
unfolding page_address
get_multiple-Got s flags cnt v h =
    elim (scan_and_flip-TakenFirst (pool_for flags s).used_map
      (pool_at-IsPool (pal_user flags) s v).valid cnt false) [
        | first c k l run none filled e ↦
            let p = pool_at-IsPool (pal_user flags) s v in
            let at : page_address (pool_for flags s) k ≡ (pool_for flags s).base + pg_size * k =
              page_address-found s flags cnt k p (omega arith) in
            let t =
              set_pool (pal_user flags) (record { used_map = c; base = (pool_for flags s).base })
                s in
            let (s', e', cleared) =
              hand_over-Cleared t flags cnt ((pool_for flags s).base + pg_size * k)
                (omega (arith, p.positive)) in
            got s' k (omega arith) run none (HandedOut_lem s flags cnt c k s' filled cleared)
              (palloc_get_multiple_step s flags cnt c k h e ∙ ap (hand_over t flags cnt) at ∙ e')
        | none_left none e ↦ out_of_pages none (
            palloc_get_multiple_step s flags cnt _ bitmap_error h e
            ∙ hand_over-null s flags cnt _ (set_pool_self (pal_user flags) s))
      ]
