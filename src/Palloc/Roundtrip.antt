-- ===== src/Palloc/Roundtrip.antt =====
-- Pages that palloc_get_multiple hands out can be given back, of threads/palloc.c.
use ee468_pintos_project.Prelude.{
  ℕ, ◌+◌, ◌-◌, ◌⊎◌, ◌*◌, ◌≤◌, ◌≡◌, ◌≢◌, refl, sym, ap, subst, ◌∙◌, Bool, true, false, not, ok,
  arith, inl, inr, if◌then◌else◌, Outcome, panic, ok-injective, ap₂, Bool-cases,
}
use ee468_pintos_project.Memory.{null}
use ee468_pintos_project.Bitmap.{Bitmap, bit, IsBitmap}
use ee468_pintos_project.Bitmap.Range.{Filled, HasRun, within}
use ee468_pintos_project.Palloc.{
  Pages, Pool, IsPool, IsPages, pool_at, pg_size, pal_user, pal_assert, palloc_get_multiple,
  palloc_free_multiple,
}
use ee468_pintos_project.Palloc.Get.{pool_for, HandedOut, got, out_of_pages, get_multiple-Got}
use ee468_pintos_project.Palloc.Free.{GivenBack, SameUse, free_multiple-Freed}

-- A pool of the same place and size is a pool too.
IsPool-same :
    (p q : Pool)
    → IsPool p
    → q.base ≡ p.base
    → q.used_map.bit_cnt ≡ p.used_map.bit_cnt
    → IsBitmap q.used_map
    → IsPool q
IsPool-same p q v e f w = record {
  valid = w;
  aligned = rw e v.aligned;
  positive = rw e v.positive;
  bounded = rw (e, f) v.bounded;
}

IsPages-same :
    (u : Bool) (s t : Pages)
    → IsPages s
    → (pool_at u t).base ≡ (pool_at u s).base
    → (pool_at u t).used_map.bit_cnt ≡ (pool_at u s).used_map.bit_cnt
    → IsBitmap (pool_at u t).used_map
    → pool_at (not u) t ≡ pool_at (not u) s
    → IsPages t
IsPages-same true s t v e f w other = record {
  kernel = rw other v.kernel;
  user = IsPool-same s.user_pool t.user_pool v.user e f w;
  apart = rw (other, e) v.apart;
}
IsPages-same false s t v e f w other = record {
  kernel = IsPool-same s.kernel_pool t.kernel_pool v.kernel e f w;
  user = rw other v.user;
  apart = rw (other, e, f) v.apart;
}

-- The invariant of the allocator is kept by a call that hands out pages.
pub HandedOut-IsPages :
    (s s' : Pages) (flags cnt k : ℕ) → IsPages s → HandedOut s flags cnt k s' → IsPages s'
HandedOut-IsPages s s' flags cnt k v h =
    IsPages-same (pal_user flags) s s' v h.base h.filled.size h.filled.valid h.other

-- So it is by one that takes them back.
pub GivenBack-IsPages :
    (u : Bool) (s s' : Pages) (cnt k : ℕ) → IsPages s → GivenBack u s cnt k s' → IsPages s'
GivenBack-IsPages u s s' cnt k v h =
    IsPages-same u s s' v h.base h.filled.size h.filled.valid h.other

bit-HasRun :
    (b : Bitmap) (k n j : ℕ) (v : Bool) → HasRun b k n v → within k n j ≡ true → bit b j ≡ v
bit-HasRun b k n j v r h =
    subst (λ i. bit b i ≡ v) {x = k + (j - k)} (ground arith) (r (j - k) (ground arith))

-- Whether a pool is the one named or the other.
other_or_same : (u w : Bool) → (w ≡ u) ⊎ (w ≡ not u)
other_or_same true true = inl refl
other_or_same true false = inr refl
other_or_same false true = inr refl
other_or_same false false = inl refl

module _ (s t r : Pages) (u : Bool) (cnt k : ℕ) where
  undone :
      HasRun (pool_at u s).used_map k cnt false
      → Filled (pool_at u s).used_map k cnt true (pool_at u t).used_map
      → Filled (pool_at u t).used_map k cnt false (pool_at u r).used_map
      → (j : ℕ) → bit (pool_at u r).used_map j ≡ bit (pool_at u s).used_map j
  undone run f g j = elim (Bool-cases (within k cnt j)) [
    | inl inside ↦
        g.bits_at j ∙ rw inside (sym (bit-HasRun (pool_at u s).used_map k cnt j false run inside))
    | inr outside ↦ g.bits_at j ∙ rw outside (f.bits_at j ∙ rw outside refl)
  ]

  undone-SameUse :
      HasRun (pool_at u s).used_map k cnt false
      → Filled (pool_at u s).used_map k cnt true (pool_at u t).used_map
      → Filled (pool_at u t).used_map k cnt false (pool_at u r).used_map
      → pool_at (not u) t ≡ pool_at (not u) s
      → pool_at (not u) r ≡ pool_at (not u) t
      → SameUse s r
  undone-SameUse run f g e e' w j = elim (other_or_same u w) [
    | inl is ↦ rw is (undone run f g j)
    | inr is ↦ rw (is, e', e) refl
  ]

undo :
    (s t : Pages) (flags cnt k : ℕ)
    → IsPages s
    → 1 ≤ cnt
    → k + cnt ≤ (pool_for flags s).used_map.bit_cnt
    → HasRun (pool_for flags s).used_map k cnt false
    → HandedOut s flags cnt k t
    → (r : Pages) × (palloc_free_multiple t ((pool_for flags s).base + pg_size * k) cnt ≡ ok r)
      × IsPages r
      × SameUse s r
undo s t flags cnt k v l h run out =
    let u = pal_user flags in
    let w = HandedOut-IsPages s t flags cnt k v out in
    elim (free_multiple-Freed u t cnt k w l (omega (arith, out.filled.size))) [
      | inl (used, (r, e, back)) ↦ (
        r,
        ap (λ b. palloc_free_multiple t (b + pg_size * k) cnt) (sym out.base) ∙ e,
        GivenBack-IsPages u t r cnt k w back,
        undone-SameUse s t r u cnt k run out.filled back.filled out.other back.other,
      )
      | inr ((j, m, bad), e) ↦ absurd (ground (arith, out.filled.bits_at (k + j)))
    ]

module _ (s s' : Pages) (p : ℕ) (real : p ≢ null) where
  no_pages :
      (b : Bool) → if◌then◌else◌ {A = Outcome (Pages × ℕ)} b panic (ok (s, null)) ≡ ok (s', p) → ⊥
  no_pages true e = cc
  no_pages false e = absurd (real (sym (ap (λ x. x.1) (ok-injective e))))

-- What palloc_get_multiple hands out, palloc_free_multiple takes back: it does not panic, and each
-- pool has the same pages in use as before.
pub free-get :
    (s s' : Pages) (flags cnt p : ℕ)
    → IsPages s
    → 1 ≤ cnt
    → palloc_get_multiple s flags cnt ≡ ok (s', p)
    → p ≢ null
    → (r : Pages) × (palloc_free_multiple s' p cnt ≡ ok r) × IsPages r × SameUse s r
free-get s s' flags cnt p v l h real = elim (get_multiple-Got s flags cnt v l) [
  | got t k m run none out e ↦
      let (r, e', w, same) = undo s t flags cnt k v l m run out in
      let q = ok-injective (sym h ∙ e) in
      (
        r,
        ap₂ (λ x a. palloc_free_multiple x a cnt) (ap (λ x. x.0) q) (ap (λ x. x.1) q) ∙ e',
        w,
        same,
      )
  | out_of_pages none e ↦ absurd (no_pages s s' p real (pal_assert flags) (sym e ∙ h))
]
