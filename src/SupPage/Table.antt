-- ===== src/SupPage/Table.antt =====
-- The supplemental page table of vm/page.c as a map from user pages to entries.
use ee468_pintos_project.Prelude.{
  ℕ, ◌+◌, ◌-◌, ◌%◌, ◌^◌, ◌<◌, ◌≡◌, ◌≢◌, bit_and, inl, inr, sym, ap, ◌∙◌, Bool, true, not, ◌&&◌, leb,
  ◌==◌, arith, ==_iff, ℕ_discrete, Option-cases,
}
use ee468_pintos_project.HashTable.{Hash, hash_find, hash_apply, equal, find_bucket}
use ee468_pintos_project.HashTable.Elements.{count, count-le-weight}
use ee468_pintos_project.HashTable.Find.{
  IsHashing, IsHash, hash_find-some, hash_find-none, hash_find-present, hash_find-absent,
}
use ee468_pintos_project.CString.{hash_bytes_loop, fnv_32_basis}
use ee468_pintos_project.SupPage.{byte_of, Entries, suppl_pt_hash, suppl_pt_less}

-- User pages are addresses of 32 bits.
abbrev pub AreWords : Entries → Type 0
AreWords entries = (e : ℕ) → (entries e).user_vaddr < 2 ^ 32

-- The table that the entries key.
abbrev pub IsTable : Entries → Hash → Type 0
IsTable entries h = IsHash (suppl_pt_hash entries) (suppl_pt_less entries) h

same_page :
    (a b : ℕ)
    → a < 2 ^ 32
    → b < 2 ^ 32
    → (not (leb (2 ^ 31) ((a + 2 ^ 32 - b) % 2 ^ 32))
        && not (leb (2 ^ 31) ((b + 2 ^ 32 - a) % 2 ^ 32)))
      ≡ (a == b)
same_page a b ha hb = ground arith

abbrev pub page_equal : Entries → ℕ → ℕ → Bool
page_equal entries a b = equal (suppl_pt_hash entries) (suppl_pt_less entries) a b

pub equal-page :
    (entries : Entries)
    → AreWords entries
    → (a b : ℕ) → page_equal entries a b ≡ ((entries a).user_vaddr == (entries b).user_vaddr)
equal-page entries w a b = same_page (entries a).user_vaddr (entries b).user_vaddr (w a) (w b)

far : (a b : ℕ) → b < 2 ^ 32 → b ≡ a + 0x50000000 → leb (2 ^ 31) ((a + 2 ^ 32 - b) % 2 ^ 32) ≡ true
far a b h p = ground arith

round :
    (a b c : ℕ)
    → c < 2 ^ 32
    → b ≡ a + 0x50000000
    → c ≡ b + 0x50000000
    → leb (2 ^ 31) ((c + 2 ^ 32 - a) % 2 ^ 32) ≡ true
round a b c h p q = ground arith

-- suppl_pt_less makes exactly the entries for one page equal, and suppl_pt_hash gives those the same
-- hash: this is all that a hash table asks for. But suppl_pt_less is no order, since the difference wraps
-- around: of three entries whose pages are 0x50000000 apart, the first is less than the second, the second
-- less than the third, and the third less than the first.
pub suppl_pt-IsHashing :
    (entries : Entries)
    → AreWords entries
    → IsHashing (suppl_pt_hash entries) (suppl_pt_less entries)
      × ((a b : ℕ) → page_equal entries a b ≡ ((entries a).user_vaddr == (entries b).user_vaddr))
      × ((a b c : ℕ)
          → (entries b).user_vaddr ≡ (entries a).user_vaddr + 0x50000000
          → (entries c).user_vaddr ≡ (entries b).user_vaddr + 0x50000000
          → (suppl_pt_less entries a b ≡ true)
            × (suppl_pt_less entries b c ≡ true)
            × (suppl_pt_less entries c a ≡ true))
suppl_pt-IsHashing entries w = (
  record {
    irreflexive = λ a. ground arith;
    transitive = λ a b c p q.
        equal-page entries w a c
        ∙ (==_iff _ _).1 (
            (==_iff _ _).0 (sym (equal-page entries w a b) ∙ p)
            ∙ (==_iff _ _).0 (sym (equal-page entries w b c) ∙ q));
    hashed = λ a b p.
        ap (λ v. hash_bytes_loop 4 (byte_of v) 0 fnv_32_basis)
          ((==_iff _ _).0 (sym (equal-page entries w a b) ∙ p));
  },
  equal-page entries w,
  λ a b c p q. (
    far (entries a).user_vaddr (entries b).user_vaddr (w b) p,
    far (entries b).user_vaddr (entries c).user_vaddr (w c) q,
    round (entries a).user_vaddr (entries b).user_vaddr (entries c).user_vaddr (w c) p q,
  ),
)

-- Two memories of entries that agree on the table.
module _ (p q : Entries) (h : Hash)
    (agree : (x : ℕ) → count x (hash_apply h) ≢ 0 → (p x).user_vaddr ≡ (q x).user_vaddr) where
  bucket-agree :
      (x : ℕ)
      → count x (hash_apply h) ≢ 0
      → find_bucket (suppl_pt_hash p) (suppl_pt_less p) h.bucket_cnt x
        ≡ find_bucket (suppl_pt_hash q) (suppl_pt_less q) h.bucket_cnt x
  bucket-agree x there =
      ap (λ v. bit_and (hash_bytes_loop 4 (byte_of v) 0 fnv_32_basis) (h.bucket_cnt - 1))
        (agree x there)

  pub IsTable-agree : AreWords p → AreWords q → IsTable p h → IsTable q h
  IsTable-agree wp wq v = record {
    own = λ i a lt ne. elim (ℕ_discrete (count a (hash_apply h)) 0) [
      | yes z ↦
          omega (
            arith,
            z,
            count-le-weight a h.bucket_cnt 0 i h.buckets (omega arith) (omega (arith, lt)),
          )
      | no there ↦ v.own i a lt (λ e. ne (sym (bucket-agree a there) ∙ e))
    ];
    once = v.once;
    apart = λ a b ta tb eq. v.apart a b ta tb (
        equal-page p wp a b
        ∙ ap (λ x. x == (p b).user_vaddr) (agree a ta)
        ∙ ap (λ x. (q a).user_vaddr == x) (agree b tb)
        ∙ sym (equal-page q wq a b)
        ∙ eq);
    sized = v.sized;
    small = v.small;
    log = v.log;
    power = v.power;
    four = v.four;
  }

  -- A search for the same page finds the same.
  pub find-agree :
      (a b : ℕ)
      → AreWords p
      → AreWords q
      → IsTable p h
      → IsTable q h
      → (p a).user_vaddr ≡ (q b).user_vaddr
      → hash_find (suppl_pt_hash p) (suppl_pt_less p) h a
        ≡ hash_find (suppl_pt_hash q) (suppl_pt_less q) h b
  find-agree a b wp wq vp vq key =
      let fp = (suppl_pt-IsHashing p wp).0 in
      let fq = (suppl_pt-IsHashing q wq).0 in
      let alike : (x : ℕ) → count x (hash_apply h) ≢ 0 → page_equal p x a ≡ page_equal q x b =
        λ x there.
          equal-page p wp x a
          ∙ ap (λ v. v == (p a).user_vaddr) (agree x there)
          ∙ ap (λ v. (q x).user_vaddr == v) key
          ∙ sym (equal-page q wq x b) in
      elim (Option-cases (hash_find (suppl_pt_hash q) (suppl_pt_less q) h b)) [
        | inl nothing ↦
            hash_find-absent (suppl_pt_hash p) (suppl_pt_less p) fp h vp a (λ x there.
              alike x there
              ∙ hash_find-none (suppl_pt_hash q) (suppl_pt_less q) fq h vq b x nothing there)
            ∙ sym nothing
        | inr (x, found) ↦
            let (there, eq) =
              hash_find-some (suppl_pt_hash q) (suppl_pt_less q) fq h vq b x found in
            hash_find-present (suppl_pt_hash p) (suppl_pt_less p) fp h vp a x there
              (alike x there ∙ eq)
            ∙ sym found
      ]
