-- ===== src/SupPage/Tests.antt =====
-- vm/page.c on an empty table, in which the entry at 7 for the page at 0x8000 is put.
use ee468_pintos_project.Prelude.{
  ℕ, ◌+◌, ◌*◌, ◌%◌, ◌^◌, ◌<◌, ◌≡◌, refl, [], some, ok, arith, ◌==◌, if◌then◌else◌, true,
}
use ee468_pintos_project.HashTable.{Hash}
use ee468_pintos_project.HashTable.Find.{IsHashing}
use ee468_pintos_project.HashTable.Map.{or_else}
use ee468_pintos_project.SupPage.{
  Entries, with_entry, mmf_entry, get_spe, suppl_pt_insert_mmf, suppl_pt_hash, suppl_pt_less,
  is_null,
}
use ee468_pintos_project.SupPage.Table.{AreWords, IsTable, page_equal, suppl_pt-IsHashing}
use ee468_pintos_project.SupPage.Insert.{get_spe-suppl_pt_insert_mmf}

abbrev blank : Entries
blank x = mmf_entry 0 0 0 0

blank-AreWords : AreWords blank
blank-AreWords x = omega arith

abbrev empty_table : Hash
empty_table = record { elem_cnt = 0; bucket_cnt = 4; buckets = λ i. [] }

empty-IsTable : IsTable blank empty_table
empty-IsTable = record {
  own = λ i a lt ne. refl;
  once = λ a. omega arith;
  apart = λ a b p q eq. absurd (p refl);
  sized = refl;
  small = omega arith;
  log = 2;
  power = refl;
  four = omega arith;
}

-- The entries 0, 1 and 2 are for pages that are far apart.
abbrev apart : Entries
apart x = mmf_entry 0 0 ((x * 0x50000000 + 0x1000) % 2 ^ 32) 0

apart-AreWords : AreWords apart
apart-AreWords x = omega arith

suppl_pt-IsHashing_example :
    IsHashing (suppl_pt_hash apart) (suppl_pt_less apart)
    × ((a b : ℕ) → page_equal apart a b ≡ ((apart a).user_vaddr == (apart b).user_vaddr))
    × ((a b c : ℕ)
        → (apart b).user_vaddr ≡ (apart a).user_vaddr + 0x50000000
        → (apart c).user_vaddr ≡ (apart b).user_vaddr + 0x50000000
        → (suppl_pt_less apart a b ≡ true)
          × (suppl_pt_less apart b c ≡ true)
          × (suppl_pt_less apart c a ≡ true))
suppl_pt-IsHashing_example = suppl_pt-IsHashing apart apart-AreWords

-- The cycle, on these entries.
cycle :
    (suppl_pt_less apart 0 1 ≡ true)
    × (suppl_pt_less apart 1 2 ≡ true)
    × (suppl_pt_less apart 2 0 ≡ true)
cycle = (refl, refl, refl)

get_spe-suppl_pt_insert_mmf_example :
    let old = get_spe blank empty_table 3 0x8000 in
    let filled = with_entry blank 7 (mmf_entry 90 0 0x8000 100) in
    (h : Hash) × (suppl_pt_insert_mmf 9 true blank empty_table (some 7) 90 0 0x8000 100
      ≡ ok (filled, h, is_null old))
    × IsTable filled h
    × ((page : ℕ)
        → page < 2 ^ 32
        → get_spe filled h 3 page
          ≡ (if page == 0x8000 then some (or_else old 7) else get_spe blank empty_table 3 page))
get_spe-suppl_pt_insert_mmf_example =
    get_spe-suppl_pt_insert_mmf 9 true blank empty_table 3 7 90 0 0x8000 100 blank-AreWords
      empty-IsTable refl refl (λ e. omega arith) (omega arith) (omega arith) (omega arith)
