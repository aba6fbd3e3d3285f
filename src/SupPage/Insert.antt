-- ===== src/SupPage/Insert.antt =====
-- What get_spe of vm/page.c finds behind suppl_pt_insert_mmf.
use ee468_pintos_project.Prelude.{
  ℕ, ◌+◌, ◌/◌, ◌^◌, ◌<◌, ◌≡◌, ◌≢◌, inl, inr, refl, sym, ap, ◌∙◌, Bool, true, ◌==◌, if◌then◌else◌,
  Option, none, some, ok, ◌>>=◌, arith, max, ==_ne, ==_iff, ==_refl, ℕ_discrete, Option-cases,
}
use ee468_pintos_project.HashTable.{Hash, hash_find, hash_apply}
use ee468_pintos_project.HashTable.Elements.{count, is-eq, is-ne}
use ee468_pintos_project.HashTable.Find.{hash_find-present, hash_find-same}
use ee468_pintos_project.HashTable.Map.{hash_find-hash_insert, or_else, comes_in}
use ee468_pintos_project.SupPage.{
  Entries, SupPageEntry, with_entry, suppl_pt_hash, suppl_pt_less, get_spe, mmf_entry,
  suppl_pt_insert_mmf, is_null,
}
use ee468_pintos_project.SupPage.Table.{
  AreWords, IsTable, page_equal, equal-page, suppl_pt-IsHashing, IsTable-agree, find-agree,
}

with_here : (entries : Entries) (e : ℕ) (x : SupPageEntry) → with_entry entries e x e ≡ x
with_here entries e x = ground (arith, ==_refl e)

with_else :
    (entries : Entries) (e a : ℕ) (x : SupPageEntry) → a ≢ e → with_entry entries e x a ≡ entries a
with_else entries e a x ne = ground (arith, ==_ne a e ne)

with_word :
    (entries : Entries) (e : ℕ) (x : SupPageEntry)
    → AreWords entries
    → x.user_vaddr < 2 ^ 32
    → AreWords (with_entry entries e x)
with_word entries e x w small a = elim (ℕ_discrete a e) [
  | yes here ↦ omega (
    arith,
    ap (λ y. y.user_vaddr) (ap (with_entry entries e x) here ∙ with_here entries e x),
    small,
  )
  | no ne ↦ omega (arith, ap (λ y. y.user_vaddr) (with_else entries e a x ne), w a)
]

-- The entries with the local variable of get_spe set to the page `v`.
abbrev key : Entries → ℕ → ℕ → Entries
key entries spe v = with_entry entries spe (record (entries spe) { user_vaddr = v })

key_here : (entries : Entries) (spe v : ℕ) → (key entries spe v spe).user_vaddr ≡ v
key_here entries spe v =
    ap (λ y. y.user_vaddr) (with_here entries spe (record (entries spe) { user_vaddr = v }))

-- An element of a table is no element that does not stand in it.
present_ne : (h : Hash) (x e : ℕ) → count x (hash_apply h) ≢ 0 → count e (hash_apply h) ≡ 0 → x ≢ e
present_ne h x e there z xe = there (ap (λ y. count y (hash_apply h)) xe ∙ z)

comes_in_other : (old : Option ℕ) (new x : ℕ) → x ≢ new → comes_in old new x ≡ 0
comes_in_other none new x ne = is-ne x new ne
comes_in_other (some o) new x ne = refl

module _ (entries : Entries) (w : AreWords entries) (h : Hash) (v : IsTable entries h) (spe e : ℕ)
    (spe_out : count spe (hash_apply h) ≡ 0) (e_out : count e (hash_apply h) ≡ 0)
    (entry : SupPageEntry) (word : entry.user_vaddr < 2 ^ 32) where
  abbrev filled : Entries
  filled = with_entry entries e entry

  filled-AreWords : AreWords filled
  filled-AreWords = with_word entries e entry w word

  filled_same :
      (x : ℕ) → count x (hash_apply h) ≢ 0 → (entries x).user_vaddr ≡ (filled x).user_vaddr
  filled_same x there =
      ap (λ y. y.user_vaddr) (sym (with_else entries e x entry (present_ne h x e there e_out)))

  filled-IsTable : IsTable filled h
  filled-IsTable = IsTable-agree entries filled h filled_same w filled-AreWords v

  key_same :
      (any : Entries) (page x : ℕ)
      → count x (hash_apply h) ≢ 0
      → (any x).user_vaddr ≡ (key any spe page x).user_vaddr
  key_same any page x there =
      ap (λ y. y.user_vaddr)
        (sym (
          with_else any spe x (record (any spe) { user_vaddr = page })
            (present_ne h x spe there spe_out)))

  -- In the old table the filled entry changes no search.
  key_find :
      (page : ℕ)
      → page < 2 ^ 32
      → IsTable (key filled spe page) h
        × (hash_find
              (suppl_pt_hash (key filled spe page))
              (suppl_pt_less (key filled spe page))
              h
              spe
            ≡ get_spe entries h spe page)
  unfolding get_spe
  key_find page small =
      let wf =
        with_word filled spe (record (filled spe) { user_vaddr = page }) filled-AreWords small in
      let we = with_word entries spe (record (entries spe) { user_vaddr = page }) w small in
      let vf =
        IsTable-agree filled (key filled spe page) h (key_same filled page) filled-AreWords wf
          filled-IsTable in
      let ve = IsTable-agree entries (key entries spe page) h (key_same entries page) w we v in
      (
        vf,
        find-agree (key filled spe page) (key entries spe page) h
            (λ x there.
              sym (key_same filled page x there)
              ∙ sym (filled_same x there)
              ∙ key_same entries page x there)
            spe spe wf we vf ve (key_here filled spe page ∙ sym (key_here entries spe page)),
      )

  -- The search that hash_insert makes for the new entry.
  new_find :
      hash_find (suppl_pt_hash filled) (suppl_pt_less filled) h e
      ≡ get_spe entries h spe entry.user_vaddr
  unfolding get_spe
  new_find =
      let page = entry.user_vaddr in
      let we = with_word entries spe (record (entries spe) { user_vaddr = page }) w word in
      let ve = IsTable-agree entries (key entries spe page) h (key_same entries page) w we v in
      find-agree filled (key entries spe page) h
        (λ x there. sym (filled_same x there) ∙ key_same entries page x there) e spe filled-AreWords
        we filled-IsTable ve
        (ap (λ y. y.user_vaddr) (with_here entries e entry) ∙ sym (key_here entries spe page))

  -- The table behind the insertion.
  module _ (apart : spe ≢ e) (old : Option ℕ) (h' : Hash) (v' : IsTable filled h')
      (counts : (x : ℕ) → count x (hash_apply h') ≡ comes_in old e x + count x (hash_apply h))
      (was : get_spe entries h spe entry.user_vaddr ≡ old) (page : ℕ) (small : page < 2 ^ 32) where
    abbrev later : Entries
    later = key filled spe page

    spe_still_out : count spe (hash_apply h') ≡ 0
    spe_still_out = omega (arith, counts spe, spe_out, comes_in_other old e spe apart)

    later-AreWords : AreWords later
    later-AreWords =
        with_word filled spe (record (filled spe) { user_vaddr = page }) filled-AreWords small

    later-IsTable : IsTable later h'
    later-IsTable =
        IsTable-agree filled later h'
          (λ x there.
            ap (λ y. y.user_vaddr)
              (sym (
                with_else filled spe x (record (filled spe) { user_vaddr = page })
                  (present_ne h' x spe there spe_still_out))))
          filled-AreWords later-AreWords v'

    -- Where the new entry is not asked for, the search goes as before.
    as_before :
        ((x : ℕ) → page_equal later x spe ≡ true → comes_in old e x ≡ 0)
        → get_spe filled h' spe page ≡ get_spe entries h spe page
    unfolding get_spe
    as_before none_comes =
        let (vh, found) = key_find page small in
        hash_find-same (suppl_pt_hash later) (suppl_pt_less later)
          (suppl_pt-IsHashing later later-AreWords).0 h h' spe vh later-IsTable
          (λ x eq. omega (arith, counts x, none_comes x eq))
        ∙ found

    later_entry : (later e).user_vaddr ≡ entry.user_vaddr
    later_entry =
        ap (λ y. y.user_vaddr)
          (with_else filled spe e (record (filled spe) { user_vaddr = page }) (λ x. apart (sym x))
            ∙ with_here entries e entry)

    equal_key : (x : ℕ) → page_equal later x spe ≡ ((later x).user_vaddr == page)
    equal_key x =
        equal-page later later-AreWords x spe
        ∙ ap (λ k. (later x).user_vaddr == k) (key_here filled spe page)

    abbrev answer : Bool → Option ℕ
    answer c = if c then some (or_else old e) else get_spe entries h spe page

    not_new : page ≢ entry.user_vaddr → (x : ℕ) → page_equal later x spe ≡ true → x ≢ e
    not_new ne x eq xe = ne (
        sym ((==_iff _ _).0 (sym (equal_key x) ∙ eq))
        ∙ ap (λ y. (later y).user_vaddr) xe
        ∙ later_entry)

    finds_page : get_spe filled h' spe page ≡ answer (page == entry.user_vaddr)
    unfolding get_spe
    finds_page = elim (ℕ_discrete page entry.user_vaddr) [
      | no ne ↦
          as_before (λ x eq. comes_in_other old e x (not_new ne x eq))
          ∙ ap answer (sym (==_ne page entry.user_vaddr ne))
      | yes same ↦ elim (Option-cases old) [
        | inl nothing ↦
            hash_find-present (suppl_pt_hash later) (suppl_pt_less later)
              (suppl_pt-IsHashing later later-AreWords).0 h' later-IsTable spe e
              (λ z. omega (arith, counts e, z, ap (λ o. comes_in o e e) nothing, is-eq e e refl))
              (equal_key e ∙ (==_iff _ _).1 (later_entry ∙ sym same))
            ∙ ap (λ o. some (or_else o e)) (sym nothing)
            ∙ ap answer (sym ((==_iff page entry.user_vaddr).1 same))
        | inr (o, there) ↦
            as_before (λ x eq. ap (λ k. comes_in k e x) there)
            ∙ ap (get_spe entries h spe) same
            ∙ was
            ∙ there
            ∙ ap (λ k. some (or_else k e)) (sym there)
            ∙ ap answer (sym ((==_iff page entry.user_vaddr).1 same))
      ]
    ]

-- suppl_pt_insert_mmf, if calloc gives an entry, returns true exactly if no entry for the page was in
-- the table; get_spe then gives for the page the entry that was there or else the new one, filled in,
-- and for every other page what it gave before; the table stays well formed. The entry and the local
-- variable of get_spe stand in no table, and the table has room for one more entry.
pub get_spe-suppl_pt_insert_mmf :
    (fuel : ℕ) (memory : Bool) (entries : Entries) (h : Hash) (spe e file ofs upage read_bytes : ℕ)
    → AreWords entries
    → IsTable entries h
    → count spe (hash_apply h) ≡ 0
    → count e (hash_apply h) ≡ 0
    → spe ≢ e
    → upage < 2 ^ 32
    → h.elem_cnt + 1 < 2 ^ 32
    → max 4 ((h.elem_cnt + 1) / 2) < fuel
    → let old = get_spe entries h spe upage in
      let filled = with_entry entries e (mmf_entry file ofs upage read_bytes) in
      (h' : Hash) × (suppl_pt_insert_mmf fuel memory entries h (some e) file ofs upage read_bytes
        ≡ ok (filled, h', is_null old))
      × IsTable filled h'
      × ((page : ℕ)
          → page < 2 ^ 32
          → get_spe filled h' spe page
            ≡ (if page == upage then some (or_else old e) else get_spe entries h spe page))
unfolding suppl_pt_insert_mmf
get_spe-suppl_pt_insert_mmf fuel memory entries h spe e file ofs upage read_bytes w v spe_out e_out
      apart word room enough =
    let entry = mmf_entry file ofs upage read_bytes in
    let full = filled entries w h v spe e spe_out e_out entry word in
    let vf = filled-IsTable entries w h v spe e spe_out e_out entry word in
    let wf = filled-AreWords entries w h v spe e spe_out e_out entry word in
    let (h', run, v', finds, size, counts) =
      hash_find-hash_insert (suppl_pt_hash full) (suppl_pt_less full) (suppl_pt-IsHashing full wf).0
        fuel memory h e vf room enough in
    let searched = new_find entries w h v spe e spe_out e_out entry word in
    (
      h',
      ap (λ o. o >>= λ (k, r). ok (full, k, is_null r)) run
          ∙ ap (λ r. ok (full, h', is_null r)) searched,
      v',
      λ page small.
          finds_page entries w h v spe e spe_out e_out entry word apart
            (get_spe entries h spe upage) h' v'
            (λ x. counts x ∙ ap (λ o. comes_in o e x + count x (hash_apply h)) searched) refl page
            small,
    )
