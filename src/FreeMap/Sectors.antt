-- ===== src/FreeMap/Sectors.antt =====
-- free_map_allocate and free_map_release of filesys/free-map.c.
use ee468_pintos_project.Prelude.{
  ℕ, ◌+◌, ◌-◌, ◌<◌, ◌≤◌, ◌≡◌, ◌≢◌, sym, ap, ◌∙◌, Bool, true, false, not, ◌&&◌, ◌==◌, if◌then◌else◌,
  Option, some, none, Outcome, ok, panic, ◌>>=◌, arith, inl, inr, ==_ne, Bool-cases,
}
use ee468_pintos_project.Bitmap.{
  Bitmap, IsBitmap, bit, bitmap_scan_and_flip, bitmap_set_multiple, bitmap_error,
}
use ee468_pintos_project.Bitmap.Range.{HasRun, HasBit, Filled, set_multiple-Filled, all-HasRun}
use ee468_pintos_project.Bitmap.Scan.{NoRun, first, none_left, scan_and_flip-TakenFirst}
use ee468_pintos_project.FreeMap.{free_map_allocate, free_map_release}

-- Every sector is used or free as before.
abbrev pub SameUse : Bitmap → Bitmap → Type 0
SameUse map map' = IsBitmap map' × (map'.bit_cnt ≡ map.bit_cnt) × ((j : ℕ) → bit map' j ≡ bit map j)

-- What free_map_allocate does: it takes the first `cnt` consecutive sectors that are free; there are
-- none; or they could not be recorded in the file, and are free again.
pub data Allocated (map : Bitmap) (cnt : ℕ) (failed : Bool) (r : Outcome (Bitmap × Option ℕ))
    : Type 0 where
  allocated :
      (map' : Bitmap) (sector : ℕ)
      → failed ≡ false
      → sector + cnt ≤ map.bit_cnt
      → HasRun map sector cnt false
      → NoRun map 0 sector cnt false
      → Filled map sector cnt true map'
      → r ≡ ok (map', some sector)
      → Allocated map cnt failed r
  no_room :
      NoRun map 0 (map.bit_cnt + 1 - cnt) cnt false
      → r ≡ ok (map, none)
      → Allocated map cnt failed r
  not_written :
      (map' : Bitmap)
      → failed ≡ true
      → SameUse map map'
      → r ≡ ok (map', none)
      → Allocated map cnt failed r

module _ (has_file written : Bool) (map : Bitmap) (cnt : ℕ) where
  scanned : Bitmap × ℕ → Outcome (Bitmap × Option ℕ)
  scanned r =
      if not (r.1 == bitmap_error) && (has_file && not written)
      then (bitmap_set_multiple r.0 r.1 cnt false >>= λ map2. ok (map2, none))
      else ok (r.0, (if r.1 == bitmap_error then none else some r.1))

  allocate_scanned :
      (r : Bitmap × ℕ)
      → bitmap_scan_and_flip map 0 cnt false ≡ ok r
      → free_map_allocate has_file written map cnt ≡ scanned r
  unfolding free_map_allocate scanned
  allocate_scanned r e = ap (λ o. o >>= scanned) e

  found_kept :
      (map1 : Bitmap) (sector : ℕ)
      → sector ≢ bitmap_error
      → (has_file && not written) ≡ false
      → scanned (map1, sector) ≡ ok (map1, some sector)
  unfolding scanned
  found_kept map1 sector ne w = ground (arith, w, ==_ne sector bitmap_error ne)

  found_undone :
      (map1 map2 : Bitmap) (sector : ℕ)
      → sector ≢ bitmap_error
      → (has_file && not written) ≡ true
      → bitmap_set_multiple map1 sector cnt false ≡ ok map2
      → scanned (map1, sector) ≡ ok (map2, none)
  unfolding scanned
  found_undone map1 map2 sector ne w e = ground (arith, w, ==_ne sector bitmap_error ne, e)

  undone :
      (map1 map2 : Bitmap) (sector : ℕ)
      → HasRun map sector cnt false
      → Filled map sector cnt true map1
      → Filled map1 sector cnt false map2
      → SameUse map map2
  undone map1 map2 sector run f g = (
    g.valid,
    g.size ∙ f.size,
    λ j.
        let was : sector ≤ j → j - sector < cnt → bit map j ≡ false = λ h l.
          ap (bit map) {x = j} {y = sector + (j - sector)} (omega arith) ∙ run (j - sector) l in
        ground (arith, g.bits_at j, f.bits_at j, was),
  )

-- free_map_allocate from a well-formed map takes the first `cnt` consecutive free sectors, marks just
-- them as used and returns the first. If there are none it changes nothing, and if the map cannot be
-- written to its file, every sector is used or free as before; in both cases it fails.
pub allocate-Allocated :
    (has_file written : Bool) (map : Bitmap) (cnt : ℕ)
    → IsBitmap map
    → Allocated map cnt (has_file && not written) (free_map_allocate has_file written map cnt)
unfolding scanned
allocate-Allocated has_file written map cnt w = elim (scan_and_flip-TakenFirst map w cnt false) [
  | first c k le run none_before filled e ↦
      let ne : k ≢ bitmap_error = λ h. omega (arith, w.small) in
      let a = allocate_scanned has_file written map cnt (c, k) e in
      elim (Bool-cases (has_file && not written)) [
        | inl t ↦
            let (d, e', g) =
              set_multiple-Filled c filled.valid k cnt (omega (arith, filled.size)) false in
            not_written d t (undone has_file written map cnt c d k run filled g)
              (a ∙ found_undone has_file written map cnt c d k ne t e')
        | inr f ↦
            allocated c k f le run none_before filled
              (a ∙ found_kept has_file written map cnt c k ne f)
      ]
  | none_left full e ↦
      no_room full (allocate_scanned has_file written map cnt (map, bitmap_error) e)
]

clash : (b : Bitmap) (k n : ℕ) → HasRun b k n true → HasBit b k n false → ⊥
clash b k n run (i, l, e) = let x = sym (run i l) ∙ e in ground arith

-- free_map_release of sectors of the map that are all in use makes just them free; when one of them is
-- free, the kernel stops.
pub release-Filled :
    (map : Bitmap) (sector cnt : ℕ)
    → IsBitmap map
    → sector + cnt ≤ map.bit_cnt
    → (HasRun map sector cnt true
        → (map' : Bitmap) × (free_map_release map sector cnt ≡ ok map')
          × Filled map sector cnt false map')
      × (HasBit map sector cnt false → free_map_release map sector cnt ≡ panic)
unfolding free_map_release
release-Filled map sector cnt w h =
    let (c, e, filled) = set_multiple-Filled map w sector cnt h false in
    elim (all-HasRun map w sector cnt h) [
      | inl (a, run) ↦
          ((λ r. (c, ground (arith, a, e), filled)), λ b. absurd (clash map sector cnt run b))
      | inr (a, b) ↦ ((λ run. absurd (clash map sector cnt run b)), λ b. ground (arith, a))
    ]
