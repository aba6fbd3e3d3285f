-- ===== src/Swap/Slots.antt =====
-- vm_swap_out and vm_swap_in of vm/swap.c, one after the other.
use ee468_pintos_project.Prelude.{
  ℕ, ◌+◌, ◌-◌, ◌*◌, ◌<◌, ◌≤◌, ◌≡◌, ◌≢◌, sym, ap, subst, ◌∙◌, true, false, ◌==◌, if◌then◌else◌,
  Outcome, ok, ok-injective, arith, ◌⊎◌, inl, inr,
}
use ee468_pintos_project.Memory.{Memory, in_block}
use ee468_pintos_project.Bitmap.{
  Bitmap, IsBitmap, bit, bitmap_scan_and_flip, bitmap_error, bitmap_flip,
}
use ee468_pintos_project.Bitmap.Bit.{flip-Wrote}
use ee468_pintos_project.Bitmap.Scan.{NoRun, first, none_left, scan_and_flip-TakenFirst}
use ee468_pintos_project.BlockDevice.{Block}
use ee468_pintos_project.Swap.{
  Swap, vm_swap_out, vm_swap_in, swap_error, write_sectors, read_sectors, sectors_per_page,
}
use ee468_pintos_project.Swap.Sectors.{Stored, Loaded, write_sectors-Stored, read_sectors-Loaded}

-- The bitmap is well formed, its slots are on the device, and the device can be written.
pub record IsSwap (s : Swap) : Type 0 where
  pub map_valid : IsBitmap s.swap_map
  pub on_device : s.swap_map.bit_cnt * 8 ≤ s.swap_device.size
  pub home : s.swap_device.foreign ≡ false

-- The page is in a slot that was free and is not free any more; other slots are as they were.
pub record InSlot (s : Swap) (m : Memory) (uva k : ℕ) (s' : Swap) : Type 0 where
  pub there : k < s.swap_map.bit_cnt
  pub was_free : bit s.swap_map k ≡ true
  pub valid : IsSwap s'
  pub same_slots : s'.swap_map.bit_cnt ≡ s.swap_map.bit_cnt
  pub free_slots : (j : ℕ) → bit s'.swap_map j ≡ (if j == k then false else bit s.swap_map j)
  pub stored : Stored s.swap_device m (k * 4096) uva 4096 s'.swap_device

abbrev pub SwappedOut : Swap → Memory → ℕ → Outcome (Swap × ℕ) → Type 0
SwappedOut s m uva r =
    ((r ≡ ok (s, swap_error)) × ((j : ℕ) → j < s.swap_map.bit_cnt → bit s.swap_map j ≡ false))
    ⊎ ((s' : Swap) × (k : ℕ) × (r ≡ ok (s', k)) × InSlot s m uva k s')

-- The two branches of vm_swap_out, by what the bitmap answers.
out_full :
    (s : Swap) (m : Memory) (uva : ℕ)
    → bitmap_scan_and_flip s.swap_map 0 1 true ≡ ok (s.swap_map, bitmap_error)
    → vm_swap_out s m uva ≡ ok (s, swap_error)
unfolding vm_swap_out
out_full s m uva e = ground (arith, e)

out_slot :
    (s : Swap) (m : Memory) (uva k : ℕ) (c : Bitmap) (d : Block)
    → k < bitmap_error
    → bitmap_scan_and_flip s.swap_map 0 1 true ≡ ok (c, k)
    → write_sectors sectors_per_page s.swap_device m k uva 0 ≡ ok d
    → vm_swap_out s m uva ≡ ok (record { swap_device = d; swap_map = c }, k)
unfolding vm_swap_out
out_slot s m uva k c d h e w = ground (arith, e, w)

none_free :
    (b : Bitmap) → NoRun b 0 (b.bit_cnt + 1 - 1) 1 true → (j : ℕ) → j < b.bit_cnt → bit b j ≡ false
none_free b n j h =
    let (k, l, e) = n j (omega arith) in ap (bit b) {x = j} {y = 0 + j + k} (omega arith) ∙ e

-- vm_swap_out stores the page in a slot that was free, marks just that slot as used and returns its
-- number; it changes no other slot. Only if no slot is free, it changes nothing and returns SWAP_ERROR.
pub swap_out-SwappedOut :
    (s : Swap) (m : Memory) (uva : ℕ) → IsSwap s → SwappedOut s m uva (vm_swap_out s m uva)
swap_out-SwappedOut s m uva v = elim (scan_and_flip-TakenFirst s.swap_map v.map_valid 1 true) [
  | first c k le run none filled e ↦
      let (d, r, w) = write_sectors-Stored 8 s.swap_device m k uva 0 (omega arith) v.home in
      inr (
        record { swap_device = d; swap_map = c },
        k,
        out_slot s m uva k c d (omega arith) e r,
        record {
          there = omega arith;
          was_free = ap (bit s.swap_map) {x = k} {y = k + 0} (omega arith) ∙ run 0 (omega arith);
          valid = record {
            map_valid = filled.valid;
            on_device = omega (arith, w.1, filled.size, v.on_device);
            home = w.2 ∙ v.home;
          };
          same_slots = filled.size;
          free_slots = λ j. ground (arith, filled.bits_at j);
          stored =
              subst (λ x. Stored s.swap_device m x uva 4096 d) (omega arith)
                (subst (λ x. Stored s.swap_device m ((k * 8 + 0) * 512) x 4096 d) (omega arith) w);
        },
      )
  | none_left none e ↦ inl (out_full s m uva e, none_free s.swap_map none)
]

-- A read of the slot that holds a page.
read_back :
    (s s' : Swap) (m m2 : Memory) (uva k dst : ℕ) (d : Block) (m' : Memory)
    → Stored s.swap_device m (k * 4096) uva 4096 s'.swap_device
    → Loaded s'.swap_device m2 (k * 4096) dst 4096 d m'
    → (a : ℕ) → m' a ≡ (if in_block dst 4096 a then m (uva + (a - dst)) else m2 a)
read_back s s' m m2 uva k dst d m' (p, ps, pf) (q, qb, qs, qf) a =
    let at : dst ≤ a → m (uva + (k * 4096 + (a - dst) - k * 4096)) ≡ m (uva + (a - dst)) =
      λ h. ap m (omega arith) in
    ground (arith, q a, p (k * 4096 + (a - dst)), at)

in_slot :
    (s : Swap) (m : Memory) (k dst : ℕ) (d : Block) (m' : Memory)
    → read_sectors sectors_per_page s.swap_device m k dst 0 ≡ ok (d, m')
    → vm_swap_in s m k dst
      ≡ ok (record { swap_device = d; swap_map = bitmap_flip s.swap_map k }, m')
unfolding vm_swap_in
in_slot s m k dst d m' r = ground (arith, r)

-- What vm_swap_in does with a page that is in a slot.
pub record BackIn (s : Swap) (m m2 : Memory) (uva dst : ℕ) (s' : Swap) (m' : Memory) : Type 0 where
  pub valid : IsSwap s'
  pub page : (a : ℕ) → m' a ≡ (if in_block dst 4096 a then m (uva + (a - dst)) else m2 a)
  pub free_again : (j : ℕ) → bit s'.swap_map j ≡ bit s.swap_map j

slot-BackIn :
    (s s' : Swap) (m m2 : Memory) (uva k dst : ℕ)
    → InSlot s m uva k s'
    → (s2 : Swap) × (m' : Memory) × (vm_swap_in s' m2 k dst ≡ ok (s2, m'))
      × BackIn s m m2 uva dst s2 m'
slot-BackIn s s' m m2 uva k dst i =
    let (d, m', r, w) =
      read_sectors-Loaded 8 s'.swap_device m2 k dst 0
        (omega (arith, i.valid.on_device, i.there, i.same_slots)) in
    let flip = flip-Wrote s'.swap_map i.valid.map_valid k (omega (arith, i.there, i.same_slots)) in
    (
      record { swap_device = d; swap_map = bitmap_flip s'.swap_map k },
      m',
      in_slot s' m2 k dst d m' r,
      record {
        valid = record {
          map_valid = flip.valid;
          on_device = omega (arith, w.2, flip.size, i.valid.on_device);
          home = w.3 ∙ i.valid.home;
        };
        page = read_back s s' m m2 uva k dst d m' i.stored (
            subst (λ x. Loaded s'.swap_device m2 (k * 4096) x 4096 d m') (omega arith)
              (subst (λ x. Loaded s'.swap_device m2 x (dst + 0 * 512) 4096 d m') (omega arith) w));
        free_again = λ j.
            let was : j ≡ k → bit s.swap_map j ≡ true = λ e. ap (bit s.swap_map) e ∙ i.was_free in
            ground (arith, flip.bits_at j, i.free_slots j, i.free_slots k, was);
      },
    )

-- A page that vm_swap_out stored comes back: vm_swap_in with the slot's number reads it to any
-- address, whatever the memory holds by then, and leaves every slot as it was before; no other byte
-- of the memory changes.
pub swap_in-swap_out :
    (s s' : Swap) (m m2 : Memory) (uva k dst : ℕ)
    → IsSwap s
    → vm_swap_out s m uva ≡ ok (s', k)
    → k ≢ swap_error
    → (s2 : Swap) × (m' : Memory) × (vm_swap_in s' m2 k dst ≡ ok (s2, m'))
      × BackIn s m m2 uva dst s2 m'
swap_in-swap_out s s' m m2 uva k dst v out ne = elim (swap_out-SwappedOut s m uva v) [
  | inl f ↦ absurd (ne (sym (ap (λ x. x.1) (ok-injective (sym f.0 ∙ out)))))
  | inr i ↦
      let e = ok-injective (sym i.2 ∙ out) in
      slot-BackIn s s' m m2 uva k dst (subst (λ x. InSlot s m uva x.1 x.0) e i.3)
]
