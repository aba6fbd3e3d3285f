-- ===== src/Swap/Sectors.antt =====
-- The loops of vm/swap.c over the sectors of a page.
use ee468_pintos_project.Prelude.{
  ℕ, zero, suc, ◌+◌, ◌-◌, ◌*◌, ◌≤◌, ◌≡◌, refl, ap, subst, ◌∙◌, false, if◌then◌else◌, ok, ◌>>=◌,
  arith,
}
use ee468_pintos_project.Memory.{Memory, in_block}
use ee468_pintos_project.BlockDevice.{Block, splice, sector_bytes, block_read_ok, block_write_ok}
use ee468_pintos_project.Swap.{write_sectors, read_sectors}

-- `n` bytes of the device from `at` on are those of the memory from `src` on, the others are kept.
abbrev pub Stored : Block → Memory → (at src n : ℕ) → Block → Type 0
Stored d m at src n d' =
    ((a : ℕ) → d'.bytes a ≡ (if in_block at n a then m (src + (a - at)) else d.bytes a))
    × (d'.size ≡ d.size)
    × (d'.foreign ≡ d.foreign)

-- `n` bytes of the memory from `dst` on are those of the device from `at` on, the others are kept.
abbrev pub Loaded : Block → Memory → (at dst n : ℕ) → Block → Memory → Type 0
Loaded d m at dst n d' m' =
    ((a : ℕ) → m' a ≡ (if in_block dst n a then d.bytes (at + (a - dst)) else m a))
    × (d'.bytes ≡ d.bytes)
    × (d'.size ≡ d.size)
    × (d'.foreign ≡ d.foreign)

Stored-append :
    (d d1 d2 : Block) (m : Memory) (at src c k : ℕ)
    → Stored d m at src c d1
    → Stored d1 m (at + c) (src + c) k d2
    → Stored d m at src (c + k) d2
Stored-append d d1 d2 m at src c k (p, s, f) (p', s', f') = (
  (λ a.
      let later : at + c ≤ a → m (src + c + (a - (at + c))) ≡ m (src + (a - at)) =
        λ h. ap m (omega arith) in
      ground (arith, p a, p' a, later)),
  s' ∙ s,
  f' ∙ f,
)

Loaded-append :
    (d d1 d2 : Block) (m m1 m2 : Memory) (at dst c k : ℕ)
    → Loaded d m at dst c d1 m1
    → Loaded d1 m1 (at + c) (dst + c) k d2 m2
    → Loaded d m at dst (c + k) d2 m2
Loaded-append d d1 d2 m m1 m2 at dst c k (p, q, s, f) (p', q', s', f') = (
  (λ a.
      let later : dst + c ≤ a → d1.bytes (at + c + (a - (dst + c))) ≡ d.bytes (at + (a - dst)) =
        λ h. ap (λ g. g (at + c + (a - (dst + c)))) q ∙ ap d.bytes (omega arith) in
      ground (arith, p a, p' a, later)),
  q' ∙ q,
  s' ∙ s,
  f' ∙ f,
)

pub write_sectors-Stored :
    (rounds : ℕ) (d : Block) (m : Memory) (swap_idx uva counter : ℕ)
    → swap_idx * 8 + counter + rounds ≤ d.size
    → d.foreign ≡ false
    → (d' : Block) × (write_sectors rounds d m swap_idx uva counter ≡ ok d')
      × Stored d m ((swap_idx * 8 + counter) * 512) (uva + counter * 512) (rounds * 512) d'
unfolding write_sectors
write_sectors-Stored zero d m swap_idx uva counter h home =
    (d, refl, ((λ a. ground arith), refl, refl))
write_sectors-Stored (suc rounds) d m swap_idx uva counter h home =
    let sector = swap_idx * 8 + counter in
    let d1 : Block = record d {
      bytes = splice d.bytes (sector * 512) 512 (λ i. m (uva + counter * 512 + i));
      write_cnt = d.write_cnt + 1;
    } in
    let w1 : Stored d m (sector * 512) (uva + counter * 512) 512 d1 = ((λ a. refl), refl, refl) in
    let (d', r, w) =
      write_sectors-Stored rounds d1 m swap_idx uva (counter + 1) (omega arith) home in
    (
      d',
      ap (λ o. o >>= λ x. write_sectors rounds x m swap_idx uva (counter + 1))
            (block_write_ok d sector m (uva + counter * 512) (omega arith) home)
          ∙ r,
      subst (λ n. Stored d m (sector * 512) (uva + counter * 512) n d') (omega arith)
          (Stored-append d d1 d' m (sector * 512) (uva + counter * 512) 512 (rounds * 512) w1 (
            subst (λ x. Stored d1 m x (uva + counter * 512 + 512) (rounds * 512) d') (omega arith)
              (subst (λ x. Stored d1 m ((swap_idx * 8 + (counter + 1)) * 512) x (rounds * 512) d')
                (omega arith) w))),
    )

pub read_sectors-Loaded :
    (rounds : ℕ) (d : Block) (m : Memory) (swap_idx uva counter : ℕ)
    → swap_idx * 8 + counter + rounds ≤ d.size
    → (d' : Block) × (m' : Memory) × (read_sectors rounds d m swap_idx uva counter ≡ ok (d', m'))
      × Loaded d m ((swap_idx * 8 + counter) * 512) (uva + counter * 512) (rounds * 512) d' m'
unfolding read_sectors
read_sectors-Loaded zero d m swap_idx uva counter h =
    (d, m, refl, ((λ a. ground arith), refl, refl, refl))
read_sectors-Loaded (suc rounds) d m swap_idx uva counter h =
    let sector = swap_idx * 8 + counter in
    let d1 : Block = record d { read_cnt = d.read_cnt + 1 } in
    let m1 : Memory = splice m (uva + counter * 512) 512 (sector_bytes d sector) in
    let w1 : Loaded d m (sector * 512) (uva + counter * 512) 512 d1 m1 =
      ((λ a. refl), refl, refl, refl) in
    let (d', m', r, w) =
      read_sectors-Loaded rounds d1 m1 swap_idx uva (counter + 1) (omega arith) in
    (
      d',
      m',
      ap (λ o. o >>= λ x. read_sectors rounds x.0 x.1 swap_idx uva (counter + 1))
            (block_read_ok d sector m (uva + counter * 512) (omega arith))
          ∙ r,
      subst (λ n. Loaded d m (sector * 512) (uva + counter * 512) n d' m') (omega arith)
          (Loaded-append d d1 d' m m1 m' (sector * 512) (uva + counter * 512) 512 (rounds * 512) w1
            (subst (λ x. Loaded d1 m1 x (uva + counter * 512 + 512) (rounds * 512) d' m')
              (omega arith)
              (subst
                (λ x. Loaded d1 m1 ((swap_idx * 8 + (counter + 1)) * 512) x (rounds * 512) d' m')
                (omega arith) w))),
    )
