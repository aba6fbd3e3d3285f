-- ===== src/Inode/Read.antt =====
-- inode_read_at of filesys/inode.c.
use ee468_pintos_project.Prelude.{
  ℕ, zero, suc, ◌+◌, ◌-◌, ◌*◌, ◌/◌, ◌%◌, ◌<◌, ◌≤◌, ◌≡◌, refl, sym, ap, subst, ◌∙◌, Bool, true,
  false, ◌&&◌, ◌||◌, ◌==◌, min, if◌then◌else◌, Outcome, ok, ◌>>=◌, arith, Bool-cases, inl, inr,
}
use ee468_pintos_project.Memory.{Memory, in_block}
use ee468_pintos_project.BlockDevice.{Block, splice, block_read_ok, sector_bytes}
use ee468_pintos_project.Inode.{
  Inode, chunk, byte_to_sector, bytes_to_sectors, read_chunk, read_loop, inode_read_at,
}

-- The byte `pos` of the file.
abbrev pub file_byte : Block → Inode → ℕ → ℕ
file_byte b inode pos = b.bytes (inode.disk_inode.start * 512 + pos)

-- The sectors of the file are on the device.
abbrev pub OnDevice : Block → Inode → Type 0
OnDevice b inode = inode.disk_inode.start + bytes_to_sectors inode.disk_inode.length ≤ b.size

-- What a round reads: `n` bytes of the file from `offset` on, to `dst`; the device keeps its bytes.
abbrev pub ReadsTo : Block → Inode → Memory → (dst offset n : ℕ) → Block → Memory → Type 0
ReadsTo b inode m dst offset n b' m' =
    ((a : ℕ) → m' a ≡ (if in_block dst n a then file_byte b inode (offset + (a - dst)) else m a))
    × (b'.bytes ≡ b.bytes)
    × (b'.size ≡ b.size)

pub sector_in :
    (b : Block) (inode : Inode) (offset : ℕ)
    → OnDevice b inode
    → offset < inode.disk_inode.length
    → (byte_to_sector inode offset ≡ inode.disk_inode.start + offset / 512)
      × (inode.disk_inode.start + offset / 512 < b.size)
sector_in b inode offset on h = (ground arith, omega arith)

-- The byte `i` of the sector that holds `offset` is a byte of the file.
sector_byte :
    (b : Block) (inode : Inode) (offset i j : ℕ)
    → offset % 512 + j ≡ i
    → sector_bytes b (inode.disk_inode.start + offset / 512) i ≡ file_byte b inode (offset + j)
sector_byte b inode offset i j h = ap b.bytes (omega arith)

whole_chunk :
    (b : Block) (inode : Inode) (m : Memory) (dst offset n : ℕ)
    → OnDevice b inode
    → offset + n ≤ inode.disk_inode.length
    → 0 < n
    → (offset % 512 == 0 && n == 512) ≡ true
    → (b' : Block) × (m' : Memory) × (read_chunk true b inode m dst offset n ≡ ok (true, b', m'))
      × ReadsTo b inode m dst offset n b' m'
unfolding read_chunk
whole_chunk b inode m dst offset n on fits pos e =
    let (s, l) = sector_in b inode offset on (omega arith) in
    let sector = inode.disk_inode.start + offset / 512 in
    (
      record b { read_cnt = b.read_cnt + 1 },
      splice m dst 512 (sector_bytes b sector),
      ground (arith, e, s, block_read_ok b sector m dst l),
      ((λ a. ground (arith, e, sector_byte b inode offset (a - dst) (a - dst))), refl, refl),
    )

part_chunk :
    (b : Block) (inode : Inode) (m : Memory) (dst offset n : ℕ)
    → OnDevice b inode
    → offset + n ≤ inode.disk_inode.length
    → 0 < n
    → n ≤ 512 - offset % 512
    → (offset % 512 == 0 && n == 512) ≡ false
    → (b' : Block) × (m' : Memory) × (read_chunk true b inode m dst offset n ≡ ok (true, b', m'))
      × ReadsTo b inode m dst offset n b' m'
unfolding read_chunk
part_chunk b inode m dst offset n on fits pos left e =
    let (s, l) = sector_in b inode offset on (omega arith) in
    let sector = inode.disk_inode.start + offset / 512 in
    let bounce : Memory = splice (λ a. 0) 0 512 (sector_bytes b sector) in
    (
      record b { read_cnt = b.read_cnt + 1 },
      splice m dst n (λ i. bounce (offset % 512 + i)),
      ground (arith, e, s, block_read_ok b sector (λ a. 0) 0 l),
      (
        (λ a. ground (arith, sector_byte b inode offset (offset % 512 + (a - dst)) (a - dst) refl)),
        refl,
        refl,
      ),
    )

read_chunk-ReadsTo :
    (b : Block) (inode : Inode) (m : Memory) (dst offset n : ℕ)
    → OnDevice b inode
    → offset + n ≤ inode.disk_inode.length
    → 0 < n
    → n ≤ 512 - offset % 512
    → (b' : Block) × (m' : Memory) × (read_chunk true b inode m dst offset n ≡ ok (true, b', m'))
      × ReadsTo b inode m dst offset n b' m'
read_chunk-ReadsTo b inode m dst offset n on fits pos left =
    elim (Bool-cases (offset % 512 == 0 && n == 512)) [
      | inl e ↦ whole_chunk b inode m dst offset n on fits pos e
      | inr e ↦ part_chunk b inode m dst offset n on fits pos left e
    ]

-- A transfer of `size` bytes from `offset` on stops at the end of the file.
abbrev pub transfer : Inode → (size offset : ℕ) → ℕ
transfer inode size offset = min size (inode.disk_inode.length - offset)

pub chunk_facts :
    (inode : Inode) (size offset : ℕ)
    → (chunk inode size offset ≤ transfer inode size offset)
      × (chunk inode size offset ≤ 512 - offset % 512)
      × ((size == 0 || chunk inode size offset == 0) ≡ true → transfer inode size offset ≡ 0)
      × ((size == 0 || chunk inode size offset == 0) ≡ false → 0 < chunk inode size offset)
chunk_facts inode size offset = (ground arith, ground arith, (λ h. ground arith), λ h. ground arith)

split_facts :
    (size left c fuel : ℕ)
    → 0 < c
    → c ≤ min size left
    → size < suc fuel
    → (size - c < fuel) × (min size left ≡ c + min (size - c) (left - c))
split_facts size left c fuel pos le h = (omega arith, omega arith)

-- A transfer of at least one byte is its first chunk and the rest.
pub round_facts :
    (inode : Inode) (size offset fuel : ℕ)
    → (size == 0 || chunk inode size offset == 0) ≡ false
    → size < suc fuel
    → let c = chunk inode size offset in
      (offset + c ≤ inode.disk_inode.length)
      × (size - c < fuel)
      × (transfer inode size offset ≡ c + transfer inode (size - c) (offset + c))
round_facts inode size offset fuel e h =
    let (c_le, c_left, stop, go) = chunk_facts inode size offset in
    let (f, t) =
      split_facts size (inode.disk_inode.length - offset) (chunk inode size offset) fuel (go e) c_le
        h in
    (
      end (inode.disk_inode.length) offset (chunk inode size offset) size (go e) c_le,
      f,
      t
          ∙ ap (λ z. chunk inode size offset + min (size - chunk inode size offset) z)
              (sub_sub (inode.disk_inode.length) offset (chunk inode size offset)),
    )
  where
    end : (len offset c size : ℕ) → 0 < c → c ≤ min size (len - offset) → offset + c ≤ len
    end len offset c size p h = omega arith

    sub_sub : (len offset c : ℕ) → len - offset - c ≡ len - (offset + c)
    sub_sub len offset c = omega arith

next_round :
    (fuel : ℕ) (b b' b'' : Block) (inode : Inode) (m m' m'' : Memory) (buffer size offset got n : ℕ)
    → (size == 0 || chunk inode size offset == 0) ≡ false
    → read_chunk true b inode m (buffer + got) offset (chunk inode size offset) ≡ ok (true, b', m')
    → read_loop fuel true b' inode m' buffer
        (size - chunk inode size offset)
        (offset + chunk inode size offset)
        (got + chunk inode size offset)
      ≡ ok (b'', m'', n)
    → read_loop (suc fuel) true b inode m buffer size offset got ≡ ok (b'', m'', n)
unfolding read_loop
next_round fuel b b' b'' inode m m' m'' buffer size offset got n go r s =
    let c = chunk inode size offset in
    let rest : Bool × Block × Memory → Outcome (Block × Memory × ℕ) = λ x.
      if x.0
      then read_loop fuel true x.1 inode x.2 buffer (size - c) (offset + c) (got + c)
      else ok (x.1, x.2, got) in
    ap
      (λ t.
        if t then ok (b, m, got) else (read_chunk true b inode m (buffer + got) offset c >>= rest))
      go
    ∙ ap (λ o. o >>= rest) r
    ∙ s

-- Two transfers, one behind the other.
ReadsTo-append :
    (b b' b'' : Block) (inode : Inode) (m m' m'' : Memory) (dst offset c n k : ℕ)
    → n ≡ c + k
    → ReadsTo b inode m dst offset c b' m'
    → ReadsTo b' inode m' (dst + c) (offset + c) k b'' m''
    → ReadsTo b inode m dst offset n b'' m''
ReadsTo-append b b' b'' inode m m' m'' dst offset c n k e (p, q, s) (p', q', s') = (
  (λ a.
      let later : dst + c ≤ a
          → file_byte b' inode (offset + c + (a - (dst + c)))
            ≡ file_byte b inode (offset + (a - dst)) =
        λ h.
          ap (λ f. f (inode.disk_inode.start * 512 + (offset + c + (a - (dst + c))))) q
          ∙ ap b.bytes (omega arith) in
      ground (arith, p a, p' a, later)),
  q' ∙ q,
  s' ∙ s,
)

pub add_add : (a b c : ℕ) → a + b + c ≡ a + (b + c)
add_add a b c = omega arith

read_loop-ReadsTo :
    (fuel : ℕ) (b : Block) (inode : Inode) (m : Memory) (buffer size offset got : ℕ)
    → OnDevice b inode
    → size < fuel
    → (b' : Block) × (m' : Memory) × (read_loop fuel true b inode m buffer size offset got
        ≡ ok (b', m', got + transfer inode size offset))
      × ReadsTo b inode m (buffer + got) offset (transfer inode size offset) b' m'
unfolding read_loop
read_loop-ReadsTo zero b inode m buffer size offset got on h = absurd (omega arith)
read_loop-ReadsTo (suc fuel) b inode m buffer size offset got on h =
    let (c_le, c_left, stop, go) = chunk_facts inode size offset in
    let c = chunk inode size offset in
    elim (Bool-cases (size == 0 || chunk inode size offset == 0)) [
      | inl e ↦ (
        b,
        m,
        ap
              (λ t.
                if t
                then ok (b, m, got)
                else (read_chunk true b inode m (buffer + got) offset c >>= λ x.
                    if x.0
                    then read_loop fuel true x.1 inode x.2 buffer (size - c) (offset + c) (got + c)
                    else ok (x.1, x.2, got)))
              e
            ∙ ap (λ n. ok (b, m, n)) (omega (arith, stop e)),
        ((λ a. ground (arith, stop e)), refl, refl),
      )
      | inr e ↦
          let (fits, less, t) = round_facts inode size offset fuel e h in
          let (b1, m1, r, w) =
            read_chunk-ReadsTo b inode m (buffer + got) offset c on fits (go e) c_left in
          let (b2, m2, r', w') =
            read_loop-ReadsTo fuel b1 inode m1 buffer (size - c) (offset + c) (got + c)
              (subst (λ s. inode.disk_inode.start + bytes_to_sectors inode.disk_inode.length ≤ s)
                (sym w.2) on)
              less in
          (
            b2,
            m2,
            next_round fuel b b1 b2 inode m m1 m2 buffer size offset got
                (got + transfer inode size offset) e r
                (r' ∙ ap (λ n. ok (b2, m2, n)) (add_add got c _ ∙ ap (λ n. got + n) (sym t))),
            ReadsTo-append b b1 b2 inode m m1 m2 (buffer + got) offset c
                (transfer inode size offset) (transfer inode (size - c) (offset + c)) t w
                (subst
                  (λ d.
                    ReadsTo b1 inode m1 d (offset + c) (transfer inode (size - c) (offset + c)) b2
                      m2)
                  (sym (add_add buffer got c)) w'),
          )
    ]

-- inode_read_at with a bounce buffer reads the bytes of the file from `offset` on, up to `size` of
-- them or the end of the file, and returns their number: they stand in the buffer in their order,
-- and no other byte of the memory and none of the device changes. The file's sectors are on the
-- device; fuel for one round more than there are bytes is enough.
pub read_at-ReadsTo :
    (fuel : ℕ) (b : Block) (inode : Inode) (m : Memory) (buffer size offset : ℕ)
    → OnDevice b inode
    → size < fuel
    → (b' : Block) × (m' : Memory) × (inode_read_at fuel true b inode m buffer size offset
        ≡ ok (b', m', transfer inode size offset))
      × ReadsTo b inode m buffer offset (transfer inode size offset) b' m'
unfolding inode_read_at
read_at-ReadsTo fuel b inode m buffer size offset on h =
    let (b', m', r, w) = read_loop-ReadsTo fuel b inode m buffer size offset 0 on h in
    (
      b',
      m',
      r ∙ ap (λ n. ok (b', m', n)) (omega arith),
      subst (λ d. ReadsTo b inode m d offset (transfer inode size offset) b' m') (omega arith) w,
    )
