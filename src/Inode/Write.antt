-- ===== src/Inode/Write.antt =====
-- inode_write_at of filesys/inode.c, and a read behind it.
use ee468_pintos_project.Prelude.{
  ℕ, zero, suc, ◌+◌, ◌-◌, ◌*◌, ◌/◌, ◌%◌, ◌<◌, ◌≤◌, ◌≡◌, ◌≢◌, refl, sym, ap, ap₂, subst, ==_ne, ◌∙◌,
  Bool, true, false, not, ◌&&◌, ◌||◌, ltb, ◌==◌, if◌then◌else◌, Outcome, ok, ◌>>=◌, arith,
  Bool-cases, inl, inr,
}
use ee468_pintos_project.Memory.{Memory, in_block}
use ee468_pintos_project.BlockDevice.{Block, splice, block_read_ok, block_write_ok, sector_bytes}
use ee468_pintos_project.Inode.{
  Inode, chunk, bytes_to_sectors, fill_bounce, write_part, write_chunk, write_loop, inode_write_at,
  inode_read_at,
}
use ee468_pintos_project.Inode.Read.{
  OnDevice, transfer, chunk_facts, round_facts, sector_in, add_add, read_at-ReadsTo,
}

-- What is written: `n` bytes of the memory from `src` on, to the file from `offset` on; the device
-- keeps all other bytes.
abbrev pub WritesTo : Block → Inode → Memory → (src offset n : ℕ) → Block → Type 0
WritesTo b inode m src offset n b' =
    let at = inode.disk_inode.start * 512 + offset in
    ((a : ℕ) → b'.bytes a ≡ (if in_block at n a then m (src + (a - at)) else b.bytes a))
    × (b'.size ≡ b.size)
    × (b'.foreign ≡ b.foreign)

-- The bytes of the device when a part of a sector was replaced in the bounce buffer.
part_bytes :
    (bytes m : Memory) (base o n src a : ℕ)
    → o + n ≤ 512
    → splice bytes base 512
        (λ i. splice (splice (λ x. 0) 0 512 (λ x. bytes (base + x))) o n (λ x. m (src + x)) (0 + i))
        a
      ≡ (if in_block (base + o) n a then m (src + (a - (base + o))) else bytes a)
part_bytes bytes m base o n src a h =
    let same : base ≤ a → bytes (base + (0 + (a - base) - 0)) ≡ bytes a =
      λ l. ap bytes (omega arith) in
    let new : base + o ≤ a → m (src + (0 + (a - base) - o)) ≡ m (src + (a - (base + o))) =
      λ l. ap m (omega arith) in
    ground (arith, same, new)

write_part_ok :
    (b : Block) (m : Memory) (src sector o n : ℕ)
    → sector < b.size
    → b.foreign ≡ false
    → (ltb 0 o || ltb n (512 - o)) ≡ true
    → write_part b m src sector o n
      ≡ ok (
        true,
        record b {
          bytes = splice b.bytes (sector * 512) 512 (λ i.
              splice
                (splice (λ x. 0) 0 512 (sector_bytes b sector))
                o
                n
                (λ x. m (src + x))
                (0 + i));
          read_cnt = b.read_cnt + 1;
          write_cnt = b.write_cnt + 1;
        },
      )
unfolding write_part fill_bounce
write_part_ok b m src sector o n l home p =
    let b1 : Block = record b { read_cnt = b.read_cnt + 1 } in
    let bounce : Memory = splice (λ x. 0) 0 512 (sector_bytes b sector) in
    let filled : Memory = splice bounce o n (λ x. m (src + x)) in
    ground (arith, p, block_read_ok b sector (λ x. 0) 0 l, block_write_ok b1 sector filled 0 l home)

module _ (b : Block) (inode : Inode) (m : Memory) (src offset n : ℕ) (on : OnDevice b inode)
    (home : b.foreign ≡ false) (fits : offset + n ≤ inode.disk_inode.length) (pos : 0 < n) where
  whole_chunk :
      (offset % 512 == 0 && n == 512) ≡ true
      → (b' : Block) × (write_chunk true b inode m src offset n ≡ ok (true, b'))
        × WritesTo b inode m src offset n b'
  unfolding write_chunk
  whole_chunk e =
      let (s, l) = sector_in b inode offset on (omega arith) in
      let sector = inode.disk_inode.start + offset / 512 in
      (
        record b {
          bytes = splice b.bytes (sector * 512) 512 (λ i. m (src + i));
          write_cnt = b.write_cnt + 1;
        },
        ground (arith, e, s, block_write_ok b sector m src l home),
        (
          (λ a.
              ap₂ (λ x k. if in_block x k a then m (src + (a - x)) else b.bytes a)
                {x = sector * 512} {y = inode.disk_inode.start * 512 + offset} (ground arith)
                (ground arith)),
          refl,
          refl,
        ),
      )

  part_chunk :
      n ≤ 512 - offset % 512
      → (offset % 512 == 0 && n == 512) ≡ false
      → (b' : Block) × (write_chunk true b inode m src offset n ≡ ok (true, b'))
        × WritesTo b inode m src offset n b'
  unfolding write_chunk
  part_chunk left e =
      let (s, l) = sector_in b inode offset on (omega arith) in
      let sector = inode.disk_inode.start + offset / 512 in
      let o = offset % 512 in
      (
        record b {
          bytes = splice b.bytes (sector * 512) 512 (λ i.
              splice (splice (λ x. 0) 0 512 (sector_bytes b sector)) o n (λ x. m (src + x))
                (0 + i));
          read_cnt = b.read_cnt + 1;
          write_cnt = b.write_cnt + 1;
        },
        ground (arith, e, s, write_part_ok b m src sector o n l home (ground arith)),
        (
          (λ a.
              part_bytes b.bytes m (sector * 512) o n src a (omega arith)
              ∙ ap (λ x. if in_block x n a then m (src + (a - x)) else b.bytes a) (omega arith)),
          refl,
          refl,
        ),
      )

  write_chunk-WritesTo :
      n ≤ 512 - offset % 512
      → (b' : Block) × (write_chunk true b inode m src offset n ≡ ok (true, b'))
        × WritesTo b inode m src offset n b'
  write_chunk-WritesTo left = elim (Bool-cases (offset % 512 == 0 && n == 512)) [
    | inl e ↦ whole_chunk e
    | inr e ↦ part_chunk left e
  ]

next_round :
    (fuel : ℕ) (b b' b'' : Block) (inode : Inode) (m : Memory) (buffer size offset put n : ℕ)
    → (size == 0 || chunk inode size offset == 0) ≡ false
    → write_chunk true b inode m (buffer + put) offset (chunk inode size offset) ≡ ok (true, b')
    → write_loop fuel true b' inode m buffer
        (size - chunk inode size offset)
        (offset + chunk inode size offset)
        (put + chunk inode size offset)
      ≡ ok (b'', n)
    → write_loop (suc fuel) true b inode m buffer size offset put ≡ ok (b'', n)
unfolding write_loop
next_round fuel b b' b'' inode m buffer size offset put n go r s =
    let c = chunk inode size offset in
    let rest : Bool × Block → Outcome (Block × ℕ) = λ x.
      if x.0
      then write_loop fuel true x.1 inode m buffer (size - c) (offset + c) (put + c)
      else ok (x.1, put) in
    ap
      (λ t.
        if t then ok (b, put) else (write_chunk true b inode m (buffer + put) offset c >>= rest))
      go
    ∙ ap (λ o. o >>= rest) r
    ∙ s

last_round :
    (fuel : ℕ) (b : Block) (inode : Inode) (m : Memory) (buffer size offset put : ℕ)
    → (size == 0 || chunk inode size offset == 0) ≡ true
    → write_loop (suc fuel) true b inode m buffer size offset put ≡ ok (b, put)
unfolding write_loop
last_round fuel b inode m buffer size offset put e =
    let c = chunk inode size offset in
    let rest : Bool × Block → Outcome (Block × ℕ) = λ x.
      if x.0
      then write_loop fuel true x.1 inode m buffer (size - c) (offset + c) (put + c)
      else ok (x.1, put) in
    ap
      (λ t.
        if t then ok (b, put) else (write_chunk true b inode m (buffer + put) offset c >>= rest))
      e

-- Two transfers, one behind the other.
WritesTo-append :
    (b b' b'' : Block) (inode : Inode) (m : Memory) (src offset c n k : ℕ)
    → n ≡ c + k
    → WritesTo b inode m src offset c b'
    → WritesTo b' inode m (src + c) (offset + c) k b''
    → WritesTo b inode m src offset n b''
WritesTo-append b b' b'' inode m src offset c n k e (p, s, f) (p', s', f') = (
  (λ a.
      let base = inode.disk_inode.start * 512 in
      let later : base + (offset + c) ≤ a
          → m (src + c + (a - (base + (offset + c)))) ≡ m (src + (a - (base + offset))) =
        λ h. ap m (omega arith) in
      ground (arith, p a, p' a, later)),
  s' ∙ s,
  f' ∙ f,
)

write_loop-WritesTo :
    (fuel : ℕ) (b : Block) (inode : Inode) (m : Memory) (buffer size offset put : ℕ)
    → OnDevice b inode
    → b.foreign ≡ false
    → size < fuel
    → (b' : Block) × (write_loop fuel true b inode m buffer size offset put
        ≡ ok (b', put + transfer inode size offset))
      × WritesTo b inode m (buffer + put) offset (transfer inode size offset) b'
write_loop-WritesTo zero b inode m buffer size offset put on home h = absurd (omega arith)
write_loop-WritesTo (suc fuel) b inode m buffer size offset put on home h =
    let (c_le, c_left, stop, go) = chunk_facts inode size offset in
    let c = chunk inode size offset in
    elim (Bool-cases (size == 0 || chunk inode size offset == 0)) [
      | inl e ↦ (
        b,
        last_round fuel b inode m buffer size offset put e
            ∙ ap (λ n. ok (b, n)) (omega (arith, stop e)),
        ((λ a. ground (arith, stop e)), refl, refl),
      )
      | inr e ↦
          let (fits, less, t) = round_facts inode size offset fuel e h in
          let k = transfer inode (size - c) (offset + c) in
          let (b1, r, w) =
            write_chunk-WritesTo b inode m (buffer + put) offset c on home fits (go e) c_left in
          let on' : OnDevice b1 inode =
            subst (λ s. inode.disk_inode.start + bytes_to_sectors inode.disk_inode.length ≤ s)
              (sym w.1) on in
          let (b2, r', w') =
            write_loop-WritesTo fuel b1 inode m buffer (size - c) (offset + c) (put + c) on'
              (w.2 ∙ home) less in
          (
            b2,
            next_round fuel b b1 b2 inode m buffer size offset put
                (put + transfer inode size offset) e r
                (r' ∙ ap (λ n. ok (b2, n)) (add_add put c k ∙ ap (λ n. put + n) (sym t))),
            WritesTo-append b b1 b2 inode m (buffer + put) offset c (transfer inode size offset) k t
                w
                (subst (λ d. WritesTo b1 inode m d (offset + c) k b2) (sym (add_add buffer put c))
                  w'),
          )
    ]

same_bytes :
    (bytes' bytes m : Memory) (buffer other base offset n a : ℕ)
    → ((x : ℕ)
        → bytes' x
          ≡ (if in_block (base + offset) n x then m (buffer + (x - (base + offset))) else bytes x))
    → (if in_block other n a then bytes' (base + (offset + (a - other))) else m a)
      ≡ (if in_block other n a then m (buffer + (a - other)) else m a)
same_bytes bytes' bytes m buffer other base offset n a w =
    let at : other ≤ a
        → m (buffer + (base + (offset + (a - other)) - (base + offset)))
          ≡ m (buffer + (a - other)) =
      λ h. ap m (omega arith) in
    ground (arith, w (base + (offset + (a - other))), at)

-- inode_write_at with a bounce buffer writes nothing while writes are denied. Else it writes the bytes
-- of the buffer to the file from `offset` on, up to `size` of them or the end of the file, which does
-- not grow, and returns their number; no other byte of the device changes. The file's sectors are on
-- the device, which is not a foreign one; fuel for one round more than there are bytes is enough.
pub write_at-WritesTo :
    (fuel : ℕ) (b : Block) (inode : Inode) (m : Memory) (buffer size offset : ℕ)
    → OnDevice b inode
    → b.foreign ≡ false
    → size < fuel
    → (inode.deny_write_cnt ≢ 0 → inode_write_at fuel true b inode m buffer size offset ≡ ok (b, 0))
      × (inode.deny_write_cnt ≡ 0
          → (b' : Block) × (inode_write_at fuel true b inode m buffer size offset
              ≡ ok (b', transfer inode size offset))
            × WritesTo b inode m buffer offset (transfer inode size offset) b')
unfolding inode_write_at
write_at-WritesTo fuel b inode m buffer size offset on home h = (
  (λ ne. ground (arith, ==_ne inode.deny_write_cnt 0 ne)),
  λ z.
      let (b', r, w) = write_loop-WritesTo fuel b inode m buffer size offset 0 on home h in
      (
        b',
        ap
              (λ d.
                if not (d == 0)
                then ok (b, 0)
                else write_loop fuel true b inode m buffer size offset 0)
              z
            ∙ r
            ∙ ap (λ n. ok (b', n)) (omega arith),
        subst (λ d. WritesTo b inode m d offset (transfer inode size offset) b') (omega arith) w,
      ),
)

-- What was written to a file is read back: after inode_write_at of a buffer, inode_read_at of the same
-- bytes of the file puts the buffer's bytes into another buffer, up to the end of the file, and
-- returns the same number. Writes are not denied.
pub read-write :
    (fuel : ℕ) (b : Block) (inode : Inode) (m : Memory) (buffer other size offset : ℕ)
    → OnDevice b inode
    → b.foreign ≡ false
    → inode.deny_write_cnt ≡ 0
    → size < fuel
    → let n = transfer inode size offset in
      (b1 b2 : Block) × (m' : Memory) × (inode_write_at fuel true b inode m buffer size offset
        ≡ ok (b1, n))
      × (inode_read_at fuel true b1 inode m other size offset ≡ ok (b2, m', n))
      × ((a : ℕ) → m' a ≡ (if in_block other n a then m (buffer + (a - other)) else m a))
read-write fuel b inode m buffer other size offset on home z h =
    let (b1, r, w) = (write_at-WritesTo fuel b inode m buffer size offset on home h).1 z in
    let on' : OnDevice b1 inode =
      subst (λ s. inode.disk_inode.start + bytes_to_sectors inode.disk_inode.length ≤ s) (sym w.1)
        on in
    let (b2, m', r', p) = read_at-ReadsTo fuel b1 inode m other size offset on' h in
    (
      b1,
      b2,
      m',
      r,
      r',
      λ a.
          p.0 a
          ∙ same_bytes b1.bytes b.bytes m buffer other (inode.disk_inode.start * 512) offset
              (transfer inode size offset) a w.0,
    )
