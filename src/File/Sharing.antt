-- ===== src/File/Sharing.antt =====
-- Positions of the files of filesys/file.c, and files that share an inode.
use ee468_pintos_project.Prelude.{
  ℕ, ◌+◌, ◌-◌, ◌<◌, ◌≤◌, ◌≡◌, ◌≢◌, refl, sym, ap, ◌∙◌, true, false, if◌then◌else◌, Outcome, ok,
  ◌>>=◌, arith, lt→ltb, le→leb, ==_ne, ==_refl, ℕ_discrete,
}
use ee468_pintos_project.Memory.{Memory, in_block}
use ee468_pintos_project.BlockDevice.{Block}
use ee468_pintos_project.Inode.{Inode, inode_deny_write, inode_allow_write, inode_write_at}
use ee468_pintos_project.Inode.Read.{OnDevice, transfer}
use ee468_pintos_project.Inode.Write.{read-write}
use ee468_pintos_project.File.{
  File, Inodes, with_inode, file_read, file_write, file_seek, file_tell, file_deny_write,
  file_allow_write,
}

-- A file_write, a seek back to where it started and a file_read of the same size: the read puts the
-- bytes written into the other buffer, both move the position by the same number of bytes, which ends
-- at the end of the file. Writes to the inode are not denied.
pub file_read-file_write :
    (fuel : ℕ) (b : Block) (inodes : Inodes) (f : File) (m : Memory) (buffer other size : ℕ)
    → OnDevice b (inodes f.inode)
    → b.foreign ≡ false
    → (inodes f.inode).deny_write_cnt ≡ 0
    → size < fuel
    → let n = transfer (inodes f.inode) size f.pos in
      (b1 b2 : Block) × (f1 f2 : File) × (m' : Memory) × (file_write fuel true b inodes f m buffer
          size
        ≡ ok (b1, f1, n))
      × (file_read fuel true b1 inodes (file_seek f1 (file_tell f)) m other size
          ≡ ok (b2, m', f2, n))
      × ((a : ℕ) → m' a ≡ (if in_block other n a then m (buffer + (a - other)) else m a))
      × (file_tell f2 ≡ file_tell f1)
      × (file_tell f1 ≡ file_tell f + n)
unfolding file_read file_write
file_read-file_write fuel b inodes f m buffer other size on home z h =
    let (b1, b2, m', w, r, p) =
      read-write fuel b (inodes f.inode) m buffer other size f.pos on home z h in
    let n = transfer (inodes f.inode) size f.pos in
    let f1 : File = record f { pos = f.pos + n } in
    (
      b1,
      b2,
      f1,
      f1,
      m',
      ap (λ o. o >>= λ x. ok (x.0, record f { pos = f.pos + x.1 }, x.1)) w,
      ap (λ o. o >>= λ x. ok (x.0, x.1, record f { pos = f.pos + x.2 }, x.2)) r,
      p,
      refl,
      refl,
    )

abbrev counted : Inode → ℕ → Inode
counted inode n = record inode { deny_write_cnt = n }

deny_ok :
    (inodes : Inodes) (f : File)
    → f.deny_write ≡ false
    → (inodes f.inode).deny_write_cnt < (inodes f.inode).open_cnt
    → let i = inodes f.inode in
      file_deny_write inodes f
      ≡ ok (
        with_inode inodes f.inode (counted i (i.deny_write_cnt + 1)),
        record f { deny_write = true },
      )
unfolding file_deny_write inode_deny_write
deny_ok inodes f d h =
    let i = inodes f.inode in
    ground (arith, d, le→leb (i.deny_write_cnt + 1) i.open_cnt (omega arith))

allow_ok :
    (inodes : Inodes) (f : File) (i : Inode)
    → inodes f.inode ≡ i
    → f.deny_write ≡ true
    → 0 < i.deny_write_cnt
    → i.deny_write_cnt ≤ i.open_cnt
    → file_allow_write inodes f
      ≡ ok (
        with_inode inodes f.inode (counted i (i.deny_write_cnt - 1)),
        record f { deny_write = false },
      )
unfolding file_allow_write inode_allow_write
allow_ok inodes f i e d pos le =
    let allow : Inode → Outcome (Inodes × File) = λ x. inode_allow_write x >>= λ y.
    ok (with_inode inodes f.inode y, record f { deny_write = false }) in
    ap (λ t. if t then allow (inodes f.inode) else ok (inodes, f)) d
    ∙ ap allow e
    ∙ ground (arith, lt→ltb 0 i.deny_write_cnt pos, le→leb i.deny_write_cnt i.open_cnt le)

-- The write of a file whose inode denies writes.
denied_write :
    (fuel : ℕ) (b : Block) (inodes : Inodes) (g : File) (m : Memory) (buffer size : ℕ)
    → (inodes g.inode).deny_write_cnt ≢ 0
    → file_write fuel true b inodes g m buffer size ≡ ok (b, g, 0)
unfolding file_write inode_write_at
denied_write fuel b inodes g m buffer size ne =
    let i = inodes g.inode in
    let back : ℕ → Outcome (Block × File × ℕ) = λ p. ok (b, record g { pos = p }, 0) in
    ground (arith, ==_ne i.deny_write_cnt 0 ne) ∙ ap back {x = g.pos + 0} {y = g.pos} (omega arith)

with_here : (inodes : Inodes) (i a : ℕ) (x : Inode) → a ≡ i → with_inode inodes i x a ≡ x
with_here inodes i a x e = ground arith

with_else : (inodes : Inodes) (i a : ℕ) (x : Inode) → a ≢ i → with_inode inodes i x a ≡ inodes a
with_else inodes i a x ne = ground (arith, ==_ne a i ne)

restored :
    (inodes : Inodes) (f : File) (n k a : ℕ)
    → k ≡ (inodes f.inode).deny_write_cnt
    → with_inode
        (with_inode inodes f.inode (counted (inodes f.inode) n))
        f.inode
        (counted (inodes f.inode) k)
        a
      ≡ inodes a
restored inodes f n k a e =
    let i = f.inode in
    let inner = with_inode inodes i (counted (inodes i) n) in
    elim (ℕ_discrete a i) [
      | yes h ↦
          with_here inner i a (counted (inodes i) k) h
          ∙ ap (counted (inodes i)) e
          ∙ ap inodes (sym h)
      | no ne ↦
          with_else inner i a (counted (inodes i) k) ne
          ∙ with_else inodes i a (counted (inodes i) n) ne
    ]

-- file_deny_write of a file that did not deny writes, on an inode with an opener left that does not
-- deny them: no file of the same inode can write any more, whatever its position. A second call changes
-- nothing, and file_allow_write leads back to the same inodes and the same file.
pub deny_write-file_write :
    (fuel : ℕ) (b : Block) (inodes : Inodes) (f : File) (m : Memory)
    → f.deny_write ≡ false
    → (inodes f.inode).deny_write_cnt < (inodes f.inode).open_cnt
    → (inodes' : Inodes) × (f' : File) × (file_deny_write inodes f ≡ ok (inodes', f'))
      × ((g : File) (buffer size : ℕ)
          → g.inode ≡ f.inode
          → file_write fuel true b inodes' g m buffer size ≡ ok (b, g, 0))
      × (file_deny_write inodes' f' ≡ ok (inodes', f'))
      × ((inodes2 : Inodes) × (file_allow_write inodes' f' ≡ ok (inodes2, f))
          × ((a : ℕ) → inodes2 a ≡ inodes a))
unfolding file_deny_write
deny_write-file_write fuel b inodes f m d h =
    let i = inodes f.inode in
    let n = i.deny_write_cnt in
    let j = counted i (n + 1) in
    let inodes' = with_inode inodes f.inode j in
    let f' : File = record f { deny_write = true } in
    let at : inodes' f.inode ≡ j = ground (arith, ==_refl f.inode) in
    (
      inodes',
      f',
      deny_ok inodes f d h,
      (λ g buffer size e. denied_write fuel b inodes' g m buffer size (λ z.
          let c =
            sym (ap (λ x. (inodes' x).deny_write_cnt) e ∙ ap (λ x. x.deny_write_cnt) at) ∙ z in
          ground arith)),
      refl,
      (
        with_inode inodes' f.inode (counted j (n + 1 - 1)),
        allow_ok inodes' f' j at refl (omega arith) (omega arith)
            ∙ ap
                (λ c.
                  ok (
                    with_inode inodes' f.inode (counted j (n + 1 - 1)),
                    record f { deny_write = c },
                  ))
                (sym d),
        λ a. restored inodes f (n + 1) (n + 1 - 1) a (omega arith),
      ),
    )
