-- ===== src/Segment/Pages.antt =====
-- What a user finds after load_segment of userprog/process.c, round by round: what the rounds leave in the memory
-- and in the page directory.
use ee468_pintos_project.Prelude.{
  ℕ, ◌+◌, ◌-◌, ◌*◌, ◌/◌, ◌%◌, ◌≤◌, ◌<◌, ◌≡◌, ◌≢◌, inl, inr, refl, sym, ap, ◌∙◌, Bool, true, false,
  ltb, if◌then◌else◌, List, [], ◌∷◌, arith, Bool-cases,
}
use ee468_pintos_project.Memory.{Memory, null, in_block}
use ee468_pintos_project.BlockDevice.{Block}
use ee468_pintos_project.Inode.Read.{file_byte}
use ee468_pintos_project.File.{Inodes}
use ee468_pintos_project.Syscall.{pgsize}
use ee468_pintos_project.Segment.{Machine, Loader, page_read_bytes}
use ee468_pintos_project.Segment.Load.{IsFrame, page_byte, after_page}

-- The address is in none of the frames.
abbrev pub Outside : (a : ℕ) → List ℕ → Type 0
Outside a [] = Unit
Outside a (frame ∷ frames) = (in_block frame pgsize a ≡ false) × Outside a frames

-- The frames may be mapped, and have no byte in common.
abbrev pub AreFrames : Machine → List ℕ → Type 0
AreFrames machine [] = Unit
AreFrames machine (frame ∷ frames) =
    IsFrame machine frame
    × ((k : ℕ) → k < pgsize → Outside (frame + k) frames)
    × AreFrames machine frames

-- The byte of the kernel's memory that the user finds at the address `a`.
abbrev pub user_byte : Loader → (a : ℕ) → ℕ
user_byte l a = l.memory (l.pagedir (a / pgsize) + a % pgsize)

in_lem :
    (kpage k : ℕ) (f : ℕ → ℕ) (y : ℕ)
    → k < pgsize
    → (if in_block kpage pgsize (kpage + k) then f (kpage + k - kpage) else y) ≡ f k
in_lem kpage k f y h =
    let inside : in_block kpage pgsize (kpage + k) ≡ true = ground arith in
    ap (λ c. if c then f (kpage + k - kpage) else y) inside ∙ ap f (omega arith)

-- Within the first page, and behind it.
first_byte :
    (read k x : ℕ)
    → k < pgsize
    → (if ltb k (page_read_bytes read) then x else 0) ≡ (if ltb k read then x else 0)
first_byte read k x h = ground arith

later_byte :
    (f : ℕ → ℕ) (start pos read k j : ℕ)
    → k ≡ pgsize + j
    → (if ltb j (read - page_read_bytes read)
        then f (start + (pos + page_read_bytes read + j))
        else 0)
      ≡ (if ltb k read then f (start + (pos + k)) else 0)
later_byte f start pos read k j h = elim (Bool-cases (ltb k read)) [
  | inl more ↦
      let same : start + (pos + page_read_bytes read + j) ≡ start + (pos + k) =
        ground (arith, h, more) in
      ground (arith, more, h, ap f same)
  | inr less ↦ ground (arith, less, h)
]

module _ (inodes : Inodes) (writable : Bool) where
  -- The user finds, at the `total` bytes from `upage` on, `read` bytes of the file and rest behind
  -- them. Nothing else changes in the page directory or, outside the frames, in the memory.
  pub record Loaded (l : Loader) (upage read total : ℕ) (frames : List ℕ) (l' : Loader)
      : Type 0 where
    pub device_kept : l'.device.bytes ≡ l.device.bytes
    pub same_inode : l'.file.inode ≡ l.file.inode
    pub mapped :
        (a : ℕ)
        → upage ≤ a
        → a < upage + total
        → (l'.pagedir (a / pgsize) ≢ null)
          × (l'.writable (a / pgsize) ≡ writable)
          × (user_byte l' a ≡ page_byte l.device (inodes l.file.inode) l.file.pos read (a - upage))
    pub others_kept :
        (page : ℕ)
        → ¬ ((upage / pgsize ≤ page) × (page * pgsize < upage + total))
        → (l'.pagedir page ≡ l.pagedir page) × (l'.writable page ≡ l.writable page)
    pub outside_kept : (a : ℕ) → Outside a frames → l'.memory a ≡ l.memory a

  pub stop_lem :
      (l : Loader) (upage read rest : ℕ) (frames : List ℕ)
      → read + rest ≡ 0
      → Loaded l upage read (read + rest) frames l
  stop_lem l upage read rest frames e = record {
    device_kept = refl;
    same_inode = refl;
    mapped = λ a low high. absurd (omega (arith, low, high, e));
    others_kept = λ page out. (refl, refl);
    outside_kept = λ a out. refl;
  }

  module _ (l : Loader) (upage kpage read rest : ℕ) (frames : List ℕ) (b : Block) (m : Memory)
      (bytes : b.bytes ≡ l.device.bytes)
      (holds : (a : ℕ)
        → m a ≡ (
            if in_block kpage pgsize a
            then page_byte l.device
                (inodes l.file.inode)
                l.file.pos
                (page_read_bytes read)
                (a - kpage)
            else l.memory a))
      (machine : Machine) (fr : AreFrames machine (kpage ∷ frames)) (aligned : upage % pgsize ≡ 0)
      (more : pgsize ≤ read + rest) (l' : Loader) where
    abbrev l1 : Loader
    l1 = after_page l writable upage kpage (page_read_bytes read) b m

    -- The first page, which the later rounds keep.
    first_lem :
        Loaded l1 (upage + pgsize) (read - page_read_bytes read) (read + rest - pgsize) frames l'
        → (a : ℕ) → upage ≤ a
        → a < upage + pgsize
        → (l'.pagedir (a / pgsize) ≢ null)
          × (l'.writable (a / pgsize) ≡ writable)
          × (user_byte l' a ≡ page_byte l.device (inodes l.file.inode) l.file.pos read (a - upage))
    first_lem h a low high =
        let here : a / pgsize ≡ upage / pgsize = omega (arith, aligned, low, high) in
        let (dir, w) = h.others_kept (a / pgsize) (λ (x, y). omega (arith, x, here, aligned)) in
        let frame : l'.pagedir (a / pgsize) ≡ kpage = dir ∙ ground (arith, here) in
        let (real, apart, others) = fr in
        (
          (λ e. omega (arith, real.kernel, sym frame ∙ e)),
          w ∙ ground (arith, here),
          ap (λ f. l'.memory (f + a % pgsize)) frame
              ∙ h.outside_kept (kpage + a % pgsize) (apart (a % pgsize) (omega arith))
              ∙ holds (kpage + a % pgsize)
              ∙ in_lem kpage (a % pgsize)
                  (page_byte l.device (inodes l.file.inode) l.file.pos (page_read_bytes read))
                  (l.memory (kpage + a % pgsize)) (omega arith)
              ∙ first_byte read (a % pgsize)
                  (file_byte l.device (inodes l.file.inode) (l.file.pos + a % pgsize)) (omega arith)
              ∙ ap (page_byte l.device (inodes l.file.inode) l.file.pos read)
                  (omega (arith, here, aligned, low)),
        )

    later_lem :
        Loaded l1 (upage + pgsize) (read - page_read_bytes read) (read + rest - pgsize) frames l'
        → (a : ℕ) → upage + pgsize ≤ a
        → a < upage + (read + rest)
        → (l'.pagedir (a / pgsize) ≢ null)
          × (l'.writable (a / pgsize) ≡ writable)
          × (user_byte l' a ≡ page_byte l.device (inodes l.file.inode) l.file.pos read (a - upage))
    later_lem h a low high =
        let (real, w, byte) = h.mapped a low (omega (arith, high, more)) in
        (
          real,
          w,
          byte
              ∙ ap
                  (λ f.
                    if ltb (a - (upage + pgsize)) (read - page_read_bytes read)
                    then f (
                        (inodes l.file.inode).disk_inode.start * 512
                        + (l.file.pos + page_read_bytes read + (a - (upage + pgsize))))
                    else 0)
                  bytes
              ∙ later_byte l.device.bytes ((inodes l.file.inode).disk_inode.start * 512) l.file.pos
                  read (a - upage) (a - (upage + pgsize)) (omega (arith, low)),
        )

    pub round_lem :
        Loaded l1 (upage + pgsize) (read - page_read_bytes read) (read + rest - pgsize) frames l'
        → Loaded l upage read (read + rest) (kpage ∷ frames) l'
    round_lem h = record {
      device_kept = h.device_kept ∙ bytes;
      same_inode = h.same_inode;
      mapped = λ a low high. elim (Bool-cases (ltb a (upage + pgsize))) [
        | inl first ↦ first_lem h a low (ground (arith, first))
        | inr later ↦ later_lem h a (ground (arith, later)) high
      ];
      others_kept = λ page out.
          let (dir, w) =
            h.others_kept page (λ (x, y). out (omega (arith, x), omega (arith, y, more))) in
          let off : page ≢ upage / pgsize = λ e. out (omega (arith, e), omega (arith, e, more)) in
          (dir ∙ ground (arith, off), w ∙ ground (arith, off));
      outside_kept = λ a (off, out). h.outside_kept a out ∙ holds a ∙ ground (arith, off);
    }
