-- ===== src/Segment/Loop.antt =====
-- load_segment of userprog/process.c as a whole.
use ee468_pintos_project.Prelude.{
  ℕ, ◌+◌, ◌-◌, ◌*◌, ◌/◌, ◌%◌, ◌≤◌, ◌<◌, ◌≡◌, ◌≢◌, refl, ◌∙◌, subst, Bool, true, false, ◌&&◌, ◌==◌,
  List, [], ◌∷◌, length, ok, arith, add32, ℕ_discrete,
}
use ee468_pintos_project.Memory.{Memory, null}
use ee468_pintos_project.BlockDevice.{Block}
use ee468_pintos_project.Inode.Read.{OnDevice}
use ee468_pintos_project.File.{Inodes, file_seek}
use ee468_pintos_project.Syscall.{pgsize, phys_base}
use ee468_pintos_project.Segment.{
  Machine, Loader, page_read_bytes, load_page, load_loop, load_segment,
}
use ee468_pintos_project.Segment.Load.{IsFrame, IsOwn, after_page, load_page_lem}
use ee468_pintos_project.Segment.Pages.{AreFrames, Loaded, stop_lem, round_lem}

left_lem :
    (read rest : ℕ)
    → (read + rest) % pgsize ≡ 0
    → pgsize ≤ read + rest
    → read - page_read_bytes read + (rest - (pgsize - page_read_bytes read)) ≡ read + rest - pgsize
left_lem read rest whole more = ground arith

module _ (machine : Machine) (inodes : Inodes) (writable : Bool) where
  -- What load_segment needs of the frames, the file and the page directory.
  record Ready (frames : List ℕ) (l : Loader) (upage read rest : ℕ) : Type 0 where
    are_frames : AreFrames machine frames
    own : IsOwn machine l.pd
    user : upage + (read + rest) ≤ phys_base
    on_device : OnDevice l.device (inodes l.file.inode)
    aligned : upage % pgsize ≡ 0
    whole : (read + rest) % pgsize ≡ 0
    enough_frames : read + rest ≤ length frames * pgsize
    in_file : read ≤ (inodes l.file.inode).disk_inode.length - l.file.pos
    free :
        (page : ℕ)
        → upage / pgsize ≤ page
        → page * pgsize < upage + (read + rest)
        → l.pagedir page ≡ 0

  ready_lem :
      (frames : List ℕ) (l : Loader) (upage kpage read rest : ℕ) (b : Block) (m : Memory)
      → Ready (kpage ∷ frames) l upage read rest
      → pgsize ≤ read + rest
      → b.size ≡ l.device.size
      → Ready frames
          (after_page l writable upage kpage (page_read_bytes read) b m)
          (upage + pgsize)
          (read - page_read_bytes read)
          (rest - (pgsize - page_read_bytes read))
  ready_lem frames l upage kpage read rest b m r more size =
      let left = left_lem read rest r.whole more in
      record {
        are_frames = (let (real, apart, others) = r.are_frames in others);
        own = r.own;
        user = omega (arith, left, r.user, more);
        on_device = omega (arith, size, r.on_device);
        aligned = omega (arith, r.aligned);
        whole = omega (arith, left, r.whole, more);
        enough_frames = omega (arith, left, r.enough_frames);
        in_file = ground (arith, r.in_file);
        free = λ page low high.
            let off : page ≢ upage / pgsize = omega (arith, low) in
            ground (arith, off, r.free page (omega (arith, low)) (omega (arith, high, left, more)));
      }

  module _ (fuel : ℕ) (enough : pgsize < fuel) where
    turn_lem :
        (l l1 : Loader) (kpage : ℕ) (frames : List ℕ) (upage read rest : ℕ)
        → pgsize ≤ read + rest
        → IsFrame machine kpage
        → upage + (read + rest) ≤ phys_base
        → load_page fuel true true machine inodes writable l upage kpage (page_read_bytes read)
          ≡ ok (l1, true)
        → load_loop fuel true true machine inodes writable (kpage ∷ frames) l upage read rest
          ≡ load_loop fuel true true machine inodes writable frames l1
              (upage + pgsize)
              (read - page_read_bytes read)
              (rest - (pgsize - page_read_bytes read))
    unfolding load_loop
    turn_lem l l1 kpage frames upage read rest more frame user run =
        let guard : ((read == 0) && (rest == 0)) ≡ false = ground (arith, more) in
        let test : (kpage == null) ≡ false = ground (arith, frame.kernel) in
        let ahead : add32 upage pgsize ≡ upage + pgsize = omega (arith, user, more) in
        rw guard (rw test (rw run (rw ahead refl)))

    loop_lem :
        (frames : List ℕ) (l : Loader) (upage read rest : ℕ)
        → Ready frames l upage read rest
        → (l' : Loader) × (load_loop fuel true true machine inodes writable frames l upage read rest
            ≡ ok (l', true))
          × Loaded inodes writable l upage read (read + rest) frames l'
    unfolding load_loop
    loop_lem [] l upage read rest r =
        let e : read ≡ 0 = omega (arith, r.enough_frames) in
        let e' : rest ≡ 0 = omega (arith, r.enough_frames) in
        (
          l,
          ground (arith, e, e'),
          stop_lem inodes writable l upage read rest [] (omega (arith, e, e')),
        )
    loop_lem (kpage ∷ frames) l upage read rest r = elim (ℕ_discrete (read + rest) 0) [
      | yes e ↦
          let e1 : read ≡ 0 = omega (arith, e) in
          let e2 : rest ≡ 0 = omega (arith, e) in
          (l, ground (arith, e1, e2), stop_lem inodes writable l upage read rest (kpage ∷ frames) e)
      | no ne ↦
          let (real, apart, others) = r.are_frames in
          let page_read = page_read_bytes read in
          let more : pgsize ≤ read + rest = omega (arith, ne, r.whole) in
          let (b, m, run, bytes, size, holds) =
            load_page_lem fuel machine inodes writable l upage kpage page_read r.on_device real
              r.own (omega (arith, r.user, more)) r.aligned (ground arith) enough
              (ground (arith, r.in_file))
              (r.free (upage / pgsize) (omega arith) (omega (arith, more))) in
          let l1 : Loader = after_page l writable upage kpage page_read b m in
          let (l', runs, loaded) =
            loop_lem frames l1 (upage + pgsize) (read - page_read) (rest - (pgsize - page_read))
              (ready_lem frames l upage kpage read rest b m r more size) in
          (
            l',
            turn_lem l l1 kpage frames upage read rest more real r.user run ∙ runs,
            round_lem inodes writable l upage kpage read rest frames b m bytes holds machine
                r.are_frames r.aligned more l'
                (subst
                  (λ t. Loaded inodes writable l1 (upage + pgsize) (read - page_read) t frames l')
                  (left_lem read rest r.whole more) loaded),
          )
    ]

-- With memory for the tables and for the copies of sectors, with the sectors of the file on the device,
-- with the page directory of a thread, and with frames that are pages of the kernel's part of the memory,
-- that have no byte in common and that are at least as many as the pages, load_segment returns true, and
-- no assertion fails, when `upage` and `ofs` are the start of a page, the sizes make whole pages, which
-- lie in the user's part of the address space, the file has the `read_bytes` bytes from `ofs` on, and the
-- pages are not mapped. The user then finds these bytes at `upage` and zeros in the `zero_bytes` bytes
-- behind them, in pages that are writable as asked for. No other page and no byte outside the frames
-- changes, and the device keeps its bytes.
pub load_segment-Loaded :
    (fuel : ℕ) (machine : Machine) (inodes : Inodes) (writable : Bool) (frames : List ℕ)
    (l : Loader) (ofs upage read_bytes zero_bytes : ℕ)
    → pgsize < fuel
    → AreFrames machine frames
    → IsOwn machine l.pd
    → OnDevice l.device (inodes l.file.inode)
    → upage + (read_bytes + zero_bytes) ≤ phys_base
    → (read_bytes + zero_bytes) % pgsize ≡ 0
    → upage % pgsize ≡ 0
    → ofs % pgsize ≡ 0
    → read_bytes + zero_bytes ≤ length frames * pgsize
    → ofs + read_bytes ≤ (inodes l.file.inode).disk_inode.length
    → ((page : ℕ)
        → upage / pgsize ≤ page
        → page * pgsize < upage + (read_bytes + zero_bytes)
        → l.pagedir page ≡ 0)
    → (l' : Loader) × (load_segment fuel true true machine inodes writable frames l ofs upage
          read_bytes zero_bytes
        ≡ ok (l', true))
      × Loaded inodes writable
          (record l { file = file_seek l.file ofs })
          upage
          read_bytes
          (read_bytes + zero_bytes)
          frames
          l'
unfolding load_segment
load_segment-Loaded fuel machine inodes writable frames l ofs upage read zero_part enough fr own on
      user whole aligned at fit f free =
    let (l', run, loaded) =
      loop_lem machine inodes writable fuel enough frames (record l { file = file_seek l.file ofs })
        upage read zero_part
        record {
          are_frames = fr;
          own = own;
          user = user;
          on_device = on;
          aligned = aligned;
          whole = whole;
          enough_frames = fit;
          in_file = omega (arith, f);
          free = free;
        } in
    let a1 : (add32 read zero_part % pgsize == 0) ≡ true = ground (arith, whole, user) in
    let a2 : (upage % pgsize == 0) ≡ true = ground (arith, aligned) in
    let a3 : (ofs % pgsize == 0) ≡ true = ground (arith, at) in
    (l', rw a1 (rw a2 (rw a3 run)), loaded)
