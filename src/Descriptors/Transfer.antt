-- ===== src/Descriptors/Transfer.antt =====
-- What sys_read and sys_write of userprog/syscall.c do with the bytes of an open file and of the keyboard.
use ee468_pintos_project.Prelude.{
  ℕ, suc, ◌-◌, ◌<◌, ◌≡◌, ◌≢◌, refl, ap, ◌∙◌, List, [], ◌∷◌, ◌++◌, length, ok, ◌>>=◌, arith, ==_ne,
  ==_refl, lt→ltb,
}
use ee468_pintos_project.Memory.{Memory, poke}
use ee468_pintos_project.Descriptors.{stdin_loop, read_stdin}

-- The keys of a line, none of them a null byte, and the byte that ends it.
abbrev pub NoNull : List ℕ → Type 0
NoNull [] = Unit {0}
NoNull (c ∷ keys) = (c ≢ 0) × NoNull keys

stop_null :
    (rest : List ℕ) (m : Memory) (buf counter : ℕ)
    → stdin_loop (0 ∷ rest) m buf counter ≡ ok (m, counter)
unfolding stdin_loop
stop_null rest m buf counter = ground arith

stdin_loop-keys :
    (keys rest : List ℕ) (m : Memory) (buf counter : ℕ)
    → NoNull keys
    → length keys < counter
    → (m' : Memory) × (stdin_loop (keys ++ 0 ∷ rest) m buf counter ≡ ok (m', counter - length keys))
      × ((a : ℕ) → a ≢ buf → m' a ≡ m a)
unfolding stdin_loop
stdin_loop-keys [] rest m buf counter n h = (
  m,
  stop_null rest m buf counter ∙ ap (λ k. ok (m, k)) {x = counter} {y = counter - 0} (omega arith),
  λ a ne. refl,
)
stdin_loop-keys (c ∷ keys) rest m buf counter n h =
    let (m', run, same) =
      stdin_loop-keys keys rest (poke m buf c) buf (counter - 1) n.1 (omega arith) in
    (
      m',
      ground (arith, lt→ltb 1 counter (omega arith), ==_ne c 0 n.0)
          ∙ run
          ∙ ap (λ k. ok (m', k)) {y = counter - suc (length keys)} (omega arith),
      λ a ne. same a ne ∙ ground (arith, ==_ne a buf ne),
    )

-- Keys typed and a null byte, for a buffer with room for them: sys_read returns their number, but none of
-- them is in the buffer, whose first byte is 0 and whose other bytes are as they were.
pub read_stdin-loses :
    (keys rest : List ℕ) (m : Memory) (buffer size : ℕ)
    → NoNull keys
    → length keys < size
    → (m' : Memory) × (read_stdin (keys ++ 0 ∷ rest) m buffer size ≡ ok (m', length keys))
      × (m' buffer ≡ 0)
      × ((a : ℕ) → a ≢ buffer → m' a ≡ m a)
unfolding read_stdin
read_stdin-loses keys rest m buffer size n h =
    let (m', run, same) = stdin_loop-keys keys rest m buffer size n h in
    (
      poke m' buffer 0,
      ap (λ o. o >>= λ (g, counter). ok (poke g buffer 0, size - counter)) run
          ∙ ap (λ k. ok (poke m' buffer 0, k)) (omega arith),
      ground (arith, ==_refl buffer),
      λ a ne. ground (arith, ==_ne a buffer ne) ∙ same a ne,
    )
