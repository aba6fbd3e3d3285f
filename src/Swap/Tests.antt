-- ===== src/Swap/Tests.antt =====
-- vm/swap.c on a device with four slots, of which 0 and 3 are in use.
use ee468_pintos_project.Prelude.{◌≡◌, refl, ℕ, ◌+◌, ◌*◌, ok, arith, false, [], ◌∷◌}
use ee468_pintos_project.Memory.{Memory}
use ee468_pintos_project.Swap.{Swap, write_sectors, vm_swap_out, vm_swap_in}
use ee468_pintos_project.Swap.Slots.{IsSwap, BackIn, swap_in-swap_out}
use ee468_pintos_project.Bitmap.{
  bitmap_scan_and_flip, bitmap_scan, bitmap_contains, bitmap_test, bitmap_set_multiple, bitmap_set,
  bitmap_reset,
}
use ee468_pintos_project.BlockDevice.{Block, splice, block_write, check_sector}

abbrev before : Swap
before = record {
  swap_device = record { size = 32; foreign = false; bytes = λ a. 0; read_cnt = 0; write_cnt = 0 };
  swap_map = record { bit_cnt = 4; bits = 6 ∷ [] };
}

before-IsSwap : IsSwap before
before-IsSwap = record { map_valid = omega arith; on_device = omega arith; home = refl }

-- The sector number `counter` of the page is written to slot 1.
abbrev write : ℕ → Block → Block
write counter d = record d {
  bytes = splice d.bytes ((8 + counter) * 512) 512 (λ i. 0x8000 + counter * 512 + i);
  write_cnt = d.write_cnt + 1;
}

abbrev stored : Swap
stored = record {
  swap_device =
      write 7
        (write 6 (write 5 (write 4 (write 3 (write 2 (write 1 (write 0 before.swap_device)))))));
  swap_map = record { bit_cnt = 4; bits = 4 ∷ [] };
}

stored_lem : vm_swap_out before (λ a. a) 0x8000 ≡ ok (stored, 1)
unfolding vm_swap_out write_sectors block_write check_sector bitmap_scan_and_flip bitmap_scan
    bitmap_contains bitmap_test bitmap_set_multiple bitmap_set bitmap_reset
stored_lem = refl

swap_in-swap_out_example :
    (s2 : Swap) × (m' : Memory) × (vm_swap_in stored (λ a. 0) 1 0x9000 ≡ ok (s2, m'))
    × BackIn before (λ a. a) (λ a. 0) 0x8000 0x9000 s2 m'
swap_in-swap_out_example =
    swap_in-swap_out before stored (λ a. a) (λ a. 0) 0x8000 1 0x9000 before-IsSwap stored_lem
      (omega arith)
