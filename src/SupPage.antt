-- ===== src/SupPage.antt =====
-- The supplemental page table of vm/page.c: a hash table of entries, keyed by user page. An entry is
-- the address of its struct sup_page_entry; the entries in memory are by address. What malloc and calloc
-- give are arguments. The loading of pages is not here.
pub mod Table
pub mod Insert
mod Tests
use ee468_pintos_project.Prelude.{
  ℕ, ◌+◌, ◌-◌, ◌*◌, ◌/◌, ◌%◌, ◌^◌, Bool, true, false, leb, List, Option, none, some, Outcome, ok,
  ◌>>=◌, ◌==◌, if◌then◌else◌,
}
use ee468_pintos_project.CString.{hash_bytes_loop, fnv_32_basis}
use ee468_pintos_project.HashTable.{Hash, hash_find, hash_insert, hash_destroy}

-- The bits of enum spe_type.
abbrev pub mmf : ℕ
mmf = 4

-- The data of both members of union spe_data.
pub record SupPageEntry : Type 0 where
  pub user_vaddr : ℕ
  pub type : ℕ
  pub file : ℕ
  pub offset : ℕ
  pub read_bytes : ℕ
  pub zero_bytes : ℕ
  pub writable : Bool
  pub loaded : Bool
  pub swap_slot_idx : ℕ
  pub swap_writable : Bool

abbrev pub Entries : Type 0
Entries = ℕ → SupPageEntry

abbrev pub with_entry : Entries → ℕ → SupPageEntry → Entries
with_entry entries e entry x = if x == e then entry else entries x

-- The byte number `i` of a pointer in memory.
abbrev pub byte_of : (pointer i : ℕ) → ℕ
byte_of pointer i = pointer / 256 ^ i % 256

abbrev pub suppl_pt_hash : Entries → (e : ℕ) → ℕ
suppl_pt_hash entries e = hash_bytes_loop 4 (byte_of (entries e).user_vaddr) 0 fnv_32_basis

-- The difference of two pointers is a signed word.
abbrev pub suppl_pt_less : Entries → (a b : ℕ) → Bool
suppl_pt_less entries a b =
    leb (2 ^ 31) (((entries a).user_vaddr + 2 ^ 32 - (entries b).user_vaddr) % 2 ^ 32)

-- The table is searched with the local variable `spe`.
unfoldable pub get_spe : Entries → Hash → (spe user_vaddr : ℕ) → Option ℕ
get_spe entries h spe user_vaddr =
    let key = with_entry entries spe (record (entries spe) { user_vaddr = user_vaddr }) in
    hash_find (suppl_pt_hash key) (suppl_pt_less key) h spe

-- The entry that suppl_pt_insert_mmf fills in.
abbrev pub mmf_entry : (file ofs upage read_bytes : ℕ) → SupPageEntry
mmf_entry file ofs upage read_bytes = record {
  user_vaddr = upage;
  type = mmf;
  file = file;
  offset = ofs;
  read_bytes = read_bytes;
  zero_bytes = 0;
  writable = false;
  loaded = false;
  swap_slot_idx = 0;
  swap_writable = false;
}

abbrev pub is_null : Option ℕ → Bool
is_null none = true
is_null (some e) = false

-- `spte` is what calloc gives.
unfoldable pub suppl_pt_insert_mmf :
    (fuel : ℕ)
    → (memory : Bool) → Entries
    → Hash
    → (spte : Option ℕ) → (file ofs upage read_bytes : ℕ) → Outcome (Entries × Hash × Bool)
suppl_pt_insert_mmf fuel memory entries h none file ofs upage read_bytes = ok (entries, h, false)
suppl_pt_insert_mmf fuel memory entries h (some spte) file ofs upage read_bytes = do
  let filled = with_entry entries spte (mmf_entry file ofs upage read_bytes)
  (h', result) ← hash_insert (suppl_pt_hash filled) (suppl_pt_less filled) fuel memory h spte
  ok (filled, h', is_null result)

-- The entries that free_sp frees, in order.
unfoldable pub free_sp : Hash → List ℕ
free_sp h = hash_destroy true h
