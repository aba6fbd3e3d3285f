-- ===== src/CString.antt =====
-- The functions of lib/string.c on terminated strings, over a memory of bytes by address, and the string
-- hash of lib/kernel/hash.c. A loop that runs to a terminator takes fuel; a function that takes a char
-- as an int keeps its low eight bits.
pub mod Text
pub mod Copying
pub mod Tokens
mod Tests
use ee468_pintos_project.Prelude.{
  ℕ, zero, suc, ◌+◌, ◌-◌, ◌*◌, ◌^◌, ◌%◌, Bool, true, false, not, ◌&&◌, ltb, leb, ◌==◌,
  if◌then◌else◌, bit_xor, same, Outcome, ok, running, ◌>>=◌, ◌>>◌, assert,
}
use ee468_pintos_project.Memory.{
  Memory, null, poke, Sign, negative, equal, positive, memcpy, memcmp,
}

-- `for (p = string; *p != '\0'; p++)`
unfoldable pub end_from : (fuel : ℕ) → Memory → (p : ℕ) → Outcome ℕ
end_from zero m p = running
end_from (suc fuel) m p = elim (m p == 0) [ true ↦ ok p | false ↦ end_from fuel m (p + 1) ]

unfoldable pub strlen : (fuel : ℕ) → Memory → (string : ℕ) → Outcome ℕ
unfolding end_from
strlen fuel m string = do assert (not (string == null)); p ← end_from fuel m string; ok (p - string)

-- The loop with `left` characters to go until `maxlen`.
unfoldable pub strnlen_loop : (left : ℕ) → Memory → (string length : ℕ) → ℕ
strnlen_loop zero m string length = length
strnlen_loop (suc left) m string length = elim (m (string + length) == 0) [
  | true ↦ length
  | false ↦ strnlen_loop left m string (length + 1)
]

unfoldable pub strnlen : Memory → (string maxlen : ℕ) → ℕ
unfolding strnlen_loop
strnlen m string maxlen = strnlen_loop maxlen m string 0

-- `while (*a != '\0' && *a == *b) { a++; b++; }`, and the sign of the result.
unfoldable pub strcmp_loop : (fuel : ℕ) → Memory → (a b : ℕ) → Outcome Sign
strcmp_loop zero m a b = running
strcmp_loop (suc fuel) m a b = elim (not (m a == 0) && (m a == m b)) [
  | true ↦ strcmp_loop fuel m (a + 1) (b + 1)
  | false ↦ ok (if ltb (m a) (m b) then negative else if ltb (m b) (m a) then positive else equal)
]

unfoldable pub strcmp : (fuel : ℕ) → Memory → (a b : ℕ) → Outcome Sign
unfolding strcmp_loop
strcmp fuel m a b = do assert (not (a == null)); assert (not (b == null)); strcmp_loop fuel m a b

unfoldable pub strchr_loop : (fuel : ℕ) → Memory → (string c : ℕ) → Outcome ℕ
strchr_loop zero m string c = running
strchr_loop (suc fuel) m string c = elim (m string == c) [
  | true ↦ ok string
  | false ↦ elim (m string == 0) [ true ↦ ok null | false ↦ strchr_loop fuel m (string + 1) c ]
]

unfoldable pub strchr : (fuel : ℕ) → Memory → (string c : ℕ) → Outcome ℕ
unfolding strchr_loop
strchr fuel m string c = do assert (not (string == null)); strchr_loop fuel m string (c % 256)

-- The loop of strspn and strcspn: `within` says whether the characters counted are those of `set`.
unfoldable pub span_loop :
    (within : Bool) → (fuel : ℕ) → Memory → (string set length : ℕ) → Outcome ℕ
unfolding strchr
span_loop within zero m string set length = running
span_loop within (suc fuel) m string set length = elim (m (string + length) == 0) [
  | true ↦ ok length
  | false ↦ strchr (suc fuel) m set (m (string + length)) >>= λ p.
      elim (same within (not (p == null))) [
        | true ↦ span_loop within fuel m string set (length + 1)
        | false ↦ ok length
      ]
]

unfoldable pub strspn : (fuel : ℕ) → Memory → (string skip : ℕ) → Outcome ℕ
unfolding span_loop
strspn fuel m string skip = span_loop true fuel m string skip 0

unfoldable pub strcspn : (fuel : ℕ) → Memory → (string stop : ℕ) → Outcome ℕ
unfolding span_loop
strcspn fuel m string stop = span_loop false fuel m string stop 0

unfoldable pub strpbrk : (fuel : ℕ) → Memory → (string stop : ℕ) → Outcome ℕ
unfolding strchr
strpbrk zero m string stop = running
strpbrk (suc fuel) m string stop = elim (m string == 0) [
  | true ↦ ok null
  | false ↦ strchr (suc fuel) m stop (m string) >>= λ p. elim (p == null) [
    | true ↦ strpbrk fuel m (string + 1) stop
    | false ↦ ok string
  ]
]

unfoldable pub strrchr_loop : (fuel : ℕ) → Memory → (string c p : ℕ) → Outcome ℕ
strrchr_loop zero m string c p = running
strrchr_loop (suc fuel) m string c p = elim (m string == 0) [
  | true ↦ ok p
  | false ↦ strrchr_loop fuel m (string + 1) c (if m string == c then string else p)
]

unfoldable pub strrchr : (fuel : ℕ) → Memory → (string c : ℕ) → Outcome ℕ
unfolding strrchr_loop
strrchr fuel m string c = strrchr_loop fuel m string (c % 256) null

-- The places `i` of the haystack that are left to try.
unfoldable pub strstr_loop : (left : ℕ) → Memory → (at needle needle_len : ℕ) → Outcome ℕ
strstr_loop zero m at needle needle_len = ok null
strstr_loop (suc left) m at needle needle_len = memcmp m at needle needle_len >>= λ sign.
    elim sign [ equal ↦ ok at | _ ↦ strstr_loop left m (at + 1) needle needle_len ]

unfoldable pub strstr : (fuel : ℕ) → Memory → (haystack needle : ℕ) → Outcome ℕ
unfolding strlen strstr_loop
strstr fuel m haystack needle = do
  haystack_len ← strlen fuel m haystack
  needle_len ← strlen fuel m needle
  if leb needle_len haystack_len
      then strstr_loop (haystack_len - needle_len + 1) m haystack needle needle_len
      else ok null

unfoldable pub strlcpy : (fuel : ℕ) → Memory → (dst src size : ℕ) → Outcome (Memory × ℕ)
unfolding strlen
strlcpy fuel m dst src size = do
  assert (not (dst == null))
  assert (not (src == null))
  src_len ← strlen fuel m src
  let dst_len = if ltb src_len (size - 1) then src_len else size - 1
  if ltb 0 size
      then (memcpy m dst src dst_len >>= λ (m', p). ok (poke m' (dst + dst_len) 0, src_len))
      else ok (m, src_len)

unfoldable pub strlcat : (fuel : ℕ) → Memory → (dst src size : ℕ) → Outcome (Memory × ℕ)
unfolding strlen
strlcat fuel m dst src size = do
  assert (not (dst == null))
  assert (not (src == null))
  src_len ← strlen fuel m src
  dst_len ← strlen fuel m dst
  let copy_cnt = if ltb src_len (size - dst_len - 1) then src_len else size - dst_len - 1
  if ltb 0 size && ltb dst_len size
      then (memcpy m (dst + dst_len) src copy_cnt >>= λ (m', p).
          ok (poke m' (dst + dst_len + copy_cnt) 0, src_len + dst_len))
      else ok (m, src_len + dst_len)

-- The loop of strtok_r that skips delimiters: where it stops, and whether that is the end.
unfoldable pub skip_delimiters : (fuel : ℕ) → Memory → (delimiters s : ℕ) → Outcome (ℕ × Bool)
unfolding strchr
skip_delimiters zero m delimiters s = running
skip_delimiters (suc fuel) m delimiters s = strchr (suc fuel) m delimiters (m s) >>= λ p.
    elim (p == null) [
      | true ↦ ok (s, false)
      | false ↦ elim (m s == 0) [
        | true ↦ ok (s, true)
        | false ↦ skip_delimiters fuel m delimiters (s + 1)
      ]
    ]

-- The loop that skips the characters of a token.
unfoldable pub skip_token : (fuel : ℕ) → Memory → (delimiters s : ℕ) → Outcome ℕ
unfolding strchr
skip_token zero m delimiters s = running
skip_token (suc fuel) m delimiters s = strchr (suc fuel) m delimiters (m s) >>= λ p.
    elim (p == null) [ true ↦ skip_token fuel m delimiters (s + 1) | false ↦ ok s ]

-- The results are the memory, what *save_ptr is set to, and the token.
unfoldable pub strtok_r : (fuel : ℕ) → Memory → (s delimiters save : ℕ) → Outcome (Memory × ℕ × ℕ)
unfolding skip_delimiters skip_token
strtok_r fuel m s delimiters save = do
  assert (not (delimiters == null))
  let start = if s == null then save else s
  assert (not (start == null))
  (token, over) ← skip_delimiters fuel m delimiters start
  if over
      then ok (m, token, null)
      else (skip_token fuel m delimiters token >>= λ e.
          if not (m e == 0) then ok (poke m e 0, e + 1, token) else ok (m, e, token))

abbrev pub fnv_32_prime : ℕ
fnv_32_prime = 16777619

abbrev pub fnv_32_basis : ℕ
fnv_32_basis = 2166136261

-- `hash = (hash * FNV_32_PRIME) ^ byte`
abbrev pub fnv : (hash byte : ℕ) → ℕ
fnv hash byte = bit_xor (hash * fnv_32_prime % 2 ^ 32) byte

unfoldable pub hash_bytes_loop : (size : ℕ) → Memory → (buf hash : ℕ) → ℕ
hash_bytes_loop zero m buf hash = hash
hash_bytes_loop (suc size) m buf hash = hash_bytes_loop size m (buf + 1) (fnv hash (m buf))

unfoldable pub hash_bytes : Memory → (buf size : ℕ) → Outcome ℕ
unfolding hash_bytes_loop
hash_bytes m buf size = do assert (not (buf == null)); ok (hash_bytes_loop size m buf fnv_32_basis)

unfoldable pub hash_string_loop : (fuel : ℕ) → Memory → (s hash : ℕ) → Outcome ℕ
hash_string_loop zero m s hash = running
hash_string_loop (suc fuel) m s hash = elim (m s == 0) [
  | true ↦ ok hash
  | false ↦ hash_string_loop fuel m (s + 1) (fnv hash (m s))
]

unfoldable pub hash_string : (fuel : ℕ) → Memory → (s : ℕ) → Outcome ℕ
unfolding hash_string_loop
hash_string fuel m s = do assert (not (s == null)); hash_string_loop fuel m s fnv_32_basis

-- `i` is at the address `at`, four bytes long.
unfoldable pub hash_int : Memory → (at : ℕ) → Outcome ℕ
unfolding hash_bytes
hash_int m at = hash_bytes m at 4
