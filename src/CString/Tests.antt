-- ===== src/CString/Tests.antt =====
-- lib/string.c on the strings " ab c" at 10 and " " at 20.
use ee468_pintos_project.Prelude.{
  ℕ, ◌+◌, ◌≤◌, ◌≡◌, ◌≢◌, ◌⊎◌, refl, ◌==◌, if◌then◌else◌, List, [], ◌∷◌, length, ok, arith,
}
use ee468_pintos_project.Memory.{Memory, null, memcmp, compare_up}
use ee468_pintos_project.CString.{strtok_r, strspn, strcspn, strrchr, strstr, strpbrk, strnlen}
use ee468_pintos_project.CString.Text.{Text}
use ee468_pintos_project.CString.Tokens.{words, strtok_r-words}

abbrev line : Memory
line a =
    if a == 10
    then 32
    else if a == 11
    then 97
    else if a == 12
    then 98
    else if a == 13
    then 32
    else if a == 14
    then 99
    else if a == 20
    then 32
    else 0

abbrev ab_c : List ℕ
ab_c = 32 ∷ 97 ∷ 98 ∷ 32 ∷ 99 ∷ []

line-Text : Text line 10 ab_c
line-Text = omega arith

space-Text : Text line 20 (32 ∷ [])
space-Text = omega arith

tail-Text : Text line 12 (98 ∷ 32 ∷ 99 ∷ [])
tail-Text = omega arith

strtok_r-words_example :
    ((words (32 ∷ []) ab_c ≡ []) × (strtok_r 9 line 10 20 0 ≡ ok (line, 15, null)))
    ⊎ ((g : Memory) × (save token : ℕ) × (w zs : List ℕ) × (strtok_r 9 line 10 20 0
          ≡ ok (g, save, token))
        × ((97 ∷ 98 ∷ []) ∷ (99 ∷ []) ∷ [] ≡ w ∷ words (32 ∷ []) zs)
        × Text g token w
        × Text g save zs
        × (10 ≤ token)
        × (token + length w ≤ save)
        × (save + length zs ≡ 15)
        × ((a : ℕ) → a ≢ token + length w → g a ≡ line a))
strtok_r-words_example =
    strtok_r-words 9 line 10 20 0 10 ab_c (32 ∷ []) refl (λ e. omega arith) (λ e. omega arith)
      line-Text space-Text (omega arith)

other_functions :
    (strspn 9 line 10 20 ≡ ok 1)
    × (strcspn 9 line 11 20 ≡ ok 2)
    × (strrchr 9 line 10 32 ≡ ok 13)
    × (strstr 9 line 10 14 ≡ ok 14)
    × (strpbrk 9 line 11 20 ≡ ok 13)
    × (strnlen line 10 3 ≡ 3)
unfolding strspn strcspn strrchr strstr strpbrk strnlen memcmp compare_up
other_functions = (refl, refl, refl, refl, refl, refl)
