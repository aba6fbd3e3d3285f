-- ===== src/CString/Tokens.antt =====
-- The tokens that strtok_r of lib/string.c cuts a string into.
use ee468_pintos_project.Prelude.{
  ℕ, zero, suc, ◌+◌, ◌≤◌, ◌<◌, ◌≡◌, ◌≢◌, ◌⊎◌, inl, inr, refl, sym, ap, ◌∙◌, subst, Bool, true,
  false, not, ◌||◌, ◌==◌, if◌then◌else◌, List, [], ◌∷◌, length, Outcome, ok, ◌>>=◌, ◌>>◌, assert,
  arith, ==_ne, Bool-cases,
}
use ee468_pintos_project.Memory.{Memory, null, poke}
use ee468_pintos_project.KernelList.Chain.{mem}
use ee468_pintos_project.CString.{skip_delimiters, skip_token, strtok_r, strchr}
use ee468_pintos_project.CString.Text.{Text, strchr-Text}

-- The words of a list of characters: the longest runs without a delimiter. `run` gives the characters
-- before the first delimiter, and the words behind them.
abbrev with_word : List ℕ → List (List ℕ) → List (List ℕ)
with_word [] ws = ws
with_word (x ∷ xs) ws = (x ∷ xs) ∷ ws

abbrev pub run : List ℕ → List ℕ → List ℕ × List (List ℕ)
run ds [] = ([], [])
run ds (x ∷ xs) = let (w, ws) = run ds xs in if mem x ds then ([], with_word w ws) else (x ∷ w, ws)

abbrev pub words : List ℕ → List ℕ → List (List ℕ)
words ds xs = with_word (run ds xs).0 (run ds xs).1

module _ (fuel : ℕ) (m : Memory) (d : ℕ) (ds : List ℕ) (delims : Text m d ds) (real : d ≢ null)
    (short : length ds < fuel) where
  -- The search for a character among the delimiters, as the loops use it.
  found_in :
      (f x : ℕ)
      → length ds < f
      → x < 256
      → (p : ℕ) × (strchr f m d x ≡ ok p) × ((p == null) ≡ not ((x == 0) || mem x ds))
  found_in f x h small = strchr-Text f m d x ds delims real small h

  skip_found :
      (f s x p : ℕ)
      → strchr (suc f) m d x ≡ ok p
      → (p == null) ≡ not ((x == 0) || mem x ds)
      → (strchr (suc f) m d x >>= λ q. elim (q == null) as (λ b. Outcome (ℕ × Bool)) [
        | true ↦ ok (s, false)
        | false ↦ elim (x == 0) as (λ b. Outcome (ℕ × Bool)) [
          | true ↦ ok (s, true)
          | false ↦ skip_delimiters f m d (s + 1)
        ]
      ])
        ≡ (if x == 0
            then ok (s, true)
            else if mem x ds
            then skip_delimiters f m d (s + 1)
            else ok (s, false))
  skip_found f s x p search at = rw search (ground (arith, at))

  token_found :
      (f s x p : ℕ)
      → strchr (suc f) m d x ≡ ok p
      → (p == null) ≡ not ((x == 0) || mem x ds)
      → (strchr (suc f) m d x >>= λ q. elim (q == null) as (λ b. Outcome ℕ) [
        | true ↦ skip_token f m d (s + 1)
        | false ↦ ok s
      ])
        ≡ (if (x == 0) || mem x ds then ok s else skip_token f m d (s + 1))
  token_found f s x p search at = rw search (ground (arith, at))

  -- One round of each loop, by the character at hand.
  skip_round :
      (f s x : ℕ)
      → m s ≡ x
      → x < 256
      → length ds < suc f
      → skip_delimiters (suc f) m d s ≡ (
          if x == 0
          then ok (s, true)
          else if mem x ds
          then skip_delimiters f m d (s + 1)
          else ok (s, false))
  unfolding skip_delimiters
  skip_round f s x e small h =
      let (p, search, at) = found_in (suc f) x h small in
      ap
        (λ c. strchr (suc f) m d c >>= λ q. elim (q == null) as (λ b. Outcome (ℕ × Bool)) [
          | true ↦ ok (s, false)
          | false ↦ elim (c == 0) as (λ b. Outcome (ℕ × Bool)) [
            | true ↦ ok (s, true)
            | false ↦ skip_delimiters f m d (s + 1)
          ]
        ])
        e
      ∙ skip_found f s x p search at

  skip_token_round :
      (f s x : ℕ)
      → m s ≡ x
      → x < 256
      → length ds < suc f
      → skip_token (suc f) m d s ≡ (if (x == 0) || mem x ds then ok s else skip_token f m d (s + 1))
  unfolding skip_token
  skip_token_round f s x e small h =
      let (p, search, at) = found_in (suc f) x h small in
      ap
        (λ c. strchr (suc f) m d c >>= λ q. elim (q == null) as (λ b. Outcome ℕ) [
          | true ↦ skip_token f m d (s + 1)
          | false ↦ ok s
        ])
        e
      ∙ token_found f s x p search at

  -- Delimiters are skipped up to a token or the end.
  skip-Text :
      (f s : ℕ) (xs : List ℕ)
      → Text m s xs
      → length xs + length ds < f
      → ((words ds xs ≡ []) × (skip_delimiters f m d s ≡ ok (s + length xs, true)))
        ⊎ ((n x : ℕ) × (ys : List ℕ) × (skip_delimiters f m d s ≡ ok (s + n, false))
            × Text m (s + n) (x ∷ ys)
            × (mem x ds ≡ false)
            × (words ds xs ≡ words ds (x ∷ ys))
            × (n + length (x ∷ ys) ≡ length xs))
  skip-Text zero s xs t h = absurd (omega arith)
  skip-Text (suc f) s [] t h = inl (
    refl,
    skip_round f s 0 t (omega arith) (omega arith)
        ∙ ap (λ a. ok (a, true)) {x = s} {y = s + 0} (omega arith),
  )
  skip-Text (suc f) s (x ∷ xs) t h = elim (Bool-cases (mem x ds)) [
    | inl is ↦
        let step : skip_delimiters (suc f) m d s ≡ skip_delimiters f m d (s + 1) =
          skip_round f s x t.0 t.2 (omega arith)
          ∙ ground (arith, ==_ne x 0 (λ z. omega (arith, z, t.1)), is) in
        let fewer : words ds (x ∷ xs) ≡ words ds xs = ground (arith, is) in
        elim (skip-Text f (s + 1) xs t.3 (omega arith)) [
          | inl (none_left, stop) ↦ inl (
            fewer ∙ none_left,
            step ∙ stop ∙ ap (λ a. ok (a, true)) {x = s + 1 + length xs} (omega arith),
          )
          | inr (n, y, ys, stop, text, other, same, size) ↦ inr (
            suc n,
            y,
            ys,
            step ∙ stop ∙ ap (λ a. ok (a, false)) {x = s + 1 + n} (omega arith),
            subst (λ a. Text m a (y ∷ ys)) {x = s + 1 + n} (omega arith) text,
            other,
            fewer ∙ same,
            omega (arith, size),
          )
        ]
    | inr other ↦ inr (
      0,
      x,
      xs,
      skip_round f s x t.0 t.2 (omega arith)
          ∙ ground (arith, ==_ne x 0 (λ z. omega (arith, z, t.1)), other)
          ∙ ap (λ a. ok (a, false)) {x = s} (omega arith),
      subst (λ a. Text m a (x ∷ xs)) {x = s} (omega arith) t,
      other,
      refl,
      omega arith,
    )
  ]

  -- A token is skipped up to the delimiter or the end behind it.
  token-Text :
      (f s : ℕ) (xs : List ℕ)
      → Text m s xs
      → length xs + length ds < f
      → (zs : List ℕ) × (skip_token f m d s ≡ ok (s + length (run ds xs).0))
        × Text m (s + length (run ds xs).0) zs
        × ((run ds xs).1 ≡ words ds zs)
        × (length (run ds xs).0 + length zs ≡ length xs)
        × ((zs ≡ []) ⊎ ((z : ℕ) × (rest : List ℕ) × (zs ≡ z ∷ rest) × (mem z ds ≡ true)))
  token-Text zero s xs t h = absurd (omega arith)
  token-Text (suc f) s [] t h = (
    [],
    skip_token_round f s 0 t (omega arith) (omega arith) ∙ ap ok (omega arith),
    subst (λ a. m a ≡ 0) {x = s} (omega arith) t,
    refl,
    refl,
    inl refl,
  )
  token-Text (suc f) s (x ∷ xs) t h = elim (Bool-cases (mem x ds)) [
    | inl is ↦ rw is (
      x ∷ xs,
      skip_token_round f s x t.0 t.2 (omega arith)
          ∙ ground (arith, ==_ne x 0 (λ z. omega (arith, z, t.1)), is)
          ∙ ap ok {x = s} (omega arith),
      subst (λ a. Text m a (x ∷ xs)) {x = s} (omega arith) t,
      ground (arith, is),
      omega arith,
      inr (x, xs, refl, is),
    )
    | inr other ↦
        let step : skip_token (suc f) m d s ≡ skip_token f m d (s + 1) =
          skip_token_round f s x t.0 t.2 (omega arith)
          ∙ ground (arith, ==_ne x 0 (λ z. omega (arith, z, t.1)), other) in
        let (zs, stop, text, rest, size, end) = token-Text f (s + 1) xs t.3 (omega arith) in
        rw other (
          zs,
          step ∙ stop ∙ ap ok {x = s + 1 + length (run ds xs).0} (omega arith),
          subst (λ a. Text m a zs) {x = s + 1 + length (run ds xs).0} (omega arith) text,
          rest,
          omega (arith, size),
          end,
        )
  ]

-- A string in a memory that agrees from its start on.
Text-agree :
    (m g : Memory) (s : ℕ) (xs : List ℕ) → Text m s xs → ((a : ℕ) → s ≤ a → g a ≡ m a) → Text g s xs
Text-agree m g s [] t h = h s (omega arith) ∙ t
Text-agree m g s (x ∷ xs) t h =
    (h s (omega arith) ∙ t.0, t.1, t.2, Text-agree m g (s + 1) xs t.3 (λ a l. h a (omega arith)))

run-is : (ds : List ℕ) (x : ℕ) (xs : List ℕ) → mem x ds ≡ true → (run ds (x ∷ xs)).0 ≡ []
run-is ds x xs is = rw is refl

run-other :
    (ds : List ℕ) (x : ℕ) (xs : List ℕ) → mem x ds ≡ false → (run ds (x ∷ xs)).0 ≡ x ∷ (run ds xs).0
run-other ds x xs other = rw other refl

words-other :
    (ds : List ℕ) (x : ℕ) (xs : List ℕ)
    → mem x ds ≡ false
    → words ds (x ∷ xs) ≡ (run ds (x ∷ xs)).0 ∷ (run ds (x ∷ xs)).1
words-other ds x xs other = rw other refl

words-is : (ds : List ℕ) (x : ℕ) (xs : List ℕ) → mem x ds ≡ true → words ds (x ∷ xs) ≡ words ds xs
words-is ds x xs is = rw is refl

-- The `n` characters before the first delimiter, cut off by a terminator.
Text-run :
    (m g : Memory) (ds : List ℕ) (s n : ℕ) (xs : List ℕ)
    → length (run ds xs).0 ≡ n
    → Text m s xs
    → ((a : ℕ) → a < s + n → g a ≡ m a)
    → g (s + n) ≡ 0
    → Text g s (run ds xs).0
Text-run m g ds s n [] e t h z = ap g {y = s + n} (omega arith) ∙ z
Text-run m g ds s n (x ∷ xs) e t h z = elim (Bool-cases (mem x ds)) [
  | inl is ↦
      let none_here = run-is ds x xs is in
      subst (Text g s) (sym none_here)
        (ap g {y = s + n} (omega (arith, e, ap length none_here)) ∙ z)
  | inr other ↦
      let first = run-other ds x xs other in
      let size : suc (length (run ds xs).0) ≡ n = sym (ap length first) ∙ e in
      subst (Text g s) (sym first) (
        h s (omega arith) ∙ t.0,
        t.1,
        t.2,
        Text-run m g ds (s + 1) (length (run ds xs).0) xs refl t.3 (λ a l. h a (omega arith))
            (ap g {y = s + n} (omega arith) ∙ z),
      )
]

-- One call of strtok_r on the string `xs` at `start`, which is the argument or, for a null argument,
-- the saved position. If there is no word left it returns null, and changes nothing but the saved
-- position. Otherwise it returns the address of the first word, terminated, and the saved position is
-- that of a string with the other words, which ends where the string ended; no byte is changed but the
-- terminator behind the word.
pub strtok_r-words :
    (fuel : ℕ) (m : Memory) (s d save start : ℕ) (xs ds : List ℕ)
    → start ≡ (if s == null then save else s)
    → start ≢ null
    → d ≢ null
    → Text m start xs
    → Text m d ds
    → length xs + length ds < fuel
    → ((words ds xs ≡ []) × (strtok_r fuel m s d save ≡ ok (m, start + length xs, null)))
      ⊎ ((g : Memory) × (save' token : ℕ) × (w zs : List ℕ) × (strtok_r fuel m s d save
            ≡ ok (g, save', token))
          × (words ds xs ≡ w ∷ words ds zs)
          × Text g token w
          × Text g save' zs
          × (start ≤ token)
          × (token + length w ≤ save')
          × (save' + length zs ≡ start + length xs)
          × ((a : ℕ) → a ≢ token + length w → g a ≡ m a))
unfolding strtok_r
strtok_r-words fuel m s d save start xs ds begin real real' t delims h =
    let finish : ℕ → ℕ → Outcome (Memory × ℕ × ℕ) =
      λ token e. if not (m e == 0) then ok (poke m e 0, e + 1, token) else ok (m, e, token) in
    let rest : ℕ × Bool → Outcome (Memory × ℕ × ℕ) = λ (token, over).
      if over then ok (m, token, null) else (skip_token fuel m d token >>= finish token) in
    let enter : strtok_r fuel m s d save ≡ (skip_delimiters fuel m d start >>= rest) =
      ap
        (λ a.
          assert (not (d == 0)) >> (assert (not (a == 0)) >> (skip_delimiters fuel m d a >>= rest)))
        (sym begin)
      ∙ ground (arith, ==_ne d 0 real', ==_ne start 0 real) in
    elim (skip-Text fuel m d ds delims real' (omega arith) fuel start xs t h) [
      | inl (none_left, stop) ↦ inl (none_left, enter ∙ ap (λ o. o >>= rest) stop)
      | inr (n, x, ys, stop, text, other, same, size) ↦
          let token = start + n in
          let w = (run ds (x ∷ ys)).0 in
          let e = token + length w in
          let (zs, stop', text', behind, size', end) =
            token-Text fuel m d ds delims real' (omega arith) fuel token (x ∷ ys) text
              (omega (arith, size, h)) in
          let go : strtok_r fuel m s d save ≡ finish token e =
            enter ∙ ap (λ o. o >>= rest) stop ∙ ap (λ o. o >>= finish token) stop' in
          elim end [
            | inl nothing ↦
                let z0 : m e ≡ 0 = subst (Text m e) nothing text' in
                inr (
                  m,
                  e,
                  token,
                  w,
                  [],
                  go ∙ ground (arith, z0),
                  same ∙ words-other ds x ys other ∙ ap (◌∷◌ w) (behind ∙ ap (words ds) nothing),
                  Text-run m m ds token (length w) (x ∷ ys) refl text (λ a l. refl) z0,
                  z0,
                  omega arith,
                  omega arith,
                  omega (arith, ap length nothing, size', size),
                  λ a ne. refl,
                )
            | inr (z, zs', split, is) ↦
                let there : Text m e (z ∷ zs') = subst (Text m e) split text' in
                let ends : m e ≢ 0 = λ e0. omega (arith, there.0, there.1, e0) in
                inr (
                  poke m e 0,
                  e + 1,
                  token,
                  w,
                  zs',
                  go ∙ ground (arith, ==_ne (m e) 0 ends),
                  same
                      ∙ words-other ds x ys other
                      ∙ ap (◌∷◌ w) (behind ∙ ap (words ds) split ∙ words-is ds z zs' is),
                  Text-run m (poke m e 0) ds token (length w) (x ∷ ys) refl text
                      (λ a l. ground (arith, ==_ne a e (λ same_a. omega (arith, same_a, l))))
                      (ground arith),
                  Text-agree m (poke m e 0) (e + 1) zs' there.3
                      (λ a l. ground (arith, ==_ne a e (λ same_a. omega (arith, same_a, l)))),
                  omega arith,
                  omega arith,
                  omega (arith, ap length split, size', size),
                  λ a ne. ground (arith, ==_ne a e ne),
                )
          ]
    ]
