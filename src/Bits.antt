-- ===== src/Bits.antt =====
-- The binary digits of a word, and what `|`, `&`, `^`, `~` and `1 << k` do to them, at every width.
pub mod Power
use Prim.Native.Nat.{digits, bitwise, differ, bit_and-bitwise, bit_or-bitwise, bit_xor-bitwise}
use native.Mathlib.Nat.{two-pow-succ}
use ee468_pintos_project.Prelude.{
  ℕ, zero, suc, ◌+◌, ◌-◌, ◌*◌, ◌/◌, ◌%◌, ◌^◌, ◌≤◌, ◌<◌, min, max, bit_and, bit_or, bit_xor, ◌≡◌,
  refl, ap, ◌∙◌, Bool, false, not, same, ◌&&◌, ◌||◌, ◌==◌, arith,
}

-- The digit number `i` of `w`.
unfoldable pub digit : ℕ → ℕ → Bool
digit w zero = w % 2 == 1
digit w (suc i) = digit (w / 2) i

-- One step of the recursion by which the native operations are defined, its fuel dropped.
module _ (z : ℕ → ℕ) (f : ℕ → ℕ → ℕ) (base : (b : ℕ) → z b ≡ z (b / 2) * 2 + f 0 (b % 2)) where
  enough : (n m a b : ℕ) → a ≤ n → a ≤ m → digits z f n a b ≡ digits z f m a b
  enough zero zero a b p q = refl
  enough (suc n) zero zero b p q = refl
  enough (suc n) zero (suc a) b p q = absurd (omega arith)
  enough zero (suc m) zero b p q = refl
  enough zero (suc m) (suc a) b p q = absurd (omega arith)
  enough (suc n) (suc m) zero b p q = refl
  enough (suc n) (suc m) (suc a) b p q =
      omega (arith, enough n m (suc a / 2) (b / 2) (omega arith) (omega arith))

  one_digit : (a b : ℕ) → bitwise z f a b ≡ bitwise z f (a / 2) (b / 2) * 2 + f (a % 2) (b % 2)
  one_digit zero b = base b
  one_digit (suc a) b =
      omega (arith, enough a (suc a / 2) (suc a / 2) (b / 2) (omega arith) (omega arith))

or_digit : (a b : ℕ) → bit_or a b ≡ bit_or (a / 2) (b / 2) * 2 + max (a % 2) (b % 2)
or_digit a b = simp bit_or-bitwise (one_digit (λ y. y) max (λ b. omega arith) a b)

pub and_digit : (a b : ℕ) → bit_and a b ≡ bit_and (a / 2) (b / 2) * 2 + min (a % 2) (b % 2)
and_digit a b = simp bit_and-bitwise (one_digit (λ y. 0) min (λ b. omega arith) a b)

differ-lt : (a b : ℕ) → a < 2 → b < 2 → differ a b ≡ (a + b) % 2
differ-lt zero b p q = omega arith
differ-lt (suc zero) zero p q = refl
differ-lt (suc zero) (suc b) p q = omega arith
differ-lt (suc (suc a)) b p q = absurd (omega arith)

xor_digit : (a b : ℕ) → bit_xor a b ≡ bit_xor (a / 2) (b / 2) * 2 + (a + b) % 2
xor_digit a b = simp bit_xor-bitwise (
    omega (
      arith,
      one_digit (λ y. y) differ (λ b. omega arith) a b,
      differ-lt (a % 2) (b % 2) (omega arith) (omega arith),
    ))

pub digit-bit_or : (a b i : ℕ) → digit (bit_or a b) i ≡ (digit a i || digit b i)
unfolding digit
digit-bit_or a b zero = ground (arith, or_digit a b)
digit-bit_or a b (suc i) =
    ap (λ w. digit w i) (omega (arith, or_digit a b)) ∙ digit-bit_or (a / 2) (b / 2) i

pub digit-bit_and : (a b i : ℕ) → digit (bit_and a b) i ≡ (digit a i && digit b i)
unfolding digit
digit-bit_and a b zero = ground (arith, and_digit a b)
digit-bit_and a b (suc i) =
    ap (λ w. digit w i) (omega (arith, and_digit a b)) ∙ digit-bit_and (a / 2) (b / 2) i

pub digit-bit_xor : (a b i : ℕ) → digit (bit_xor a b) i ≡ not (same (digit a i) (digit b i))
unfolding digit
digit-bit_xor a b zero = ground (arith, xor_digit a b)
digit-bit_xor a b (suc i) =
    ap (λ w. digit w i) (omega (arith, xor_digit a b)) ∙ digit-bit_xor (a / 2) (b / 2) i

digit-zero : (i : ℕ) → digit 0 i ≡ false
unfolding digit
digit-zero zero = refl
digit-zero (suc i) = digit-zero i

pub pow-pos : (n : ℕ) → 0 < 2 ^ n
pow-pos zero = omega arith
pow-pos (suc n) = omega (arith, two-pow-succ n, pow-pos n)

pub half : (k : ℕ) → 2 ^ suc k / 2 ≡ 2 ^ k
half k = omega (arith, two-pow-succ k)

-- `1 << k` has the one digit `k`.
pub digit-pow : (k i : ℕ) → digit (2 ^ k) i ≡ (k == i)
unfolding digit
digit-pow zero zero = refl
digit-pow zero (suc i) = ground (arith, digit-zero i)
digit-pow (suc k) zero = ground (arith, two-pow-succ k)
digit-pow (suc k) (suc i) = ap (λ w. digit w i) (half k) ∙ ground (arith, digit-pow k i)

-- `~w`, on a word of `n` bits.
pub digit-complement : (n w i : ℕ) → w < 2 ^ n → i < n → digit (2 ^ n - 1 - w) i ≡ not (digit w i)
unfolding digit
digit-complement zero w i h k = absurd (omega arith)
digit-complement (suc n) w zero h k = ground (arith, two-pow-succ n, pow-pos n)
digit-complement (suc n) w (suc i) h k =
    ap (λ v. digit v i) (omega (arith, two-pow-succ n, pow-pos n))
    ∙ digit-complement n (w / 2) i (omega (arith, two-pow-succ n)) (omega arith)

pub bit_and-zero_fuel : (n a : ℕ) → a ≤ n → bit_and a 0 ≡ 0
bit_and-zero_fuel n zero h = simp bit_and-bitwise
bit_and-zero_fuel zero (suc a) h = absurd (omega arith)
bit_and-zero_fuel (suc n) (suc a) h =
    omega (arith, and_digit (suc a) 0, bit_and-zero_fuel n (suc a / 2) (omega arith))

bit_and-one : (w : ℕ) → bit_and w 1 ≡ w % 2
bit_and-one w = omega (arith, and_digit w 1, bit_and-zero_fuel (w / 2) (w / 2) (omega arith))

bit_and-pow_half : (w k : ℕ) → bit_and w (2 ^ suc k) ≡ bit_and (w / 2) (2 ^ k) * 2
bit_and-pow_half w k =
    omega (arith, two-pow-succ k, and_digit w (2 ^ suc k), ap (bit_and (w / 2)) (half k))

-- The test `(w & (1 << k)) != 0` reads the digit `k`.
pub bit_and-pow : (k w : ℕ) → not (bit_and w (2 ^ k) == 0) ≡ digit w k
unfolding digit
bit_and-pow zero w = ground (arith, bit_and-one w)
bit_and-pow (suc k) w = ground (arith, bit_and-pow_half w k, bit_and-pow k (w / 2))
