-- ===== src/Bits/Power.antt =====
-- Masks of the form `n - 1`, and `x & (x - 1)`, which turns the lowest digit 1 of `x` off.
use native.Mathlib.Nat.{two-pow-succ}
use ee468_pintos_project.Prelude.{
  ℕ, zero, suc, ◌-◌, ◌*◌, ◌/◌, ◌%◌, ◌^◌, ◌≤◌, ◌<◌, bit_and, ◌≡◌, ap, ◌⊎◌, inl, inr, arith,
  ℕ_discrete,
}
use ee468_pintos_project.Bits.{and_digit, bit_and-zero_fuel, pow-pos}

bit_and-le_fuel : (n a b : ℕ) → b ≤ n → bit_and a b ≤ b
bit_and-le_fuel n a zero h = omega (arith, bit_and-zero_fuel a a (omega arith))
bit_and-le_fuel zero a (suc b) h = absurd (omega arith)
bit_and-le_fuel (suc n) a (suc b) h =
    omega (arith, and_digit a (suc b), bit_and-le_fuel n (a / 2) (suc b / 2) (omega arith))

bit_and-self_fuel : (n a : ℕ) → a ≤ n → bit_and a a ≡ a
bit_and-self_fuel n zero h = omega (arith, and_digit 0 0)
bit_and-self_fuel zero (suc a) h = absurd (omega arith)
bit_and-self_fuel (suc n) (suc a) h =
    omega (arith, and_digit (suc a) (suc a), bit_and-self_fuel n (suc a / 2) (omega arith))

-- A mask leaves an index below `n`.
pub bit_and-mask : (a n : ℕ) → 0 < n → bit_and a (n - 1) < n
bit_and-mask a n h = omega (arith, bit_and-le_fuel (n - 1) a (n - 1) (omega arith))

odd_off : (x : ℕ) → x % 2 ≡ 1 → bit_and x (x - 1) ≡ x - 1
odd_off x o = omega (
  arith,
  and_digit x (x - 1),
  ap (bit_and (x / 2)) {x = (x - 1) / 2} {y = x / 2} (omega arith),
  bit_and-self_fuel (x / 2) (x / 2) (omega arith),
)

even_off : (x : ℕ) → x % 2 ≡ 0 → 0 < x → bit_and x (x - 1) ≡ bit_and (x / 2) (x / 2 - 1) * 2
even_off x e h = omega (
  arith,
  and_digit x (x - 1),
  ap (bit_and (x / 2)) {x = (x - 1) / 2} {y = x / 2 - 1} (omega arith),
)

-- The lowest digit 1 is turned off: nothing is left of a power of two, and the highest digit stays
-- otherwise.
pub turn_off_cases :
    (k x : ℕ)
    → 2 ^ k ≤ x
    → x < 2 ^ suc k
    → ((x ≡ 2 ^ k) × (bit_and x (x - 1) ≡ 0))
      ⊎ ((2 ^ k ≤ bit_and x (x - 1)) × (bit_and x (x - 1) < x))
turn_off_cases zero x lo hi = inl (omega arith, omega (arith, odd_off x (omega arith)))
turn_off_cases (suc k) x lo hi = elim (ℕ_discrete (x % 2) 1) [
  | yes o ↦ inr (
    omega (arith, odd_off x o, two-pow-succ k, pow-pos k),
    omega (arith, odd_off x o, two-pow-succ k, pow-pos k),
  )
  | no e ↦
      elim (turn_off_cases k (x / 2) (omega (arith, two-pow-succ k))
        (omega (arith, two-pow-succ k, two-pow-succ (suc k)))) [
          | inl (p, q) ↦ inl (
            omega (arith, two-pow-succ k),
            omega (arith, even_off x (omega arith) (omega (arith, pow-pos (suc k)))),
          )
          | inr (p, q) ↦ inr (
            omega
                (arith, even_off x (omega arith) (omega (arith, pow-pos (suc k))), two-pow-succ k),
            omega (arith, even_off x (omega arith) (omega (arith, pow-pos (suc k)))),
          )
        ]
]
