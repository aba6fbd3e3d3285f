-- ===== src/Prelude/Outcomes.antt =====
-- What a kernel function does: it returns, it stops the kernel (a failed ASSERT, a PANIC), or it is
-- still running when its fuel is used up.
use mathlib.Core.Bool.{Bool, true, false}
use mathlib.Core.Path.{◌≡◌, refl, ap}
use native.Mathlib.Omega.{arith}

pub data Outcome {ℓ} (A : Type ℓ) : Type ℓ where
  ok : A → Outcome A
  panic : Outcome A
  running : Outcome A

infixl 5 ◌>>=◌ ◌>>◌
abbrev pub ◌>>=◌ {ℓ κ} : {A : Type ℓ} {B : Type κ} → Outcome A → (A → Outcome B) → Outcome B
ok a >>= f = f a
panic >>= f = panic
running >>= f = running

abbrev pub ◌>>◌ {ℓ} : {B : Type ℓ} → Outcome (Unit {0}) → Outcome B → Outcome B
m >> k = m >>= λ _. k

-- ASSERT (cond), of lib/debug.h.
abbrev pub assert : Bool → Outcome (Unit {0})
assert true = ok tt
assert false = panic

module _ {ℓ} {A : Type ℓ} where
  abbrev is_ok : Outcome A → Bool
  is_ok (ok a) = true
  is_ok panic = false
  is_ok running = false

  abbrev ok_or : A → Outcome A → A
  ok_or d (ok a) = a
  ok_or d panic = d
  ok_or d running = d

  pub ok-injective : {a b : A} → ok a ≡ ok b → a ≡ b
  ok-injective {a} p = ap (ok_or a) p

-- A chain that returns has first steps that return.
pub bind_ok {ℓ κ} :
    {A : Type ℓ} {B : Type κ} (m : Outcome A) (f : A → Outcome B) (b : B)
    → m >>= f ≡ ok b
    → (a : A) × (m ≡ ok a) × (f a ≡ ok b)
bind_ok (ok a) f b h = (a, refl, h)
bind_ok panic f b h = ground (arith, ap is_ok h)
bind_ok running f b h = ground (arith, ap is_ok h)
