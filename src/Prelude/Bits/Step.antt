-- ===== src/Prelude/Bits/Step.antt =====
-- The bit operations stand for `bitwise`, which walks the digits on fuel. Each of them obeys
-- one equation at the lowest digit, and with it the fuel is gone.
use Prim.Native.Nat.{
  ℕ, zero, suc, ◌+◌, ◌*◌, ◌/◌, ◌%◌, ◌≤◌, ◌<◌, min, max, digits, bitwise, differ, bit_and, bit_or,
  bit_xor, bit_and-bitwise, bit_or-bitwise, bit_xor-bitwise,
}
use mathlib.Core.Path.{◌≡◌, refl}
use mathlib.Core.WellFounded
use native.Mathlib.Omega.{arith}
use vbbu.Prelude.Order.{lt_wf}

module _ (z : ℕ → ℕ) (f : ℕ → ℕ → ℕ) where
  -- Any fuel from `a` on gives the digits of `a`.
  abbrev HasEnough : ℕ → Type 0
  HasEnough a = (n b : ℕ) → a ≤ n → digits z f n a b ≡ bitwise z f a b

  enough_step : (a : ℕ) → ((m : ℕ) → m < a → HasEnough m) → HasEnough a
  enough_step zero ih zero b h = refl
  enough_step zero ih (suc n) b h = refl
  enough_step (suc a) ih zero b h = absurd (omega arith)
  enough_step (suc a) ih (suc n) b h =
      let half = ih (suc a / 2) (omega arith) in
      omega (arith, half n (b / 2) (omega arith), half a (b / 2) (omega arith))

  enough : (a : ℕ) → HasEnough a
  enough a = WellFounded.induction lt_wf {C = HasEnough} a enough_step

  module _ (coherent : (b : ℕ) → z b ≡ z (b / 2) * 2 + f 0 (b % 2)) where
    bitwise_step : (a b : ℕ) → bitwise z f a b ≡ bitwise z f (a / 2) (b / 2) * 2 + f (a % 2) (b % 2)
    bitwise_step zero b = coherent b
    bitwise_step (suc a) b = omega (arith, enough (suc a / 2) a (b / 2) (omega arith))

differ_digit : (a b : ℕ) → differ (a % 2) (b % 2) ≡ (a + b) % 2
differ_digit a b = table (a % 2) (b % 2) ((a + b) % 2) (omega arith) (omega arith) (omega arith)
  where
    table : (x y s : ℕ) → x < 2 → y < 2 → s ≡ (x + y) % 2 → differ x y ≡ s
    table zero y s h k e = omega arith
    table (suc zero) zero s h k e = omega arith
    table (suc zero) (suc zero) s h k e = omega arith
    table (suc zero) (suc (suc y)) s h k e = absurd (omega arith)
    table (suc (suc x)) y s h k e = absurd (omega arith)

pub bit_xor_halves : (x y : ℕ) → bit_xor x y ≡ (x + y) % 2 + 2 * bit_xor (x / 2) (y / 2)
bit_xor_halves x y =
    let e = rw (differ_digit x y) at (bitwise_step (λ y. y) differ (λ y. omega arith) x y) in
    simp bit_xor-bitwise (omega (arith, e))

pub bit_and_halves : (x y : ℕ) → bit_and x y ≡ min (x % 2) (y % 2) + 2 * bit_and (x / 2) (y / 2)
bit_and_halves x y =
    let e = bitwise_step (λ y. 0) min (λ y. omega arith) x y in
    simp bit_and-bitwise (omega (arith, e))

pub bit_or_halves : (x y : ℕ) → bit_or x y ≡ max (x % 2) (y % 2) + 2 * bit_or (x / 2) (y / 2)
bit_or_halves x y =
    let e = bitwise_step (λ y. y) max (λ y. omega arith) x y in
    simp bit_or-bitwise (omega (arith, e))
