-- ===== src/Prelude/Bits.antt =====
-- `&`, `|` and `^` at variables, at every width, from the equation for the lowest digit.
mod Step
pub use Step.{bit_and_halves, bit_or_halves, bit_xor_halves}
use Prim.Native.Nat.{ℕ, zero, suc, ◌+◌, ◌-◌, ◌*◌, ◌/◌, ◌%◌, ◌^◌, ◌≤◌, ◌<◌, bit_and, bit_or, bit_xor}
use mathlib.Core.Path.{◌≡◌, refl, sym, ap, ◌∙◌}
use mathlib.Core.WellFounded
use native.Mathlib.Nat.{pow-suc, one-le-pow, div-div-eq-div-mul}
use native.Mathlib.Omega.{arith}
use vbbu.Prelude.Order.{lt_wf}

-- A law of all numbers that follows at `a` from the law at `a / 2`.
pub halving : (P : ℕ → Type 0) → P 0 → ((a : ℕ) → 0 < a → P (a / 2) → P a) → (a : ℕ) → P a
halving P base step a = WellFounded.induction lt_wf {C = P} a body
  where
    body : (n : ℕ) → ((m : ℕ) → m < n → P m) → P n
    body zero ih = base
    body (suc n) ih = step (suc n) (omega arith) (ih (suc n / 2) (omega arith))

pub bit_or-zero : (a : ℕ) → bit_or a 0 ≡ a
bit_or-zero = halving (λ a. bit_or a 0 ≡ a) refl (λ a h ih. omega (arith, bit_or_halves a 0))

pub bit_and-zero : (a : ℕ) → bit_and a 0 ≡ 0
bit_and-zero = halving (λ a. bit_and a 0 ≡ 0) refl (λ a h ih. omega (arith, bit_and_halves a 0))

pub bit_and-one : (x : ℕ) → bit_and x 1 ≡ x % 2
bit_and-one x = let half = bit_and-zero (x / 2) in omega (arith, half, bit_and_halves x 1)

pub bit_and_self : (a : ℕ) → bit_and a a ≡ a
bit_and_self = halving (λ a. bit_and a a ≡ a) refl (λ a h ih. omega (arith, bit_and_halves a a))

pub bit_xor-zero : (a : ℕ) → bit_xor a 0 ≡ a
bit_xor-zero = halving (λ a. bit_xor a 0 ≡ a) refl (λ a h ih. omega (arith, bit_xor_halves a 0))

-- Applying the same mask twice changes nothing.
pub bit_xor_cancel : (a b : ℕ) → bit_xor (bit_xor a b) b ≡ a
bit_xor_cancel a b = cancel b a
  where
    base : (a : ℕ) → bit_xor (bit_xor a 0) 0 ≡ a
    base a = rw (bit_xor-zero a) (bit_xor-zero a)

    cancel : (b a : ℕ) → bit_xor (bit_xor a b) b ≡ a
    cancel =
        halving (λ b. (a : ℕ) → bit_xor (bit_xor a b) b ≡ a) base
          λ b h ih a.
            let below : bit_xor a b / 2 ≡ bit_xor (a / 2) (b / 2) =
              omega (arith, bit_xor_halves a b) in
            let again = ih (a / 2) in
            let unfolded = rw below at (bit_xor_halves (bit_xor a b) b) in
            omega (arith, bit_xor_halves a b)

pub two-pow : (k : ℕ) → 2 ^ suc k ≡ 2 * 2 ^ k
two-pow k = omega (arith, pow-suc 2 k)

mul-two-pow : (q k : ℕ) → q * 2 ^ suc k ≡ 2 * (q * 2 ^ k)
mul-two-pow q k = omega (arith, ap (λ (t : ℕ). q * t) (two-pow k))

-- `(q << k) | r` is a sum when `r` fits in `k` bits.
pub bit_or_disjoint : (k q r : ℕ) → r < 2 ^ k → bit_or (q * 2 ^ k) r ≡ q * 2 ^ k + r
bit_or_disjoint zero q r h =
    let e : r ≡ 0 = omega arith in rw e (omega (arith, bit_or-zero (q * 2 ^ 0)))
bit_or_disjoint (suc k) q r h =
    let e : (2 * (q * 2 ^ k)) / 2 ≡ q * 2 ^ k = omega arith in
    let low = rw e at (bit_or_halves (2 * (q * 2 ^ k)) r) in
    rw (mul-two-pow q k)
      (omega (arith, low, bit_or_disjoint k q (r / 2) (omega (arith, two-pow k))))

-- `^` of numbers in two parts works on each part.
pub bit_xor_parts :
    (k a b c d : ℕ)
    → b < 2 ^ k
    → d < 2 ^ k
    → bit_xor (a * 2 ^ k + b) (c * 2 ^ k + d) ≡ bit_xor a c * 2 ^ k + bit_xor b d
bit_xor_parts zero a b c d hb hd =
    let e : b ≡ 0 = omega arith in
    let e' : d ≡ 0 = omega arith in
    let left : a * 2 ^ 0 + 0 ≡ a = omega arith in
    let right : c * 2 ^ 0 + 0 ≡ c = omega arith in rw e (rw e' (rw left (rw right (omega arith))))
bit_xor_parts (suc k) a b c d hb hd =
    let e : (2 * (a * 2 ^ k) + b) / 2 ≡ a * 2 ^ k + b / 2 = omega arith in
    let e' : (2 * (c * 2 ^ k) + d) / 2 ≡ c * 2 ^ k + d / 2 = omega arith in
    let low = rw e' at (rw e at (bit_xor_halves (2 * (a * 2 ^ k) + b) (2 * (c * 2 ^ k) + d))) in
    let rest =
      bit_xor_parts k a (b / 2) c (d / 2) (omega (arith, two-pow k)) (omega (arith, two-pow k)) in
    rw (mul-two-pow a k) (
      rw (mul-two-pow c k)
        (rw (mul-two-pow (bit_xor a c) k) (omega (arith, low, rest, bit_xor_halves b d))))

pub mod-two-pow_suc : (k a : ℕ) → a % 2 ^ suc k ≡ a / 2 % 2 ^ k * 2 + a % 2
mod-two-pow_suc k a = rw (two-pow k) (grind (arith, one-le-pow k 2))

pub div-two-pow_suc : (k a : ℕ) → a / 2 ^ suc k ≡ a / 2 / 2 ^ k
div-two-pow_suc k a = rw (two-pow k) (sym (div-div-eq-div-mul a 2 (2 ^ k)))

-- `x & ((1 << k) - 1)` is the remainder by `2 ^ k`.
pub bit_and_mask : (k a : ℕ) → bit_and a (2 ^ k - 1) ≡ a % 2 ^ k
bit_and_mask zero a = omega (arith, bit_and-zero a)
bit_and_mask (suc k) a =
    let e : (2 ^ suc k - 1) / 2 ≡ 2 ^ k - 1 = omega (arith, two-pow k, one-le-pow k 2) in
    let low = rw e at (bit_and_halves a (2 ^ suc k - 1)) in
    omega (arith, low, bit_and_mask k (a / 2), two-pow k, one-le-pow k 2, mod-two-pow_suc k a)

pub bit_xor_self : (a : ℕ) → bit_xor a a ≡ 0
bit_xor_self = halving (λ a. bit_xor a a ≡ 0) refl (λ a h ih. omega (arith, bit_xor_halves a a))

pub zero-bit_and : (b : ℕ) → bit_and 0 b ≡ 0
zero-bit_and = halving (λ b. bit_and 0 b ≡ 0) refl (λ b h ih. omega (arith, ih, bit_and_halves 0 b))

-- A mask that stands `k` bits up, read from there on.
pub bit_and-shift : (k a m : ℕ) → bit_and a (m * 2 ^ k) / 2 ^ k ≡ bit_and (a / 2 ^ k) m
bit_and-shift zero a m =
    let e : m * 2 ^ 0 ≡ m = omega arith in
    let e' : a / 2 ^ 0 ≡ a = omega arith in rw e (rw e' (omega arith))
bit_and-shift (suc k) a m =
    let e : (2 * (m * 2 ^ k)) / 2 ≡ m * 2 ^ k = omega arith in
    let low = rw e at (bit_and_halves a (2 * (m * 2 ^ k))) in
    let half : bit_and a (2 * (m * 2 ^ k)) / 2 ≡ bit_and (a / 2) (m * 2 ^ k) = omega (arith, low) in
    rw (mul-two-pow m k) (
      rw (div-two-pow_suc k (bit_and a (2 * (m * 2 ^ k))))
        (rw half (rw (div-two-pow_suc k a) (bit_and-shift k (a / 2) m))))

zero-bit_xor : (b : ℕ) → bit_xor 0 b ≡ b
zero-bit_xor = halving (λ b. bit_xor 0 b ≡ b) refl (λ b h ih. omega (arith, ih, bit_xor_halves 0 b))

pub bit_xor_comm : (a b : ℕ) → bit_xor a b ≡ bit_xor b a
bit_xor_comm =
    halving (λ a. (b : ℕ) → bit_xor a b ≡ bit_xor b a) (λ b. zero-bit_xor b ∙ sym (bit_xor-zero b))
      (λ a h ih b. omega (arith, ih (b / 2), bit_xor_halves a b, bit_xor_halves b a))

pub bit_xor-mod : (k a b : ℕ) → bit_xor a b % 2 ^ k ≡ bit_xor (a % 2 ^ k) (b % 2 ^ k)
bit_xor-mod zero a b =
    let e : a % 2 ^ 0 ≡ 0 = omega arith in
    let e' : b % 2 ^ 0 ≡ 0 = omega arith in rw e (rw e' (omega arith))
bit_xor-mod (suc k) a b =
    let half_a : (a % 2 ^ suc k) / 2 ≡ a / 2 % 2 ^ k = omega (arith, mod-two-pow_suc k a) in
    let half_b : (b % 2 ^ suc k) / 2 ≡ b / 2 % 2 ^ k = omega (arith, mod-two-pow_suc k b) in
    let low = rw half_b at (rw half_a at (bit_xor_halves (a % 2 ^ suc k) (b % 2 ^ suc k))) in
    let half : bit_xor a b / 2 ≡ bit_xor (a / 2) (b / 2) = omega (arith, bit_xor_halves a b) in
    let high = rw half at (mod-two-pow_suc k (bit_xor a b)) in
    omega (
      arith,
      low,
      high,
      bit_xor_halves a b,
      bit_xor-mod k (a / 2) (b / 2),
      mod-two-pow_suc k a,
      mod-two-pow_suc k b,
    )

-- Digit `k` of an exclusive or.
pub bit_xor-digit : (k a b : ℕ) → bit_xor a b / 2 ^ k % 2 ≡ (a / 2 ^ k % 2 + b / 2 ^ k % 2) % 2
bit_xor-digit zero a b = omega (arith, bit_xor_halves a b)
bit_xor-digit (suc k) a b =
    let half : bit_xor a b / 2 ≡ bit_xor (a / 2) (b / 2) = omega (arith, bit_xor_halves a b) in
    rw (div-two-pow_suc k (bit_xor a b)) (
      rw half
        (rw (div-two-pow_suc k a) (rw (div-two-pow_suc k b) (bit_xor-digit k (a / 2) (b / 2)))))
