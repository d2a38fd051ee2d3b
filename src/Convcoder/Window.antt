-- ===== src/Convcoder/Window.antt =====
-- The register of srslte/lib/fec/convcoder.c as a window over the last bits.
use vbbu.Prelude.{
  ℕ, zero, suc, ◌+◌, ◌*◌, ◌/◌, ◌%◌, ◌^◌, ◌≤◌, ◌<◌, ◌≡◌, refl, sym, ◌∙◌, bit_and, arith,
}
use vbbu.Prelude.Bits.{bit_and_halves, bit_and-zero, bit_or_disjoint, mod-two-pow_suc, two-pow}
use vbbu.Convcoder.{push}

-- Only the lower digits meet a mask.
pub bit_and-low : (k a p : ℕ) → p < 2 ^ k → bit_and a p ≡ bit_and (a % 2 ^ k) p
bit_and-low zero a p h =
    let e : p ≡ 0 = omega arith in rw e (bit_and-zero a ∙ sym (bit_and-zero (a % 2 ^ 0)))
bit_and-low (suc k) a p h =
    let low : (a % 2 ^ suc k) / 2 ≡ a / 2 % 2 ^ k = omega (arith, mod-two-pow_suc k a) in
    let odd : a % 2 ^ suc k % 2 ≡ a % 2 = omega (arith, mod-two-pow_suc k a) in
    let rest = bit_and-low k (a / 2) (p / 2) (omega (arith, two-pow k)) in
    let halves = rw odd at (rw low at (bit_and_halves (a % 2 ^ suc k) p)) in
    omega (arith, bit_and_halves a p, halves, rest)

pub mod-mod-two-pow : (k m a : ℕ) → k ≤ m → a % 2 ^ m % 2 ^ k ≡ a % 2 ^ k
mod-mod-two-pow zero m a h = omega arith
mod-mod-two-pow (suc k) zero a h = absurd (omega arith)
mod-mod-two-pow (suc k) (suc m) a h =
    let low : (a % 2 ^ suc m) / 2 ≡ a / 2 % 2 ^ m = omega (arith, mod-two-pow_suc m a) in
    let odd : a % 2 ^ suc m % 2 ≡ a % 2 = omega (arith, mod-two-pow_suc m a) in
    rw (mod-two-pow_suc k (a % 2 ^ suc m)) (
      rw low
        (rw odd (rw (mod-two-pow_suc k a) (rw (mod-mod-two-pow k m (a / 2) (omega arith)) refl))))

-- The digits of the `n` last bits of a sequence that ends before index `i`, where `bit` reads it
-- backwards: the newest bit first.
unfoldable pub window : (ℕ → ℕ) → ℕ → ℕ
window bit zero = 0
window bit (suc n) = bit 0 + 2 * window (λ t. bit (suc t)) n

-- One step of the register.
pub push-window : (sr b k : ℕ) → k < 32 → b < 2 → push sr b % 2 ^ suc k ≡ b + 2 * (sr % 2 ^ k)
unfolding push
push-window sr b k h hb =
    let q : ℕ = sr % 2 ^ 31 in
    let even : sr * 2 % 4294967296 ≡ q * 2 ^ 1 = omega arith in
    let joined = bit_or_disjoint 1 q b hb in
    let half : (q * 2 ^ 1 + b) / 2 ≡ q = omega arith in
    let odd : (q * 2 ^ 1 + b) % 2 ≡ b = omega arith in
    rw even (
      rw joined (
        rw (mod-two-pow_suc k (q * 2 ^ 1 + b))
          (rw half (rw odd (rw (mod-mod-two-pow k 31 sr (omega arith)) (omega arith))))))

pub window-ext : (f g : ℕ → ℕ) (n : ℕ) → ((t : ℕ) → t < n → f t ≡ g t) → window f n ≡ window g n
unfolding window
window-ext f g zero h = refl
window-ext f g (suc n) h =
    rw (h 0 (omega arith))
      (rw (window-ext (λ t. f (suc t)) (λ t. g (suc t)) n (λ t ht. h (suc t) (omega arith))) refl)

-- Forgetting the oldest bit.
pub window-mod : (f : ℕ → ℕ) (n : ℕ) → ((t : ℕ) → f t < 2) → window f (suc n) % 2 ^ n ≡ window f n
unfolding window
window-mod f zero h = omega arith
window-mod f (suc n) h =
    let rest : ℕ = f 1 + 2 * window (λ t. f (suc (suc t))) n in
    let half : (f 0 + 2 * rest) / 2 ≡ rest = omega (arith, h 0) in
    let odd : (f 0 + 2 * rest) % 2 ≡ f 0 = omega (arith, h 0) in
    let shorter = window-mod (λ t. f (suc t)) n (λ t. h (suc t)) in
    rw (mod-two-pow_suc n (f 0 + 2 * rest)) (rw half (rw odd (rw shorter (omega arith))))
