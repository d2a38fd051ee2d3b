-- ===== src/Turbo/Interleaver/Divisors.antt =====
-- Divisibility as the interleaver uses it: a quadratic polynomial whose linear coefficient has an
-- inverse and whose quadratic coefficient is nilpotent takes no value twice.
use Prim.Native.Nat.{◌∣◌}
use native.Mathlib.Nat.{
  dvd-mul_left_of_dvd, dvd-mul_right_of_dvd, dvd-add_iff_left, dvd-mul_left, dvd_of_mod-eq-zero,
  mod-eq-zero_of_dvd, pow-suc, pow-zero, dvd-mul_right, mod-add-mod, mod-eq_of_lt,
}
use vbbu.Prelude.{
  ℕ, zero, suc, ◌+◌, ◌-◌, ◌*◌, ◌/◌, ◌%◌, ◌^◌, ◌<◌, ◌≡◌, sym, ap, ◌∙◌, arith, inl, inr, leb, leb→le,
  leb→gt, Bool-cases,
}

-- A factor with an inverse cancels.
dvd_cancel : (k f v x : ℕ) → f * v % k ≡ 1 → k ∣ f * x → k ∣ x
dvd_cancel k f v x inverse h =
    (dvd-add_iff_left k {m = x} {n = f * v / k * x * k} (dvd-mul_left k (f * v / k * x))).1
      (rw parts at (dvd-mul_right_of_dvd k h v))
  where
    one : f * v ≡ 1 + k * (f * v / k)
    one = omega arith

    parts : f * x * v ≡ x + f * v / k * x * k
    parts = omega (arith, ap (λ (t : ℕ). t * x) one)

-- With `k ∣ d * (f1 + f2 * s)`, one factor `f2` goes.
dvd_lower :
    (k f1 f2 v s d n : ℕ)
    → f1 * v % k ≡ 1
    → k ∣ d * (f1 + f2 * s)
    → k ∣ d * f2 ^ suc n
    → k ∣ d * f2 ^ n
dvd_lower k f1 f2 v s d n inverse h top = dvd_cancel k f1 v (d * f2 ^ n) inverse (
    (dvd-add_iff_left k {m = f1 * (d * f2 ^ n)} {n = d * f2 ^ suc n * s}
        (dvd-mul_right_of_dvd k top s)).1
      (rw parts at (dvd-mul_right_of_dvd k h (f2 ^ n))))
  where
    parts : d * (f1 + f2 * s) * f2 ^ n ≡ f1 * (d * f2 ^ n) + d * f2 ^ suc n * s
    parts = rw (pow-suc f2 n) (omega arith)

dvd_of_nilpotent :
    (k f1 f2 v s d n : ℕ) → f1 * v % k ≡ 1 → k ∣ d * (f1 + f2 * s) → k ∣ d * f2 ^ n → k ∣ d
dvd_of_nilpotent k f1 f2 v s d zero inverse h top =
    let e : d * f2 ^ 0 ≡ d = omega (arith, ap (λ (t : ℕ). d * t) (pow-zero f2)) in rw e at top
dvd_of_nilpotent k f1 f2 v s d (suc n) inverse h top =
    dvd_of_nilpotent k f1 f2 v s d n inverse h (dvd_lower k f1 f2 v s d n inverse h top)

-- A summand that does not change the remainder is a multiple.
dvd_of_same_mod : (k a x : ℕ) → a % k ≡ (a + x) % k → k ∣ x
dvd_of_same_mod k a x same = rw parts (dvd-mul_right k ((a % k + x) / k))
  where
    step : (a % k + x) % k ≡ a % k
    step = mod-add-mod a k x ∙ sym same

    parts : x ≡ k * ((a % k + x) / k)
    parts = omega (arith, step)

-- Two arguments below `k` with the same value of the polynomial modulo `k`, the second not smaller.
quadratic_inj_le :
    (k f1 f2 v n i d : ℕ)
    → f1 * v % k ≡ 1
    → f2 ^ n % k ≡ 0
    → i + d < k
    → (f1 * i + f2 * i * i) % k ≡ (f1 * (i + d) + f2 * (i + d) * (i + d)) % k
    → d ≡ 0
quadratic_inj_le k f1 f2 v n i d inverse nil small same =
    sym (mod-eq_of_lt {n = d} {m = k} (omega arith)) ∙ mod-eq-zero_of_dvd k whole
  where
    value : ℕ
    value = f1 * i + f2 * i * i

    parts : f1 * (i + d) + f2 * (i + d) * (i + d) ≡ value + d * (f1 + f2 * (2 * i + d))
    parts = omega arith

    whole : k ∣ d
    whole =
        dvd_of_nilpotent k f1 f2 v (2 * i + d) d n inverse
          (dvd_of_same_mod k value (d * (f1 + f2 * (2 * i + d))) (rw parts at same))
          (dvd-mul_left_of_dvd k (dvd_of_mod-eq-zero k nil) d)

-- The polynomial takes no value twice on the numbers below `k`.
pub quadratic_inj :
    (k f1 f2 v n i j : ℕ)
    → f1 * v % k ≡ 1
    → f2 ^ n % k ≡ 0
    → i < k
    → j < k
    → (f1 * i + f2 * i * i) % k ≡ (f1 * j + f2 * j * j) % k
    → i ≡ j
quadratic_inj k f1 f2 v n i j inverse nil hi hj same = elim (Bool-cases (leb i j)) [
  | inl t ↦
      let le = leb→le i j t in
      let e : i + (j - i) ≡ j = omega arith in
      let d = quadratic_inj_le k f1 f2 v n i (j - i) inverse nil (omega arith) (rw e same) in
      omega (arith, d)
  | inr t ↦
      let le = leb→gt i j t in
      let e : j + (i - j) ≡ i = omega arith in
      let d = quadratic_inj_le k f1 f2 v n j (i - j) inverse nil (omega arith) (rw e (sym same)) in
      omega (arith, d)
]
