-- ===== src/Bit/Count.antt =====
-- `srslte_bit_count` against the sum of the binary digits.
use native.Mathlib.Nat.{zero-add}
use vbbu.Prelude.{
  ℕ, zero, suc, ◌+◌, ◌-◌, ◌*◌, ◌/◌, ◌%◌, ◌^◌, ◌≤◌, ◌<◌, ◌≡◌, refl, ap, ◌∙◌, bit_and, some, arith,
  ◌==◌, Bool-cases, inl, inr,
}
use native.Mathlib.Decide.{dec_lt}
use vbbu.Prelude.Bits.{bit_and_halves, bit_and_self, two-pow}
use vbbu.Bit.{count_loop, count}

-- The number of ones among the `k` low binary digits.
unfoldable pub ones : ℕ → ℕ → ℕ
ones zero n = 0
ones (suc k) n = n % 2 + ones k (n / 2)

ones-zero : (k : ℕ) → ones k 0 ≡ 0
unfolding ones
ones-zero zero = refl
ones-zero (suc k) = omega (arith, ones-zero k)

ones-le : (k n : ℕ) → ones k n ≤ k
unfolding ones
ones-le zero n = omega arith
ones-le (suc k) n = omega (arith, ones-le k (n / 2))

-- `n & (n - 1)` at an odd and at an even number.
clear_odd : (n : ℕ) → n % 2 ≡ 1 → bit_and n (n - 1) ≡ n - 1
clear_odd n h =
    let e : (n - 1) / 2 ≡ n / 2 = omega arith in
    let low = rw e at (bit_and_halves n (n - 1)) in omega (arith, low, bit_and_self (n / 2))

clear_even : (n : ℕ) → 0 < n → n % 2 ≡ 0 → bit_and n (n - 1) ≡ bit_and (n / 2) (n / 2 - 1) * 2
clear_even n pos h =
    let e : (n - 1) / 2 ≡ n / 2 - 1 = omega arith in
    let low = rw e at (bit_and_halves n (n - 1)) in omega (arith, low)

-- Clearing the lowest one takes one from the digit sum, and does not leave the range.
ones-clear :
    (k n : ℕ)
    → 0 < n
    → n < 2 ^ k
    → (ones k (bit_and n (n - 1)) + 1 ≡ ones k n) × (bit_and n (n - 1) < 2 ^ k)
unfolding ones
ones-clear zero n pos h = absurd (omega arith)
ones-clear (suc k) n pos h = elim (dec_lt 0 (n % 2)) [
  | yes odd ↦
      let e = clear_odd n (omega arith) in
      let half : (n - 1) / 2 ≡ n / 2 = omega arith in rw e (rw half (omega arith))
  | no even ↦
      let e = clear_even n pos (omega arith) in
      let rest = ones-clear k (n / 2) (omega arith) (omega (arith, two-pow k)) in
      let half : bit_and (n / 2) (n / 2 - 1) * 2 / 2 ≡ bit_and (n / 2) (n / 2 - 1) = omega arith in
      rw e (rw half (omega (arith, rest, two-pow k)))
]

count_loop-ones :
    (fuel k c n : ℕ) → n < 2 ^ k → ones k n < fuel → count_loop fuel c n ≡ some (c + ones k n)
unfolding count_loop
count_loop-ones zero k c n h f = absurd (omega arith)
count_loop-ones (suc fuel) k c n h f = elim (Bool-cases (n == 0)) [
  | inl done ↦
      let e : n ≡ 0 = ground arith in rw done (ap some (omega (arith, rw (← e) at (ones-zero k))))
  | inr more ↦
      let step = ones-clear k n (ground arith) h in
      rw more (
        count_loop-ones fuel k (c + 1) (bit_and n (n - 1)) step.1 (omega arith)
        ∙ ap some (omega arith))
]

-- `srslte_bit_count` ends within its 33 tests, and returns the number of ones of a uint32_t.
pub count-ones : (n : ℕ) → n < 2 ^ 32 → count n ≡ some (ones 32 n)
unfolding count
count-ones n h = count_loop-ones 33 32 0 n h (omega (arith, ones-le 32 n)) ∙ ap some (zero-add _)
