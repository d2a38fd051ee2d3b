-- ===== src/Ra/Riv.antt =====
-- The resource indication value names each run of resource blocks: `srslte_ra_type2_from_riv`
-- finds the run that `srslte_ra_type2_to_riv` encoded.
use native.Mathlib.Nat.{
  mul-le-mul_left, mul-add-div, mul-add-mod_self_left, mod-eq_of_lt, div-eq_of_lt,
}
use vbbu.Prelude.{
  ℕ, zero, suc, ◌+◌, ◌-◌, ◌*◌, ◌/◌, ◌%◌, ◌≤◌, ◌<◌, ◌≡◌, ◌⊎◌, inl, inr, ◌∙◌, arith, ltb, leb,
  if◌then◌else◌, Bool-cases, ◌||◌, sub32, leb→le, leb→gt,
}
use vbbu.Ra.Type2.{type2_to_riv, type2_from_riv}

-- Quotient and remainder of a number that is given as a sum.
pub div_of_sum : (n q r : ℕ) → r < n → (n * q + r) / n ≡ q
div_of_sum n q r h =
    omega (arith, mul-add-div {m = n} (omega arith) q r, div-eq_of_lt {n = r} {m = n} h)

pub mod_of_sum : (n q r : ℕ) → r < n → (n * q + r) % n ≡ r
mod_of_sum n q r h = mul-add-mod_self_left n q r ∙ mod-eq_of_lt h

-- The products below stay far below 2 ^ 32.
product_small : (n q : ℕ) → n ≤ 110 → q ≤ 111 → n * q ≤ 12210
product_small n q h k = grind arith

-- The two forms of the value.
riv_short :
    (l rb n : ℕ) → n ≤ 110 → 1 ≤ l → rb + l ≤ n → l ≤ n / 2 → type2_to_riv l rb n ≡ n * (l - 1) + rb
unfolding type2_to_riv
riv_short l rb n hn hl h s = ground (arith, product_small n (l - 1))

riv_long :
    (l rb n : ℕ)
    → n ≤ 110
    → rb + l ≤ n
    → n / 2 < l
    → type2_to_riv l rb n ≡ n * (n - l + 1) + (n - 1 - rb)
unfolding type2_to_riv
riv_long l rb n hn h s = ground (arith, product_small n (n - l + 1))

-- What is decoded from a value in two parts.
from_riv_parts :
    (n vrb q r : ℕ)
    → n ≤ 110
    → r < n
    → q ≤ n
    → type2_from_riv (n * q + r) n vrb
      ≡ (if ltb (sub32 vrb r) (q + 1) then (n - q + 1, n - r - 1) else (q + 1, r))
unfolding type2_from_riv
from_riv_parts n vrb q r hn hr hq =
    rw (div_of_sum n q r hr) (rw (mod_of_sum n q r hr) (ground arith))

-- In a cell of up to 110 resource blocks and at most as many virtual ones, where a run of one block
-- or more lies inside the virtual blocks, and has at most half of the cell's blocks or starts at
-- most one block before the difference of the two numbers, decoding its value gives it back.
pub from_riv-to_riv :
    (l rb n vrb : ℕ)
    → n ≤ 110
    → vrb ≤ n
    → 1 ≤ l
    → rb + l ≤ vrb
    → (l ≤ n / 2) ⊎ (n ≤ vrb + rb + 1)
    → type2_from_riv (type2_to_riv l rb n) n vrb ≡ (l, rb)
from_riv-to_riv l rb n vrb hn hv hl h room = elim (Bool-cases (leb l (n / 2))) [
  | inl short ↦
      rw (riv_short l rb n hn hl (omega arith) (leb→le _ _ short))
        (from_riv_parts n vrb (l - 1) rb hn (omega arith) (omega arith) ∙ ground arith)
  | inr long ↦
      rw (riv_long l rb n hn (omega arith) (leb→gt _ _ long)) (
        from_riv_parts n vrb (n - l + 1) (n - 1 - rb) hn (omega arith) (ground arith)
        ∙ ground arith)
]

-- In a cell of up to 110 resource blocks, for a run of more than half of them that lies inside the
-- virtual blocks and starts more than one block before the difference of the two numbers, the
-- subtraction `nof_vrb - *RB_start` wraps, and another run is decoded, one of `n - l + 2` blocks.
from_riv-to_riv_wraps :
    (l rb n vrb : ℕ)
    → n ≤ 110
    → 1 ≤ l
    → rb + l ≤ vrb
    → n / 2 < l
    → vrb + rb + 1 < n
    → type2_from_riv (type2_to_riv l rb n) n vrb ≡ (n - l + 2, n - 1 - rb)
from_riv-to_riv_wraps l rb n vrb hn hl h long tight =
    rw (riv_long l rb n hn (omega arith) long)
      (from_riv_parts n vrb (n - l + 1) (n - 1 - rb) hn (omega arith) (omega arith) ∙ ground arith)

-- The run that is decoded from the value of another.
unfoldable pub decoded_run : ℕ → ℕ → ℕ → ℕ → ℕ × ℕ
decoded_run l rb n vrb =
    if leb l (n / 2) || leb n (vrb + rb + 1) then (l, rb) else (n - l + 2, n - 1 - rb)

-- In a cell of up to 110 resource blocks and at most as many virtual ones, for each run of one block or
-- more that lies inside the virtual blocks: if it has at most half of the cell's blocks, or starts at
-- most one block before the difference of the two numbers, decoding its value gives it back. If not, the
-- subtraction `nof_vrb - *RB_start` wraps, and another run is decoded, of `n - l + 2` blocks from block
-- `n - 1 - rb` on.
pub from_riv-decoded_run :
    (l rb n vrb : ℕ)
    → n ≤ 110
    → vrb ≤ n
    → 1 ≤ l
    → rb + l ≤ vrb
    → type2_from_riv (type2_to_riv l rb n) n vrb ≡ decoded_run l rb n vrb
unfolding decoded_run
from_riv-decoded_run l rb n vrb hn hv hl h = elim (Bool-cases (leb l (n / 2))) [
  | inl short ↦ rw short (from_riv-to_riv l rb n vrb hn hv hl h (inl (leb→le _ _ short)))
  | inr long ↦ elim (Bool-cases (leb n (vrb + rb + 1))) [
    | inl near ↦ rw long (rw near (from_riv-to_riv l rb n vrb hn hv hl h (inr (leb→le _ _ near))))
    | inr far ↦
        rw long
          (rw far (from_riv-to_riv_wraps l rb n vrb hn hl h (leb→gt _ _ long) (leb→gt _ _ far)))
  ]
]

one_less : (n q : ℕ) → 1 ≤ q → n * q ≡ n * (q - 1) + n
one_less n zero h = absurd (omega arith)
one_less n (suc q) h = let e : suc q - 1 ≡ q = omega arith in rw e (omega arith)

-- In a cell of `n` resource blocks, up to 110, the value of a run of one block or more that lies
-- inside the cell is below `n * (n - n / 2 + 1)`.
to_riv-lt : (l rb n : ℕ) → n ≤ 110 → 1 ≤ l → rb + l ≤ n → type2_to_riv l rb n < n * (n - n / 2 + 1)
to_riv-lt l rb n hn hl h = elim (Bool-cases (leb l (n / 2))) [
  | inl short ↦
      let s = leb→le _ _ short in
      rw (riv_short l rb n hn hl h s) (
        omega (arith, mul-le-mul_left {m = l} {n = n - n / 2 + 1} n (omega arith), one_less n l hl))
  | inr long ↦
      let g = leb→gt _ _ long in
      rw (riv_long l rb n hn h g) (
        omega (
          arith,
          mul-le-mul_left {m = n - l + 2} {n = n - n / 2 + 1} n (omega arith),
          one_less n (n - l + 2) (omega arith),
        ))
]
