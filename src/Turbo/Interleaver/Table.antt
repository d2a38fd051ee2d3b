-- ===== src/Turbo/Interleaver/Table.antt =====
-- The two tables of coefficients, row by row, against the code block sizes.
use native.Mathlib.Nat.{mod-eq_of_lt, mul-le-mul}
use vbbu.Prelude.{
  ℕ, zero, suc, ◌+◌, ◌*◌, ◌%◌, ◌^◌, ◌≤◌, ◌<◌, ◌≡◌, refl, sym, ap, ◌∙◌, Bool, true, false, ◌&&◌,
  some, get_or, leb, get_or-get_elem?, ◌==◌, arith,
}
use vbbu.Prelude.Check.{all_below, all_below_sound}
use vbbu.Cbsegm.{tc_cb_sizes, cbsize}
use vbbu.Cbsegm.Table.{cbsize_bounds, cbsize_entry}
use vbbu.Turbo.Interleaver.{f1_list, f2_list, position}
use vbbu.Turbo.Interleaver.Divisors.{quadratic_inj}

-- The least number from `v` on that inverts `f` modulo `k`, among `n` of them.
inverse_search : ℕ → ℕ → ℕ → ℕ → ℕ
inverse_search f k zero v = v
inverse_search f k (suc n) v = elim (f * v % k == 1) [
  | true ↦ v
  | false ↦ inverse_search f k n (v + 1)
]

row_ok : ℕ → Bool
unfolding inverse_search
row_ok index =
    let k = get_or tc_cb_sizes index 0 in
    let f1 = get_or f1_list index 0 in
    let f2 = get_or f2_list index 0 in
    (f1 * inverse_search f1 k k 0 % k == 1)
    && (f2 ^ 7 % k == 0)
    && leb f1 1000
    && leb f2 1000
    && leb k 6144
    && leb 2 k

rows_ok : all_below 188 row_ok ≡ true
unfolding all_below row_ok inverse_search tc_cb_sizes f1_list f2_list
rows_ok = refl

-- What a row of the tables is, for a block of `k` bits.
pub record Row (k f1 f2 : ℕ) : Type 0 where
  pub inverse : ℕ
  pub has_inverse : f1 * inverse % k ≡ 1
  pub nilpotent : f2 ^ 7 % k ≡ 0
  pub f1_small : f1 ≤ 1000
  pub f2_small : f2 ≤ 1000
  pub k_small : k ≤ 6144
  pub k_large : 2 ≤ k

Row_of_ok :
    (index : ℕ)
    → row_ok index ≡ true
    → Row (get_or tc_cb_sizes index 0) (get_or f1_list index 0) (get_or f2_list index 0)
unfolding row_ok
Row_of_ok index h = record {
  inverse =
      inverse_search (get_or f1_list index 0) (get_or tc_cb_sizes index 0)
        (get_or tc_cb_sizes index 0) 0;
  has_inverse = ground arith;
  nilpotent = ground arith;
  f1_small = ground arith;
  f2_small = ground arith;
  k_small = ground arith;
  k_large = ground arith;
}

abbrev IsRow : ℕ → ℕ → Type 0
IsRow index k = Row k (get_or f1_list index 0) (get_or f2_list index 0)

pub cbsize-index :
    (index k : ℕ) → cbsize index ≡ some k → (index < 188) × (get_or tc_cb_sizes index 0 ≡ k)
cbsize-index index k e =
    ((cbsize_bounds index k e).0, get_or-get_elem? tc_cb_sizes index k 0 (cbsize_entry index k e))

-- Each code block size has its row.
pub cbsize-Row : (index k : ℕ) → cbsize index ≡ some k → IsRow index k
cbsize-Row index k e =
    let (small, at) = cbsize-index index k e in
    rw at at (Row_of_ok index (all_below_sound 188 row_ok index rows_ok small))

-- No value is computed that does not fit in 64 bits.
position_exact :
    (f1 f2 k i : ℕ) → Row k f1 f2 → i < k → position f1 f2 k i ≡ (f1 * i + f2 * i * i) % k
unfolding position
position_exact f1 f2 k i r h =
    ap (λ (t : ℕ). t % k)
      (mod-eq_of_lt {n = f1 * i + f2 * i * i} {m = 2 ^ 64} (
        fits (mul-le-mul {n₁ = f1} {m₁ = i} {n₂ = 1000} {m₂ = 6144} r.f1_small (omega arith)) (
          mul-le-mul {n₁ = f2 * i} {m₁ = i} {n₂ = 6144000} {m₂ = 6144}
            (mul-le-mul {n₁ = f2} {m₁ = i} {n₂ = 1000} {m₂ = 6144} r.f2_small (omega arith))
            (omega arith))))
  where
    fits : f1 * i ≤ 6144000 → f2 * i * i ≤ 37748736000 → f1 * i + f2 * i * i < 2 ^ 64
    fits a b = omega arith

-- The positions of a row are different.
pub position_inj :
    (f1 f2 k i j : ℕ)
    → Row k f1 f2
    → i < k
    → j < k
    → position f1 f2 k i ≡ position f1 f2 k j
    → i ≡ j
position_inj f1 f2 k i j r hi hj same =
    quadratic_inj k f1 f2 r.inverse 7 i j r.has_inverse r.nilpotent hi hj
      (sym (position_exact f1 f2 k i r hi) ∙ same ∙ position_exact f1 f2 k j r hj)
