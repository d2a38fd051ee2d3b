-- ===== src/Ra/Gap.antt =====
-- The number of distributed virtual resource blocks.
use vbbu.Prelude.{ℕ, ◌+◌, ◌≤◌, ◌<◌, ◌≡◌, refl, Bool, true, false, leb, ltb, arith}
use vbbu.Prelude.Check.{all_below, check_range}
use vbbu.Ra.Type2.{type2_n_vrb_dl, type2_ngap}

abbrev gap1_fits : ℕ → Bool
gap1_fits n = leb (type2_n_vrb_dl n true) n

abbrev gap2_exceeds : ℕ → Bool
gap2_exceeds n = ltb n (type2_n_vrb_dl n false)

gap1_table : all_below 110 (λ k. gap1_fits (k + 1)) ≡ true
unfolding all_below type2_n_vrb_dl type2_ngap
gap1_table = refl

gap2_table : all_below 61 (λ k. gap2_exceeds (k + 50)) ≡ true
unfolding all_below type2_n_vrb_dl type2_ngap
gap2_table = refl

-- At gap 1 a cell of up to 110 resource blocks has at most as many distributed virtual blocks as
-- blocks; at gap 2, which exists from 50 blocks on, the computed number is larger than the cell.
type2_n_vrb_dl-gaps :
    (n : ℕ) → 1 ≤ n → n ≤ 110 → (type2_n_vrb_dl n true ≤ n) × (50 ≤ n → n < type2_n_vrb_dl n false)
type2_n_vrb_dl-gaps n lo hi = (
  ground (arith, check_range 1 110 gap1_fits n gap1_table),
  λ wide. ground (arith, check_range 50 61 gap2_exceeds n gap2_table),
)
