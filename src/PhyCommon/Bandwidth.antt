-- ===== src/PhyCommon/Bandwidth.antt =====
-- The sizes of the symbols and the bandwidths of srslte/lib/common/phy_common.c.
use vbbu.Prelude.{
  ℕ, ◌≡◌, Bool, true, false, Option, none, some, List, [], ◌∷◌, leb, ◌==◌, if◌then◌else◌, arith,
}
use vbbu.Prelude.Options.{◌>>=◌}
use vbbu.PhyCommon.{symbol_sz, symbol_sz_power2, nof_prb, symbol_sz_isvalid}

abbrev bandwidths : List ℕ
bandwidths = 6 ∷ 15 ∷ 25 ∷ 50 ∷ 75 ∷ 100 ∷ []

unfoldable pub least_of : List ℕ → ℕ → Option ℕ
least_of [] n = none
least_of (b ∷ bs) n = if leb n b then some b else least_of bs n

-- The narrowest bandwidth of LTE with room for `n` blocks; there is none without blocks.
unfoldable pub least_bandwidth : ℕ → Option ℕ
least_bandwidth n = if n == 0 then none else least_of bandwidths n

nof_prb-symbol_sz-standard : (n : ℕ) → (symbol_sz true n >>= nof_prb true) ≡ least_bandwidth n
unfolding symbol_sz symbol_sz_power2 nof_prb least_bandwidth least_of
nof_prb-symbol_sz-standard n = ground arith

nof_prb-symbol_sz-reduced : (n : ℕ) → (symbol_sz false n >>= nof_prb false) ≡ least_bandwidth n
unfolding symbol_sz nof_prb least_bandwidth least_of
nof_prb-symbol_sz-reduced n = ground arith

symbol_sz-nof_prb-standard :
    (s : ℕ) {b : ℕ}
    → nof_prb true s ≡ some b
    → (symbol_sz true b ≡ some s) × (symbol_sz_isvalid true s ≡ true)
unfolding symbol_sz symbol_sz_power2 nof_prb symbol_sz_isvalid
symbol_sz-nof_prb-standard s h = ground arith

symbol_sz-nof_prb-reduced :
    (s : ℕ) {b : ℕ}
    → nof_prb false s ≡ some b
    → (symbol_sz false b ≡ some s) × (symbol_sz_isvalid false s ≡ true)
unfolding symbol_sz nof_prb symbol_sz_isvalid
symbol_sz-nof_prb-reduced s h = ground arith

-- For either table of symbol sizes and any number of blocks, the bandwidth that belongs to the symbol
-- size chosen for them is the narrowest of 6, 15, 25, 50, 75 and 100 with room for them. Without
-- blocks, and with more than 100, both are refused.
pub nof_prb-symbol_sz :
    (standard : Bool) (n : ℕ) → (symbol_sz standard n >>= nof_prb standard) ≡ least_bandwidth n
nof_prb-symbol_sz true n = nof_prb-symbol_sz-standard n
nof_prb-symbol_sz false n = nof_prb-symbol_sz-reduced n

-- For either table, a symbol size that has a bandwidth is the one chosen for that bandwidth, and it
-- counts as valid.
symbol_sz-nof_prb :
    (standard : Bool) (s : ℕ) {b : ℕ}
    → nof_prb standard s ≡ some b
    → (symbol_sz standard b ≡ some s) × (symbol_sz_isvalid standard s ≡ true)
symbol_sz-nof_prb true s h = symbol_sz-nof_prb-standard s h
symbol_sz-nof_prb false s h = symbol_sz-nof_prb-reduced s h
