-- ===== src/Ra/Tbs.antt =====
-- The transport block sizes of srslte/lib/phch/tbs_tables.h and their lookup in
-- srslte/lib/phch/ra.c. `none` is the SRSLTE_ERROR (-1) of the source.
mod Low
mod High
pub mod Search
pub mod Tables
use vbbu.Prelude.{
  ℕ, zero, suc, ◌+◌, ◌-◌, ◌≤◌, Bool, Option, none, some, List, [], ◌∷◌, get_elem?, get_or, ltb, leb,
  ◌==◌, ◌&&◌, if◌then◌else◌,
}
use vbbu.Ra.Tbs.Low.*
use vbbu.Ra.Tbs.High.*

-- `SRSLTE_MAX_PRB`
abbrev pub max_prb : ℕ
max_prb = 110

unfoldable pub tbs_table : List (List ℕ)
tbs_table =
    tbs_0 ∷ tbs_1 ∷ tbs_2 ∷ tbs_3 ∷ tbs_4 ∷ tbs_5 ∷ tbs_6 ∷ tbs_7 ∷ tbs_8 ∷ tbs_9 ∷ tbs_10 ∷ tbs_11
    ∷ tbs_12 ∷ tbs_13 ∷ tbs_14 ∷ tbs_15 ∷ tbs_16 ∷ tbs_17 ∷ tbs_18 ∷ tbs_19 ∷ tbs_20 ∷ tbs_21
    ∷ tbs_22 ∷ tbs_23 ∷ tbs_24 ∷ tbs_25 ∷ tbs_26 ∷ []

unfoldable pub tbs_format1c_table : List ℕ
tbs_format1c_table =
    40 ∷ 56 ∷ 72 ∷ 120 ∷ 136 ∷ 144 ∷ 176 ∷ 208 ∷ 224 ∷ 256 ∷ 280 ∷ 296 ∷ 328 ∷ 336 ∷ 392 ∷ 488 ∷ 552
    ∷ 600 ∷ 632 ∷ 696 ∷ 776 ∷ 840 ∷ 904 ∷ 1000 ∷ 1064 ∷ 1128 ∷ 1224 ∷ 1288 ∷ 1384 ∷ 1480 ∷ 1608
    ∷ 1736 ∷ []

unfoldable pub mcs_tbs_idx_table : List ℕ
mcs_tbs_idx_table =
    0 ∷ 1 ∷ 2 ∷ 3 ∷ 4 ∷ 5 ∷ 6 ∷ 7 ∷ 8 ∷ 9 ∷ 9 ∷ 10 ∷ 11 ∷ 12 ∷ 13 ∷ 14 ∷ 15 ∷ 15 ∷ 16 ∷ 17 ∷ 18 ∷ 19
    ∷ 20 ∷ 21 ∷ 22 ∷ 23 ∷ 24 ∷ 25 ∷ 26 ∷ []

-- `srslte_ra_tbs_idx_from_mcs`
unfoldable pub tbs_idx_from_mcs : ℕ → Option ℕ
unfolding mcs_tbs_idx_table
tbs_idx_from_mcs mcs = if ltb mcs 29 then get_elem? mcs_tbs_idx_table mcs else none

-- The loop of `srslte_ra_mcs_from_tbs_idx` from position `i` of the table on.
unfoldable pub mcs_search : List ℕ → ℕ → ℕ → Option ℕ
mcs_search [] tbs_idx i = none
mcs_search (x ∷ xs) tbs_idx i =
    let later = mcs_search xs tbs_idx (suc i) in if tbs_idx == x then some i else later

-- `srslte_ra_mcs_from_tbs_idx`
unfoldable pub mcs_from_tbs_idx : ℕ → Option ℕ
unfolding mcs_tbs_idx_table
mcs_from_tbs_idx tbs_idx = mcs_search mcs_tbs_idx_table tbs_idx 0

-- `tbs_table[tbs_idx][n_prb - 1]`; both indices are in range where it is used.
unfoldable pub table_entry : ℕ → ℕ → ℕ
unfolding tbs_table
table_entry tbs_idx n_prb = get_or (get_or tbs_table tbs_idx []) (n_prb - 1) 0

-- `srslte_ra_tbs_from_idx`
unfoldable pub tbs_from_idx : ℕ → ℕ → Option ℕ
tbs_from_idx tbs_idx n_prb =
    if ltb tbs_idx 27 && (ltb 0 n_prb && leb n_prb max_prb)
    then some (table_entry tbs_idx n_prb)
    else none

-- The loop of `srslte_ra_tbs_to_table_idx` over the `n` positions from `idx` on.
unfoldable pub row_search : ℕ → ℕ → ℕ → ℕ → Option ℕ
row_search zero idx tbs n_prb = none
row_search (suc n) idx tbs n_prb =
    let later = row_search n (suc idx) tbs n_prb in
    if leb (table_entry idx n_prb) tbs && leb tbs (table_entry (idx + 1) n_prb)
    then some (idx + 1)
    else later

-- `srslte_ra_tbs_to_table_idx`
unfoldable pub tbs_to_table_idx : ℕ → ℕ → Option ℕ
tbs_to_table_idx tbs n_prb =
    if ltb 0 n_prb && leb n_prb max_prb
    then (if leb tbs (table_entry 0 n_prb)
        then some 0
        else if leb (table_entry 26 n_prb) tbs
        then some 27
        else row_search 26 0 tbs n_prb)
    else none
