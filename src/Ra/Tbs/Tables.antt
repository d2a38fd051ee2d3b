-- ===== src/Ra/Tbs/Tables.antt =====
-- Facts about the tables of transport block sizes, checked at each entry.
use vbbu.Prelude.{
  ℕ, ◌+◌, ◌≤◌, ◌<◌, ◌≡◌, refl, Bool, true, false, Option, none, some, leb, ◌==◌, ◌&&◌,
  if◌then◌else◌, arith, ==_iff, ap,
}
use vbbu.Prelude.Check.{all_below, all_below_sound, check_range}
use vbbu.Ra.Tbs.{table_entry, tbs_from_idx, max_prb, tbs_idx_from_mcs, mcs_from_tbs_idx, mcs_search}

abbrev grows : ℕ → ℕ → Bool
grows n idx = leb (table_entry idx n) (table_entry (idx + 1) n)

grows_table : all_below 109 (λ k. all_below 26 (grows (k + 2))) ≡ true
unfolding all_below table_entry
grows_table = refl

-- For each number of resource blocks from 2 to 110, both of two neighbouring transport block size
-- indices up to 26 have an entry, and the entry does not decrease with the index.
tbs_from_idx_mono :
    (idx n : ℕ)
    → idx < 26
    → 2 ≤ n
    → n ≤ max_prb
    → (a : ℕ) × (b : ℕ) × (tbs_from_idx idx n ≡ some a)
      × (tbs_from_idx (idx + 1) n ≡ some b)
      × (a ≤ b)
unfolding tbs_from_idx
tbs_from_idx_mono idx n small lo hi =
    let row = check_range 2 109 (λ m. all_below 26 (grows m)) n grows_table lo (omega arith) in
    let e = all_below_sound 26 (grows n) idx row small in
    (table_entry idx n, table_entry (idx + 1) n, ground arith, ground arith, ground (arith, e))

-- Whether an option holds this number.
abbrev holds : Option ℕ → ℕ → Bool
holds none k = false
holds (some x) k = x == k

holds→some : (o : Option ℕ) (k : ℕ) → holds o k ≡ true → o ≡ some k
holds→some none k h = absurd (ground arith)
holds→some (some x) k h = ap some ((==_iff x k).0 h)

-- The least modulation and coding scheme of an index: 9 and 15 have two.
abbrev least_mcs : ℕ → ℕ
least_mcs idx = if leb idx 9 then idx else if leb idx 15 then idx + 1 else idx + 2

abbrev mcs_test : ℕ → Bool
mcs_test idx =
    holds (mcs_from_tbs_idx idx) (least_mcs idx) && holds (tbs_idx_from_mcs (least_mcs idx)) idx

mcs_table : all_below 27 mcs_test ≡ true
unfolding all_below mcs_from_tbs_idx tbs_idx_from_mcs mcs_search
mcs_table = refl

-- Each transport block size index up to 26 has a modulation and coding scheme, and that scheme has
-- this index.
tbs_idx_from_mcs-mcs_from_tbs_idx :
    (idx : ℕ)
    → idx < 27
    → (mcs : ℕ) × (mcs_from_tbs_idx idx ≡ some mcs) × (tbs_idx_from_mcs mcs ≡ some idx)
tbs_idx_from_mcs-mcs_from_tbs_idx idx small =
    let e = all_below_sound 27 mcs_test idx mcs_table small in
    (least_mcs idx, holds→some _ _ (ground (arith, e)), holds→some _ _ (ground (arith, e)))
