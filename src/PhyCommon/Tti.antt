-- ===== src/PhyCommon/Tti.antt =====
-- The interval between two subframes, srslte_tti_interval of srslte/lib/common/phy_common.c.
use vbbu.Prelude.{ℕ, ◌+◌, ◌%◌, ◌≤◌, ◌<◌, ◌≡◌, arith}
use vbbu.PhyCommon.{tti_interval}

-- For two subframe numbers below 10240, the interval is the number of subframes, from 1 to 10240, after
-- which the second number has become the first; equal numbers are a whole period apart.
tti_interval-later :
    (tti1 tti2 : ℕ)
    → tti1 < 10240
    → tti2 < 10240
    → (1 ≤ tti_interval tti1 tti2)
      × (tti_interval tti1 tti2 ≤ 10240)
      × ((tti2 + tti_interval tti1 tti2) % 10240 ≡ tti1)
unfolding tti_interval
tti_interval-later tti1 tti2 h1 h2 = ground arith
