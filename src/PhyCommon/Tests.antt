-- ===== src/PhyCommon/Tests.antt =====
-- The common parameters at concrete values, for srslte/lib/common/phy_common.c.
use vbbu.Prelude.{
  ◌+◌, ◌-◌, ◌≤◌, ◌<◌, min, ◌≡◌, ◌↔◌, true, none, some, List, length, get_elem?, refl, arith,
}
use vbbu.Prelude.Options.{◌>>=◌}
use vbbu.PhyCommon.{
  symbol_sz, nof_prb, sfidx_isvalid, n_id_1_isvalid, n_ta_new, n_ta_new_rar, re_x_prb, tti_interval,
}
use vbbu.PhyCommon.Bandwidth.{least_bandwidth, nof_prb-symbol_sz}
use vbbu.PhyCommon.Bands.{
  Area, Band, Earfcn, all, japan, lte_bands, get_fd, find_band, band_search, start_of, end_of,
  get_fd_band, band_fd, get_fd_region,
}
use vbbu.PhyCommon.Bands.Region.{get_fd_region-refused}
use vbbu.PhyCommon.Bands.Entries.{get_fd_band-entries}

-- A subframe has the index 10, which is one past the last of a frame.
sfidx_isvalid_ten : sfidx_isvalid 10 ≡ true
unfolding sfidx_isvalid
sfidx_isvalid_ten = refl

n_id_1_isvalid_168 : n_id_1_isvalid 168 ≡ true
unfolding n_id_1_isvalid
n_id_1_isvalid_168 = refl

n_ta_new_negative : n_ta_new 16 0 ≡ 0
unfolding n_ta_new
n_ta_new_negative = refl

n_ta_new_rar_capped : n_ta_new_rar 1300 ≡ 20512
unfolding n_ta_new_rar
n_ta_new_rar_capped = refl

re_x_prb_one_port : re_x_prb 3 0 1 7 ≡ 10
unfolding re_x_prb
re_x_prb_one_port = refl

-- The interval of a subframe to itself is a whole period.
tti_interval_same : tti_interval 5 5 ≡ 10240
unfolding tti_interval
tti_interval_same = refl

-- The channel 300 is in the middle of band 1, and has no frequency.
band_fd_middle : band_fd 300 ≡ some 0
unfolding band_fd band_search lte_bands get_fd
band_fd_middle = refl

get_fd_region-refused_example :
    ((get_fd_region all 600 ≡ none) ↔ (0 < 600)) × ((get_fd_region japan 600 ≡ none) ↔ (599 < 600))
get_fd_region-refused_example = get_fd_region-refused 600

-- 51 blocks have no table size of their own: they take the symbols of 75 blocks.
nof_prb-symbol_sz_example : (symbol_sz true 51 >>= nof_prb true) ≡ least_bandwidth 51
nof_prb-symbol_sz_example = nof_prb-symbol_sz true 51

abbrev band12 : Band
band12 = record {
  band = 12;
  fd_low = 7290;
  earfcn_offset = 5010;
  earfcn_max = 5179;
  area = Area.nar;
}

band12_row : find_band lte_bands 12 ≡ some band12
unfolding find_band lte_bands
band12_row = refl

band12_start : start_of band12 (some 5100) ≡ some 5100
unfolding start_of
band12_start = refl

band12_end : end_of band12 none ≡ some 5179
unfolding end_of
band12_end = refl

get_fd_band-entries_example :
    (found : List Earfcn) × (get_fd_band 12 (some 5100) none 100 ≡ some found)
    × (length found ≡ min (5179 - 5100) 100)
    × (get_elem? found 78 ≡ some (record { id = 5100 + 78; fd = 7290 + (5100 + 78 - 5010) }))
    × (band12.band ≡ 12)
    × (5010 ≤ 5100 + 78)
    × (5100 + 78 < 5179)
get_fd_band-entries_example =
    get_fd_band-entries 12 100 78 (some 5100) none band12_row band12_start band12_end (omega arith)
      (omega arith)
