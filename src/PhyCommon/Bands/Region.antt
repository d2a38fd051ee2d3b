-- ===== src/PhyCommon/Bands/Region.antt =====
-- The channels of a region, srslte_band_get_fd_region of srslte/lib/common/phy_common.c.
use vbbu.Prelude.{
  ℕ, zero, suc, ◌+◌, ◌-◌, ◌<◌, min, ◌≡◌, ◌↔◌, none, some, List, [], length, drop, refl, arith, ◌∙◌,
  ap, Bool-cases, ltb, ltb→lt, ltb→ge, inl, inr,
}
use vbbu.Prelude.Options.{◌>>=◌}
use vbbu.PhyCommon.Bands.{
  Band, Earfcn, Area, all, japan, nar, row, lte_bands, find_band, start_of, end_of, earfcn_loop,
  get_fd_band, region_loop, get_fd_region,
}
use vbbu.PhyCommon.Bands.Entries.{length-earfcn_loop, get_fd_band-run}

region_all_none : (m : ℕ) → get_fd_region all (suc m) ≡ none
unfolding get_fd_region region_loop get_fd_band lte_bands find_band
region_all_none m = refl

region_zero : (region : Area) → get_fd_region region 0 ≡ some []
unfolding get_fd_region region_loop lte_bands
region_zero region = refl

-- The first band of the region stands in row 10: band 10 is asked for, which is none of Japan.
region_japan_first :
    (m : ℕ)
    → get_fd_region japan (suc m) ≡ (
        get_fd_band 10 none none (suc m) >>= λ found.
        region_loop japan (drop 11 lte_bands) 11 (suc m - length found) found)
unfolding get_fd_region region_loop lte_bands
region_japan_first m = refl

abbrev band10 : Band
band10 = row 10 21100 4150 4749 nar

band10_row : find_band lte_bands 10 ≡ some band10
unfolding find_band lte_bands
band10_row = refl

band10_start : start_of band10 none ≡ some 4150
unfolding start_of
band10_start = refl

band10_end : end_of band10 none ≡ some 4749
unfolding end_of
band10_end = refl

region_japan_run :
    (m : ℕ) → get_fd_band 10 none none (suc m) ≡ some (earfcn_loop band10 4150 (min 599 (suc m)) 0)
region_japan_run m =
    get_fd_band-run 10 (suc m) none none {b = band10} band10_row band10_start band10_end

-- Another one stands in row 15, and there is no band 15.
region_japan_rest :
    (k : ℕ) (found : List Earfcn) → region_loop japan (drop 11 lte_bands) 11 (suc k) found ≡ none
unfolding region_loop lte_bands get_fd_band find_band
region_japan_rest k found = refl

region_japan_full :
    (found : List Earfcn) → region_loop japan (drop 11 lte_bands) 11 0 found ≡ some found
unfolding region_loop lte_bands
region_japan_full found = refl

region_japan_split :
    (m : ℕ)
    → get_fd_region japan (suc m)
      ≡ region_loop japan
          (drop 11 lte_bands)
          11
          (suc m - min 599 (suc m))
          (earfcn_loop band10 4150 (min 599 (suc m)) 0)
region_japan_split m =
    let n = length-earfcn_loop band10 4150 (min 599 (suc m)) 0 in
    region_japan_first m
    ∙ rw (region_japan_run m) (
        ap
          (λ k.
            region_loop japan (drop 11 lte_bands) 11 (suc m - k)
              (earfcn_loop band10 4150 (min 599 (suc m)) 0))
          n)

region_japan_fits :
    (m : ℕ)
    → m < 599
    → get_fd_region japan (suc m) ≡ some (earfcn_loop band10 4150 (min 599 (suc m)) 0)
region_japan_fits m h =
    let left : suc m - min 599 (suc m) ≡ 0 = omega arith in
    let full = region_japan_full (earfcn_loop band10 4150 (min 599 (suc m)) 0) in
    region_japan_split m ∙ rw left full

region_japan_none : (m k : ℕ) → suc m ≡ 599 + suc k → get_fd_region japan (suc m) ≡ none
region_japan_none m k h =
    let left : suc m - min 599 (suc m) ≡ suc k = omega arith in
    region_japan_split m
    ∙ rw left (region_japan_rest k (earfcn_loop band10 4150 (min 599 (suc m)) 0))

-- For each number of channels asked for, the search in the region `all` is refused exactly if that
-- is one or more, and the search in the region of Japan exactly if it is more than 599. The row of a
-- band in the table is asked for in place of its number, and there are no bands 0 and 15.
pub get_fd_region-refused :
    (max : ℕ)
    → ((get_fd_region all max ≡ none) ↔ (0 < max))
      × ((get_fd_region japan max ≡ none) ↔ (599 < max))
get_fd_region-refused zero = ground (arith, region_zero all, region_zero japan)
get_fd_region-refused (suc m) = elim (Bool-cases (ltb m 599)) [
  | inl short ↦ ground (arith, region_all_none m, region_japan_fits m (ltb→lt m 599 short))
  | inr long ↦ ground (
    arith,
    region_all_none m,
    region_japan_none m (m - 599) (let past = ltb→ge m 599 long in omega arith),
  )
]
