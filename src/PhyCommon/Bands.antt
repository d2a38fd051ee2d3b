-- ===== src/PhyCommon/Bands.antt =====
-- The frequency bands of srslte/lib/common/phy_common.c. Frequencies are counted in tenths of a MHz.
pub mod Entries
pub mod Region
use vbbu.Prelude.{
  ℕ, zero, suc, ◌+◌, ◌-◌, ◌^◌, ◌%◌, min, Bool, true, false, Option, none, some, List, [], ◌∷◌, ◌++◌,
  length, leb, ltb, ◌==◌, if◌then◌else◌, u32, sub32,
}
use vbbu.Prelude.Options.{◌>>=◌}

-- `band_geographical_area`
pub data Area : Type 0 where
  all nar apac emea japan cala na : Area

abbrev pub area_number : Area → ℕ
area_number all = 0
area_number nar = 1
area_number apac = 2
area_number emea = 3
area_number japan = 4
area_number cala = 5
area_number na = 6

-- `lte_band`
pub record Band : Type 0 where
  pub band : ℕ
  pub fd_low : ℕ
  pub earfcn_offset : ℕ
  pub earfcn_max : ℕ
  pub area : Area

-- `srslte_earfcn_t`
pub record Earfcn : Type 0 where
  pub id : ℕ
  pub fd : ℕ

abbrev pub row : ℕ → ℕ → ℕ → ℕ → Area → Band
row band fd_low earfcn_offset earfcn_max area = record {
  band = band;
  fd_low = fd_low;
  earfcn_offset = earfcn_offset;
  earfcn_max = earfcn_max;
  area = area;
}

unfoldable pub lte_bands : List Band
lte_bands =
    row 1 21100 0 599 all
    ∷ row 2 19300 600 1199 nar
    ∷ row 3 18050 1200 1949 all
    ∷ row 4 21100 1950 2399 nar
    ∷ row 5 8690 2400 2649 nar
    ∷ row 6 8750 2650 2749 apac
    ∷ row 7 26200 2750 3449 emea
    ∷ row 8 9250 3450 3799 all
    ∷ row 9 18449 3800 4149 apac
    ∷ row 10 21100 4150 4749 nar
    ∷ row 11 14759 4750 4949 japan
    ∷ row 12 7290 5010 5179 nar
    ∷ row 13 7460 5180 5279 nar
    ∷ row 14 7580 5280 5379 nar
    ∷ row 17 7340 5730 5849 nar
    ∷ row 18 8600 5850 5999 japan
    ∷ row 19 8750 6000 6149 japan
    ∷ row 20 7910 6150 6449 emea
    ∷ row 21 14959 6450 6599 japan
    ∷ row 22 35000 6600 7399 na
    ∷ row 23 21800 7500 7699 nar
    ∷ row 24 15250 7700 8039 nar
    ∷ row 25 19300 8040 8689 nar
    ∷ row 26 8590 8690 9039 nar
    ∷ row 27 8520 9040 9209 nar
    ∷ row 28 7580 9210 9659 apac
    ∷ row 29 7170 9660 9769 nar
    ∷ row 30 23500 9770 9869 nar
    ∷ row 31 4625 9870 9919 cala
    ∷ []

-- `get_fd`
unfoldable pub get_fd : Band → ℕ → ℕ
get_fd b earfcn = if leb b.earfcn_offset earfcn then b.fd_low + (earfcn - b.earfcn_offset) else 0

-- The first band that does not begin below a channel.
unfoldable pub band_search : List Band → ℕ → Option Band
band_search [] earfcn = none
band_search (b ∷ bands) earfcn =
    if ltb b.earfcn_offset earfcn then band_search bands earfcn else some b

-- `srslte_band_fd`; `none` is -1.0.
unfoldable pub band_fd : ℕ → Option ℕ
band_fd earfcn = band_search lte_bands earfcn >>= λ b. some (get_fd b earfcn)

-- The band of a number.
unfoldable pub find_band : List Band → ℕ → Option Band
find_band [] band = none
find_band (b ∷ bands) band = if b.band == band then some b else find_band bands band

-- The entries written, with `n` left.
unfoldable pub earfcn_loop : Band → ℕ → ℕ → ℕ → List Earfcn
earfcn_loop b start zero j = []
earfcn_loop b start (suc n) j =
    record { id = j + start; fd = get_fd b (j + start) } ∷ earfcn_loop b start n (j + 1)

-- A bound that is given, or the one of the band for -1; `none` is an error.
unfoldable pub end_of : Band → Option ℕ → Option ℕ
end_of b none = some b.earfcn_max
end_of b (some end) = if ltb b.earfcn_max end then none else some end

unfoldable pub start_of : Band → Option ℕ → Option ℕ
start_of b none = some b.earfcn_offset
start_of b (some start) = if ltb start b.earfcn_offset then none else some start

-- `srslte_band_get_fd_band`, where `none` among the arguments is -1: the entries written, as many as
-- it returns; `none` is SRSLTE_ERROR. The difference of the bounds is taken as a uint32_t.
unfoldable pub get_fd_band : ℕ → Option ℕ → Option ℕ → ℕ → Option (List Earfcn)
get_fd_band band start_earfcn end_earfcn max_elems = find_band lte_bands band >>= λ b.
    end_of b end_earfcn >>= λ end. start_of b start_earfcn >>= λ start.
    some (earfcn_loop b start (min (sub32 end start) max_elems) 0)

-- `srslte_band_get_fd_band_all`
unfoldable pub get_fd_band_all : ℕ → ℕ → Option (List Earfcn)
get_fd_band_all band max_elems = get_fd_band band none none max_elems

-- The loop of `srslte_band_get_fd_region`, which asks for the band with the number `i`.
unfoldable pub region_loop : Area → List Band → ℕ → ℕ → List Earfcn → Option (List Earfcn)
region_loop region [] i max_elems earfcn = some earfcn
region_loop region (b ∷ bands) i zero earfcn = some earfcn
region_loop region (b ∷ bands) i (suc more) earfcn =
    let next = region_loop region bands (i + 1) (suc more) earfcn in
    let asked = get_fd_band i none none (suc more) >>= λ found.
    region_loop region bands (i + 1) (suc more - length found) (earfcn ++ found) in
    if area_number b.area == area_number region then asked else next

-- `srslte_band_get_fd_region`
unfoldable pub get_fd_region : Area → ℕ → Option (List Earfcn)
get_fd_region region max_elems = region_loop region lte_bands 0 max_elems []
