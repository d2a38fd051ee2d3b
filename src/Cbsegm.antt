-- ===== src/Cbsegm.antt =====
-- Code block segmentation, srslte/lib/fec/cbsegm.c. `none` is the SRSLTE_ERROR (-1) of the
-- functions that return an index or a size. The ceiling is computed in `float` by the source, which
-- is exact for transport blocks below 2 ^ 23 bits.
pub mod Table
pub mod Split
pub mod Result
pub mod Segment
pub mod Filler
mod Tests
use vbbu.Prelude.{
  ℕ, zero, suc, ◌+◌, ◌-◌, ◌*◌, ◌/◌, Bool, true, false, Option, none, some, List, [], ◌∷◌, get_elem?,
  ltb, leb, ◌==◌, if◌then◌else◌, u32, sub32, ceil_div, Status, success, error,
}

-- `srslte_cbsegm_t`
pub record Segm : Type 0 where
  pub f : ℕ
  pub c : ℕ
  pub k1 : ℕ
  pub k2 : ℕ
  pub k1_idx : ℕ
  pub k2_idx : ℕ
  pub c1 : ℕ
  pub c2 : ℕ
  pub tbs : ℕ

-- `SRSLTE_NOF_TC_CB_SIZES` and `SRSLTE_TCOD_MAX_LEN_CB`
abbrev pub nof_tc_cb_sizes : ℕ
nof_tc_cb_sizes = 188

abbrev pub max_len_cb : ℕ
max_len_cb = 6144

unfoldable pub tc_cb_sizes : List ℕ
tc_cb_sizes =
    40 ∷ 48 ∷ 56 ∷ 64 ∷ 72 ∷ 80 ∷ 88 ∷ 96 ∷ 104 ∷ 112 ∷ 120 ∷ 128 ∷ 136 ∷ 144 ∷ 152 ∷ 160 ∷ 168
    ∷ 176 ∷ 184 ∷ 192 ∷ 200 ∷ 208 ∷ 216 ∷ 224 ∷ 232 ∷ 240 ∷ 248 ∷ 256 ∷ 264 ∷ 272 ∷ 280 ∷ 288 ∷ 296
    ∷ 304 ∷ 312 ∷ 320 ∷ 328 ∷ 336 ∷ 344 ∷ 352 ∷ 360 ∷ 368 ∷ 376 ∷ 384 ∷ 392 ∷ 400 ∷ 408 ∷ 416 ∷ 424
    ∷ 432 ∷ 440 ∷ 448 ∷ 456 ∷ 464 ∷ 472 ∷ 480 ∷ 488 ∷ 496 ∷ 504 ∷ 512 ∷ 528 ∷ 544 ∷ 560 ∷ 576 ∷ 592
    ∷ 608 ∷ 624 ∷ 640 ∷ 656 ∷ 672 ∷ 688 ∷ 704 ∷ 720 ∷ 736 ∷ 752 ∷ 768 ∷ 784 ∷ 800 ∷ 816 ∷ 832 ∷ 848
    ∷ 864 ∷ 880 ∷ 896 ∷ 912 ∷ 928 ∷ 944 ∷ 960 ∷ 976 ∷ 992 ∷ 1008 ∷ 1024 ∷ 1056 ∷ 1088 ∷ 1120 ∷ 1152
    ∷ 1184 ∷ 1216 ∷ 1248 ∷ 1280 ∷ 1312 ∷ 1344 ∷ 1376 ∷ 1408 ∷ 1440 ∷ 1472 ∷ 1504 ∷ 1536 ∷ 1568
    ∷ 1600 ∷ 1632 ∷ 1664 ∷ 1696 ∷ 1728 ∷ 1760 ∷ 1792 ∷ 1824 ∷ 1856 ∷ 1888 ∷ 1920 ∷ 1952 ∷ 1984
    ∷ 2016 ∷ 2048 ∷ 2112 ∷ 2176 ∷ 2240 ∷ 2304 ∷ 2368 ∷ 2432 ∷ 2496 ∷ 2560 ∷ 2624 ∷ 2688 ∷ 2752
    ∷ 2816 ∷ 2880 ∷ 2944 ∷ 3008 ∷ 3072 ∷ 3136 ∷ 3200 ∷ 3264 ∷ 3328 ∷ 3392 ∷ 3456 ∷ 3520 ∷ 3584
    ∷ 3648 ∷ 3712 ∷ 3776 ∷ 3840 ∷ 3904 ∷ 3968 ∷ 4032 ∷ 4096 ∷ 4160 ∷ 4224 ∷ 4288 ∷ 4352 ∷ 4416
    ∷ 4480 ∷ 4544 ∷ 4608 ∷ 4672 ∷ 4736 ∷ 4800 ∷ 4864 ∷ 4928 ∷ 4992 ∷ 5056 ∷ 5120 ∷ 5184 ∷ 5248
    ∷ 5312 ∷ 5376 ∷ 5440 ∷ 5504 ∷ 5568 ∷ 5632 ∷ 5696 ∷ 5760 ∷ 5824 ∷ 5888 ∷ 5952 ∷ 6016 ∷ 6080
    ∷ 6144 ∷ []

-- The loop of `srslte_cbsegm_cbindex`: the position at which it stops.
unfoldable pub size_search : List ℕ → ℕ → ℕ
size_search [] long_cb = 0
size_search (x ∷ xs) long_cb =
    let later = size_search xs long_cb in if ltb x long_cb then suc later else 0

-- `srslte_cbsegm_cbindex`
unfoldable pub cbindex : ℕ → Option ℕ
cbindex long_cb =
    let j = size_search tc_cb_sizes long_cb in if j == nof_tc_cb_sizes then none else some j

-- `srslte_cbsegm_cbsize`
unfoldable pub cbsize : ℕ → Option ℕ
cbsize index = if ltb index nof_tc_cb_sizes then get_elem? tc_cb_sizes index else none

-- The loop of `srslte_cbsegm_cbsize_isvalid`.
unfoldable pub has_size : List ℕ → ℕ → Bool
has_size [] size = false
has_size (x ∷ xs) size = let later = has_size xs size in if x == size then true else later

-- `srslte_cbsegm_cbsize_isvalid`
unfoldable pub cbsize_isvalid : ℕ → Bool
cbsize_isvalid size = has_size tc_cb_sizes size

-- The numbers of blocks of the two sizes, `K2` being the size below `K1`.
unfoldable pub split : Segm → ℕ → ℕ → Segm
split s bp k2 =
    if s.c == 1
    then record s { k2 = 0; k2_idx = 0; c2 = 0; c1 = 1 }
    else let c2 = sub32 (u32 (s.c * s.k1)) bp / sub32 s.k1 k2 in
      record s { k2 = k2; k2_idx = sub32 s.k1_idx 1; c2 = c2; c1 = sub32 s.c c2 }

-- `F`
unfoldable pub fill : Segm → ℕ → Segm
fill s bp = record s { f = sub32 (u32 (s.c1 * s.k1 + s.c2 * s.k2)) bp }

-- `srslte_cbsegm` behind the call of `srslte_cbsegm_cbindex`, from its result on.
unfoldable pub sizes : Segm → ℕ → Option ℕ → Status × Segm
sizes s bp none = (error, s)
sizes s bp (some idx1) = elim (cbsize idx1) [
  | none ↦ (error, s)
  | some k1 ↦
      let s' : Segm = record s { k1 = k1; k1_idx = idx1 } in
      elim (if ltb 0 idx1 then cbsize (idx1 - 1) else some k1) [
        | none ↦ (error, s')
        | some k2 ↦ (success, fill (split s' bp k2) bp)
      ]
]

-- `C` and `Bp`, from `B`.
unfoldable pub blocks : ℕ → ℕ
blocks b = if leb b max_len_cb then 1 else ceil_div b (max_len_cb - 24)

unfoldable pub with_crc : ℕ → ℕ
unfolding blocks
with_crc b = if leb b max_len_cb then b else u32 (b + 24 * blocks b)

-- `srslte_cbsegm`
unfoldable pub cbsegm : Segm → ℕ → Status × Segm
cbsegm s tbs =
    if tbs == 0
    then (
      success,
      record s { f = 0; c = 0; k1 = 0; k2 = 0; k1_idx = 0; k2_idx = 0; c1 = 0; c2 = 0; tbs = 0 },
    )
    else let b = u32 (tbs + 24) in
      let bp = with_crc b in
      sizes (record s { tbs = tbs; c = blocks b }) bp (cbindex (u32 (sub32 bp 1 / blocks b + 1)))
