-- ===== src/Cqi.antt =====
-- Channel quality reports, srslte/lib/phch/cqi.c: what is packed for a report, when a periodic report
-- is sent, and the subbands of a cell. The ceiling is computed in `float` by the source, which is
-- exact for these numbers.
pub mod Packed
pub mod Period
mod Tests
use vbbu.Prelude.{
  ℕ, ◌+◌, ◌-◌, ◌*◌, ◌/◌, ◌%◌, Bool, true, false, Option, none, some, List, ◌++◌, ltb, leb, ◌==◌,
  if◌then◌else◌, sub32, ceil_div, u32,
}
use vbbu.Bit.{unpack}

-- `srslte_cqi_hl_subband_t`
pub record HlSubband : Type 0 where
  pub wideband_cqi : ℕ
  pub subband_diff_cqi : ℕ
  pub n : ℕ

-- `srslte_cqi_ue_subband_t`
pub record UeSubband : Type 0 where
  pub wideband_cqi : ℕ
  pub subband_diff_cqi : ℕ
  pub position_subband : ℕ
  pub l : ℕ

-- `srslte_cqi_format2_wideband_t`
pub record Format2Wideband : Type 0 where
  pub wideband_cqi : ℕ

-- `srslte_cqi_format2_subband_t`
pub record Format2Subband : Type 0 where
  pub subband_cqi : ℕ
  pub subband_label : ℕ
  pub subband_label_2_bits : Bool

-- `srslte_cqi_value_t`
pub data CqiValue : Type 0 where
  wideband : Format2Wideband → CqiValue
  subband : Format2Subband → CqiValue
  subband_ue : UeSubband → CqiValue
  subband_hl : HlSubband → CqiValue

-- `srslte_cqi_hl_subband_pack`: the return value, and the bits written.
unfoldable pub hl_subband_pack : HlSubband → ℕ × List ℕ
hl_subband_pack msg = (
  u32 (4 + 2 * msg.n),
  unpack msg.wideband_cqi 4 ++ unpack msg.subband_diff_cqi (u32 (2 * msg.n)),
)

-- `srslte_cqi_ue_subband_pack`
unfoldable pub ue_subband_pack : UeSubband → ℕ × List ℕ
ue_subband_pack msg = (
  u32 (4 + 2 + msg.l),
  unpack msg.wideband_cqi 4 ++ (unpack msg.subband_diff_cqi 2 ++ unpack msg.subband_diff_cqi msg.l),
)

-- `srslte_cqi_format2_wideband_pack`
unfoldable pub format2_wideband_pack : Format2Wideband → ℕ × List ℕ
format2_wideband_pack msg = (4, unpack msg.wideband_cqi 4)

-- `4+(msg->subband_label_2_bits)?2:1` tests the sum.
unfoldable pub format2_subband_pack : Format2Subband → ℕ × List ℕ
format2_subband_pack msg = (
  if 4 + (if msg.subband_label_2_bits then 1 else 0) == 0 then 1 else 2,
  unpack msg.subband_cqi 4 ++ unpack msg.subband_label (if msg.subband_label_2_bits then 2 else 1),
)

-- `srslte_cqi_value_pack`
unfoldable pub value_pack : CqiValue → ℕ × List ℕ
value_pack (wideband msg) = format2_wideband_pack msg
value_pack (subband msg) = format2_subband_pack msg
value_pack (subband_ue msg) = ue_subband_pack msg
value_pack (subband_hl msg) = hl_subband_pack msg

-- `N_p` and `N_offset`, where `srslte_cqi_send` gets beyond its table.
unfoldable pub period : ℕ → Option (ℕ × ℕ)
period i =
    if leb i 1
    then some (2, i)
    else if leb i 6
    then some (5, i - 2)
    else if leb i 16
    then some (10, i - 7)
    else if leb i 36
    then some (20, i - 17)
    else if leb i 76
    then some (40, i - 37)
    else if leb i 156
    then some (80, i - 77)
    else if leb i 316
    then some (160, i - 157)
    else if i == 317
    then none
    else if leb i 349
    then some (32, i - 318)
    else if leb i 413
    then some (64, i - 350)
    else if leb i 541
    then some (128, i - 414)
    else none

-- `srslte_cqi_send`
unfoldable pub cqi_send : ℕ → ℕ → Bool
cqi_send i tti = elim (period i) [
  | none ↦ false
  | some (n_p, n_offset) ↦ sub32 tti n_offset % n_p == 0
]

-- `srslte_cqi_hl_get_subband_size`; `none` is its -1.
unfoldable pub hl_get_subband_size : ℕ → Option ℕ
hl_get_subband_size nof_prb =
    if ltb nof_prb 7
    then some 0
    else if leb nof_prb 26
    then some 4
    else if leb nof_prb 63
    then some 6
    else if leb nof_prb 110
    then some 8
    else none

-- `srslte_cqi_hl_get_no_subbands`
unfoldable pub hl_get_no_subbands : ℕ → ℕ
hl_get_no_subbands nof_prb = elim (hl_get_subband_size nof_prb) [
  | none ↦ 0
  | some hl_size ↦ if ltb 0 hl_size then ceil_div nof_prb hl_size else 0
]
