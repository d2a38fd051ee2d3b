-- ===== src/Cqi/Tests.antt =====
-- Channel quality reports at concrete values, for srslte/lib/phch/cqi.c.
use vbbu.Prelude.{◌%◌, ◌≤◌, ◌<◌, ◌≡◌, ◌↔◌, refl, true, some, [], ◌∷◌, arith}
use vbbu.Bit.{unpack}
use vbbu.Cqi.{
  HlSubband, subband, subband_ue, value_pack, ue_subband_pack, format2_subband_pack, period,
  cqi_send, hl_get_subband_size, hl_get_no_subbands,
}
use vbbu.Cqi.Period.{counted, cqi_send-period}

-- Six bits are written, and the return value is 2.
value_pack_subband :
    value_pack
      (subband (record { subband_cqi = 9; subband_label = 1; subband_label_2_bits = true }))
    ≡ (2, 1 ∷ 0 ∷ 0 ∷ 1 ∷ 0 ∷ 1 ∷ [])
unfolding value_pack format2_subband_pack unpack
value_pack_subband = refl

-- The position of the subband is not among the bits: they are the same for 0 and for 7.
value_pack_subband_ue :
    value_pack
      (subband_ue (record { wideband_cqi = 9; subband_diff_cqi = 2; position_subband = 0; l = 3 }))
    ≡ value_pack (
        subband_ue (record { wideband_cqi = 9; subband_diff_cqi = 2; position_subband = 7; l = 3 }))
unfolding value_pack ue_subband_pack
value_pack_subband_ue = refl

-- With period 5 and offset 4, a report is sent in subframe 3 of the first frame.
cqi_send_early : cqi_send 6 3 ≡ true
unfolding cqi_send period
cqi_send_early = refl

abbrev report : HlSubband
report = record { wideband_cqi = 11; subband_diff_cqi = 0x2d; n = 4 }

period_6 : period 6 ≡ some (5, 4)
unfolding period
period_6 = refl

cqi_send-period_example : ((cqi_send 6 3 ≡ true) ↔ (counted 3 4 % 5 ≡ 4)) × (4 < 5) × (5 ≤ 160)
cqi_send-period_example = cqi_send-period 6 3 5 4 (omega arith) period_6 (omega arith)

-- Fifty resource blocks have nine subbands, the last of two blocks.
hl_get_no_subbands_run : hl_get_no_subbands 50 ≡ 9
unfolding hl_get_no_subbands hl_get_subband_size
hl_get_no_subbands_run = refl
