-- ===== src/Cbsegm/Tests.antt =====
-- Code block segmentation at concrete values, for srslte/lib/fec/cbsegm.c.
use vbbu.Prelude.{ℕ, ◌≤◌, ◌<◌, ◌≡◌, some, arith, success, refl}
use vbbu.Ra.Tbs.{tbs_from_idx}
use vbbu.Cbsegm.{
  Segm, cbsegm, cbindex, cbsize, tc_cb_sizes, size_search, sizes, split, fill, blocks, with_crc,
}
use vbbu.Cbsegm.Table.{cbindex-least}
use vbbu.Cbsegm.Result.{IsSegmentation}
use vbbu.Cbsegm.Segment.{cbsegm-IsSegmentation}
use vbbu.Cbsegm.Filler.{cbsegm-tbs_from_idx}

abbrev cleared : Segm
cleared = record { f = 0; c = 0; k1 = 0; k2 = 0; k1_idx = 0; k2_idx = 0; c1 = 0; c2 = 0; tbs = 0 }

-- 20000 bits go to four blocks, three of the larger size, with 40 filler bits.
cbsegm_20000 : cbsegm cleared 20000 ≡ (
  success,
  record {
    f = 40;
    c = 4;
    k1 = 5056;
    k2 = 4992;
    k1_idx = 170;
    k2_idx = 169;
    c1 = 3;
    c2 = 1;
    tbs = 20000;
  },
)
unfolding cbsegm cbindex cbsize size_search tc_cb_sizes sizes split fill blocks with_crc
cbsegm_20000 = refl

cbsegm-IsSegmentation_example :
    (s' : Segm) × (cbsegm cleared 20000 ≡ (success, s')) × IsSegmentation 20000 s'
cbsegm-IsSegmentation_example = cbsegm-IsSegmentation cleared 20000 (omega arith) (omega arith)

cbindex-least_example :
    (j : ℕ) × (k : ℕ) × (cbindex 1000 ≡ some j)
    × (cbsize j ≡ some k)
    × (1000 ≤ k)
    × ((i y : ℕ) → i < j → cbsize i ≡ some y → y < 1000)
cbindex-least_example = cbindex-least 1000 (omega arith)

cbsegm-tbs_from_idx_example :
    (tbs : ℕ) × (s' : Segm) × (tbs_from_idx 20 50 ≡ some tbs)
    × (cbsegm cleared tbs ≡ (success, s'))
    × (s'.f ≡ 0)
    × IsSegmentation tbs s'
cbsegm-tbs_from_idx_example =
    cbsegm-tbs_from_idx cleared 20 50 (omega arith) (omega arith) (omega arith)
