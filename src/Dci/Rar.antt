-- ===== src/Dci/Rar.antt =====
-- The uplink grant of a random access response, srslte/lib/phch/dci.c.
pub mod RoundTrip
use vbbu.Prelude.{
  ℕ, ◌+◌, ◌-◌, ◌*◌, ◌/◌, ◌%◌, ◌^◌, Bool, true, false, Option, none, some, List, [], ◌∷◌, ◌++◌, leb,
  if◌then◌else◌, bool_byte, is_set, bit_and, Status, success, error,
}
use vbbu.Bit.{Reader, pure, ◌>>=◌, ◌>>◌, pack}
use vbbu.Ra.Types.{UlDci, Type2, FreqHop, disabled, hop}
use vbbu.Ra.Type2.{type2_from_riv}
use vbbu.Ra.Grant.{Last}
use vbbu.Ra.Ul.{UlGrant, ul_dci_to_grant}
use vbbu.Dci.Size.{riv_nbits}
use vbbu.Dci.Msg.{Slot, bits, overlay}

-- `srslte_dci_rar_grant_t`
pub record RarGrant : Type 0 where
  pub rba : ℕ
  pub trunc_mcs : ℕ
  pub tpc_pusch : ℕ
  pub ul_delay : Bool
  pub cqi_request : Bool
  pub hopping_flag : Bool

-- `SRSLTE_RAR_GRANT_LEN`
abbrev pub rar_grant_len : ℕ
rar_grant_len = 20

unfoldable pub rar_slots : RarGrant → List Slot
rar_slots rar =
    bits (bool_byte rar.hopping_flag) 1
    ++ (bits rar.rba 10
        ++ (bits rar.trunc_mcs 4
            ++ (bits rar.tpc_pusch 3
                ++ (bits (bool_byte rar.ul_delay) 1 ++ bits (bool_byte rar.cqi_request) 1))))

-- `srslte_dci_rar_grant_pack`
unfoldable pub rar_grant_pack : RarGrant → List ℕ → Option (List ℕ)
rar_grant_pack rar grant = overlay (rar_slots rar) grant

-- `srslte_dci_rar_grant_unpack`, which sets every member.
unfoldable pub rar_grant_unpack : Reader RarGrant
rar_grant_unpack = do
  hopping_flag ← pack 1
  rba ← pack 10
  trunc_mcs ← pack 4
  tpc_pusch ← pack 3
  ul_delay ← pack 1
  cqi_request ← pack 1
  pure (record {
    rba = rba;
    trunc_mcs = trunc_mcs;
    tpc_pusch = tpc_pusch;
    ul_delay = is_set ul_delay;
    cqi_request = is_set cqi_request;
    hopping_flag = is_set hopping_flag;
  })

-- The resource block assignment that is decoded: for small cells it is cut to one bit more than a
-- RIV has.
unfoldable pub rar_riv : RarGrant → ℕ → ℕ
rar_riv rar nof_prb =
    if leb nof_prb 44 then bit_and rar.rba (2 ^ (riv_nbits nof_prb + 1) - 1) else rar.rba

-- The cleared structure with the fields of the response.
unfoldable pub rar_dci : RarGrant → ℕ → UlDci
rar_dci rar nof_prb =
    let (l_crb, rb_start) = type2_from_riv (rar_riv rar nof_prb) nof_prb nof_prb in
    record {
      freq_hop_fl = (if rar.hopping_flag then hop 1 else disabled);
      type2_alloc = record {
        riv = rar_riv rar nof_prb;
        l_crb = l_crb;
        rb_start = rb_start;
        n_prb1a = 0;
        n_gap = 0;
        mode = 0;
      };
      mcs_idx = rar.trunc_mcs;
      rv_idx = 0;
      n_dmrs = 0;
      ndi = false;
      cqi_request = false;
      tpc_pusch = 0;
    }

-- `srslte_dci_rar_to_ul_grant`, for HARQ process 0.
unfoldable pub rar_to_ul_grant : Last → RarGrant → ℕ → ℕ → Status × Last × UlDci × UlGrant
rar_to_ul_grant last rar nof_prb n_rb_ho =
    ul_dci_to_grant last (rar_dci rar nof_prb) nof_prb n_rb_ho 0
