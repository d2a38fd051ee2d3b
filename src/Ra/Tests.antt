-- ===== src/Ra/Tests.antt =====
-- Resource allocation at concrete values, for srslte/lib/phch/ra.c.
use vbbu.Prelude.{
  ℕ, ◌+◌, ◌-◌, ◌≡◌, ◌≤◌, ◌<◌, ◌≢◌, refl, Bool, true, false, some, List, get_or, replicate, ltb, leb,
  ◌&&◌, arith, success,
}
use vbbu.Ra.Types.{DlDci, UlDci, Type2, type2, disabled, bpsk, ng1, loc}
use vbbu.Ra.Type2.{type2_to_riv, type2_from_riv, type2_n_vrb_dl, type2_ngap}
use vbbu.Ra.Riv.{decoded_run, from_riv-decoded_run}
use vbbu.Ra.Tbs.{tbs_to_table_idx, table_entry, tbs_table}
use vbbu.Ra.Tbs.Search.{IsLeast, tbs_to_table_idx-IsLeast}
use vbbu.Ra.Grant.{Last}
use vbbu.Ra.Ul.{UlGrant, second_slot, hop_quart, hop_quart_neg, hop_half, ul_dci_to_grant}
use vbbu.Ra.Ul.Hopping.{second_slot-inside}
use vbbu.Ra.Ul.Harq.{ul_dci_to_grant-again}
use vbbu.Ra.Dl.{spread, tilde_odd, tilde_even, past_gap, prb_allocation}
use vbbu.Ra.Dl.Distributed.{distributed-inside}
use vbbu.Ra.Dl.Scheme.{DlGrant, no_grant, dl_dci_to_grant_mcs}
use vbbu.Ra.Dl.Harq.{dl_dci_to_grant_mcs-again}
use vbbu.Ra.Dl.Localized.{prb_allocation-localized}

-- With 50 blocks and 46 virtual ones, 30 blocks from block 1 on are decoded as 22 from block 48 on.
from_riv_wraps : type2_from_riv (type2_to_riv 30 1 50) 50 46 ≡ (22, 48)
unfolding type2_from_riv type2_to_riv
from_riv_wraps = refl

from_riv-decoded_run_example : type2_from_riv (type2_to_riv 30 1 50) 50 46 ≡ decoded_run 30 1 50 46
from_riv-decoded_run_example =
    from_riv-decoded_run 30 1 50 46 (omega arith) (omega arith) (omega arith) (omega arith)

first_entry : table_entry 0 10 ≤ 1000
unfolding table_entry tbs_table
first_entry = omega arith

last_entry : 1000 < table_entry 26 10
unfolding table_entry tbs_table
last_entry = omega arith

tbs_to_table_idx-IsLeast_example : (i : ℕ) × (tbs_to_table_idx 1000 10 ≡ some i) × IsLeast i 1000 10
tbs_to_table_idx-IsLeast_example =
    tbs_to_table_idx-IsLeast 1000 10 (omega arith) (omega arith) first_entry last_entry

-- The last entry of the table gets an index behind the table, and a size below the first gets 0.
last_size : tbs_to_table_idx 7480 10 ≡ some 27
unfolding tbs_to_table_idx table_entry tbs_table
last_size = refl

small_size : tbs_to_table_idx 1 10 ≡ some 0
unfolding tbs_to_table_idx table_entry tbs_table
small_size = refl

second_slot-inside_example :
    (second_slot hop_quart 44 40 < 44)
    × (second_slot hop_quart_neg 44 40 < 44)
    × (second_slot hop_half 44 40 < 44)
    × (second_slot hop_quart_neg 44 (second_slot hop_quart 44 40) ≡ 40)
second_slot-inside_example = second_slot-inside 44 40 (omega arith) (omega arith) (omega arith)

abbrev fresh : Last
fresh = record { mods = replicate 8 bpsk; ul_tbs_idx = replicate 8 0; dl_tbs = replicate 8 0 }

abbrev first : UlDci
first = record {
  freq_hop_fl = disabled;
  type2_alloc = record { riv = 0; l_crb = 6; rb_start = 2; n_prb1a = 0; n_gap = 0; mode = loc };
  mcs_idx = 13;
  rv_idx = 0;
  n_dmrs = 0;
  ndi = true;
  cqi_request = false;
  tpc_pusch = 0;
}

abbrev again : UlDci
again = record first { mcs_idx = 30 }

ul_dci_to_grant-again_example :
    (last' : Last) × (g : UlGrant) × (g' : UlGrant) × (ul_dci_to_grant fresh first 25 0 3
      ≡ (success, last', first, g))
    × (ul_dci_to_grant last' again 25 0 11
        ≡ (success, last', record again { rv_idx = 30 - 28 }, g'))
    × (g'.mcs.tbs ≡ g.mcs.tbs)
    × (g'.mcs.modulation ≡ g.mcs.modulation)
    × (g'.qm ≡ g.qm)
ul_dci_to_grant-again_example =
    ul_dci_to_grant-again fresh first again 25 25 0 0 3 11
      (record { eight_mods = refl; eight_idx = refl }) (omega arith) (omega arith) refl refl
      (omega arith) (omega arith) refl

vrb_7 : 7 < type2_n_vrb_dl 50 true
unfolding type2_n_vrb_dl type2_ngap
vrb_7 = omega arith

distributed-inside_example :
    (past_gap (spread ng1 50) (tilde_odd (spread ng1 50) 7) < 50)
    × (past_gap (spread ng1 50) (tilde_even (spread ng1 50) 7) < 50)
    × ((w : ℕ)
        → w < 7
        → (past_gap (spread ng1 50) (tilde_odd (spread ng1 50) 7)
            ≢ past_gap (spread ng1 50) (tilde_odd (spread ng1 50) w))
          × (past_gap (spread ng1 50) (tilde_even (spread ng1 50) 7)
              ≢ past_gap (spread ng1 50) (tilde_even (spread ng1 50) w)))
distributed-inside_example = distributed-inside 50 7 (omega arith) (omega arith) vrb_7

abbrev some_run : Type2
some_run = record { riv = 0; l_crb = 5; rb_start = 3; n_prb1a = 0; n_gap = ng1; mode = loc }

prb_allocation-localized_example :
    (prbs : List Bool) × (prb_allocation (type2 some_run) 25 ≡ some (some (prbs, prbs, 5)))
    × ((j : ℕ) → get_or prbs j false ≡ (leb 3 j && ltb j (5 + 3)))
prb_allocation-localized_example = prb_allocation-localized some_run 25 refl (omega arith)

abbrev down : DlDci
down = record {
  alloc = type2 some_run;
  harq_process = 2;
  mcs_idx = 14;
  rv_idx = some 0;
  ndi = true;
  mcs_idx_1 = 0;
  rv_idx_1 = 0;
  ndi_1 = false;
  tb_cw_swap = false;
  sram_id = false;
  pinfo = 0;
  pconf = false;
  power_offset = false;
  nof_tb = 1;
  dci_is_1a = false;
  dci_is_1c = false;
}

abbrev down_again : DlDci
down_again = record down { mcs_idx = 30; harq_process = 10 }

abbrev ten_blocks : DlGrant
ten_blocks = record no_grant { nof_prb = 10 }

dl_dci_to_grant_mcs-again_example :
    (last' : Last) × (h : DlGrant) × (h' : DlGrant) × (dl_dci_to_grant_mcs fresh down ten_blocks
        true
      ≡ (success, last', h))
    × (dl_dci_to_grant_mcs last' down_again no_grant true ≡ (success, last', h'))
    × (h'.mcs.tbs ≡ h.mcs.tbs)
dl_dci_to_grant_mcs-again_example =
    dl_dci_to_grant_mcs-again fresh down down_again ten_blocks no_grant refl refl refl (omega arith)
      (omega arith) (omega arith) refl (omega arith) (omega arith)
