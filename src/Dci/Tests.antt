-- ===== src/Dci/Tests.antt =====
-- Messages and grants at concrete values, for srslte/lib/phch/dci.c.
use vbbu.Prelude.{
  ℕ, ◌≡◌, ◌≢◌, refl, Bool, true, false, some, List, get_or, replicate, drop, arith, success,
}
use vbbu.Ra.Types.{DlDci, UlDci, Type2, type0, type2, hop, loc, dist, ng1}
use vbbu.Ra.Type2.{type2_to_riv, type2_n_rb_step, type2_n_vrb_dl, type2_ngap, type0_p}
use vbbu.Dci.Size.{
  format0, format1, format1a, format1c, format_sizeof, format_sizeof_lut, riv_nbits,
}
use vbbu.Dci.Size.Facts.{format_sizeof_lut-eq-format_sizeof}
use vbbu.Dci.Msg.{Msg}
use vbbu.Dci.Format0.{format0_pack, format0_unpack, n_ul_hop}
use vbbu.Dci.Format0.RoundTrip.{format0_unpack-format0_pack}
use vbbu.Dci.Format1.{format1_pack, format1_unpack, alloc_size, rv_word}
use vbbu.Dci.Format1.RoundTrip.{format1_unpack-format1_pack}
use vbbu.Dci.Format1A.{format1a_pack, format1a_unpack}
use vbbu.Dci.Format1A.RoundTrip.{format1a_unpack-format1a_pack}
use vbbu.Dci.Format1C.{format1c_pack, format1c_unpack, format1c_riv, n_vrb_p, n_vrb_dl, old_type2}
use vbbu.Dci.Format1C.RoundTrip.{format1c_unpack-format1c_pack}
use vbbu.Dci.Rar.{RarGrant, rar_grant_pack, rar_grant_unpack}
use vbbu.Dci.Rar.RoundTrip.{rar_grant_unpack-rar_grant_pack}
use vbbu.Dci.Dispatch.{no_dci, no_ul_dci, msg_get_type, pusch_sched, pdsch_sched, mrnti}
use vbbu.Dci.Dispatch.MessageType.{msg_get_type-format}
use vbbu.Dci.Dispatch.Location.{Location}
use vbbu.Dci.Format0.RoundTrip as F0
use vbbu.Dci.Format1.RoundTrip as F1
use vbbu.Dci.Format1A.Slots as F1A
use vbbu.Dci.Format1C.Slots as F1C

abbrev blank : Msg
blank = record { bytes = replicate 128 0; nof_bits = 0; format = format0 }

-- Five blocks from block 3 on.
abbrev five_blocks : Type2
five_blocks = record { riv = 0; l_crb = 5; rb_start = 3; n_prb1a = 1; n_gap = ng1; mode = loc }

-- Eight virtual blocks from block 4 on.
abbrev spread_run : Type2
spread_run = record { riv = 0; l_crb = 8; rb_start = 4; n_prb1a = 0; n_gap = ng1; mode = dist }

abbrev ul : UlDci
ul = record no_ul_dci {
  freq_hop_fl = hop 1;
  type2_alloc = five_blocks;
  mcs_idx = 9;
  n_dmrs = 3;
  ndi = true;
  tpc_pusch = 1;
}

abbrev groups : DlDci
groups = record no_dci {
  alloc = type0 5;
  mcs_idx = 12;
  harq_process = 6;
  ndi = true;
  rv_idx = some 2;
}

abbrev compact : DlDci
compact = record no_dci {
  alloc = type2 five_blocks;
  mcs_idx = 12;
  harq_process = 6;
  ndi = true;
  rv_idx = some 2;
}

abbrev paging : DlDci
paging = record no_dci { alloc = type2 spread_run; mcs_idx = 12 }

ul-IsGrant : F0.IsGrant ul 25
unfolding type2_to_riv riv_nbits n_ul_hop
ul-IsGrant = record {
  some_block = omega arith;
  inside = omega arith;
  riv_fits = omega arith;
  hop_fits = omega arith;
  mcs_fits = omega arith;
}

format0_unpack-format0_pack_example :
    (msg' : Msg) × (format0_pack ul blank 25 ≡ some (success, msg'))
    × (msg'.nof_bits ≡ format_sizeof_lut format0 25)
    × (format0_unpack msg' no_ul_dci 25 ≡ some (success, F0.received ul no_ul_dci 25))
format0_unpack-format0_pack_example =
    format0_unpack-format0_pack ul no_ul_dci blank 25 (omega arith) (omega arith) (omega arith)
      ul-IsGrant

groups-IsGrant : F1.IsGrant groups 25
unfolding alloc_size type0_p rv_word
groups-IsGrant = record {
  alloc_fits = omega arith;
  mcs_fits = omega arith;
  harq_fits = omega arith;
  rv_fits = omega arith;
}

format1_unpack-format1_pack_example :
    (msg' : Msg) × (format1_pack groups blank 25 ≡ some (success, msg'))
    × (msg'.nof_bits ≡ format_sizeof_lut format1 25)
    × (format1_unpack msg' no_dci 25 ≡ some (success, F1.received groups no_dci))
format1_unpack-format1_pack_example =
    format1_unpack-format1_pack groups no_dci blank 25 (omega arith) (omega arith) (omega arith)
      groups-IsGrant

compact-IsGrant : F1A.IsGrant compact five_blocks 25
unfolding type2_to_riv riv_nbits rv_word
compact-IsGrant = record {
  local = refl;
  some_block = omega arith;
  inside = omega arith;
  riv_fits = omega arith;
  nprb1a_fits = omega arith;
  mcs_fits = omega arith;
  harq_fits = omega arith;
  rv_fits = omega arith;
}

format1a_unpack-format1a_pack_example :
    (msg' : Msg) × (ndi : Bool) × (format1a_pack compact blank 25 false
      ≡ some (success, record compact { dci_is_1a = true }, msg'))
    × (msg'.nof_bits ≡ format_sizeof_lut format1a 25)
    × (false ≡ false → ndi ≡ false)
    × (format1a_unpack msg' no_dci 25 false
        ≡ some (success, F1A.received compact five_blocks no_dci 25 false ndi))
format1a_unpack-format1a_pack_example =
    format1a_unpack-format1a_pack compact no_dci five_blocks blank 25 false refl (omega arith)
      (omega arith) (omega arith) compact-IsGrant

spread_run-IsRun : F1C.IsRun spread_run 25
unfolding type2_to_riv riv_nbits n_vrb_p n_vrb_dl type2_n_rb_step type2_n_vrb_dl type2_ngap
    format1c_riv
spread_run-IsRun = record {
  distributed = refl;
  gap_one = refl;
  some_block = omega arith;
  whole_length = refl;
  whole_start = refl;
  inside = omega arith;
  riv_fits = omega arith;
}

format1c_unpack-format1c_pack_example :
    (msg' : Msg) × (format1c_pack paging blank 25
      ≡ some (success, record paging { dci_is_1c = true }, msg'))
    × (msg'.nof_bits ≡ format_sizeof_lut format1c 25)
    × (format1c_unpack msg' no_dci 25
        ≡ some (success, F1C.received paging spread_run no_dci 25, msg'))
unfolding old_type2
format1c_unpack-format1c_pack_example =
    format1c_unpack-format1c_pack paging no_dci spread_run blank 25 refl (omega arith) (omega arith)
      (omega arith) spread_run-IsRun (omega arith) refl

format_sizeof_lut-eq-format_sizeof_example :
    (format_sizeof_lut format0 50 ≡ format_sizeof format0 50 2)
    × (format_sizeof_lut format1 50 ≡ format_sizeof format1 50 2)
    × (format_sizeof_lut format1a 50 ≡ format_sizeof format1a 50 2)
    × (format_sizeof_lut format1c 50 ≡ format_sizeof format1c 50 2)
format_sizeof_lut-eq-format_sizeof_example =
    format_sizeof_lut-eq-format_sizeof 50 2 (omega arith) (omega arith)

abbrev rar : RarGrant
rar = record {
  rba = 700;
  trunc_mcs = 5;
  tpc_pusch = 3;
  ul_delay = false;
  cqi_request = true;
  hopping_flag = false;
}

rar_grant_unpack-rar_grant_pack_example :
    (grant' : List ℕ) × (rar_grant_pack rar (replicate 20 0) ≡ some grant')
    × (rar_grant_unpack grant' ≡ some (rar, drop 20 (replicate 20 0)))
rar_grant_unpack-rar_grant_pack_example =
    rar_grant_unpack-rar_grant_pack rar (replicate 20 0) (omega arith)
      (record { rba_fits = omega arith; mcs_fits = omega arith; tpc_fits = omega arith })

-- A message of the size of format 1A whose first byte is set.
abbrev down : Msg
down = record { bytes = replicate 128 1; nof_bits = 25; format = format0 }

msg_get_type-format_example :
    (down.nof_bits ≡ format_sizeof_lut format1 25
      → msg_get_type down 25 70 ≡ some (pdsch_sched, format1))
    × (down.nof_bits ≡ format_sizeof_lut format1a 25
        → get_or down.bytes 0 0 ≡ 0
        → msg_get_type down 25 70 ≡ some (pusch_sched, format0))
    × (down.nof_bits ≡ format_sizeof_lut format1a 25
        → get_or down.bytes 0 0 ≢ 0
        → msg_get_type down 25 70 ≡ some (pdsch_sched, format1a))
    × (down.nof_bits ≡ format_sizeof_lut format1c 25
        → 70 ≢ mrnti
        → msg_get_type down 25 70 ≡ some (pdsch_sched, format1c))
msg_get_type-format_example = msg_get_type-format down 25 70 (omega arith) (omega arith)

abbrev origin : Location
origin = record { l = 0; ncce = 0 }
