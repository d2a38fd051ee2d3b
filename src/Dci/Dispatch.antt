-- ===== src/Dci/Dispatch.antt =====
-- The entry points of srslte/lib/phch/dci.c: the choice of the format, and the grants of received
-- messages. Null pointers are not modelled.
pub mod Location
pub mod MessageType
use vbbu.Prelude.{
  ℕ, ◌+◌, ◌-◌, Bool, true, false, Option, none, some, List, [], ◌∷◌, leb, ◌==◌, ◌&&◌, if◌then◌else◌,
  Status, success, error, get_or,
}
use vbbu.Ra.Types.{DlDci, UlDci, Alloc, type0, FreqHop, hop}
use vbbu.Ra.Grant.{Last}
use vbbu.Ra.Ul.{UlGrant, ul_dci_to_grant}
use vbbu.Ra.Dl.Scheme.{DlGrant, dl_dci_to_grant, is_crnti}
use vbbu.Dci.Size.{
  Format, format0, format1, format1a, format1b, format1c, format1d, format2, format2a, format2b,
  nof_formats, nof_formats, format_sizeof_lut,
}
use vbbu.Dci.Msg.{Msg}
use vbbu.Dci.Format0.{format0_pack, format0_unpack}
use vbbu.Dci.Format1.{format1_pack, format1_unpack}
use vbbu.Dci.Format1C.{Packed, with_dci, format1c_pack, format1c_unpack}
use vbbu.Dci.Format1A.{format1a_pack, format1a_unpack, format1b_unpack, format1d_unpack}
use vbbu.Dci.Format2.{format2ab_unpack}

-- `srslte_dci_msg_pack_pdsch`
unfoldable pub pack_pdsch : DlDci → Format → Msg → ℕ → Bool → Packed
pack_pdsch d format1 msg nof_prb crc_is_crnti =
    with_dci d (format1_pack d (record msg { format = format1 }) nof_prb)
pack_pdsch d format1a msg nof_prb crc_is_crnti =
    format1a_pack d (record msg { format = format1a }) nof_prb crc_is_crnti
pack_pdsch d format1c msg nof_prb crc_is_crnti =
    format1c_pack d (record msg { format = format1c }) nof_prb
pack_pdsch d format msg nof_prb crc_is_crnti = some (error, d, record msg { format = format })

-- An unpacking that leaves the message as it is.
unfoldable pub with_msg : Msg → Option (Status × DlDci) → Packed
with_msg msg none = none
with_msg msg (some (s, d)) = some (s, d, msg)

-- `srslte_dci_msg_unpack_pdsch`
unfoldable pub unpack_pdsch : Msg → DlDci → ℕ → ℕ → Bool → Packed
unpack_pdsch msg d nof_prb nof_ports crc_is_crnti = elim msg.format [
  | format0 ↦ some (error, d, msg)
  | format1 ↦ with_msg msg (format1_unpack msg d nof_prb)
  | format1a ↦ with_msg msg (format1a_unpack msg d nof_prb crc_is_crnti)
  | format1b ↦ with_msg msg (format1b_unpack msg d nof_prb nof_ports)
  | format1c ↦ format1c_unpack msg d nof_prb
  | format1d ↦ with_msg msg (format1d_unpack msg d nof_prb nof_ports)
  | format2 ↦ with_msg msg (format2ab_unpack msg d nof_prb nof_ports)
  | format2a ↦ with_msg msg (format2ab_unpack msg d nof_prb nof_ports)
  | format2b ↦ with_msg msg (format2ab_unpack msg d nof_prb nof_ports)
  | nof_formats ↦ some (error, d, msg)
]

-- `srslte_ra_dl_dci_t` after `bzero`
abbrev pub no_dci : DlDci
no_dci = record {
  alloc = type0 0;
  harq_process = 0;
  mcs_idx = 0;
  rv_idx = some 0;
  ndi = false;
  mcs_idx_1 = 0;
  rv_idx_1 = 0;
  ndi_1 = false;
  tb_cw_swap = false;
  sram_id = false;
  pinfo = 0;
  pconf = false;
  power_offset = false;
  nof_tb = 0;
  dci_is_1a = false;
  dci_is_1c = false;
}

-- `srslte_dci_msg_to_dl_grant`. It returns success once the message has been unpacked, also where
-- `srslte_ra_dl_dci_to_grant` fails; the grant is `none` where the message is not unpacked.
unfoldable pub msg_to_dl_grant :
    Last → Msg → ℕ → ℕ → ℕ → Option (Status × Last × DlDci × Option DlGrant × Msg)
msg_to_dl_grant last msg msg_rnti nof_prb nof_ports =
    elim (unpack_pdsch msg no_dci nof_prb nof_ports (is_crnti msg_rnti)) [
      | none ↦ none
      | some (error, d, msg') ↦ some (error, last, d, none, msg')
      | some (success, d, msg') ↦ elim (dl_dci_to_grant last d nof_prb msg_rnti) [
        | none ↦ none
        | some (status, last', d', grant) ↦ some (success, last', d', some grant, msg')
      ]
    ]

-- `srslte_dci_msg_pack_pusch`
unfoldable pub pack_pusch : UlDci → Msg → ℕ → Option (Status × Msg)
pack_pusch d msg nof_prb = format0_pack d msg nof_prb

-- `srslte_dci_msg_unpack_pusch`
unfoldable pub unpack_pusch : Msg → UlDci → ℕ → Option (Status × UlDci)
unpack_pusch msg d nof_prb = format0_unpack msg d nof_prb

-- `srslte_ra_ul_dci_t` after `bzero`: `freq_hop_fl` is then 0, hopping by a quarter.
abbrev pub no_ul_dci : UlDci
no_ul_dci = record {
  freq_hop_fl = hop 0;
  type2_alloc = record { riv = 0; l_crb = 0; rb_start = 0; n_prb1a = 0; n_gap = 0; mode = 0 };
  mcs_idx = 0;
  rv_idx = 0;
  n_dmrs = 0;
  ndi = false;
  cqi_request = false;
  tpc_pusch = 0;
}

-- `srslte_dci_msg_to_ul_grant`; the grant is `none` where the message is not unpacked.
unfoldable pub msg_to_ul_grant :
    Last → Msg → ℕ → ℕ → ℕ → Option (Status × Last × UlDci × Option UlGrant)
msg_to_ul_grant last msg nof_prb n_rb_ho harq_pid = elim (unpack_pusch msg no_ul_dci nof_prb) [
  | none ↦ none
  | some (error, d) ↦ some (error, last, d, none)
  | some (success, d) ↦
      let (status, last', d', grant) = ul_dci_to_grant last d nof_prb n_rb_ho harq_pid in
      some (status, last', d', some grant)
]

-- The `type` of `srslte_dci_msg_type_t` that `srslte_dci_msg_get_type` finds.
pub data MsgType : Type 0 where
  pusch_sched pdsch_sched mcch_change : MsgType

-- `SRSLTE_MRNTI`
abbrev pub mrnti : ℕ
mrnti = 65533

-- `srslte_dci_msg_get_type`; `none` is `SRSLTE_ERROR`.
unfoldable pub msg_get_type : Msg → ℕ → ℕ → Option (MsgType × Format)
msg_get_type msg nof_prb msg_rnti =
    if msg.nof_bits == format_sizeof_lut format0 nof_prb && get_or msg.bytes 0 0 == 0
    then some (pusch_sched, format0)
    else if msg.nof_bits == format_sizeof_lut format1 nof_prb
    then some (pdsch_sched, format1)
    else if msg.nof_bits == format_sizeof_lut format1a nof_prb
    then some (pdsch_sched, format1a)
    else if msg.nof_bits == format_sizeof_lut format1c nof_prb
    then (if msg_rnti == mrnti then some (mcch_change, format1c) else some (pdsch_sched, format1c))
    else none
