-- ===== src/Ra/Dl/Scheme.antt =====
-- Downlink grants of srslte/lib/phch/ra.c: modulation and transport block size, the memory of the
-- HARQ processes, and the whole grant.
use vbbu.Prelude.{
  ℕ, ◌-◌, ◌%◌, ◌^◌, Bool, true, false, Option, none, some, List, get_or, set, ltb, leb, ◌==◌, ◌&&◌,
  if◌then◌else◌, Status, success, error,
}
use vbbu.Ra.Types.{DlDci, Alloc, type0, type1, type2, other, Mod, qpsk, qam16, qam64}
use vbbu.Ra.Grant.{Mcs, no_mcs, Last, mod_bits_x_symbol}
use vbbu.Ra.Tbs.{tbs_from_idx, tbs_format1c_table}
use vbbu.Ra.Dl.{prb_allocation, unmarked}

-- `srslte_ra_dl_grant_t`; the two rows of `prb_idx` are two fields.
pub record DlGrant : Type 0 where
  pub prb_idx0 : List Bool
  pub prb_idx1 : List Bool
  pub nof_prb : ℕ
  pub qm : ℕ
  pub qm2 : ℕ
  pub mcs : Mcs
  pub mcs2 : Mcs

-- The grant after `bzero`.
abbrev pub no_grant : DlGrant
no_grant = record {
  prb_idx0 = unmarked;
  prb_idx1 = unmarked;
  nof_prb = 0;
  qm = 0;
  qm2 = 0;
  mcs = no_mcs;
  mcs2 = no_mcs;
}

-- An `int` that is -1 on an error, as uint32_t.
unfoldable pub word_of : Option ℕ → ℕ
word_of none = 2 ^ 32 - 1
word_of (some tbs) = tbs

-- The modulation and, for a new transmission, the index of the transport block size; above 31 the
-- modulation stays and the index is 0.
unfoldable pub dl_mcs_table : ℕ → Mod → Mod × Option ℕ
dl_mcs_table idx old =
    if ltb idx 10
    then (qpsk, some idx)
    else if ltb idx 17
    then (qam16, some (idx - 1))
    else if ltb idx 29
    then (qam64, some (idx - 2))
    else if idx == 29
    then (qpsk, none)
    else if idx == 30
    then (qam16, none)
    else if idx == 31
    then (qam64, none)
    else (old, some 0)

-- `dl_fill_ra_mcs`: the return value and the structure.
unfoldable pub dl_fill_ra_mcs : Mcs → ℕ → Option ℕ × Mcs
dl_fill_ra_mcs mcs nprb =
    let (m, i_tbs) = dl_mcs_table mcs.idx mcs.modulation in
    elim i_tbs [
      | none ↦ (some 0, record mcs { modulation = m })
      | some i ↦ elim (tbs_from_idx i nprb) [
        | none ↦ (none, record mcs { modulation = m })
        | some tbs ↦ (some tbs, record mcs { modulation = m; tbs = tbs })
      ]
    ]

-- `type2_alloc.n_prb1a`; the other members of the union are too short to cover it, and a cleared
-- structure has 0 there.
unfoldable pub n_prb1a_of : Alloc → ℕ
n_prb1a_of (type2 a) = a.n_prb1a
n_prb1a_of (type0 mask) = 0
n_prb1a_of (type1 mask subset shift) = 0
n_prb1a_of (other t) = 0

-- The transport block size of a message for another RNTI than a C-RNTI; `none` is -1.
unfoldable pub common_tbs : DlDci → Option ℕ
unfolding tbs_format1c_table
common_tbs dci =
    if dci.dci_is_1a
    then tbs_from_idx dci.mcs_idx (if n_prb1a_of dci.alloc == 0 then 2 else 3)
    else if ltb dci.mcs_idx 32
    then some (get_or tbs_format1c_table dci.mcs_idx 0)
    else none

-- The end of `dl_dci_to_grant_mcs`.
unfoldable pub orders : DlDci → Option ℕ → Last → DlGrant → Status × Last × DlGrant
orders dci tbs last grant =
    let g : DlGrant = record grant { qm = mod_bits_x_symbol grant.mcs.modulation } in
    let g' : DlGrant =
      if dci.nof_tb == 2 then record g { qm2 = mod_bits_x_symbol grant.mcs2.modulation } else g in
    elim tbs [ none ↦ (error, last, g') | some t ↦ (success, last, g') ]

-- The memory and the first transport block for a C-RNTI. A retransmission, for which `tbs` is 0,
-- takes the size from the memory.
unfoldable pub first_block : Last → DlDci → DlGrant → Option ℕ × Last × DlGrant
first_block last dci grant =
    let pid = dci.harq_process % 8 in
    let (tbs, mcs) = dl_fill_ra_mcs (record (grant.mcs) { idx = dci.mcs_idx }) grant.nof_prb in
    if word_of tbs == 0
    then (tbs, last, record grant { mcs = record mcs { tbs = get_or last.dl_tbs pid 0 } })
    else (
      tbs,
      record last { dl_tbs = set last.dl_tbs pid (word_of tbs) },
      record grant { mcs = mcs },
    )

-- The second transport block; its size takes the place of the first one's.
unfoldable pub second_block : DlDci → Option ℕ × Last × DlGrant → Option ℕ × Last × DlGrant
second_block dci (tbs, last, grant) =
    if dci.nof_tb == 2
    then (let (tbs', mcs) =
          dl_fill_ra_mcs (record (grant.mcs2) { idx = dci.mcs_idx_1 }) grant.nof_prb in
        (tbs', last, record grant { mcs2 = mcs }))
    else (tbs, last, grant)

-- `dl_dci_to_grant_mcs`
unfoldable pub dl_dci_to_grant_mcs : Last → DlDci → DlGrant → Bool → Status × Last × DlGrant
dl_dci_to_grant_mcs last dci grant true =
    let (tbs, last', grant') = second_block dci (first_block last dci grant) in
    orders dci tbs last' grant'
dl_dci_to_grant_mcs last dci grant false =
    if dci.dci_is_1a
    then orders dci (common_tbs dci) last (record grant {
      mcs = record (grant.mcs) { modulation = qpsk; tbs = word_of (common_tbs dci) };
    })
    else if dci.dci_is_1c
    then orders dci (common_tbs dci) last (record grant {
      mcs = record (grant.mcs) { modulation = qpsk; tbs = word_of (common_tbs dci) };
    })
    else (error, last, grant)

-- `SRSLTE_CRNTI_START` to `SRSLTE_CRNTI_END`
unfoldable pub is_crnti : ℕ → Bool
is_crnti rnti = leb 11 rnti && leb rnti 65523

-- `SRSLTE_RARNTI_START` to `SRSLTE_RARNTI_END`
unfoldable pub is_rarnti : ℕ → Bool
is_rarnti rnti = leb 1 rnti && leb rnti 10

-- The end of `srslte_ra_dl_dci_to_grant`: format 1C for a RA-RNTI has redundancy version 0.
unfoldable pub rnti_rule : ℕ → DlDci → Status × Last × DlGrant → Status × Last × DlDci × DlGrant
rnti_rule msg_rnti dci (error, last, grant) = (error, last, dci, grant)
rnti_rule msg_rnti dci (success, last, grant) = (
  success,
  last,
  (if is_rarnti msg_rnti && dci.dci_is_1c then record dci { rv_idx = some 0 } else dci),
  grant,
)

-- `srslte_ra_dl_dci_to_grant`; `none` is a store outside of `prb_idx`.
unfoldable pub dl_dci_to_grant : Last → DlDci → ℕ → ℕ → Option (Status × Last × DlDci × DlGrant)
dl_dci_to_grant last dci nof_prb msg_rnti = elim (prb_allocation dci.alloc nof_prb) [
  | none ↦ none
  | some none ↦ some (error, last, dci, no_grant)
  | some (some (prbs0, prbs1, n)) ↦ some (
      rnti_rule msg_rnti dci (
        dl_dci_to_grant_mcs last dci
          (record no_grant { prb_idx0 = prbs0; prb_idx1 = prbs1; nof_prb = n })
          (is_crnti msg_rnti)))
]
