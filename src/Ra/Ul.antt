-- ===== src/Ra/Ul.antt =====
-- Uplink grants of srslte/lib/phch/ra.c: the resource blocks with frequency hopping, the modulation
-- and coding scheme, and the memory of the HARQ processes.
pub mod Hopping
pub mod Harq
use vbbu.Prelude.{
  ℕ, ◌+◌, ◌-◌, ◌*◌, ◌/◌, ◌%◌, Bool, true, false, Option, none, some, List, get_or, set, ltb, leb,
  ◌==◌, ◌&&◌, if◌then◌else◌, u32, sub32, Status, success, error,
}
use vbbu.Ra.Types.{UlDci, FreqHop, disabled, hop, Mod, bpsk, qpsk, qam16, qam64, Cp}
use vbbu.Ra.Grant.{Mcs, no_mcs, Last, mod_bits_x_symbol, cp_nsymb, nre}
use vbbu.Ra.Tbs.{tbs_from_idx}

-- `srslte_ra_ul_grant_t`, less `n_prb_tilde`, which ra.c only clears.
pub record UlGrant : Type 0 where
  pub n_prb : ℕ × ℕ
  pub l_prb : ℕ
  pub freq_hopping : ℕ
  pub m_sc : ℕ
  pub m_sc_init : ℕ
  pub qm : ℕ
  pub mcs : Mcs
  pub ncs_dmrs : ℕ

-- `SRSLTE_RA_PUSCH_HOP_QUART`, `_QUART_NEG`, `_HALF` and `_TYPE2`
abbrev pub hop_quart : ℕ
hop_quart = 0

abbrev pub hop_quart_neg : ℕ
hop_quart_neg = 1

abbrev pub hop_half : ℕ
hop_half = 2

abbrev pub hop_type2 : ℕ
hop_type2 = 3

-- The first resource block of the second slot for type 1 hopping: the `switch` on `freq_hop_fl`.
-- Another value leaves the cleared 0.
unfoldable pub second_slot : ℕ → ℕ → ℕ → ℕ
second_slot flag n_rb_pusch n_prb_1 =
    if flag == hop_quart
    then u32 (n_rb_pusch / 4 + n_prb_1) % n_rb_pusch
    else if flag == hop_quart_neg
    then (if ltb n_prb_1 (n_rb_pusch / 4)
        then sub32 (u32 (n_rb_pusch + n_prb_1)) (n_rb_pusch / 4)
        else sub32 n_prb_1 (n_rb_pusch / 4))
    else if flag == hop_half
    then u32 (n_rb_pusch / 2 + n_prb_1) % n_rb_pusch
    else 0

-- `n_rb_pusch`, from the hopping offset `n_rb_ho`, which is made even.
unfoldable pub hop_band : ℕ → ℕ → ℕ
hop_band n_rb_ho nof_prb =
    let even = if n_rb_ho % 2 == 1 then u32 (n_rb_ho + 1) else n_rb_ho in
    sub32 (sub32 nof_prb even) (nof_prb % 2)

-- `n_prb` and `freq_hopping`
unfoldable pub hop_prbs : FreqHop → ℕ → ℕ → ℕ → (ℕ × ℕ) × ℕ
hop_prbs disabled n_prb_1 n_rb_ho nof_prb = ((n_prb_1, n_prb_1), 0)
hop_prbs (hop flag) n_prb_1 n_rb_ho nof_prb =
    if flag == hop_type2
    then ((n_prb_1, n_prb_1), 2)
    else ((n_prb_1, second_slot flag (hop_band n_rb_ho nof_prb) n_prb_1), 1)

-- `srslte_ul_dci_to_grant_prb_allocation`, which always succeeds.
unfoldable pub ul_prb_allocation : UlDci → ℕ → ℕ → UlGrant
ul_prb_allocation dci n_rb_ho nof_prb =
    let (prbs, hopping) = hop_prbs dci.freq_hop_fl dci.type2_alloc.rb_start n_rb_ho nof_prb in
    record {
      n_prb = prbs;
      l_prb = dci.type2_alloc.l_crb;
      freq_hopping = hopping;
      m_sc = 0;
      m_sc_init = 0;
      qm = 0;
      mcs = no_mcs;
      ncs_dmrs = dci.n_dmrs;
    }

-- The modulation and the index of the transport block size of table 8.6.1-1, for `mcs_idx` up to 28.
unfoldable pub ul_mcs_table : ℕ → Mod × ℕ
ul_mcs_table mcs_idx =
    if ltb mcs_idx 11
    then (qpsk, mcs_idx)
    else if ltb mcs_idx 21
    then (qam16, mcs_idx - 1)
    else (qam64, mcs_idx - 2)

-- The end of `ul_dci_to_grant_mcs`.
unfoldable pub store_tbs : Option ℕ → Last → UlDci → UlGrant → Status × Last × UlDci × UlGrant
store_tbs none last dci grant = (error, last, dci, grant)
store_tbs (some tbs) last dci grant =
    (success, last, dci, record grant { mcs = record (grant.mcs) { tbs = tbs } })

-- `ul_dci_to_grant_mcs`
unfoldable pub ul_dci_to_grant_mcs : Last → UlDci → UlGrant → ℕ → Status × Last × UlDci × UlGrant
ul_dci_to_grant_mcs last dci grant harq_pid =
    let pid = harq_pid % 8 in
    let last_idx = get_or last.ul_tbs_idx pid 0 in
    let last_mod = get_or last.mods pid bpsk in
    if leb dci.mcs_idx 28
    then (let (m, idx) = ul_mcs_table dci.mcs_idx in
        store_tbs (tbs_from_idx idx grant.l_prb)
          (record last { ul_tbs_idx = set last.ul_tbs_idx pid idx; mods = set last.mods pid m }) dci
          (record grant { mcs = record (grant.mcs) { modulation = m } }))
    else if dci.mcs_idx == 29 && dci.cqi_request && leb grant.l_prb 4
    then store_tbs (tbs_from_idx last_idx grant.l_prb) last dci
        (record grant { mcs = record (grant.mcs) { modulation = qpsk } })
    else store_tbs (tbs_from_idx last_idx grant.l_prb) last
        (record dci { rv_idx = dci.mcs_idx - 28 })
        (record grant { mcs = record (grant.mcs) { modulation = last_mod } })

-- The rest of the structure, once the scheme is known.
unfoldable pub ul_rest : Status × Last × UlDci × UlGrant → Status × Last × UlDci × UlGrant
ul_rest (error, last, dci, grant) = (error, last, dci, grant)
ul_rest (success, last, dci, grant) = (
  success,
  last,
  dci,
  record grant {
    mcs = record (grant.mcs) { idx = dci.mcs_idx };
    m_sc = u32 (grant.l_prb * nre);
    m_sc_init = u32 (grant.l_prb * nre);
    qm = mod_bits_x_symbol grant.mcs.modulation;
  },
)

-- `srslte_ra_ul_dci_to_grant`
unfoldable pub ul_dci_to_grant : Last → UlDci → ℕ → ℕ → ℕ → Status × Last × UlDci × UlGrant
ul_dci_to_grant last dci nof_prb n_rb_ho harq_pid =
    ul_rest (ul_dci_to_grant_mcs last dci (ul_prb_allocation dci n_rb_ho nof_prb) harq_pid)

-- `srslte_ra_ul_grant_to_nbits`: `nof_symb`, `nof_re` and `nof_bits`.
unfoldable pub ul_grant_to_nbits : UlGrant → Cp → ℕ → ℕ × ℕ × ℕ
ul_grant_to_nbits grant cp n_srs =
    let nof_symb = sub32 (2 * (cp_nsymb cp - 1)) n_srs in
    let nof_re = u32 (nof_symb * grant.m_sc) in (nof_symb, nof_re, u32 (nof_re * grant.qm))
