-- ===== src/Ra/Types.antt =====
-- The structures of srslte/include/srslte/phch/ra.h and the enumerations they use. An enumeration
-- that the code stores from a byte of a message is a number, since any byte can reach it.
use vbbu.Prelude.{ℕ, Bool, Option}

-- `srslte_mod_t`
pub data Mod : Type 0 where
  bpsk qpsk qam16 qam64 : Mod

-- `srslte_cp_t`
pub data Cp : Type 0 where
  norm ext : Cp

-- `srslte_ra_type2_t`
pub record Type2 : Type 0 where
  pub riv : ℕ
  pub l_crb : ℕ
  pub rb_start : ℕ
  pub n_prb1a : ℕ
  pub n_gap : ℕ
  pub mode : ℕ

-- `SRSLTE_RA_TYPE2_NG1` and `SRSLTE_RA_TYPE2_LOC`, `SRSLTE_RA_TYPE2_DIST`
abbrev pub ng1 : ℕ
ng1 = 0

abbrev pub loc : ℕ
loc = 0

abbrev pub dist : ℕ
dist = 1

-- `alloc_type` of `srslte_ra_dl_dci_t` with the member of the union that it selects; `other`
-- is an `alloc_type` that is none of the three.
pub data Alloc : Type 0 where
  type0 : (rbg_bitmask : ℕ) → Alloc
  type1 : (vrb_bitmask rbg_subset : ℕ) (shift : Bool) → Alloc
  type2 : Type2 → Alloc
  other : ℕ → Alloc

-- `srslte_ra_dl_dci_t`. `rv_idx` is an `int`; `none` is the -1 of format 1C.
pub record DlDci : Type 0 where
  pub alloc : Alloc
  pub harq_process : ℕ
  pub mcs_idx : ℕ
  pub rv_idx : Option ℕ
  pub ndi : Bool
  pub mcs_idx_1 : ℕ
  pub rv_idx_1 : ℕ
  pub ndi_1 : Bool
  pub tb_cw_swap : Bool
  pub sram_id : Bool
  pub pinfo : ℕ
  pub pconf : Bool
  pub power_offset : Bool
  pub nof_tb : ℕ
  pub dci_is_1a : Bool
  pub dci_is_1c : Bool

-- `freq_hop_fl` of `srslte_ra_ul_dci_t`: `disabled` is -1.
pub data FreqHop : Type 0 where
  disabled : FreqHop
  hop : ℕ → FreqHop

-- `srslte_ra_ul_dci_t`, less `prb_alloc`, which nothing under srslte/lib/phch reads or writes.
pub record UlDci : Type 0 where
  pub freq_hop_fl : FreqHop
  pub type2_alloc : Type2
  pub mcs_idx : ℕ
  pub rv_idx : ℕ
  pub n_dmrs : ℕ
  pub ndi : Bool
  pub cqi_request : Bool
  pub tpc_pusch : ℕ
