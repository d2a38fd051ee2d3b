-- ===== src/Ra/Grant.antt =====
-- The state that srslte/lib/phch/ra.c keeps between grants, and what both directions share.
use vbbu.Prelude.{ℕ, List}
use vbbu.Ra.Types.{Mod, bpsk, qpsk, qam16, qam64, Cp, norm, ext}

-- `srslte_ra_mcs_t`; `tbs` is an `int`, here its uint32_t image.
pub record Mcs : Type 0 where
  pub modulation : Mod
  pub tbs : ℕ
  pub idx : ℕ

-- A structure that `bzero` has cleared.
abbrev pub no_mcs : Mcs
no_mcs = record { modulation = bpsk; tbs = 0; idx = 0 }

-- `srslte_mod_bits_x_symbol`
unfoldable pub mod_bits_x_symbol : Mod → ℕ
mod_bits_x_symbol bpsk = 1
mod_bits_x_symbol qpsk = 2
mod_bits_x_symbol qam16 = 4
mod_bits_x_symbol qam64 = 6

-- `SRSLTE_CP_NSYMB` and `SRSLTE_NRE`
unfoldable pub cp_nsymb : Cp → ℕ
cp_nsymb norm = 7
cp_nsymb ext = 6

abbrev pub nre : ℕ
nre = 12

-- `last_mod`, `last_ul_tbs_idx` and `last_dl_tbs`, arrays of 8 that are shared by all users of the
-- library.
pub record Last : Type 0 where
  pub mods : List Mod
  pub ul_tbs_idx : List ℕ
  pub dl_tbs : List ℕ
