-- ===== src/Ra/Dl/Elements.antt =====
-- The resource elements of a downlink grant, srslte/lib/phch/ra.c.
use vbbu.Prelude.{
  ℕ, zero, suc, ◌+◌, ◌-◌, ◌*◌, ◌/◌, ◌%◌, Bool, true, false, List, get_or, ltb, leb, ◌==◌, ◌&&◌,
  ◌||◌, not, if◌then◌else◌, u32, sub32,
}
use vbbu.Ra.Types.{Cp, norm, ext}
use vbbu.Ra.Grant.{cp_nsymb, nre}
use vbbu.Ra.Dl.Scheme.{DlGrant}

-- What `ra_re_x_prb` uses of `srslte_cell_t`.
pub record Cell : Type 0 where
  pub nof_prb : ℕ
  pub nof_ports : ℕ
  pub cp : Cp

-- `SRSLTE_CP_ISEXT`
unfoldable pub cp_isext : Cp → Bool
cp_isext norm = false
cp_isext ext = true

-- Whether the block is one of those in the middle, which carry PBCH and PSS/SSS.
unfoldable pub in_middle : ℕ → ℕ → ℕ → Bool
in_middle subframe prb_idx nof_prb =
    (subframe == 0 || subframe == 5)
    && leb (sub32 (nof_prb / 2) 3) prb_idx
    && ltb prb_idx (nof_prb / 2 + 3 + nof_prb % 2)

-- The elements of a block before the reference signals are taken off, and `skip_refs`.
unfoldable pub re_of_block : ℕ → ℕ → ℕ → Cell → ℕ → ℕ × Bool
re_of_block subframe slot prb_idx cell nof_ctrl_symbols =
    let symbols = cp_nsymb cell.cp in
    let plain = if slot == 0 then sub32 symbols nof_ctrl_symbols * nre else symbols * nre in
    if not (in_middle subframe prb_idx cell.nof_prb)
    then (u32 plain, false)
    else if slot == 0
    then (u32 (sub32 (sub32 symbols nof_ctrl_symbols) 2 * nre), false)
    else if subframe == 0
    then (if cp_isext cell.cp
        then ((symbols - 4) * nre, true)
        else (u32 ((symbols - 4) * nre + 2 * cell.nof_ports), false))
    else (u32 plain, false)

-- The half blocks at the edge of the middle, where the number of blocks is odd.
unfoldable pub edge_re : ℕ → ℕ → ℕ → Cell → ℕ → ℕ
edge_re subframe slot prb_idx cell re =
    let at_edge = prb_idx == sub32 (cell.nof_prb / 2) 3 || prb_idx == cell.nof_prb / 2 + 3 in
    if not (in_middle subframe prb_idx cell.nof_prb && cell.nof_prb % 2 == 1 && at_edge)
    then re
    else if slot == 0
    then u32 (re + 2 * nre / 2)
    else if subframe == 0
    then (let re' = u32 (re + sub32 (4 * nre / 2) cell.nof_ports) in
        if cp_isext cell.cp
        then sub32 re' (if ltb 2 cell.nof_ports then 2 else cell.nof_ports)
        else re')
    else re

-- The reference signals.
unfoldable pub without_refs : ℕ → ℕ → ℕ → ℕ → ℕ
without_refs slot nof_ports nof_ctrl_symbols re =
    if nof_ports == 1 || nof_ports == 2
    then sub32 re (u32 (2 * (slot + 1) * nof_ports))
    else if nof_ports == 4
    then (if slot == 1
        then sub32 re 12
        else if nof_ctrl_symbols == 1
        then sub32 (sub32 re 4) 4
        else sub32 re 4)
    else re

-- `ra_re_x_prb`
unfoldable pub ra_re_x_prb : ℕ → ℕ → ℕ → Cell → ℕ → ℕ
ra_re_x_prb subframe slot prb_idx cell nof_ctrl_symbols =
    let (re, skip_refs) = re_of_block subframe slot prb_idx cell nof_ctrl_symbols in
    let re' = edge_re subframe slot prb_idx cell re in
    if skip_refs then re' else without_refs slot cell.nof_ports nof_ctrl_symbols re'

-- The sum of one slot over the `k` blocks from `j` on.
unfoldable pub slot_re : ℕ → ℕ → ℕ → ℕ → List Bool → Cell → ℕ → ℕ
slot_re zero j sf_idx slot prbs cell nof_ctrl_symbols = 0
slot_re (suc k) j sf_idx slot prbs cell nof_ctrl_symbols =
    let rest = slot_re k (suc j) sf_idx slot prbs cell nof_ctrl_symbols in
    if get_or prbs j false
    then u32 (ra_re_x_prb sf_idx slot j cell nof_ctrl_symbols + rest)
    else rest

-- `srslte_ra_dl_grant_nof_re`
unfoldable pub dl_grant_nof_re : DlGrant → Cell → ℕ → ℕ → ℕ
dl_grant_nof_re grant cell sf_idx nof_ctrl_symbols = u32 (
    slot_re cell.nof_prb 0 sf_idx 0 grant.prb_idx0 cell nof_ctrl_symbols
    + slot_re cell.nof_prb 0 sf_idx 1 grant.prb_idx1 cell nof_ctrl_symbols)

-- `srslte_ra_nbits_t`
pub record Nbits : Type 0 where
  pub lstart : ℕ
  pub nof_symb : ℕ
  pub nof_bits : ℕ
  pub nof_re : ℕ

-- `srslte_ra_dl_grant_to_nbits`
unfoldable pub dl_grant_to_nbits : DlGrant → ℕ → Cell → ℕ → Nbits
dl_grant_to_nbits grant cfi cell sf_idx =
    let start = if ltb cell.nof_prb 10 then u32 (cfi + 1) else cfi in
    let re = dl_grant_nof_re grant cell sf_idx start in
    record {
      lstart = start;
      nof_symb = sub32 (2 * cp_nsymb cell.cp) start;
      nof_bits = u32 (re * grant.qm);
      nof_re = re;
    }
