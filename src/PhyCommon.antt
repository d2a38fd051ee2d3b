-- ===== src/PhyCommon.antt =====
-- The common parameters of a cell, srslte/lib/common/phy_common.c.
pub mod Bands
pub mod Bandwidth
mod Tti
mod Tests
use vbbu.Prelude.{
  ℕ, zero, suc, ◌+◌, ◌-◌, ◌*◌, ◌/◌, ◌%◌, ◌^◌, bit_and, Bool, true, false, ◌&&◌, ◌||◌, Option, none,
  some, List, [], ◌∷◌, get_or, leb, ltb, ◌==◌, if◌then◌else◌, ◌<<<◌, u32, sub32,
}
use vbbu.Prelude.Options.{◌>>=◌}
use vbbu.Sequences.{set_lte_pr}

-- The fields of `srslte_cell_t` that are checked.
pub record Cell : Type 0 where
  pub id : ℕ
  pub nof_ports : ℕ
  pub nof_prb : ℕ

unfoldable pub cellid_isvalid : ℕ → Bool
cellid_isvalid cell_id = ltb cell_id 504

unfoldable pub nofprb_isvalid : ℕ → Bool
nofprb_isvalid nof_prb = leb 6 nof_prb && leb nof_prb 110

unfoldable pub portid_isvalid : ℕ → Bool
portid_isvalid port_id = leb port_id 4

unfoldable pub cell_isvalid : Cell → Bool
cell_isvalid cell =
    cellid_isvalid cell.id && portid_isvalid cell.nof_ports && nofprb_isvalid cell.nof_prb

unfoldable pub sfidx_isvalid : ℕ → Bool
sfidx_isvalid sf_idx = leb sf_idx 10

unfoldable pub n_id_2_isvalid : ℕ → Bool
n_id_2_isvalid n_id_2 = ltb n_id_2 3

unfoldable pub n_id_1_isvalid : ℕ → Bool
n_id_1_isvalid n_id_1 = ltb n_id_1 169

-- `srslte_N_ta_new`; the sum in floating point is exact below 2 ^ 23, and a negative one gives 0.
unfoldable pub n_ta_new : ℕ → ℕ → ℕ
n_ta_new n_ta_old ta =
    let new = n_ta_old + bit_and ta 63 * 16 - 31 * 16 in if ltb new 20512 then new else 20512

-- `srslte_N_ta_new_rar`
unfoldable pub n_ta_new_rar : ℕ → ℕ
n_ta_new_rar ta = (if ltb 1282 ta then 1282 else ta) * 16

-- `srslte_symbol_sz_power2`; `none` is -1, which is SRSLTE_ERROR.
unfoldable pub symbol_sz_power2 : ℕ → Option ℕ
symbol_sz_power2 nof_prb =
    if leb nof_prb 6
    then some 128
    else if leb nof_prb 15
    then some 256
    else if leb nof_prb 25
    then some 512
    else if leb nof_prb 50
    then some 1024
    else if leb nof_prb 75
    then some 1536
    else if leb nof_prb 100
    then some 2048
    else none

-- `srslte_symbol_sz`, by the value of `use_standard_rates`.
unfoldable pub symbol_sz : Bool → ℕ → Option ℕ
symbol_sz use_standard_rates nof_prb =
    if leb nof_prb 0
    then none
    else if use_standard_rates
    then symbol_sz_power2 nof_prb
    else if leb nof_prb 6
    then some 128
    else if leb nof_prb 15
    then some 256
    else if leb nof_prb 25
    then some 384
    else if leb nof_prb 50
    then some 768
    else if leb nof_prb 75
    then some 1024
    else if leb nof_prb 100
    then some 1536
    else none

-- `srslte_sampling_freq_hz`
unfoldable pub sampling_freq_hz : Bool → ℕ → Option ℕ
sampling_freq_hz use_standard_rates nof_prb =
    symbol_sz use_standard_rates nof_prb >>= λ n. some (15000 * n)

-- `srslte_nof_prb`
unfoldable pub nof_prb : Bool → ℕ → Option ℕ
nof_prb false symbol_sz =
    if symbol_sz == 128
    then some 6
    else if symbol_sz == 256
    then some 15
    else if symbol_sz == 384
    then some 25
    else if symbol_sz == 768
    then some 50
    else if symbol_sz == 1024
    then some 75
    else if symbol_sz == 1536
    then some 100
    else none
nof_prb true symbol_sz =
    if symbol_sz == 128
    then some 6
    else if symbol_sz == 256
    then some 15
    else if symbol_sz == 512
    then some 25
    else if symbol_sz == 1024
    then some 50
    else if symbol_sz == 1536
    then some 75
    else if symbol_sz == 2048
    then some 100
    else none

-- `srslte_symbol_sz_isvalid`
unfoldable pub symbol_sz_isvalid : Bool → ℕ → Bool
symbol_sz_isvalid false symbol_sz =
    symbol_sz == 128
    || symbol_sz == 256
    || symbol_sz == 384
    || symbol_sz == 768
    || symbol_sz == 1024
    || symbol_sz == 1536
symbol_sz_isvalid true symbol_sz =
    symbol_sz == 128
    || symbol_sz == 256
    || symbol_sz == 512
    || symbol_sz == 1024
    || symbol_sz == 1536
    || symbol_sz == 2048

-- `srslte_voffset`
unfoldable pub voffset : ℕ → ℕ → ℕ → ℕ
voffset symbol_id cell_id nof_ports =
    if nof_ports == 1 && symbol_id == 0 then (cell_id + 3) % 6 else cell_id % 6

-- The value of one slot, with `n` bits left from bit `i` on.
unfoldable pub f_gh_loop : List ℕ → ℕ → ℕ → ℕ → ℕ → ℕ
f_gh_loop c ns zero i f_gh = f_gh
f_gh_loop c ns (suc n) i f_gh = f_gh_loop c ns n (i + 1) (f_gh + get_or c (8 * ns + i) 0 <<< i)

unfoldable pub f_gh_slots : List ℕ → ℕ → ℕ → List ℕ
f_gh_slots c zero ns = []
f_gh_slots c (suc n) ns = f_gh_loop c ns 8 0 0 ∷ f_gh_slots c n (ns + 1)

-- `srslte_group_hopping_f_gh`: the values of the 20 slots.
unfoldable pub group_hopping_f_gh : ℕ → List ℕ
group_hopping_f_gh cell_id = f_gh_slots (set_lte_pr 160 (cell_id / 30)) 20 0

-- `srslte_re_x_prb`
unfoldable pub re_x_prb : ℕ → ℕ → ℕ → ℕ → ℕ
re_x_prb ns symbol nof_ports nof_symbols =
    if symbol == 0
    then (if ns % 2 == 0 || ns == 1 then 12 - 4 else if nof_ports == 1 then 12 - 2 else 12 - 4)
    else if symbol == 1
    then (if ns == 1 then 12 - 4 else if nof_ports == 4 then 12 - 4 else 12)
    else if symbol == sub32 nof_symbols 3
    then (if nof_ports == 1 then 12 - 2 else 12 - 4)
    else 12

-- `srslte_tti_interval`
unfoldable pub tti_interval : ℕ → ℕ → ℕ
tti_interval tti1 tti2 = if ltb tti2 tti1 then tti1 - tti2 else u32 (sub32 10240 tti2 + tti1)
