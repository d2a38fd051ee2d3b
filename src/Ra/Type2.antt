-- ===== src/Ra/Type2.antt =====
-- Type 0 and type 2 resource allocation of srslte/lib/phch/ra.c: group sizes, gaps, and the
-- resource indication value (RIV), in uint32_t arithmetic.
use vbbu.Prelude.{ℕ, ◌+◌, ◌*◌, ◌/◌, ◌%◌, Bool, ltb, leb, ◌==◌, if◌then◌else◌, u32, sub32, ceil_div}

-- `srslte_ra_type0_P`
unfoldable pub type0_p : ℕ → ℕ
type0_p nof_prb =
    if leb nof_prb 10 then 1 else if leb nof_prb 26 then 2 else if leb nof_prb 63 then 3 else 4

-- `ceilf (log2f (P))` at the values 1 to 4 of `srslte_ra_type0_P`
unfoldable pub log2_p : ℕ → ℕ
log2_p p = if leb p 1 then 0 else if leb p 2 then 1 else 2

-- `srslte_ra_type1_N_rb`
unfoldable pub type1_n_rb : ℕ → ℕ
unfolding type0_p log2_p
type1_n_rb nof_prb = sub32 (sub32 (ceil_div nof_prb (type0_p nof_prb)) (log2_p (type0_p nof_prb))) 1

-- `srslte_ra_type2_to_riv`
unfoldable pub type2_to_riv : ℕ → ℕ → ℕ → ℕ
type2_to_riv l_crb rb_start nof_prb =
    if leb l_crb (nof_prb / 2)
    then u32 (nof_prb * sub32 l_crb 1 + rb_start)
    else sub32 (u32 (nof_prb * u32 (sub32 nof_prb l_crb + 1) + sub32 nof_prb 1)) rb_start

-- `srslte_ra_type2_from_riv`: `L_crb` and `RB_start`.
unfoldable pub type2_from_riv : ℕ → ℕ → ℕ → ℕ × ℕ
type2_from_riv riv nof_prb nof_vrb =
    let l_crb = u32 (riv / nof_prb + 1) in
    let rb_start = riv % nof_prb in
    if ltb (sub32 nof_vrb rb_start) l_crb
    then (u32 (sub32 nof_prb (riv / nof_prb) + 1), sub32 (sub32 nof_prb (riv % nof_prb)) 1)
    else (l_crb, rb_start)

-- `srslte_ra_type2_ngap`
unfoldable pub type2_ngap : ℕ → Bool → ℕ
type2_ngap nof_prb ngap_is_1 =
    if leb nof_prb 10
    then nof_prb / 2
    else if nof_prb == 11
    then 4
    else if leb nof_prb 19
    then 8
    else if leb nof_prb 26
    then 12
    else if leb nof_prb 44
    then 18
    else if leb nof_prb 49
    then 27
    else if leb nof_prb 63
    then (if ngap_is_1 then 27 else 9)
    else if leb nof_prb 79
    then (if ngap_is_1 then 32 else 16)
    else (if ngap_is_1 then 48 else 16)

-- `srslte_ra_type2_n_rb_step`
unfoldable pub type2_n_rb_step : ℕ → ℕ
type2_n_rb_step nof_prb = if ltb nof_prb 50 then 2 else 4

-- `srslte_ra_type2_n_vrb_dl`
unfoldable pub type2_n_vrb_dl : ℕ → Bool → ℕ
unfolding type2_ngap
type2_n_vrb_dl nof_prb ngap_is_1 =
    let ngap = type2_ngap nof_prb ngap_is_1 in
    if ngap_is_1
    then 2 * (if ltb ngap (sub32 nof_prb ngap) then ngap else sub32 nof_prb ngap)
    else nof_prb / ngap * 2 * ngap
