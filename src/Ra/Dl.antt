-- ===== src/Ra/Dl.antt =====
-- The resource blocks of a downlink grant, srslte/lib/phch/ra.c. A store outside of `prb_idx` is
-- `none`; the source does not guard against it.
pub mod Scheme
pub mod Localized
pub mod Harq
pub mod Elements
pub mod Distributed
use vbbu.Prelude.{
  ℕ, zero, suc, ◌+◌, ◌-◌, ◌*◌, ◌/◌, ◌%◌, Bool, true, false, Option, none, some, List, set,
  replicate, ltb, leb, ◌==◌, ◌&&◌, not, if◌then◌else◌, bit_and, ◌<<<◌, u32, sub32, ceil_div,
}
use vbbu.Ra.Types.{DlDci, Alloc, type0, type1, type2, other, Type2, ng1, loc}
use vbbu.Ra.Type2.{type0_p, type1_n_rb, type2_ngap, type2_n_vrb_dl}
use vbbu.Ra.Tbs.{max_prb}

-- `prb_idx` of one slot and `nof_prb` of the grant.
abbrev pub Marks : Type 0
Marks = List Bool × ℕ

unfoldable pub mark : ℕ → List Bool → Option (List Bool)
mark i prbs = if ltb i max_prb then some (set prbs i true) else none

-- `prb_idx[0][i] = true; nof_prb++;`
unfoldable pub mark_counted : ℕ → Marks → Option Marks
mark_counted i (prbs, n) = elim (mark i prbs) [ none ↦ none | some prbs' ↦ some (prbs', suc n) ]

abbrev pub unmarked : List Bool
unmarked = replicate max_prb false

-- `bitmask & (1 << shift)`
unfoldable pub bit_set : ℕ → ℕ → Bool
bit_set bitmask shift = not (bit_and bitmask (1 <<< shift) == 0)

-- Type 0: the `k` blocks from `prb` on, inside the cell.
unfoldable pub type0_group : ℕ → ℕ → ℕ → Marks → Option Marks
type0_group zero prb nof_prb m = some m
type0_group (suc k) prb nof_prb m =
    if ltb prb nof_prb
    then elim (mark_counted prb m) [ none ↦ none | some m' ↦ type0_group k (suc prb) nof_prb m' ]
    else type0_group k (suc prb) nof_prb m

-- Type 0: the `k` groups from `i` on; the first group has the highest bit.
unfoldable pub type0_loop : ℕ → ℕ → ℕ → ℕ → Marks → Option Marks
type0_loop zero i bitmask nof_prb m = some m
type0_loop (suc k) i bitmask nof_prb m =
    let p = type0_p nof_prb in
    if bit_set bitmask k
    then elim (type0_group p (i * p) nof_prb m) [
      | none ↦ none
      | some m' ↦ type0_loop k (suc i) bitmask nof_prb m'
    ]
    else type0_loop k (suc i) bitmask nof_prb m

-- Type 1: `n_rb_rbg_subset`
unfoldable pub subset_size : ℕ → ℕ → ℕ
subset_size subset nof_prb =
    let p = type0_p nof_prb in
    let base = sub32 nof_prb 1 / (p * p) * p in
    if ltb subset (nof_prb / p % p)
    then base + p
    else if subset == nof_prb / p % p
    then base + sub32 nof_prb 1 % p + 1
    else base

-- Type 1: the `k` blocks from `i` on; `shift` is an `int`, of which the uint32_t image is added.
unfoldable pub type1_loop : ℕ → ℕ → ℕ → ℕ → ℕ → ℕ → Marks → Option Marks
type1_loop zero i bitmask subset shift p m = some m
type1_loop (suc k) i bitmask subset shift p m =
    if bit_set bitmask k
    then (let at = u32 (i + shift) in
        elim (mark_counted (u32 (at / p * p * p + subset * p + at % p)) m) [
          | none ↦ none
          | some m' ↦ type1_loop k (suc i) bitmask subset shift p m'
        ])
    else type1_loop k (suc i) bitmask subset shift p m

-- Type 2, localized: the `k` blocks from `prb` on.
unfoldable pub run_loop : ℕ → ℕ → Marks → Option Marks
run_loop zero prb m = some m
run_loop (suc k) prb m = elim (mark_counted prb m) [
  | none ↦ none
  | some m' ↦ run_loop k (suc prb) m'
]

-- Type 2, distributed: the constants of the interleaver.
pub record Spread : Type 0 where
  pub tilde : ℕ
  pub gap : ℕ
  pub rows : ℕ
  pub nulls : ℕ

unfoldable pub spread : ℕ → ℕ → Spread
spread n_gap nof_prb =
    let p = type0_p nof_prb in
    let tilde =
      if n_gap == ng1 then type2_n_vrb_dl nof_prb true else 2 * type2_n_vrb_dl nof_prb true in
    let rows = ceil_div tilde (4 * p) * p in
    record {
      tilde = tilde;
      gap = type2_ngap nof_prb (n_gap == ng1);
      rows = rows;
      nulls = 4 * rows - tilde;
    }

-- `n_tilde_prb_odd` of a virtual block.
unfoldable pub tilde_odd : Spread → ℕ → ℕ
tilde_odd s n_vrb =
    let v = n_vrb % s.tilde in
    let units = s.tilde * (n_vrb / s.tilde) in
    let prb = 2 * s.rows * (v % 2) + v / 2 + units in
    let prb2 = s.rows * (v % 4) + v / 4 + units in
    let late = not (s.nulls == 0) && leb (s.tilde - s.nulls) v in
    let early = not (s.nulls == 0) && ltb v (s.tilde - s.nulls) in
    if late && v % 2 == 1
    then prb - s.rows
    else if late && v % 2 == 0
    then prb + s.nulls / 2 - s.rows
    else if early && leb 2 (v % 4)
    then prb2 - s.nulls / 2
    else prb2

-- `n_tilde_prb_even`
unfoldable pub tilde_even : Spread → ℕ → ℕ
tilde_even s n_vrb = (tilde_odd s n_vrb + s.tilde / 2) % s.tilde + s.tilde * (n_vrb / s.tilde)

-- The physical block: the second half of the numbers lies behind the gap.
unfoldable pub past_gap : Spread → ℕ → ℕ
past_gap s i = if ltb i (s.tilde / 2) then i else i + s.gap - s.tilde / 2

-- Type 2, distributed: the `k` virtual blocks from `n_vrb` on, in both slots.
unfoldable pub dist_loop :
    ℕ → ℕ → Spread → List Bool × List Bool × ℕ → Option (List Bool × List Bool × ℕ)
dist_loop zero n_vrb s m = some m
dist_loop (suc k) n_vrb s (prb0, prb1, n) = elim (mark (past_gap s (tilde_odd s n_vrb)) prb0) [
  | none ↦ none
  | some prb0' ↦ elim (mark (past_gap s (tilde_even s n_vrb)) prb1) [
    | none ↦ none
    | some prb1' ↦ dist_loop k (suc n_vrb) s (prb0', prb1', suc n)
  ]
]

-- `memcpy(&grant->prb_idx[1], &grant->prb_idx[0], ...)`
unfoldable pub both_slots : Option Marks → Option (List Bool × List Bool × ℕ)
both_slots none = none
both_slots (some (prbs, n)) = some (prbs, prbs, n)

-- `dl_dci_to_grant_prb_allocation`: `prb_idx[0]`, `prb_idx[1]` and `nof_prb`. `SRSLTE_ERROR` is
-- `some none`.
unfoldable pub prb_allocation : Alloc → ℕ → Option (Option (List Bool × List Bool × ℕ))
prb_allocation (type0 mask) nof_prb =
    elim (both_slots
      (type0_loop (ceil_div nof_prb (type0_p nof_prb)) 0 mask nof_prb (unmarked, 0))) [
        | none ↦ none
        | some m ↦ some (some m)
      ]
prb_allocation (type1 mask subset shift) nof_prb =
    let n = type1_n_rb nof_prb in
    let by = if shift then sub32 (subset_size subset nof_prb) n else 0 in
    elim (both_slots (type1_loop n 0 mask subset by (type0_p nof_prb) (unmarked, 0))) [
      | none ↦ none
      | some m ↦ some (some m)
    ]
prb_allocation (type2 a) nof_prb =
    elim (if a.mode == loc
      then both_slots (run_loop a.l_crb a.rb_start (unmarked, 0))
      else dist_loop a.l_crb a.rb_start (spread a.n_gap nof_prb) (unmarked, unmarked, 0)) [
        | none ↦ none
        | some m ↦ some (some m)
      ]
prb_allocation (other t) nof_prb = some none
