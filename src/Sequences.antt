-- ===== src/Sequences.antt =====
-- The pseudo random sequences of srslte/lib/common/sequence.c, and their seeds for the channels,
-- srslte/lib/phch/sequences.c. The channels set the structure to zeros first, so that
-- srslte_sequence_init allocates the arrays; the copies of the sequence as numbers are left out.
pub mod Gold
mod Tests
use vbbu.Prelude.{
  ℕ, zero, suc, ◌+◌, ◌*◌, ◌/◌, ◌%◌, ◌^◌, bit_and, Bool, true, false, Option, some, List, [], ◌∷◌,
  get_or, set, replicate, if◌then◌else◌, ◌<<<◌, ◌>>>◌, u32,
}
use vbbu.Prelude.Options.{◌>>=◌}
use vbbu.Bit.{pack_vector}

-- `srslte_sequence_t`, less its copies as floating point and short numbers.
pub record Sequence : Type 0 where
  pub c : List ℕ
  pub c_bytes : List ℕ
  pub len : ℕ

-- `Nc`
abbrev pub nc : ℕ
nc = 1600

-- The next values of the arrays `x1` and `x2`, by the values from index `n` on.
unfoldable pub next_x1 : (ℕ → ℕ) → ℕ
next_x1 x = bit_and (x 3 + x 0) 1

unfoldable pub next_x2 : (ℕ → ℕ) → ℕ
next_x2 x = bit_and (x 3 + x 2 + x 1 + x 0) 1

-- The loop that stores the next values, for one of the arrays, with `k` rounds left.
unfoldable pub fill_loop : ((ℕ → ℕ) → ℕ) → ℕ → ℕ → List ℕ → List ℕ
fill_loop next zero n x = x
fill_loop next (suc k) n x =
    fill_loop next k (n + 1) (set x (n + 31) (next (λ i. get_or x (n + i) 0)))

-- The loop that stores the seed, with `k` rounds left.
unfoldable pub seed_loop : ℕ → ℕ → ℕ → List ℕ → List ℕ
seed_loop seed zero n x = x
seed_loop seed (suc k) n x = seed_loop seed k (n + 1) (set x n (bit_and (seed >>> n) 1))

-- The array `x1` and the array `x2` when their loops are done.
unfoldable pub array1 : ℕ → List ℕ
array1 len = fill_loop next_x1 (nc + len) 0 (set (replicate (nc + len + 31) 0) 0 1)

unfoldable pub array2 : ℕ → ℕ → List ℕ
array2 len seed = fill_loop next_x2 (nc + len) 0 (seed_loop seed 31 0 (replicate (nc + len + 31) 0))

-- The loop over `c`, with `k` rounds left.
unfoldable pub sum_loop : List ℕ → List ℕ → ℕ → ℕ → List ℕ
sum_loop x1 x2 zero n = []
sum_loop x1 x2 (suc k) n =
    bit_and (get_or x1 (n + nc) 0 + get_or x2 (n + nc) 0) 1 ∷ sum_loop x1 x2 k (n + 1)

-- `srslte_sequence_set_LTE_pr`: the array `c`.
unfoldable pub set_lte_pr : ℕ → ℕ → List ℕ
set_lte_pr len seed = sum_loop (array1 len) (array2 len seed) len 0

-- `srslte_sequence_LTE_pr` on a structure of zeros.
unfoldable pub sequence_lte_pr : ℕ → ℕ → Option Sequence
sequence_lte_pr len seed =
    let c = set_lte_pr len seed in
    pack_vector len c >>= λ packed. some (record { c = c; c_bytes = packed.0; len = len })

-- The channels of srslte/lib/phch/sequences.c.
unfoldable pub pbch_len : Bool → ℕ
pbch_len normal = if normal then 1920 else 1728

unfoldable pub sequence_pbch : Bool → ℕ → Option Sequence
sequence_pbch normal cell_id = sequence_lte_pr (pbch_len normal) cell_id

unfoldable pub pcfich_seed : ℕ → ℕ → ℕ
pcfich_seed nslot cell_id = u32 ((nslot / 2 + 1) * (2 * cell_id + 1) * 512 + cell_id)

unfoldable pub sequence_pcfich : ℕ → ℕ → Option Sequence
sequence_pcfich nslot cell_id = sequence_lte_pr 32 (pcfich_seed nslot cell_id)

unfoldable pub sequence_phich : ℕ → ℕ → Option Sequence
sequence_phich nslot cell_id = sequence_lte_pr 12 (pcfich_seed nslot cell_id)

unfoldable pub pdcch_seed : ℕ → ℕ → ℕ
pdcch_seed nslot cell_id = u32 (nslot / 2 * 512 + cell_id)

unfoldable pub sequence_pdcch : ℕ → ℕ → ℕ → Option Sequence
sequence_pdcch nslot cell_id len = sequence_lte_pr len (pdcch_seed nslot cell_id)

unfoldable pub pdsch_seed : ℕ → ℕ → ℕ → ℕ → ℕ
pdsch_seed rnti q nslot cell_id = u32 (rnti <<< 14 + q <<< 13 + (nslot / 2) <<< 9 + cell_id)

unfoldable pub sequence_pdsch : ℕ → ℕ → ℕ → ℕ → ℕ → Option Sequence
sequence_pdsch rnti q nslot cell_id len = sequence_lte_pr len (pdsch_seed rnti q nslot cell_id)

unfoldable pub pusch_seed : ℕ → ℕ → ℕ → ℕ
pusch_seed rnti nslot cell_id = u32 (rnti <<< 14 + (nslot / 2) <<< 9 + cell_id)

unfoldable pub sequence_pusch : ℕ → ℕ → ℕ → ℕ → Option Sequence
sequence_pusch rnti nslot cell_id len = sequence_lte_pr len (pusch_seed rnti nslot cell_id)

unfoldable pub pucch_seed : ℕ → ℕ → ℕ → ℕ
pucch_seed rnti nslot cell_id = u32 (((nslot / 2 + 1) * (2 * cell_id + 1)) <<< 16 + rnti)

unfoldable pub sequence_pucch : ℕ → ℕ → ℕ → Option Sequence
sequence_pucch rnti nslot cell_id = sequence_lte_pr 20 (pucch_seed rnti nslot cell_id)
