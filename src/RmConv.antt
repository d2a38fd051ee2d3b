-- ===== src/RmConv.antt =====
-- Rate matching of the convolutional code, srslte/lib/fec/rm_conv.c. An array has the entries that
-- are read. The receiver is written twice in the source, for float and for int16_t: it is modelled
-- once, over the type of the soft values.
pub mod Positions
pub mod Counts
pub mod Circular
pub mod Follow
pub mod Ends
pub mod Inverse
pub mod RoundTrip
pub mod Integers
mod Tests
use vbbu.Prelude.{
  ℕ, zero, suc, ◌+◌, ◌-◌, ◌*◌, ◌/◌, ◌%◌, Bool, true, false, Option, none, some, List, [], ◌∷◌,
  get_or, set, replicate, length, concat_from, ltb, ◌==◌, if◌then◌else◌, Status, success, error,
  sub32,
}
use vbbu.Prelude.Options.{◌>>=◌}
use vbbu.Turbo.Coder.{tx_null}

-- `RM_PERM_CC` and `RM_PERM_CC_INV`
abbrev pub rm_perm_cc : List ℕ
rm_perm_cc =
    1 ∷ 17 ∷ 9 ∷ 25 ∷ 5 ∷ 21 ∷ 13 ∷ 29 ∷ 3 ∷ 19 ∷ 11 ∷ 27 ∷ 7 ∷ 23 ∷ 15 ∷ 31 ∷ 0 ∷ 16 ∷ 8 ∷ 24 ∷ 4
    ∷ 20 ∷ 12 ∷ 28 ∷ 2 ∷ 18 ∷ 10 ∷ 26 ∷ 6 ∷ 22 ∷ 14 ∷ 30 ∷ []

abbrev pub rm_perm_cc_inv : List ℕ
rm_perm_cc_inv =
    16 ∷ 0 ∷ 24 ∷ 8 ∷ 20 ∷ 4 ∷ 28 ∷ 12 ∷ 18 ∷ 2 ∷ 26 ∷ 10 ∷ 22 ∷ 6 ∷ 30 ∷ 14 ∷ 17 ∷ 1 ∷ 25 ∷ 9 ∷ 21
    ∷ 5 ∷ 29 ∷ 13 ∷ 19 ∷ 3 ∷ 27 ∷ 11 ∷ 23 ∷ 7 ∷ 31 ∷ 15 ∷ []

-- `nrows`, for an array of `len` entries; the subtraction is of uint32_t.
unfoldable pub nrows_of : ℕ → ℕ
nrows_of len = sub32 (len / 3) 1 / 32 + 1

-- `ndummy`: an int that is set to 0 where it is negative.
unfoldable pub ndummy_of : ℕ → ℕ
ndummy_of len = nrows_of len * 32 - len / 3

-- The index that the sub-block interleaver has in column `j` and row `i`.
unfoldable pub cell : ℕ → ℕ → ℕ
cell j i = i * 32 + get_or rm_perm_cc j 0

-- An entry of `tmp` in `srslte_rm_conv_tx`.
unfoldable pub tx_entry : List ℕ → ℕ → ℕ → ℕ → ℕ → ℕ
tx_entry input ndummy s j i =
    if ltb (cell j i) ndummy then tx_null else get_or input ((cell j i - ndummy) * 3 + s) 0

-- The sub-block interleaver: the array `tmp`.
unfoldable pub tx_column : List ℕ → ℕ → ℕ → ℕ → ℕ → List ℕ
tx_column input nrows ndummy s j = concat_from nrows 0 (λ i. tx_entry input ndummy s j i ∷ [])

unfoldable pub tx_stream : List ℕ → ℕ → ℕ → ℕ → List ℕ
tx_stream input nrows ndummy s = concat_from 32 0 (tx_column input nrows ndummy s)

unfoldable pub tx_block : List ℕ → ℕ → ℕ → List ℕ
tx_block input nrows ndummy = concat_from 3 0 (tx_stream input nrows ndummy)

-- `j++` in a buffer of `size` entries.
unfoldable pub step : ℕ → ℕ → ℕ
step size j = if j + 1 == size then 0 else j + 1

-- The bit collection, with fuel and `k` entries left; `none` means that the fuel ran out.
unfoldable pub collect : ℕ → List ℕ → ℕ → ℕ → ℕ → Option (List ℕ)
collect fuel tmp size zero j = some []
collect zero tmp size (suc k) j = none
collect (suc fuel) tmp size (suc k) j = elim (get_or tmp j 0 == tx_null) [
  | true ↦ collect fuel tmp size (suc k) (step size j)
  | false ↦ collect fuel tmp size k (step size j) >>= λ out. some (get_or tmp j 0 ∷ out)
]

-- `srslte_rm_conv_tx`: the entries written to `output`. The fuel is a lap for each of them.
unfoldable pub rm_conv_tx : List ℕ → ℕ → ℕ → Option (Status × List ℕ)
rm_conv_tx input in_len out_len =
    let nrows = nrows_of in_len in
    let tmp = tx_block input nrows (ndummy_of in_len) in
    if ltb 32 nrows
    then some (error, [])
    else (collect (out_len * (3 * (nrows * 32))) tmp (3 * (nrows * 32)) out_len 0 >>= λ output.
        some (success, output))

-- Soft values, with `SRSLTE_RX_NULL`.
pub record Soft {ℓ} (A : Type ℓ) : Type ℓ where
  pub rx_null : A
  pub nothing : A
  pub is_null : A → Bool
  pub add : A → A → A

module _ {ℓ} {A : Type ℓ} (soft : Soft A) where
  open soft use {rx_null, nothing, is_null, add}

  -- The value that a received one leaves at its place.
  unfoldable pub combine : A → A → A
  combine old x = if is_null old then x else if is_null x then old else add old x

  -- Undoing the bit collection, with fuel.
  unfoldable pub spread_loop : ℕ → ℕ → ℕ → List A → ℕ → List A → Option (List A)
  spread_loop fuel nrows ndummy [] j tmp = some tmp
  spread_loop zero nrows ndummy (x ∷ input) j tmp = none
  spread_loop (suc fuel) nrows ndummy (x ∷ input) j tmp =
      elim (ltb (cell (j % (nrows * 32) / nrows) (j % (nrows * 32) % nrows)) ndummy) [
        | true ↦ spread_loop fuel nrows ndummy (x ∷ input) (step (3 * (nrows * 32)) j) tmp
        | false ↦
            spread_loop fuel nrows ndummy input (step (3 * (nrows * 32)) j)
              (set tmp j (combine (get_or tmp j rx_null) x))
      ]

  -- An entry of `output`.
  unfoldable pub rx_entry : List A → ℕ → ℕ → ℕ → ℕ → A
  rx_entry tmp nrows ndummy i s =
      let o =
        get_or tmp
          (nrows * 32 * s + get_or rm_perm_cc_inv ((i + ndummy) % 32) 0 * nrows + (i + ndummy) / 32)
          rx_null in
      if is_null o then nothing else o

  unfoldable pub rx_entries : List A → ℕ → ℕ → ℕ → List A
  rx_entries tmp nrows ndummy n =
      concat_from n 0 (λ i. concat_from 3 0 (λ s. rx_entry tmp nrows ndummy i s ∷ []))

  -- `srslte_rm_conv_rx` and `srslte_rm_conv_rx_s`, of the `in_len` entries of a list: the entries
  -- written to `output`.
  unfoldable pub rm_conv_rx : List A → ℕ → Option (Status × List A)
  rm_conv_rx input out_len =
      let nrows = nrows_of out_len in
      let ndummy = ndummy_of out_len in
      let size = 3 * (nrows * 32) in
      if ltb 32 nrows
      then some (error, [])
      else (spread_loop (length input * size) nrows ndummy input 0 (replicate size rx_null)
          >>= λ tmp. some (success, rx_entries tmp nrows ndummy (out_len / 3)))
