-- ===== src/RmConv/Ends.antt =====
-- The bit collection of srslte_rm_conv_tx, srslte/lib/fec/rm_conv.c, ends.
use vbbu.Prelude.{
  ℕ, ◌+◌, ◌-◌, ◌*◌, ◌≤◌, ◌≡◌, ◌≢◌, refl, sym, ◌∙◌, false, some, List, get_or, length, ge→ltb, ◌==◌,
  ==_iff, arith, success,
}
use vbbu.Turbo.Coder.{tx_null}
use vbbu.RmConv.{nrows_of, ndummy_of, cell, tx_entry, tx_block, collect, rm_conv_tx}
use vbbu.RmConv.Positions.{IsShape, shape, get_or-tx_block_at}
use vbbu.RmConv.Counts.{tx_entry-null}
use vbbu.RmConv.Circular.{collect-laps}

module _ (input : List ℕ) (in_len : ℕ) (low : 3 ≤ in_len) (high : in_len ≤ 3072) where
  abbrev rows : ℕ
  rows = nrows_of in_len

  abbrev blanks : ℕ
  blanks = ndummy_of in_len

  abbrev buffer : List ℕ
  buffer = tx_block input rows blanks

  form : IsShape in_len rows blanks
  form = shape in_len low high

  pub rm_conv_tx-collect :
      (out_len : ℕ) {out : List ℕ}
      → collect (out_len * (3 * (rows * 32))) buffer (3 * (rows * 32)) out_len 0 ≡ some out
      → rm_conv_tx input in_len out_len ≡ some (success, out)
  unfolding rm_conv_tx
  rm_conv_tx-collect out_len e = rw (ge→ltb 32 rows form.few_rows) (rw e refl)

  module _ (whole : (i : ℕ) → get_or input i 0 ≢ tx_null) where
    -- The last place of column 15 is never a dummy.
    buffer-entry : get_or buffer (0 * (rows * 32) + (15 * rows + (rows - 1))) 0 ≢ tx_null
    buffer-entry = λ e.
        let last : (tx_entry input blanks 0 15 (rows - 1) == tx_null) ≡ false =
          tx_entry-null input whole blanks form.few_dummies 0 15 (rows - 1)
          ∙ (unfold cell in
              ge→ltb ((rows - 1) * 32 + 31) blanks (omega (arith, form.few_dummies))) in
        let same =
          sym (
            get_or-tx_block_at input rows blanks form.some_rows 0 15 (rows - 1) (omega arith)
              (omega arith) (omega (arith, form.some_rows)))
          ∙ e in
        cc (last, (==_iff (tx_entry input blanks 0 15 (rows - 1)) tx_null).1 same)

    pub buffer-ends :
        (out_len : ℕ)
        → (out : List ℕ) × (collect (out_len * (3 * (rows * 32))) buffer (3 * (rows * 32)) out_len 0
            ≡ some out)
          × (length out ≡ out_len)
    buffer-ends out_len =
        collect-laps buffer (3 * (rows * 32)) (0 * (rows * 32) + (15 * rows + (rows - 1))) out_len
          (omega (arith, form.some_rows)) buffer-entry

-- For an array of 3 to 3072 entries, none of them the null value, the loop of srslte_rm_conv_tx ends
-- whatever output length is asked for, and as many entries are written.
pub rm_conv_tx-ends :
    (input : List ℕ) (in_len out_len : ℕ)
    → 3 ≤ in_len
    → in_len ≤ 3072
    → ((i : ℕ) → get_or input i 0 ≢ tx_null)
    → (out : List ℕ) × (rm_conv_tx input in_len out_len ≡ some (success, out))
      × (length out ≡ out_len)
rm_conv_tx-ends input in_len out_len low high whole =
    let e = buffer-ends input in_len low high whole out_len in
    (e.0, rm_conv_tx-collect input in_len low high out_len e.1, e.2)
