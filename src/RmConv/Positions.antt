-- ===== src/RmConv/Positions.antt =====
-- Where the entries of an array stand in the buffer of srslte/lib/fec/rm_conv.c.
use native.Mathlib.Nat.{div-lt_iff_lt-mul, mod-lt}
use vbbu.Prelude.{
  ℕ, ◌+◌, ◌-◌, ◌*◌, ◌/◌, ◌%◌, ◌≤◌, ◌<◌, ◌≡◌, refl, ◌∙◌, List, [], ◌∷◌, get_or, length, arith, sub32,
  length-concat_from, get_or-concat_from,
}
use vbbu.RmConv.{nrows_of, ndummy_of, tx_entry, tx_column, tx_stream, tx_block}

-- The shape of the buffer for an array of at most 3 * 1024 entries.
pub record IsShape (len nrows ndummy : ℕ) : Type 0 where
  pub some_rows : 0 < nrows
  pub few_rows : nrows ≤ 32
  pub few_dummies : ndummy < 32
  pub rest : nrows * 32 ≡ len / 3 + ndummy

pub shape : (len : ℕ) → 3 ≤ len → len ≤ 3072 → IsShape len (nrows_of len) (ndummy_of len)
unfolding nrows_of ndummy_of
shape len low high =
    let e : sub32 (len / 3) 1 ≡ len / 3 - 1 = omega arith in
    rw e (record {
      some_rows = omega arith;
      few_rows = omega arith;
      few_dummies = omega arith;
      rest = omega arith;
    })

module _ (input : List ℕ) (nrows ndummy : ℕ) (pos : 0 < nrows) where
  length-tx_column : (s j : ℕ) → length (tx_column input nrows ndummy s j) ≡ nrows
  unfolding tx_column
  length-tx_column s j =
      length-concat_from (λ i. tx_entry input ndummy s j i ∷ []) 1 (λ i. refl) nrows 0 ∙ omega arith

  length-tx_stream : (s : ℕ) → length (tx_stream input nrows ndummy s) ≡ nrows * 32
  unfolding tx_stream
  length-tx_stream s =
      length-concat_from (tx_column input nrows ndummy s) nrows (length-tx_column s) 32 0
      ∙ omega arith

  get_or-tx_column :
      (s j i : ℕ)
      → i < nrows
      → get_or (tx_column input nrows ndummy s j) i 0 ≡ tx_entry input ndummy s j i
  unfolding tx_column
  get_or-tx_column s j i h =
      let e : i * 1 + 0 ≡ i = omega arith in
      let e' : 0 + i ≡ i = omega arith in
      let found =
        get_or-concat_from (λ i. tx_entry input ndummy s j i ∷ []) 1 (λ i. refl) nrows 0 i 0 0 h
          (omega arith) in
      rw e' at (rw e at found)

  get_or-tx_stream :
      (s j i : ℕ)
      → j < 32
      → i < nrows
      → get_or (tx_stream input nrows ndummy s) (j * nrows + i) 0 ≡ tx_entry input ndummy s j i
  unfolding tx_stream
  get_or-tx_stream s j i hj hi =
      let e : 0 + j ≡ j = omega arith in
      rw e at (
        get_or-concat_from (tx_column input nrows ndummy s) nrows (length-tx_column s) 32 0 j i 0 hj
          hi)
      ∙ get_or-tx_column s j i hi

  pub get_or-tx_block_at :
      (s j i : ℕ)
      → s < 3
      → j < 32
      → i < nrows
      → get_or (tx_block input nrows ndummy) (s * (nrows * 32) + (j * nrows + i)) 0
        ≡ tx_entry input ndummy s j i
  unfolding tx_block
  get_or-tx_block_at s j i hs hj hi =
      let e : 0 + s ≡ s = omega arith in
      rw e at (
        get_or-concat_from (tx_stream input nrows ndummy) (nrows * 32) length-tx_stream 3 0 s
          (j * nrows + i) 0 hs (grind arith))
      ∙ get_or-tx_stream s j i hj hi

  -- The entry at a place of the buffer, in the terms of the receiver.
  pub get_or-tx_block :
      (p : ℕ)
      → p < 3 * (nrows * 32)
      → get_or (tx_block input nrows ndummy) p 0
        ≡ tx_entry input ndummy
            (p / (nrows * 32))
            (p % (nrows * 32) / nrows)
            (p % (nrows * 32) % nrows)
  get_or-tx_block p h =
      let q : ℕ = p % (nrows * 32) in
      let size : 0 < nrows * 32 = omega arith in
      let whole : p / (nrows * 32) * (nrows * 32) + q ≡ p = grind arith in
      let part : q / nrows * nrows + q % nrows ≡ q = grind arith in
      let stream : p / (nrows * 32) < 3 = (div-lt_iff_lt-mul size).1 h in
      let column : q / nrows < 32 = (div-lt_iff_lt-mul pos).1 (omega (arith, mod-lt p size)) in
      let found =
        get_or-tx_block_at (p / (nrows * 32)) (q / nrows) (q % nrows) stream column (grind arith) in
      rw whole at (rw part at found)

  pub length-tx_block : length (tx_block input nrows ndummy) ≡ 3 * (nrows * 32)
  unfolding tx_block
  length-tx_block =
      length-concat_from (tx_stream input nrows ndummy) (nrows * 32) length-tx_stream 3 0
