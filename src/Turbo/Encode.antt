-- ===== src/Turbo/Encode.antt =====
-- The two encoders of srslte/lib/fec/turbocoder.c with the tables that `srslte_tcod_gentable` fills.
use vbbu.Prelude.{
  ℕ, ◌+◌, ◌*◌, ◌/◌, ◌%◌, ◌≤◌, ◌≡◌, sym, some, List, [], ◌∷◌, ◌++◌, length, arith, bit_xor, success,
  ◌∙◌,
}
use mathlib.Core.Option.{some-injective}
use vbbu.Prelude.Bits.{bit_xor_self}
use vbbu.Bit.Octets.{bits_of, AllBytes}
use vbbu.Bit.Interleave.Picks.{Stays}
use vbbu.Cbsegm.{cbsize}
use vbbu.Cbsegm.Table.{cbsize_bounds}
use vbbu.Turbo.Coder.{encode, encode_lut, Regs, cleared, tail_loop, nof_regs, shift}
use vbbu.Turbo.Coder.Constituent.{column}
use vbbu.Turbo.Coder.Block.{encode_lut-encode_of_Stays, cbsize_bytes}
use vbbu.Turbo.Gentable.{gentable, gentable-Permutes, Permutes}

Stays-of_Permutes :
    (k : ℕ) (per bytes : List ℕ)
    → k % 8 ≡ 0
    → length bytes ≡ k / 8
    → Permutes k per
    → Stays bytes per k
Stays-of_Permutes k per bytes whole size p = record {
  entries = p.entries;
  inside = λ i h. omega (arith, p.inside i h);
}

-- With the tables of `srslte_tcod_gentable`, both functions succeed for each of the 188 code block
-- sizes, given as many bytes as the block has, a coder made for blocks of that size, and a scratch
-- buffer of that many bytes. The bits that `srslte_tcod_encode` writes for the bits of the bytes
-- are those of `srslte_tcod_encode_lut`: the first of each three are the input with the byte written
-- behind it, padded with zeros, and the second of each three, followed by the third of each three,
-- are the bits of `parity`.
pub encode_lut-encode :
    (junk max_long_cb : ℕ) (temp bytes : List ℕ) (cblen_idx long_cb : ℕ)
    → cbsize cblen_idx ≡ some long_cb
    → long_cb ≤ max_long_cb
    → length bytes ≡ long_cb / 8
    → AllBytes bytes
    → long_cb / 8 ≤ length temp
    → (out : List ℕ) × (systematic : ℕ) × (parity : List ℕ) × (encode max_long_cb
          (gentable junk)
          (bits_of bytes)
          long_cb
        ≡ some (success, out))
      × (encode_lut temp (gentable junk) bytes cblen_idx
          ≡ some (success, 3 * long_cb + 12, systematic, parity))
      × (column 0 out ++ (0 ∷ 0 ∷ 0 ∷ 0 ∷ []) ≡ bits_of (bytes ++ (systematic ∷ [])))
      × (column 1 out ++ column 2 out ≡ bits_of parity)
encode_lut-encode junk max_long_cb temp bytes cblen_idx long_cb e fits size small room =
    let (k, per, at, per_eq, p) =
      gentable-Permutes junk cblen_idx (cbsize_bounds cblen_idx long_cb e).0 in
    let same : k ≡ long_cb = some-injective k long_cb (sym at ∙ e) in
    let (n, n_eq, least, most) = cbsize_bytes cblen_idx long_cb e in
    encode_lut-encode_of_Stays max_long_cb temp (gentable junk) per bytes cblen_idx long_cb e per_eq
      fits size small (Stays-of_Permutes long_cb per bytes (omega arith) size (rw same at p)) room

-- Three tail rounds bring a constituent encoder from any registers back to the zero state.
pub tail_loop-cleared : (r : Regs) → (tail_loop nof_regs r).1 ≡ cleared
unfolding tail_loop shift
tail_loop-cleared r = λ i. record {
  reg_0 = bit_xor_self (bit_xor r.reg_0 (bit_xor in_bit in_bit)) i;
  reg_1 = bit_xor_self (bit_xor r.reg_1 r.reg_0) i;
  reg_2 = bit_xor_self in_bit i;
}
  where
    in_bit : ℕ
    in_bit = bit_xor r.reg_2 r.reg_1
