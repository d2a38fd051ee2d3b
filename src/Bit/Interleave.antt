-- ===== src/Bit/Interleave.antt =====
-- srslte/lib/utils/bit.c, the interleaving of packed bits. `none` is an access past the end of one of
-- the arrays.
pub mod Picks
pub mod Whole
use vbbu.Prelude.{
  ℕ, zero, suc, ◌+◌, ◌-◌, ◌*◌, ◌/◌, ◌%◌, ◌^◌, bit_and, bit_or, Bool, true, false, not, ◌&&◌, Option,
  none, some, List, [], ◌∷◌, get_elem?, get_or, ltb, ◌==◌, if◌then◌else◌, u32, sub32, set,
}
use vbbu.Prelude.Options.{◌>>=◌}

-- `mask`
abbrev pub mask : ℕ → ℕ
mask j = get_or (0x80 ∷ 0x40 ∷ 0x20 ∷ 0x10 ∷ 0x8 ∷ 0x4 ∷ 0x2 ∷ 0x1 ∷ []) j 0

-- `input[i_p/8] & mask[i_p%8]` for the `i_p` that stands at an index of the interleaver.
unfoldable pub tapped : List ℕ → List ℕ → ℕ → Option Bool
tapped input interleaver index = do
  i_p ← get_elem? interleaver index
  b ← get_elem? input (i_p / 8)
  some (not (bit_and b (mask (i_p % 8)) == 0))

unfoldable pub update : List ℕ → ℕ → (ℕ → ℕ) → Option (List ℕ)
update output cell f = do b ← get_elem? output cell; some (set output cell (f b))

-- `output[cell] |= mask[m]` or `output[cell] &= ~mask[m]`
unfoldable pub put : ℕ → Bool → ℕ → ℕ
put m on b = if on then bit_or b (mask m) else bit_and b (255 - mask m)

-- One of the loops over single bits with `n` rounds left: the entries of the interleaver from
-- `from` on go to the bits of one byte of the output from `m` on.
unfoldable pub bits_loop : List ℕ → List ℕ → ℕ → ℕ → ℕ → ℕ → List ℕ → Option (List ℕ)
bits_loop input interleaver cell from m zero output = some output
bits_loop input interleaver cell from m (suc n) output =
    tapped input interleaver (u32 from) >>= λ on. update output cell (put m on) >>= λ output'.
    bits_loop input interleaver cell (from + 1) (m + 1) n output'

-- `out0 | .. | out7`, from bit `k` on.
unfoldable pub gather : List ℕ → List ℕ → ℕ → ℕ → ℕ → ℕ → Option ℕ
gather input interleaver from k zero acc = some acc
gather input interleaver from k (suc n) acc = tapped input interleaver (u32 (from + k)) >>= λ on.
    gather input interleaver from (k + 1) n (bit_or acc (if on then mask k else 0))

-- The loop over whole bytes with `n` rounds left, from byte `i` on.
unfoldable pub bytes_loop : List ℕ → List ℕ → ℕ → ℕ → ℕ → List ℕ → Option (List ℕ)
bytes_loop input interleaver w_offset_p i zero output = some output
bytes_loop input interleaver w_offset_p i (suc n) output =
    gather input interleaver (sub32 (u32 (i * 8)) w_offset_p) 0 8 0 >>= λ out.
    update output i (λ _. out) >>= λ output'.
    bytes_loop input interleaver w_offset_p (i + 1) n output'

-- `srslte_bit_interleave_w_offset`: the output buffer, from the one that is passed.
unfoldable pub bit_interleave_w_offset : List ℕ → List ℕ → List ℕ → ℕ → ℕ → Option (List ℕ)
bit_interleave_w_offset input output interleaver nof_bits w_offset = do
  let st = if ltb w_offset 8 && ltb 0 w_offset then 1 else 0
  let w_offset_p = if ltb w_offset 8 && ltb 0 w_offset then 8 - w_offset else 0
  first ← bits_loop input interleaver 0 0 w_offset w_offset_p output
  whole ← bytes_loop input interleaver w_offset_p st (nof_bits / 8 - st) first
  let from = sub32 (u32 (nof_bits / 8 * 8)) w_offset
  rest ← bits_loop input interleaver (nof_bits / 8) from 0 (nof_bits % 8) whole
  bits_loop input interleaver (nof_bits / 8) from 0 w_offset rest

-- `srslte_bit_interleave`
unfoldable pub bit_interleave : List ℕ → List ℕ → List ℕ → ℕ → Option (List ℕ)
bit_interleave input output interleaver nof_bits =
    bit_interleave_w_offset input output interleaver nof_bits 0
