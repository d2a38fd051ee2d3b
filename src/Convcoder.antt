-- ===== src/Convcoder.antt =====
-- The convolutional coder of srslte/lib/fec/convcoder.c. The parity of a word, which the code takes
-- from a copy of another library in parity.h, is a parameter.
pub mod Window
pub mod Register
pub mod Cyclic
mod Tests
use vbbu.Prelude.{
  ℕ, zero, suc, ◌+◌, ◌-◌, ◌*◌, ◌%◌, ◌^◌, bit_and, bit_or, Bool, true, false, Option, none, some,
  List, [], ◌∷◌, ◌++◌, get_or, take, drop, ltb, if◌then◌else◌, ◌<<<◌, u32,
}

-- `srslte_convcoder_t`: the rate, the constraint length and the generators.
pub record Convcoder : Type 0 where
  pub rate : ℕ
  pub k : ℕ
  pub poly : List ℕ
  pub tail_biting : Bool

-- `sr = (sr << 1) | bit`
unfoldable pub push : ℕ → ℕ → ℕ
push sr bit = bit_or (u32 (sr <<< 1)) bit

-- The loop that fills the register with the last bits of the frame.
unfoldable pub preload : ℕ → List ℕ → ℕ
preload sr [] = sr
preload sr (b ∷ bits) = preload (push sr (bit_and b 1)) bits

unfoldable pub start : Convcoder → List ℕ → ℕ → ℕ
start q input frame_length =
    if q.tail_biting then preload 0 (take (q.k - 1) (drop (frame_length - q.k + 1) input)) else 0

module _ (parity : ℕ → ℕ) where
  -- The loop over the generators, with `n` rounds left.
  unfoldable pub outputs : List ℕ → ℕ → ℕ → ℕ → List ℕ
  outputs poly sr zero j = []
  outputs poly sr (suc n) j = parity (bit_and sr (get_or poly j 0)) ∷ outputs poly sr n (j + 1)

  -- The loop over the bits, with `n` rounds left.
  unfoldable pub encode_loop : Convcoder → List ℕ → ℕ → ℕ → ℕ → ℕ → List ℕ
  encode_loop q input frame_length zero i sr = []
  encode_loop q input frame_length (suc n) i sr =
      let sr' = push sr (if ltb i frame_length then bit_and (get_or input i 0) 1 else 0) in
      outputs q.poly sr' q.rate 0 ++ encode_loop q input frame_length n (i + 1) sr'

  -- `srslte_convcoder_encode`: the bits written, as many as it returns; `none` is
  -- SRSLTE_ERROR_INVALID_INPUTS.
  unfoldable pub encode : Convcoder → List ℕ → ℕ → Option (List ℕ)
  encode q input frame_length =
      if ltb (q.k + 1) frame_length
      then some (
          encode_loop q input frame_length
            (if q.tail_biting then frame_length else frame_length + q.k - 1) 0
            (start q input frame_length))
      else none
