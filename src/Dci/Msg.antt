-- ===== src/Dci/Msg.antt =====
-- The message buffer of srslte/include/srslte/phch/dci.h. A packing function moves a pointer `y`
-- over `msg->data` from its first byte on; what it does there is a list of slots.
pub mod Facts
use mathlib.Core.Option
use vbbu.Prelude.{
  ℕ, zero, suc, ◌+◌, ◌-◌, Option, none, some, List, [], ◌∷◌, ◌++◌, map, length, replicate, u8, Bool,
}
pub use vbbu.Prelude.{Status, success, error}
use vbbu.Bit.{unpack, Reader}
use vbbu.Dci.Size.{Format}

-- `srslte_dci_msg_t`; `data` has `SRSLTE_DCI_MAX_BITS` bytes.
pub record Msg : Type 0 where
  pub bytes : List ℕ
  pub nof_bits : ℕ
  pub format : Format

abbrev pub max_bits : ℕ
max_bits = 128

-- `*y++ = b` is `some b`; `y++` alone, which leaves the byte as it is, is `none`.
abbrev pub Slot : Type 0
Slot = Option ℕ

-- The slots of `srslte_bit_unpack (value, &y, nof_bits)`.
unfoldable pub bits : ℕ → ℕ → List Slot
bits value nof_bits = map some (unpack value nof_bits)

-- The buffer after the slots have been filled from its first byte on; `none` is a write past its
-- end. A store into a uint8_t keeps 8 bits.
unfoldable pub overlay : List Slot → List ℕ → Option (List ℕ)
overlay [] bytes = some bytes
overlay (s ∷ slots) [] = none
overlay (some b ∷ slots) (x ∷ bytes) = Option.map (λ rest. u8 b ∷ rest) (overlay slots bytes)
overlay (none ∷ slots) (x ∷ bytes) = Option.map (λ rest. x ∷ rest) (overlay slots bytes)

-- `while (y - msg->data < n) *y++ = 0;`
unfoldable pub pad : ℕ → List Slot → List Slot
pad n slots = slots ++ replicate (n - length slots) (some 0)

-- What a packing function leaves in the message: `nof_bits` is set only on success.
unfoldable pub store : Status → List Slot → Msg → Option (Status × Msg)
unfolding overlay
store success slots msg =
    Option.map (λ bytes. (success, record msg { bytes = bytes; nof_bits = length slots }))
      (overlay slots msg.bytes)
store error slots msg =
    Option.map (λ bytes. (error, record msg { bytes = bytes })) (overlay slots msg.bytes)

-- An unpacking function reads `msg->data` from its first byte on.
abbrev pub run : {A : Type 0} → Reader A → Msg → Option A
run m msg = Option.map (λ r. r.0) (m msg.bytes)
