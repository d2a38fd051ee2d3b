-- ===== src/Dci/Msg/Facts.antt =====
-- What stands in the buffer behind the slots that were filled, and what a reader finds there.
use native.Mathlib.Nat.{mod-eq_of_lt}
use vbbu.Prelude.{
  ℕ, zero, suc, ◌-◌, ◌^◌, ◌≤◌, ◌<◌, ◌≡◌, refl, ap, ap₂, ◌∙◌, none, some, List, [], ◌∷◌, ◌++◌,
  length, drop, replicate, get_or, u8, arith, bit_and, ◌>>>◌, length-append, length-replicate,
  length-map, append_assoc, append-nil, Bool, true, false, bool_byte, is_set,
}
use vbbu.Prelude.Bits.{bit_and-one}
use vbbu.Bit.{unpack, pack}
use vbbu.Bit.RoundTrip.{length-unpack, pack-unpack}
use vbbu.Dci.Msg.{Msg, Slot, success, bits, overlay, pad, store}

-- The bytes under the slots, filled or kept.
unfoldable pub filled : List Slot → List ℕ → List ℕ
filled [] bytes = []
filled (some b ∷ slots) bytes = u8 b ∷ filled slots (drop 1 bytes)
filled (none ∷ slots) bytes = get_or bytes 0 0 ∷ filled slots (drop 1 bytes)

pub overlay-filled :
    (slots : List Slot) (bytes : List ℕ)
    → length slots ≤ length bytes
    → overlay slots bytes ≡ some (filled slots bytes ++ drop (length slots) bytes)
unfolding overlay filled
overlay-filled [] bytes h = refl
overlay-filled (s ∷ slots) [] h = absurd (omega arith)
overlay-filled (some b ∷ slots) (x ∷ bytes) h = rw (overlay-filled slots bytes (omega arith))
overlay-filled (none ∷ slots) (x ∷ bytes) h = rw (overlay-filled slots bytes (omega arith))

filled-append :
    (s t : List Slot) (bytes : List ℕ)
    → (rest : List ℕ) × (filled (s ++ t) bytes ≡ filled s bytes ++ rest)
unfolding filled
filled-append [] t bytes = (filled t bytes, refl)
filled-append (some b ∷ s) t bytes =
    let (rest, e) = filled-append s t (drop 1 bytes) in (rest, ap (λ l. u8 b ∷ l) e)
filled-append (none ∷ s) t bytes =
    let (rest, e) = filled-append s t (drop 1 bytes) in (rest, ap (λ l. get_or bytes 0 0 ∷ l) e)

unpack_fits : (x : ℕ) → u8 (bit_and x 1) ≡ bit_and x 1
unpack_fits x = omega (arith, bit_and-one x)

-- The bytes under `srslte_bit_unpack` are what it writes.
pub filled-bits :
    (v n : ℕ) (t : List Slot) (bytes : List ℕ)
    → (bytes' : List ℕ) × (filled (bits v n ++ t) bytes ≡ unpack v n ++ filled t bytes')
unfolding filled bits unpack
filled-bits v zero t bytes = (bytes, refl)
filled-bits v (suc n) t bytes =
    let (bytes', e) = filled-bits v n t (drop 1 bytes) in
    (bytes', ap₂ ◌∷◌ (unpack_fits (v >>> n)) e)

-- `srslte_bit_pack` of a field that was packed reads its value, and goes on behind it.
pub pack-bits :
    (v n : ℕ) (t : List Slot) (bytes rest : List ℕ)
    → n ≤ 32
    → v < 2 ^ n
    → (bytes' : List ℕ) × (pack n (filled (bits v n ++ t) bytes ++ rest)
        ≡ some (v, filled t bytes' ++ rest))
pack-bits v n t bytes rest h fits =
    let (bytes', e) = filled-bits v n t bytes in
    (
      bytes',
      rw e (
          rw (append_assoc (unpack v n) (filled t bytes') rest) (
            pack-unpack n v (filled t bytes' ++ rest) h
            ∙ ap (λ (x : ℕ). some (x, filled t bytes' ++ rest)) (mod-eq_of_lt fits))),
    )

-- The same for a last field.
pub pack-bits_last :
    (v n : ℕ) (bytes rest : List ℕ)
    → n ≤ 32
    → v < 2 ^ n
    → pack n (filled (bits v n) bytes ++ rest) ≡ some (v, rest)
unfolding filled
pack-bits_last v n bytes rest h fits =
    rw (append-nil (bits v n)) at ((pack-bits v n [] bytes rest h fits).1)

pub length-bits : (v n : ℕ) → length (bits v n) ≡ n
unfolding bits
length-bits v n = length-map (unpack v n) some ∙ length-unpack v n

-- A flag that was stored into a byte is read as itself.
pub is_set_stored : (b : Bool) → is_set (u8 (bool_byte b)) ≡ b
is_set_stored true = refl
is_set_stored false = refl

-- Padding reaches the size exactly, if the fields do not pass it.
length-pad : (n : ℕ) (slots : List Slot) → length slots ≤ n → length (pad n slots) ≡ n
unfolding pad
length-pad n slots h = omega (
  arith,
  length-append slots (replicate (n - length slots) (some 0)),
  length-replicate {A = Slot} (n - length slots) (some 0),
)

pub store-success :
    (slots : List Slot) (msg : Msg)
    → length slots ≤ length msg.bytes
    → store success slots msg
      ≡ some (
        success,
        record msg {
          bytes = filled slots msg.bytes ++ drop (length slots) msg.bytes;
          nof_bits = length slots;
        },
      )
unfolding store
store-success slots msg h = rw (overlay-filled slots msg.bytes h)

-- A successful packing of fields that fit into the size `n`, and the size into the buffer.
pub store-pad :
    (n : ℕ) (slots : List Slot) (msg : Msg)
    → length slots ≤ n
    → n ≤ length msg.bytes
    → (rest : List ℕ) × (store success (pad n slots) msg
        ≡ some (success, record msg { bytes = filled slots msg.bytes ++ rest; nof_bits = n }))
store-pad n slots msg h k = (
  padding.0 ++ tail,
  store-success (pad n slots) msg (omega (arith, size))
      ∙ ap₂ (λ (b : List ℕ) (m : ℕ). some (success, record msg { bytes = b; nof_bits = m }))
          (ap (λ l. l ++ tail) padding.1 ∙ append_assoc (filled slots msg.bytes) padding.0 tail)
          size,
)
  where
    tail : List ℕ
    tail = drop (length (pad n slots)) msg.bytes

    padding : (rest : List ℕ) × (filled (pad n slots) msg.bytes ≡ filled slots msg.bytes ++ rest)
    padding = unfold pad in filled-append slots (replicate (n - length slots) (some 0)) msg.bytes

    size : length (pad n slots) ≡ n
    size = length-pad n slots h
