-- ===== src/Bit/Tests.antt =====
-- Bit packing at concrete values, for srslte/lib/utils/bit.c.
use vbbu.Prelude.{
  ℕ, ◌*◌, ◌%◌, ◌^◌, ◌<◌, ◌≡◌, refl, some, List, [], ◌∷◌, ◌++◌, arith, length, get_or, ltb, ltb→lt,
}
use vbbu.Prelude.Check.{all_below, all_below_sound}
use vbbu.Bit.Octets.{bits_of, AllBytes}
use vbbu.Bit.Interleave.{
  bit_interleave, bit_interleave_w_offset, bytes_loop, bits_loop, gather, tapped, update, put,
}
use vbbu.Bit.Interleave.Picks.{picks, Stays}
use vbbu.Bit.Interleave.Whole.{bit_interleave-picks}
use vbbu.Bit.{pack, unpack, count}
use vbbu.Bit.RoundTrip.{pack-unpack}
use vbbu.Bit.Count.{ones, count-ones}

pack-unpack_example : pack 5 (unpack 44 5 ++ (1 ∷ 0 ∷ [])) ≡ some (44 % 2 ^ 5, 1 ∷ 0 ∷ [])
pack-unpack_example = pack-unpack 5 44 (1 ∷ 0 ∷ []) (omega arith)

count-ones_example : count 1023 ≡ some (ones 32 1023)
count-ones_example = count-ones 1023 (omega arith)

abbrev two_bytes : List ℕ
two_bytes = 0x12 ∷ 0xa7 ∷ []

abbrev turned : List ℕ
turned = 15 ∷ 14 ∷ 13 ∷ 12 ∷ 11 ∷ 10 ∷ 9 ∷ 8 ∷ []

turned-Stays : Stays two_bytes turned (1 * 8)
unfolding all_below
turned-Stays = record { entries = omega arith; inside = inside }
  where
    inside : (i : ℕ) → i < 8 → get_or turned i 0 < 16
    inside i h = ltb→lt _ 16 (all_below_sound 8 (λ i. ltb (get_or turned i 0) 16) i refl h)

-- The second byte is turned around.
bit_interleave_run : bit_interleave two_bytes (9 ∷ 9 ∷ []) turned 8 ≡ some (0xe5 ∷ 9 ∷ [])
unfolding bit_interleave bit_interleave_w_offset bytes_loop bits_loop gather tapped update
bit_interleave_run = refl

bit_interleave-picks_example :
    (outs : List ℕ) × (length outs ≡ 1)
    × AllBytes outs
    × (bit_interleave two_bytes (9 ∷ 9 ∷ []) turned (1 * 8) ≡ some (outs ++ (9 ∷ [])))
    × (bits_of outs ≡ picks (bits_of two_bytes) turned 0 (1 * 8))
bit_interleave-picks_example =
    bit_interleave-picks two_bytes (9 ∷ 9 ∷ []) turned 1 turned-Stays
      (omega arith, (omega arith, tt)) (omega arith) (omega arith)

-- An interleaver that changes nothing, with an offset of 2: the second byte starts at entry 2 of the
-- interleaver again, where entry 6 follows.
bit_interleave_w_offset_run :
    bit_interleave_w_offset two_bytes
      (0 ∷ 0 ∷ 0 ∷ [])
      (0 ∷ 1 ∷ 2 ∷ 3 ∷ 4 ∷ 5 ∷ 6 ∷ 7 ∷ 8 ∷ 9 ∷ 10 ∷ 11 ∷ 12 ∷ 13 ∷ 14 ∷ 15 ∷ [])
      16
      2
    ≡ some (0x04 ∷ 0x4a ∷ 0xc0 ∷ [])
unfolding bit_interleave_w_offset bytes_loop bits_loop gather tapped update put
bit_interleave_w_offset_run = refl
