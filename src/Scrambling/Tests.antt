-- ===== src/Scrambling/Tests.antt =====
-- Scrambling at concrete values, for srslte/lib/scrambling/scrambling.c.
use vbbu.Prelude.{ℕ, ◌≡◌, refl, some, List, [], ◌∷◌, length, replicate, arith, suc, zero, ◌<◌}
use vbbu.Bit.{unpack_vector, unpack_bytes, unpack, pack_vector, pack_bytes, pack, pack_loop}
use vbbu.Bit.Octets.{AllBytes}
use vbbu.Sequences.{Sequence}
use vbbu.Scrambling.{
  scrambling_b, scrambling_b_word, scrambling_b_offset, scrambling_bytes, scramble_tail, words_loop,
  load, store,
}
use vbbu.Scrambling.Twice.{scrambling_b_word-scrambling_b, scrambling_b_offset-twice}

abbrev gold : Sequence
gold = record {
  c = 1 ∷ 0 ∷ 1 ∷ 1 ∷ 0 ∷ 0 ∷ 1 ∷ 0 ∷ 1 ∷ 1 ∷ 1 ∷ 0 ∷ [];
  c_bytes = 0xb2 ∷ 0xe0 ∷ [];
  len = 12;
}

-- Twelve packed bits: the last four bits of the second byte are cleared.
scrambling_bytes_run : scrambling_bytes gold (0xff ∷ 0xff ∷ 7 ∷ []) 12 ≡ some (0x4d ∷ 0x10 ∷ 7 ∷ [])
unfolding scrambling_bytes scramble_tail scrambling_b_word scrambling_b words_loop load store
    unpack_vector unpack_bytes unpack pack_vector pack_bytes pack pack_loop
scrambling_bytes_run = refl

repeated : (n b : ℕ) → b < 256 → AllBytes (replicate n b)
repeated zero b h = tt
repeated (suc n) b h = (h, repeated n b h)

scrambling_b_word-scrambling_b_example :
    scrambling_b_word (replicate 19 0xa5) (replicate 20 0x3c) 19
    ≡ scrambling_b (replicate 19 0xa5) (replicate 20 0x3c) 19
scrambling_b_word-scrambling_b_example =
    scrambling_b_word-scrambling_b (replicate 19 0xa5) (replicate 20 0x3c) 19 (omega arith)
      (omega arith) (repeated 19 0xa5 (omega arith)) (repeated 20 0x3c (omega arith))

abbrev alternating : Sequence
alternating = record { c = replicate 24 0xa5; c_bytes = []; len = 24 }

scrambling_b_offset-twice_example :
    (scrambled : List ℕ) × (scrambling_b_offset alternating (replicate 16 9) 8 16 ≡ some scrambled)
    × (length scrambled ≡ 16)
    × (scrambling_b_offset alternating scrambled 8 16 ≡ some (replicate 16 9))
scrambling_b_offset-twice_example =
    scrambling_b_offset-twice alternating (replicate 16 9) 8 16 (omega arith) (omega arith)
      (repeated 24 0xa5 (omega arith)) (repeated 16 9 (omega arith))
