-- ===== src/Scrambling.antt =====
-- Scrambling of bits, srslte/lib/scrambling/scrambling.c, with a sequence of `Sequences`. `none` is an access past the end of an array. Words of 64 bits are
-- loaded and stored with the first byte lowest.
pub mod Word
pub mod Twice
mod Tests
use vbbu.Prelude.{
  ℕ, zero, suc, ◌+◌, ◌-◌, ◌*◌, ◌/◌, ◌%◌, ◌^◌, bit_and, bit_xor, Bool, true, false, Option, none,
  some, List, [], ◌∷◌, ◌++◌, get_or, get_elem?, take, drop, length, ltb, ◌==◌, if◌then◌else◌, ◌>>>◌,
}
use vbbu.Prelude.Options.{◌>>=◌}
use vbbu.Bit.{unpack_vector, pack_vector}
use vbbu.Sequences.{Sequence}

-- `scrambling_b`: the array after the first `len` bytes have changed.
unfoldable pub scrambling_b : List ℕ → List ℕ → ℕ → Option (List ℕ)
scrambling_b c bytes zero = some bytes
scrambling_b [] bytes (suc len) = none
scrambling_b (x ∷ c) [] (suc len) = none
scrambling_b (x ∷ c) (b ∷ bytes) (suc len) =
    scrambling_b c bytes len >>= λ rest. some (bit_xor b x ∷ rest)

-- `n` bytes as one word, and a word as `n` bytes.
unfoldable pub load : ℕ → List ℕ → Option ℕ
load zero bytes = some 0
load (suc n) [] = none
load (suc n) (b ∷ bytes) = load n bytes >>= λ w. some (w * 2 ^ 8 + b)

unfoldable pub store : ℕ → ℕ → List ℕ
store zero w = []
store (suc n) w = w % 2 ^ 8 ∷ store n (w / 2 ^ 8)

-- The loop of `scrambling_b_word` over `n` words, and the rest of the array behind it.
unfoldable pub words_loop :
    List ℕ → List ℕ → ℕ → (List ℕ → List ℕ → Option (List ℕ)) → Option (List ℕ)
words_loop c bytes zero behind = behind c bytes
words_loop c bytes (suc n) behind = load 8 bytes >>= λ x. load 8 c >>= λ y.
    words_loop (drop 8 c) (drop 8 bytes) n behind >>= λ rest. some (store 8 (bit_xor x y) ++ rest)

-- `scrambling_b_word`
unfoldable pub scrambling_b_word : List ℕ → List ℕ → ℕ → Option (List ℕ)
scrambling_b_word c bytes len =
    words_loop c bytes (len / 8) (λ c' bytes'. scrambling_b c' bytes' (len % 8))

-- `srslte_scrambling_b`
unfoldable pub srslte_scrambling_b : Sequence → List ℕ → Option (List ℕ)
srslte_scrambling_b s bytes = scrambling_b_word s.c bytes s.len

-- `srslte_scrambling_b_offset`
unfoldable pub scrambling_b_offset : Sequence → List ℕ → ℕ → ℕ → Option (List ℕ)
scrambling_b_offset s bytes offset len =
    if offset % 8 == 0
    then scrambling_b_word (drop offset s.c) bytes len
    else scrambling_b (drop offset s.c) bytes len

-- The last bits of `srslte_scrambling_bytes`, which fill a part of one byte.
unfoldable pub scramble_tail : List ℕ → List ℕ → ℕ → Option (List ℕ)
scramble_tail c bytes len = unpack_vector len bytes >>= λ tmp_bits.
    scrambling_b c tmp_bits.0 len >>= λ scrambled.
    pack_vector len scrambled >>= λ packed. some (packed.0 ++ drop 1 bytes)

-- `srslte_scrambling_bytes`
unfoldable pub scrambling_bytes : Sequence → List ℕ → ℕ → Option (List ℕ)
scrambling_bytes s bytes len = scrambling_b_word s.c_bytes bytes (len / 8) >>= λ whole.
    elim (len % 8 == 0) [
      | true ↦ some whole
      | false ↦
          scramble_tail (drop (8 * (len / 8)) s.c) (drop (len / 8) whole) (len % 8) >>= λ last.
          some (take (len / 8) whole ++ last)
    ]
