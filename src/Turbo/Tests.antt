-- ===== src/Turbo/Tests.antt =====
-- The turbo coder at concrete values, for srslte/lib/fec/tc_interl_lte.c and
-- srslte/lib/fec/turbocoder.c.
use vbbu.Prelude.{
  ℕ, ◌+◌, ◌*◌, ◌≡◌, refl, some, List, [], ◌∷◌, ◌++◌, get_elem?, get_or, replicate, arith, success,
}
use vbbu.Bit.Octets.{bits_of, AllBytes}
use vbbu.Cbsegm.{cbsize, cbindex, size_search, tc_cb_sizes}
use vbbu.Turbo.Interleaver.{init, lte_gen, gen_loop, store, position, f1_list, f2_list}
use vbbu.Turbo.Interleaver.Permutes.{HasRoom, IsFilled, lte_gen-IsFilled}
use vbbu.Turbo.Gentable.{gentable, gentable-Permutes, Permutes}
use vbbu.Turbo.Coder.{encode, encode_lut, lut_output, lut_loop, shift}
use vbbu.Turbo.Coder.Constituent.{column}
use vbbu.Turbo.Encode.{encode_lut-encode}

-- The second entry for 40 bits is 3 + 10.
interleaver_40 : get_or (lte_gen (init 7 40) 40).1.forward 1 0 ≡ 13
unfolding lte_gen init gen_loop store position f1_list f2_list cbindex size_search tc_cb_sizes
interleaver_40 = refl

-- The parity of a single 1 at the start of a byte.
lut_output_run : lut_output 0 0x80 ≡ 0xf2
unfolding lut_output lut_loop shift
lut_output_run = refl

smallest_size : cbsize 0 ≡ some 40
unfolding cbsize tc_cb_sizes
smallest_size = refl

room_40 : HasRoom 40 (init 7 40)
unfolding init
room_40 = record { forward_room = omega arith; reverse_room = omega arith }

lte_gen-IsFilled_example :
    ((lte_gen (init 7 40) 40).0 ≡ success) × IsFilled 40 40 (lte_gen (init 7 40) 40).1
unfolding init
lte_gen-IsFilled_example = lte_gen-IsFilled (init 7 40) 0 40 smallest_size (omega arith) room_40

gentable-Permutes_example :
    (k : ℕ) × (per : List ℕ) × (cbsize 3 ≡ some k)
    × (get_elem? (gentable 0) 3 ≡ some per)
    × Permutes k per
gentable-Permutes_example = gentable-Permutes 0 3 (omega arith)

abbrev five_bytes : List ℕ
five_bytes = 0x12 ∷ 0xa7 ∷ 0xff ∷ 0 ∷ 0x81 ∷ []

five_bytes-AllBytes : AllBytes five_bytes
five_bytes-AllBytes = (omega arith, (omega arith, (omega arith, (omega arith, (omega arith, tt)))))

encode_lut-encode_example :
    (out : List ℕ) × (systematic : ℕ) × (parity : List ℕ) × (encode 6144
        (gentable 0)
        (bits_of five_bytes)
        40
      ≡ some (success, out))
    × (encode_lut (replicate 768 0) (gentable 0) five_bytes 0
        ≡ some (success, 3 * 40 + 12, systematic, parity))
    × (column 0 out ++ (0 ∷ 0 ∷ 0 ∷ 0 ∷ []) ≡ bits_of (five_bytes ++ (systematic ∷ [])))
    × (column 1 out ++ column 2 out ≡ bits_of parity)
encode_lut-encode_example =
    encode_lut-encode 0 6144 (replicate 768 0) five_bytes 0 40 smallest_size (omega arith) refl
      five_bytes-AllBytes (omega arith)
