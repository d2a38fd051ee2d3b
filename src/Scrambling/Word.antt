-- ===== src/Scrambling/Word.antt =====
-- Scrambling word by word against scrambling byte by byte.
use native.Mathlib.Nat.{zero-add, suc-add}
use vbbu.Prelude.{
  ℕ, zero, suc, ◌+◌, ◌*◌, ◌/◌, ◌%◌, ◌^◌, ◌≤◌, ◌<◌, ◌≡◌, refl, ap, bit_xor, some, List, [], ◌∷◌,
  ◌++◌, drop, length, length-drop, arith, Bool, true, ltb, ltb→lt,
}
use vbbu.Prelude.Check.{all_below, all_pairs, all_pairs_sound}
use vbbu.Prelude.Bits.{bit_xor_parts}
use vbbu.Bit.Octets.{AllBytes}
use vbbu.Scrambling.{scrambling_b, scrambling_b_word, load, store, words_loop}

-- The array that scrambling leaves.
unfoldable pub xors : ℕ → List ℕ → List ℕ → List ℕ
xors zero c bytes = bytes
xors (suc n) [] bytes = bytes
xors (suc n) (x ∷ c) [] = []
xors (suc n) (x ∷ c) (b ∷ bytes) = bit_xor b x ∷ xors n c bytes

pub scrambling_b-xors :
    (c bytes : List ℕ) (len : ℕ)
    → len ≤ length c
    → len ≤ length bytes
    → scrambling_b c bytes len ≡ some (xors len c bytes)
unfolding scrambling_b xors
scrambling_b-xors c bytes zero h h' = refl
scrambling_b-xors [] bytes (suc len) h h' = absurd (omega arith)
scrambling_b-xors (x ∷ c) [] (suc len) h h' = absurd (omega arith)
scrambling_b-xors (x ∷ c) (b ∷ bytes) (suc len) h h' =
    rw (scrambling_b-xors c bytes len (omega arith) (omega arith)) refl

-- The number that `n` bytes make.
value : ℕ → List ℕ → ℕ
value zero bytes = 0
value (suc n) [] = 0
value (suc n) (b ∷ bytes) = value n bytes * 2 ^ 8 + b

load-value : (n : ℕ) (bytes : List ℕ) → n ≤ length bytes → load n bytes ≡ some (value n bytes)
unfolding load value
load-value zero bytes h = refl
load-value (suc n) [] h = absurd (omega arith)
load-value (suc n) (b ∷ bytes) h = rw (load-value n bytes (omega arith)) refl

xor_small : ℕ → ℕ → Bool
xor_small b x = ltb (bit_xor b x) (2 ^ 8)

all_xors_small : all_pairs 256 256 xor_small ≡ true
unfolding all_pairs all_below xor_small
all_xors_small = refl

pub bit_xor-byte : (b x : ℕ) → b < 256 → x < 256 → bit_xor b x < 2 ^ 8
unfolding xor_small
bit_xor-byte b x h h' = ltb→lt _ _ (all_pairs_sound 256 256 xor_small b x all_xors_small h h')

-- Storing the `^` of two words scrambles their bytes.
store-xors :
    (n m : ℕ) (c bytes : List ℕ)
    → n ≤ length c
    → n ≤ length bytes
    → AllBytes c
    → AllBytes bytes
    → store n (bit_xor (value n bytes) (value n c)) ++ xors m (drop n c) (drop n bytes)
      ≡ xors (n + m) c bytes
unfolding store value xors
store-xors zero m c bytes h h' s s' = rw (zero-add m) refl
store-xors (suc n) m [] bytes h h' s s' = absurd (omega arith)
store-xors (suc n) m (x ∷ c) [] h h' s s' = absurd (omega arith)
store-xors (suc n) m (x ∷ c) (b ∷ bytes) h h' s s' =
    let small = bit_xor-byte b x s'.0 s.0 in
    let w = bit_xor (value n bytes) (value n c) in
    let low : (w * 2 ^ 8 + bit_xor b x) % 2 ^ 8 ≡ bit_xor b x = omega arith in
    let high : (w * 2 ^ 8 + bit_xor b x) / 2 ^ 8 ≡ w = omega arith in
    rw (bit_xor_parts 8 (value n bytes) b (value n c) x s'.0 s.0) (
      rw low (
        rw high (
          rw (suc-add n m) (
            ap (λ (t : List ℕ). bit_xor b x ∷ t)
              (store-xors n m c bytes (omega arith) (omega arith) s.1 s'.1)))))

pub AllBytes-drop : (n : ℕ) (xs : List ℕ) → AllBytes xs → AllBytes (drop n xs)
AllBytes-drop zero xs h = h
AllBytes-drop (suc n) [] h = tt
AllBytes-drop (suc n) (x ∷ xs) h = AllBytes-drop n xs h.1

words_loop-xors :
    (n m : ℕ) (c bytes : List ℕ)
    → n * 8 + m ≤ length c
    → n * 8 + m ≤ length bytes
    → AllBytes c
    → AllBytes bytes
    → words_loop c bytes n (λ c' bytes'. scrambling_b c' bytes' m) ≡ some (xors (n * 8 + m) c bytes)
unfolding words_loop
words_loop-xors zero m c bytes h h' s s' =
    let e : 0 * 8 + m ≡ m = omega arith in
    rw e (scrambling_b-xors c bytes m (omega arith) (omega arith))
words_loop-xors (suc n) m c bytes h h' s s' =
    let e : 8 + (n * 8 + m) ≡ suc n * 8 + m = omega arith in
    rw (load-value 8 bytes (omega arith)) (
      rw (load-value 8 c (omega arith)) (
        rw
          (words_loop-xors n m (drop 8 c) (drop 8 bytes) (omega (arith, length-drop 8 c))
            (omega (arith, length-drop 8 bytes)) (AllBytes-drop 8 c s) (AllBytes-drop 8 bytes s'))
          (ap (λ (t : List ℕ). some t)
            (rw e at (store-xors 8 (n * 8 + m) c bytes (omega arith) (omega arith) s s')))))

pub scrambling_b_word-xors :
    (c bytes : List ℕ) (len : ℕ)
    → len ≤ length c
    → len ≤ length bytes
    → AllBytes c
    → AllBytes bytes
    → scrambling_b_word c bytes len ≡ some (xors len c bytes)
unfolding scrambling_b_word
scrambling_b_word-xors c bytes len h h' s s' =
    let e : len / 8 * 8 + len % 8 ≡ len = omega arith in
    rw e at (words_loop-xors (len / 8) (len % 8) c bytes (omega arith) (omega arith) s s')
