-- ===== src/Convcoder/Cyclic.antt =====
-- With tail biting srslte_convcoder_encode, srslte/lib/fec/convcoder.c, is a cyclic convolution.
use mathlib.Core.Path.{subst}
use native.Mathlib.Nat.{mod-eq_of_lt}
use vbbu.Prelude.{
  ℕ, zero, suc, ◌+◌, ◌-◌, ◌*◌, ◌%◌, ◌^◌, ◌≤◌, ◌<◌, ◌≡◌, refl, sym, ap, ◌∙◌, bit_and, true, some,
  List, get_or, take, drop, length, length-take, length-drop, length-append, get_or-take,
  get_or-drop, get_or-append_left, get_or-append_right, ltb, lt→ltb, if◌then◌else◌, arith,
}
use vbbu.Prelude.Bits.{bit_and-one}
use vbbu.Convcoder.{Convcoder, push, preload, start, outputs, encode_loop, encode}
use vbbu.Convcoder.Window.{window, window-ext, window-mod, bit_and-low, mod-mod-two-pow}
use vbbu.Convcoder.Register.{cyclic, taps, push-past, preload-past}

module _ (parity : ℕ → ℕ) where
  length-outputs : (poly : List ℕ) (sr n j : ℕ) → length (outputs parity poly sr n j) ≡ n
  unfolding outputs
  length-outputs poly sr zero j = refl
  length-outputs poly sr (suc n) j = ap suc (length-outputs poly sr n (j + 1))

  get_or-outputs :
      (poly : List ℕ) (sr n j l : ℕ)
      → l < n
      → get_or (outputs parity poly sr n j) l 0 ≡ parity (bit_and sr (get_or poly (j + l) 0))
  unfolding outputs
  get_or-outputs poly sr zero j l h = absurd (omega arith)
  get_or-outputs poly sr (suc n) j zero h = let e : j + 0 ≡ j = omega arith in rw e refl
  get_or-outputs poly sr (suc n) j (suc l) h =
      let e : j + 1 + l ≡ j + suc l = omega arith in
      rw⁻¹ e (get_or-outputs poly sr n (j + 1) l (omega arith))

  module _ (q : Convcoder) (input : List ℕ) (frame_length k : ℕ) (k_eq : q.k ≡ suc k)
      (narrow : k < 32) (pos : k < frame_length)
      (small : (l : ℕ) → l < q.rate → get_or q.poly l 0 < 2 ^ suc k) where
    at : ℕ → ℕ
    at = cyclic input frame_length

    -- What the register holds before the bit at place `i`.
    IsAt : ℕ → ℕ → Type 0
    IsAt i sr = sr % 2 ^ k ≡ window (λ t. at (i + frame_length - suc t)) k

    at-lt : (i : ℕ) → at i < 2
    unfolding at cyclic
    at-lt i = omega arith

    at-inside : (i : ℕ) → i < frame_length → at (i + frame_length) ≡ get_or input i 0 % 2
    unfolding at cyclic
    at-inside i h = let e : (i + frame_length) % frame_length ≡ i = grind arith in rw e refl

    at-low : (i : ℕ) → i < frame_length → at i ≡ get_or input i 0 % 2
    unfolding at cyclic
    at-low i h = rw (mod-eq_of_lt {n = i} {m = frame_length} h) refl

    next-IsAt :
        (i sr : ℕ)
        → IsAt i sr
        → (push sr (at (i + frame_length)) % 2 ^ suc k ≡ taps input frame_length (suc k) i)
          × IsAt (i + 1) (push sr (at (i + frame_length)))
    unfolding IsAt taps at
    next-IsAt i sr e =
        let full = push-past at at-lt sr (i + frame_length) k narrow e in
        let sr' : ℕ = push sr (at (i + frame_length)) in
        let later : IsAt (i + 1) sr' =
          sym (mod-mod-two-pow k (suc k) sr' (omega arith))
          ∙ ap (λ t. t % 2 ^ k) full
          ∙ window-mod (λ t. at (i + frame_length - t)) k (λ t. at-lt (i + frame_length - t))
          ∙ window-ext (λ t. at (i + frame_length - t)) (λ t. at (i + 1 + frame_length - suc t)) k
              (λ t ht. ap at (omega arith)) in
        (full, later)

    entering :
        (i : ℕ)
        → i < frame_length
        → (if ltb i frame_length then bit_and (get_or input i 0) 1 else 0) ≡ at (i + frame_length)
    entering i h =
        rw (lt→ltb i frame_length h) (bit_and-one (get_or input i 0) ∙ sym (at-inside i h))

    length-encode_loop :
        (n i sr : ℕ) → length (encode_loop parity q input frame_length n i sr) ≡ n * q.rate
    unfolding encode_loop
    length-encode_loop zero i sr = omega arith
    length-encode_loop (suc n) i sr =
        let sr' : ℕ = push sr (if ltb i frame_length then bit_and (get_or input i 0) 1 else 0) in
        let more : suc n * q.rate ≡ q.rate + n * q.rate = grind arith in
        omega (
          arith,
          more,
          length-append (outputs parity q.poly sr' q.rate 0)
              (encode_loop parity q input frame_length n (i + 1) sr'),
          length-outputs q.poly sr' q.rate 0,
          length-encode_loop n (i + 1) sr',
        )

    get_or-encode_loop :
        (n i sr m l : ℕ)
        → i + n ≡ frame_length
        → IsAt i sr
        → m < n
        → l < q.rate
        → get_or (encode_loop parity q input frame_length n i sr) (m * q.rate + l) 0
          ≡ parity (bit_and (taps input frame_length (suc k) (i + m)) (get_or q.poly l 0))
    unfolding encode_loop
    get_or-encode_loop zero i sr m l e held hm hl = absurd (omega arith)
    get_or-encode_loop (suc n) i sr zero l e held hm hl =
        let sr' : ℕ = push sr (at (i + frame_length)) in
        let first : 0 * q.rate + l ≡ l = omega arith in
        let here : i + 0 ≡ i = omega arith in
        let rest : List ℕ = encode_loop parity q input frame_length n (i + 1) sr' in
        rw (entering i (omega arith)) (
          rw first (
            rw here (
              get_or-append_left (outputs parity q.poly sr' q.rate 0) rest l 0
                (omega (arith, length-outputs q.poly sr' q.rate 0))
              ∙ get_or-outputs q.poly sr' q.rate 0 l hl
              ∙ ap (λ t. parity (bit_and sr' (get_or q.poly t 0))) (omega arith)
              ∙ ap parity (bit_and-low (suc k) sr' (get_or q.poly l 0) (small l hl))
              ∙ ap (λ t. parity (bit_and t (get_or q.poly l 0))) (next-IsAt i sr held).0)))
    get_or-encode_loop (suc n) i sr (suc m) l e held hm hl =
        let sr' : ℕ = push sr (at (i + frame_length)) in
        let front : List ℕ = outputs parity q.poly sr' q.rate 0 in
        let later : suc m * q.rate + l ≡ length front + (m * q.rate + l) =
          grind (arith, length-outputs q.poly sr' q.rate 0) in
        let there : i + 1 + m ≡ i + suc m = omega arith in
        rw (entering i (omega arith)) (
          rw later (
            get_or-append_right front (encode_loop parity q input frame_length n (i + 1) sr')
              (m * q.rate + l) 0
            ∙ get_or-encode_loop n (i + 1) sr' m l (omega arith) (next-IsAt i sr held).1
                (omega arith) hl
            ∙ ap (λ t. parity (bit_and (taps input frame_length (suc k) t) (get_or q.poly l 0)))
                there))

    start-IsAt :
        q.tail_biting ≡ true → frame_length ≤ length input → IsAt 0 (start q input frame_length)
    unfolding start IsAt window at
    start-IsAt tail whole =
        let from : ℕ = frame_length - suc k + 1 in
        let last : List ℕ = take (suc k - 1) (drop from input) in
        let size : length last ≡ k =
          omega (arith, length-take (suc k - 1) (drop from input), length-drop from input) in
        let same : (s : ℕ) → s < length last → get_or last s 0 % 2 ≡ at (from + s) = λ s hs.
          ap (λ t. t % 2)
            (get_or-take (suc k - 1) s (drop from input) 0 (omega (arith, hs))
              ∙ get_or-drop from s input 0)
          ∙ sym (at-low (from + s) (omega (arith, hs))) in
        let loaded = preload-past at at-lt last 0 from 0 (omega (arith, size)) same (omega arith) in
        let width : 0 + length last ≡ k = omega (arith, size) in
        let narrowed =
          subst (λ u. preload 0 last % 2 ^ u ≡ window (λ t. at (from + length last - suc t)) u)
            width loaded in
        rw tail (
          rw k_eq (
            narrowed
            ∙ window-ext (λ t. at (from + length last - suc t)) (λ t. at (0 + frame_length - suc t))
                k (λ t ht. ap at (omega (arith, size)))))

    tail_biting-encode :
        q.tail_biting ≡ true
        → suc k + 1 < frame_length
        → frame_length ≤ length input
        → (out : List ℕ) × (encode parity q input frame_length ≡ some out)
          × (length out ≡ frame_length * q.rate)
          × ((i l : ℕ)
              → i < frame_length
              → l < q.rate
              → get_or out (i * q.rate + l) 0
                ≡ parity (bit_and (taps input frame_length (suc k) i) (get_or q.poly l 0)))
    unfolding encode
    tail_biting-encode tail long whole =
        let first : ℕ = start q input frame_length in
        (
          encode_loop parity q input frame_length frame_length 0 first,
          rw k_eq (rw (lt→ltb (suc k + 1) frame_length long) (rw tail refl)),
          length-encode_loop frame_length 0 first,
          λ i l hi hl.
              get_or-encode_loop frame_length 0 first i l (omega arith) (start-IsAt tail whole) hi
                hl
              ∙ ap (λ t. parity (bit_and (taps input frame_length (suc k) t) (get_or q.poly l 0)))
                  (omega arith),
        )

-- With tail biting, a constraint length of 1 to 32, generators of that many bits, and a frame of more than that many
-- bits and one, the coder succeeds, and output `l` for bit `i` is the parity of generator `l` and the window of the
-- frame, read cyclically, that ends at bit `i`.
pub encode-taps :
    (parity : ℕ → ℕ) (q : Convcoder) (input : List ℕ) (frame_length k : ℕ)
    → q.k ≡ suc k
    → k < 32
    → ((l : ℕ) → l < q.rate → get_or q.poly l 0 < 2 ^ suc k)
    → q.tail_biting ≡ true
    → suc k + 1 < frame_length
    → frame_length ≤ length input
    → (out : List ℕ) × (encode parity q input frame_length ≡ some out)
      × (length out ≡ frame_length * q.rate)
      × ((i l : ℕ)
          → i < frame_length
          → l < q.rate
          → get_or out (i * q.rate + l) 0
            ≡ parity (bit_and (taps input frame_length (suc k) i) (get_or q.poly l 0)))
encode-taps parity q input frame_length k k_eq narrow small tail long whole =
    tail_biting-encode parity q input frame_length k k_eq narrow (omega arith) small tail long whole
