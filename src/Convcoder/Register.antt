-- ===== src/Convcoder/Register.antt =====
-- The shift register of srslte/lib/fec/convcoder.c as a window over a repeating frame.
use mathlib.Core.Path.{subst}
use vbbu.Prelude.{
  ℕ, suc, ◌+◌, ◌-◌, ◌%◌, ◌^◌, ◌≤◌, ◌<◌, ◌≡◌, refl, ap, ◌∙◌, bit_and, List, [], ◌∷◌, get_or, length,
  arith,
}
use vbbu.Prelude.Bits.{bit_and-one}
use vbbu.Convcoder.{push, preload}
use vbbu.Convcoder.Window.{window, push-window, window-ext}

-- The bit at a place of the frame, which repeats.
unfoldable pub cyclic : List ℕ → ℕ → ℕ → ℕ
cyclic input frame_length i = get_or input (i % frame_length) 0 % 2

-- The register's window behind the bit at place `i`.
unfoldable pub taps : List ℕ → ℕ → ℕ → ℕ → ℕ
taps input frame_length k i = window (λ t. cyclic input frame_length (i + frame_length - t)) k

module _ (c : ℕ → ℕ) (bits : (i : ℕ) → c i < 2) where
  -- One bit more.
  pub push-past :
      (sr i n : ℕ)
      → n < 32
      → sr % 2 ^ n ≡ window (λ t. c (i - suc t)) n
      → push sr (c i) % 2 ^ suc n ≡ window (λ t. c (i - t)) (suc n)
  unfolding window
  push-past sr i n h e =
      push-window sr (c i) n h (bits i)
      ∙ (let same : i - 0 ≡ i = omega arith in rw same (rw e refl))

  pub preload-past :
      (xs : List ℕ) (sr i n : ℕ)
      → n + length xs ≤ 32
      → ((s : ℕ) → s < length xs → get_or xs s 0 % 2 ≡ c (i + s))
      → sr % 2 ^ n ≡ window (λ t. c (i - suc t)) n
      → preload sr xs % 2 ^ (n + length xs)
        ≡ window (λ t. c (i + length xs - suc t)) (n + length xs)
  unfolding preload
  preload-past [] sr i n h same e =
      let e' : n + 0 ≡ n = omega arith in let e'' : i + 0 ≡ i = omega arith in rw e' (rw e'' e)
  preload-past (x ∷ xs) sr i n h same e =
      let bit : bit_and x 1 ≡ c i = bit_and-one x ∙ same 0 (omega arith) ∙ ap c (omega arith) in
      let pushed : push sr (c i) % 2 ^ suc n ≡ window (λ t. c (i + 1 - suc t)) (suc n) =
        push-past sr i n (omega arith) e
        ∙ window-ext (λ t. c (i - t)) (λ t. c (i + 1 - suc t)) (suc n)
            (λ t ht. ap c (omega arith)) in
      let rest =
        preload-past xs (push sr (c i)) (i + 1) (suc n) (omega arith)
          (λ s hs. same (suc s) (omega arith) ∙ ap c (omega arith)) pushed in
      let width : suc n + length xs ≡ n + suc (length xs) = omega arith in
      let place : i + 1 + length xs ≡ i + suc (length xs) = omega arith in
      rw bit (
        subst
          (λ u.
            preload (push sr (c i)) xs % 2 ^ u ≡ window (λ t. c (i + suc (length xs) - suc t)) u)
          width
          (subst
            (λ u.
              preload (push sr (c i)) xs % 2 ^ (suc n + length xs)
              ≡ window (λ t. c (u - suc t)) (suc n + length xs))
            place rest))
