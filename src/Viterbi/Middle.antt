-- ===== src/Viterbi/Middle.antt =====
-- What srslte_viterbi_decode_f of srslte/lib/fec/viterbi.c makes of a frame that was coded with tail
-- biting: the bits of the middle one of three copies.
use native.Mathlib.Nat.{mod-eq_of_lt, mod-lt}
use vbbu.Prelude.{
  ℕ, ◌+◌, ◌-◌, ◌*◌, ◌/◌, ◌%◌, ◌≤◌, ◌<◌, ◌≡◌, refl, sym, ap, ◌∙◌, bit_and, true, false, Option, none,
  some, List, ◌++◌, map, take, drop, get_or, get_or-ext, get_or-map, get_or-take, get_or-drop,
  get_or-append_left, length, length-map, length-take, length-drop, length-append, ltb, ge→ltb,
  if◌then◌else◌, arith,
}
use vbbu.Convcoder.Window.{window}
use vbbu.Convcoder.Register.{taps}
use vbbu.Viterbi.{
  Port, Viterbi, tb_iter, quant_entry, quant_fuc, repeated, tmp_bits, decode37, decode_f,
}
use vbbu.Viterbi.Path.{
  IsHeard, IsViterbi, path, path-lt, path-taps, path-round, get_or-repeated, take-all,
}

-- A structure that is set up for tail biting and frames of up to `framebits` bits.
pub record IsReady {ℓ} {P : Type ℓ} (Made : P → Type 0) (framebits : ℕ) (q : Viterbi P)
    : Type 0 where
  pub made : Made q.ptr
  pub room : q.framebits ≡ framebits
  pub biting : q.tail_biting ≡ true

module _ {ℓ} {P : Type ℓ} (port : Port P) (Made : P → Type 0) (parity : ℕ → ℕ) (poly : List ℕ)
    (framebits depth : ℕ) (v : IsViterbi port Made parity poly (tb_iter * framebits) depth) where
  module _ (word symbols : List ℕ) (n : ℕ) (long : 7 ≤ n) (fits : n ≤ framebits) (deep : depth ≤ n)
      (size : length word ≡ n) (small : (i : ℕ) → get_or word i 0 < 2)
      (filled : length symbols ≡ 3 * n)
      (heard : (i l : ℕ)
        → i < n
        → l < 3
        → IsHeard
            (parity (bit_and (taps word n 7 i) (get_or poly l 0)))
            (get_or symbols (i * 3 + l) 0)) where
    -- The symbols of three copies are those of one path.
    path-IsHeard :
        (j l : ℕ)
        → j < 3 * n
        → l < 3
        → IsHeard
            (parity (bit_and (window (λ t. path word n (j + 6 - t)) 7) (get_or poly l 0)))
            (get_or (repeated symbols n) (j * 3 + l) 0)
    path-IsHeard j l hj hl = rw (path-taps word n j long) (
        rw (get_or-repeated symbols n j l filled hj hl (omega arith))
          (heard (j % n) l (mod-lt j {m = n} (omega arith)) hl))

    module _ (p : P) (made : Made p) where
      bits : List ℕ
      bits = tmp_bits port (port.init p none) (repeated symbols n) n

      bits-middle : (i : ℕ) → i < n → get_or bits (n + i) 0 ≡ get_or word i 0
      unfolding bits tmp_bits
      bits-middle i hi =
          let u = port.update (port.init p none) (repeated symbols n) (3 * n) in
          get_or-append_left (port.chainback u.0 (3 * n) u.1) (drop (3 * n) (repeated symbols n))
            (n + i) 0
            (omega (
              arith,
              v.writes u.0 (3 * n) u.1 (v.kept p none (repeated symbols n) (3 * n) made)
                  (omega arith),
            ))
          ∙ v.follows p (path word n) (repeated symbols n) (3 * n) (n + i) made (path-lt word n)
              (omega arith) path-IsHeard (omega arith) (omega arith)
          ∙ path-round word n i long hi
          ∙ mod-eq_of_lt (small i)

      length-bits : 3 * n ≤ length bits
      unfolding bits tmp_bits
      length-bits =
          let u = port.update (port.init p none) (repeated symbols n) (3 * n) in
          omega (
            arith,
            length-append (port.chainback u.0 (3 * n) u.1) (drop (3 * n) (repeated symbols n)),
            v.writes u.0 (3 * n) u.1 (v.kept p none (repeated symbols n) (3 * n) made)
                (omega arith),
          )

      length-middle : length (take n (drop (1 * n) bits)) ≡ n
      length-middle =
          omega (arith, length-take n (drop (1 * n) bits), length-drop (1 * n) bits, length-bits)

      middle-word : take n (drop (tb_iter / 2 * n) bits) ≡ word
      middle-word =
          get_or-ext (take n (drop (1 * n) bits)) word 0 (length-middle ∙ sym size) (λ i hi.
            let inside : i < n = omega (arith, length-middle) in
            get_or-take n i (drop (1 * n) bits) 0 inside
            ∙ get_or-drop (1 * n) i bits 0
            ∙ ap (λ t. get_or bits t 0) (omega arith)
            ∙ bits-middle i inside)

    decode37-word :
        (q : Viterbi P) (output : List ℕ)
        → IsReady Made framebits q
        → (q' : Viterbi P) × (decode37 port q symbols output n
            ≡ (some framebits, word ++ drop n output, q'))
          × IsReady Made framebits q'
    unfolding decode37
    decode37-word q output ready =
        let fits' : ltb q.framebits n ≡ false = ge→ltb q.framebits n (omega (arith, ready.room)) in
        let middle : take n
              (drop (tb_iter / 2 * n) (tmp_bits port (port.init q.ptr none) (repeated symbols n) n))
            ≡ word =
          unfold bits in middle-word q.ptr ready.made in
        let after = (port.update (port.init q.ptr none) (repeated symbols n) (3 * n)).0 in
        (
          record q { ptr = after },
          rw fits' (rw ready.biting (rw middle (rw ready.room refl))),
          record {
            made = v.kept q.ptr none (repeated symbols n) (3 * n) ready.made;
            room = ready.room;
            biting = ready.biting;
          },
        )

  decode_f-decode37 {κ} :
      {A : Type κ} (scaled : A → Option ℕ) (values : List A) (n : ℕ) (q : Viterbi P)
      (output : List ℕ)
      → length values ≡ 3 * n
      → n ≤ q.framebits
      → q.tail_biting ≡ true
      → decode_f port scaled q values output n ≡ decode37 port q (quant_fuc scaled values) output n
  unfolding decode_f
  decode_f-decode37 scaled values n q output filled fits biting =
      let used : (if q.tail_biting then 3 * n else 3 * (n + q.k - 1)) ≡ 3 * n = rw biting refl in
      rw (ge→ltb q.framebits n fits) (
        ap (λ t. decode37 port q (quant_fuc scaled (take t values)) output n) used
        ∙ ap (λ t. decode37 port q (quant_fuc scaled t) output n) (take-all values (3 * n) filled))

  -- For symbols in floating point that are read as clear ones for the coded bits of a frame, as many as
  -- there are, decoding gives the frame, and the decoder can be used again.
  pub decode_f-word {κ} :
      {A : Type κ} (scaled : A → Option ℕ) (nothing : A) (word : List ℕ) (values : List A) (n : ℕ)
      (q : Viterbi P) (output : List ℕ)
      → 7 ≤ n
      → n ≤ framebits
      → depth ≤ n
      → length word ≡ n
      → ((i : ℕ) → get_or word i 0 < 2)
      → length values ≡ 3 * n
      → ((i l : ℕ)
          → i < n
          → l < 3
          → IsHeard
              (parity (bit_and (taps word n 7 i) (get_or poly l 0)))
              (quant_entry (scaled (get_or values (i * 3 + l) nothing))))
      → IsReady Made framebits q
      → (q' : Viterbi P) × (decode_f port scaled q values output n
          ≡ (some framebits, word ++ drop n output, q'))
        × IsReady Made framebits q'
  unfolding quant_fuc
  decode_f-word scaled nothing word values n q output long fits deep size small filled heard ready =
      let symbols = map (λ v. quant_entry (scaled v)) values in
      let r =
        decode37-word word symbols n long fits deep size small
          (length-map values (λ v. quant_entry (scaled v)) ∙ filled)
          (λ i l hi hl.
            rw
              (get_or-map values (λ v. quant_entry (scaled v)) (i * 3 + l) nothing 0
                (omega (arith, filled)))
              (heard i l hi hl))
          q output ready in
      (
        r.0,
        decode_f-decode37 scaled values n q output filled (omega (arith, ready.room)) ready.biting
            ∙ r.1,
        r.2,
      )
