-- ===== src/Viterbi.antt =====
-- The decoder of the convolutional code, srslte/lib/fec/viterbi.c in the build without SSE, with srslte_vec_quant_fuc of
-- srslte/lib/utils/vector.c. The search through the trellis is the port of another library
-- (viterbi37_port.c), and is a parameter, as is the product in floating point. Allocation succeeds. The
-- buffers `tmp` and `symbols_uc` are written before each use, and are values here.
pub mod Path
pub mod Middle
use vbbu.Prelude.{
  ℕ, ◌+◌, ◌-◌, ◌*◌, ◌/◌, Bool, true, false, Option, none, some, List, [], ◌∷◌, ◌++◌, map, take,
  drop, concat_from, ltb, if◌then◌else◌,
}

-- The functions of viterbi37_port.c on its structure `P`. A start state `none` is -1, and the bits that
-- chainback writes are a list.
pub record Port {ℓ} (P : Type ℓ) : Type ℓ where
  pub create : List ℕ → ℕ → P
  pub init : P → Option ℕ → P
  pub update : P → List ℕ → ℕ → P × ℕ
  pub chainback : P → ℕ → ℕ → List ℕ

-- `srslte_viterbi_t`, less the gains and the function pointers, which stay as `init37` sets them.
pub record Viterbi {ℓ} (P : Type ℓ) : Type ℓ where
  pub ptr : P
  pub r : ℕ
  pub k : ℕ
  pub framebits : ℕ
  pub tail_biting : Bool

-- `srslte_viterbi_type_t`
pub data ViterbiType : Type 0 where
  viterbi_27 viterbi_29 viterbi_37 viterbi_39 : ViterbiType

-- `TB_ITER`
abbrev pub tb_iter : ℕ
tb_iter = 3

-- One entry of `srslte_vec_quant_fuc`, of the number `(int) (offset + gain * in)`, where `none` is a
-- negative one; `clip` is 255.
unfoldable pub quant_entry : Option ℕ → ℕ
quant_entry none = 0
quant_entry (some tmp) = if ltb 255 tmp then 255 else tmp

-- `srslte_vec_quant_fuc`
unfoldable pub quant_fuc {ℓ} : {A : Type ℓ} → (A → Option ℕ) → List A → List ℕ
quant_fuc scaled values = map (λ v. quant_entry (scaled v)) values

-- The frame, as often as it is repeated in `tmp`.
unfoldable pub repeated : List ℕ → ℕ → List ℕ
repeated symbols frame_length = concat_from tb_iter 0 (λ i. take (3 * frame_length) symbols)

module _ {ℓ} {P : Type ℓ} (port : Port P) where
  open port use {create, init, update, chainback}

  -- `init37`
  unfoldable pub init37 : List ℕ → ℕ → Bool → Viterbi P
  init37 poly framebits tail_biting = record {
    ptr = create poly (tb_iter * framebits);
    r = 3;
    k = 7;
    framebits = framebits;
    tail_biting = tail_biting;
  }

  -- `srslte_viterbi_init`; `none` is -1.
  unfoldable pub viterbi_init : ViterbiType → List ℕ → ℕ → Bool → Option (Viterbi P)
  viterbi_init viterbi_37 poly framebits tail_biting = some (init37 poly framebits tail_biting)
  viterbi_init viterbi_27 poly framebits tail_biting = none
  viterbi_init viterbi_29 poly framebits tail_biting = none
  viterbi_init viterbi_39 poly framebits tail_biting = none

  -- The decoded bits of the repeated frames, written over `tmp`.
  unfoldable pub tmp_bits : P → List ℕ → ℕ → List ℕ
  tmp_bits start tmp frame_length =
      let steps = tb_iter * frame_length in
      let u = update start tmp steps in chainback u.0 steps u.1 ++ drop steps tmp

  -- `decode37`: what it returns, where `none` is -1, the array `data` and the decoder.
  unfoldable pub decode37 : Viterbi P → List ℕ → List ℕ → ℕ → Option ℕ × List ℕ × Viterbi P
  decode37 q symbols output frame_length =
      let biting = init q.ptr none in
      let tmp = repeated symbols frame_length in
      let bits = tmp_bits biting tmp frame_length in
      let tailed = update (init q.ptr (some 0)) symbols (frame_length + q.k - 1) in
      if ltb q.framebits frame_length
      then (none, output, q)
      else if q.tail_biting
      then (
        some q.framebits,
        take frame_length (drop (tb_iter / 2 * frame_length) bits) ++ drop frame_length output,
        record q { ptr = (update biting tmp (tb_iter * frame_length)).0 },
      )
      else (
        some q.framebits,
        chainback tailed.0 frame_length 0 ++ drop frame_length output,
        record q { ptr = tailed.0 },
      )

  -- `srslte_viterbi_decode_f`, with the numbers that floating point gives for the symbols.
  unfoldable pub decode_f {κ} :
      {A : Type κ}
      → (A → Option ℕ)
      → Viterbi P
      → List A
      → List ℕ
      → ℕ
      → Option ℕ × List ℕ × Viterbi P
  decode_f scaled q symbols output frame_length =
      let len = if q.tail_biting then 3 * frame_length else 3 * (frame_length + q.k - 1) in
      let symbols_uc = quant_fuc scaled (take len symbols) in
      if ltb q.framebits frame_length
      then (none, output, q)
      else decode37 q symbols_uc output frame_length
