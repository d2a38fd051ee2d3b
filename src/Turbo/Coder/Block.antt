-- ===== src/Turbo/Coder/Block.antt =====
-- `srslte_tcod_encode_lut` and `srslte_tcod_encode` on a whole code block.
use vbbu.Prelude.{
  ℕ, ◌+◌, ◌*◌, ◌/◌, ◌%◌, ◌≤◌, ◌≡◌, refl, ap, Bool, true, some, List, [], ◌∷◌, ◌++◌, get_elem?,
  get_or, length, drop, append_assoc, arith, lt→ltb, ge→ltb, ==_iff, ◌==◌, success,
}
use vbbu.Prelude.Check.{all_below, all_below_sound}
use vbbu.Bit.Octets.{bits_of, AllBytes}
use vbbu.Bit.Interleave.Picks.{Stays, picks}
use vbbu.Bit.Interleave.{bit_interleave}
use vbbu.Bit.Interleave.Whole.{bit_interleave-picks}
use vbbu.Cbsegm.{tc_cb_sizes, cbsize}
use vbbu.Cbsegm.Table.{cbsize_bounds}
use vbbu.Turbo.Interleaver.Table.{cbsize-index}
use vbbu.Turbo.Interleaver.Permutes.{cbindex-cbsize}
use vbbu.Turbo.Coder.{encode, encode_lut, nof_regs, tail_loop}
use vbbu.Turbo.Coder.Constituent.{column}
use vbbu.Turbo.Coder.Tail.{tails}
use vbbu.Turbo.Coder.Agree.{Agree, Agree-of}

multiple_ok : ℕ → Bool
multiple_ok index = get_or tc_cb_sizes index 0 % 8 == 0

multiples_ok : all_below 188 multiple_ok ≡ true
unfolding all_below multiple_ok tc_cb_sizes
multiples_ok = refl

-- Every code block is a whole number of bytes.
pub cbsize_bytes :
    (index k : ℕ) → cbsize index ≡ some k → (n : ℕ) × (k ≡ n * 8) × (5 ≤ n) × (n ≤ 768)
unfolding multiple_ok
cbsize_bytes index k e =
    let (small, at) = cbsize-index index k e in
    let rest =
      rw at at ((==_iff _ 0).0 (all_below_sound 188 multiple_ok index multiples_ok small)) in
    let bounds = cbsize_bounds index k e in (k / 8, omega arith, omega arith, omega arith)

module _ (max_long_cb : ℕ) (temp : List ℕ) (per_fw : List (List ℕ)) (per bytes : List ℕ)
    (cblen_idx n : ℕ) (e : cbsize cblen_idx ≡ some (n * 8))
    (per_eq : get_elem? per_fw cblen_idx ≡ some per) where
  Agree-encode :
      n * 8 ≤ max_long_cb
      → (a : Agree bytes temp per n)
      → encode max_long_cb per_fw (bits_of bytes) (n * 8)
        ≡ some (success, a.coded ++ tails a.reg1 a.reg2)
  unfolding encode
  Agree-encode fits a = rw (ge→ltb max_long_cb (n * 8) fits) (
      rw (cbindex-cbsize cblen_idx (n * 8) e) (
        rw per_eq (
          rw a.loop_eq (
            ap (λ (t : List ℕ). some (success, t))
              (append_assoc a.coded (tail_loop nof_regs a.reg1).0 (tail_loop nof_regs a.reg2).0)))))

  Agree-encode_lut :
      (a : Agree bytes temp per n)
      → encode_lut temp per_fw bytes cblen_idx
        ≡ some (success, 3 * (n * 8) + 12, a.systematic, a.parity)
  unfolding encode_lut
  Agree-encode_lut a =
      let aligned : n * 8 % 8 ≡ 0 = omega arith in
      rw (lt→ltb cblen_idx 188 (cbsize_bounds cblen_idx (n * 8) e).0, encode_lut)
        (rw e (rw per_eq (rw aligned (rw a.lut_eq refl))))

Stays-Agree :
    (temp per bytes : List ℕ) (n : ℕ)
    → 5 ≤ n
    → n ≤ 768
    → length bytes ≡ n
    → AllBytes bytes
    → Stays bytes per (n * 8)
    → n ≤ length temp
    → Agree bytes temp per n
Stays-Agree temp per bytes n least most hb small stays room =
    let (outs, size, outs_small, interleaved, picked) =
      bit_interleave-picks bytes temp per n stays small (omega arith) room in
    go outs size outs_small interleaved picked
  where
    go :
        (outs : List ℕ)
        → length outs ≡ n
        → AllBytes outs
        → bit_interleave bytes temp per (n * 8) ≡ some (outs ++ drop n temp)
        → bits_of outs ≡ picks (bits_of bytes) per 0 (n * 8)
        → Agree bytes temp per n
    go [] size outs_small interleaved picked = absurd (omega arith)
    go (c ∷ outs) size outs_small interleaved picked =
        Agree-of bytes temp per n c outs hb small size outs_small picked stays interleaved

same :
    (max_long_cb : ℕ) (temp : List ℕ) (per_fw : List (List ℕ)) (per bytes : List ℕ)
    (cblen_idx n : ℕ)
    → cbsize cblen_idx ≡ some (n * 8)
    → get_elem? per_fw cblen_idx ≡ some per
    → n * 8 ≤ max_long_cb
    → 5 ≤ n
    → n ≤ 768
    → length bytes ≡ n
    → AllBytes bytes
    → Stays bytes per (n * 8)
    → n ≤ length temp
    → (out : List ℕ) × (systematic : ℕ) × (parity : List ℕ) × (encode max_long_cb per_fw
          (bits_of bytes)
          (n * 8)
        ≡ some (success, out))
      × (encode_lut temp per_fw bytes cblen_idx
          ≡ some (success, 3 * (n * 8) + 12, systematic, parity))
      × (column 0 out ++ (0 ∷ 0 ∷ 0 ∷ 0 ∷ []) ≡ bits_of (bytes ++ (systematic ∷ [])))
      × (column 1 out ++ column 2 out ≡ bits_of parity)
same max_long_cb temp per_fw per bytes cblen_idx n e per_eq fits least most hb small stays room =
    let a = Stays-Agree temp per bytes n least most hb small stays room in
    (
      a.coded ++ tails a.reg1 a.reg2,
      a.systematic,
      a.parity,
      Agree-encode max_long_cb temp per_fw per bytes cblen_idx n e per_eq fits a,
      Agree-encode_lut max_long_cb temp per_fw per bytes cblen_idx n e per_eq a,
      a.same_systematic,
      a.same_parity,
    )

-- The same for every code block size, for any tables that stay inside the block.
pub encode_lut-encode_of_Stays :
    (max_long_cb : ℕ) (temp : List ℕ) (per_fw : List (List ℕ)) (per bytes : List ℕ)
    (cblen_idx long_cb : ℕ)
    → cbsize cblen_idx ≡ some long_cb
    → get_elem? per_fw cblen_idx ≡ some per
    → long_cb ≤ max_long_cb
    → length bytes ≡ long_cb / 8
    → AllBytes bytes
    → Stays bytes per long_cb
    → long_cb / 8 ≤ length temp
    → (out : List ℕ) × (systematic : ℕ) × (parity : List ℕ) × (encode max_long_cb per_fw
          (bits_of bytes)
          long_cb
        ≡ some (success, out))
      × (encode_lut temp per_fw bytes cblen_idx
          ≡ some (success, 3 * long_cb + 12, systematic, parity))
      × (column 0 out ++ (0 ∷ 0 ∷ 0 ∷ 0 ∷ []) ≡ bits_of (bytes ++ (systematic ∷ [])))
      × (column 1 out ++ column 2 out ≡ bits_of parity)
encode_lut-encode_of_Stays max_long_cb temp per_fw per bytes cblen_idx long_cb e per_eq fits hb
      small stays room =
    let (n, k_eq, least, most) = cbsize_bytes cblen_idx long_cb e in
    let size : length bytes ≡ n = omega arith in
    rw k_eq (
      same max_long_cb temp per_fw per bytes cblen_idx n (rw k_eq at e) per_eq (omega arith) least
        most size small (rw k_eq at stays) (omega arith))
