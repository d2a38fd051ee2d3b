-- ===== src/Cbsegm/Result.antt =====
-- What a segmentation promises, and the segmentations into one and into several blocks.
use vbbu.Prelude.{
  ℕ, ◌+◌, ◌-◌, ◌*◌, ◌/◌, ◌^◌, ◌≤◌, ◌<◌, ◌≡◌, ◌≢◌, refl, sym, ap, ◌∙◌, true, false, some, ltb, ◌==◌,
  if◌then◌else◌, arith, u32, sub32, success, ==_iff,
}
use vbbu.Cbsegm.{Segm, cbindex, cbsize, cbsegm, sizes, split, fill, blocks, with_crc, max_len_cb}
use vbbu.Cbsegm.Split.{need, need_bounds, blocks_bounds, many_blocks, one_block}

pub sizes_success :
    (s : Segm) (bp j k1 k2 : ℕ)
    → cbsize j ≡ some k1
    → (if ltb 0 j then cbsize (j - 1) else some k1) ≡ some k2
    → sizes s bp (some j) ≡ (success, fill (split (record s { k1 = k1; k1_idx = j }) bp k2) bp)
unfolding sizes
sizes_success s bp j k1 k2 e1 e2 = rw (e1, sizes) (rw (e2, sizes) refl)

-- What a segmentation promises for a transport block of `tbs` bits.
pub record IsSegmentation (tbs : ℕ) (s : Segm) : Type 0 where
  pub block : s.tbs ≡ tbs
  pub first_size : cbsize s.k1_idx ≡ some s.k1
  pub number : s.c1 + s.c2 ≡ s.c
  pub some_first : 1 ≤ s.c1
  pub sum : s.c1 * s.k1 + s.c2 * s.k2 ≡ tbs + 24 + (if s.c == 1 then 0 else 24 * s.c) + s.f
  pub single : s.c ≡ 1 → (tbs + 24 ≤ max_len_cb) × (s.c2 ≡ 0)
  pub several :
      s.c ≢ 1
      → (max_len_cb < tbs + 24)
        × (cbsize s.k2_idx ≡ some s.k2)
        × (s.k2_idx + 1 ≡ s.k1_idx)
        × (s.k2 + s.f < s.k1)

split_one :
    (s : Segm) (bp k2 : ℕ)
    → (s.c == 1) ≡ true
    → split s bp k2 ≡ record s { k2 = 0; k2_idx = 0; c2 = 0; c1 = 1 }
unfolding split
split_one s bp k2 one = rw (one, split) refl

split_many :
    (s : Segm) (bp k2 : ℕ)
    → (s.c == 1) ≡ false
    → split s bp k2 ≡ record s {
      k2 = k2;
      k2_idx = sub32 s.k1_idx 1;
      c2 = sub32 (u32 (s.c * s.k1)) bp / sub32 s.k1 k2;
      c1 = sub32 s.c (sub32 (u32 (s.c * s.k1)) bp / sub32 s.k1 k2);
    }
unfolding split
split_many s bp k2 many = rw (many, split) refl

pub fill_one :
    (s : Segm) (bp k2 : ℕ)
    → s.c ≡ 1
    → bp ≤ s.k1
    → s.k1 ≤ 6144
    → fill (split s bp k2) bp ≡ record s { k2 = 0; k2_idx = 0; c2 = 0; c1 = 1; f = s.k1 - bp }
unfolding fill
fill_one s bp k2 one big small =
    let filler : sub32 (u32 (1 * s.k1 + 0 * 0)) bp ≡ s.k1 - bp = omega arith in
    rw (split_one s bp k2 ((==_iff s.c 1).1 one))
      (ap (λ (x : ℕ). record s { k2 = 0; k2_idx = 0; c2 = 0; c1 = 1; f = x }) filler)

pub fill_many :
    (s : Segm) (bp k2 q r : ℕ)
    → (s.c == 1) ≡ false
    → sub32 (u32 (s.c * s.k1)) bp / sub32 s.k1 k2 ≡ q
    → sub32 (u32 (sub32 s.c q * s.k1 + q * k2)) bp ≡ r
    → fill (split s bp k2) bp
      ≡ record s { k2 = k2; k2_idx = sub32 s.k1_idx 1; c2 = q; c1 = sub32 s.c q; f = r }
unfolding fill
fill_many s bp k2 q r many quot filler = rw (split_many s bp k2 many) (
    ap
      (λ (x : ℕ). record s {
        k2 = k2;
        k2_idx = sub32 s.k1_idx 1;
        c2 = x;
        c1 = sub32 s.c x;
        f = sub32 (u32 (sub32 s.c x * s.k1 + x * k2)) bp;
      })
      quot
    ∙ ap
        (λ (x : ℕ). record s {
          k2 = k2;
          k2_idx = sub32 s.k1_idx 1;
          c2 = q;
          c1 = sub32 s.c q;
          f = x;
        })
        filler)

need_word :
    (m c : ℕ) → 1 ≤ c → 1 ≤ m → m ≤ 6144 * c → m < 2 ^ 24 → u32 (sub32 m 1 / c + 1) ≡ need m c
need_word m c pos some_bits total fits =
    let e : sub32 m 1 ≡ m - 1 = omega arith in
    let bounds = need_bounds m c pos some_bits total in
    let small : u32 (need m c) ≡ need m c = omega (arith, bounds) in
    ap (λ (x : ℕ). u32 (x / c + 1)) e ∙ small

pub cbsegm-sizes :
    (s : Segm) (tbs b : ℕ)
    → 0 < tbs
    → tbs + 24 ≡ b
    → b < 2 ^ 23
    → cbsegm s tbs
      ≡ sizes
          (record s { tbs = tbs; c = blocks b })
          (with_crc b)
          (cbindex (need (with_crc b) (blocks b)))
unfolding cbsegm
cbsegm-sizes s tbs b pos is_b small =
    let nonzero : (tbs == 0) ≡ false = ground arith in
    let same : u32 (tbs + 24) ≡ b = omega arith in
    let (some_block, few, some_bits, total, fits) = blocks_bounds b (omega arith) small in
    rw nonzero (
      rw same (
        ap (λ (x : ℕ). sizes (record s { tbs = tbs; c = blocks b }) (with_crc b) (cbindex x))
          (need_word (with_crc b) (blocks b) some_block some_bits total fits)))

module _ (s : Segm) (tbs b j k1 k2 : ℕ) (is_b : tbs + 24 ≡ b) (found : cbsize j ≡ some k1) where
  abbrev pub start : Segm
  start = record s { tbs = tbs; c = blocks b; k1 = k1; k1_idx = j }

  pub one_IsSegmentation :
      (blocks b ≡ 1)
      → b ≤ k1
      → IsSegmentation tbs
          (record start { k2 = 0; k2_idx = 0; c2 = 0; c1 = 1; f = k1 - with_crc b })
  one_IsSegmentation one big =
      let (fits, all) = one_block b one in
      record {
        block = refl;
        first_size = found;
        number = sym one;
        some_first = omega arith;
        sum = ground (arith, fits, all);
        single = λ p. (omega arith, refl);
        several = λ p. absurd (p one);
      }

  pub many_IsSegmentation :
      (i q r : ℕ)
      → b < 2 ^ 23
      → blocks b ≢ 1
      → cbsize i ≡ some k2
      → i + 1 ≡ j
      → sub32 j 1 ≡ i
      → sub32 (blocks b) q + q ≡ blocks b
      → 1 ≤ sub32 (blocks b) q
      → sub32 (blocks b) q * k1 + q * k2 ≡ with_crc b + r
      → k2 + r < k1
      → IsSegmentation tbs
          (record start { k2 = k2; k2_idx = sub32 j 1; c2 = q; c1 = sub32 (blocks b) q; f = r })
  many_IsSegmentation i q r small many below next idx total some_first sum rest =
      let (large, crcs, more) = many_blocks b small many in
      record {
        block = refl;
        first_size = found;
        number = total;
        some_first = some_first;
        sum = sum ∙ ground (arith, crcs);
        single = λ p. absurd (many p);
        several = λ p. (omega (arith, large), rw idx below, ap (λ (x : ℕ). x + 1) idx ∙ next, rest);
      }
