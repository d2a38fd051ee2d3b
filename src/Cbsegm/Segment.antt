-- ===== src/Cbsegm/Segment.antt =====
-- The segmentation adds up: the code blocks hold the transport block, its checksums and the filler
-- bits.
use vbbu.Prelude.{
  ℕ, zero, suc, ◌+◌, ◌-◌, ◌*◌, ◌^◌, ◌≤◌, ◌<◌, ◌≡◌, ◌≢◌, inl, inr, refl, ap, ◌∙◌, false, some, ltb,
  ◌==◌, if◌then◌else◌, arith, Bool-cases, sub32, success, ==_iff,
}
use vbbu.Cbsegm.{Segm, cbsize, cbsegm, tc_cb_sizes, sizes, blocks, with_crc}
use vbbu.Cbsegm.Table.{cbindex-least, cbsize_bounds, cbsize_found}
use vbbu.Cbsegm.Result.{
  IsSegmentation, sizes_success, fill_one, fill_many, cbsegm-sizes, start, one_IsSegmentation,
  many_IsSegmentation,
}
use vbbu.Cbsegm.Split.{need, need_bounds, blocks_bounds, many_blocks, one_block, many_counts}

second_size :
    (j k1 : ℕ)
    → cbsize j ≡ some k1
    → (k2 : ℕ) × ((if ltb 0 j then cbsize (j - 1) else some k1) ≡ some k2)
second_size j k1 e = elim (Bool-cases (ltb 0 j)) [
  | inl later ↦
      let (inside, least, most) = cbsize_bounds j k1 e in
      let (k2, found) = cbsize_found (j - 1) (omega arith) in (k2, rw later found)
  | inr first ↦ (k1, rw first refl)
]

size_zero : cbsize 0 ≡ some 40
unfolding cbsize tc_cb_sizes
size_zero = refl

-- The index of a block of more than 40 bits is not the first.
later_index : (j k : ℕ) → cbsize j ≡ some k → 40 < k → 0 < j
later_index zero k e big = ground (arith, size_zero)
later_index (suc j) k e big = omega arith

large_need : (m c n : ℕ) → 41 * c < m → m ≤ c * n → 40 < n
large_need m c n large room = grind arith

under_total : (c k2 n m : ℕ) → k2 < n → c * (n - 1) < m → c * k2 < m
under_total c k2 n m under over = let le : k2 ≤ n - 1 = omega arith in grind arith

over_total : (c k1 n m : ℕ) → n ≤ k1 → m ≤ c * n → m ≤ c * k1
over_total c k1 n m big room = grind arith

second :
    (j k1 k2 : ℕ)
    → 0 < j
    → cbsize (j - 1) ≡ some k2
    → (if ltb 0 j then cbsize (j - 1) else some k1) ≡ some k2
second j k1 k2 later below = ground arith

module _ (s : Segm) (tbs : ℕ) (pos : 0 < tbs) (small : tbs + 24 < 2 ^ 23) where
  abbrev whole : ℕ
  whole = tbs + 24

  abbrev begun : Segm
  begun = record s { tbs = tbs; c = blocks whole }

  segment_one :
      (j k1 : ℕ)
      → blocks whole ≡ 1
      → cbsize j ≡ some k1
      → need (with_crc whole) (blocks whole) ≤ k1
      → (s' : Segm) × (sizes begun (with_crc whole) (some j) ≡ (success, s'))
        × IsSegmentation tbs s'
  segment_one j k1 one found big =
      let (some_block, few, some_bits, total, fits) = blocks_bounds whole (omega arith) small in
      let (room, over, top) =
        need_bounds (with_crc whole) (blocks whole) some_block some_bits total in
      let (inside, least, most) = cbsize_bounds j k1 found in
      let (k2, e2) = second_size j k1 found in
      let (single, all) = one_block whole one in
      let fit : with_crc whole ≤ k1 = grind arith in
      (
        record (start s tbs whole j k1 k2 refl found) {
          k2 = 0;
          k2_idx = 0;
          c2 = 0;
          c1 = 1;
          f = k1 - with_crc whole;
        },
        sizes_success begun (with_crc whole) j k1 k2 found e2
            ∙ ap (λ (x : Segm). (success, x))
                (fill_one (start s tbs whole j k1 k2 refl found) (with_crc whole) k2 one fit most),
        one_IsSegmentation s tbs whole j k1 k2 refl found one (omega (arith, fit, all)),
      )

  segment_many :
      (j k1 : ℕ)
      → blocks whole ≢ 1
      → cbsize j ≡ some k1
      → need (with_crc whole) (blocks whole) ≤ k1
      → ((i y : ℕ) → i < j → cbsize i ≡ some y → y < need (with_crc whole) (blocks whole))
      → (s' : Segm) × (sizes begun (with_crc whole) (some j) ≡ (success, s'))
        × IsSegmentation tbs s'
  segment_many j k1 many found big least =
      let m : ℕ = with_crc whole in
      let c : ℕ = blocks whole in
      let (some_block, few, some_bits, total, fits) = blocks_bounds whole (omega arith) small in
      let (room, over, top) = need_bounds m c some_block some_bits total in
      let (large, crcs, more) = many_blocks whole small many in
      let (inside, low, most) = cbsize_bounds j k1 found in
      let later =
        later_index j k1 found (omega (arith, large_need m c (need m c) more room, big)) in
      let (k2, below) = cbsize_found (j - 1) (omega arith) in
      let under = least (j - 1) k2 (omega arith) below in
      let (q, r, quot, add, some_first, sum, rest, filler) =
        many_counts c k1 k2 m few most (omega (arith, under, big))
          (under_total c k2 (need m c) m under over) (over_total c k1 (need m c) m big room) in
      let result : Segm = start s tbs whole j k1 k2 refl found in
      let several : (c == 1) ≡ false = ground arith in
      (
        record result { k2 = k2; k2_idx = sub32 j 1; c2 = q; c1 = sub32 c q; f = r },
        sizes_success begun m j k1 k2 found (second j k1 k2 later below)
            ∙ ap (λ (x : Segm). (success, x)) (fill_many result m k2 q r several quot filler),
        many_IsSegmentation s tbs whole j k1 k2 refl found (j - 1) q r small many below
            (omega arith) (omega arith) add some_first sum rest,
      )

-- A transport block of at least one bit that has less than 2 ^ 23 bits with its checksum is
-- segmented: K1 is in the table, there is at least one block of K1 bits, and the blocks of K1 and
-- K2 bits hold exactly the transport block, its checksum, one checksum for each of several
-- blocks, and the filler bits. There is one block only where that holds up to 6144 bits; if there
-- are several, K2 is the size before K1 in the table and the filler bits are fewer than the
-- difference of the two.
pub cbsegm-IsSegmentation :
    (s : Segm) (tbs : ℕ)
    → 0 < tbs
    → tbs + 24 < 2 ^ 23
    → (s' : Segm) × (cbsegm s tbs ≡ (success, s')) × IsSegmentation tbs s'
cbsegm-IsSegmentation s tbs pos small =
    let b : ℕ = tbs + 24 in
    let (some_block, few, some_bits, total, fits) = blocks_bounds b (omega arith) small in
    let (room, over, top) = need_bounds (with_crc b) (blocks b) some_block some_bits total in
    let (j, k1, e, found, big, least) = cbindex-least (need (with_crc b) (blocks b)) top in
    let steps =
      cbsegm-sizes s tbs b pos refl small ∙ ap (sizes (begun s tbs pos small) (with_crc b)) e in
    elim (Bool-cases (blocks b == 1)) [
      | inl one ↦
          let (s', run, v) = segment_one s tbs pos small j k1 ((==_iff _ _).0 one) found big in
          (s', steps ∙ run, v)
      | inr many ↦
          let (s', run, v) =
            segment_many s tbs pos small j k1 (λ p. absurd (ground arith)) found big least in
          (s', steps ∙ run, v)
    ]
