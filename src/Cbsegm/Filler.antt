-- ===== src/Cbsegm/Filler.antt =====
-- The transport block sizes of srslte/lib/phch/tbs_tables.h need no filler bits.
use vbbu.Prelude.{
  ℕ, ◌+◌, ◌≤◌, ◌<◌, ◌≡◌, refl, ap, ◌∙◌, Bool, true, some, ltb, ◌==◌, ◌&&◌, arith, sym, Status,
  success,
}
use vbbu.Prelude.Check.{all_below, all_below_sound, check_range}
use vbbu.Ra.Tbs.{table_entry, tbs_from_idx, max_prb}
use vbbu.Cbsegm.Result.{IsSegmentation}
use vbbu.Cbsegm.Segment.{cbsegm-IsSegmentation}
use vbbu.Cbsegm.{
  Segm, cbsegm, cbindex, cbsize, size_search, tc_cb_sizes, sizes, split, fill, blocks, with_crc,
}

abbrev unfilled : Segm → ℕ → ℕ → Bool
unfilled s n idx =
    (cbsegm s (table_entry idx n)).1.f == 0
    && ltb 0 (table_entry idx n)
    && ltb (table_entry idx n) 100000

unfilled_table : (s : Segm) → all_below 110 (λ k. all_below 27 (unfilled s (k + 1))) ≡ true
unfolding all_below table_entry cbsegm cbindex cbsize size_search tc_cb_sizes sizes split fill
    blocks with_crc
unfilled_table s = refl

-- Every transport block size that an index up to 26 and 1 to 110 resource blocks have is segmented
-- without filler bits.
pub cbsegm-tbs_from_idx :
    (s : Segm) (idx n : ℕ)
    → idx < 27
    → 1 ≤ n
    → n ≤ max_prb
    → (tbs : ℕ) × (s' : Segm) × (tbs_from_idx idx n ≡ some tbs)
      × (cbsegm s tbs ≡ (success, s'))
      × (s'.f ≡ 0)
      × IsSegmentation tbs s'
unfolding tbs_from_idx
cbsegm-tbs_from_idx s idx n small lo hi =
    let row =
      check_range 1 110 (λ m. all_below 27 (unfilled s m)) n (unfilled_table s) lo (omega arith) in
    let e = all_below_sound 27 (unfilled s n) idx row small in
    let tbs : ℕ = table_entry idx n in
    let (s', run, v) = cbsegm-IsSegmentation s tbs (ground (arith, e)) (ground (arith, e)) in
    let none_left : (cbsegm s tbs).1.f ≡ 0 = ground (arith, e) in
    (tbs, s', ground arith, run, sym (ap (λ (r : Status × Segm). r.1.f) run) ∙ none_left, v)
