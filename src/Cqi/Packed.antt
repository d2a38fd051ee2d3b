-- ===== src/Cqi/Packed.antt =====
-- What is packed into a report can be read back.
use vbbu.Prelude.{
  ℕ, ◌+◌, ◌*◌, ◌%◌, ◌^◌, ◌≤◌, ◌≡◌, some, List, ◌++◌, length, length-append, append_assoc, arith,
  u32, ◌∙◌,
}
use vbbu.Bit.{pack, unpack}
use vbbu.Bit.RoundTrip.{pack-unpack, length-unpack}
use vbbu.Cqi.{HlSubband, hl_subband_pack}

-- For up to sixteen subbands, the report of the subbands configured by higher layers is as long as the
-- return value says, and `srslte_bit_pack` of its first 4 bits and of the others gives the two fields,
-- cut to their widths.
hl_subband_pack-fields :
    (msg : HlSubband) (rest : List ℕ)
    → msg.n ≤ 16
    → (length (hl_subband_pack msg).1 ≡ (hl_subband_pack msg).0)
      × ((tail : List ℕ) × (pack 4 ((hl_subband_pack msg).1 ++ rest)
            ≡ some (msg.wideband_cqi % 2 ^ 4, tail))
          × (pack (2 * msg.n) tail ≡ some (msg.subband_diff_cqi % 2 ^ (2 * msg.n), rest)))
unfolding hl_subband_pack
hl_subband_pack-fields msg rest h =
    let small : u32 (2 * msg.n) ≡ 2 * msg.n = omega arith in
    let whole : u32 (4 + 2 * msg.n) ≡ 4 + 2 * msg.n = omega arith in
    rw small (
      rw whole (
        length-append (unpack msg.wideband_cqi 4) (unpack msg.subband_diff_cqi (2 * msg.n))
            ∙ omega (
              arith,
              length-unpack msg.wideband_cqi 4,
              length-unpack msg.subband_diff_cqi (2 * msg.n),
            ),
        (
          unpack msg.subband_diff_cqi (2 * msg.n) ++ rest,
          rw
              (append_assoc (unpack msg.wideband_cqi 4) (unpack msg.subband_diff_cqi (2 * msg.n))
                rest)
              (pack-unpack 4 msg.wideband_cqi (unpack msg.subband_diff_cqi (2 * msg.n) ++ rest)
                (omega arith)),
          pack-unpack (2 * msg.n) msg.subband_diff_cqi rest (omega arith),
        ),
      ))
