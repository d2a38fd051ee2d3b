-- ===== src/Pdcch.antt =====
-- The downlink control channel, srslte/lib/phch/pdcch.c: the search spaces, and the coding of one
-- message. The parity of a word and the search through the trellis, which come with copies of another
-- library, are parameters, as are the soft values of `RmConv`.
pub mod Candidates
pub mod UeSpace
pub mod Locations
pub mod Mask
pub mod Message
pub mod Chain
mod Tests
use vbbu.Prelude.{
  ℕ, zero, suc, ◌+◌, ◌-◌, ◌*◌, ◌/◌, ◌%◌, ◌^◌, min, bit_and, bit_xor, Bool, true, false, Option,
  none, some, List, [], ◌∷◌, ◌++◌, get_or, take, drop, replicate, length, leb, ltb, ◌&&◌,
  if◌then◌else◌, Status, success, error,
}
use vbbu.Prelude.Options.{◌>>=◌}
use vbbu.Bit.{pack, unpack}
use vbbu.Crc.{Crc, crc_init, crc_attach, crc_checksum}
use vbbu.Convcoder.{Convcoder, encode}
use vbbu.RmConv.{Soft, rm_conv_tx, rm_conv_rx}
use vbbu.Viterbi.{Port, Viterbi, viterbi_37, viterbi_init, decode_f}
use vbbu.Dci.Dispatch.Location.{Location}

-- `Yk` after `m` rounds.
unfoldable pub yk_loop : ℕ → ℕ → ℕ
yk_loop zero yk = yk
yk_loop (suc m) yk = yk_loop m (39827 * yk % 65537)

-- `S`, by the aggregation level.
abbrev pub s_table : List ℕ
s_table = 6 ∷ 12 ∷ 8 ∷ 16 ∷ []

-- `c[k++]`, where there is room and the candidate fits. The candidates stored are a list.
unfoldable pub ue_store : ℕ → ℕ → ℕ → ℕ → ℕ → List Location → List Location
ue_store nof_cce max_candidates yk l i c =
    let ncce = 2 ^ l * ((yk + i) % (nof_cce / 2 ^ l)) in
    if ltb (length c) max_candidates && leb (ncce + 2 ^ l) nof_cce
    then c ++ (record { l = l; ncce = ncce } ∷ [])
    else c

-- The offsets of one level, with `n` rounds left.
unfoldable pub ue_level : ℕ → ℕ → ℕ → ℕ → ℕ → ℕ → List Location → List Location
ue_level nof_cce max_candidates yk l zero i c = c
ue_level nof_cce max_candidates yk l (suc n) i c =
    ue_level nof_cce max_candidates yk l n (i + 1)
      (if ltb (2 ^ l) nof_cce then ue_store nof_cce max_candidates yk l i c else c)

-- The levels, from `l - 1` down to 0.
unfoldable pub ue_levels : ℕ → ℕ → ℕ → ℕ → List Location → List Location
ue_levels nof_cce max_candidates yk zero c = c
ue_levels nof_cce max_candidates yk (suc l) c =
    ue_levels nof_cce max_candidates yk l (
      ue_level nof_cce max_candidates yk l (min (nof_cce / 2 ^ l) (get_or s_table l 0 / 2 ^ l)) 0 c)

-- `srslte_pdcch_ue_locations_ncce`
unfoldable pub ue_locations_ncce : ℕ → ℕ → ℕ → ℕ → List Location
ue_locations_ncce nof_cce max_candidates nsubframe rnti =
    ue_levels nof_cce max_candidates (yk_loop (nsubframe + 1) rnti) 4 []

-- The common search space.
unfoldable pub common_level : ℕ → ℕ → ℕ → ℕ → ℕ → List Location → List Location
common_level nof_cce max_candidates l zero i c = c
common_level nof_cce max_candidates l (suc n) i c =
    common_level nof_cce max_candidates l n (i + 1) (
      if ltb (length c) max_candidates
      then c ++ (record { l = l; ncce = 2 ^ l * (i % (nof_cce / 2 ^ l)) } ∷ [])
      else c)

-- `srslte_pdcch_common_locations_ncce`
unfoldable pub common_locations_ncce : ℕ → ℕ → List Location
common_locations_ncce nof_cce max_candidates =
    let top = common_level nof_cce max_candidates 3 (min nof_cce 16 / 2 ^ 3) 0 [] in
    common_level nof_cce max_candidates 2 (min nof_cce 16 / 2 ^ 2) 0 top

-- `SRSLTE_DCI_MAX_BITS`
abbrev pub dci_max_bits : ℕ
dci_max_bits = 128

-- The checksum that `srslte_pdcch_init` sets up.
unfoldable pub pdcch_crc : Crc
pdcch_crc = (crc_init 0x11021 16).1

-- The loop of `crc_set_mask_rnti`.
unfoldable pub mask_loop : List ℕ → List ℕ → List ℕ
mask_loop [] mask = []
mask_loop (c ∷ crc) [] = c ∷ crc
mask_loop (c ∷ crc) (m ∷ mask) = (c + m) % 2 ∷ mask_loop crc mask

-- `crc_set_mask_rnti`
unfoldable pub crc_set_mask_rnti : List ℕ → ℕ → List ℕ
crc_set_mask_rnti crc rnti = mask_loop crc (unpack rnti 16)

-- The encoder of `srslte_pdcch_dci_encode_conv`
abbrev pub dci_encoder : Convcoder
dci_encoder = record { rate = 3; k = 7; poly = 0x6d ∷ 0x4f ∷ 0x57 ∷ []; tail_biting = true }

-- The array `data` of `srslte_pdcch_dci_encode_conv` when it is coded: the message, and behind it its
-- checksum under the mask.
unfoldable pub masked_message : Crc → List ℕ → ℕ → ℕ → Option (List ℕ)
masked_message crc bits nof_bits rnti = crc_attach crc bits nof_bits >>= λ attached.
    some (take nof_bits bits ++ crc_set_mask_rnti attached.1 rnti ++ drop (nof_bits + 16) bits)

module _ (parity : ℕ → ℕ) where
  -- `srslte_pdcch_dci_encode_conv`: the arrays `data` and `coded_data`.
  unfoldable pub dci_encode_conv : Crc → List ℕ → ℕ → ℕ → Option (List ℕ × List ℕ)
  dci_encode_conv crc bits nof_bits rnti = masked_message crc bits nof_bits rnti >>= λ message.
      encode parity dci_encoder message (nof_bits + 16) >>= λ coded. some (message, coded)

  -- `srslte_pdcch_dci_encode`, in a channel of `max_bits` bits: the arrays `data` and `e`; `e` stays as
  -- it is where rate matching fails.
  unfoldable pub dci_encode :
      Crc → ℕ → List ℕ → List ℕ → ℕ → ℕ → ℕ → Option (Status × List ℕ × List ℕ)
  dci_encode crc max_bits bits e nof_bits e_bits rnti =
      if ltb nof_bits dci_max_bits && ltb e_bits max_bits
      then (dci_encode_conv crc bits nof_bits rnti >>= λ arrays.
          rm_conv_tx arrays.1 (3 * (nof_bits + 16)) e_bits >>= λ sent.
          some (success, arrays.0, elim sent.0 [ success ↦ sent.1 | error ↦ e ]))
      else some (error, bits, e)

-- What `srslte_pdcch_dci_decode` stores: the decoded bits, and the checksum against that received.
unfoldable pub dci_result : Crc → List ℕ → ℕ → Option (Status × List ℕ × ℕ)
dci_result crc bits nof_bits = pack 16 (drop nof_bits bits) >>= λ p_bits.
    crc_checksum crc bits nof_bits >>= λ crc_res.
    some (success, bits, bit_xor p_bits.0 (bit_and crc_res 0xffff))

-- The decoder that `srslte_pdcch_init` sets up; `none` is an error.
unfoldable pub pdcch_decoder {ℓ} : {P : Type ℓ} → Port P → Option (Viterbi P)
pdcch_decoder port = viterbi_init port viterbi_37 (0x6d ∷ 0x4f ∷ 0x57 ∷ []) (dci_max_bits + 16) true

module _ {ℓ κ} {A : Type ℓ} {P : Type κ} (soft : Soft A) (scaled : A → Option ℕ)
    (port : Port P) where
  -- `srslte_pdcch_dci_decode` of the soft values `e`, where `scaled` is the product that quantisation
  -- takes of a value; `bits` is what stands in the array `data` before. What the decoder returns is
  -- ignored.
  unfoldable pub dci_decode :
      Viterbi P → Crc → ℕ → List A → List ℕ → ℕ → Option (Status × List ℕ × ℕ × Viterbi P)
  dci_decode decoder crc max_bits e bits nof_bits =
      if leb (length e) max_bits && leb nof_bits dci_max_bits
      then (rm_conv_rx soft e (3 * (nof_bits + 16)) >>= λ received.
          let rm_f : List A = elim received.0 [
            | success ↦ received.1
            | error ↦ replicate (3 * (dci_max_bits + 16)) soft.nothing
          ] in
          let decoded = decode_f port scaled decoder rm_f bits (nof_bits + 16) in
          dci_result crc decoded.1 nof_bits >>= λ result.
          some (result.0, result.1, result.2, decoded.2))
      else some (error, bits, 0, decoder)
