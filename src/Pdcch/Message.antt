-- ===== src/Pdcch/Message.antt =====
-- A message of srslte/lib/phch/pdcch.c with its masked checksum, and its coded bits.
use vbbu.Prelude.{
  ℕ, zero, suc, ◌+◌, ◌-◌, ◌*◌, ◌/◌, ◌%◌, ◌^◌, ◌<◌, ◌≡◌, inl, inr, refl, sym, ap, ◌∙◌, bit_and,
  bit_xor, some, List, [], ◌∷◌, ◌++◌, get_or, get_or-append_left, get_or-append_right, take, drop,
  take-append, drop-append, drop-past, get_or-past, append-nil, append_assoc, length, length-append,
  arith, success,
}
use native.Mathlib.Decide.{dec_lt}
use mathlib.Core.Option.{some-injective}
use vbbu.Bit.{pack, unpack}
use vbbu.Bit.RoundTrip.{pack-unpack, length-unpack}
use vbbu.Crc.{Crc, crc_attach, crc_checksum}
use vbbu.Crc.Attach.{crc_init-IsReady}
use vbbu.Crc.Prefix.{crc_checksum-append}
use vbbu.Convcoder.{encode}
use vbbu.Convcoder.Register.{taps}
use vbbu.Convcoder.Cyclic.{encode-taps}
use vbbu.Pdcch.{pdcch_crc, dci_encoder, masked_message, dci_result}
use vbbu.Pdcch.Mask.{crc_set_mask_rnti-unpack, unmask, unpack-lt}

-- The checksum of the control channel.
abbrev pub IsCrc16 : Crc → Type 0
IsCrc16 crc = (crc.order ≡ 16) × (crc.crcmask ≡ 2 ^ 16 - 1)

module _ (crc : Crc) (is16 : IsCrc16 crc) (bits : List ℕ) (small : (i : ℕ) → get_or bits i 0 < 2)
    (rnti : ℕ) (rnti_lt : rnti < 2 ^ 16) where
  checksum : (v : ℕ) × (crc_checksum crc bits (length bits) ≡ some v) × (v < 2 ^ 16)
  checksum =
      let r = crc_checksum-append crc bits [] (length bits) (omega arith) is16.1 in (r.0, r.1, r.3)

  pub message : List ℕ
  message = bits ++ unpack (bit_xor checksum.0 rnti) 16

  pub length-message : length message ≡ length bits + 16
  unfolding message
  length-message = omega (
    arith,
    length-append bits (unpack (bit_xor checksum.0 rnti) 16),
    length-unpack (bit_xor checksum.0 rnti) 16,
  )

  pub message-lt : (i : ℕ) → get_or message i 0 < 2
  unfolding message
  message-lt i = elim (dec_lt i (length bits)) [
    | yes inside ↦
        rw (get_or-append_left bits (unpack (bit_xor checksum.0 rnti) 16) i 0 inside) (small i)
    | no past ↦
        let e : i ≡ length bits + (i - length bits) = omega arith in
        rw e (
          rw (get_or-append_right bits (unpack (bit_xor checksum.0 rnti) 16) (i - length bits) 0)
            (unpack-lt (bit_xor checksum.0 rnti) 16 (i - length bits)))
  ]

  pub message-starts : (rest : List ℕ) → take (length bits) (message ++ rest) ≡ bits
  unfolding message
  message-starts rest =
      ap (λ t. take (length bits) t) (append_assoc bits (unpack (bit_xor checksum.0 rnti) 16) rest)
      ∙ take-append bits (unpack (bit_xor checksum.0 rnti) 16 ++ rest) (length bits) refl

  attached_lem : crc_attach crc bits (length bits) ≡ some (checksum.0, unpack checksum.0 16)
  unfolding crc_attach
  attached_lem = rw checksum.1 (ap (λ t. some (checksum.0, unpack checksum.0 t)) is16.0)

  pub masked_message_lem : masked_message crc bits (length bits) rnti ≡ some message
  unfolding masked_message message
  masked_message_lem =
      let all : take (length bits) bits ≡ bits =
        ap (λ t. take (length bits) t) (sym (append-nil bits))
        ∙ take-append bits [] (length bits) refl in
      let none_behind : drop (length bits + 16) bits ≡ [] =
        drop-past bits (length bits + 16) (omega arith) in
      rw attached_lem (
        rw all (
          rw (crc_set_mask_rnti-unpack checksum.0 rnti)
            (rw none_behind (ap some (append-nil (bits ++ unpack (bit_xor checksum.0 rnti) 16))))))

  -- What the receiver makes of the message, whatever stands behind it.
  pub dci_result_lem :
      (rest : List ℕ)
      → dci_result crc (message ++ rest) (length bits) ≡ some (success, message ++ rest, rnti)
  unfolding dci_result message
  dci_result_lem rest =
      let sent : List ℕ = unpack (bit_xor checksum.0 rnti) 16 in
      let again = crc_checksum-append crc bits (sent ++ rest) (length bits) (omega arith) is16.1 in
      let same : again.0 ≡ checksum.0 = some-injective _ _ (sym again.1 ∙ checksum.1) in
      let read : pack 16 (drop (length bits) (bits ++ (sent ++ rest)))
          ≡ some (bit_xor checksum.0 rnti % 2 ^ 16, rest) =
        ap (λ t. pack 16 t) (drop-append bits (sent ++ rest))
        ∙ pack-unpack 16 (bit_xor checksum.0 rnti) rest (omega arith) in
      rw (append_assoc bits sent rest) (
        rw read (
          rw again.2 (
            rw same (
              ap (λ t. some (success, bits ++ (sent ++ rest), t))
                (unmask checksum.0 rnti checksum.2 rnti_lt)))))

module _ (parity : ℕ → ℕ) (parity_lt : (x : ℕ) → parity x < 2) where
  generators : (l : ℕ) → l < 3 → get_or (0x6d ∷ 0x4f ∷ 0x57 ∷ []) l 0 < 2 ^ suc 6
  generators zero h = omega arith
  generators (suc zero) h = omega arith
  generators (suc (suc zero)) h = omega arith
  generators (suc (suc (suc l))) h = absurd (omega arith)

  -- The coded bits of a message are bits.
  pub coded_bits :
      (n : ℕ) (word : List ℕ)
      → length word ≡ n
      → 8 < n
      → (coded : List ℕ) × (encode parity dci_encoder word n ≡ some coded)
        × ((i : ℕ) → get_or coded i 0 < 2)
        × ((i l : ℕ)
            → i < n
            → l < 3
            → get_or coded (i * 3 + l) 0
              ≡ parity (bit_and (taps word n 7 i) (get_or (0x6d ∷ 0x4f ∷ 0x57 ∷ []) l 0)))
  coded_bits n word size long =
      let r =
        encode-taps parity dci_encoder word n 6 refl (omega arith) generators refl long
          (omega (arith, size)) in
      (
        r.0,
        r.1,
        λ i. elim (dec_lt i (n * 3)) [
          | yes inside ↦
              let e : i / 3 * 3 + i % 3 ≡ i = omega arith in
              let bit = rw e at (r.3 (i / 3) (i % 3) (omega arith) (omega arith)) in
              rw bit (
                parity_lt
                  (bit_and (taps word n 7 (i / 3)) (get_or (0x6d ∷ 0x4f ∷ 0x57 ∷ []) (i % 3) 0)))
          | no past ↦ rw (get_or-past r.0 i 0 (omega (arith, r.2))) (omega arith)
        ],
        r.3,
      )

pub pdcch_crc-IsCrc16 : IsCrc16 pdcch_crc
unfolding pdcch_crc
pdcch_crc-IsCrc16 =
    let ready = crc_init-IsReady 0x11021 16 (inr (inl refl)) in (ready.order_eq, ready.mask_eq)
