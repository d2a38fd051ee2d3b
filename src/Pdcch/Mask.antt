-- ===== src/Pdcch/Mask.antt =====
-- The checksum of a message under the mask of an RNTI, srslte/lib/phch/pdcch.c.
use vbbu.Prelude.{
  ℕ, zero, suc, ◌/◌, ◌%◌, ◌^◌, ◌<◌, ◌≡◌, refl, sym, ap₂, ◌∙◌, bit_and, bit_xor, ◌∷◌, get_or, arith,
}
use native.Mathlib.Nat.{mod-eq_of_lt}
use vbbu.Prelude.Bits.{
  bit_and-one, bit_and_mask, bit_xor-digit, bit_xor-mod, bit_xor_comm, bit_xor_cancel,
}
use vbbu.Bit.{unpack}
use vbbu.Pdcch.{mask_loop, crc_set_mask_rnti}

mask_loop-unpack : (v r n : ℕ) → mask_loop (unpack v n) (unpack r n) ≡ unpack (bit_xor v r) n
unfolding mask_loop unpack
mask_loop-unpack v r zero = refl
mask_loop-unpack v r (suc n) =
    let a = bit_and-one (v / 2 ^ n) in
    let b = bit_and-one (r / 2 ^ n) in
    let c = bit_and-one (bit_xor v r / 2 ^ n) in
    ap₂ ◌∷◌ (rw a (rw b (sym (bit_xor-digit n v r) ∙ sym c))) (mask_loop-unpack v r n)

pub crc_set_mask_rnti-unpack :
    (v rnti : ℕ) → crc_set_mask_rnti (unpack v 16) rnti ≡ unpack (bit_xor v rnti) 16
unfolding crc_set_mask_rnti
crc_set_mask_rnti-unpack v rnti = mask_loop-unpack v rnti 16

-- Taking the checksum from what was read of the masked one leaves the mask.
pub unmask :
    (v rnti : ℕ)
    → v < 2 ^ 16
    → rnti < 2 ^ 16
    → bit_xor (bit_xor v rnti % 2 ^ 16) (bit_and v 0xffff) ≡ rnti
unmask v rnti hv hr = rw (bit_xor-mod 16 v rnti) (
    rw (bit_and_mask 16 v) (
      rw (mod-eq_of_lt {n = v} {m = 2 ^ 16} hv) (
        rw (mod-eq_of_lt {n = rnti} {m = 2 ^ 16} hr)
          (rw (bit_xor_comm v rnti) (bit_xor_cancel rnti v)))))

pub unpack-lt : (v n i : ℕ) → get_or (unpack v n) i 0 < 2
unfolding unpack
unpack-lt v zero i = omega arith
unpack-lt v (suc n) zero = omega (arith, bit_and-one (v / 2 ^ n))
unpack-lt v (suc n) (suc i) = unpack-lt v n i
