-- ===== src/Crc/Prefix.antt =====
-- srslte_crc_checksum of srslte/lib/fec/crc.c reads the bits it is asked for, and no more.
use vbbu.Prelude.{
  ℕ, zero, suc, ◌+◌, ◌-◌, ◌*◌, ◌/◌, ◌%◌, ◌^◌, ◌≤◌, ◌<◌, ◌≡◌, inl, inr, refl, bit_and, bit_or,
  Bool-cases, some, List, [], ◌∷◌, ◌++◌, length, arith, ◌==◌, ◌<<<◌, u8, u32,
}
use vbbu.Prelude.Bits.{bit_and_mask}
use vbbu.Bit.{pack_loop, pack}
use vbbu.Crc.{Crc, crctable, reversecrcbit, reverse_loop, last_byte, packed_loop, crc_checksum}

pack_loop-append :
    (w k v : ℕ) (xs ys : List ℕ)
    → k ≤ length xs
    → (value : ℕ) × (rest : List ℕ) × (pack_loop w k v xs ≡ some (value, rest))
      × (pack_loop w k v (xs ++ ys) ≡ some (value, rest ++ ys))
      × (length rest + k ≡ length xs)
unfolding pack_loop
pack_loop-append w zero v xs ys h = (v, xs, refl, refl, omega arith)
pack_loop-append w (suc k) v [] ys h = absurd (omega arith)
pack_loop-append w (suc k) v (x ∷ xs) ys h =
    let r = pack_loop-append w k (bit_or v (x * 2 ^ k % 2 ^ w)) xs ys (omega arith) in
    (r.0, r.1, r.2, r.3, omega (arith, r.4))

packed_loop-append :
    (c : Crc) (n : ℕ) (xs ys : List ℕ) (crc : ℕ)
    → 8 * n ≤ length xs
    → (value : ℕ) × (rest : List ℕ) × (packed_loop c n xs crc ≡ some (value, rest))
      × (packed_loop c n (xs ++ ys) crc ≡ some (value, rest ++ ys))
      × (length rest + 8 * n ≡ length xs)
unfolding packed_loop pack
packed_loop-append c zero xs ys crc h = (crc, xs, refl, refl, omega arith)
packed_loop-append c (suc n) xs ys crc h =
    let byte = pack_loop-append 32 8 0 xs ys (omega arith) in
    let r =
      packed_loop-append c n byte.1 ys (crctable c crc (bit_and byte.0 0xff))
        (omega (arith, byte.4)) in
    (r.0, r.1, rw byte.2 r.2, rw byte.3 r.3, omega (arith, r.4, byte.4))

last_byte-append :
    (n k : ℕ) (xs ys : List ℕ) (byte : ℕ)
    → n ≤ length xs
    → (value : ℕ) × (last_byte n k xs byte ≡ some value)
      × (last_byte n k (xs ++ ys) byte ≡ some value)
unfolding last_byte
last_byte-append zero k xs ys byte h = (byte, refl, refl)
last_byte-append (suc n) k [] ys byte h = absurd (omega arith)
last_byte-append (suc n) k (x ∷ xs) ys byte h =
    last_byte-append n (k + 1) xs ys (u8 (bit_or byte (x <<< (7 - k)))) (omega arith)

masked : (x : ℕ) → u32 (bit_and x (2 ^ 16 - 1)) < 2 ^ 16
masked x = rw (bit_and_mask 16 x) (omega arith)

-- Over enough bits the checksum succeeds, does not depend on what lies behind them, and is a number of 16 bits if
-- the mask has as many.
pub crc_checksum-append :
    (c : Crc) (xs ys : List ℕ) (len : ℕ)
    → len ≤ length xs
    → c.crcmask ≡ 2 ^ 16 - 1
    → (value : ℕ) × (crc_checksum c xs len ≡ some value)
      × (crc_checksum c (xs ++ ys) len ≡ some value)
      × (value < 2 ^ 16)
unfolding crc_checksum reversecrcbit
crc_checksum-append c xs ys len h m =
    let whole = packed_loop-append c (len / 8) xs ys 0 (omega arith) in
    elim (Bool-cases (len % 8 == 0)) [
      | inl none_left ↦ (
        u32 (bit_and whole.0 c.crcmask),
        rw whole.2 (rw none_left refl),
        rw whole.3 (rw none_left refl),
        simp m (masked whole.0),
      )
      | inr some_left ↦
          let byte = last_byte-append (len % 8) 0 whole.1 ys 0 (omega (arith, whole.4)) in
          let crc : ℕ = u32 (bit_and (crctable c whole.0 byte.0) c.crcmask) in
          (
            u32 (bit_and (reverse_loop c (8 - len % 8) crc) c.crcmask),
            rw whole.2 (rw some_left (rw byte.1 refl)),
            rw whole.3 (rw some_left (rw byte.2 refl)),
            simp m (
                masked (
                  reverse_loop c (8 - len % 8)
                    (u32 (bit_and (crctable c whole.0 byte.0) (2 ^ 16 - 1))))),
          )
    ]
