-- ===== src/Crc/Attach.antt =====
-- A block with its checksum attached has the checksum 0.
use vbbu.Prelude.{
  ℕ, zero, suc, ◌+◌, ◌-◌, ◌*◌, ◌/◌, ◌%◌, ◌^◌, ◌≤◌, ◌≡◌, ◌⊎◌, inl, inr, refl, sym, ap, ◌∙◌, bit_and,
  List, [], ◌∷◌, ◌++◌, take, length, length-append, length-take, take-append, append_assoc, drop,
  arith, get_or, ◌<<<◌, ◌>>>◌, u8, u32,
}
use vbbu.Prelude.Bits.{bit_and_mask, bit_xor-zero, bit_xor_self, zero-bit_and, bit_and-shift}
use vbbu.Crc.{
  Crc, u64, crctable, checksum_loop, crc_init, gen_crc_table, entry_loop, crc_checksum_byte,
  checksum_bytes, crc_attach_byte,
}

-- The orders that the table serves.
abbrev pub IsOrder : ℕ → Type 0
IsOrder order = (order ≡ 8) ⊎ (order ≡ 16) ⊎ (order ≡ 24) ⊎ (order ≡ 32)

-- What the proof needs of the generated table.
pub record IsReady (order : ℕ) (h : Crc) : Type 0 where
  pub order_eq : h.order ≡ order
  pub mask_eq : h.crcmask ≡ 2 ^ order - 1
  starts : (d : ℕ) → get_or h.table 0 d ≡ 0

checksum_loop-append :
    (h : Crc) (xs ys : List ℕ) (crc : ℕ)
    → checksum_loop h (xs ++ ys) crc ≡ checksum_loop h ys (checksum_loop h xs crc)
unfolding checksum_loop
checksum_loop-append h [] ys crc = refl
checksum_loop-append h (x ∷ xs) ys crc = checksum_loop-append h xs ys (crctable h crc x)

-- A byte that is the top of the register only shifts it.
crctable-top :
    (h : Crc) (k crc byte : ℕ)
    → IsReady (8 + k) h
    → byte ≡ crc / 2 ^ k % 2 ^ 8
    → crctable h crc byte ≡ u64 (crc * 2 ^ 8)
unfolding crctable
crctable-top h k crc byte r e =
    let order : h.order - 8 ≡ k = omega (arith, r.order_eq) in
    rw (order, e)
      (rw (bit_and_mask 8 (crc / 2 ^ k)) (
        rw (bit_xor_self (crc / 2 ^ k % 2 ^ 8))
          (rw (r.starts 0) (bit_xor-zero (u64 (crc * 2 ^ 8))))))

entry_loop-zero : (polynom high n : ℕ) → entry_loop polynom high n 0 ≡ 0
unfolding entry_loop
entry_loop-zero polynom high zero = refl
entry_loop-zero polynom high (suc n) = rw (zero-bit_and high) (entry_loop-zero polynom high n)

gen_crc_table-starts : (h : Crc) (n : ℕ) → (d : ℕ) → get_or (gen_crc_table h (suc n) 0) 0 d ≡ 0
unfolding gen_crc_table
gen_crc_table-starts h n d =
    let e : u64 (0 <<< (h.order - 8)) ≡ 0 = omega arith in
    rw e (rw (entry_loop-zero h.polynom h.crchighbit 8) (zero-bit_and h.crcmask))

bit_and-byte : (k a : ℕ) → bit_and a (255 * 2 ^ k) / 2 ^ k ≡ a / 2 ^ k % 2 ^ 8
bit_and-byte k a = bit_and-shift k a 255 ∙ bit_and_mask 8 (a / 2 ^ k)

pub crc_init-IsReady : (poly order : ℕ) → IsOrder order → IsReady order (crc_init poly order).1
unfolding crc_init
crc_init-IsReady poly order (inl e) =
    rw e (record { order_eq = refl; mask_eq = refl; starts = gen_crc_table-starts _ 255 })
crc_init-IsReady poly order (inr (inl e)) =
    rw e (record { order_eq = refl; mask_eq = refl; starts = gen_crc_table-starts _ 255 })
crc_init-IsReady poly order (inr (inr (inl e))) =
    rw e (record { order_eq = refl; mask_eq = refl; starts = gen_crc_table-starts _ 255 })
crc_init-IsReady poly order (inr (inr (inr e))) =
    rw e (record { order_eq = refl; mask_eq = refl; starts = gen_crc_table-starts _ 255 })

crctable-checksum_byte :
    (h : Crc) (k j crc c : ℕ)
    → IsReady (8 + k) h
    → c / 2 ^ j % 2 ^ 8 ≡ crc / 2 ^ k % 2 ^ 8
    → crctable h crc (u8 (bit_and c (255 * 2 ^ j) >>> j)) ≡ u64 (crc * 2 ^ 8)
crctable-checksum_byte h k j crc c r e =
    crctable-top h k crc (u8 (bit_and c (255 * 2 ^ j) >>> j)) r
      (rw (bit_and-byte j c) (rw e (omega arith)))

-- The bytes of the checksum of a register shift everything out below the order.
checksum_bytes-checksum_loop :
    (h : Crc) (order crc : ℕ)
    → IsOrder order
    → IsReady order h
    → checksum_loop h (checksum_bytes (u32 (crc % 2 ^ order)) (order / 8)) crc % 2 ^ order ≡ 0
unfolding checksum_loop checksum_bytes
checksum_bytes-checksum_loop h order crc (inl e) r =
    let r' : IsReady 8 h = rw e at r in
    rw e (rw (crctable-checksum_byte h 0 0 crc (u32 (crc % 2 ^ 8)) r' (omega arith)) (omega arith))
checksum_bytes-checksum_loop h order crc (inr (inl e)) r =
    let r' : IsReady 16 h = rw e at r in
    rw e (
      rw (crctable-checksum_byte h 8 8 crc (u32 (crc % 2 ^ 16)) r' (omega arith)) (
        rw (crctable-checksum_byte h 8 0 (u64 (crc * 2 ^ 8)) (u32 (crc % 2 ^ 16)) r' (omega arith))
          (omega arith)))
checksum_bytes-checksum_loop h order crc (inr (inr (inl e))) r =
    let r' : IsReady 24 h = rw e at r in
    rw e (
      rw (crctable-checksum_byte h 16 16 crc (u32 (crc % 2 ^ 24)) r' (omega arith)) (
        rw (crctable-checksum_byte h 16 8 (u64 (crc * 2 ^ 8)) (u32 (crc % 2 ^ 24)) r' (omega arith))
          (rw
            (crctable-checksum_byte h 16 0 (u64 ((u64 (crc * 2 ^ 8)) * 2 ^ 8)) (u32 (crc % 2 ^ 24))
              r' (omega arith))
            (omega arith))))
checksum_bytes-checksum_loop h order crc (inr (inr (inr e))) r =
    let r' : IsReady 32 h = rw e at r in
    rw e (
      rw (crctable-checksum_byte h 24 24 crc (u32 (crc % 2 ^ 32)) r' (omega arith)) (
        rw
          (crctable-checksum_byte h 24 16 (u64 (crc * 2 ^ 8)) (u32 (crc % 2 ^ 32)) r' (omega arith))
          (rw
            (crctable-checksum_byte h 24 8 (u64 ((u64 (crc * 2 ^ 8)) * 2 ^ 8)) (u32 (crc % 2 ^ 32))
              r' (omega arith))
            (rw
              (crctable-checksum_byte h 24 0 (u64 ((u64 ((u64 (crc * 2 ^ 8)) * 2 ^ 8)) * 2 ^ 8))
                (u32 (crc % 2 ^ 32)) r' (omega arith))
              (omega arith)))))

length-checksum_bytes : (checksum n : ℕ) → length (checksum_bytes checksum n) ≡ n
unfolding checksum_bytes
length-checksum_bytes checksum zero = refl
length-checksum_bytes checksum (suc n) = ap suc (length-checksum_bytes checksum n)

order-bound : (order : ℕ) → IsOrder order → (order % 8 ≡ 0) × (order ≤ 32)
order-bound order (inl e) = (omega arith, omega arith)
order-bound order (inr (inl e)) = (omega arith, omega arith)
order-bound order (inr (inr (inl e))) = (omega arith, omega arith)
order-bound order (inr (inr (inr e))) = (omega arith, omega arith)

crc_attach_byte-IsReady :
    (h : Crc) (order : ℕ) (bytes : List ℕ) (len : ℕ)
    → IsOrder order
    → IsReady order h
    → len / 8 ≤ length bytes
    → crc_checksum_byte h (crc_attach_byte h bytes len).1 (len + order) ≡ 0
unfolding crc_checksum_byte crc_attach_byte
crc_attach_byte-IsReady h order bytes len o r l =
    let block : List ℕ = take (len / 8) bytes in
    let register : ℕ = checksum_loop h block 0 in
    let written : List ℕ = checksum_bytes (u32 (register % 2 ^ order)) (order / 8) in
    let aligned = (order-bound order o).0 in
    let rest : List ℕ = drop (len / 8 + order / 8) bytes in
    let size : length (block ++ written) ≡ (len + order) / 8 = omega (
      arith,
      length-append block written,
      length-take (len / 8) bytes,
      length-checksum_bytes (u32 (register % 2 ^ order)) (order / 8),
    ) in
    let front : take ((len + order) / 8) (block ++ (written ++ rest)) ≡ block ++ written =
      ap (λ t. take ((len + order) / 8) t) (sym (append_assoc block written rest))
      ∙ take-append (block ++ written) rest ((len + order) / 8) size in
    let zeroes : checksum_loop h (block ++ written) 0 % 2 ^ order ≡ 0 =
      rw (checksum_loop-append h block written 0)
        (checksum_bytes-checksum_loop h order register o r) in
    simp (r.order_eq, r.mask_eq)
      (rw (bit_and_mask order register) (
        rw front (rw (bit_and_mask order (checksum_loop h (block ++ written) 0)) (rw zeroes refl))))

-- After srslte_crc_init with an order of 8, 16, 24 or 32 and any polynomial, an array behind whose
-- first len / 8 bytes srslte_crc_attach_byte wrote the checksum has the checksum 0 over len + order bits.
pub crc_attach_byte-crc_checksum_byte :
    (poly order : ℕ) (bytes : List ℕ) (len : ℕ)
    → IsOrder order
    → len / 8 ≤ length bytes
    → let h = (crc_init poly order).1 in
      crc_checksum_byte h (crc_attach_byte h bytes len).1 (len + order) ≡ 0
crc_attach_byte-crc_checksum_byte poly order bytes len o l =
    crc_attach_byte-IsReady (crc_init poly order).1 order bytes len o
      (crc_init-IsReady poly order o) l
