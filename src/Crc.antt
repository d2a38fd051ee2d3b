-- ===== src/Crc.antt =====
-- Cyclic redundancy checks, srslte/lib/fec/crc.c. The register is a uint64_t whose bits above the
-- order of the polynomial are not cleared between the bytes. The polynomial is a
-- uint32_t; a negative int would only change bits that the mask clears. An array has the bytes read.
pub mod Attach
pub mod Prefix
mod Tests
use vbbu.Prelude.{
  ℕ, zero, suc, ◌+◌, ◌-◌, ◌*◌, ◌/◌, ◌%◌, ◌^◌, bit_and, bit_or, bit_xor, Bool, true, false, Option,
  none, some, List, [], ◌∷◌, ◌++◌, get_or, take, drop, length, ltb, ◌==◌, if◌then◌else◌, ◌<<<◌,
  ◌>>>◌, u8, u32, Status, success, error,
}
use vbbu.Prelude.Options.{◌>>=◌}
use vbbu.Bit.{pack, unpack}

-- A uint64_t.
abbrev pub u64 : ℕ → ℕ
u64 x = x % 2 ^ 64

-- `srslte_crc_t`, without the register, which each function sets before it uses it.
pub record Crc : Type 0 where
  pub table : List ℕ
  pub polynom : ℕ
  pub order : ℕ
  pub crcmask : ℕ
  pub crchighbit : ℕ

-- The inner loop of `gen_crc_table`, with `n` rounds left.
unfoldable pub entry_loop : ℕ → ℕ → ℕ → ℕ → ℕ
entry_loop polynom crchighbit zero crc = crc
entry_loop polynom crchighbit (suc n) crc =
    entry_loop polynom crchighbit n
      (if bit_and crc crchighbit == 0 then u64 (crc <<< 1) else bit_xor (u64 (crc <<< 1)) polynom)

-- `gen_crc_table`, the entries from `i` on.
unfoldable pub gen_crc_table : Crc → ℕ → ℕ → List ℕ
gen_crc_table h zero i = []
gen_crc_table h (suc n) i =
    bit_and (entry_loop h.polynom h.crchighbit 8 (u64 (i <<< (h.order - 8)))) h.crcmask
    ∷ gen_crc_table h n (i + 1)

-- `srslte_crc_init`; the table is left as it is when the order is not a multiple of 8.
unfoldable pub crc_init : ℕ → ℕ → Status × Crc
crc_init crc_poly crc_order =
    let h : Crc = record {
      table = [];
      polynom = crc_poly;
      order = crc_order;
      crcmask = bit_or ((1 <<< (crc_order - 1) - 1) <<< 1) 1;
      crchighbit = 1 <<< (crc_order - 1);
    } in
    if crc_order % 8 == 0 then (success, record h { table = gen_crc_table h 256 0 }) else (error, h)

-- `crctable`: the register behind one byte. The index is below 256.
unfoldable pub crctable : Crc → ℕ → ℕ → ℕ
crctable h crc byte =
    bit_xor (u64 (crc <<< 8))
      (get_or h.table (bit_xor (bit_and (crc >>> (h.order - 8)) 0xff) byte) 0)

-- The register behind a list of bytes.
unfoldable pub checksum_loop : Crc → List ℕ → ℕ → ℕ
checksum_loop h [] crc = crc
checksum_loop h (b ∷ bytes) crc = checksum_loop h bytes (crctable h crc b)

-- `srslte_crc_checksum_byte`
unfoldable pub crc_checksum_byte : Crc → List ℕ → ℕ → ℕ
crc_checksum_byte h bytes len = u32 (bit_and (checksum_loop h (take (len / 8) bytes) 0) h.crcmask)

-- The loop of `srslte_crc_attach_byte` with `n` rounds left: the bytes written, the last one, which
-- the first round writes, at the end.
unfoldable pub checksum_bytes : ℕ → ℕ → List ℕ
checksum_bytes checksum zero = []
checksum_bytes checksum (suc n) =
    u8 (bit_and checksum (u32 (0xff <<< (8 * n))) >>> (8 * n)) ∷ checksum_bytes checksum n

-- `srslte_crc_attach_byte`: the checksum, and the array with the checksum behind `len` bits.
unfoldable pub crc_attach_byte : Crc → List ℕ → ℕ → ℕ × List ℕ
crc_attach_byte h bytes len =
    let checksum = crc_checksum_byte h bytes len in
    (
      checksum,
      take (len / 8) bytes
          ++ (checksum_bytes checksum (h.order / 8) ++ drop (len / 8 + h.order / 8) bytes),
    )

-- `reversecrcbit`
unfoldable pub reverse_loop : Crc → ℕ → ℕ → ℕ
reverse_loop h zero crc = crc
reverse_loop h (suc n) crc =
    reverse_loop h n (if bit_and 1 crc == 1 then bit_xor crc h.polynom >>> 1 else crc >>> 1)

unfoldable pub reversecrcbit : Crc → ℕ → ℕ → ℕ
reversecrcbit h nbits crc = bit_and (reverse_loop h nbits crc) h.crcmask

-- The last bits of an array as the upper bits of a byte, with `n` bits left from bit `k` on.
unfoldable pub last_byte : ℕ → ℕ → List ℕ → ℕ → Option ℕ
last_byte zero k bits byte = some byte
last_byte (suc n) k [] byte = none
last_byte (suc n) k (b ∷ bits) byte = last_byte n (k + 1) bits (u8 (bit_or byte (b <<< (7 - k))))

-- The register behind `n` whole bytes of an array of bits, and the bits behind them.
unfoldable pub packed_loop : Crc → ℕ → List ℕ → ℕ → Option (ℕ × List ℕ)
packed_loop h zero bits crc = some (crc, bits)
packed_loop h (suc n) bits crc =
    pack 8 bits >>= λ b. packed_loop h n b.1 (crctable h crc (bit_and b.0 0xff))

-- `srslte_crc_checksum`
unfoldable pub crc_checksum : Crc → List ℕ → ℕ → Option ℕ
crc_checksum h bits len = packed_loop h (len / 8) bits 0 >>= λ whole. elim (len % 8 == 0) [
  | true ↦ some (u32 (bit_and whole.0 h.crcmask))
  | false ↦ last_byte (len % 8) 0 whole.1 0 >>= λ byte.
      some (u32 (reversecrcbit h (8 - len % 8) (u32 (bit_and (crctable h whole.0 byte) h.crcmask))))
]

-- `srslte_crc_attach`: the checksum, and the bits written behind the array.
unfoldable pub crc_attach : Crc → List ℕ → ℕ → Option (ℕ × List ℕ)
crc_attach h bits len =
    crc_checksum h bits len >>= λ checksum. some (checksum, unpack checksum h.order)
