-- ===== src/Crc/Tests.antt =====
-- The checksums at concrete values, for srslte/lib/fec/crc.c.
use vbbu.Prelude.{ℕ, ◌+◌, ◌≡◌, refl, inl, inr, List, [], ◌∷◌, arith}
use vbbu.Crc.{
  crc_init, crc_checksum_byte, crc_attach_byte, gen_crc_table, entry_loop, checksum_bytes,
}
use vbbu.Crc.Attach.{crc_attach_byte-crc_checksum_byte}

abbrev block : List ℕ
block = 0x12 ∷ 0x34 ∷ 0x56 ∷ 0 ∷ 0 ∷ 0 ∷ 7 ∷ []

-- The table of CRC-16 starts with these entries.
gen_crc_table_run :
    gen_crc_table
      (record { table = []; polynom = 0x11021; order = 16; crcmask = 0xffff; crchighbit = 0x8000 })
      3
      0
    ≡ 0 ∷ 0x1021 ∷ 0x2042 ∷ []
unfolding gen_crc_table entry_loop
gen_crc_table_run = refl

checksum_bytes_run : checksum_bytes 0x123456 3 ≡ 0x12 ∷ 0x34 ∷ 0x56 ∷ []
unfolding checksum_bytes
checksum_bytes_run = refl

crc_attach_byte-crc_checksum_byte_example :
    crc_checksum_byte
      (crc_init 0x1864cfb 24).1
      (crc_attach_byte (crc_init 0x1864cfb 24).1 block 24).1
      (24 + 24)
    ≡ 0
crc_attach_byte-crc_checksum_byte_example =
    crc_attach_byte-crc_checksum_byte 0x1864cfb 24 block 24 (inr (inr (inl refl))) (omega arith)
