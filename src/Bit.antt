-- ===== src/Bit.antt =====
-- srslte/lib/utils/bit.c: packing and unpacking of bits held one to a byte, Hamming distance and
-- population count. A pointer that moves over a buffer is a reader: it takes the bytes from the
-- pointer on, and returns those behind it. `none` is a read past the end of the buffer.
pub mod RoundTrip
pub mod Count
pub mod Interleave
pub mod Octets
mod Tests
use vbbu.Prelude.{
  ℕ, zero, suc, ◌+◌, ◌-◌, ◌*◌, ◌/◌, ◌%◌, ◌^◌, bit_and, bit_or, Option, none, some, List, [], ◌∷◌,
  ◌++◌, ◌==◌, if◌then◌else◌, ◌<<<◌, ◌>>>◌, u8,
}

-- A computation that reads at the pointer and moves it.
abbrev pub Reader : Type 0 → Type 0
Reader A = List ℕ → Option (A × List ℕ)

abbrev pub pure : {A : Type 0} → A → Reader A
pure a bytes = some (a, bytes)

infixl 5 ◌>>=◌ ◌>>◌
abbrev pub ◌>>=◌ : {A B : Type 0} → Reader A → (A → Reader B) → Reader B
◌>>=◌ m f bytes = elim (m bytes) [ none ↦ none | some (a, rest) ↦ f a rest ]

abbrev pub ◌>>◌ : {A B : Type 0} → Reader A → Reader B → Reader B
m >> k = m >>= λ _. k

-- `*y++`
abbrev pub next : Reader ℕ
next [] = none
next (b ∷ bytes) = some (b, bytes)

-- The loop of `srslte_bit_pack` with `k` rounds left, over words of `w` bits.
unfoldable pub pack_loop : ℕ → ℕ → ℕ → Reader ℕ
pack_loop w zero value bytes = some (value, bytes)
pack_loop w (suc k) value [] = none
pack_loop w (suc k) value (b ∷ bytes) = pack_loop w k (bit_or value ((b <<< k) % 2 ^ w)) bytes

-- `srslte_bit_pack`
unfoldable pub pack : ℕ → Reader ℕ
pack nof_bits = pack_loop 32 nof_bits 0

-- `srslte_bit_pack_l`
unfoldable pub pack_l : ℕ → Reader ℕ
pack_l nof_bits = pack_loop 64 nof_bits 0

-- `srslte_bit_unpack` and `srslte_bit_unpack_l`: the bytes that are written, first to last.
unfoldable pub unpack : ℕ → ℕ → List ℕ
unpack value zero = []
unpack value (suc k) = bit_and (value >>> k) 1 ∷ unpack value k

-- The byte loop of `srslte_bit_unpack_vector` over `n` bytes, and the bytes that it leaves.
unfoldable pub unpack_bytes : ℕ → Reader (List ℕ)
unpack_bytes zero = pure []
unpack_bytes (suc n) = do b ← next; bits ← unpack_bytes n; pure (unpack b 8 ++ bits)

-- `srslte_bit_unpack_vector`: the bytes written to `unpacked`.
unfoldable pub unpack_vector : ℕ → Reader (List ℕ)
unpack_vector nof_bits = do
  bits ← unpack_bytes (nof_bits / 8)
  if nof_bits % 8 == 0
      then pure bits
      else do b ← next; pure (bits ++ unpack (b >>> (8 - nof_bits % 8)) (nof_bits % 8))

-- The byte loop of `srslte_bit_pack_vector` over `n` bytes; a store into `packed` keeps 8 bits.
unfoldable pub pack_bytes : ℕ → Reader (List ℕ)
pack_bytes zero = pure []
pack_bytes (suc n) = do b ← pack 8; bytes ← pack_bytes n; pure (u8 b ∷ bytes)

-- `srslte_bit_pack_vector`: the bytes written to `packed`.
unfoldable pub pack_vector : ℕ → Reader (List ℕ)
pack_vector nof_bits = do
  bytes ← pack_bytes (nof_bits / 8)
  if nof_bits % 8 == 0
      then pure bytes
      else do b ← pack (nof_bits % 8); pure (bytes ++ u8 (u8 b <<< (8 - nof_bits % 8)) ∷ [])

-- `srslte_bit_diff`: the number of positions at which two arrays differ.
unfoldable pub diff : ℕ → List ℕ → List ℕ → ℕ → Option ℕ
diff zero x y errors = some errors
diff (suc n) [] y errors = none
diff (suc n) (a ∷ x) [] errors = none
diff (suc n) (a ∷ x) (b ∷ y) errors = diff n x y (if a == b then errors else errors + 1)

-- The loop of `srslte_bit_count`, with fuel; `none` means that the fuel ran out.
unfoldable pub count_loop : ℕ → ℕ → ℕ → Option ℕ
count_loop zero c n = none
count_loop (suc fuel) c n =
    let rest = count_loop fuel (c + 1) (bit_and n (n - 1)) in if n == 0 then some c else rest

-- `srslte_bit_count` of a uint32_t: 32 rounds and the last test.
unfoldable pub count : ℕ → Option ℕ
count n = count_loop 33 0 n
