-- ===== src/Turbo/Coder.antt =====
-- The turbo coder, srslte/lib/fec/turbocoder.c. `none` is an access past the end of an array, and
-- the tables `tcod_per_fw` are an argument.
pub mod Constituent
pub mod Lut
pub mod Shifted
pub mod Tail
pub mod Merge
pub mod Columns
pub mod Agree
pub mod Block
use vbbu.Prelude.{
  ℕ, zero, suc, ◌+◌, ◌-◌, ◌*◌, ◌/◌, ◌%◌, ◌^◌, bit_and, bit_or, bit_xor, Bool, true, false, Option,
  none, some, List, [], ◌∷◌, ◌++◌, get_elem?, get_or, set, ltb, ◌==◌, if◌then◌else◌, ◌<<<◌, ◌>>>◌,
  u8, take, length, Status, success, error,
}
use vbbu.Prelude.Options.{◌>>=◌}
use vbbu.Bit.{pack}
use vbbu.Bit.Interleave.{bit_interleave}
use vbbu.Cbsegm.{cbindex, cbsize, nof_tc_cb_sizes}
use vbbu.Turbo.Interleaver.{Interl, lte_gen}

-- `SRSLTE_TX_NULL`
abbrev pub tx_null : ℕ
tx_null = 100

-- The registers `reg_0`, `reg_1` and `reg_2` of one constituent encoder.
pub record Regs : Type 0 where
  pub reg_0 : ℕ
  pub reg_1 : ℕ
  pub reg_2 : ℕ

-- One bit into a constituent encoder: `out`, and the registers after the shift.
unfoldable pub shift : ℕ → Regs → ℕ × Regs
shift bit r =
    let in_bit = bit_xor bit (bit_xor r.reg_2 r.reg_1) in
    (
      bit_xor r.reg_2 (bit_xor r.reg_0 in_bit),
      record { reg_0 = in_bit; reg_1 = r.reg_0; reg_2 = r.reg_1 },
    )

abbrev pub cleared : Regs
cleared = record { reg_0 = 0; reg_1 = 0; reg_2 = 0 }

abbrev pub without_null : ℕ → ℕ
without_null x = if x == tx_null then 0 else x

-- The loop of `srslte_tcod_encode` with `n` rounds left, from `i` on: the three bytes of each round,
-- and the registers behind the loop.
unfoldable pub encode_loop : List ℕ → List ℕ → ℕ → ℕ → Regs → Regs → Option (List ℕ × Regs × Regs)
encode_loop input per zero i reg1 reg2 = some ([], reg1, reg2)
encode_loop input per (suc n) i reg1 reg2 = do
  x ← get_elem? input i
  p ← get_elem? per i
  y ← get_elem? input p
  let one = shift (without_null x) reg1
  let two = shift (without_null y) reg2
  rest ← encode_loop input per n (i + 1) one.1 two.1
  some (x ∷ (if x == tx_null then tx_null else one.0) ∷ two.0 ∷ rest.0, rest.1, rest.2)

-- `TAILING CODER` with `n` rounds left: the two bits of each round, and the registers behind it.
unfoldable pub tail_loop : ℕ → Regs → List ℕ × Regs
tail_loop zero r = ([], r)
tail_loop (suc n) r =
    let bit = bit_xor r.reg_2 r.reg_1 in
    let next = shift bit r in let rest = tail_loop n next.1 in (bit ∷ next.0 ∷ rest.0, rest.1)

-- `NOF_REGS`
abbrev pub nof_regs : ℕ
nof_regs = 3

-- `srslte_tcod_encode` for a coder made for blocks of up to `max_long_cb` bits: the return code, and
-- what is written to `output`.
unfoldable pub encode : ℕ → List (List ℕ) → List ℕ → ℕ → Option (Status × List ℕ)
encode max_long_cb per_fw input long_cb =
    if ltb max_long_cb long_cb then some (error, []) else elim (cbindex long_cb) [
      | none ↦ some (error, [])
      | some longcb_idx ↦ do
        per ← get_elem? per_fw longcb_idx
        coded ← encode_loop input per long_cb 0 cleared cleared
        let (bytes, reg1, reg2) = coded
        some (success, bytes ++ (tail_loop nof_regs reg1).0 ++ (tail_loop nof_regs reg2).0)
    ]

-- `reg_0<<2 | reg_1<<1 | reg_2`
abbrev pub state_of : Regs → ℕ
state_of r = bit_or (bit_or (r.reg_0 <<< 2) (r.reg_1 <<< 1)) r.reg_2

abbrev pub regs_of : ℕ → Regs
regs_of state = record {
  reg_0 = bit_and state 4 >>> 2;
  reg_1 = bit_and state 2 >>> 1;
  reg_2 = bit_and state 1;
}

-- The loop of `srslte_tcod_gentable` over the bits of `data`, with `k` rounds left: the byte of
-- output bits, and the registers behind it.
unfoldable pub lut_loop : ℕ → ℕ → Regs → ℕ → ℕ × Regs
lut_loop data_byte zero r acc = (acc, r)
lut_loop data_byte (suc k) r acc =
    let bit = if bit_and data_byte (1 <<< k) == 0 then 0 else 1 in
    let next = shift bit r in lut_loop data_byte k next.1 (bit_or acc (u8 (next.0 <<< k)))

-- `tcod_lut_output[len][state][data]` and `tcod_lut_next_state[len][state][data]`, for every `len`.
unfoldable pub lut_output : ℕ → ℕ → ℕ
lut_output state data_byte = (lut_loop data_byte 8 (regs_of state) 0).0

unfoldable pub lut_next_state : ℕ → ℕ → ℕ
lut_next_state state data_byte = state_of (lut_loop data_byte 8 (regs_of state) 0).1

-- The first loop of `srslte_tcod_encode_lut`: the parity bytes, and `state0`.
unfoldable pub lut_parity : List ℕ → ℕ → List ℕ × ℕ
lut_parity [] state = ([], state)
lut_parity (b ∷ bytes) state =
    let rest = lut_parity bytes (lut_next_state state b % 8) in
    (lut_output state b ∷ rest.0, rest.1)

-- Its second loop, over the interleaved bytes. The parity bytes are not aligned: `cell` is what the
-- byte of `parity` at which the round starts holds. The bytes that the loop leaves, and `state1`.
unfoldable pub lut_parity_shifted : List ℕ → ℕ → ℕ → List ℕ × ℕ
lut_parity_shifted [] state cell = (cell ∷ [], state)
lut_parity_shifted (b ∷ bytes) state cell =
    let out = lut_output state b in
    let rest = lut_parity_shifted bytes (lut_next_state state b % 8) (u8 (bit_and out 0xf <<< 4)) in
    (bit_or cell (bit_and out 0xf0 >>> 4) ∷ rest.0, rest.1)

-- `srslte_bit_pack` of four of the tail bits, every third from `j` on.
unfoldable pub tail_nibble : List ℕ → ℕ → Option ℕ
tail_nibble tail j = do
  a ← get_elem? tail j
  b ← get_elem? tail (3 + j)
  c ← get_elem? tail (6 + j)
  d ← get_elem? tail (9 + j)
  packed ← pack 4 (a ∷ b ∷ c ∷ d ∷ [])
  some packed.0

abbrev or_at : List ℕ → ℕ → ℕ → List ℕ
or_at xs i v = set xs i (bit_or (get_or xs i 0) v)

-- What `srslte_tcod_encode_lut` writes: the byte behind the input, and `parity`.
unfoldable pub lut_tails : List ℕ → List ℕ → ℕ → ℕ → ℕ → Option (ℕ × List ℕ)
lut_tails first second state0 state1 n = do
  let tail = (tail_loop nof_regs (regs_of state0)).0 ++ (tail_loop nof_regs (regs_of state1)).0
  x0 ← tail_nibble tail 0
  x1 ← tail_nibble tail 1
  x2 ← tail_nibble tail 2
  let parity = or_at (first ++ second) n (u8 (x1 <<< 4))
  some (u8 (x0 <<< 4), or_at parity (2 * n) (bit_and x2 0xf))

-- The first `n` bytes of an array.
abbrev pub prefix : ℕ → List ℕ → Option (List ℕ)
prefix n xs = if ltb (length xs) n then none else some (take n xs)

-- `srslte_tcod_encode_lut` from the test of `long_cb % 8` on: the return value, the byte written
-- behind the input, and `parity`. The scratch buffer `temp` is interleaved into.
unfoldable pub encode_lut_size : List ℕ → List ℕ → List ℕ → ℕ → Option (ℕ × ℕ × List ℕ)
encode_lut_size temp per input long_cb = do
  bytes ← prefix (long_cb / 8) input
  let one = lut_parity bytes 0
  interleaved ← bit_interleave input temp per long_cb
  bytes' ← prefix (long_cb / 8) interleaved
  let two = lut_parity_shifted bytes' 0 0
  written ← lut_tails one.0 two.0 one.1 two.1 (long_cb / 8)
  some (3 * long_cb + 12, written.0, written.1)

-- `srslte_tcod_encode_lut`, with `error` for its -1.
unfoldable pub encode_lut : List ℕ → List (List ℕ) → List ℕ → ℕ → Option (Status × ℕ × ℕ × List ℕ)
encode_lut temp per_fw input cblen_idx = elim (ltb cblen_idx 188) [
  | false ↦ some (error, 0, 0, [])
  | true ↦ do
    long_cb ← cbsize cblen_idx
    per ← get_elem? per_fw cblen_idx
    elim (long_cb % 8 == 0) [
      | false ↦ some (error, 0, 0, [])
      | true ↦ encode_lut_size temp per input long_cb >>= λ coded.
          some (success, coded.0, coded.1, coded.2)
    ]
]
