-- ===== src/Turbo/Interleaver.antt =====
-- The LTE turbo code interleaver, srslte/lib/fec/tc_interl_lte.c, and the part of
-- srslte/lib/fec/tc_interl_umts.c that allocates and frees the tables. The tables are arrays of
-- uint16_t, and a position is computed in uint64_t.
pub mod Divisors
pub mod Table
pub mod Permutes
use vbbu.Prelude.{
  ℕ, zero, suc, ◌+◌, ◌-◌, ◌*◌, ◌%◌, ◌^◌, Bool, true, false, Option, none, some, List, [], ◌∷◌,
  get_or, set, replicate, ltb, if◌then◌else◌, u32, Status, success, error,
}
use vbbu.Cbsegm.{cbindex}

-- `srslte_tc_interl_t`
pub record Interl : Type 0 where
  pub forward : List ℕ
  pub reverse : List ℕ
  pub max_long_cb : ℕ

unfoldable pub f1_list : List ℕ
f1_list =
    3 ∷ 7 ∷ 19 ∷ 7 ∷ 7 ∷ 11 ∷ 5 ∷ 11 ∷ 7 ∷ 41 ∷ 103 ∷ 15 ∷ 9 ∷ 17 ∷ 9 ∷ 21 ∷ 101 ∷ 21 ∷ 57 ∷ 23 ∷ 13
    ∷ 27 ∷ 11 ∷ 27 ∷ 85 ∷ 29 ∷ 33 ∷ 15 ∷ 17 ∷ 33 ∷ 103 ∷ 19 ∷ 19 ∷ 37 ∷ 19 ∷ 21 ∷ 21 ∷ 115 ∷ 193
    ∷ 21 ∷ 133 ∷ 81 ∷ 45 ∷ 23 ∷ 243 ∷ 151 ∷ 155 ∷ 25 ∷ 51 ∷ 47 ∷ 91 ∷ 29 ∷ 29 ∷ 247 ∷ 29 ∷ 89 ∷ 91
    ∷ 157 ∷ 55 ∷ 31 ∷ 17 ∷ 35 ∷ 227 ∷ 65 ∷ 19 ∷ 37 ∷ 41 ∷ 39 ∷ 185 ∷ 43 ∷ 21 ∷ 155 ∷ 79 ∷ 139 ∷ 23
    ∷ 217 ∷ 25 ∷ 17 ∷ 127 ∷ 25 ∷ 239 ∷ 17 ∷ 137 ∷ 215 ∷ 29 ∷ 15 ∷ 147 ∷ 29 ∷ 59 ∷ 65 ∷ 55 ∷ 31 ∷ 17
    ∷ 171 ∷ 67 ∷ 35 ∷ 19 ∷ 39 ∷ 19 ∷ 199 ∷ 21 ∷ 211 ∷ 21 ∷ 43 ∷ 149 ∷ 45 ∷ 49 ∷ 71 ∷ 13 ∷ 17 ∷ 25
    ∷ 183 ∷ 55 ∷ 127 ∷ 27 ∷ 29 ∷ 29 ∷ 57 ∷ 45 ∷ 31 ∷ 59 ∷ 185 ∷ 113 ∷ 31 ∷ 17 ∷ 171 ∷ 209 ∷ 253
    ∷ 367 ∷ 265 ∷ 181 ∷ 39 ∷ 27 ∷ 127 ∷ 143 ∷ 43 ∷ 29 ∷ 45 ∷ 157 ∷ 47 ∷ 13 ∷ 111 ∷ 443 ∷ 51 ∷ 51
    ∷ 451 ∷ 257 ∷ 57 ∷ 313 ∷ 271 ∷ 179 ∷ 331 ∷ 363 ∷ 375 ∷ 127 ∷ 31 ∷ 33 ∷ 43 ∷ 33 ∷ 477 ∷ 35 ∷ 233
    ∷ 357 ∷ 337 ∷ 37 ∷ 71 ∷ 71 ∷ 37 ∷ 39 ∷ 127 ∷ 39 ∷ 39 ∷ 31 ∷ 113 ∷ 41 ∷ 251 ∷ 43 ∷ 21 ∷ 43 ∷ 45
    ∷ 45 ∷ 161 ∷ 89 ∷ 323 ∷ 47 ∷ 23 ∷ 47 ∷ 263 ∷ []

unfoldable pub f2_list : List ℕ
f2_list =
    10 ∷ 12 ∷ 42 ∷ 16 ∷ 18 ∷ 20 ∷ 22 ∷ 24 ∷ 26 ∷ 84 ∷ 90 ∷ 32 ∷ 34 ∷ 108 ∷ 38 ∷ 120 ∷ 84 ∷ 44 ∷ 46
    ∷ 48 ∷ 50 ∷ 52 ∷ 36 ∷ 56 ∷ 58 ∷ 60 ∷ 62 ∷ 32 ∷ 198 ∷ 68 ∷ 210 ∷ 36 ∷ 74 ∷ 76 ∷ 78 ∷ 120 ∷ 82
    ∷ 84 ∷ 86 ∷ 44 ∷ 90 ∷ 46 ∷ 94 ∷ 48 ∷ 98 ∷ 40 ∷ 102 ∷ 52 ∷ 106 ∷ 72 ∷ 110 ∷ 168 ∷ 114 ∷ 58 ∷ 118
    ∷ 180 ∷ 122 ∷ 62 ∷ 84 ∷ 64 ∷ 66 ∷ 68 ∷ 420 ∷ 96 ∷ 74 ∷ 76 ∷ 234 ∷ 80 ∷ 82 ∷ 252 ∷ 86 ∷ 44 ∷ 120
    ∷ 92 ∷ 94 ∷ 48 ∷ 98 ∷ 80 ∷ 102 ∷ 52 ∷ 106 ∷ 48 ∷ 110 ∷ 112 ∷ 114 ∷ 58 ∷ 118 ∷ 60 ∷ 122 ∷ 124
    ∷ 84 ∷ 64 ∷ 66 ∷ 204 ∷ 140 ∷ 72 ∷ 74 ∷ 76 ∷ 78 ∷ 240 ∷ 82 ∷ 252 ∷ 86 ∷ 88 ∷ 60 ∷ 92 ∷ 846 ∷ 48
    ∷ 28 ∷ 80 ∷ 102 ∷ 104 ∷ 954 ∷ 96 ∷ 110 ∷ 112 ∷ 114 ∷ 116 ∷ 354 ∷ 120 ∷ 610 ∷ 124 ∷ 420 ∷ 64 ∷ 66
    ∷ 136 ∷ 420 ∷ 216 ∷ 444 ∷ 456 ∷ 468 ∷ 80 ∷ 164 ∷ 504 ∷ 172 ∷ 88 ∷ 300 ∷ 92 ∷ 188 ∷ 96 ∷ 28 ∷ 240
    ∷ 204 ∷ 104 ∷ 212 ∷ 192 ∷ 220 ∷ 336 ∷ 228 ∷ 232 ∷ 236 ∷ 120 ∷ 244 ∷ 248 ∷ 168 ∷ 64 ∷ 130 ∷ 264
    ∷ 134 ∷ 408 ∷ 138 ∷ 280 ∷ 142 ∷ 480 ∷ 146 ∷ 444 ∷ 120 ∷ 152 ∷ 462 ∷ 234 ∷ 158 ∷ 80 ∷ 96 ∷ 902
    ∷ 166 ∷ 336 ∷ 170 ∷ 86 ∷ 174 ∷ 176 ∷ 178 ∷ 120 ∷ 182 ∷ 184 ∷ 186 ∷ 94 ∷ 190 ∷ 480 ∷ []

-- `srslte_tc_interl_init` where both allocations succeed; what they hold is not known, and `junk`
-- stands for it.
unfoldable pub init : ℕ → ℕ → Interl
init junk max_long_cb = record {
  forward = replicate max_long_cb junk;
  reverse = replicate max_long_cb junk;
  max_long_cb = max_long_cb;
}

-- `j`
unfoldable pub position : ℕ → ℕ → ℕ → ℕ → ℕ
position f1 f2 long_cb i = (f1 * i + f2 * i * i) % 2 ^ 64 % long_cb

-- The two stores of one round.
unfoldable pub store : Interl → ℕ → ℕ → Interl
store h i j = record h {
  forward = set h.forward i (j % 2 ^ 16);
  reverse = set h.reverse j (i % 2 ^ 16);
}

-- The loop of `srslte_tc_interl_LTE_gen` with `n` rounds left, from `i` on.
unfoldable pub gen_loop : ℕ → ℕ → ℕ → ℕ → ℕ → Interl → Interl
gen_loop f1 f2 long_cb zero i h = h
gen_loop f1 f2 long_cb (suc n) i h =
    gen_loop f1 f2 long_cb n (i + 1) (store h i (position f1 f2 long_cb i))

-- `srslte_tc_interl_LTE_gen`
unfoldable pub lte_gen : Interl → ℕ → Status × Interl
lte_gen h long_cb = if ltb h.max_long_cb long_cb then (error, h) else elim (cbindex long_cb) [
  | none ↦ (error, h)
  | some cb_table_idx ↦ (
    success,
    gen_loop (get_or f1_list cb_table_idx 0) (get_or f2_list cb_table_idx 0) long_cb (long_cb - 1) 1
        (store h 0 0),
  )
]
