-- ===== src/Dci/Format0/RoundTrip.antt =====
-- Unpacking a format 0 message gives back the grant that was packed.
use vbbu.Prelude.{
  ℕ, zero, suc, ◌+◌, ◌-◌, ◌/◌, ◌⊎◌, ◌^◌, ◌≤◌, ◌<◌, ◌≡◌, refl, ap, some, List, [], ◌∷◌, ◌++◌, length,
  length-append, drop, arith, bool_byte, true, false, ltb, if◌then◌else◌, Bool-cases, inl, inr,
}
use vbbu.Bit.{◌>>=◌, pack, pack_loop}
use vbbu.Ra.Types.{UlDci, FreqHop, disabled, hop}
use vbbu.Dci.Size.{riv_nbits, format0, format_sizeof_lut}
use vbbu.Dci.Size.Facts.{riv_nbits_bounds, fields_fit}
use vbbu.Dci.Msg.{Msg, Slot, success, bits, max_bits}
use vbbu.Dci.Msg.Facts.{filled, pack-bits, store-pad, length-bits, is_set_stored}
use vbbu.Ra.Type2.{type2_to_riv}
use vbbu.Ra.Riv.{from_riv-to_riv}
use vbbu.Dci.Format0.{
  format0_pack, format0_unpack, riv_of, hop_slots, n_ul_hop, read_hop, format0_fields,
  format0_slots,
}

-- The hopping flag fits in the bits that the bandwidth gives it.
abbrev pub HopFits : FreqHop → ℕ → Type 0
HopFits disabled nof_prb = Unit
HopFits (hop fl) nof_prb = fl < (if ltb nof_prb 50 then 2 else 4)

module _ (n : ℕ) (t : List Slot) (bytes rest : List ℕ) where
  abbrev Reads : FreqHop → Type 0
  Reads fl =
      (bytes' : List ℕ) × (read_hop n (filled (hop_slots fl n ++ t) bytes ++ rest)
        ≡ some ((fl, n_ul_hop fl n), filled t bytes' ++ rest))

  Reads-one_bit : (fl : ℕ) → ltb n 50 ≡ true → fl < 2 → Reads (hop fl)
  unfolding read_hop hop_slots n_ul_hop filled
  Reads-one_bit zero e h = (drop 1 (drop 1 bytes), rw e)
  Reads-one_bit (suc zero) e h = (drop 1 (drop 1 bytes), rw e)
  Reads-one_bit (suc (suc fl)) e h = absurd (omega arith)

  Reads-two_bits : (fl : ℕ) → ltb n 50 ≡ false → fl < 4 → Reads (hop fl)
  unfolding read_hop hop_slots n_ul_hop filled
  Reads-two_bits zero e h = (drop 1 (drop 1 (drop 1 bytes)), rw e)
  Reads-two_bits (suc zero) e h = (drop 1 (drop 1 (drop 1 bytes)), rw e)
  Reads-two_bits (suc (suc zero)) e h = (drop 1 (drop 1 (drop 1 bytes)), rw e)
  Reads-two_bits (suc (suc (suc zero))) e h = (drop 1 (drop 1 (drop 1 bytes)), rw e)
  Reads-two_bits (suc (suc (suc (suc fl)))) e h = absurd (omega arith)

  read_hop-hop_slots : (fl : FreqHop) → HopFits fl n → Reads fl
  unfolding read_hop hop_slots n_ul_hop filled
  read_hop-hop_slots disabled h = (drop 1 bytes, refl)
  read_hop-hop_slots (hop fl) h = elim (Bool-cases (ltb n 50)) [
    | inl e ↦ Reads-one_bit fl e (ground arith)
    | inr e ↦ Reads-two_bits fl e (ground arith)
  ]

-- What the fields of the packed grant `d` are for a receiver that starts from `old`.
unfoldable pub received : UlDci → UlDci → ℕ → UlDci
received d old nof_prb = record old {
  freq_hop_fl = d.freq_hop_fl;
  type2_alloc = record old.type2_alloc {
    riv = type2_to_riv d.type2_alloc.l_crb d.type2_alloc.rb_start nof_prb;
    l_crb = d.type2_alloc.l_crb;
    rb_start = d.type2_alloc.rb_start;
  };
  mcs_idx = d.mcs_idx;
  ndi = d.ndi;
  tpc_pusch = 0;
  n_dmrs = 0;
  cqi_request = d.cqi_request;
}

-- The conditions under which a grant can be sent: a run inside the bandwidth whose RIV fits in
-- the bits left for it, and fields that fit.
pub record IsGrant (d : UlDci) (nof_prb : ℕ) : Type 0 where
  pub some_block : 1 ≤ d.type2_alloc.l_crb
  pub inside : d.type2_alloc.rb_start + d.type2_alloc.l_crb ≤ nof_prb
  pub riv_fits :
      type2_to_riv d.type2_alloc.l_crb d.type2_alloc.rb_start nof_prb
      < 2 ^ (riv_nbits nof_prb - n_ul_hop d.freq_hop_fl nof_prb)
  pub hop_fits : HopFits d.freq_hop_fl nof_prb
  pub mcs_fits : d.mcs_idx < 32

pack_two_zeros : (rest : List ℕ) → pack 2 (0 ∷ 0 ∷ rest) ≡ some (0, rest)
unfolding pack pack_loop
pack_two_zeros rest = refl

pack_three_zeros : (rest : List ℕ) → pack 3 (0 ∷ 0 ∷ 0 ∷ rest) ≡ some (0, rest)
unfolding pack pack_loop
pack_three_zeros rest = refl

module _ (d old : UlDci) (n : ℕ) (wide : n ≤ 110) (narrow : 3 ≤ n) (v : IsGrant d n) where
  abbrev riv : ℕ
  riv = type2_to_riv d.type2_alloc.l_crb d.type2_alloc.rb_start n

  riv_of-run : riv_of d.type2_alloc n ≡ riv
  unfolding riv_of
  riv_of-run = ground arith

  -- The reader finds the fields one after the other.
  format0_fields-slots :
      (bytes rest : List ℕ)
      → (rest' : List ℕ) × (format0_fields old n (filled (drop 1 (format0_slots d n)) bytes ++ rest)
          ≡ some (received d old n, rest'))
  unfolding format0_fields format0_slots received filled
  format0_fields-slots bytes rest =
      let (b1, e1) = read_hop-hop_slots n t1 bytes rest d.freq_hop_fl v.hop_fits in
      let (b2, e2) =
        pack-bits riv (riv_nbits n - n_ul_hop d.freq_hop_fl n) t2 b1 rest
          (omega (arith, riv_nbits_bounds n narrow wide)) v.riv_fits in
      let (b3, e3) = pack-bits d.mcs_idx 5 t3 b2 rest (omega arith) v.mcs_fits in
      (
        rest,
        rw riv_of-run (
            rw (e1, ◌>>=◌)
              (rw (e2, ◌>>=◌)
                (rw (from_riv-to_riv _ _ n n wide (omega arith) v.some_block v.inside room) (
                  rw (e3, ◌>>=◌)
                    (rw (pack_two_zeros, ◌>>=◌)
                      (rw (pack_three_zeros, ◌>>=◌)
                        (rw (is_set_stored d.ndi) (rw (is_set_stored d.cqi_request) refl)))))))),
      )
    where
      room : (d.type2_alloc.l_crb ≤ n / 2) ⊎ (n ≤ n + d.type2_alloc.rb_start + 1)
      room = inr (omega arith)

      t3 : List Slot
      t3 =
          some (bool_byte d.ndi)
          ∷ some 0
          ∷ some 0
          ∷ some 0
          ∷ some 0
          ∷ some 0
          ∷ some (bool_byte d.cqi_request)
          ∷ []

      t2 : List Slot
      t2 = bits d.mcs_idx 5 ++ t3

      t1 : List Slot
      t1 = bits riv (riv_nbits n - n_ul_hop d.freq_hop_fl n) ++ t2

length-hop_slots : (fl : FreqHop) (n : ℕ) → length (hop_slots fl n) ≡ 1 + n_ul_hop fl n
unfolding hop_slots n_ul_hop
length-hop_slots disabled n = refl
length-hop_slots (hop fl) n = ground arith

n_ul_hop-le : (fl : FreqHop) (n : ℕ) → n_ul_hop fl n ≤ 2
unfolding n_ul_hop
n_ul_hop-le disabled n = omega arith
n_ul_hop-le (hop fl) n = ground arith

length-format0_slots :
    (d : UlDci) (n : ℕ) → 3 ≤ n → n ≤ 110 → length (format0_slots d n) ≡ riv_nbits n + 14
unfolding format0_slots
length-format0_slots d n lo hi =
    let size = riv_nbits n - n_ul_hop d.freq_hop_fl n in
    rw
      (
        length-append (hop_slots d.freq_hop_fl n),
        length-append (bits (riv_of d.type2_alloc n) size),
        length-append (bits d.mcs_idx 5),
        length-bits (riv_of d.type2_alloc n) size,
        length-bits d.mcs_idx 5,
        length-hop_slots,
      )
      (omega (arith, n_ul_hop-le d.freq_hop_fl n, riv_nbits_bounds n lo hi))

-- A message of the right size that starts with 0 is unpacked by its fields.
unpack_fields :
    (msg : Msg) (old : UlDci) (n : ℕ) (bytes : List ℕ) {new : UlDci} {rest : List ℕ}
    → msg.nof_bits ≡ format_sizeof_lut format0 n
    → msg.bytes ≡ 0 ∷ bytes
    → format0_fields old n bytes ≡ some (new, rest)
    → format0_unpack msg old n ≡ some (success, new)
unfolding format0_unpack
unpack_fields msg old n bytes size starts fields = ground arith

filled-format0_slots :
    (d : UlDci) (n : ℕ) (bytes : List ℕ)
    → filled (format0_slots d n) bytes ≡ 0 ∷ filled (drop 1 (format0_slots d n)) (drop 1 bytes)
unfolding filled format0_slots
filled-format0_slots d n bytes = refl

-- For a cell of 6 to 100 resource blocks and a buffer of 128 bytes or more, packing a grant of a
-- run of blocks inside the cell, whose value and other fields fit in their bits, succeeds with a
-- message of the size of format 0, and unpacking that message gives the receiver the grant, with
-- a TPC command and a cyclic shift of 0.
pub format0_unpack-format0_pack :
    (d old : UlDci) (msg : Msg) (n : ℕ)
    → 6 ≤ n
    → n ≤ 100
    → max_bits ≤ length msg.bytes
    → IsGrant d n
    → (msg' : Msg) × (format0_pack d msg n ≡ some (success, msg'))
      × (msg'.nof_bits ≡ format_sizeof_lut format0 n)
      × (format0_unpack msg' old n ≡ some (success, received d old n))
unfolding format0_pack
format0_unpack-format0_pack d old msg n lo hi room v =
    let fit = fields_fit n (omega arith) hi in
    let size = length-format0_slots d n (omega arith) (omega arith) in
    let (rest, stored) =
      store-pad (format_sizeof_lut format0 n) (format0_slots d n) msg (omega (arith, size, fit))
        (omega (arith, fit)) in
    let (rest', fields) =
      format0_fields-slots d old n (omega arith) (omega arith) v (drop 1 msg.bytes) rest in
    let msg' : Msg = record msg {
      bytes = filled (format0_slots d n) msg.bytes ++ rest;
      nof_bits = format_sizeof_lut format0 n;
    } in
    (
      msg',
      stored,
      refl,
      unpack_fields msg' old n (filled (drop 1 (format0_slots d n)) (drop 1 msg.bytes) ++ rest) refl
          (ap (λ l. l ++ rest) (filled-format0_slots d n msg.bytes)) fields,
    )
