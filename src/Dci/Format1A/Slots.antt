-- ===== src/Dci/Format1A/Slots.antt =====
-- The slots of a format 1A message for a localized run, and reading them.
use vbbu.Prelude.{
  ℕ, ◌+◌, ◌-◌, ◌^◌, ◌≤◌, ◌<◌, ◌≡◌, refl, ap, some, List, [], ◌∷◌, ◌++◌, length, length-append, drop,
  get_or, arith, true, false, Bool, is_set, u8, leb, ◌==◌, ◌&&◌, inr,
}
use vbbu.Bit.{◌>>=◌}
use vbbu.Ra.Types.{DlDci, type2, Type2, ng1, loc, dist}
use vbbu.Ra.Type2.{type2_to_riv}
use vbbu.Ra.Riv.{from_riv-to_riv}
use vbbu.Dci.Size.{riv_nbits}
use vbbu.Dci.Size.Facts.{riv_nbits_bounds}
use vbbu.Dci.Msg.{Slot, bits}
use vbbu.Dci.Msg.Facts.{filled, pack-bits, length-bits}
use vbbu.Dci.Format0.{riv_of}
use vbbu.Dci.Format1.{rv_word}
use vbbu.Dci.Format1C.{old_type2}
use vbbu.Dci.Format1A.{
  length_allowed, has_gap, gap_slots, ndi_slot, tpc_slots, format1a_body, read_type2, read_ndi,
  read_tpc, format1a_fields,
}

-- The conditions under which a localized run can be sent: it lies inside the bandwidth, and its
-- RIV fits and is not all ones, which would be a random access order.
pub record IsGrant (d : DlDci) (a : Type2) (nof_prb : ℕ) : Type 0 where
  pub local : a.mode ≡ loc
  pub some_block : 1 ≤ a.l_crb
  pub inside : a.rb_start + a.l_crb ≤ nof_prb
  pub riv_fits : type2_to_riv a.l_crb a.rb_start nof_prb + 1 < 2 ^ riv_nbits nof_prb
  pub nprb1a_fits : a.n_prb1a < 2
  pub mcs_fits : d.mcs_idx < 32
  pub harq_fits : d.harq_process < 8
  pub rv_fits : rv_word d.rv_idx < 4

-- The `n_prb1a` of the receiver: it is sent to other RNTIs than a C-RNTI only.
unfoldable pub nprb1a_of : Type2 → Type2 → Bool → ℕ
nprb1a_of a old true = old.n_prb1a
nprb1a_of a old false = a.n_prb1a

-- What a receiver that starts from `old` has after the message, with its new data indicator.
unfoldable pub received : DlDci → Type2 → DlDci → ℕ → Bool → Bool → DlDci
received d a old nof_prb crc_is_crnti ndi = record old {
  alloc = type2 (record (old_type2 old.alloc) {
    riv = type2_to_riv a.l_crb a.rb_start nof_prb;
    l_crb = a.l_crb;
    rb_start = a.rb_start;
    n_prb1a = nprb1a_of a (old_type2 old.alloc) crc_is_crnti;
    n_gap = ng1;
    mode = loc;
  });
  mcs_idx = d.mcs_idx;
  harq_process = d.harq_process;
  ndi = ndi;
  rv_idx = some (rv_word d.rv_idx);
  nof_tb = 1;
  dci_is_1a = true;
}

and-false : (b : Bool) → (b && false) ≡ false
and-false true = refl
and-false false = refl

no_gap : (mode n : ℕ) (c : Bool) → mode ≡ loc → has_gap mode n c ≡ false
unfolding has_gap
no_gap mode n c e = rw e (ground arith)

sub_zero : (k : ℕ) → k - 0 ≡ k
sub_zero k = omega arith

not_dist : (a : Type2) (n : ℕ) → a.mode ≡ loc → (leb 50 n && a.mode == dist) ≡ false
not_dist a n e = ground arith

module _ (d : DlDci) (a : Type2) (old : DlDci) (n : ℕ) (c : Bool) (v : IsGrant d a n) where
  abbrev riv : ℕ
  riv = type2_to_riv a.l_crb a.rb_start n

  -- The slots behind the HARQ process, and the body, for a localized run.
  abbrev end : List Slot
  end = ndi_slot d a n c ∷ (bits (rv_word d.rv_idx) 2 ++ tpc_slots a c)

  abbrev tail : List Slot
  tail = bits d.mcs_idx 5 ++ (bits d.harq_process 3 ++ end)

  riv_of-run : riv_of a n ≡ riv
  unfolding riv_of
  riv_of-run = let p = v.some_block in ground arith

  body_local : format1a_body d a n c ≡ bits riv (riv_nbits n) ++ tail
  unfolding format1a_body gap_slots
  body_local = rw (no_gap a.mode n c v.local) (rw riv_of-run (rw (sub_zero (riv_nbits n)) refl))

  read_type2-slots :
      (t : List Slot) (bytes rest : List ℕ)
      → 3 ≤ n
      → n ≤ 110
      → (bytes' : List ℕ) × (read_type2
            (old_type2 old.alloc)
            n
            c
            (u8 a.mode ∷ (filled (bits riv (riv_nbits n) ++ t) bytes ++ rest))
          ≡ some (
            record (old_type2 old.alloc) {
              riv = riv;
              l_crb = a.l_crb;
              rb_start = a.rb_start;
              n_gap = ng1;
              mode = loc;
            },
            filled t bytes' ++ rest,
          ))
  unfolding read_type2
  read_type2-slots t bytes rest lo hi =
      let stored : u8 a.mode ≡ loc = let p = v.local in omega arith in
      let (b1, e1) =
        pack-bits riv (riv_nbits n) t bytes rest (omega (arith, riv_nbits_bounds n lo hi))
          (let p = v.riv_fits in omega arith) in
      (
        b1,
        rw stored (
            rw (no_gap loc n c refl) (
              rw (sub_zero (riv_nbits n), ◌>>=◌)
                (rw (e1, ◌>>=◌)
                  (rw
                    (from_riv-to_riv _ _ n n hi (omega arith) v.some_block v.inside
                      (inr (omega arith)))
                    refl)))),
      )

-- The indicator: for a C-RNTI it is what the buffer held, else it stays.
read_ndi-slot :
    (d : DlDci) (a a' : Type2) (ndi : Bool) (n : ℕ) (c : Bool) (t : List Slot) (bytes rest : List ℕ)
    → a.mode ≡ loc
    → a'.mode ≡ loc
    → (ndi' : Bool) × (c ≡ false → ndi' ≡ ndi)
      × (read_ndi ndi a' n c (filled (ndi_slot d a n c ∷ t) bytes ++ rest)
          ≡ some ((ndi', a'), filled t (drop 1 bytes) ++ rest))
unfolding read_ndi ndi_slot filled
read_ndi-slot d a a' ndi n true t bytes rest e e' =
    (is_set (get_or bytes 0 0), (λ p. cc), rw ((not_dist a n e), filled) refl)
read_ndi-slot d a a' ndi n false t bytes rest e e' = (ndi, (λ p. refl), rw (not_dist a' n e') refl)

read_tpc-slots :
    (a old : Type2) (c : Bool) (bytes rest : List ℕ)
    → a.n_prb1a < 2
    → (rest' : List ℕ) × (read_tpc old c (filled (tpc_slots a c) bytes ++ rest)
        ≡ some (record old { n_prb1a = nprb1a_of a old c }, rest'))
unfolding read_tpc tpc_slots filled nprb1a_of
read_tpc-slots a old true bytes rest h = (rest, refl)
read_tpc-slots a old false bytes rest h =
    let e : u8 a.n_prb1a ≡ a.n_prb1a = omega arith in
    (rest, ap (λ (x : ℕ). some (record old { n_prb1a = x }, rest)) e)

length-tpc_slots : (a : Type2) (c : Bool) → length (tpc_slots a c) ≡ 2
unfolding tpc_slots
length-tpc_slots a true = refl
length-tpc_slots a false = refl

module _ (d : DlDci) (a : Type2) (old : DlDci) (n : ℕ) (c : Bool) (v : IsGrant d a n) where
  abbrev after_ndi : List Slot
  after_ndi = bits (rv_word d.rv_idx) 2 ++ tpc_slots a c

  abbrev pub tail' : List Slot
  tail' = bits d.mcs_idx 5 ++ (bits d.harq_process 3 ++ (ndi_slot d a n c ∷ after_ndi))

  abbrev pub riv' : ℕ
  riv' = type2_to_riv a.l_crb a.rb_start n

  abbrev found : Type2
  found = record (old_type2 old.alloc) {
    riv = riv';
    l_crb = a.l_crb;
    rb_start = a.rb_start;
    n_gap = ng1;
    mode = loc;
  }

  pub format1a_fields-slots :
      (bytes rest : List ℕ)
      → 3 ≤ n
      → n ≤ 110
      → (ndi : Bool) × (rest' : List ℕ) × (c ≡ false → ndi ≡ old.ndi)
        × (format1a_fields old n c
              (u8 a.mode ∷ (filled (bits riv' (riv_nbits n) ++ tail') bytes ++ rest))
            ≡ some (received d a old n c ndi, rest'))
  unfolding format1a_fields received old_type2 nprb1a_of
  format1a_fields-slots bytes rest lo hi =
      let (b1, e1) = read_type2-slots d a old n c v tail' bytes rest lo hi in
      let (b2, e2) =
        pack-bits d.mcs_idx 5 (bits d.harq_process 3 ++ (ndi_slot d a n c ∷ after_ndi)) b1 rest
          (omega arith) v.mcs_fits in
      let (b3, e3) =
        pack-bits d.harq_process 3 (ndi_slot d a n c ∷ after_ndi) b2 rest (omega arith)
          v.harq_fits in
      let (ndi, keep, e4) = read_ndi-slot d a found old.ndi n c after_ndi b3 rest v.local refl in
      let (b5, e5) =
        pack-bits (rv_word d.rv_idx) 2 (tpc_slots a c) (drop 1 b3) rest (omega arith) v.rv_fits in
      let (rest', e6) = read_tpc-slots a found c b5 rest v.nprb1a_fits in
      (
        ndi,
        rest',
        keep,
        rw (e1, ◌>>=◌)
            (rw (e2, ◌>>=◌)
              (rw (e3, ◌>>=◌) (rw (e4, ◌>>=◌) (rw (e5, ◌>>=◌) (rw (e6, ◌>>=◌) refl))))),
      )

  abbrev pub slots : List Slot
  slots = (some 1 ∷ some a.mode ∷ []) ++ format1a_body d a n c

  pub filled-slots :
      (bytes : List ℕ)
      → filled slots bytes
        ≡ 1 ∷ u8 a.mode ∷ filled (bits riv' (riv_nbits n) ++ tail') (drop 1 (drop 1 bytes))
  unfolding filled
  filled-slots bytes = rw (body_local d a old n c v) refl

  pub length-slots : length slots ≡ riv_nbits n + 15
  length-slots = rw (body_local d a old n c v) (
      omega (
        arith,
        length-append (bits riv' (riv_nbits n)) tail',
        length-append (bits d.mcs_idx 5) (bits d.harq_process 3 ++ (ndi_slot d a n c ∷ after_ndi)),
        length-append (bits d.harq_process 3) (ndi_slot d a n c ∷ after_ndi),
        length-append (bits (rv_word d.rv_idx) 2) (tpc_slots a c),
        length-bits riv' (riv_nbits n),
        length-bits d.mcs_idx 5,
        length-bits d.harq_process 3,
        length-bits (rv_word d.rv_idx) 2,
        length-tpc_slots a c,
      ))

  pub allowed : length_allowed a n c ≡ true
  unfolding length_allowed
  allowed = let p = v.local in let q = v.inside in ground arith
