-- ===== src/Dci/Format1/RoundTrip.antt =====
-- Unpacking a format 1 message gives back the grant that was packed.
use vbbu.Prelude.{
  ℕ, ◌+◌, ◌^◌, ◌≤◌, ◌<◌, ◌≡◌, refl, ap, some, List, [], ◌∷◌, ◌++◌, length, length-append, drop,
  arith, false, bool_byte, u8, ltb, if◌then◌else◌, Bool-cases, inl, inr, ==_iff,
}
use vbbu.Bit.{◌>>=◌}
use vbbu.Ra.Types.{DlDci, Alloc, type0, type1, type2, other}
use vbbu.Ra.Type2.{type0_p, log2_p}
use vbbu.Dci.Size.{format1, format_sizeof_lut}
use vbbu.Dci.Msg.{Msg, Slot, success, bits, max_bits}
use vbbu.Dci.Msg.Facts.{filled, pack-bits, store-pad, length-bits, is_set_stored}
use vbbu.Dci.Format1.Facts.{alloc_bounds, format1_fits}
use vbbu.Dci.Format1.{
  alloc_type, alloc_size, vrb_size, rv_word, format1_tail, format1_body, format1_head, format1_pack,
  read_alloc, format1_fields, read_type, format1_unpack,
}

-- The allocation fits in the bits that the bandwidth gives it.
abbrev pub AllocFits : Alloc → ℕ → Type 0
AllocFits (type0 mask) n = mask < 2 ^ alloc_size n
AllocFits (type1 mask subset shift) n =
    (10 < n) × (subset < 2 ^ log2_p (type0_p n)) × (mask < 2 ^ vrb_size n)
AllocFits (type2 a) n = ⊥
AllocFits (other t) n = ⊥

-- The conditions under which a grant can be sent.
pub record IsGrant (d : DlDci) (nof_prb : ℕ) : Type 0 where
  pub alloc_fits : AllocFits d.alloc nof_prb
  pub mcs_fits : d.mcs_idx < 32
  pub harq_fits : d.harq_process < 8
  pub rv_fits : rv_word d.rv_idx < 4

-- What a receiver that starts from `old` has after the message.
unfoldable pub received : DlDci → DlDci → DlDci
received d old = record old {
  alloc = d.alloc;
  mcs_idx = d.mcs_idx;
  harq_process = d.harq_process;
  ndi = d.ndi;
  rv_idx = some (rv_word d.rv_idx);
  nof_tb = 1;
}

module _ (d old : DlDci) (n : ℕ) (v : IsGrant d n) where
  format1_fields-tail :
      (bytes rest : List ℕ)
      → (rest' : List ℕ) × (format1_fields old d.alloc (filled (format1_tail d) bytes ++ rest)
          ≡ some (received d old, rest'))
  unfolding format1_fields format1_tail received filled
  format1_fields-tail bytes rest =
      let (b1, e1) =
        pack-bits d.mcs_idx 5
          (bits d.harq_process 3 ++ (some (bool_byte d.ndi) ∷ (bits (rv_word d.rv_idx) 2 ++ zeros)))
          bytes rest (omega arith) v.mcs_fits in
      let (b2, e2) =
        pack-bits d.harq_process 3 (some (bool_byte d.ndi) ∷ (bits (rv_word d.rv_idx) 2 ++ zeros))
          b1 rest (omega arith) v.harq_fits in
      let (b3, e3) =
        pack-bits (rv_word d.rv_idx) 2 zeros (drop 1 b2) rest (omega arith) v.rv_fits in
      (
        filled zeros b3 ++ rest,
        rw (e1, ◌>>=◌) (rw (e2, ◌>>=◌) (rw (e3, ◌>>=◌) (rw (is_set_stored d.ndi) refl))),
      )
    where
      zeros : List Slot
      zeros = some 0 ∷ some 0 ∷ []

  -- The slots of the allocation and the tail.
  abbrev body : Alloc → List Slot
  body (type0 mask) = bits mask (alloc_size n) ++ format1_tail d
  body (type1 mask subset shift) =
      bits subset (log2_p (type0_p n))
      ++ (some (bool_byte shift) ∷ (bits mask (vrb_size n) ++ format1_tail d))
  body (type2 a) = []
  body (other t) = []

  read_alloc-body :
      (a : Alloc) (bytes rest : List ℕ)
      → 1 ≤ n
      → n ≤ 110
      → AllocFits a n
      → (bytes' : List ℕ) × (read_alloc (alloc_type a) n (filled (body a) bytes ++ rest)
          ≡ some (some a, filled (format1_tail d) bytes' ++ rest))
  unfolding read_alloc alloc_type filled
  read_alloc-body (type0 mask) bytes rest lo hi fits =
      let (b1, e1) =
        pack-bits mask (alloc_size n) (format1_tail d) bytes rest
          (omega (arith, alloc_bounds n lo hi)) fits in
      (b1, rw (e1, ◌>>=◌))
  read_alloc-body (type1 mask subset shift) bytes rest lo hi fits =
      let (b1, e1) =
        pack-bits subset (log2_p (type0_p n))
          (some (bool_byte shift) ∷ (bits mask (vrb_size n) ++ format1_tail d)) bytes rest
          (omega (arith, alloc_bounds n lo hi)) fits.1 in
      let (b2, e2) =
        pack-bits mask (vrb_size n) (format1_tail d) (drop 1 b1) rest
          (omega (arith, alloc_bounds n lo hi)) fits.2 in
      (b2, rw (e1, ◌>>=◌) (rw (e2, ◌>>=◌) (rw (is_set_stored shift) refl)))
  read_alloc-body (type2 a) bytes rest lo hi fits = absurd fits
  read_alloc-body (other t) bytes rest lo hi fits = absurd fits

  stored_type : (a : Alloc) → AllocFits a n → u8 (alloc_type a) ≡ alloc_type a
  unfolding alloc_type
  stored_type (type0 mask) fits = refl
  stored_type (type1 mask subset shift) fits = refl
  stored_type (type2 a) fits = absurd fits
  stored_type (other t) fits = absurd fits

  small_type : (a : Alloc) → ltb 10 n ≡ false → AllocFits a n → 0 ≡ alloc_type a
  unfolding alloc_type
  small_type (type0 mask) small fits = refl
  small_type (type1 mask subset shift) small fits = absurd (ground arith)
  small_type (type2 a) small fits = absurd fits
  small_type (other t) small fits = absurd fits

  -- The type is read back, and the reader stands at the allocation.
  read_type-head :
      (a : Alloc) (t : List Slot) (bytes rest : List ℕ)
      → d.alloc ≡ a
      → AllocFits a n
      → (bytes' : List ℕ) × (read_type n (filled (format1_head d n ++ t) bytes ++ rest)
          ≡ some (alloc_type a, filled t bytes' ++ rest))
  unfolding read_type format1_head filled
  read_type-head a t bytes rest e fits = elim (Bool-cases (ltb 10 n)) [
    | inl wide ↦ (drop 1 bytes, rw wide (rw e (rw (stored_type a fits) refl)))
    | inr small ↦ (
      bytes,
      rw small (ap (λ (x : ℕ). some (x, filled t bytes ++ rest)) (small_type a small fits)),
    )
  ]

  format1_body-body : (a : Alloc) → AllocFits a n → format1_body d a n ≡ some (body a)
  unfolding format1_body
  format1_body-body (type0 mask) fits = refl
  format1_body-body (type1 mask subset shift) fits = refl
  format1_body-body (type2 a) fits = absurd fits
  format1_body-body (other t) fits = absurd fits

  length-tail : length (format1_tail d) ≡ 13
  unfolding format1_tail
  length-tail = simp (length-append, length-bits)

  length-head : length (format1_head d n) ≡ (if ltb 10 n then 1 else 0)
  unfolding format1_head
  length-head = ground arith

  length-body : (a : Alloc) → 1 ≤ n → n ≤ 110 → AllocFits a n → length (body a) ≤ alloc_size n + 13
  length-body (type0 mask) lo hi fits = omega (
    arith,
    length-append (bits mask (alloc_size n)) (format1_tail d),
    length-bits mask (alloc_size n),
    length-tail,
  )
  length-body (type1 mask subset shift) lo hi fits = omega (
    arith,
    length-append (bits subset (log2_p (type0_p n)))
        (some (bool_byte shift) ∷ (bits mask (vrb_size n) ++ format1_tail d)),
    length-append (bits mask (vrb_size n)) (format1_tail d),
    length-bits mask (vrb_size n),
    length-bits subset (log2_p (type0_p n)),
    length-tail,
    (alloc_bounds n lo hi).3 fits.0,
  )
  length-body (type2 a) lo hi fits = absurd fits
  length-body (other t) lo hi fits = absurd fits

-- A message of the right size is unpacked by its type, its allocation and its other fields.
unpack_parts :
    (msg : Msg) (old : DlDci) (n type : ℕ) (a : Alloc) {b1 b2 b3 : List ℕ} {new : DlDci}
    → msg.nof_bits ≡ format_sizeof_lut format1 n
    → read_type n msg.bytes ≡ some (type, b1)
    → read_alloc type n b1 ≡ some (some a, b2)
    → format1_fields old a b2 ≡ some (new, b3)
    → format1_unpack msg old n ≡ some (success, new)
unfolding format1_unpack
unpack_parts msg old n type a size e1 e2 e3 =
    rw ((==_iff _ _).1 size) (rw (e1, ◌>>=◌) (rw (e2, ◌>>=◌) (rw (e3, ◌>>=◌) refl)))

-- For a cell of 6 to 100 resource blocks and a buffer of 128 bytes or more, packing a grant of
-- allocation type 0 or, above 10 blocks, type 1, whose fields fit in their bits, succeeds with a
-- message of the size of format 1, and unpacking that message gives the receiver the grant.
pub format1_unpack-format1_pack :
    (d old : DlDci) (msg : Msg) (n : ℕ)
    → 6 ≤ n
    → n ≤ 100
    → max_bits ≤ length msg.bytes
    → IsGrant d n
    → (msg' : Msg) × (format1_pack d msg n ≡ some (success, msg'))
      × (msg'.nof_bits ≡ format_sizeof_lut format1 n)
      × (format1_unpack msg' old n ≡ some (success, received d old))
unfolding format1_pack
format1_unpack-format1_pack d old msg n lo hi room v =
    let one : 1 ≤ n = omega arith in
    let top : n ≤ 110 = omega arith in
    let slots : List Slot = format1_head d n ++ body d old n v d.alloc in
    let fit = format1_fits n one hi in
    let size =
      omega_size (format1_head d n) (body d old n v d.alloc) (length-head d old n v)
        (length-body d old n v d.alloc one top v.alloc_fits) fit.0 in
    let (rest, stored) =
      store-pad (format_sizeof_lut format1 n) slots msg size (omega (arith, fit)) in
    let (b1, e1) =
      read_type-head d old n v d.alloc (body d old n v d.alloc) msg.bytes rest refl v.alloc_fits in
    let (b2, e2) = read_alloc-body d old n v d.alloc b1 rest one top v.alloc_fits in
    let (b3, e3) = format1_fields-tail d old n v b2 rest in
    let msg' : Msg = record msg {
      bytes = filled slots msg.bytes ++ rest;
      nof_bits = format_sizeof_lut format1 n;
    } in
    (
      msg',
      rw (format1_body-body d old n v d.alloc v.alloc_fits, format1_pack) stored,
      refl,
      unpack_parts msg' old n (alloc_type d.alloc) d.alloc refl e1 e2 e3,
    )
  where
    omega_size :
        {h s : ℕ} (xs ys : List Slot)
        → length xs ≡ h
        → length ys ≤ alloc_size n + 13
        → alloc_size n + h + 13 ≤ s
        → length (xs ++ ys) ≤ s
    omega_size xs ys p q r = omega (arith, length-append xs ys)
