-- ===== src/Dci/Format1A/RoundTrip.antt =====
-- Unpacking a format 1A message gives back a localized grant that was packed.
use vbbu.Prelude.{
  ℕ, ◌≤◌, ◌≡◌, refl, ap, ◌∙◌, some, List, [], ◌∷◌, ◌++◌, length, drop, arith, true, false, Bool, u8,
  ==_iff,
}
use vbbu.Ra.Types.{DlDci, type2, Type2}
use vbbu.Dci.Size.{format1a, format_sizeof_lut, riv_nbits}
use vbbu.Dci.Size.Facts.{fields_fit}
use vbbu.Dci.Msg.{Msg, success, bits, store, pad, max_bits}
use vbbu.Dci.Msg.Facts.{filled, store-pad}
use vbbu.Dci.Format1A.{
  length_allowed, format1a_body, format1a_pack_run, format1a_pack, is_order, format1a_fields,
  format1a_rest, format1a_unpack,
}
use vbbu.Dci.Format1A.Order.{is_order-bits}
use vbbu.Dci.Format1A.Slots.{
  IsGrant, received, riv', tail', slots, filled-slots, length-slots, allowed, format1a_fields-slots,
}

pack_type2 :
    (d : DlDci) (a : Type2) (msg : Msg) (n : ℕ) (c : Bool)
    → d.alloc ≡ type2 a
    → format1a_pack d msg n c ≡ format1a_pack_run d a msg n c
unfolding format1a_pack
pack_type2 d a msg n c e = ground arith

pack_allowed :
    (d : DlDci) (a : Type2) (msg msg' : Msg) (n : ℕ) (c : Bool)
    → length_allowed a n c ≡ true
    → store success
        (pad (format_sizeof_lut format1a n) ((some 1 ∷ some a.mode ∷ []) ++ format1a_body d a n c))
        msg
      ≡ some (success, msg')
    → format1a_pack_run d a msg n c ≡ some (success, record d { dci_is_1a = true }, msg')
unfolding format1a_pack_run
pack_allowed d a msg msg' n c ok stored = rw ok (rw stored refl)

unpack_fields :
    (msg : Msg) (old new : DlDci) (n : ℕ) (c : Bool) (bytes rest : List ℕ)
    → msg.nof_bits ≡ format_sizeof_lut format1a n
    → msg.bytes ≡ 1 ∷ bytes
    → is_order msg n bytes ≡ some false
    → format1a_fields old n c bytes ≡ some (new, rest)
    → format1a_unpack msg old n c ≡ some (success, new)
unfolding format1a_unpack format1a_rest
unpack_fields msg old new n c bytes rest size starts order fields =
    rw ((==_iff _ _).1 size) (rw starts (rw (order, format1a_rest) (rw fields refl)))

-- For a cell of 6 to 100 resource blocks and a buffer of 128 bytes or more, packing a localized
-- run inside the cell, whose value is not all ones and whose fields fit in their bits, succeeds
-- with a message of the size of format 1A, and unpacking that message gives the receiver the
-- grant, with gap 1 and some new data indicator, which for other RNTIs than a C-RNTI is the
-- receiver's own; for a C-RNTI so is the number of blocks that gives the block size.
pub format1a_unpack-format1a_pack :
    (d old : DlDci) (a : Type2) (msg : Msg) (n : ℕ) (c : Bool)
    → d.alloc ≡ type2 a
    → 6 ≤ n
    → n ≤ 100
    → max_bits ≤ length msg.bytes
    → IsGrant d a n
    → (msg' : Msg) × (ndi : Bool) × (format1a_pack d msg n c
        ≡ some (success, record d { dci_is_1a = true }, msg'))
      × (msg'.nof_bits ≡ format_sizeof_lut format1a n)
      × (c ≡ false → ndi ≡ old.ndi)
      × (format1a_unpack msg' old n c ≡ some (success, received d a old n c ndi))
format1a_unpack-format1a_pack d old a msg n c is_type2 lo hi room v =
    let fit = fields_fit n (omega arith) hi in
    let len = length-slots d a old n c v in
    let (rest, stored) =
      store-pad (format_sizeof_lut format1a n) (slots d a old n c v) msg (omega (arith, len, fit))
        (omega (arith, fit)) in
    let bytes : List ℕ =
      filled (bits (riv' d a old n c v) (riv_nbits n) ++ tail' d a old n c v)
        (drop 1 (drop 1 msg.bytes))
      ++ rest in
    let (ndi, rest', keep, read) =
      format1a_fields-slots d a old n c v (drop 1 (drop 1 msg.bytes)) rest (omega arith)
        (omega arith) in
    let msg' : Msg = record msg {
      bytes = filled (slots d a old n c v) msg.bytes ++ rest;
      nof_bits = format_sizeof_lut format1a n;
    } in
    (
      msg',
      ndi,
      pack_type2 d a msg n c is_type2
          ∙ pack_allowed d a msg msg' n c (allowed d a old n c v) stored,
      refl,
      keep,
      unpack_fields msg' old (received d a old n c ndi) n c (u8 a.mode ∷ bytes) rest' refl
          (ap (λ x. x ++ rest) (filled-slots d a old n c v msg.bytes))
          (is_order-bits msg' n (u8 a.mode) (riv' d a old n c v) (tail' d a old n c v)
            (drop 1 (drop 1 msg.bytes)) rest v.riv_fits)
          read,
    )
