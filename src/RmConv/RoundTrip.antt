-- ===== src/RmConv/RoundTrip.antt =====
-- What srslte_rm_conv_tx of srslte/lib/fec/rm_conv.c sends is what srslte_rm_conv_rx gives back.
use mathlib.Core.Path.{subst}
use vbbu.Prelude.{
  ℕ, ◌+◌, ◌-◌, ◌*◌, ◌/◌, ◌%◌, ◌≤◌, ◌<◌, ◌≡◌, ◌≢◌, inl, inr, refl, ap, ◌∙◌, false, some, List, [],
  ◌∷◌, map, get_or, replicate, length, length-map, length-replicate, get_or-replicate, concat_from,
  length-concat_from, get_or-concat_from, ltb, ge→ltb, ◌==◌, arith, success,
}
use vbbu.Turbo.Coder.{tx_null}
use vbbu.RmConv.{
  nrows_of, ndummy_of, cell, rm_perm_cc_inv, tx_entry, tx_block, rm_conv_tx, Soft, spread_loop,
  rx_entry, rx_entries, rm_conv_rx,
}
use vbbu.RmConv.Positions.{IsShape, shape, get_or-tx_block, get_or-tx_block_at, length-tx_block}
use vbbu.RmConv.Counts.{entries, entries-tx_block, tx_entry-null}
use vbbu.RmConv.Ends.{buffer-ends, rm_conv_tx-collect}
use vbbu.RmConv.Follow.{IsReadable, IsGood, Follows, follow}
use vbbu.RmConv.Inverse.{inverse, not_null, get_or-triple}

module _ {ℓ} {A : Type ℓ} (soft : Soft A) (llr : ℕ → A) (Says : ℕ → A → Type 0)
    (r : IsReadable soft llr Says) (input : List ℕ) (in_len : ℕ) (low : 3 ≤ in_len)
    (high : in_len ≤ 3072) (bits : (i : ℕ) → get_or input i 0 < 2) where
  abbrev nrows : ℕ
  nrows = nrows_of in_len

  abbrev ndummy : ℕ
  ndummy = ndummy_of in_len

  abbrev tx : List ℕ
  tx = tx_block input nrows ndummy

  is_shape : IsShape in_len nrows ndummy
  is_shape = shape in_len low high

  whole : (i : ℕ) → get_or input i 0 ≢ tx_null
  whole i = λ e. absurd (omega (arith, bits i, e))

  length-tx : length tx ≡ 3 * (nrows * 32)
  length-tx = length-tx_block input nrows ndummy is_shape.some_rows

  same :
      (p : ℕ)
      → p < 3 * (nrows * 32)
      → (get_or tx p 0 == tx_null)
        ≡ ltb (cell (p % (nrows * 32) / nrows) (p % (nrows * 32) % nrows)) ndummy
  same p h =
      ap (λ t. t == tx_null) (get_or-tx_block input nrows ndummy is_shape.some_rows p h)
      ∙ tx_entry-null input whole ndummy is_shape.few_dummies (p / (nrows * 32))
          (p % (nrows * 32) / nrows) (p % (nrows * 32) % nrows)

  tx_entry-lt :
      (s j i : ℕ)
      → (tx_entry input ndummy s j i == tx_null) ≡ false
      → tx_entry input ndummy s j i < 2
  unfolding tx_entry
  tx_entry-lt s j i h = ground (arith, bits ((cell j i - ndummy) * 3 + s))

  tx_bits : (p : ℕ) → p < 3 * (nrows * 32) → (get_or tx p 0 == tx_null) ≡ false → get_or tx p 0 < 2
  tx_bits p lt h =
      let e = get_or-tx_block input nrows ndummy is_shape.some_rows p lt in
      rw e (
        tx_entry-lt (p / (nrows * 32)) (p % (nrows * 32) / nrows) (p % (nrows * 32) % nrows)
          (rw e at h))

  -- Where the receiver reads entry `i` of stream `s`.
  place : ℕ → ℕ → ℕ
  place i s =
      nrows * 32 * s + get_or rm_perm_cc_inv ((i + ndummy) % 32) 0 * nrows + (i + ndummy) / 32

  module _ (i s : ℕ) (hi : i < in_len / 3) (hs : s < 3) where
    column : ℕ
    column = get_or rm_perm_cc_inv ((i + ndummy) % 32) 0

    place-split : place i s ≡ s * (nrows * 32) + (column * nrows + (i + ndummy) / 32)
    unfolding place column
    place-split = grind arith

    row-lt : (i + ndummy) / 32 < nrows
    row-lt = omega (arith, is_shape.rest)

    column-lt : column < 32
    unfolding column
    column-lt = (inverse ((i + ndummy) % 32) (omega arith)).1

    place-lt : place i s < 3 * (nrows * 32)
    place-lt = rw place-split (grind (arith, row-lt, column-lt))

    cell-place : cell column ((i + ndummy) / 32) ≡ i + ndummy
    unfolding cell column
    cell-place = omega (arith, (inverse ((i + ndummy) % 32) (omega arith)).0)

    sent_entry : tx_entry input ndummy s column ((i + ndummy) / 32) ≡ get_or input (i * 3 + s) 0
    unfolding tx_entry
    sent_entry =
        let full : ltb (i + ndummy) ndummy ≡ false = ge→ltb (i + ndummy) ndummy (omega arith) in
        let e : i + ndummy - ndummy ≡ i = omega arith in rw cell-place (rw full (rw e refl))

    sent : get_or tx (place i s) 0 ≡ get_or input (i * 3 + s) 0
    sent = rw place-split (
        get_or-tx_block_at input nrows ndummy is_shape.some_rows s column ((i + ndummy) / 32) hs
          column-lt row-lt
        ∙ sent_entry)

    sent_full : (get_or tx (place i s) 0 == tx_null) ≡ false
    sent_full = rw sent (not_null (whole (i * 3 + s)))

    -- The value that the receiver gives at this place.
    heard :
        (tmp tmp' : List A) (k : ℕ)
        → entries tx ≤ k
        → Follows soft llr Says r tx nrows ndummy length-tx same tx_bits k 0 tmp tmp'
        → Says (get_or input (i * 3 + s) 0) (rx_entry soft tmp' nrows ndummy i s)
    unfolding rx_entry IsGood place
    heard tmp tmp' k few f =
        let kept : soft.is_null (get_or tmp' (place i s) soft.rx_null) ≡ false =
          f.reached few (place i s) (omega arith) place-lt sent_full in
        elim (f.good (place i s) place-lt) [ inl empty ↦ cc | inr says ↦ rw kept (rw sent at says) ]

    get_or-rx_entries :
        (tmp : List A)
        → get_or (rx_entries soft tmp nrows ndummy (in_len / 3)) (i * 3 + s) soft.nothing
          ≡ rx_entry soft tmp nrows ndummy i s
    unfolding rx_entries
    get_or-rx_entries tmp =
        let e : 0 + i ≡ i = omega arith in
        let f : ℕ → List A = λ i. concat_from 3 0 (λ s. rx_entry soft tmp nrows ndummy i s ∷ []) in
        get_or-concat_from f 3 (λ i. refl) (in_len / 3) 0 i s soft.nothing hi hs
        ∙ ap (λ t. get_or (f t) s soft.nothing) e
        ∙ get_or-triple (rx_entry soft tmp nrows ndummy i) s soft.nothing hs

  length-rx_entries :
      (tmp : List A) → length (rx_entries soft tmp nrows ndummy (in_len / 3)) ≡ 3 * (in_len / 3)
  unfolding rx_entries
  length-rx_entries tmp =
      length-concat_from (λ i. concat_from 3 0 (λ s. rx_entry soft tmp nrows ndummy i s ∷ [])) 3
        (λ i. refl) (in_len / 3) 0
      ∙ omega arith

  rm_conv_rx-spread :
      (values : List A) {tmp : List A}
      → spread_loop soft
          (length values * (3 * (nrows * 32)))
          nrows
          ndummy
          values
          0
          (replicate (3 * (nrows * 32)) soft.rx_null)
        ≡ some tmp
      → rm_conv_rx soft values in_len
        ≡ some (success, rx_entries soft tmp nrows ndummy (in_len / 3))
  unfolding rm_conv_rx
  rm_conv_rx-spread values e = rw (ge→ltb 32 nrows is_shape.few_rows) (rw e refl)

  empty-IsGood :
      (p : ℕ)
      → p < 3 * (nrows * 32)
      → IsGood soft llr Says r tx nrows ndummy length-tx same tx_bits
          (replicate (3 * (nrows * 32)) soft.rx_null)
          p
  unfolding IsGood
  empty-IsGood p h = inl (rw (get_or-replicate (3 * (nrows * 32)) p soft.rx_null) r.null_lem)

  -- How much is sent and received.
  enough : (out_len : ℕ) → 3 * (in_len / 3) ≤ out_len → entries tx ≤ out_len
  enough out_len h = omega (
    arith,
    entries-tx_block input whole ndummy is_shape.few_dummies nrows is_shape.some_rows,
    is_shape.rest,
  )

  received :
      (out_len : ℕ)
      → 3 * (in_len / 3) ≤ out_len
      → (out : List ℕ) × (rm_conv_tx input in_len out_len ≡ some (success, out))
        × (length out ≡ out_len)
        × (values : List A) × (rm_conv_rx soft (map llr out) in_len ≡ some (success, values))
        × (length values ≡ 3 * (in_len / 3))
        × ((i : ℕ) → i < 3 * (in_len / 3) → Says (get_or input i 0) (get_or values i soft.nothing))
  received out_len sent =
      let size : ℕ = 3 * (nrows * 32) in
      let start : List A = replicate size soft.rx_null in
      let ends = buffer-ends input in_len low high whole out_len in
      let out = ends.0 in
      let len : length (map llr out) ≡ out_len = length-map out llr ∙ ends.2 in
      let run =
        follow soft llr Says r tx nrows ndummy length-tx same tx_bits (out_len * size) out_len 0 out
          start (omega (arith, is_shape.some_rows)) (length-replicate size soft.rx_null)
          empty-IsGood ends.1 in
      let tmp = run.0 in
      let spread =
        ap (λ t. spread_loop soft (t * size) nrows ndummy (map llr out) 0 start) len ∙ run.1 in
      (
        out,
        rm_conv_tx-collect input in_len low high out_len ends.1,
        ends.2,
        rx_entries soft tmp nrows ndummy (in_len / 3),
        rm_conv_rx-spread (map llr out) spread,
        length-rx_entries tmp,
        λ i h.
            let e : i / 3 * 3 + i % 3 ≡ i = omega arith in
            let hi : i / 3 < in_len / 3 = omega arith in
            let hs : i % 3 < 3 = omega arith in
            let says = heard (i / 3) (i % 3) hi hs start tmp out_len (enough out_len sent) run.2 in
            let read = get_or-rx_entries (i / 3) (i % 3) hi hs tmp in
            subst
              (λ t.
                Says (get_or input t 0)
                  (get_or (rx_entries soft tmp nrows ndummy (in_len / 3)) t soft.nothing))
              e (rw read says),
      )

-- For 3 to 3072 coded bits, of which at least those in whole triples are sent, rate matching ends; undoing it on
-- the soft values of what was sent succeeds, and gives for each bit in a whole triple a value that speaks for it.
pub rm_conv_rx-rm_conv_tx {ℓ} :
    {A : Type ℓ} (soft : Soft A) (llr : ℕ → A) (Says : ℕ → A → Type 0)
    → IsReadable soft llr Says
    → (input : List ℕ) (in_len out_len : ℕ) → 3 ≤ in_len
    → in_len ≤ 3072
    → ((i : ℕ) → get_or input i 0 < 2)
    → 3 * (in_len / 3) ≤ out_len
    → (out : List ℕ) × (rm_conv_tx input in_len out_len ≡ some (success, out))
      × (length out ≡ out_len)
      × (values : List A) × (rm_conv_rx soft (map llr out) in_len ≡ some (success, values))
      × (length values ≡ 3 * (in_len / 3))
      × ((i : ℕ) → i < 3 * (in_len / 3) → Says (get_or input i 0) (get_or values i soft.nothing))
rm_conv_rx-rm_conv_tx soft llr Says r input in_len out_len low high bits sent =
    received soft llr Says r input in_len low high bits out_len sent
