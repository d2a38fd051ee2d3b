-- ===== src/RmConv/Counts.antt =====
-- How many entries of the buffer of srslte/lib/fec/rm_conv.c are not null.
use vbbu.Prelude.{
  ℕ, zero, suc, ◌+◌, ◌-◌, ◌*◌, ◌≤◌, ◌<◌, ◌≡◌, ◌≢◌, refl, ap, true, false, List, [], ◌∷◌, ◌++◌,
  get_or, length, drop, ltb, ge→ltb, ◌==◌, ==_iff, if◌then◌else◌, arith, concat_from,
}
use vbbu.Prelude.Check.{all_below, all_below_sound}
use vbbu.Turbo.Coder.{tx_null}
use vbbu.RmConv.{cell, rm_perm_cc, tx_entry, tx_column, tx_stream, tx_block}

-- The number of entries that are not null.
unfoldable pub entries : List ℕ → ℕ
entries [] = 0
entries (x ∷ xs) = if x == tx_null then entries xs else suc (entries xs)

entries-append : (xs ys : List ℕ) → entries (xs ++ ys) ≡ entries xs + entries ys
unfolding entries
entries-append [] ys = omega arith
entries-append (x ∷ xs) ys = ground (arith, entries-append xs ys)

-- An entry that is not null is counted.
pub entries-drop :
    (xs : List ℕ) (j p : ℕ)
    → j ≤ p
    → p < length xs
    → (get_or xs p 0 == tx_null) ≡ false
    → 0 < entries (drop j xs)
unfolding entries
entries-drop [] j p le lt h = absurd (omega arith)
entries-drop (x ∷ xs) zero zero le lt h = rw h (omega arith)
entries-drop (x ∷ xs) zero (suc p) le lt h =
    ground (arith, entries-drop xs 0 p (omega arith) (omega arith) h)
entries-drop (x ∷ xs) (suc j) zero le lt h = absurd (omega arith)
entries-drop (x ∷ xs) (suc j) (suc p) le lt h = entries-drop xs j p (omega arith) (omega arith) h

pub entries-drop_null :
    (xs : List ℕ) (j : ℕ)
    → (get_or xs j 0 == tx_null) ≡ true
    → j < length xs
    → entries (drop j xs) ≡ entries (drop (suc j) xs)
unfolding entries
entries-drop_null [] j h lt = absurd (omega arith)
entries-drop_null (x ∷ xs) zero h lt = rw h refl
entries-drop_null (x ∷ xs) (suc j) h lt = entries-drop_null xs j h (omega arith)

pub entries-drop_entry :
    (xs : List ℕ) (j : ℕ)
    → (get_or xs j 0 == tx_null) ≡ false
    → j < length xs
    → entries (drop j xs) ≡ suc (entries (drop (suc j) xs))
unfolding entries
entries-drop_entry [] j h lt = absurd (omega arith)
entries-drop_entry (x ∷ xs) zero h lt = rw h refl
entries-drop_entry (x ∷ xs) (suc j) h lt = entries-drop_entry xs j h (omega arith)

-- The number of the columns from `j` on whose first place is a dummy, of `n`.
dummies : ℕ → ℕ → ℕ → ℕ
dummies ndummy zero j = 0
dummies ndummy (suc n) j =
    (if ltb (get_or rm_perm_cc j 0) ndummy then 1 else 0) + dummies ndummy n (j + 1)

dummies_table : all_below 32 (λ ndummy. dummies ndummy 32 0 == ndummy) ≡ true
unfolding all_below dummies
dummies_table = refl

dummies_all : (ndummy : ℕ) → ndummy < 32 → dummies ndummy 32 0 ≡ ndummy
dummies_all ndummy h =
    (==_iff (dummies ndummy 32 0) ndummy).0
      (all_below_sound 32 (λ ndummy. dummies ndummy 32 0 == ndummy) ndummy dummies_table h)

module _ (input : List ℕ) (whole : (i : ℕ) → get_or input i 0 ≢ tx_null) (ndummy : ℕ)
    (few : ndummy < 32) where
  pub tx_entry-null : (s j i : ℕ) → (tx_entry input ndummy s j i == tx_null) ≡ ltb (cell j i) ndummy
  unfolding tx_entry
  tx_entry-null s j i = ground (arith, whole ((cell j i - ndummy) * 3 + s))

  entries-rows :
      (s j n i : ℕ) → entries (concat_from n (suc i) (λ i. tx_entry input ndummy s j i ∷ [])) ≡ n
  unfolding entries cell
  entries-rows s j zero i = refl
  entries-rows s j (suc n) i =
      let full : ltb (cell j (suc i)) ndummy ≡ false =
        ge→ltb (cell j (suc i)) ndummy (omega arith) in
      let next : suc i + 1 ≡ suc (i + 1) = omega arith in
      rw (tx_entry-null s j (suc i)) (rw full (rw next (ap suc (entries-rows s j n (i + 1)))))

  entries-tx_column :
      (s j n : ℕ)
      → entries (tx_column input (suc n) ndummy s j)
          + (if ltb (get_or rm_perm_cc j 0) ndummy then 1 else 0)
        ≡ suc n
  unfolding entries tx_column cell
  entries-tx_column s j n =
      let first : (tx_entry input ndummy s j 0 == tx_null) ≡ ltb (get_or rm_perm_cc j 0) ndummy =
        rw (tx_entry-null s j 0) (ap (λ t. ltb t ndummy) (omega arith)) in
      ground (arith, first, entries-rows s j n 0)

  entries-columns :
      (s m n j : ℕ)
      → entries (concat_from n j (tx_column input (suc m) ndummy s)) + dummies ndummy n j
        ≡ n * suc m
  unfolding entries dummies
  entries-columns s m zero j = omega arith
  entries-columns s m (suc n) j = grind (
    arith,
    entries-append (tx_column input (suc m) ndummy s j)
        (concat_from n (j + 1) (tx_column input (suc m) ndummy s)),
    entries-tx_column s j m,
    entries-columns s m n (j + 1),
  )

  entries-tx_stream : (s m : ℕ) → entries (tx_stream input (suc m) ndummy s) + ndummy ≡ 32 * suc m
  unfolding tx_stream
  entries-tx_stream s m = omega (arith, entries-columns s m 32 0, dummies_all ndummy few)

  -- The buffer holds three times as many entries as a stream.
  pub entries-tx_block :
      (nrows : ℕ)
      → 0 < nrows
      → entries (tx_block input nrows ndummy) + 3 * ndummy ≡ 3 * (nrows * 32)
  unfolding tx_block entries
  entries-tx_block zero pos = absurd (omega arith)
  entries-tx_block (suc m) pos =
      let stream : ℕ → List ℕ = tx_stream input (suc m) ndummy in
      omega (
        arith,
        entries-append (stream 0) (stream 1 ++ (stream 2 ++ [])),
        entries-append (stream 1) (stream 2 ++ []),
        entries-append (stream 2) [],
        entries-tx_stream 0 m,
        entries-tx_stream 1 m,
        entries-tx_stream 2 m,
      )
