-- ===== src/Layermap/RoundTrip.antt =====
-- Demapping what was mapped to layers.
use native.Mathlib.Nat.{zero-add, suc-add, div-mul-le_self}
use vbbu.Prelude.{
  ℕ, zero, suc, ◌+◌, ◌-◌, ◌*◌, ◌/◌, ◌≤◌, ◌≡◌, refl, sym, ap, ◌∙◌, some, List, [], ◌∷◌, ◌++◌, take,
  drop, replicate, length, length-take, take-append, length-drop, length-append, length-replicate,
  append-nil, ==_iff, arith, ge→ltb,
}
use vbbu.Layermap.{
  layers, in_front, map_loop, layermap_diversity, row_of, demap_loop, layerdemap_diversity,
  layermap_multiplex, layerdemap_multiplex,
}

quotient-le : (a k n : ℕ) → a / k ≡ n → n * k ≤ a
quotient-le a k n e = rw (← e) (div-mul-le_self a k)

module _ {A : Type 0} where
  row_of-in_front :
      (row : List A) (x : List (List A))
      → length x ≡ length row
      → row_of (in_front row x) ≡ some (row, x)
  unfolding row_of in_front
  row_of-in_front [] [] e = refl
  row_of-in_front [] (y ∷ x) e = absurd (omega arith)
  row_of-in_front (a ∷ row) [] e = absurd (omega arith)
  row_of-in_front (a ∷ row) (y ∷ x) e = rw (row_of-in_front row x (omega arith)) refl

  length-in_front :
      (row : List A) (x : List (List A))
      → length x ≡ length row
      → length (in_front row x) ≡ length row
  unfolding in_front
  length-in_front [] x e = refl
  length-in_front (a ∷ row) [] e = absurd (omega arith)
  length-in_front (a ∷ row) (y ∷ x) e = ap suc (length-in_front row x (omega arith))

  take-take-drop : (m n : ℕ) (xs : List A) → take m xs ++ take n (drop m xs) ≡ take (m + n) xs
  take-take-drop zero n xs = rw (zero-add n) refl
  take-take-drop (suc m) zero [] = rw (suc-add m zero) refl
  take-take-drop (suc m) (suc n) [] = rw (suc-add m (suc n)) refl
  take-take-drop (suc m) n (x ∷ xs) =
      rw (suc-add m n) (ap (λ (t : List A). x ∷ t) (take-take-drop m n xs))

  -- What `n` rounds write, and read back.
  record IsMapped (nof_layers n : ℕ) (d : List A) : Type 0 where
    x : List (List A)
    mapped : map_loop nof_layers n d ≡ some x
    x_length : length x ≡ nof_layers
    back : demap_loop n x ≡ some (take (n * nof_layers) d)

  map_loop-IsMapped :
      (nof_layers n : ℕ) (d : List A) → n * nof_layers ≤ length d → IsMapped nof_layers n d
  unfolding map_loop demap_loop
  map_loop-IsMapped nof_layers zero d room = record {
    x = replicate nof_layers [];
    mapped = refl;
    x_length = length-replicate nof_layers [];
    back = let e : 0 * nof_layers ≡ 0 = omega arith in rw e refl;
  }
  map_loop-IsMapped nof_layers (suc n) d room =
      let r =
        map_loop-IsMapped nof_layers n (drop nof_layers d)
          (omega (arith, length-drop nof_layers d)) in
      let row = take nof_layers d in
      let row_length : length row ≡ nof_layers = omega (arith, length-take nof_layers d) in
      let e : nof_layers + n * nof_layers ≡ suc n * nof_layers = omega arith in
      record {
        x = in_front row r.x;
        mapped = rw (ge→ltb (length d) nof_layers (omega arith)) (rw r.mapped refl);
        x_length = omega (arith, length-in_front row r.x (omega (arith, r.x_length)));
        back = rw (row_of-in_front row r.x (omega (arith, r.x_length))) (
            rw r.back (
              ap (λ (t : List A). some t)
                (rw e at (take-take-drop nof_layers (n * nof_layers) d))));
      }

  drop-append : (xs ys : List (List A)) (n : ℕ) → length xs ≡ n → drop n (xs ++ ys) ≡ ys
  drop-append [] ys zero e = refl
  drop-append [] ys (suc n) e = absurd (omega arith)
  drop-append (x ∷ xs) ys zero e = absurd (omega arith)
  drop-append (x ∷ xs) ys (suc n) e = drop-append xs ys n (omega arith)

  -- Demapping the first layers of an array that begins with what was mapped.
  demap_front :
      (nof_layers n : ℕ) (d : List A) (r : IsMapped nof_layers n d) (others : List (List A))
      → layerdemap_diversity (r.x ++ others) nof_layers n
        ≡ some (n * nof_layers, take (n * nof_layers) d)
  unfolding layerdemap_diversity
  demap_front nof_layers n d r others =
      rw
        (ge→ltb (length (r.x ++ others)) nof_layers
          (omega (arith, length-append r.x others, r.x_length)))
        (rw (take-append r.x others nof_layers r.x_length) (rw r.back refl))

  mapped_both :
      (d0 d1 : List A) (nof_layers nof_symbols0 nof_symbols1 n : ℕ)
      → nof_symbols0 / (nof_layers / 2) ≡ n
      → nof_symbols1 / (nof_layers - nof_layers / 2) ≡ n
      → (v : IsMapped (nof_layers / 2) n d0) (w : IsMapped (nof_layers - nof_layers / 2) n d1)
      → layermap_multiplex d0 d1 2 nof_layers nof_symbols0 nof_symbols1
        ≡ some (layers n (v.x ++ w.x))
  unfolding layermap_multiplex layermap_diversity
  mapped_both d0 d1 nof_layers nof_symbols0 nof_symbols1 n e0 e1 v w =
      let same =
        (==_iff (nof_symbols0 / (nof_layers / 2)) (nof_symbols1 / (nof_layers - nof_layers / 2))).1
          (e0 ∙ sym e1) in
      rw (same, layermap_multiplex)
        (rw (e0, layermap_diversity) (rw (e1, layermap_diversity) (rw v.mapped (rw w.mapped refl))))

  -- Two codewords that are mapped to layers and demapped again come back, as far as they fill the
  -- layers, with the number of their symbols, if the layers of both have the same number of symbols.
  pub layerdemap_multiplex-layermap_multiplex :
      (d0 d1 : List A) (nof_layers nof_symbols0 nof_symbols1 n : ℕ)
      → 2 ≤ nof_layers
      → nof_symbols0 ≤ length d0
      → nof_symbols1 ≤ length d1
      → nof_symbols0 / (nof_layers / 2) ≡ n
      → nof_symbols1 / (nof_layers - nof_layers / 2) ≡ n
      → (x : List (List A)) × (layermap_multiplex d0 d1 2 nof_layers nof_symbols0 nof_symbols1
          ≡ some (layers n x))
        × (layerdemap_multiplex x nof_layers 2 n
            ≡ some (
              0,
              (some (n * (nof_layers / 2)), take (n * (nof_layers / 2)) d0)
                  ∷ (
                    some (n * (nof_layers - nof_layers / 2)),
                    take (n * (nof_layers - nof_layers / 2)) d1,
                  )
                  ∷ [],
            ))
  unfolding layerdemap_multiplex
  layerdemap_multiplex-layermap_multiplex d0 d1 nof_layers nof_symbols0 nof_symbols1 n two h0 h1 e0
        e1 =
      let k0 = nof_layers / 2 in
      let k1 = nof_layers - nof_layers / 2 in
      let in0 = quotient-le nof_symbols0 k0 n e0 in
      let in1 = quotient-le nof_symbols1 k1 n e1 in
      let v = map_loop-IsMapped k0 n d0 (omega arith) in
      let w = map_loop-IsMapped k1 n d1 (omega arith) in
      let behind = demap_front k0 n d0 v w.x in
      let last = rw (append-nil w.x) at (demap_front k1 n d1 w []) in
      (
        v.x ++ w.x,
        mapped_both d0 d1 nof_layers nof_symbols0 nof_symbols1 n e0 e1 v w,
        rw behind (rw (drop-append v.x w.x k0 v.x_length) (rw last refl)),
      )
