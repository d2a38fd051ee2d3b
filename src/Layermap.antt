-- ===== src/Layermap.antt =====
-- Layer mapping, srslte/lib/mimo/layermap.c, for symbols of any type. The layers and the codewords are
-- the symbols that are written to them, first to last; the outer `none` is a read past the end of an
-- array, and `failed` the return value -1.
pub mod RoundTrip
mod Tests
use vbbu.Prelude.{
  ℕ, zero, suc, ◌+◌, ◌-◌, ◌*◌, ◌/◌, Bool, true, false, ◌&&◌, ◌||◌, Option, none, some, List, [],
  ◌∷◌, ◌++◌, take, drop, replicate, length, get_elem?, ltb, ◌==◌, if◌then◌else◌,
}
use vbbu.Prelude.Options.{◌>>=◌}

-- `srslte_mimo_type_t`
pub data MimoType : Type 0 where
  single_antenna tx_diversity spatial_multiplex : MimoType

-- `SRSLTE_MAX_LAYERS` and `SRSLTE_MAX_CODEWORDS`
abbrev pub max_layers : ℕ
max_layers = 8

abbrev pub max_codewords : ℕ
max_codewords = 2

-- What a call does: it fails, or writes layers, or copies to a codeword, and returns a number.
pub data Mapped (A : Type 0) : Type 0 where
  failed : Mapped A
  layers : ℕ → List (List A) → Mapped A
  codeword : ℕ → List A → Mapped A

module _ {A : Type 0} where
  -- The first `n` symbols of an array.
  abbrev pub first : ℕ → List A → Option (List A)
  first n xs = if ltb (length xs) n then none else some (take n xs)

  -- One symbol in front of each layer.
  unfoldable pub in_front : List A → List (List A) → List (List A)
  in_front [] xs = []
  in_front (a ∷ row) [] = []
  in_front (a ∷ row) (x ∷ xs) = (a ∷ x) ∷ in_front row xs

  -- The loop of `srslte_layermap_diversity` with `n` rounds left.
  unfoldable pub map_loop : ℕ → ℕ → List A → Option (List (List A))
  map_loop nof_layers zero d = some (replicate nof_layers [])
  map_loop nof_layers (suc n) d = first nof_layers d >>= λ row.
      map_loop nof_layers n (drop nof_layers d) >>= λ rest. some (in_front row rest)

  -- `srslte_layermap_single`: what is copied from the first argument to the second.
  unfoldable pub layermap_single : List A → ℕ → Option (List A)
  layermap_single d nof_symbols = first nof_symbols d

  -- `srslte_layermap_diversity`
  unfoldable pub layermap_diversity : List A → ℕ → ℕ → Option (ℕ × List (List A))
  layermap_diversity d nof_layers nof_symbols =
      map_loop nof_layers (nof_symbols / nof_layers) d >>= λ x. some (nof_symbols / nof_layers, x)

  -- `srslte_layermap_multiplex`
  unfoldable pub layermap_multiplex : List A → List A → ℕ → ℕ → ℕ → ℕ → Option (Mapped A)
  layermap_multiplex d0 d1 nof_cw nof_layers nof_symbols0 nof_symbols1 = elim (nof_cw == 1) [
    | true ↦ layermap_diversity d0 nof_layers nof_symbols0 >>= λ w. some (layers w.0 w.1)
    | false ↦
        let n0 = nof_layers / nof_cw in
        let n1 = nof_layers - n0 in
        elim (nof_symbols0 / n0 == nof_symbols1 / n1) [
          | true ↦ layermap_diversity d0 n0 nof_symbols0 >>= λ v.
              layermap_diversity d1 n1 nof_symbols1 >>= λ w.
              some (layers (nof_symbols0 / n0) (v.1 ++ w.1))
          | false ↦ some failed
        ]
  ]

  -- `srslte_layermap_type`. For a single antenna `srslte_layermap_single` is called with the layer as
  -- the array to copy from.
  unfoldable pub layermap_type :
      List A → List A → List A → ℕ → ℕ → ℕ → ℕ → MimoType → Option (Mapped A)
  layermap_type x0 d0 d1 nof_cw nof_layers nof_symbols0 nof_symbols1 type =
      elim (ltb max_codewords nof_cw || ltb max_layers nof_layers || ltb nof_layers nof_cw) [
        | true ↦ some failed
        | false ↦ elim type [
          | single_antenna ↦ elim ((nof_cw == 1) && (nof_layers == 1)) [
            | true ↦ layermap_single x0 nof_symbols0 >>= λ w. some (codeword nof_symbols0 w)
            | false ↦ some failed
          ]
          | tx_diversity ↦ elim ((nof_cw == 1) && ((nof_layers == 2) || (nof_layers == 4))) [
            | true ↦ layermap_diversity d0 nof_layers nof_symbols0 >>= λ w. some (layers w.0 w.1)
            | false ↦ some failed
          ]
          | spatial_multiplex ↦ layermap_multiplex d0 d1 nof_cw nof_layers nof_symbols0 nof_symbols1
        ]
      ]

  -- The first symbols of all layers, and the layers without them.
  unfoldable pub row_of : List (List A) → Option (List A × List (List A))
  row_of [] = some ([], [])
  row_of ([] ∷ xs) = none
  row_of ((a ∷ x) ∷ xs) = row_of xs >>= λ r. some (a ∷ r.0, x ∷ r.1)

  -- The loop of `srslte_layerdemap_diversity` with `n` rounds left, over the first `nof_layers` layers.
  unfoldable pub demap_loop : ℕ → List (List A) → Option (List A)
  demap_loop zero x = some []
  demap_loop (suc n) x = row_of x >>= λ r. demap_loop n r.1 >>= λ rest. some (r.0 ++ rest)

  -- The pointers to the first `n` layers.
  abbrev pub some_layers : ℕ → List (List A) → Option (List (List A))
  some_layers n x = if ltb (length x) n then none else some (take n x)

  -- `srslte_layerdemap_diversity`: the number of symbols, and the codeword.
  unfoldable pub layerdemap_diversity : List (List A) → ℕ → ℕ → Option (ℕ × List A)
  layerdemap_diversity x nof_layers nof_layer_symbols = some_layers nof_layers x >>= λ x'.
      demap_loop nof_layer_symbols x' >>= λ d. some (nof_layer_symbols * nof_layers, d)

  -- `srslte_layerdemap_multiplex`: the return value, and the codewords with `nof_symbols`. With one
  -- codeword `nof_symbols` is not stored.
  unfoldable pub layerdemap_multiplex :
      List (List A) → ℕ → ℕ → ℕ → Option (ℕ × List (Option ℕ × List A))
  layerdemap_multiplex x nof_layers nof_cw nof_layer_symbols = elim (nof_cw == 1) [
    | true ↦
        layerdemap_diversity x nof_layers nof_layer_symbols >>= λ v. some (v.0, (none, v.1) ∷ [])
    | false ↦
        let n0 = nof_layers / nof_cw in
        let n1 = nof_layers - n0 in
        layerdemap_diversity x n0 nof_layer_symbols >>= λ v.
        layerdemap_diversity (drop n0 x) n1 nof_layer_symbols >>= λ w.
        some (0, (some v.0, v.1) ∷ (some w.0, w.1) ∷ [])
  ]

  -- `srslte_layerdemap_single` on the first layer, and the stores of `nof_symbols`.
  unfoldable pub demap_single : List (List A) → ℕ → Option (Option (ℕ × List (Option ℕ × List A)))
  demap_single [] nof_symbols = none
  demap_single (x ∷ xs) nof_symbols =
      first nof_symbols x >>= λ d. some (some (0, (some nof_symbols, d) ∷ []))

  -- What `srslte_layerdemap_type` does: it fails, or returns a number with the codewords.
  unfoldable pub layerdemap_type :
      List (List A) → ℕ → ℕ → ℕ → MimoType → Option (Option (ℕ × List (Option ℕ × List A)))
  layerdemap_type x nof_layers nof_cw nof_layer_symbols type =
      elim (ltb max_codewords nof_cw || ltb max_layers nof_layers || ltb nof_layers nof_cw) [
        | true ↦ some none
        | false ↦ elim type [
          | single_antenna ↦ elim ((nof_cw == 1) && (nof_layers == 1)) [
            | true ↦ demap_single x nof_layer_symbols
            | false ↦ some none
          ]
          | tx_diversity ↦ elim ((nof_cw == 1) && ((nof_layers == 2) || (nof_layers == 4))) [
            | true ↦ layerdemap_diversity x nof_layers nof_layer_symbols >>= λ v.
                some (some (0, (some v.0, v.1) ∷ []))
            | false ↦ some none
          ]
          | spatial_multiplex ↦ layerdemap_multiplex x nof_layers nof_cw nof_layer_symbols >>= λ w.
              some (some (w.0, w.1))
        ]
      ]
