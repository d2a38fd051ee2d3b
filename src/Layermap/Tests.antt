-- ===== src/Layermap/Tests.antt =====
-- Layer mapping at concrete values, for srslte/lib/mimo/layermap.c.
use vbbu.Prelude.{ℕ, ◌-◌, ◌*◌, ◌/◌, ◌≡◌, refl, some, none, List, [], ◌∷◌, take, arith}
use vbbu.Layermap.{
  layers, codeword, single_antenna, spatial_multiplex, layermap_type, layermap_single,
  layermap_multiplex, layermap_diversity, map_loop, in_front, layerdemap_type, layerdemap_multiplex,
  layerdemap_diversity, demap_loop, row_of,
}
use vbbu.Layermap.RoundTrip.{layerdemap_multiplex-layermap_multiplex}

-- On a single antenna the codeword is overwritten with what the layer holds.
layermap_single_run :
    layermap_type {A = ℕ} (7 ∷ 8 ∷ []) (1 ∷ 2 ∷ []) [] 1 1 2 0 single_antenna
    ≡ some (codeword 2 (7 ∷ 8 ∷ []))
unfolding layermap_type layermap_single
layermap_single_run = refl

-- One codeword on two layers: the number of symbols is returned and not stored.
layerdemap_one_run :
    layerdemap_type {A = ℕ} ((1 ∷ 3 ∷ []) ∷ (2 ∷ 4 ∷ []) ∷ []) 2 1 2 spatial_multiplex
    ≡ some (some (4, (none, 1 ∷ 2 ∷ 3 ∷ 4 ∷ []) ∷ []))
unfolding layerdemap_type layerdemap_multiplex layerdemap_diversity demap_loop row_of
layerdemap_one_run = refl

-- Two codewords on three layers.
layermap_two_run :
    layermap_type {A = ℕ} [] (1 ∷ 2 ∷ []) (3 ∷ 4 ∷ 5 ∷ 6 ∷ []) 2 3 2 4 spatial_multiplex
    ≡ some (layers 2 ((1 ∷ 2 ∷ []) ∷ (3 ∷ 5 ∷ []) ∷ (4 ∷ 6 ∷ []) ∷ []))
unfolding layermap_type layermap_multiplex layermap_diversity map_loop in_front
layermap_two_run = refl

layerdemap_multiplex-layermap_multiplex_example :
    (x : List (List ℕ)) × (layermap_multiplex (1 ∷ 2 ∷ []) (3 ∷ 4 ∷ 5 ∷ 6 ∷ []) 2 3 2 4
      ≡ some (layers 2 x))
    × (layerdemap_multiplex x 3 2 2
        ≡ some (
          0,
          (some (2 * (3 / 2)), take (2 * (3 / 2)) (1 ∷ 2 ∷ []))
              ∷ (some (2 * (3 - 3 / 2)), take (2 * (3 - 3 / 2)) (3 ∷ 4 ∷ 5 ∷ 6 ∷ []))
              ∷ [],
        ))
layerdemap_multiplex-layermap_multiplex_example =
    layerdemap_multiplex-layermap_multiplex (1 ∷ 2 ∷ []) (3 ∷ 4 ∷ 5 ∷ 6 ∷ []) 3 2 4 2 (omega arith)
      (omega arith) (omega arith) refl refl
