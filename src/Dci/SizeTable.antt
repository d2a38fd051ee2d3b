-- ===== src/Dci/SizeTable.antt =====
-- `dci_sz_table` of srslte/lib/phch/dci_sz_table.h: the sizes of formats 0, 1, 1A and 1C for each
-- number of resource blocks up to 100.
use vbbu.Prelude.{ℕ, List, [], ◌∷◌}

abbrev pub Row : Type 0
Row = ℕ × ℕ × ℕ × ℕ

unfoldable pub dci_sz_table : List Row
dci_sz_table =
    (15, 13, 15, 5)
    ∷ (15, 17, 15, 5)
    ∷ (17, 15, 17, 5)
    ∷ (18, 17, 18, 5)
    ∷ (19, 17, 19, 7)
    ∷ (19, 18, 19, 7)
    ∷ (21, 19, 21, 8)
    ∷ (21, 22, 21, 8)
    ∷ (21, 22, 21, 9)
    ∷ (21, 22, 21, 9)
    ∷ (21, 23, 21, 9)
    ∷ (22, 21, 22, 9)
    ∷ (22, 21, 22, 9)
    ∷ (22, 21, 22, 9)
    ∷ (22, 21, 22, 10)
    ∷ (22, 23, 22, 10)
    ∷ (23, 22, 23, 11)
    ∷ (23, 25, 23, 11)
    ∷ (23, 25, 23, 11)
    ∷ (23, 25, 23, 11)
    ∷ (23, 25, 23, 11)
    ∷ (23, 25, 23, 11)
    ∷ (23, 25, 23, 11)
    ∷ (25, 27, 25, 12)
    ∷ (25, 27, 25, 12)
    ∷ (25, 27, 25, 12)
    ∷ (25, 27, 25, 12)
    ∷ (25, 23, 25, 11)
    ∷ (25, 27, 25, 11)
    ∷ (25, 27, 25, 12)
    ∷ (25, 27, 25, 12)
    ∷ (25, 27, 25, 12)
    ∷ (25, 27, 25, 12)
    ∷ (25, 27, 25, 12)
    ∷ (25, 27, 25, 13)
    ∷ (25, 27, 25, 13)
    ∷ (25, 27, 25, 13)
    ∷ (25, 27, 25, 13)
    ∷ (25, 27, 25, 13)
    ∷ (25, 27, 25, 13)
    ∷ (25, 28, 25, 13)
    ∷ (25, 28, 25, 13)
    ∷ (25, 28, 25, 13)
    ∷ (25, 29, 25, 13)
    ∷ (25, 29, 25, 13)
    ∷ (27, 29, 27, 13)
    ∷ (27, 30, 27, 13)
    ∷ (27, 30, 27, 13)
    ∷ (27, 30, 27, 13)
    ∷ (27, 31, 27, 13)
    ∷ (27, 31, 27, 13)
    ∷ (27, 31, 27, 13)
    ∷ (27, 33, 27, 13)
    ∷ (27, 33, 27, 13)
    ∷ (27, 33, 27, 13)
    ∷ (27, 33, 27, 13)
    ∷ (27, 33, 27, 13)
    ∷ (27, 33, 27, 13)
    ∷ (27, 34, 27, 13)
    ∷ (27, 34, 27, 13)
    ∷ (27, 34, 27, 13)
    ∷ (27, 35, 27, 13)
    ∷ (27, 35, 27, 13)
    ∷ (27, 35, 27, 13)
    ∷ (27, 30, 27, 14)
    ∷ (27, 31, 27, 14)
    ∷ (27, 31, 27, 14)
    ∷ (27, 31, 27, 14)
    ∷ (27, 31, 27, 14)
    ∷ (27, 33, 27, 14)
    ∷ (27, 33, 27, 14)
    ∷ (27, 33, 27, 14)
    ∷ (27, 33, 27, 14)
    ∷ (27, 33, 27, 14)
    ∷ (27, 33, 27, 14)
    ∷ (27, 33, 27, 14)
    ∷ (27, 33, 27, 14)
    ∷ (27, 34, 27, 14)
    ∷ (27, 34, 27, 14)
    ∷ (27, 34, 27, 14)
    ∷ (27, 34, 27, 14)
    ∷ (27, 35, 27, 14)
    ∷ (27, 35, 27, 14)
    ∷ (27, 35, 27, 14)
    ∷ (27, 35, 27, 14)
    ∷ (27, 36, 27, 14)
    ∷ (27, 36, 27, 14)
    ∷ (27, 36, 27, 14)
    ∷ (27, 36, 27, 14)
    ∷ (27, 37, 27, 14)
    ∷ (27, 37, 27, 14)
    ∷ (28, 37, 28, 14)
    ∷ (28, 37, 28, 14)
    ∷ (28, 38, 28, 14)
    ∷ (28, 38, 28, 15)
    ∷ (28, 38, 28, 15)
    ∷ (28, 38, 28, 15)
    ∷ (28, 39, 28, 15)
    ∷ (28, 39, 28, 15)
    ∷ (28, 39, 28, 15)
    ∷ (28, 39, 28, 15)
    ∷ []
