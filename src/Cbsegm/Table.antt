-- ===== src/Cbsegm/Table.antt =====
-- The lookups in the table of code block sizes.
use vbbu.Prelude.{
  ℕ, zero, suc, ◌≤◌, ◌<◌, ◌≡◌, inl, inr, refl, ap, ◌∙◌, Bool, true, false, Option, none, some, List,
  [], ◌∷◌, get_elem?, ltb, leb, ◌&&◌, arith, Bool-cases, ltb→lt, ltb→ge, length,
}
use vbbu.Prelude.Check.{all_below, all_below_sound}
use vbbu.Cbsegm.{tc_cb_sizes, size_search, cbindex, cbsize, max_len_cb}

search_next :
    (y : ℕ) (xs : List ℕ) (v : ℕ) → ltb y v ≡ true → size_search (y ∷ xs) v ≡ suc (size_search xs v)
unfolding size_search
search_next y xs v small = rw small refl

search_here : (y : ℕ) (xs : List ℕ) (v : ℕ) → ltb y v ≡ false → size_search (y ∷ xs) v ≡ 0
unfolding size_search
search_here y xs v large = rw large refl

-- The loop stops at the first size that is large enough.
size_search-stops :
    (xs : List ℕ) (v m x : ℕ)
    → get_elem? xs m ≡ some x
    → v ≤ x
    → (k : ℕ) × (get_elem? xs (size_search xs v) ≡ some k) × (v ≤ k) × (size_search xs v ≤ m)
size_search-stops [] v m x e h = absurd (ground arith)
size_search-stops (y ∷ xs) v m x e h = elim (Bool-cases (ltb y v)) [
  | inl small ↦
      let (m', e', le) = tail_index m e (ltb→lt y v small) in
      let (k, found, big, near) = size_search-stops xs v m' x e' h in
      (k, rw (search_next y xs v small) found, big, omega (arith, search_next y xs v small))
  | inr large ↦ (
    y,
    rw (search_here y xs v large) refl,
    ltb→ge y v large,
    omega (arith, search_here y xs v large),
  )
]
  where
    tail_index :
        (m : ℕ)
        → get_elem? (y ∷ xs) m ≡ some x
        → y < v
        → (m' : ℕ) × (get_elem? xs m' ≡ some x) × (suc m' ≤ m)
    tail_index zero e small = absurd (ground arith)
    tail_index (suc m) e small = (m, e, omega arith)

size_search-passes :
    (xs : List ℕ) (v i y : ℕ) → i < size_search xs v → get_elem? xs i ≡ some y → y < v
size_search-passes [] v i y h e = absurd (ground arith)
size_search-passes (x ∷ xs) v zero y h e = elim (Bool-cases (ltb x v)) [
  | inl small ↦ ground arith
  | inr large ↦ absurd (omega (arith, search_here x xs v large))
]
size_search-passes (x ∷ xs) v (suc i) y h e = elim (Bool-cases (ltb x v)) [
  | inl small ↦ size_search-passes xs v i y (omega (arith, search_next x xs v small)) e
  | inr large ↦ absurd (omega (arith, search_here x xs v large))
]

abbrev all_upto : List ℕ → ℕ → Bool
all_upto [] bound = true
all_upto (x ∷ xs) bound = leb x bound && all_upto xs bound

size_search-end :
    (xs : List ℕ) (v bound : ℕ)
    → all_upto xs bound ≡ true
    → bound < v
    → size_search xs v ≡ length xs
unfolding size_search
size_search-end [] v bound h above = refl
size_search-end (x ∷ xs) v bound h above =
    let small : ltb x v ≡ true = ground arith in
    let rest : all_upto xs bound ≡ true = ground arith in
    search_next x xs v small ∙ ap suc (size_search-end xs v bound rest above)

-- Every size of the table is one of 40 to 6144.
abbrev entry_test : ℕ → Bool
entry_test i = elim (get_elem? tc_cb_sizes i) [
  | none ↦ false
  | some k ↦ leb 40 k && leb k max_len_cb
]

entry_table : all_below 188 entry_test ≡ true
unfolding all_below tc_cb_sizes
entry_table = refl

entry_bounds : (i k : ℕ) → i < 188 → get_elem? tc_cb_sizes i ≡ some k → (40 ≤ k) × (k ≤ max_len_cb)
entry_bounds i k h e =
    let t : entry_test i ≡ true = all_below_sound 188 entry_test i entry_table h in
    let t' : (leb 40 k && leb k max_len_cb) ≡ true = rw (e, entry_test) at t in ground arith

last_size : get_elem? tc_cb_sizes 187 ≡ some 6144
unfolding tc_cb_sizes
last_size = refl

table_upto : all_upto tc_cb_sizes 6144 ≡ true
unfolding tc_cb_sizes
table_upto = refl

length-tc_cb_sizes : length tc_cb_sizes ≡ 188
unfolding tc_cb_sizes
length-tc_cb_sizes = refl

pub cbsize_bounds : (i k : ℕ) → cbsize i ≡ some k → (i < 188) × (40 ≤ k) × (k ≤ max_len_cb)
unfolding cbsize
cbsize_bounds i k e = elim (Bool-cases (ltb i 188)) [
  | inl inside ↦
      let found : get_elem? tc_cb_sizes i ≡ some k = ground arith in
      let h = ltb→lt i 188 inside in
      let (least, most) = entry_bounds i k h found in (h, least, most)
  | inr outside ↦ absurd (ground arith)
]

pub cbsize_found : (i : ℕ) → i < 188 → (k : ℕ) × (cbsize i ≡ some k)
unfolding cbsize
cbsize_found i h = go (get_elem? tc_cb_sizes i) refl
  where
    go : (o : Option ℕ) → get_elem? tc_cb_sizes i ≡ o → (k : ℕ) × (cbsize i ≡ some k)
    go none e = absurd (ground (arith, lost e))
      where
        lost : get_elem? tc_cb_sizes i ≡ none → false ≡ true
        lost e = rw (e, entry_test) at (all_below_sound 188 entry_test i entry_table h)
    go (some k) e = (k, ground arith)

pub cbsize_entry : (i y : ℕ) → cbsize i ≡ some y → get_elem? tc_cb_sizes i ≡ some y
unfolding cbsize
cbsize_entry i y e = ground arith

-- Up to 6144 bits, `srslte_cbsegm_cbindex` finds the index of a size that is large enough, and
-- each size before it in the table is too small.
pub cbindex-least :
    (long_cb : ℕ)
    → long_cb ≤ max_len_cb
    → (j : ℕ) × (k : ℕ) × (cbindex long_cb ≡ some j)
      × (cbsize j ≡ some k)
      × (long_cb ≤ k)
      × ((i y : ℕ) → i < j → cbsize i ≡ some y → y < long_cb)
unfolding cbindex cbsize
cbindex-least v h =
    let (k, e, big, j_le) = size_search-stops tc_cb_sizes v 187 6144 last_size h in
    let j : ℕ = size_search tc_cb_sizes v in
    (
      j,
      k,
      ground arith,
      ground arith,
      big,
      λ i y lt ei. size_search-passes tc_cb_sizes v i y lt (cbsize_entry i y ei),
    )

-- Above 6144 bits it fails.
cbindex-none : (long_cb : ℕ) → max_len_cb < long_cb → cbindex long_cb ≡ none
unfolding cbindex
cbindex-none v h =
    let e = size_search-end tc_cb_sizes v 6144 table_upto h ∙ length-tc_cb_sizes in rw e refl
