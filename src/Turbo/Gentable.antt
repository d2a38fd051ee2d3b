-- ===== src/Turbo/Gentable.antt =====
-- The tables `tcod_per_fw` that `srslte_tcod_gentable` of srslte/lib/fec/turbocoder.c fills.
use native.Mathlib.Nat.{add-zero, zero-add}
use vbbu.Prelude.{
  ℕ, zero, suc, ◌+◌, ◌-◌, ◌^◌, ◌≤◌, ◌<◌, ◌≡◌, refl, sym, ap, ◌∙◌, Option, none, some, List, [], ◌∷◌,
  ◌++◌, get_elem?, get_or, take, replicate, length, length-take, length-append, length-replicate,
  arith, ge→ltb, get_or-append_left, get_or-take, Status, success, error,
}
use vbbu.Cbsegm.{cbsize}
use vbbu.Cbsegm.Table.{cbsize_found, cbsize_bounds}
use vbbu.Turbo.Interleaver.{Interl, init, lte_gen, gen_loop, store, position}
use vbbu.Turbo.Interleaver.Permutes.{
  HasRoom, IsFilled, store-HasRoom, lte_gen-IsFilled, cbindex-cbsize,
}

-- `tcod_per_fw[len]`: the first positions are those of the interleaver, and the rest are 0.
abbrev pub row : Interl → ℕ → List ℕ
row h long_cb = take long_cb h.forward ++ replicate (6144 - long_cb) 0

-- `srslte_cbsegm_cbsize` as a uint32_t.
abbrev size_word : Option ℕ → ℕ
size_word none = 2 ^ 32 - 1
size_word (some k) = k

-- The `return` of a failed round.
abbrev unless_failed : Status → List (List ℕ) → List (List ℕ)
unless_failed success rows = rows
unless_failed error rows = []

-- The loop of `srslte_tcod_gentable` with `n` rounds left, from `len` on: the rows that are filled.
unfoldable pub gen_rows : ℕ → ℕ → Interl → List (List ℕ)
gen_rows zero len h = []
gen_rows (suc n) len h =
    let long_cb = size_word (cbsize len) in
    let generated = lte_gen h long_cb in
    let rest = gen_rows n (len + 1) generated.1 in
    unless_failed generated.0 (row generated.1 long_cb ∷ rest)

-- `srslte_tcod_gentable`; `junk` is what the allocated tables of the interleaver hold.
unfoldable pub gentable : ℕ → List (List ℕ)
gentable junk = gen_rows 188 0 (init junk 6144)

gen_loop-HasRoom :
    (m f1 f2 k n i : ℕ) (h : Interl) → HasRoom m h → HasRoom m (gen_loop f1 f2 k n i h)
unfolding gen_loop
gen_loop-HasRoom m f1 f2 k zero i h room = room
gen_loop-HasRoom m f1 f2 k (suc n) i h room =
    gen_loop-HasRoom m f1 f2 k n (i + 1) _ (store-HasRoom m h i _ room)

gen_loop-max : (f1 f2 k n i : ℕ) (h : Interl) → (gen_loop f1 f2 k n i h).max_long_cb ≡ h.max_long_cb
unfolding gen_loop store
gen_loop-max f1 f2 k zero i h = refl
gen_loop-max f1 f2 k (suc n) i h = gen_loop-max f1 f2 k n (i + 1) (store h i (position f1 f2 k i))

-- The tables of the interleaver keep their room for 6144 positions.
record IsLarge (h : Interl) : Type 0 where
  room : HasRoom 6144 h
  max_eq : h.max_long_cb ≡ 6144

init-IsLarge : (junk : ℕ) → IsLarge (init junk 6144)
unfolding init
init-IsLarge junk = record {
  room = record {
    forward_room = omega (arith, length-replicate 6144 junk);
    reverse_room = omega (arith, length-replicate 6144 junk);
  };
  max_eq = refl;
}

large_room : (k : ℕ) (h : Interl) → k ≤ 6144 → IsLarge h → HasRoom k h
large_room k h le l = record {
  forward_room = omega (arith, l.room.forward_room);
  reverse_room = omega (arith, l.room.reverse_room);
}

lte_gen-IsLarge :
    (h : Interl) (index k : ℕ) → cbsize index ≡ some k → IsLarge h → IsLarge (lte_gen h k).1
unfolding lte_gen store
lte_gen-IsLarge h index k e l =
    rw (ge→ltb h.max_long_cb k (omega (arith, cbsize_bounds index k e, l.max_eq))) (
      rw (cbindex-cbsize index k e) (record {
        room = gen_loop-HasRoom 6144 _ _ k (k - 1) 1 _ (store-HasRoom 6144 h 0 0 l.room);
        max_eq = gen_loop-max _ _ k (k - 1) 1 (store h 0 0) ∙ l.max_eq;
      }))

-- The first `k` entries of a row are a permutation of the numbers below `k`.
pub record Permutes (k : ℕ) (per : List ℕ) : Type 0 where
  pub entries : k ≤ length per
  pub inside : (i : ℕ) → i < k → get_or per i 0 < k
  pub distinct : (i j : ℕ) → i < k → j < k → get_or per i 0 ≡ get_or per j 0 → i ≡ j

row-entry :
    (h : Interl) (k i : ℕ)
    → HasRoom 6144 h
    → k ≤ 6144
    → i < k
    → get_or (row h k) i 0 ≡ get_or h.forward i 0
row-entry h k i room le inside =
    get_or-append_left (take k h.forward) _ i 0
      (omega (arith, length-take k h.forward, room.forward_room))
    ∙ get_or-take k i h.forward 0 inside

row-Permutes :
    (h : Interl) (k : ℕ) → HasRoom 6144 h → k ≤ 6144 → IsFilled k k h → Permutes k (row h k)
unfolding IsFilled
row-Permutes h k room le filled = record {
  entries = omega (
    arith,
    length-append (take k h.forward) (replicate (6144 - k) 0),
    length-take k h.forward,
    room.forward_room,
  );
  inside = λ i l. rw (row-entry h k i room le l) (filled i l).0;
  distinct = λ i j li lj same.
      let same' = rw (row-entry h k i room le li, row-entry h k j room le lj) at same in
      sym (filled i li).1 ∙ ap (λ (t : ℕ). get_or h.reverse t 0) same' ∙ (filled j lj).1;
}

gen_rows-step :
    (n len k : ℕ) (h : Interl)
    → cbsize len ≡ some k
    → (lte_gen h k).0 ≡ success
    → gen_rows (suc n) len h ≡ row (lte_gen h k).1 k ∷ gen_rows n (len + 1) (lte_gen h k).1
unfolding gen_rows
gen_rows-step n len k h e done = rw (e, gen_rows) (rw done refl)

-- A row of the tables, with the size that it is for.
IsRowAt : ℕ → List (List ℕ) → ℕ → Type 0
IsRowAt index rows j =
    (k : ℕ) × (per : List ℕ) × (cbsize index ≡ some k)
    × (get_elem? rows j ≡ some per)
    × Permutes k per

gen_rows-IsRowAt :
    (n len j : ℕ) (h : Interl)
    → IsLarge h
    → len + n ≤ 188
    → j < n
    → IsRowAt (len + j) (gen_rows n len h) j
unfolding IsRowAt
gen_rows-IsRowAt zero len j h l bound below = absurd (omega arith)
gen_rows-IsRowAt (suc n) len zero h l bound below =
    let (k, e) = cbsize_found len (omega arith) in
    let bounds = cbsize_bounds len k e in
    let small : k ≤ 6144 = omega arith in
    let (done, filled) =
      lte_gen-IsFilled h len k e (omega (arith, l.max_eq)) (large_room k h small l) in
    rw (add-zero len) (
      rw (gen_rows-step n len k h e done) (
        k,
        row (lte_gen h k).1 k,
        e,
        refl,
        row-Permutes (lte_gen h k).1 k (lte_gen-IsLarge h len k e l).room small filled,
      ))
gen_rows-IsRowAt (suc n) len (suc j) h l bound below =
    let (k, e) = cbsize_found len (omega arith) in
    let bounds = cbsize_bounds len k e in
    let (done, filled) =
      lte_gen-IsFilled h len k e (omega (arith, l.max_eq)) (large_room k h (omega arith) l) in
    let next : len + 1 + j ≡ len + suc j = omega arith in
    rw (gen_rows-step n len k h e done) (
      rw next at (
        gen_rows-IsRowAt n (len + 1) j (lte_gen h k).1 (lte_gen-IsLarge h len k e l) (omega arith)
          (omega arith)))

-- `srslte_tcod_gentable` fills a row for each of the 188 code block sizes, whatever the allocated
-- memory holds, and its first entries are a permutation of the positions of the block: each is
-- inside the block, and no two are the same.
pub gentable-Permutes :
    (junk index : ℕ)
    → index < 188
    → (k : ℕ) × (per : List ℕ) × (cbsize index ≡ some k)
      × (get_elem? (gentable junk) index ≡ some per)
      × Permutes k per
unfolding gentable IsRowAt init
gentable-Permutes junk index h =
    rw (zero-add index) at
      (gen_rows-IsRowAt 188 0 index (init junk 6144) (init-IsLarge junk) (omega arith) h)
