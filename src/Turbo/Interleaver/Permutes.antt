-- ===== src/Turbo/Interleaver/Permutes.antt =====
-- The tables that `srslte_tc_interl_LTE_gen` leaves are inverse to each other.
use native.Mathlib.Nat.{mod-lt, mod-eq_of_lt}
use vbbu.Prelude.{
  ℕ, zero, suc, ◌+◌, ◌-◌, ◌*◌, ◌%◌, ◌^◌, ◌≤◌, ◌<◌, ◌≡◌, inl, inr, refl, ap, ◌∙◌, Bool, true, false,
  Option, some, get_or, length, none, ge→ltb, ==_iff, ◌==◌, Bool-cases, arith, length-set,
  get_or-set, get_or-set_other, success,
}
use vbbu.Prelude.Check.{all_below, all_below_sound}
use vbbu.Cbsegm.{tc_cb_sizes, size_search, cbsize, cbindex}
use vbbu.Turbo.Interleaver.{Interl, store, gen_loop, lte_gen, position, f1_list, f2_list}
use vbbu.Turbo.Interleaver.Table.{Row, cbsize-Row, cbsize-index, position_inj}

-- The tables have room for `k` positions.
pub record HasRoom (k : ℕ) (h : Interl) : Type 0 where
  pub forward_room : k ≤ length h.forward
  pub reverse_room : k ≤ length h.reverse

-- The first `n` positions are stored: each is below `k`, and `reverse` leads back from it.
unfoldable pub IsFilled : ℕ → ℕ → Interl → Type 0
IsFilled k n h =
    (i : ℕ) → i < n → (get_or h.forward i 0 < k) × (get_or h.reverse (get_or h.forward i 0) 0 ≡ i)

pub store-HasRoom : (k : ℕ) (h : Interl) (i j : ℕ) → HasRoom k h → HasRoom k (store h i j)
unfolding store
store-HasRoom k h i j room = record {
  forward_room = omega (arith, length-set h.forward i (j % 2 ^ 16), room.forward_room);
  reverse_room = omega (arith, length-set h.reverse j (i % 2 ^ 16), room.reverse_room);
}

module _ {f1 f2 k : ℕ} (r : Row k f1 f2) where
  -- What the loop keeps with `i` positions stored.
  record Stored (i : ℕ) (h : Interl) : Type 0 where
    room : HasRoom k h
    forwards : (j : ℕ) → j < i → get_or h.forward j 0 ≡ position f1 f2 k j
    backwards : (j : ℕ) → j < i → get_or h.reverse (position f1 f2 k j) 0 ≡ j

  position-lt : (i : ℕ) → position f1 f2 k i < k
  unfolding position
  position-lt i = mod-lt _ (omega (arith, r.k_large))

  store-forwards :
      (h : Interl) (i : ℕ)
      → i < k
      → Stored i h
      → (j : ℕ) → j < i + 1
      → get_or (store h i (position f1 f2 k i)).forward j 0 ≡ position f1 f2 k j
  unfolding store
  store-forwards h i inside s j below = elim (Bool-cases (j == i)) [
    | inl t ↦
        let e : j ≡ i = ground arith in
        rw e (
          get_or-set h.forward i _ 0 (omega (arith, s.room.forward_room))
          ∙ mod-eq_of_lt {n = position f1 f2 k i} {m = 2 ^ 16}
              (omega (arith, position-lt i, r.k_small)))
    | inr t ↦
        get_or-set_other h.forward i j _ 0 (λ (e : i ≡ j). ground arith)
        ∙ s.forwards j (ground arith)
  ]

  store-backwards :
      (h : Interl) (i : ℕ)
      → i < k
      → Stored i h
      → (j : ℕ) → j < i + 1
      → get_or (store h i (position f1 f2 k i)).reverse (position f1 f2 k j) 0 ≡ j
  unfolding store
  store-backwards h i inside s j below = elim (Bool-cases (j == i)) [
    | inl t ↦
        let e : j ≡ i = ground arith in
        rw e (
          get_or-set h.reverse (position f1 f2 k i) _ 0
            (omega (arith, s.room.reverse_room, position-lt i))
          ∙ mod-eq_of_lt {n = i} {m = 2 ^ 16} (omega (arith, r.k_small)))
    | inr t ↦
        get_or-set_other h.reverse (position f1 f2 k i) (position f1 f2 k j) _ 0
          (λ (e : position f1 f2 k i ≡ position f1 f2 k j).
            let same = position_inj f1 f2 k i j r inside (omega arith) e in ground arith)
        ∙ s.backwards j (ground arith)
  ]

  store-Stored :
      (h : Interl) (i : ℕ) → i < k → Stored i h → Stored (i + 1) (store h i (position f1 f2 k i))
  store-Stored h i inside s = record {
    room = store-HasRoom k h i _ s.room;
    forwards = store-forwards h i inside s;
    backwards = store-backwards h i inside s;
  }

  gen_loop-Stored :
      (n i : ℕ) (h : Interl) → i + n ≡ k → Stored i h → Stored k (gen_loop f1 f2 k n i h)
  unfolding gen_loop
  gen_loop-Stored zero i h e s = let e' : i ≡ k = omega arith in rw e' at s
  gen_loop-Stored (suc n) i h e s =
      gen_loop-Stored n (i + 1) (store h i (position f1 f2 k i)) (omega arith)
        (store-Stored h i (omega arith) s)

  position-zero : position f1 f2 k 0 ≡ 0
  unfolding position
  position-zero =
      ap (λ (t : ℕ). t % 2 ^ 64 % k) none_set
      ∙ mod-eq_of_lt {n = 0} {m = k} (omega (arith, r.k_large))
    where
      none_set : f1 * 0 + f2 * 0 * 0 ≡ 0
      none_set = omega arith

  start-Stored : (h : Interl) → HasRoom k h → Stored 1 (store h 0 0)
  start-Stored h room = rw position-zero at (
      store-Stored h 0 (omega (arith, r.k_large)) (record {
        room = room;
        forwards = λ j l. absurd (omega arith);
        backwards = λ j l. absurd (omega arith);
      }))

  Stored-IsFilled : (h : Interl) → Stored k h → IsFilled k k h
  unfolding IsFilled
  Stored-IsFilled h s i l = rw (s.forwards i l) (position-lt i, s.backwards i l)

is_index : ℕ → Option ℕ → Bool
is_index index none = false
is_index index (some j) = j == index

is_index-some : (index : ℕ) (o : Option ℕ) → is_index index o ≡ true → o ≡ some index
unfolding is_index
is_index-some index none h = cc
is_index-some index (some j) h = ap some ((==_iff j index).0 h)

index_ok : ℕ → Bool
index_ok index = is_index index (cbindex (get_or tc_cb_sizes index 0))

indices_ok : all_below 188 index_ok ≡ true
unfolding all_below index_ok is_index cbindex size_search tc_cb_sizes
indices_ok = refl

-- The index of a code block size is the one at which the table holds it.
pub cbindex-cbsize : (index k : ℕ) → cbsize index ≡ some k → cbindex k ≡ some index
unfolding index_ok
cbindex-cbsize index k e =
    let (small, at) = cbsize-index index k e in
    rw at at (is_index-some index _ (all_below_sound 188 index_ok index indices_ok small))

-- For each code block size `k`, with tables that have room for it, `srslte_tc_interl_LTE_gen`
-- succeeds, the first `k` entries of `forward` are below `k`, and `reverse` takes the entry at `i`
-- back to `i`: no position is used twice.
pub lte_gen-IsFilled :
    (h : Interl) (index k : ℕ)
    → cbsize index ≡ some k
    → k ≤ h.max_long_cb
    → HasRoom k h
    → ((lte_gen h k).0 ≡ success) × IsFilled k k (lte_gen h k).1
unfolding lte_gen
lte_gen-IsFilled h index k e fits room =
    rw (ge→ltb h.max_long_cb k fits) (rw (cbindex-cbsize index k e) (refl, filled))
  where
    filled :
        IsFilled k k
          (gen_loop (get_or f1_list index 0) (get_or f2_list index 0) k (k - 1) 1 (store h 0 0))
    filled =
        let r = cbsize-Row index k e in
        Stored-IsFilled r _ (
          gen_loop-Stored r (k - 1) 1 (store h 0 0) (omega (arith, r.k_large))
            (start-Stored r h room))
