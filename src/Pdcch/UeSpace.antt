-- ===== src/Pdcch/UeSpace.antt =====
-- The candidates of one search space of srslte/lib/phch/pdcch.c, level by level.
use native.Mathlib.Nat.{mod-lt}
use mathlib.Core.Path.{subst}
use vbbu.Prelude.{
  ℕ, zero, suc, ◌+◌, ◌*◌, ◌/◌, ◌%◌, ◌^◌, ◌≤◌, ◌<◌, ◌≡◌, ◌≢◌, ◌⊎◌, inl, inr, refl, sym, ap, ◌∙◌, min,
  Bool-cases, List, [], ◌∷◌, ◌++◌, get_or, length, length-append, leb, ltb, ltb→lt, ◌&&◌,
  if◌then◌else◌, arith,
}
use vbbu.Dci.Dispatch.Location.{Location}
use vbbu.Pdcch.{s_table, ue_store, ue_level, ue_levels}
use vbbu.Pdcch.Candidates.{
  All, Distinct, Fits, IsSearchSpace, All-append, All-map, Distinct-append, fits, cancel, mod-apart,
}

module _ (nof_cce max_candidates offset : ℕ) where
  unfoldable pub place : ℕ → ℕ → ℕ
  place l i = 2 ^ l * ((offset + i) % (nof_cce / 2 ^ l))

  -- A candidate of a higher level, or of the first `i` of level `l`.
  pub IsPast : ℕ → ℕ → Location → Type 0
  IsPast l i x = (l < x.l) ⊎ ((k : ℕ) × (k < i) × (x.l ≡ l) × (x.ncce ≡ place l k))

  pub record IsSpace (l i : ℕ) (c : List Location) : Type 0 where
    room : length c ≤ max_candidates
    fit : All (Fits nof_cce) c
    past : All (IsPast l i) c
    distinct : Distinct c

  IsPast-later : (l i : ℕ) (x : Location) → IsPast l i x → IsPast l (i + 1) x
  unfolding IsPast
  IsPast-later l i x (inl h) = inl h
  IsPast-later l i x (inr (k, hk, e, e')) = inr (k, omega arith, e, e')

  pub later : {l i : ℕ} {c : List Location} → IsSpace l i c → IsSpace l (i + 1) c
  later {l} {i} {c} s = record {
    room = s.room;
    fit = s.fit;
    past = All-map (IsPast l i) (IsPast l (i + 1)) c (IsPast-later l i) s.past;
    distinct = s.distinct;
  }

  -- A candidate that is past is another one than the next.
  next-ne :
      (l i : ℕ) (x : Location)
      → l ≤ 3
      → i < nof_cce / 2 ^ l
      → IsPast l i x
      → x ≢ record { l = l; ncce = place l i }
  unfolding IsPast place
  next-ne l i x hl hi (inl h) =
      λ e. let e' : x.l ≡ l = ap (λ (t : Location). t.l) e in absurd (omega arith)
  next-ne l i x hl hi (inr (k, hk, e, e')) = λ p.
      let same : 2 ^ l * ((offset + k) % (nof_cce / 2 ^ l))
          ≡ 2 ^ l * ((offset + i) % (nof_cce / 2 ^ l)) =
        sym e' ∙ ap (λ (t : Location). t.ncce) p in
      mod-apart offset k i (nof_cce / 2 ^ l) hk hi
        (cancel l ((offset + k) % (nof_cce / 2 ^ l)) ((offset + i) % (nof_cce / 2 ^ l)) hl same)

  pub stored :
      (l i : ℕ) (c : List Location)
      → l ≤ 3
      → i < nof_cce / 2 ^ l
      → length c < max_candidates
      → IsSpace l i c
      → IsSpace l (i + 1) (c ++ (record { l = l; ncce = place l i } ∷ []))
  unfolding IsPast place
  stored l i c hl hi room s =
      let x : Location = record { l = l; ncce = place l i } in
      let q : ℕ = (offset + i) % (nof_cce / 2 ^ l) in
      let small : q < nof_cce / 2 ^ l = mod-lt (offset + i) {m = nof_cce / 2 ^ l} (omega arith) in
      record {
        room = omega (arith, length-append c (x ∷ []));
        fit =
            All-append (Fits nof_cce) c x s.fit
              (record { level = hl; aligned = (q, refl); inside = fits l q nof_cce hl small });
        past = All-append (IsPast l (i + 1)) c x (later s).past (inr (i, omega arith, refl, refl));
        distinct =
            Distinct-append c x s.distinct
              (All-map (IsPast l i) (λ y. y ≢ x) c (λ y p. next-ne l i y hl hi p) s.past);
      }

  -- A lower level begins.
  pub lower : (l i : ℕ) (c : List Location) → IsSpace (suc l) i c → IsSpace l 0 c
  unfolding IsPast
  lower l i c s = record {
    room = s.room;
    fit = s.fit;
    past = All-map (IsPast (suc l) i) (IsPast l 0) c (λ x p. inl (higher l i x p)) s.past;
    distinct = s.distinct;
  }
    where
      higher : (l i : ℕ) (x : Location) → IsPast (suc l) i x → l < x.l
      higher l i x (inl h) = omega arith
      higher l i x (inr (k, hk, e, e')) = omega arith

  pub start_space : IsSpace 4 0 []
  start_space = record { room = omega arith; fit = tt; past = tt; distinct = tt }

  ue_store-IsSpace :
      (l i : ℕ) (c : List Location)
      → l ≤ 3
      → i < nof_cce / 2 ^ l
      → IsSpace l i c
      → IsSpace l (i + 1) (ue_store nof_cce max_candidates offset l i c)
  unfolding ue_store place
  ue_store-IsSpace l i c hl hi s =
      elim (Bool-cases (
        ltb (length c) max_candidates
        && leb (2 ^ l * ((offset + i) % (nof_cce / 2 ^ l)) + 2 ^ l) nof_cce)) [
          | inl yes_room ↦
              rw yes_room
                (stored l i c hl hi (ltb→lt (length c) max_candidates (ground (arith, yes_room))) s)
          | inr full ↦ rw full (later s)
        ]

  guarded :
      (l i : ℕ) (c : List Location)
      → l ≤ 3
      → i < nof_cce / 2 ^ l
      → IsSpace l i c
      → IsSpace l
          (i + 1)
          (if ltb (2 ^ l) nof_cce then ue_store nof_cce max_candidates offset l i c else c)
  guarded l i c hl hi s = elim (Bool-cases (ltb (2 ^ l) nof_cce)) [
    | inl more ↦ rw more (ue_store-IsSpace l i c hl hi s)
    | inr whole ↦ rw whole (later s)
  ]

  ue_level-IsSpace :
      (l n i : ℕ) (c : List Location)
      → l ≤ 3
      → i + n ≤ nof_cce / 2 ^ l
      → IsSpace l i c
      → IsSpace l (i + n) (ue_level nof_cce max_candidates offset l n i c)
  unfolding ue_level
  ue_level-IsSpace l zero i c hl h s = let e : i + 0 ≡ i = omega arith in rw e s
  ue_level-IsSpace l (suc n) i c hl h s =
      let e : i + 1 + n ≡ i + suc n = omega arith in
      let c' : List Location =
        if ltb (2 ^ l) nof_cce then ue_store nof_cce max_candidates offset l i c else c in
      subst (λ t. IsSpace l t (ue_level nof_cce max_candidates offset l n (i + 1) c')) e
        (ue_level-IsSpace l n (i + 1) c' hl (omega arith) (guarded l i c hl (omega arith) s))

  pub ue_levels-IsSpace :
      (l i : ℕ) (c : List Location)
      → l ≤ 4
      → IsSpace l i c
      → (i' : ℕ) × IsSpace 0 i' (ue_levels nof_cce max_candidates offset l c)
  unfolding ue_levels
  ue_levels-IsSpace zero i c h s = (i, s)
  ue_levels-IsSpace (suc l) i c h s =
      let n : ℕ = min (nof_cce / 2 ^ l) (get_or s_table l 0 / 2 ^ l) in
      ue_levels-IsSpace l (0 + n) (ue_level nof_cce max_candidates offset l n 0 c) (omega arith)
        (ue_level-IsSpace l n 0 c (omega arith) (omega arith) (lower l i c s))

  pub search_space :
      {l i : ℕ} {c : List Location} → IsSpace l i c → IsSearchSpace nof_cce max_candidates c
  search_space s = record { room = s.room; fit = s.fit; distinct = s.distinct }
