-- ===== src/RmConv/Follow.antt =====
-- The receiver of srslte/lib/fec/rm_conv.c puts each value where the sender took it from.
use vbbu.Prelude.{
  ℕ, zero, suc, ◌+◌, ◌*◌, ◌/◌, ◌%◌, ◌≤◌, ◌<◌, ◌≡◌, ◌≢◌, ◌⊎◌, inl, inr, refl, sym, ◌∙◌, true, false,
  Bool-cases, some, List, [], ◌∷◌, map, get_or, set, drop, length, length-set, get_or-set,
  get_or-set_other, ltb, ◌==◌, arith,
}
use native.Mathlib.Decide.{dec_lt, ℕ_discrete}
use mathlib.Core.Option.{some-injective}
use vbbu.Prelude.Options.{>>=-eq-some}
use vbbu.Turbo.Coder.{tx_null}
use vbbu.RmConv.{collect, step, cell, Soft, combine, spread_loop}
use vbbu.RmConv.Circular.{collect-no_fuel, collect-null, collect-entry, step-lt}
use vbbu.RmConv.Counts.{entries, entries-drop, entries-drop_null, entries-drop_entry}

-- What the receiver relies on: a received value speaks for the bit that was sent, a sum of such
-- values does too, and none of them is the null value.
pub record IsReadable {ℓ} {A : Type ℓ} (soft : Soft A) (llr : ℕ → A) (Says : ℕ → A → Type 0)
    : Type ℓ where
  pub says : (b : ℕ) → b < 2 → Says b (llr b)
  pub says_add : (b : ℕ) (x y : A) → Says b x → Says b y → Says b (soft.add x y)
  pub kept : (b : ℕ) (x : A) → Says b x → soft.is_null x ≡ false
  pub null_lem : soft.is_null soft.rx_null ≡ true

module _ {ℓ} {A : Type ℓ} (soft : Soft A) (llr : ℕ → A) (Says : ℕ → A → Type 0)
    (r : IsReadable soft llr Says) (tx : List ℕ) (nrows ndummy : ℕ)
    (size_eq : length tx ≡ 3 * (nrows * 32))
    (same : (p : ℕ)
      → p < 3 * (nrows * 32)
      → (get_or tx p 0 == tx_null)
        ≡ ltb (cell (p % (nrows * 32) / nrows) (p % (nrows * 32) % nrows)) ndummy)
    (bits : (p : ℕ)
      → p < 3 * (nrows * 32)
      → (get_or tx p 0 == tx_null) ≡ false
      → get_or tx p 0 < 2) where
  abbrev pub size : ℕ
  size = 3 * (nrows * 32)

  -- A place is empty, or speaks for the entry that the sender has there.
  unfoldable pub IsGood : List A → ℕ → Type 0
  IsGood tmp p =
      (soft.is_null (get_or tmp p soft.rx_null) ≡ true)
      ⊎ Says (get_or tx p 0) (get_or tmp p soft.rx_null)

  pub record Follows (k j : ℕ) (tmp tmp' : List A) : Type ℓ where
    pub good : (p : ℕ) → p < size → IsGood tmp' p
    pub stays :
        (p : ℕ)
        → p < size
        → soft.is_null (get_or tmp p soft.rx_null) ≡ false
        → soft.is_null (get_or tmp' p soft.rx_null) ≡ false
    pub reached :
        entries (drop j tx) ≤ k
        → (p : ℕ) → j ≤ p
        → p < size
        → (get_or tx p 0 == tx_null) ≡ false
        → soft.is_null (get_or tmp' p soft.rx_null) ≡ false

  combine-says :
      (b : ℕ) (old x : A)
      → (soft.is_null old ≡ true) ⊎ Says b old
      → Says b x
      → Says b (combine soft old x)
  unfolding combine
  combine-says b old x (inl e) h = rw e h
  combine-says b old x (inr s) h = rw (r.kept b old s, r.kept b x h) (r.says_add b old x s h)

  spread_loop-nil :
      (fuel j : ℕ) (tmp : List A) → spread_loop soft fuel nrows ndummy [] j tmp ≡ some tmp
  unfolding spread_loop
  spread_loop-nil zero j tmp = refl
  spread_loop-nil (suc fuel) j tmp = refl

  spread_loop-null :
      (fuel j : ℕ) (input tmp : List A)
      → ltb (cell (j % (nrows * 32) / nrows) (j % (nrows * 32) % nrows)) ndummy ≡ true
      → spread_loop soft (suc fuel) nrows ndummy input j tmp
        ≡ spread_loop soft fuel nrows ndummy input (step size j) tmp
  unfolding spread_loop
  spread_loop-null fuel j [] tmp e = sym (spread_loop-nil fuel (step size j) tmp)
  spread_loop-null fuel j (x ∷ input) tmp e = rw (e, spread_loop)

  spread_loop-entry :
      (fuel j : ℕ) (x : A) (input tmp : List A)
      → ltb (cell (j % (nrows * 32) / nrows) (j % (nrows * 32) % nrows)) ndummy ≡ false
      → spread_loop soft (suc fuel) nrows ndummy (x ∷ input) j tmp
        ≡ spread_loop soft fuel nrows ndummy input
            (step size j)
            (set tmp j (combine soft (get_or tmp j soft.rx_null) x))
  unfolding spread_loop
  spread_loop-entry fuel j x input tmp e = rw (e, spread_loop)

  -- Without an entry at `j` nothing is stored there.
  follow_null :
      (k j : ℕ) (tmp tmp' : List A)
      → j < size
      → (get_or tx j 0 == tx_null) ≡ true
      → Follows k (step size j) tmp tmp'
      → Follows k j tmp tmp'
  unfolding step
  follow_null k j tmp tmp' hj null f = record {
    good = f.good;
    stays = f.stays;
    reached = λ few p le lt full. elim (dec_lt j p) [
      | yes after ↦
          let e : (j + 1 == size) ≡ false = ground arith in
          let e' : j + 1 ≡ suc j = omega arith in
          let few' : entries (drop (suc j) tx) ≤ k =
            omega (arith, entries-drop_null tx j null (omega (arith, size_eq))) in
          (rw e' at (rw e at f.reached)) few' p after lt full
      | no here ↦ let e : p ≡ j = omega arith in cc (rw e at full)
    ];
  }

  module _ (k j : ℕ) (x : A) (tmp tmp' : List A) (hj : j < size) (len : length tmp ≡ size)
      (full : (get_or tx j 0 == tx_null) ≡ false) (heard : Says (get_or tx j 0) x)
      (good : (p : ℕ) → p < size → IsGood tmp p) where
    abbrev stored : List A
    stored = set tmp j (combine soft (get_or tmp j soft.rx_null) x)

    stored-says : Says (get_or tx j 0) (get_or stored j soft.rx_null)
    unfolding IsGood
    stored-says =
        rw
          (get_or-set tmp j (combine soft (get_or tmp j soft.rx_null) x) soft.rx_null
            (omega (arith, len)))
          (combine-says (get_or tx j 0) (get_or tmp j soft.rx_null) x (good j hj) heard)

    stored-other : (p : ℕ) → j ≢ p → get_or stored p soft.rx_null ≡ get_or tmp p soft.rx_null
    stored-other p ne =
        get_or-set_other tmp j p (combine soft (get_or tmp j soft.rx_null) x) soft.rx_null ne

    stored-IsGood : (p : ℕ) → p < size → IsGood stored p
    unfolding IsGood
    stored-IsGood p h = elim (ℕ_discrete j p) [
      | yes e ↦ rw⁻¹ e (inr stored-says)
      | no ne ↦ rw (stored-other p ne) (good p h)
    ]

    follow_entry : Follows k (step size j) stored tmp' → Follows (suc k) j tmp tmp'
    unfolding step
    follow_entry f =
        let here : soft.is_null (get_or tmp' j soft.rx_null) ≡ false =
          f.stays j hj (r.kept (get_or tx j 0) (get_or stored j soft.rx_null) stored-says) in
        record {
          good = f.good;
          stays = λ p lt kept. elim (ℕ_discrete j p) [
            | yes e ↦ rw⁻¹ e here
            | no ne ↦ f.stays p lt (rw (stored-other p ne) kept)
          ];
          reached = λ few p le lt entry. elim (dec_lt j p) [
            | yes after ↦
                let e : (j + 1 == size) ≡ false = ground arith in
                let e' : j + 1 ≡ suc j = omega arith in
                let few' : entries (drop (suc j) tx) ≤ k =
                  omega (arith, entries-drop_entry tx j full (omega (arith, size_eq))) in
                (rw e' at (rw e at f.reached)) few' p after lt entry
            | no past ↦ let e : p ≡ j = omega arith in rw e here
          ];
        }

  pub follow :
      (fuel k j : ℕ) (out : List ℕ) (tmp : List A)
      → j < size
      → length tmp ≡ size
      → ((p : ℕ) → p < size → IsGood tmp p)
      → collect fuel tx size k j ≡ some out
      → (tmp' : List A) × (spread_loop soft fuel nrows ndummy (map llr out) j tmp ≡ some tmp')
        × Follows k j tmp tmp'
  follow fuel zero j out tmp hj len good h =
      let e : [] ≡ out = some-injective _ _ (unfold collect in h) in
      (
        tmp,
        rw⁻¹ e (spread_loop-nil fuel j tmp),
        record {
          good = good;
          stays = λ p lt kept. kept;
          reached = λ few p le lt full.
              absurd (omega (arith, entries-drop tx j p le (omega (arith, size_eq)) full));
        },
      )
  follow zero (suc k) j out tmp hj len good h = cc (collect-no_fuel tx size k j)
  follow (suc fuel) (suc k) j out tmp hj len good h = elim (Bool-cases (get_or tx j 0 == tx_null)) [
    | inl null ↦
        let dummy = sym (same j hj) ∙ null in
        let rest =
          follow fuel (suc k) (step size j) out tmp (step-lt size j hj) len good
            (sym (collect-null fuel tx size k j null) ∙ h) in
        (
          rest.0,
          spread_loop-null fuel j (map llr out) tmp dummy ∙ rest.1,
          follow_null (suc k) j tmp rest.0 hj null rest.2,
        )
    | inr full ↦
        let t : ℕ = get_or tx j 0 in
        let place = sym (same j hj) ∙ full in
        let heard = r.says t (bits j hj full) in
        let split =
          >>=-eq-some (collect fuel tx size k (step size j)) (λ out. some (t ∷ out))
            (sym (collect-entry fuel tx size k j full) ∙ h) in
        let e : t ∷ split.0 ≡ out = some-injective _ _ split.2 in
        let rest =
          follow fuel k (step size j) split.0
            (set tmp j (combine soft (get_or tmp j soft.rx_null) (llr t))) (step-lt size j hj)
            (length-set tmp j (combine soft (get_or tmp j soft.rx_null) (llr t)) ∙ len)
            (stored-IsGood k j (llr t) tmp tmp hj len full heard good) split.1 in
        rw⁻¹ e (
          rest.0,
          spread_loop-entry fuel j (llr t) (map llr split.0) tmp place ∙ rest.1,
          follow_entry k j (llr t) tmp rest.0 hj len full heard good rest.2,
        )
  ]
