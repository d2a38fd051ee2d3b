-- ===== src/RmConv/Circular.antt =====
-- The bit collection of srslte/lib/fec/rm_conv.c ends: each lap over the buffer finds an entry.
use vbbu.Prelude.{
  ℕ, zero, suc, ◌+◌, ◌-◌, ◌*◌, ◌≤◌, ◌<◌, ◌≡◌, ◌≢◌, inl, inr, refl, ap, true, false, Bool-cases,
  none, some, List, [], ◌∷◌, get_or, length, ltb, ◌==◌, ==_iff, if◌then◌else◌, arith,
}
use vbbu.Prelude.Options.{◌>>=◌}
use vbbu.Turbo.Coder.{tx_null}
use vbbu.RmConv.{collect, step}

-- The number of steps from index `j` to index `p` of a circular buffer.
distance : ℕ → ℕ → ℕ → ℕ
distance size p j = if ltb p j then size + p - j else p - j

pub step-lt : (size j : ℕ) → j < size → step size j < size
unfolding step
step-lt size j h = ground arith

distance-step :
    (size p j : ℕ)
    → p < size
    → j < size
    → j ≢ p
    → distance size p (step size j) + 1 ≡ distance size p j
unfolding distance step
distance-step size p j hp hj ne = ground (arith, ne)

distance-lt : (size p j : ℕ) → p < size → j < size → distance size p j < size
unfolding distance
distance-lt size p j hp hj = ground arith

pub collect-no_fuel : (tmp : List ℕ) (size k j : ℕ) → collect zero tmp size (suc k) j ≡ none
unfolding collect
collect-no_fuel tmp size k j = refl

module _ (fuel : ℕ) (tmp : List ℕ) (size k j : ℕ) where
  pub collect-null :
      (get_or tmp j 0 == tx_null) ≡ true
      → collect (suc fuel) tmp size (suc k) j ≡ collect fuel tmp size (suc k) (step size j)
  unfolding collect
  collect-null e = rw (e, collect)

  pub collect-entry :
      (get_or tmp j 0 == tx_null) ≡ false
      → collect (suc fuel) tmp size (suc k) j
        ≡ (collect fuel tmp size k (step size j) >>= λ out. some (get_or tmp j 0 ∷ out))
  unfolding collect
  collect-entry e = rw (e, collect)

-- With an entry at `p` that is not null, and enough fuel, the loop ends and gives `k` entries.
collect-ends :
    (fuel : ℕ) (tmp : List ℕ) (size p k j : ℕ)
    → p < size
    → j < size
    → get_or tmp p 0 ≢ tx_null
    → k * size + distance size p j + 1 ≤ fuel + size
    → (out : List ℕ) × (collect fuel tmp size k j ≡ some out) × (length out ≡ k)
collect-ends fuel tmp size p zero j hp hj here h = ([], unfold collect in refl, refl)
collect-ends zero tmp size p (suc k) j hp hj here h = absurd (grind arith)
collect-ends (suc fuel) tmp size p (suc k) j hp hj here h =
    elim (Bool-cases (get_or tmp j 0 == tx_null)) [
      | inl null ↦
          let e = collect-null fuel tmp size k j null in
          let apart : j ≢ p =
            λ (q : j ≡ p). here (rw q at ((==_iff (get_or tmp j 0) tx_null).0 null)) in
          rw e (
            collect-ends fuel tmp size p (suc k) (step size j) hp (step-lt size j hj) here
              (omega (arith, distance-step size p j hp hj apart)))
      | inr entry ↦
          let e = collect-entry fuel tmp size k j entry in
          let less : suc k * size ≡ k * size + size = grind arith in
          let rest =
            collect-ends fuel tmp size p k (step size j) hp (step-lt size j hj) here
              (omega (arith, less, distance-lt size p (step size j) hp (step-lt size j hj))) in
          (get_or tmp j 0 ∷ rest.0, rw e (rw rest.1 refl), ap suc rest.2)
    ]

-- A lap for each entry is fuel enough.
pub collect-laps :
    (tmp : List ℕ) (size p k : ℕ)
    → p < size
    → get_or tmp p 0 ≢ tx_null
    → (out : List ℕ) × (collect (k * size) tmp size k 0 ≡ some out) × (length out ≡ k)
collect-laps tmp size p k hp here =
    collect-ends (k * size) tmp size p k 0 hp (omega arith) here
      (omega (arith, distance-lt size p 0 hp (omega arith)))
