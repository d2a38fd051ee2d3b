-- ===== src/Pdcch/Candidates.antt =====
-- Lists of candidates for a message in the control channel of srslte/lib/phch/pdcch.c.
use native.Mathlib.Nat.{div-add-mod', mul-le-mul_right, add-mul}
use native.Mathlib.Decide.{dec_lt}
use vbbu.Prelude.{
  ℕ, zero, suc, ◌+◌, ◌*◌, ◌/◌, ◌%◌, ◌^◌, ◌≤◌, ◌<◌, ◌≡◌, ◌≢◌, List, [], ◌∷◌, ◌++◌, length, arith,
}
use vbbu.Dci.Dispatch.Location.{Location}

abbrev pub All : (Location → Type 0) → List Location → Type 0
All P [] = Unit {0}
All P (x ∷ xs) = P x × All P xs

-- No candidate stands twice in a list.
abbrev pub Distinct : List Location → Type 0
Distinct [] = Unit {0}
Distinct (x ∷ xs) = All (λ y. x ≢ y) xs × Distinct xs

-- A candidate begins at a multiple of its size and ends inside the channel.
pub record Fits (nof_cce : ℕ) (x : Location) : Type 0 where
  pub level : x.l ≤ 3
  pub aligned : (q : ℕ) × (x.ncce ≡ 2 ^ x.l * q)
  pub inside : x.ncce + 2 ^ x.l ≤ nof_cce

-- What holds of the candidates of a search space.
pub record IsSearchSpace (nof_cce max_candidates : ℕ) (c : List Location) : Type 0 where
  pub room : length c ≤ max_candidates
  pub fit : All (Fits nof_cce) c
  pub distinct : Distinct c

pub All-append :
    (P : Location → Type 0) (xs : List Location) (x : Location)
    → All P xs
    → P x
    → All P (xs ++ (x ∷ []))
All-append P [] x h p = (p, tt)
All-append P (y ∷ xs) x h p = (h.0, All-append P xs x h.1 p)

pub All-map :
    (P Q : Location → Type 0) (xs : List Location)
    → ((x : Location) → P x → Q x)
    → All P xs
    → All Q xs
All-map P Q [] f h = tt
All-map P Q (x ∷ xs) f h = (f x h.0, All-map P Q xs f h.1)

pub Distinct-append :
    (xs : List Location) (x : Location)
    → Distinct xs
    → All (λ y. y ≢ x) xs
    → Distinct (xs ++ (x ∷ []))
Distinct-append [] x h n = (tt, tt)
Distinct-append (y ∷ xs) x h n =
    (All-append (λ z. y ≢ z) xs x h.0 n.0, Distinct-append xs x h.1 n.1)

pub fits : (l q nof_cce : ℕ) → l ≤ 3 → q < nof_cce / 2 ^ l → 2 ^ l * q + 2 ^ l ≤ nof_cce
fits zero q nof_cce h lt = omega arith
fits (suc zero) q nof_cce h lt = omega arith
fits (suc (suc zero)) q nof_cce h lt = omega arith
fits (suc (suc (suc zero))) q nof_cce h lt = omega arith
fits (suc (suc (suc (suc l)))) q nof_cce h lt = absurd (omega arith)

pub cancel : (l a b : ℕ) → l ≤ 3 → 2 ^ l * a ≡ 2 ^ l * b → a ≡ b
cancel zero a b h e = omega arith
cancel (suc zero) a b h e = omega arith
cancel (suc (suc zero)) a b h e = omega arith
cancel (suc (suc (suc zero))) a b h e = omega arith
cancel (suc (suc (suc (suc l)))) a b h e = absurd (omega arith)

-- Offsets less than a lap apart do not meet.
pub mod-apart : (a k i m : ℕ) → k < i → i < m → (a + k) % m ≢ (a + i) % m
mod-apart a k i m hk hi = λ e.
    let p : ℕ = (a + k) / m in
    let q : ℕ = (a + i) / m in
    let low = div-add-mod' (a + k) m in
    let high = div-add-mod' (a + i) m in
    elim (dec_lt p q) [
      | yes more ↦
          let next : p + 1 ≤ q = omega arith in
          let lap : (p + 1) * m ≤ q * m = mul-le-mul_right m next in
          absurd (omega (arith, low, high, e, lap, add-mul p 1 m))
      | no less ↦
          let lap : q * m ≤ p * m = mul-le-mul_right m (omega arith) in
          absurd (omega (arith, low, high, e, lap))
    ]
