-- ===== src/RmConv/Inverse.antt =====
-- The permutations of the columns in srslte/lib/fec/rm_conv.c undo each other, and reads of a
-- triple of bits.
use vbbu.Prelude.{
  ℕ, zero, suc, ◌<◌, ◌≡◌, ◌≢◌, refl, true, false, ◌&&◌, [], ◌∷◌, get_or, ltb, ltb→lt, ◌==◌, ==_iff,
  arith,
}
use vbbu.Prelude.Check.{all_below, all_below_sound}
use vbbu.Turbo.Coder.{tx_null}
use vbbu.RmConv.{rm_perm_cc, rm_perm_cc_inv}

inverse_table :
    all_below 32 (λ k.
      (get_or rm_perm_cc (get_or rm_perm_cc_inv k 0) 0 == k) && ltb (get_or rm_perm_cc_inv k 0) 32)
    ≡ true
unfolding all_below
inverse_table = refl

pub inverse :
    (k : ℕ)
    → k < 32
    → (get_or rm_perm_cc (get_or rm_perm_cc_inv k 0) 0 ≡ k) × (get_or rm_perm_cc_inv k 0 < 32)
inverse k h =
    let e =
      all_below_sound 32
        (λ k.
          (get_or rm_perm_cc (get_or rm_perm_cc_inv k 0) 0 == k)
          && ltb (get_or rm_perm_cc_inv k 0) 32)
        k inverse_table h in
    (
      (==_iff (get_or rm_perm_cc (get_or rm_perm_cc_inv k 0) 0) k).0 (ground (arith, e)),
      ltb→lt (get_or rm_perm_cc_inv k 0) 32 (ground (arith, e)),
    )

pub not_null : {x : ℕ} → x ≢ tx_null → (x == tx_null) ≡ false
not_null h = ground (arith, h)

pub get_or-triple {ℓ} :
    {A : Type ℓ} (g : ℕ → A) (s : ℕ) (d : A) → s < 3 → get_or (g 0 ∷ g 1 ∷ g 2 ∷ []) s d ≡ g s
get_or-triple g zero d h = refl
get_or-triple g (suc zero) d h = refl
get_or-triple g (suc (suc zero)) d h = refl
get_or-triple g (suc (suc (suc s))) d h = absurd (omega arith)
