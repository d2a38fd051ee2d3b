-- ===== src/RmConv/Integers.antt =====
-- Integers as soft values, for the tests of srslte/lib/fec/rm_conv.c and its clients.
use vbbu.Prelude.{
  ℕ, zero, suc, ◌+◌, ◌-◌, ◌%◌, ◌<◌, ◌≡◌, refl, Bool, false, leb, ◌==◌, if◌then◌else◌, arith,
}
use vbbu.RmConv.{Soft}
use vbbu.RmConv.Follow.{IsReadable}

-- Soft values that are integers: `negsuc n` is -(n + 1).
pub data ℤ : Type 0 where
  pos : ℕ → ℤ
  negsuc : ℕ → ℤ

pub sum : ℤ → ℤ → ℤ
sum (pos a) (pos b) = pos (a + b)
sum (pos a) (negsuc b) = if leb (b + 1) a then pos (a - b - 1) else negsuc (b - a)
sum (negsuc a) (pos b) = if leb (a + 1) b then pos (b - a - 1) else negsuc (a - b)
sum (negsuc a) (negsuc b) = negsuc (a + b + 1)

pub is_null : ℤ → Bool
is_null (pos n) = n == 10000
is_null (negsuc n) = false

abbrev pub integers : Soft ℤ
integers = record { rx_null = pos 10000; nothing = pos 0; is_null = is_null; add = sum }

-- A one is sent as 3 and a zero as -3.
pub llr : ℕ → ℤ
llr b = if b == 0 then negsuc 2 else pos 3

unfoldable pub Says : ℕ → ℤ → Type 0
Says zero (pos n) = ⊥
Says zero (negsuc n) = n % 3 ≡ 2
Says (suc b) (pos n) = (n % 3 ≡ 0) × (0 < n)
Says (suc b) (negsuc n) = ⊥

says-sum : (b : ℕ) (x y : ℤ) → Says b x → Says b y → Says b (sum x y)
unfolding Says sum
says-sum zero (pos n) y h k = absurd h
says-sum zero (negsuc n) (pos m) h k = absurd k
says-sum zero (negsuc n) (negsuc m) h k = omega arith
says-sum (suc b) (pos n) (pos m) h k = (omega arith, omega arith)
says-sum (suc b) (pos n) (negsuc m) h k = absurd k
says-sum (suc b) (negsuc n) y h k = absurd h

says-kept : (b : ℕ) (x : ℤ) → Says b x → is_null x ≡ false
unfolding Says is_null
says-kept zero (pos n) h = absurd h
says-kept zero (negsuc n) h = refl
says-kept (suc b) (pos n) h = ground arith
says-kept (suc b) (negsuc n) h = refl

says-llr : (b : ℕ) → b < 2 → Says b (llr b)
unfolding Says llr
says-llr zero h = omega arith
says-llr (suc zero) h = (omega arith, omega arith)
says-llr (suc (suc b)) h = absurd (omega arith)

pub readable : IsReadable integers llr Says
unfolding is_null
readable = record { says = says-llr; says_add = says-sum; kept = says-kept; null_lem = refl }
