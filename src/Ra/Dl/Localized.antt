-- ===== src/Ra/Dl/Localized.antt =====
-- A localized run of a downlink grant marks exactly its blocks, in both slots.
use vbbu.Prelude.{
  ℕ, zero, suc, ◌+◌, ◌≤◌, ◌<◌, ◌≡◌, refl, ap, ◌∙◌, Bool, true, false, some, List, [], ◌∷◌, length,
  length-set, length-replicate, get_or, set, replicate, ltb, leb, ◌==◌, ◌&&◌, ◌||◌, arith, ==_iff,
}
use vbbu.Ra.Types.{type2, Type2, loc}
use vbbu.Ra.Tbs.{max_prb}
use vbbu.Ra.Dl.{mark, mark_counted, run_loop, unmarked, prb_allocation, both_slots}

-- Reading a place after another has been set.
get_or-set_test :
    (xs : List Bool) (i j : ℕ)
    → i < length xs
    → get_or (set xs i true) j false ≡ (j == i || get_or xs j false)
get_or-set_test [] i j h = absurd (omega arith)
get_or-set_test (x ∷ xs) zero zero h = ground arith
get_or-set_test (x ∷ xs) zero (suc j) h = ground arith
get_or-set_test (x ∷ xs) (suc i) zero h = ground arith
get_or-set_test (x ∷ xs) (suc i) (suc j) h =
    let rest = get_or-set_test xs i j (omega arith) in ground (arith, rest)

sums : (k n : ℕ) → k + suc n ≡ suc k + n
sums k n = omega arith

one_more :
    (k prb j : ℕ) (x y : Bool)
    → x ≡ (j == prb || y)
    → ((leb (suc prb) j && ltb j (k + suc prb)) || x) ≡ ((leb prb j && ltb j (suc k + prb)) || y)
one_more k prb j x y e = ground (arith, e)

marked :
    (prb n : ℕ) (prbs : List Bool)
    → prb < max_prb
    → mark_counted prb (prbs, n) ≡ some (set prbs prb true, suc n)
unfolding mark_counted mark
marked prb n prbs h = ground arith

run_step :
    (k prb n : ℕ) (prbs : List Bool)
    → prb < max_prb
    → run_loop (suc k) prb (prbs, n) ≡ run_loop k (suc prb) (set prbs prb true, suc n)
unfolding run_loop
run_step k prb n prbs h = rw (marked prb n prbs h, run_loop) refl

local_run :
    (a : Type2) (n k : ℕ) (prbs : List Bool)
    → (a.mode == loc) ≡ true
    → run_loop a.l_crb a.rb_start (unmarked, 0) ≡ some (prbs, k)
    → prb_allocation (type2 a) n ≡ some (some (prbs, prbs, k))
unfolding prb_allocation both_slots
local_run a n k prbs is_loc e = rw (is_loc, prb_allocation) (rw (e, prb_allocation) refl)

run_loop-marks :
    (k prb n : ℕ) (prbs : List Bool)
    → length prbs ≡ max_prb
    → k + prb ≤ max_prb
    → (prbs' : List Bool) × (run_loop k prb (prbs, n) ≡ some (prbs', k + n))
      × ((j : ℕ) → get_or prbs' j false ≡ ((leb prb j && ltb j (k + prb)) || get_or prbs j false))
unfolding run_loop
run_loop-marks zero prb n prbs len fits =
    let e : n ≡ 0 + n = omega arith in (prbs, ap (λ (x : ℕ). some (prbs, x)) e, λ j. ground arith)
run_loop-marks (suc k) prb n prbs len fits =
    let (prbs', e, marks) =
      run_loop-marks k (suc prb) (suc n) (set prbs prb true) (length-set prbs prb true ∙ len)
        (omega arith) in
    (
      prbs',
      run_step k prb n prbs (omega arith) ∙ e ∙ ap (λ (x : ℕ). some (prbs', x)) (sums k n),
      λ j.
          marks j
          ∙ one_more k prb j (get_or (set prbs prb true) j false) (get_or prbs j false)
              (get_or-set_test prbs prb j (omega (arith, len))),
    )

length-unmarked : length unmarked ≡ max_prb
length-unmarked = length-replicate max_prb false

get_or-replicate : (n j : ℕ) → get_or (replicate n false) j false ≡ false
get_or-replicate zero j = refl
get_or-replicate (suc n) zero = refl
get_or-replicate (suc n) (suc j) = get_or-replicate n j

-- A localized run that ends at block 110 or before is allocated: both slots have exactly the blocks
-- of the run, and their number is counted.
pub prb_allocation-localized :
    (a : Type2) (n : ℕ)
    → a.mode ≡ loc
    → a.l_crb + a.rb_start ≤ max_prb
    → (prbs : List Bool) × (prb_allocation (type2 a) n ≡ some (some (prbs, prbs, a.l_crb)))
      × ((j : ℕ) → get_or prbs j false ≡ (leb a.rb_start j && ltb j (a.l_crb + a.rb_start)))
prb_allocation-localized a n local fits =
    let (prbs, e, marks) = run_loop-marks a.l_crb a.rb_start 0 unmarked length-unmarked fits in
    let all : a.l_crb + 0 ≡ a.l_crb = omega arith in
    (
      prbs,
      local_run a n a.l_crb prbs ((==_iff a.mode loc).1 local)
          (e ∙ ap (λ (x : ℕ). some (prbs, x)) all),
      λ j. marks j ∙ ground (arith, get_or-replicate 110 j),
    )
