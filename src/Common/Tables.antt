-- ===== src/Common/Tables.antt =====
-- Facts about all numbers below a bound, checked by evaluation.
use Prim.Native.Nat.{ℕ, zero, suc, ◌<◌}
use mathlib.Core.Path.{◌≡◌}
use mathlib.Core.Bool.{Bool, true, ◌&&◌}
use native.Mathlib.Omega.{arith}
use tst.Common.Logic.{◌==◌, ==_iff}

unfoldable pub all_below : (bound : ℕ) (test : ℕ → Bool) → Bool
all_below zero test = true
all_below (suc top) test = all_below top test && test top

all_below_sound :
    (bound : ℕ) (test : ℕ → Bool) (i : ℕ) → i < bound → all_below bound test ≡ true → test i ≡ true
unfolding all_below
all_below_sound zero test i below table = absurd (omega arith)
all_below_sound (suc top) test i below table = ground (arith, all_below_sound top test i)

-- Two functions that agree on a table agree at every number of it.
pub agree_below :
    (n : ℕ) (f g : ℕ → ℕ) → all_below n (λ x. f x == g x) ≡ true → (x : ℕ) → x < n → f x ≡ g x
agree_below n f g table x h = (==_iff (f x) (g x)).0 (all_below_sound n (λ y. f y == g y) x h table)

-- The same for two arguments.
pub agree_below_both :
    (n m : ℕ) (f g : ℕ → ℕ → ℕ)
    → all_below n (λ x. all_below m (λ y. f x y == g x y)) ≡ true
    → (x y : ℕ) → x < n
    → y < m
    → f x y ≡ g x y
agree_below_both n m f g table x y hx hy =
    agree_below m (f x) (g x)
      (all_below_sound n (λ z. all_below m (λ w. f z w == g z w)) x hx table) y hy
