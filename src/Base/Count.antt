-- ===== src/Base/Count.antt =====
-- How many numbers below a bound pass a test, and how that changes when the test changes at one.
use Prim.Native.Nat.{ℕ, zero, suc, ◌+◌, ◌<◌, ◌≤◌}
use mathlib.Core.Path.{◌≡◌, refl}
use mathlib.Core.Logic.{◌≢◌}
use mathlib.Core.Bool.{Bool, true, false}
use native.Mathlib.Decide.{ℕ_discrete}
use native.Mathlib.Omega.{arith}
use ephemeral_os.Base.Tests.{if◌then◌else◌}

unfoldable pub count_below : ℕ → (ℕ → Bool) → ℕ
count_below zero p = 0
count_below (suc n) p = (if p n then 1 else 0) + count_below n p

pub count_below-le : (n : ℕ) (p : ℕ → Bool) → count_below n p ≤ n
unfolding count_below
count_below-le zero p = omega arith
count_below-le (suc n) p = ground (arith, count_below-le n p)

pub count_below-none :
    (n : ℕ) (p : ℕ → Bool) → ((m : ℕ) → m < n → p m ≡ false) → count_below n p ≡ 0
unfolding count_below
count_below-none zero p h = refl
count_below-none (suc n) p h =
    ground (arith, h n (omega arith), count_below-none n p (λ m l. h m (omega arith)))

pub count_below_agree :
    (n : ℕ) (p q : ℕ → Bool) → ((m : ℕ) → m < n → p m ≡ q m) → count_below n p ≡ count_below n q
unfolding count_below
count_below_agree zero p q h = refl
count_below_agree (suc n) p q h =
    ground (arith, h n (omega arith), count_below_agree n p q (λ m l. h m (omega arith)))

pub count_below_drop :
    (n i : ℕ) (p q : ℕ → Bool)
    → i < n
    → p i ≡ true
    → q i ≡ false
    → ((m : ℕ) → m < n → m ≢ i → p m ≡ q m)
    → count_below n p ≡ count_below n q + 1
unfolding count_below
count_below_drop zero i p q l pi qi h = absurd (omega arith)
count_below_drop (suc n) i p q l pi qi h = elim (ℕ_discrete i n) [
  | yes e ↦ ground (arith, count_below_agree n p q (λ m lm. h m (omega arith) (omega arith)))
  | no ne ↦ ground (
    arith,
    h n (omega arith) (omega arith),
    count_below_drop n i p q (omega arith) pi qi (λ m lm. h m (omega arith)),
  )
]
