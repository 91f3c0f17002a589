-- ===== src/Common/Sums.antt =====
-- Sums of a function over a window of consecutive numbers; a periodic function has the same sum
-- over every window of whole periods.
use Prim.Native.Nat.{ℕ, zero, suc, ◌+◌, ◌*◌, ◌%◌, ◌≤◌, ◌<◌}
use mathlib.Core.Path.{◌≡◌, refl, ap, ◌∙◌}
use mathlib.Core.List.{List, [], ◌∷◌}
use mathlib.Core.Option.{Option, none, some}
use native.Mathlib.Nat.{mod-eq_of_lt, add-zero, add-suc, suc-add, add-mod_right}
use native.Mathlib.Omega.{arith}
use neura_balancer.Common.Tests.{◌==◌, if◌then◌else◌}
use neura_balancer.Common.Lists.{length, get_elem?, count}

unfoldable pub total : (ℕ → ℕ) → ℕ → ℕ → ℕ
total g c zero = 0
total g c (suc m) = g c + total g (suc c) m

total_snoc : (g : ℕ → ℕ) (c m : ℕ) → total g c (suc m) ≡ total g c m + g (c + m)
unfolding total
total_snoc g c zero = rw (add-zero c) (omega arith)
total_snoc g c (suc m) =
    omega (arith, total_snoc g (suc c) m, ap g (let e : suc c + m ≡ c + suc m = omega arith in e))

total-append : (g : ℕ → ℕ) (c m n : ℕ) → total g c (m + n) ≡ total g c m + total g (c + m) n
unfolding total
total-append g c zero n = rw (add-zero c) (ground arith)
total-append g c (suc m) n =
    rw (suc-add m n, add-suc c m)
      (omega (arith, total-append g (suc c) m n, ap (λ t. total g t n) (suc-add c m)))

pub total_cong :
    (f g : ℕ → ℕ) (c m : ℕ) → ((j : ℕ) → c ≤ j → j < c + m → f j ≡ g j) → total f c m ≡ total g c m
unfolding total
total_cong f g c zero h = refl
total_cong f g c (suc m) h = omega (
  arith,
  h c (omega arith) (omega arith),
  total_cong f g (suc c) m (λ j p q. h j (omega arith) (omega arith)),
)

total_shift : (g : ℕ → ℕ) (c m : ℕ) → total g (suc c) m ≡ total (λ j. g (suc j)) c m
unfolding total
total_shift g c zero = refl
total_shift g c (suc m) = ap (λ t. g (suc c) + t) (total_shift g (suc c) m)

module _ (g : ℕ → ℕ) (period : ℕ) (periodic : (c : ℕ) → g (c + period) ≡ g c) where
  total_window : (c : ℕ) → total g c period ≡ total g 0 period
  unfolding total
  total_window zero = refl
  total_window (suc c) = omega (arith, total_snoc g c period, periodic c, total_window c)

  -- A window of `k` periods holds `k` times the sum of one, wherever it starts.
  pub total_rounds : (k c : ℕ) → total g c (k * period) ≡ k * total g 0 period
  unfolding total
  total_rounds zero c = ground arith
  total_rounds (suc k) c =
      let e : suc k * period ≡ period + k * period = grind arith in
      rw e (
        grind (
          arith,
          total-append g c period (k * period),
          total_window c,
          total_rounds k (c + period),
        ))

-- 1 where the list holds `a`, else 0.
abbrev pub holds : ℕ → Option ℕ → ℕ
holds a none = 0
holds a (some x) = if a == x then 1 else 0

total-holds :
    (a : ℕ) (xs : List ℕ) → total (λ j. holds a (get_elem? xs j)) 0 (length xs) ≡ count a xs
unfolding total
total-holds a [] = refl
total-holds a (x ∷ xs) =
    omega (arith, total_shift (λ j. holds a (get_elem? (x ∷ xs) j)) 0 (length xs), total-holds a xs)

-- Walking `k` times round a list meets each element `k` times as often as the list holds it.
pub total-cycle :
    (a : ℕ) (xs : List ℕ) (k c : ℕ)
    → total (λ j. holds a (get_elem? xs (j % length xs))) c (k * length xs) ≡ k * count a xs
total-cycle a xs k c =
    total_rounds (λ j. holds a (get_elem? xs (j % length xs))) (length xs)
      (λ j. ap (λ t. holds a (get_elem? xs t)) (add-mod_right j (length xs))) k c
    ∙ ap (λ t. k * t)
        (total_cong (λ j. holds a (get_elem? xs (j % length xs))) (λ j. holds a (get_elem? xs j)) 0
            (length xs) (λ j _ q. ap (λ t. holds a (get_elem? xs t)) (mod-eq_of_lt (omega arith)))
          ∙ total-holds a xs)
