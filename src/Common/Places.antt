-- ===== src/Common/Places.antt =====
-- Lists whose elements are replaced at a place, and steps that may not be possible.
use Prim.Native.Nat.{ℕ, zero, suc, ◌+◌}
use mathlib.Core.Path.{◌≡◌, refl, ◌∙◌, subst}
use mathlib.Core.Logic.{inl, inr}
use mathlib.Core.Bool.{true, false}
use mathlib.Core.List.{List, [], ◌∷◌, ◌++◌}
use mathlib.Core.Option.{Option, none, some}
use native.Mathlib.Omega.{arith}
use neura_balancer.Common.Lists.{get_elem?, All}
use neura_balancer.Common.Tests.{◌==◌, if◌then◌else◌, Bool-cases}

abbrev pub set_elem {ℓ} : {A : Type ℓ} → List A → ℕ → A → List A
set_elem [] i a = []
set_elem (x ∷ xs) zero a = a ∷ xs
set_elem (x ∷ xs) (suc i) a = x ∷ set_elem xs i a

pub get-set_elem {ℓ} :
    {A : Type ℓ} (xs : List A) (i j : ℕ) {a : A} (b : A)
    → get_elem? xs i ≡ some a
    → get_elem? (set_elem xs j b) i ≡ (if j == i then some b else some a)
get-set_elem [] i j b h = cc
get-set_elem (x ∷ xs) zero zero b h = refl
get-set_elem (x ∷ xs) zero (suc j) b h = let e : (suc j == 0) ≡ false = ground arith in rw e h
get-set_elem (x ∷ xs) (suc i) zero b h = let e : (0 == suc i) ≡ false = ground arith in rw e h
get-set_elem (x ∷ xs) (suc i) (suc j) {a} b h = elim (Bool-cases (j == i)) [
  | inl same ↦
      let e : (suc j == suc i) ≡ true = ground (arith, same) in
      rw e (get-set_elem xs i j b h ∙ rw same refl)
  | inr apart ↦
      let e : (suc j == suc i) ≡ false = ground (arith, apart) in
      rw e (get-set_elem xs i j b h ∙ rw apart refl)
]

pub get-append {ℓ} :
    {A : Type ℓ} (xs ys : List A) (i : ℕ) {a : A}
    → get_elem? xs i ≡ some a
    → get_elem? (xs ++ ys) i ≡ some a
get-append [] ys i h = cc
get-append (x ∷ xs) ys zero h = h
get-append (x ∷ xs) ys (suc i) h = get-append xs ys i h

pub All-set_elem {ℓ κ} :
    {A : Type ℓ} (P : A → Type κ) (xs : List A) (i : ℕ) (a : A)
    → All P xs
    → P a
    → All P (set_elem xs i a)
All-set_elem P [] i a all h = all
All-set_elem P (x ∷ xs) zero a all h = (h, all.1)
All-set_elem P (x ∷ xs) (suc i) a all h = (all.0, All-set_elem P xs i a all.1 h)

pub All-append {ℓ κ} :
    {A : Type ℓ} (P : A → Type κ) (xs ys : List A) → All P xs → All P ys → All P (xs ++ ys)
All-append P [] ys all more = more
All-append P (x ∷ xs) ys all more = (all.0, All-append P xs ys all.1 more)

pub get_elem?-All {ℓ κ} :
    {A : Type ℓ} (P : A → Type κ) (xs : List A) (i : ℕ) {a : A}
    → All P xs
    → get_elem? xs i ≡ some a
    → P a
get_elem?-All P [] i all h = cc
get_elem?-All P (x ∷ xs) zero {a} all h = let e : x ≡ a = cc in subst P e all.0
get_elem?-All P (x ∷ xs) (suc i) all h = get_elem?-All P xs i all.1 h

-- A property of what a step leads to, if it can be made.
abbrev pub Ensures {κ} : {A : Type 0} → (A → Type κ) → Option A → Type κ
Ensures P none = Unit
Ensures P (some a) = P a

abbrev pub sum {ℓ} : {A : Type ℓ} → (A → ℕ) → List A → ℕ
sum w [] = 0
sum w (x ∷ xs) = w x + sum w xs

pub sum-append {ℓ} :
    {A : Type ℓ} (w : A → ℕ) (xs ys : List A) → sum w (xs ++ ys) ≡ sum w xs + sum w ys
sum-append w [] ys = omega arith
sum-append w (x ∷ xs) ys = omega (arith, sum-append w xs ys)

pub sum-set_elem {ℓ} :
    {A : Type ℓ} (w : A → ℕ) (xs : List A) (i : ℕ) (a b : A)
    → get_elem? xs i ≡ some a
    → sum w (set_elem xs i b) + w a ≡ sum w xs + w b
sum-set_elem w [] i a b e = cc
sum-set_elem w (x ∷ xs) zero a b e = let same : x ≡ a = cc in rw same (omega arith)
sum-set_elem w (x ∷ xs) (suc i) a b e = omega (arith, sum-set_elem w xs i a b e)
