-- ===== src/Common/Text/Trimming.antt =====
-- A trimmed text stays as it is when it is trimmed again.
use neura_balancer.Common.Tests.{Bool-cases}
use neura_balancer.Common.Text.Spaces.{is_space, trim_left, trim_space}
use Prim.Native.Nat.{ℕ}
use mathlib.Core.Bool.{false}
use mathlib.Core.List.{List, [], ◌∷◌, ◌++◌, reverse, reverse-append, reverse-reverse}
use mathlib.Core.Logic.{inl, inr}
use mathlib.Core.Path.{◌≡◌, refl, sym, ap, ◌∙◌, subst}

-- A text that does not begin with a space.
abbrev BeginsClean : List ℕ → Type 0
BeginsClean [] = Unit
BeginsClean (c ∷ cs) = is_space c ≡ false

trim_left-BeginsClean : (t : List ℕ) → BeginsClean (trim_left t)
unfolding trim_left
trim_left-BeginsClean [] = tt
trim_left-BeginsClean (c ∷ cs) = elim (Bool-cases (is_space c)) [
  | inl space ↦ rw space (trim_left-BeginsClean cs)
  | inr clean ↦ rw clean clean
]

BeginsClean-trim_left : (t : List ℕ) → BeginsClean t → trim_left t ≡ t
unfolding trim_left
BeginsClean-trim_left [] h = refl
BeginsClean-trim_left (c ∷ cs) h = rw h

-- What is cut off is at the front.
cut_off : (t : List ℕ) → (front : List ℕ) × (t ≡ front ++ trim_left t)
unfolding trim_left
cut_off [] = ([], refl)
cut_off (c ∷ cs) = elim (Bool-cases (is_space c)) [
  | inl space ↦ let (front, e) = cut_off cs in (c ∷ front, rw space (ap (λ t. c ∷ t) e))
  | inr clean ↦ ([], rw clean)
]

BeginsClean-front : (a b : List ℕ) → BeginsClean (a ++ b) → BeginsClean a
BeginsClean-front [] b h = tt
BeginsClean-front (c ∷ a) b h = h

ends_trimmed : (t : List ℕ) → BeginsClean (trim_space t)
unfolding trim_space
ends_trimmed t =
    let u = trim_left t in
    let (front, e) = cut_off (reverse u) in
    let split : u ≡ reverse (trim_left (reverse u)) ++ reverse front =
      sym (reverse-reverse u) ∙ ap reverse e ∙ reverse-append front (trim_left (reverse u)) in
    BeginsClean-front (reverse (trim_left (reverse u))) (reverse front)
      (subst BeginsClean split (trim_left-BeginsClean t))

pub trim_space-trim_space : (t : List ℕ) → trim_space (trim_space t) ≡ trim_space t
unfolding trim_space
trim_space-trim_space t =
    let v = trim_left (reverse (trim_left t)) in
    ap (λ s. reverse (trim_left (reverse s))) (BeginsClean-trim_left (reverse v) (ends_trimmed t))
    ∙ ap (λ s. reverse (trim_left s)) (reverse-reverse v)
    ∙ ap reverse (BeginsClean-trim_left v (trim_left-BeginsClean (reverse (trim_left t))))
