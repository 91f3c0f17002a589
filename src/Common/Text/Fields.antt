-- ===== src/Common/Text/Fields.antt =====
-- Fields that end in a separator can be read back.
use Prim.Native.Nat.{ℕ}
use mathlib.Core.List.{List, [], ◌∷◌, ◌++◌}
use mathlib.Core.Logic.{◌≢◌}
use mathlib.Core.Path.{◌≡◌, refl}
use native.Mathlib.Omega.{arith}
use neura_balancer.Common.Lists.{All}

-- No element is the separator.
abbrev pub Free : ℕ → List ℕ → Type 0
Free sep = All (λ c. c ≢ sep)

-- Two texts that begin with a free field and the separator have the same field and the same rest.
pub field_injective :
    (sep : ℕ) (a b s t : List ℕ)
    → Free sep a
    → Free sep b
    → a ++ sep ∷ s ≡ b ++ sep ∷ t
    → (a ≡ b) × (s ≡ t)
field_injective sep [] [] s t fa fb e = (refl, ground arith)
field_injective sep [] (d ∷ b) s t fa fb e = absurd (ground arith)
field_injective sep (c ∷ a) [] s t fa fb e = absurd (ground arith)
field_injective sep (c ∷ a) (d ∷ b) s t fa fb e =
    let (p, q) = field_injective sep a b s t fa.1 fb.1 (ground arith) in (ground arith, q)
