-- ===== src/Common/Text/Numbers.antt =====
-- `strconv.Atoi`, `strings.ToLower` and the splitting of texts.
use Prim.Native.Nat.{ℕ, ◌+◌, ◌*◌, ◌-◌, ◌^◌}
use mathlib.Core.Bool.{Bool, true, false, ◌&&◌}
use mathlib.Core.List.{List, [], ◌∷◌, map}
use mathlib.Core.Option.{Option, none, some}
use neura_balancer.Common.Tests.{ltb, leb, ◌==◌, if◌then◌else◌}
use neura_balancer.Common.Int.{ℤ, pos, negsuc}

-- The value of a text of digits, in front of which `acc` has been read.
unfoldable pub digits_from : ℕ → List ℕ → Option ℕ
digits_from acc [] = some acc
digits_from acc (c ∷ cs) =
    let rest = digits_from (10 * acc + (c - b'0')) cs in
    if leb b'0' c && leb c b'9' then rest else none

unfoldable pub digits : List ℕ → Option ℕ
unfolding digits_from
digits [] = none
digits (c ∷ cs) = digits_from 0 (c ∷ cs)

-- The range of a 64-bit integer.
unfoldable pub to_int : Bool → Option ℕ → Option ℤ
to_int minus none = none
to_int true (some n) =
    if n == 0 then some (pos 0) else (if leb n (2 ^ 63) then some (negsuc (n - 1)) else none)
to_int false (some n) = if ltb n (2 ^ 63) then some (pos n) else none

-- The error of a text that is no number, or one out of range, is `none`.
unfoldable pub atoi : List ℕ → Option ℤ
unfolding digits to_int
atoi [] = none
atoi (c ∷ cs) =
    if c == b'-'
    then to_int true (digits cs)
    else (if c == b'+' then to_int false (digits cs) else to_int false (digits (c ∷ cs)))

-- `strings.Split` at one code point: the first part and the other parts.
unfoldable pub split_parts : ℕ → List ℕ → List ℕ × List (List ℕ)
split_parts sep [] = ([], [])
split_parts sep (c ∷ cs) =
    let (part, parts) = split_parts sep cs in
    if c == sep then ([], part ∷ parts) else (c ∷ part, parts)

unfoldable pub split : ℕ → List ℕ → List (List ℕ)
unfolding split_parts
split sep t = let (part, parts) = split_parts sep t in part ∷ parts

-- `strings.SplitN(t, sep, 2)`, where it has two parts.
unfoldable pub split_once : ℕ → List ℕ → Option (List ℕ × List ℕ)
split_once sep [] = none
split_once sep (c ∷ cs) =
    let rest = split_once sep cs in
    if c == sep then some ([], cs) else elim rest [ none ↦ none | some (a, b) ↦ some (c ∷ a, b) ]

-- `strings.ReplaceAll` of one code point by another.
unfoldable pub replace_all : ℕ → ℕ → List ℕ → List ℕ
replace_all old new [] = []
replace_all old new (c ∷ cs) = (if c == old then new else c) ∷ replace_all old new cs

-- `strings.ToLower`; `unicode_lower` is the table of the code points beyond ASCII.
unfoldable pub to_lower : (ℕ → ℕ) → List ℕ → List ℕ
to_lower unicode_lower =
    map λ c. if leb b'A' c && leb c b'Z' then c + 32 else (if ltb c 128 then c else unicode_lower c)
