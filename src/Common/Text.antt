-- ===== src/Common/Text.antt =====
-- Texts as lists of code points, and Go's `%d`.
pub mod Fields
pub mod Spaces
pub mod Numbers
pub mod Trimming
pub mod Printed
use Prim.Native.Nat.{ℕ, zero, suc, ◌+◌, ◌*◌, ◌-◌, ◌/◌, ◌%◌, ◌<◌, ◌≤◌}
use Prim.Native.Char.{code}
use Prim.Native.String.{String}
use mathlib.Core.Bool.{Bool, true, false, ◌&&◌}
use mathlib.Core.List.{List, [], ◌∷◌, ◌++◌}
use mathlib.Core.Path.{◌≡◌, refl, ap, sym, ◌∙◌}
use native.Mathlib.Omega.{arith}
use neura_balancer.Common.Tests.{ltb, if◌then◌else◌, Bool-cases, ◌==◌}
use neura_balancer.Common.Lists.{All}
use neura_balancer.Common.Int.{ℤ, pos, negsuc}
use mathlib.Core.Logic.{inl, inr, ◌≢◌}

abbrev pub Text : Type 0
Text = List ℕ

abbrev pub codes : String → Text
codes String.[] = []
codes (String.◌∷◌ c s) = code c ∷ codes s

-- The decimal digits of a number; the fuel is more than the number.
decimal_from : ℕ → ℕ → Text
decimal_from zero n = []
decimal_from (suc f) n =
    let higher = decimal_from f (n / 10) ++ (b'0' + n % 10) ∷ [] in
    if ltb n 10 then (b'0' + n) ∷ [] else higher

unfoldable pub decimal : ℕ → Text
unfolding decimal_from
decimal n = decimal_from (suc n) n

-- `%d`
unfoldable pub format_int : ℤ → Text
format_int (pos n) = decimal n
format_int (negsuc n) = b'-' ∷ decimal (suc n)

-- The number that digits stand for.
abbrev pub digits_value : ℕ → Text → ℕ
digits_value acc [] = acc
digits_value acc (c ∷ cs) = digits_value (10 * acc + (c - b'0')) cs

digits_value-append :
    (acc c : ℕ) (cs : Text)
    → digits_value acc (cs ++ c ∷ []) ≡ 10 * digits_value acc cs + (c - b'0')
digits_value-append acc c [] = refl
digits_value-append acc c (d ∷ cs) = digits_value-append (10 * acc + (d - b'0')) c cs

value-decimal_from : (f n : ℕ) → n < f → digits_value 0 (decimal_from f n) ≡ n
unfolding decimal_from
value-decimal_from zero n h = elim h [ ]
value-decimal_from (suc f) n h = elim (Bool-cases (ltb n 10)) [
  | inl small ↦ rw small (omega arith)
  | inr large ↦
      rw (large, digits_value-append 0 (b'0' + n % 10) (decimal_from f (n / 10)))
        (let lt : n / 10 < f = ground arith in omega (arith, value-decimal_from f (n / 10) lt))
]

pub value-decimal : (n : ℕ) → digits_value 0 (decimal n) ≡ n
unfolding decimal
value-decimal n = value-decimal_from (suc n) n (omega arith)

ends-ne-nil : (cs : Text) (c : ℕ) → cs ++ c ∷ [] ≢ []
ends-ne-nil [] c e = cc
ends-ne-nil (d ∷ cs) c e = cc

pub decimal_nonempty : (n : ℕ) → decimal n ≢ []
unfolding decimal decimal_from
decimal_nonempty n e = elim (Bool-cases (ltb n 10)) [
  | inl small ↦ let e' = rw small at e in cc
  | inr large ↦ ends-ne-nil (decimal_from n (n / 10)) (b'0' + n % 10) (rw large at e)
]

pub decimal_injective : (m n : ℕ) → decimal m ≡ decimal n → m ≡ n
unfolding decimal
decimal_injective m n e =
    sym (value-decimal_from (suc m) m (omega arith))
    ∙ ap (digits_value 0) e
    ∙ value-decimal_from (suc n) n (omega arith)

abbrev pub IsDigit : ℕ → Type 0
IsDigit c = (b'0' ≤ c) × (c ≤ b'9')

All-append_digits : (cs : Text) (c : ℕ) → All IsDigit cs → IsDigit c → All IsDigit (cs ++ c ∷ [])
All-append_digits [] c a d = (d, tt)
All-append_digits (x ∷ cs) c a d = (a.0, All-append_digits cs c a.1 d)

decimal_from_digits : (f n : ℕ) → All IsDigit (decimal_from f n)
unfolding decimal_from
decimal_from_digits zero n = tt
decimal_from_digits (suc f) n = elim (Bool-cases (ltb n 10)) [
  | inl small ↦ rw small ((omega arith, ground arith), tt)
  | inr large ↦ rw large (
      All-append_digits (decimal_from f (n / 10)) (b'0' + n % 10) (decimal_from_digits f (n / 10))
        (omega arith, omega arith))
]

pub decimal_digits : (n : ℕ) → All IsDigit (decimal n)
unfolding decimal
decimal_digits n = decimal_from_digits (suc n) n

-- A text of digits does not begin with a minus sign.
minus-ne-digits : (cs ds : Text) → All IsDigit ds → b'-' ∷ cs ≢ ds
minus-ne-digits cs [] a e = cc
minus-ne-digits cs (d ∷ ds) a e = ground arith

pub format_int_injective : (a b : ℤ) → format_int a ≡ format_int b → a ≡ b
unfolding format_int
format_int_injective (pos m) (pos n) e = ap pos (decimal_injective m n e)
format_int_injective (pos m) (negsuc n) e =
    elim (minus-ne-digits (decimal (suc n)) (decimal m) (decimal_digits m) (sym e)) [ ]
format_int_injective (negsuc m) (pos n) e =
    elim (minus-ne-digits (decimal (suc m)) (decimal n) (decimal_digits n) e) [ ]
format_int_injective (negsuc m) (negsuc n) e =
    let tails : decimal (suc m) ≡ decimal (suc n) = ground arith in
    let nums : suc m ≡ suc n = decimal_injective (suc m) (suc n) tails in ground arith

-- Go's `==` on strings.
unfoldable pub text_eq : Text → Text → Bool
text_eq [] [] = true
text_eq [] (d ∷ ds) = false
text_eq (c ∷ cs) [] = false
text_eq (c ∷ cs) (d ∷ ds) = c == d && text_eq cs ds

pub text_eq_refl : (t : Text) → text_eq t t ≡ true
unfolding text_eq
text_eq_refl [] = refl
text_eq_refl (c ∷ cs) = ground (arith, text_eq_refl cs)

pub eq_of_text_eq : (s t : Text) → text_eq s t ≡ true → s ≡ t
unfolding text_eq
eq_of_text_eq [] [] e = refl
eq_of_text_eq [] (d ∷ ds) e = cc
eq_of_text_eq (c ∷ cs) [] e = cc
eq_of_text_eq (c ∷ cs) (d ∷ ds) e = ground (arith, eq_of_text_eq cs ds)

-- `strings.HasPrefix`, with the prefix first.
unfoldable pub has_prefix : Text → Text → Bool
has_prefix [] t = true
has_prefix (c ∷ cs) [] = false
has_prefix (c ∷ cs) (d ∷ ds) = c == d && has_prefix cs ds
