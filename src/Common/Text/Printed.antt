-- ===== src/Common/Text/Printed.antt =====
-- `strconv.Atoi` of what `%d` prints.
use Prim.Native.Nat.{ℕ, suc, ◌+◌, ◌*◌, ◌-◌, ◌^◌, ◌<◌}
use mathlib.Core.Bool.{true, false}
use mathlib.Core.List.{[], ◌∷◌}
use mathlib.Core.Logic.{◌≢◌}
use mathlib.Core.Option.{some}
use mathlib.Core.Path.{◌≡◌, refl, ap, ◌∙◌}
use native.Mathlib.Omega.{arith}
use neura_balancer.Common.Int.{ℤ, pos, negsuc}
use neura_balancer.Common.Lists.{All}
use neura_balancer.Common.Tests.{leb, ◌==◌}
use neura_balancer.Common.Text.{
  Text, IsDigit, decimal, decimal_digits, digits_value, value-decimal, format_int, decimal_nonempty,
}
use neura_balancer.Common.Text.Numbers.{digits_from, digits, to_int, atoi}

-- A 64-bit integer.
abbrev pub IsInt64 : ℤ → Type 0
IsInt64 (pos n) = n < 2 ^ 63
IsInt64 (negsuc n) = n < 2 ^ 63

digits_from-value :
    (acc : ℕ) (cs : Text) → All IsDigit cs → digits_from acc cs ≡ some (digits_value acc cs)
unfolding digits_from
digits_from-value acc [] a = refl
digits_from-value acc (c ∷ cs) (d, a) =
    let low : leb b'0' c ≡ true = ground (arith, d) in
    let high : leb c b'9' ≡ true = ground (arith, d) in
    rw (low, high) (digits_from-value (10 * acc + (c - b'0')) cs a)

digits-value : (cs : Text) → All IsDigit cs → cs ≢ [] → digits cs ≡ some (digits_value 0 cs)
unfolding digits
digits-value [] a some_digit = absurd (some_digit refl)
digits-value (c ∷ cs) a some_digit = digits_from-value 0 (c ∷ cs) a

atoi-digits :
    (cs : Text) → All IsDigit cs → cs ≢ [] → atoi cs ≡ to_int false (some (digits_value 0 cs))
unfolding atoi
atoi-digits [] a some_digit = absurd (some_digit refl)
atoi-digits (c ∷ cs) (d, a) some_digit =
    let no_minus : (c == b'-') ≡ false = ground (arith, d) in
    let no_plus : (c == b'+') ≡ false = ground (arith, d) in
    rw (no_minus, no_plus) (ap (to_int false) (digits-value (c ∷ cs) (d, a) some_digit))

minus_digits : (cs : Text) → atoi (b'-' ∷ cs) ≡ to_int true (digits cs)
unfolding atoi
minus_digits cs = refl

pub atoi-format_int : (a : ℤ) → IsInt64 a → atoi (format_int a) ≡ some a
unfolding format_int to_int
atoi-format_int (pos n) small =
    atoi-digits (decimal n) (decimal_digits n) (decimal_nonempty n)
    ∙ rw (value-decimal n) (ground arith)
atoi-format_int (negsuc n) small =
    minus_digits (decimal (suc n))
    ∙ rw
        (
          digits-value (decimal (suc n)) (decimal_digits (suc n)) (decimal_nonempty (suc n)),
          value-decimal (suc n),
        )
        (ground arith)

pub format_int_nonempty : (a : ℤ) → format_int a ≢ []
unfolding format_int
format_int_nonempty (pos n) e = decimal_nonempty n e
format_int_nonempty (negsuc n) e = cc
