-- ===== src/Common/Atoi.antt =====
-- `strconv.Atoi` on code points: an `int` of 64 bits, or an error.
use Prim.Native.Nat.{ℕ, zero, suc}
use mathlib.Core.Path.{◌≡◌}
use mathlib.Core.Bool.{Bool, true, false, ◌&&◌}
use mathlib.Core.Option.{Option, none, some}
use mathlib.Core.List.{List, [], ◌∷◌}
use native.Mathlib.Omega.{arith}
use realmrunner.Common.Tests.{ltb, ◌==◌, if◌then◌else◌}
use realmrunner.Common.Int.{ℤ, pos, negsuc}
use realmrunner.Common.Text.{is_digit, value}

abbrev pub all_digits : List ℕ → Bool
all_digits [] = true
all_digits (c ∷ cs) = is_digit c && all_digits cs

abbrev negated : ℕ → ℤ
negated zero = pos 0
negated (suc n) = negsuc n

-- Digits up to a limit.
abbrev pub digits_to : ℕ → List ℕ → Option ℕ
digits_to limit [] = none
digits_to limit (d ∷ ds) =
    if all_digits (d ∷ ds)
    then (if ltb limit (value (d ∷ ds)) then none else some (value (d ∷ ds)))
    else none

abbrev pub as_pos : Option ℕ → Option ℤ
as_pos none = none
as_pos (some n) = some (pos n)

abbrev as_neg : Option ℕ → Option ℤ
as_neg none = none
as_neg (some n) = some (negated n)

abbrev pub int_max : ℕ
int_max = 9223372036854775807

unfoldable pub atoi : List ℕ → Option ℤ
unfolding value
atoi [] = none
atoi (c ∷ cs) =
    if c == b'-'
    then as_neg (digits_to 9223372036854775808 cs)
    else if c == b'+'
    then as_pos (digits_to int_max cs)
    else as_pos (digits_to int_max (c ∷ cs))

-- A number without a sign.
pub atoi-digits :
    (d : ℕ) (ds : List ℕ)
    → is_digit d ≡ true
    → all_digits ds ≡ true
    → ltb int_max (value (d ∷ ds)) ≡ false
    → atoi (d ∷ ds) ≡ some (pos (value (d ∷ ds)))
unfolding atoi
atoi-digits d ds hd h small = ground arith
