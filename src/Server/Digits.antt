-- ===== src/Server/Digits.antt =====
-- atoi and itoa of backend/server/diagnostics.go, on code points.
pub mod RoundTrip
use mathlib.Core.Logic.{dite}
use mathlib.Core.WellFounded.{Acc}
use native.Mathlib.Decide.{dec_lt}
use realmrunner.Common.{
  ℕ, zero, suc, ◌+◌, ◌-◌, ◌*◌, ◌/◌, ◌%◌, ◌<◌, ◌||◌, List, [], ◌∷◌, ◌++◌, arith,
}
use realmrunner.Common.{ltb, ◌==◌, if◌then◌else◌}
use realmrunner.Common.Order.{lt_wf}

abbrev pub atoi_from : ℕ → List ℕ → ℕ
atoi_from result [] = result
atoi_from result (r ∷ rs) =
    let rest = atoi_from (result * 10 + (r - b'0')) rs in
    if ltb r b'0' || ltb b'9' r then result else rest

-- Stops at the first code point that is no digit.
unfoldable pub atoi : List ℕ → ℕ
atoi text = atoi_from 0 text

pub tenth_shrinks : (n : ℕ) → 0 < n → n / 10 < n
tenth_shrinks n h = omega arith

-- `for value > 0`, which prepends a digit in each round.
unfoldable pub itoa_loop : (n : ℕ) → Acc ◌<◌ n → List ℕ → List ℕ
unfolding dec_lt
itoa_loop n (Acc.intro _ smaller) digits =
    dite (dec_lt 0 n)
      (λ h. itoa_loop (n / 10) (smaller _ (tenth_shrinks n h)) ((b'0' + n % 10) ∷ digits))
      (λ _. digits)

-- A negative `int` would give no digits at all; the callers pass counts.
unfoldable pub itoa : ℕ → List ℕ
unfolding itoa_loop lt_wf
itoa n = if n == 0 then b'0' ∷ [] else itoa_loop n (lt_wf.apply n) []
