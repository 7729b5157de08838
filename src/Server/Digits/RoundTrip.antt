-- ===== src/Server/Digits/RoundTrip.antt =====
-- Decimal text of backend/server/diagnostics.go.
use mathlib.Core.WellFounded.{Acc}
use native.Mathlib.Nat.{le_refl}
use realmrunner.Common.{ℕ, zero, suc, ◌+◌, ◌-◌, ◌*◌, ◌/◌, ◌%◌, ◌≤◌, ◌<◌, ◌≡◌, refl, true, arith}
use realmrunner.Common.{
  List, [], ◌∷◌, ◌++◌, append_assoc, append-nil, All, All-append, length, length-append, Bool-cases,
  inl, inr, ◌==◌, if◌then◌else◌,
}
use realmrunner.Common.Order.{lt_wf}
use realmrunner.Common.Text.{is_digit, value_from, value, starts_no_digit}
use realmrunner.Server.Digits.{atoi_from, atoi, itoa_loop, itoa}

-- The decimal digits of a number, lowest last; none for 0.
pub decimal : ℕ → ℕ → List ℕ
decimal zero n = []
decimal (suc k) n =
    let front = decimal k (n / 10) in if n == 0 then [] else front ++ (b'0' + n % 10) ∷ []

itoa_loop-decimal :
    (k n : ℕ) (w : Acc ◌<◌ n) (digits : List ℕ)
    → n ≤ k
    → itoa_loop n w digits ≡ decimal k n ++ digits
unfolding itoa_loop decimal
itoa_loop-decimal zero n (Acc.intro _ smaller) digits h = ground arith
itoa_loop-decimal (suc k) n (Acc.intro _ smaller) digits h = grind (
  arith,
  λ (w : Acc ◌<◌ (n / 10)). itoa_loop-decimal k (n / 10) w ((b'0' + n % 10) ∷ digits) (omega arith),
  append_assoc (decimal k (n / 10)) ((b'0' + n % 10) ∷ []) digits,
)

value_from-append :
    (xs ys : List ℕ) (acc : ℕ) → value_from acc (xs ++ ys) ≡ value_from (value_from acc xs) ys
unfolding value_from
value_from-append [] ys acc = refl
value_from-append (x ∷ xs) ys acc = value_from-append xs ys (acc * 10 + (x - 48))

value_from-decimal : (k n : ℕ) → n ≤ k → value_from 0 (decimal k n) ≡ n
unfolding decimal value_from
value_from-decimal zero n h = omega arith
value_from-decimal (suc k) n h = ground (
  arith,
  value_from-append (decimal k (n / 10)) ((b'0' + n % 10) ∷ []) 0,
  value_from-decimal k (n / 10),
)

last_digit : (d : ℕ) → d < 10 → is_digit (b'0' + d) ≡ true
last_digit d h = ground arith

decimal-digits : (k n : ℕ) → All (λ c. is_digit c ≡ true) (decimal k n)
unfolding decimal
decimal-digits zero n = tt
decimal-digits (suc k) n = elim (Bool-cases (n == 0)) [
  | inl e ↦ rw e tt
  | inr e ↦ rw e (
      All-append (λ c. is_digit c ≡ true) (decimal k (n / 10)) ((b'0' + n % 10) ∷ [])
        (decimal-digits k (n / 10)) (last_digit (n % 10) (omega arith), tt))
]

length-decimal : (k n : ℕ) → n ≤ k → 0 < n → 0 < length (decimal k n)
unfolding decimal
length-decimal zero n h pos = omega arith
length-decimal (suc k) n h pos =
    ground (arith, length-append (decimal k (n / 10)) ((b'0' + n % 10) ∷ []))

itoa-decimal : (n : ℕ) → 0 < n → itoa n ≡ decimal n n
unfolding itoa
itoa-decimal n h =
    ground (arith, itoa_loop-decimal n n (lt_wf.apply n) [] (le_refl n), append-nil (decimal n n))

-- itoa writes digits alone, at least one, and they stand for the number.
pub itoa_digits :
    (n : ℕ) → All (λ c. is_digit c ≡ true) (itoa n) × (value (itoa n) ≡ n) × (0 < length (itoa n))
unfolding value
itoa_digits zero = unfold itoa value_from in (ground arith, refl, omega arith)
itoa_digits (suc n) = rw (itoa-decimal (suc n) (omega arith)) (
  decimal-digits (suc n) (suc n),
  value_from-decimal (suc n) (suc n) (le_refl (suc n)),
  length-decimal (suc n) (suc n) (le_refl (suc n)) (omega arith),
)

atoi_from-append :
    (xs ys : List ℕ) (acc : ℕ)
    → All (λ c. is_digit c ≡ true) xs
    → atoi_from acc (xs ++ ys) ≡ atoi_from (value_from acc xs) ys
unfolding value_from
atoi_from-append [] ys acc h = refl
atoi_from-append (x ∷ xs) ys acc (hx, hs) =
    ground (arith, atoi_from-append xs ys (acc * 10 + (x - 48)) hs)

-- atoi reads back what itoa wrote, up to the first code point that is no digit.
pub atoi-itoa : (n : ℕ) (rest : List ℕ) → starts_no_digit rest ≡ true → atoi (itoa n ++ rest) ≡ n
unfolding atoi value
atoi-itoa n [] h =
    let (ds, v, _) = itoa_digits n in ground (arith, atoi_from-append (itoa n) [] 0 ds)
atoi-itoa n (c ∷ cs) h =
    let (ds, v, _) = itoa_digits n in ground (arith, atoi_from-append (itoa n) (c ∷ cs) 0 ds)
