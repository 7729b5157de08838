-- ===== src/Mcproto/Stream.antt =====
-- `io.Reader` as the codecs of backend/mcproto/protocol.go and backend/metrics/ping.go use it: the
-- bytes that are still to come, on a connection that then ends. A reader returns its value with
-- the bytes that it left; what it left behind an error is not kept, since no caller reads on.
use realmrunner.Common.{ℕ, zero, suc, ◌+◌, ◌≤◌, ◌≡◌, ◌⊎◌, inl, inr, refl, List, [], ◌∷◌, ◌++◌}
use realmrunner.Common.{arith, leb, if◌then◌else◌, length, length-append, take, drop}
use realmrunner.Common.{take-append, drop-append}
use realmrunner.Common.Int.{ℤ}

pub data ReadError : Type 0 where
  eof unexpected_eof var_int_too_big : ReadError
  out_of_range : ℤ → ReadError
  unexpected_packet : ℤ → ReadError

-- Go's (value, error) pair.
pub data Result {ℓ} (A : Type ℓ) : Type ℓ where
  ok : A → Result A
  err : ReadError → Result A

pub Result-cases {ℓ} :
    {A : Type ℓ} (r : Result A) → ((a : A) × (r ≡ ok a)) ⊎ ((e : ReadError) × (r ≡ err e))
Result-cases (ok a) = inl (a, refl)
Result-cases (err e) = inr (e, refl)

abbrev pub Reader {ℓ} : Type ℓ → Type ℓ
Reader A = List ℕ → Result (A × List ℕ)

abbrev pub and_then {ℓ κ} :
    {A : Type ℓ} {B : Type κ} → Result (A × List ℕ) → (A → Reader B) → Result (B × List ℕ)
and_then (ok (a, rest)) f = f a rest
and_then (err e) f = err e

infixl 5 ◌>>=◌ ◌>>◌
abbrev pub ◌>>=◌ {ℓ κ} : {A : Type ℓ} {B : Type κ} → Reader A → (A → Reader B) → Reader B
◌>>=◌ m f s = and_then (m s) f

abbrev pub ◌>>◌ {ℓ κ} : {A : Type ℓ} {B : Type κ} → Reader A → Reader B → Reader B
m >> n = m >>= λ _. n

abbrev pub pure {ℓ} : {A : Type ℓ} → A → Reader A
pure a s = ok (a, s)

abbrev pub fail {ℓ} : {A : Type ℓ} → ReadError → Reader A
fail e s = err e

abbrev short_read : List ℕ → ReadError
short_read [] = eof
short_read (b ∷ bs) = unexpected_eof

-- `io.ReadFull` into a buffer of n bytes
unfoldable pub read_full : ℕ → Reader (List ℕ)
read_full n s = if leb n (length s) then ok (take n s, drop n s) else err (short_read s)

pub read_full-append : (xs ys : List ℕ) → read_full (length xs) (xs ++ ys) ≡ ok (xs, ys)
unfolding read_full
read_full-append xs ys = ground (arith, length-append xs ys, take-append xs ys, drop-append xs ys)

length-take-drop :
    (n : ℕ) (s : List ℕ)
    → n ≤ length s
    → (length (take n s) ≡ n) × (length (drop n s) + n ≡ length s)
length-take-drop zero s h = omega arith
length-take-drop (suc n) [] h = absurd (omega arith)
length-take-drop (suc n) (b ∷ s) h = omega (arith, length-take-drop n s (omega arith))

pub read_full_takes :
    (n : ℕ) (s : List ℕ) {xs rest : List ℕ}
    → read_full n s ≡ ok (xs, rest)
    → (length xs ≡ n) × (length rest + n ≡ length s)
unfolding read_full
read_full_takes n s h = ground (arith, length-take-drop n s)

and_then-eq-ok {ℓ κ} :
    {A : Type ℓ} {B : Type κ} (r : Result (A × List ℕ)) (f : A → Reader B) {b : B × List ℕ}
    → and_then r f ≡ ok b
    → (a : A) × (rest : List ℕ) × (r ≡ ok (a, rest)) × (f a rest ≡ ok b)
and_then-eq-ok (ok (a, rest)) f e = (a, rest, refl, e)
and_then-eq-ok (err x) f e = cc

-- Inversion of a successful bind.
pub >>=-eq-ok {ℓ κ} :
    {A : Type ℓ} {B : Type κ} (m : Reader A) (f : A → Reader B) (s : List ℕ) {b : B × List ℕ}
    → (m >>= f) s ≡ ok b
    → (a : A) × (rest : List ℕ) × (m s ≡ ok (a, rest)) × (f a rest ≡ ok b)
>>=-eq-ok m f s e = and_then-eq-ok (m s) f e
