-- ===== src/Common/Bits.antt =====
-- The masks and shifts of the codecs, as arithmetic.
use Prim.Native.Nat.{bit_and, bit_or, bit_or-bitwise, bit_and-bitwise, digits, max, min}
use Prim.Native.Nat.{ℕ, suc, zero, ◌%◌, ◌*◌, ◌+◌, ◌/◌, ◌<◌, ◌^◌, ◌≤◌}
use mathlib.Core.Path.{ap, refl, ◌∙◌, ◌≡◌}
use native.Mathlib.Nat.{le_refl, pow-suc}
use native.Mathlib.Omega.{arith}

-- The native operations run on a count of rounds `n`, which the first number bounds.
and_none : (n a : ℕ) → digits (λ y. 0) min n a 0 ≡ 0
and_none zero a = refl
and_none (suc n) zero = refl
and_none (suc n) (suc a) = omega (arith, and_none n (suc a / 2))

-- The mask of the lowest `k` bits, and what it leaves of a number.
mask : ℕ → ℕ
mask zero = 0
mask (suc k) = 2 * mask k + 1

masked : ℕ → ℕ → ℕ
masked zero a = 0
masked (suc k) a = 2 * masked k (a / 2) + a % 2

masked_nothing : (k : ℕ) → masked k 0 ≡ 0
unfolding masked
masked_nothing zero = refl
masked_nothing (suc k) = omega (arith, masked_nothing k)

and_mask : (k n a : ℕ) → a ≤ n → digits (λ y. 0) min n a (mask k) ≡ masked k a
unfolding mask masked
and_mask zero n a h = and_none n a
and_mask (suc k) zero zero h = omega (arith, masked_nothing k)
and_mask (suc k) zero (suc a) h = elim h [ ]
and_mask (suc k) (suc n) zero h = omega (arith, masked_nothing k)
and_mask (suc k) (suc n) (suc a) h =
    let half : (2 * mask k + 1) / 2 ≡ mask k = omega arith in
    let odd : (2 * mask k + 1) % 2 ≡ 1 = omega arith in
    let rest = and_mask k n (suc a / 2) (omega arith) in rw (half, odd) (omega (arith, rest))

pub low_seven : (x : ℕ) → bit_and x 0x7F ≡ x % 128
unfolding mask masked
low_seven x = omega (arith, bit_and-bitwise x 0x7F, and_mask 7 x x (le_refl x))

-- A single bit, and what it leaves of a number.
bit : ℕ → ℕ
bit zero = 1
bit (suc k) = 2 * bit k

bit_of : ℕ → ℕ → ℕ
bit_of zero a = a % 2
bit_of (suc k) a = 2 * bit_of k (a / 2)

bit_of_nothing : (k : ℕ) → bit_of k 0 ≡ 0
unfolding bit_of
bit_of_nothing zero = omega arith
bit_of_nothing (suc k) = omega (arith, bit_of_nothing k)

and_bit : (k n a : ℕ) → a ≤ n → digits (λ y. 0) min n a (bit k) ≡ bit_of k a
unfolding bit bit_of
and_bit k zero zero h = omega (arith, bit_of_nothing k)
and_bit k zero (suc a) h = elim h [ ]
and_bit k (suc n) zero h = omega (arith, bit_of_nothing k)
and_bit zero (suc n) (suc a) h = omega (arith, and_none n (suc a / 2))
and_bit (suc k) (suc n) (suc a) h =
    let half : 2 * bit k / 2 ≡ bit k = omega arith in
    let even : 2 * bit k % 2 ≡ 0 = omega arith in
    let rest = and_bit k n (suc a / 2) (omega arith) in rw (half, even) (omega (arith, rest))

pub top_bit : (x : ℕ) → x < 256 → bit_and x 0x80 ≡ x / 128 * 128
unfolding bit bit_of
top_bit x h = omega (arith, bit_and-bitwise x 0x80, and_bit 7 x x (le_refl x))

-- `low | high << k` is a sum where `low` is below the shifted part.
or_shifted :
    (n k low high : ℕ)
    → low ≤ n
    → low < 2 ^ k
    → digits (λ y. y) max n low (high * 2 ^ k) ≡ low + high * 2 ^ k
or_shifted zero k zero high h fits = omega arith
or_shifted zero k (suc low) high h fits = elim h [ ]
or_shifted (suc n) k zero high h fits = omega arith
or_shifted (suc n) zero (suc low) high h fits = absurd (omega arith)
or_shifted (suc n) (suc k) (suc low) high h fits =
    let twice : high * 2 ^ suc k ≡ high * 2 ^ k * 2 =
      omega (arith, ap (λ (t : ℕ). high * t) (pow-suc 2 k)) in
    let half : high * 2 ^ k * 2 / 2 ≡ high * 2 ^ k = omega arith in
    let even : high * 2 ^ k * 2 % 2 ≡ 0 = omega arith in
    let rest = or_shifted n k (suc low / 2) high (omega arith) (omega (arith, pow-suc 2 k)) in
    rw (twice, half, even) (omega (arith, rest))

pub bit_or_high : (k low high : ℕ) → low < 2 ^ k → bit_or low (high * 2 ^ k) ≡ low + high * 2 ^ k
bit_or_high k low high fits =
    bit_or-bitwise low (high * 2 ^ k) ∙ or_shifted low k low high (le_refl low) fits

pub set_top_bit : (x : ℕ) → x < 128 → bit_or x 0x80 ≡ x + 128
set_top_bit x h = bit_or_high 7 x 1 h
