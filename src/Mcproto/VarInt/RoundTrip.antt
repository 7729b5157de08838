-- ===== src/Mcproto/VarInt/RoundTrip.antt =====
-- ReadVarInt reads back what WriteVarInt wrote.
use mathlib.Core.WellFounded.{Acc}
use realmrunner.Common.{ℕ, zero, suc, ◌+◌, ◌*◌, ◌/◌, ◌%◌, ◌^◌, ◌<◌, ◌≡◌, ap, arith, bit_and, bit_or}
use realmrunner.Common.{List, [], ◌∷◌, ◌++◌, ltb, if◌then◌else◌}
use realmrunner.Common.Bits.{low_seven, top_bit, set_top_bit, bit_or_high}
use realmrunner.Common.Int.{ℤ, to_u32, of_u32, u32_mod, IsI32, to_u32-lt, of_u32-to_u32}
use realmrunner.Common.Order.{lt_wf}
use realmrunner.Mcproto.Stream.{ok}
use realmrunner.Mcproto.VarInt.{write_groups, write_var_int, read_groups, read_var_int}
use native.Mathlib.Numerals.{towards_suc}
use native.Mathlib.Nat.{div-add-mod}

-- What the loop writes, in plain arithmetic, for a number of at most k + 1 groups.
unfoldable pub groups : ℕ → ℕ → List ℕ
groups zero u = u ∷ []
groups (suc k) u =
    let rest = groups k (u / 128) in if ltb u 128 then u ∷ [] else (u % 128 + 128) ∷ rest

-- What one round writes.
last_group : (u : ℕ) → u < 128 → bit_and u 0x7F % 256 ≡ u
last_group u h = omega (arith, low_seven u)

inner_group : (u : ℕ) → bit_or (bit_and u 0x7F % 256) 0x80 ≡ u % 128 + 128
inner_group u = rw low_seven (omega (arith, set_top_bit (u % 128 % 256)))

write_groups-groups : (k u : ℕ) (w : Acc ◌<◌ u) → u < 128 ^ suc k → write_groups u w ≡ groups k u
unfolding write_groups groups
write_groups-groups zero u (Acc.intro _ smaller) h = ground (arith, last_group u)
write_groups-groups (suc k) u (Acc.intro _ smaller) h = grind (
  arith,
  last_group u,
  inner_group u,
  λ (w : Acc ◌<◌ (u / 128)). write_groups-groups k (u / 128) w (omega arith),
)

-- WriteVarInt writes the groups of the 32-bit pattern, of which there are at most five.
pub write_var_int-groups : (z : ℤ) → write_var_int z ≡ groups 4 (to_u32 z)
unfolding write_var_int
write_var_int-groups z =
    write_groups-groups 4 (to_u32 z) (lt_wf.apply (to_u32 z)) (omega (arith, to_u32-lt z))

pub shift_seven : (s : ℕ) → 2 ^ (s + 7) ≡ 128 * 2 ^ s
shift_seven s = simp towards_suc (omega arith)

-- The lowest group of `u` and the rest, both shifted by `s`.
pub split_group : (u s : ℕ) → u * 2 ^ s ≡ u % 128 * 2 ^ s + u / 128 * 2 ^ (s + 7)
split_group u s = omega (
  arith,
  ap (λ (t : ℕ). t * 2 ^ s) (div-add-mod u 128),
  ap (λ (t : ℕ). u / 128 * t) (shift_seven s),
)

-- One round of the reader on a group without and with the continuation bit.
read_last :
    (g r s : ℕ) (rest : List ℕ)
    → g < 128
    → r < 2 ^ s
    → r + g * 2 ^ s < u32_mod
    → read_groups r s (g ∷ rest) ≡ ok (of_u32 (r + g * 2 ^ s), rest)
unfolding read_groups
read_last g r s rest hg hr fits = ground (arith, low_seven g, top_bit g, bit_or_high s r g)

read_inner :
    (g r s : ℕ) (rest : List ℕ)
    → g < 128
    → r < 2 ^ s
    → s + 7 < 35
    → r + g * 2 ^ s < u32_mod
    → read_groups r s ((g + 128) ∷ rest) ≡ read_groups (r + g * 2 ^ s) (s + 7) rest
unfolding read_groups
read_inner g r s rest hg hr hs fits =
    ground (arith, low_seven (g + 128), top_bit (g + 128), bit_or_high s r g)

pub below_next : (g r s : ℕ) → g < 128 → r < 2 ^ s → r + g * 2 ^ s < 2 ^ (s + 7)
below_next g r s hg hr = grind (arith, shift_seven s)

-- `u` is what is still to be read, and it counts from bit `s` on.
read_groups-groups :
    (k u r s : ℕ) (rest : List ℕ)
    → u < 128 ^ suc k
    → r < 2 ^ s
    → s + 7 * k < 35
    → r + u * 2 ^ s < u32_mod
    → read_groups r s (groups k u ++ rest) ≡ ok (of_u32 (r + u * 2 ^ s), rest)
unfolding groups
read_groups-groups zero u r s rest hu hr hs fits = read_last u r s rest hu hr fits
read_groups-groups (suc k) u r s rest hu hr hs fits = ground (
  arith,
  read_last u r s rest,
  split_group u s,
  read_inner (u % 128) r s (groups k (u / 128) ++ rest),
  below_next (u % 128) r s,
  read_groups-groups k (u / 128) (r + u % 128 * 2 ^ s) (s + 7) rest (omega arith),
)

-- ReadVarInt returns any Go `int` that WriteVarInt wrote as its low 32 bits, read as a signed
-- number, and leaves what follows.
pub read_var_int-write_var_int :
    (z : ℤ) (rest : List ℕ) → read_var_int (write_var_int z ++ rest) ≡ ok (of_u32 (to_u32 z), rest)
unfolding read_var_int
read_var_int-write_var_int z rest =
    rw write_var_int-groups (ground (arith, to_u32-lt z, read_groups-groups 4 (to_u32 z) 0 0 rest))

-- ReadVarInt returns the `int32` that WriteVarInt wrote, negative ones included.
pub var_int_round_trip :
    (z : ℤ) (rest : List ℕ) → IsI32 z → read_var_int (write_var_int z ++ rest) ≡ ok (z, rest)
var_int_round_trip z rest h = rw (read_var_int-write_var_int, of_u32-to_u32 z h)
