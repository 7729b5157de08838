-- ===== src/Mcproto/VarInt/Reading.antt =====
-- ReadVarInt and WriteVarInt of backend/mcproto/protocol.go on any input, well formed or not.
use realmrunner.Common.{ℕ, zero, suc, ◌+◌, ◌*◌, ◌/◌, ◌%◌, ◌^◌, ◌≤◌, ◌<◌, ◌≡◌, arith}
use realmrunner.Common.{bit_and, bit_or}
use realmrunner.Common.{List, [], ◌∷◌, ◌++◌, length, All}
use realmrunner.Common.Int.{ℤ, of_u32, IsI32, u32_mod}
use realmrunner.Mcproto.Stream.{ok}
use realmrunner.Mcproto.VarInt.{write_var_int, read_groups, read_var_int}
use realmrunner.Mcproto.VarInt.RoundTrip.{groups, write_var_int-groups}
use realmrunner.Common.Int.{to_u32, to_u32-lt}

pub of_u32-IsI32 : (u : ℕ) → u < u32_mod → IsI32 (of_u32 u)
unfolding of_u32
of_u32-IsI32 u h = ground arith

-- A successful read takes at least one byte, and five at most.
read_groups_takes :
    (s : List ℕ) (r shift j : ℕ) (z : ℤ) (rest : List ℕ)
    → shift ≡ 7 * j
    → j ≤ 4
    → read_groups r shift s ≡ ok (z, rest)
    → (length rest < length s) × (length s + j ≤ length rest + 5)
unfolding read_groups
read_groups_takes [] r shift j z rest hs hj e = ground arith
read_groups_takes (b ∷ bs) r shift j z rest hs hj e = ground (
  arith,
  read_groups_takes bs (bit_or r (bit_and b 0x7F * 2 ^ shift % u32_mod)) (shift + 7) (j + 1) z rest,
)

-- A read of ReadVarInt that succeeds takes one to five bytes.
pub read_var_int_takes :
    (s : List ℕ) (z : ℤ) (rest : List ℕ)
    → read_var_int s ≡ ok (z, rest)
    → (length rest < length s) × (length s ≤ length rest + 5)
unfolding read_var_int
read_var_int_takes s z rest e = ground (arith, read_groups_takes s 0 0 0 z rest)

-- Bytes behind the number join what is left; they never change its value.
read_groups-append :
    (s more : List ℕ) (r shift : ℕ) (z : ℤ) (rest : List ℕ)
    → read_groups r shift s ≡ ok (z, rest)
    → read_groups r shift (s ++ more) ≡ ok (z, rest ++ more)
unfolding read_groups
read_groups-append [] more r shift z rest e = ground arith
read_groups-append (b ∷ bs) more r shift z rest e = ground (
  arith,
  read_groups-append bs more (bit_or r (bit_and b 0x7F * 2 ^ shift % u32_mod)) (shift + 7) z rest,
)

-- Where ReadVarInt succeeds, bytes behind what it read change neither the number nor what is left but
-- by joining it.
pub read_var_int-append :
    (s more : List ℕ) (z : ℤ) (rest : List ℕ)
    → read_var_int s ≡ ok (z, rest)
    → read_var_int (s ++ more) ≡ ok (z, rest ++ more)
unfolding read_var_int
read_var_int-append s more z rest e = read_groups-append s more 0 0 z rest e

abbrev pub IsByte : ℕ → Type 0
IsByte b = b < 256

groups-IsByte : (k u : ℕ) → u < 128 ^ suc k → All IsByte (groups k u)
unfolding groups
groups-IsByte zero u h = omega arith
groups-IsByte (suc k) u h = ground (arith, groups-IsByte k (u / 128) (omega arith))

length-groups : (k u : ℕ) → (1 ≤ length (groups k u)) × (length (groups k u) ≤ k + 1)
unfolding groups
length-groups zero u = omega arith
length-groups (suc k) u = ground (arith, length-groups k (u / 128))

-- WriteVarInt writes one to five bytes.
pub write_var_int_shape :
    (z : ℤ)
    → All IsByte (write_var_int z) × (1 ≤ length (write_var_int z)) × (length (write_var_int z) ≤ 5)
write_var_int_shape z =
    let (lo, hi) = length-groups 4 (to_u32 z) in
    rw write_var_int-groups (groups-IsByte 4 (to_u32 z) (omega (arith, to_u32-lt z)), lo, hi)
