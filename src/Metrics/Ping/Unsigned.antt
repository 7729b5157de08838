-- ===== src/Metrics/Ping/Unsigned.antt =====
-- readVarInt of backend/metrics/ping.go on what WriteVarInt of backend/mcproto/protocol.go writes.
use realmrunner.Common.{ℕ, zero, suc, ◌+◌, ◌*◌, ◌/◌, ◌%◌, ◌^◌, ◌<◌, ◌≡◌, arith}
use realmrunner.Common.{List, ◌∷◌, ◌++◌}
use realmrunner.Common.Bits.{top_bit}
use realmrunner.Common.Int.{ℤ, to_u32, to_u32-lt}
use realmrunner.Mcproto.Stream.{ok}
use realmrunner.Mcproto.VarInt.{write_var_int}
use realmrunner.Mcproto.VarInt.RoundTrip.{groups, write_var_int-groups, split_group, below_next}
use realmrunner.Metrics.Ping.{read_groups, read_var_int}
use realmrunner.Metrics.Ping.Agreement.{or_group}

-- One round on a group without and with the continuation bit.
read_last :
    (g r s : ℕ) (rest : List ℕ)
    → g < 128
    → r < 2 ^ s
    → read_groups r s (g ∷ rest) ≡ ok (r + g * 2 ^ s, rest)
unfolding read_groups
read_last g r s rest hg hr = ground (arith, or_group g r s, top_bit g)

read_inner :
    (g r s : ℕ) (rest : List ℕ)
    → g < 128
    → r < 2 ^ s
    → s + 7 < 35
    → read_groups r s ((g + 128) ∷ rest) ≡ read_groups (r + g * 2 ^ s) (s + 7) rest
unfolding read_groups
read_inner g r s rest hg hr hs = ground (arith, or_group (g + 128) r s, top_bit (g + 128))

read_groups-groups :
    (k u r s : ℕ) (rest : List ℕ)
    → u < 128 ^ suc k
    → r < 2 ^ s
    → s + 7 * k < 35
    → read_groups r s (groups k u ++ rest) ≡ ok (r + u * 2 ^ s, rest)
unfolding groups
read_groups-groups zero u r s rest hu hr hs = read_last u r s rest hu hr
read_groups-groups (suc k) u r s rest hu hr hs = ground (
  arith,
  read_last u r s rest,
  split_group u s,
  read_inner (u % 128) r s (groups k (u / 128) ++ rest),
  below_next (u % 128) r s,
  read_groups-groups k (u / 128) (r + u % 128 * 2 ^ s) (s + 7) rest (omega arith),
)

-- The poller's reader returns the 32-bit pattern that was written, unsigned: a negative `int32` z
-- comes back as z + 2 ^ 32.
pub read_var_int_unsigned :
    (z : ℤ) (rest : List ℕ) → read_var_int (write_var_int z ++ rest) ≡ ok (to_u32 z, rest)
unfolding read_var_int
read_var_int_unsigned z rest =
    rw write_var_int-groups (ground (arith, to_u32-lt z, read_groups-groups 4 (to_u32 z) 0 0 rest))
