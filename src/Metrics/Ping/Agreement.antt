-- ===== src/Metrics/Ping/Agreement.antt =====
-- The packet reader of backend/metrics/ping.go beside that of backend/mcproto/protocol.go.
use realmrunner.Common.{ℕ, ◌+◌, ◌*◌, ◌%◌, ◌^◌, ◌≤◌, ◌<◌, ◌≡◌, refl, arith, bit_and, bit_or}
use realmrunner.Common.{List, [], ◌∷◌}
use realmrunner.Common.Bits.{low_seven, bit_or_high}
use realmrunner.Common.Int.{pos, of_u32, u32_mod}
use realmrunner.Mcproto.Stream.{Result, ok, err, read_full}
use realmrunner.Mcproto.VarInt as Shared
use realmrunner.Mcproto.VarInt.{write_var_int}
use realmrunner.Mcproto.VarInt.RoundTrip.{below_next}
use realmrunner.Mcproto.Packet as Packets
use realmrunner.Metrics.Ping.{read_groups, read_var_int, read_block, read_packet}

-- One round of either reader, in plain arithmetic.
pub or_group : (b r s : ℕ) → r < 2 ^ s → bit_or r (bit_and b 0x7F * 2 ^ s) ≡ r + b % 128 * 2 ^ s
or_group b r s h = rw low_seven (bit_or_high s r (b % 128) h)

-- What is read never falls below what was read so far.
le-read_groups :
    (bs : List ℕ) (r s u : ℕ) (rest : List ℕ)
    → r < 2 ^ s
    → read_groups r s bs ≡ ok (u, rest)
    → r ≤ u
unfolding read_groups
le-read_groups [] r s u rest h e = ground arith
le-read_groups (b ∷ bs) r s u rest h e = ground (
  arith,
  or_group b r s,
  below_next (b % 128) r s,
  le-read_groups bs (r + b % 128 * 2 ^ s) (s + 7) u rest,
)

or_group32 :
    (b r s : ℕ)
    → r < 2 ^ s
    → r + b % 128 * 2 ^ s < u32_mod
    → bit_or r (bit_and b 0x7F * 2 ^ s % u32_mod) ≡ r + b % 128 * 2 ^ s
or_group32 b r s h fits = rw low_seven (ground (arith, bit_or_high s r (b % 128)))

group-le-read_groups :
    (b : ℕ) (bs : List ℕ) (r s u : ℕ) (rest : List ℕ)
    → r < 2 ^ s
    → read_groups r s (b ∷ bs) ≡ ok (u, rest)
    → r + b % 128 * 2 ^ s ≤ u
unfolding read_groups
group-le-read_groups b bs r s u rest h e = ground (
  arith,
  or_group b r s,
  below_next (b % 128) r s,
  le-read_groups bs (r + b % 128 * 2 ^ s) (s + 7) u rest,
)

read_groups_agree :
    (bs : List ℕ) (r s u : ℕ) (rest : List ℕ)
    → r < 2 ^ s
    → read_groups r s bs ≡ ok (u, rest)
    → u < 2147483648
    → Shared.read_groups r s bs ≡ ok (pos u, rest)
unfolding read_groups Shared.read_groups of_u32
read_groups_agree [] r s u rest h e fits = ground arith
read_groups_agree (b ∷ bs) r s u rest h e fits = ground (
  arith,
  group-le-read_groups b bs r s u rest h e,
  or_group b r s,
  or_group32 b r s,
  below_next (b % 128) r s,
  read_groups_agree bs (r + b % 128 * 2 ^ s) (s + 7) u rest,
)

read_var_int_agree :
    (bs : List ℕ) (u : ℕ) (rest : List ℕ)
    → read_var_int bs ≡ ok (u, rest)
    → u < 2147483648
    → Shared.read_var_int bs ≡ ok (pos u, rest)
unfolding read_var_int Shared.read_var_int
read_var_int_agree bs u rest e fits = read_groups_agree bs 0 0 u rest (omega arith) e fits

-- A read that succeeds, taken apart.
read_block_parts :
    (limit : ℕ) (s body rest : List ℕ)
    → read_block limit s ≡ ok (body, rest)
    → (n : ℕ) × (mid : List ℕ) × (n ≤ limit)
      × (read_var_int s ≡ ok (n, mid))
      × (read_full n mid ≡ ok (body, rest))
unfolding read_block
read_block_parts limit s body rest e = go (read_var_int s) refl
  where
    go :
        (r : Result (ℕ × List ℕ))
        → read_var_int s ≡ r
        → (n : ℕ) × (mid : List ℕ) × (n ≤ limit)
          × (read_var_int s ≡ ok (n, mid))
          × (read_full n mid ≡ ok (body, rest))
    go (ok (n, mid)) p = (n, mid, ground arith, p, ground arith)
    go (err x) p = ground arith

-- Every packet that the poller's reader accepts, the shared reader accepts with the same body and
-- the same rest.
pub read_packet_agree :
    (s body rest : List ℕ)
    → read_packet s ≡ ok (body, rest)
    → Packets.read_packet s ≡ ok (body, rest)
unfolding read_packet Packets.read_packet
read_packet_agree s body rest e =
    let (n, mid, fits, head, tail) = read_block_parts 2097151 s body rest e in
    ground (arith, read_var_int_agree s n mid head)
