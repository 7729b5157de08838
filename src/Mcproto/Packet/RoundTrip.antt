-- ===== src/Mcproto/Packet/RoundTrip.antt =====
-- Strings and packets read back, and what ReadPacket guarantees on hostile input.
use realmrunner.Common.{ℕ, ◌+◌, ◌≤◌, ◌<◌, ◌≡◌, refl, List, ◌++◌, length, arith, append_assoc}
use realmrunner.Common.Int.{ℤ, pos, negsuc}
use realmrunner.Mcproto.Stream.{
  Result, ok, err, out_of_range, read_full-append, read_full, read_full_takes,
}
use realmrunner.Mcproto.VarInt.{write_var_int, read_var_int}
use realmrunner.Mcproto.VarInt.RoundTrip.{var_int_round_trip}
use realmrunner.Mcproto.VarInt.Reading.{read_var_int_takes}
use realmrunner.Mcproto.Packet.{
  max_packet_size, max_string_length, read_block, write_string, read_string, write_packet,
  read_packet,
}

read_block-write :
    (limit : ℕ) (body rest : List ℕ)
    → limit < 2147483648
    → length body ≤ limit
    → read_block limit ((write_var_int (pos (length body)) ++ body) ++ rest) ≡ ok (body, rest)
unfolding read_block
read_block-write limit body rest small fits = rw append_assoc (
    ground
      (arith, var_int_round_trip (pos (length body)) (body ++ rest), read_full-append body rest))

-- ReadString returns a string of at most 32767 bytes that WriteString wrote, and leaves what follows.
pub read_string-write_string :
    (value rest : List ℕ)
    → length value ≤ max_string_length
    → read_string (write_string value ++ rest) ≡ ok (value, rest)
unfolding read_string write_string
read_string-write_string value rest h =
    read_block-write max_string_length value rest (omega arith) h

-- ReadPacket returns the body that WritePacket framed, if it is within MaxPacketSize, and leaves the
-- bytes that follow.
pub read_packet-write_packet :
    (body rest : List ℕ)
    → length body ≤ max_packet_size
    → read_packet (write_packet body ++ rest) ≡ ok (body, rest)
unfolding read_packet write_packet
read_packet-write_packet body rest h = read_block-write max_packet_size body rest (omega arith) h

-- A longer body is refused before any of it is read.
pub read_packet_oversize :
    (body rest : List ℕ)
    → max_packet_size < length body
    → length body < 2147483648
    → read_packet (write_packet body ++ rest) ≡ err (out_of_range (pos (length body)))
unfolding read_packet write_packet
read_packet_oversize body rest big fits =
    rw append_assoc (ground (arith, var_int_round_trip (pos (length body)) (body ++ rest)))

-- A read that succeeds, taken apart.
read_block_parts :
    (limit : ℕ) (s body rest : List ℕ)
    → read_block limit s ≡ ok (body, rest)
    → (n : ℕ) × (mid : List ℕ) × (n ≤ limit)
      × (read_var_int s ≡ ok (pos n, mid))
      × (read_full n mid ≡ ok (body, rest))
unfolding read_block
read_block_parts limit s body rest e = go (read_var_int s) refl
  where
    go :
        (r : Result (ℤ × List ℕ))
        → read_var_int s ≡ r
        → (n : ℕ) × (mid : List ℕ) × (n ≤ limit)
          × (read_var_int s ≡ ok (pos n, mid))
          × (read_full n mid ≡ ok (body, rest))
    go (ok (pos n, mid)) p = (n, mid, ground arith, p, ground arith)
    go (ok (negsuc n, mid)) p = ground arith
    go (err x) p = ground arith

-- On any stream, what ReadPacket returns is within MaxPacketSize, and it takes the body with a
-- length prefix of one to five bytes.
pub read_packet_bounds :
    (s body rest : List ℕ)
    → read_packet s ≡ ok (body, rest)
    → (length body ≤ max_packet_size)
      × (length body + length rest < length s)
      × (length s ≤ length body + length rest + 5)
unfolding read_packet
read_packet_bounds s body rest e =
    let (n, mid, fits, head, tail) = read_block_parts max_packet_size s body rest e in
    omega (arith, read_var_int_takes s (pos n) mid head, read_full_takes n mid tail)
