-- ===== src/Metrics/Ping.antt =====
-- The codec of backend/metrics/ping.go, which has copies of its own of the functions in
-- backend/mcproto/protocol.go, and the request that QueryServerStatus sends.
pub mod Agreement
pub mod Unsigned
pub mod Request
use realmrunner.Common.{ℕ, ◌+◌, ◌*◌, ◌%◌, ◌^◌, bit_and, bit_or}
use realmrunner.Common.{List, [], ◌∷◌, ◌++◌, length, ltb, leb, ◌==◌, if◌then◌else◌}
use realmrunner.Common.Int.{pos, negsuc}
use realmrunner.Mcproto.Stream.{
  Result, ok, err, Reader, ◌>>=◌, eof, var_int_too_big, out_of_range, read_full,
}
use realmrunner.Mcproto.VarInt.{write_var_int}
use realmrunner.Mcproto.Handshake.{put_u16}

-- `result` is a 64-bit `int`, which 35 bits do not fill.
unfoldable pub read_groups : ℕ → ℕ → Reader ℕ
read_groups result shift [] = err eof
read_groups result shift (b ∷ bs) =
    let result' = bit_or result (bit_and b 0x7F * 2 ^ shift) in
    let more =
      if leb 35 (shift + 7) then err var_int_too_big else read_groups result' (shift + 7) bs in
    if bit_and b 0x80 == 0 then ok (result', bs) else more

unfoldable pub read_var_int : Reader ℕ
unfolding read_groups
read_var_int s = read_groups 0 0 s

-- `length < 0` never holds of such a result.
unfoldable pub read_block : ℕ → Reader (List ℕ)
read_block limit = do
  n ← read_var_int
  if ltb limit n then (λ s. err (out_of_range (pos n))) else read_full n

unfoldable pub read_string : Reader (List ℕ)
unfolding read_block
read_string = read_block 32767

unfoldable pub read_packet : Reader (List ℕ)
unfolding read_block
read_packet = read_block 2097151

-- `writeVarInt` is line by line WriteVarInt of mcproto.
unfoldable pub write_string : List ℕ → List ℕ
write_string s = write_var_int (pos (length s)) ++ s

unfoldable pub write_packet : List ℕ → List ℕ
write_packet body = write_var_int (pos (length body)) ++ body

-- `127.0.0.1`
abbrev pub loopback : List ℕ
loopback = 49 ∷ 50 ∷ 55 ∷ 46 ∷ 48 ∷ 46 ∷ 48 ∷ 46 ∷ 49 ∷ []

unfoldable pub ping_handshake : ℕ → List ℕ
ping_handshake port =
    write_var_int (pos 0)
    ++ (write_var_int (negsuc 0)
        ++ (write_string loopback ++ (put_u16 (port % 65536) ++ write_var_int (pos 1))))

-- All that QueryServerStatus writes: the handshake and the status request.
unfoldable pub ping_request : ℕ → List ℕ
unfolding ping_handshake
ping_request port = write_packet (ping_handshake port) ++ write_packet (write_var_int (pos 0))
