-- ===== src/Rcon/Packet/RoundTrip.antt =====
-- A packet reads back as it was written, and what readPacket guarantees on hostile input.
use realmrunner.Common.{
  ℕ, zero, suc, ◌+◌, ◌*◌, ◌/◌, ◌%◌, ◌≤◌, ◌<◌, ◌≡◌, refl, ◌∙◌, List, [], ◌∷◌, ◌++◌, arith,
}
use realmrunner.Common.{length, length-append, append_assoc, append-nil, take, drop}
use realmrunner.Common.Int.{ℤ, pos, negsuc, IsI32, to_u32, to_u32-lt, of_u32-to_u32}
use realmrunner.Mcproto.Stream.{
  Result, ok, err, read_full, >>=-eq-ok, read_full-append, read_full_takes,
}
use realmrunner.Rcon.Packet.{
  Packet, max_packet_size, put_i32, get_i32, trim_right, payload, write_packet, parse_payload,
  read_body, read_packet,
}

-- The packets whose header fits, and whose body is short enough for the receiver's limit.
pub record Fits (p : Packet) : Type 0 where
  pub id_fits : IsI32 p.id
  pub type_fits : IsI32 p.packet_type
  pub body_fits : length p.body + 10 ≤ max_packet_size

get_i32-put_i32 : (z : ℤ) (rest : List ℕ) → IsI32 z → get_i32 (put_i32 z ++ rest) ≡ z
unfolding get_i32 put_i32
get_i32-put_i32 z rest h = rw (digits (to_u32 z) (to_u32-lt z)) (of_u32-to_u32 z h)
  where
    digits :
        (u : ℕ)
        → u < 4294967296
        → u % 256 + u / 256 % 256 * 256 + u / 65536 % 256 * 65536 + u / 16777216 % 256 * 16777216
          ≡ u
    digits u k = omega arith

get_i32-take : (z : ℤ) (rest : List ℕ) → IsI32 z → get_i32 (take 4 (put_i32 z ++ rest)) ≡ z
unfolding put_i32
get_i32-take z rest h = rw (← append-nil (put_i32 z)) at (get_i32-put_i32 z [] h)

length-payload : (p : Packet) → length (payload p) ≡ length p.body + 10
unfolding payload put_i32
length-payload p = omega (arith, length-append p.body (0 ∷ 0 ∷ []))

length-put_i32 : (z : ℤ) → length (put_i32 z) ≡ 4
unfolding put_i32
length-put_i32 z = refl

trim_right-append_zero : (bs : List ℕ) → trim_right (bs ++ 0 ∷ []) ≡ trim_right bs
unfolding trim_right
trim_right-append_zero [] = refl
trim_right-append_zero (b ∷ bs) = rw (trim_right-append_zero bs)

trim_right-terminators : (bs : List ℕ) → trim_right (bs ++ 0 ∷ 0 ∷ []) ≡ trim_right bs
trim_right-terminators bs =
    rw (← append_assoc bs (0 ∷ []) (0 ∷ []))
      (trim_right-append_zero (bs ++ 0 ∷ []) ∙ trim_right-append_zero bs)

parse_payload-payload :
    (p : Packet) → Fits p → parse_payload (payload p) ≡ record p { body = trim_right p.body }
unfolding parse_payload payload put_i32
parse_payload-payload p f = rw (
  trim_right-terminators p.body,
  get_i32-take p.id (put_i32 p.packet_type ++ (p.body ++ 0 ∷ 0 ∷ [])) f.id_fits,
  get_i32-take p.packet_type (p.body ++ 0 ∷ 0 ∷ []) f.type_fits,
)

-- readPacket returns the packet that writePacket wrote, without the zero bytes at the end of its
-- body, and leaves what follows.
pub read_packet_round_trip :
    (p : Packet) (rest : List ℕ)
    → Fits p
    → read_packet (write_packet p ++ rest) ≡ ok (record p { body = trim_right p.body }, rest)
unfolding read_packet write_packet
read_packet_round_trip p rest f =
    rw (append_assoc (put_i32 (pos (length (payload p)))) (payload p) rest) (
      ground (
        arith,
        length-payload p,
        read_full-append (put_i32 (pos (length (payload p)))) (payload p ++ rest),
        get_i32-put_i32 (pos (length (payload p))) [],
        append-nil (put_i32 (pos (length (payload p)))),
        read_full-append (payload p) rest,
        parse_payload-payload p f,
        length-put_i32 (pos (length (payload p))),
      ))

length-drop : (n : ℕ) (bs : List ℕ) → n ≤ length bs → length (drop n bs) + n ≡ length bs
length-drop zero bs h = omega arith
length-drop (suc n) [] h = absurd (omega arith)
length-drop (suc n) (b ∷ bs) h = omega (arith, length-drop n bs (omega arith))

length-trim_right : (bs : List ℕ) → length (trim_right bs) ≤ length bs
unfolding trim_right
length-trim_right [] = omega arith
length-trim_right (b ∷ bs) = ground (arith, length-trim_right bs)

-- A read that succeeds, taken apart.
read_body_parts :
    (n : ℤ) (s : List ℕ) (p : Packet) (rest : List ℕ)
    → read_body n s ≡ ok (p, rest)
    → (k : ℕ) × (bytes : List ℕ) × (10 ≤ k)
      × (k ≤ max_packet_size)
      × (read_full k s ≡ ok (bytes, rest))
      × (p ≡ parse_payload bytes)
unfolding read_body
read_body_parts (negsuc n) s p rest e = cc
read_body_parts (pos n) s p rest e = go (read_full n s) refl
  where
    go :
        (r : Result (List ℕ × List ℕ))
        → read_full n s ≡ r
        → (k : ℕ) × (bytes : List ℕ) × (10 ≤ k)
          × (k ≤ max_packet_size)
          × (read_full k s ≡ ok (bytes, rest))
          × (p ≡ parse_payload bytes)
    go (ok (bytes, left)) q = (n, bytes, ground arith, ground arith, ground arith, ground arith)
    go (err x) q = ground arith

-- On any stream, a packet that readPacket returns took 14 to 4116 bytes, and its body is within the
-- packet limit.
pub read_packet_extent :
    (s : List ℕ) (p : Packet) (rest : List ℕ)
    → read_packet s ≡ ok (p, rest)
    → (length p.body + 8 ≤ max_packet_size)
      × (length rest + 14 ≤ length s)
      × (length s ≤ length rest + max_packet_size + 4)
unfolding read_packet
read_packet_extent s p rest e =
    let (head, mid, first, second) =
      >>=-eq-ok (read_full 4) (λ head. read_body (get_i32 head)) s e in
    let (n, bytes, lo, hi, third, same) = read_body_parts (get_i32 head) mid p rest second in
    rw same (
      unfold parse_payload in
      omega (
        arith,
        read_full_takes 4 s first,
        read_full_takes n mid third,
        length-drop 8 bytes,
        length-trim_right (drop 8 bytes),
      ))
