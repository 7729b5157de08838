-- ===== src/SleepProxy/Status.antt =====
-- The status conversation of backend/sleepproxy/proxy.go over packets, where the code has bytes.
use realmrunner.Common.{ℕ, zero, suc, ◌≤◌, ◌≡◌, inl, inr, refl, sym, ap, ◌∙◌}
use realmrunner.Common.{List, [], ◌∷◌, ◌++◌, append_assoc, length, arith, All}
use realmrunner.Mcproto.Stream.{ReadError, eof, ok, err, Result-cases}
use realmrunner.Mcproto.VarInt.{read_var_int}
use realmrunner.Mcproto.Packet.{max_packet_size, read_packet, write_packet}
use realmrunner.Mcproto.Packet.RoundTrip.{read_packet-write_packet, read_packet_bounds}
use realmrunner.Mcproto.Messages.{write_status_packet, write_pong_packet}
use realmrunner.SleepProxy.{answer_packet, status_loop}

-- What a client asks for, one packet each.
pub data Request : Type 0 where
  blank : Request
  status_request echo_request : List ℕ → Request
  other_request : ℕ → List ℕ → Request

abbrev pub body_of : Request → List ℕ
body_of blank = []
body_of (status_request junk) = 0 ∷ junk
body_of (echo_request payload) = 1 ∷ payload
body_of (other_request k payload) = suc (suc k) ∷ payload

unfoldable pub frames : List Request → List ℕ
frames [] = []
frames (r ∷ rs) = write_packet (body_of r) ++ frames rs

-- The status for each request up to the first ping, whose payload comes back and which is the last
-- one answered, as is a packet that is neither.
unfoldable pub answers : List ℕ → List Request → List ℕ
answers encoded [] = []
answers encoded (blank ∷ rs) = answers encoded rs
answers encoded (status_request junk ∷ rs) = write_status_packet encoded ++ answers encoded rs
answers encoded (echo_request payload ∷ rs) = write_pong_packet payload
answers encoded (other_request k payload ∷ rs) = []

abbrev pub IsSmall : Request → Type 0
IsSmall r = length (body_of r) ≤ max_packet_size

answer_packet-answers :
    (encoded : List ℕ) (r : Request) (rs : List Request)
    → answer_packet encoded (body_of r) (answers encoded rs) ≡ answers encoded (r ∷ rs)
unfolding answers
answer_packet-answers encoded blank rs = refl
answer_packet-answers encoded (status_request junk) rs = refl
answer_packet-answers encoded (echo_request payload) rs = refl
answer_packet-answers encoded (other_request k payload) rs = ground arith

read_packet-frames :
    (r : Request) (rs : List Request) (tail : List ℕ)
    → IsSmall r
    → read_packet (frames (r ∷ rs) ++ tail) ≡ ok (body_of r, frames rs ++ tail)
unfolding frames
read_packet-frames r rs tail small =
    rw append_assoc (read_packet-write_packet (body_of r) (frames rs ++ tail) small)

round-ok :
    (fuel : ℕ) (encoded s body rest : List ℕ)
    → read_packet s ≡ ok (body, rest)
    → status_loop (suc fuel) encoded s ≡ answer_packet encoded body (status_loop fuel encoded rest)
unfolding status_loop
round-ok fuel encoded s body rest e = rw (status_loop, e) refl

round-err :
    (fuel : ℕ) (encoded s : List ℕ) (e : ReadError)
    → read_packet s ≡ err e
    → status_loop fuel encoded s ≡ []
unfolding status_loop
round-err zero encoded s x e = refl
round-err (suc fuel) encoded s x e = rw (status_loop, e) refl

loop-answers :
    (fuel : ℕ) (encoded : List ℕ) (rs : List Request) (tail : List ℕ) (e : ReadError)
    → All IsSmall rs
    → read_packet tail ≡ err e
    → length (frames rs ++ tail) ≤ fuel
    → status_loop fuel encoded (frames rs ++ tail) ≡ answers encoded rs
unfolding status_loop
loop-answers zero encoded [] tail e small bad h = unfold answers in refl
loop-answers (suc fuel) encoded [] tail e small bad h =
    unfold answers in (unfold frames in round-err (suc fuel) encoded tail e bad)
loop-answers zero encoded (r ∷ rs) tail e small bad h =
    let read = read_packet-frames r rs tail small.0 in
    absurd (
      omega
        (arith, read_packet_bounds (frames (r ∷ rs) ++ tail) (body_of r) (frames rs ++ tail) read))
loop-answers (suc fuel) encoded (r ∷ rs) tail e small bad h =
    let read = read_packet-frames r rs tail small.0 in
    let shorter =
      read_packet_bounds (frames (r ∷ rs) ++ tail) (body_of r) (frames rs ++ tail) read in
    let later = loop-answers fuel encoded rs tail e small.1 bad (omega (arith, shorter)) in
    round-ok fuel encoded (frames (r ∷ rs) ++ tail) (body_of r) (frames rs ++ tail) read
    ∙ rw later (answer_packet-answers encoded r rs)

-- A client that sends packets of at most 2097152 bytes each, and then bytes that are no packet, gets
-- the bytes that the list of requests stands for, within as many rounds as it sends bytes.
pub status_loop-frames :
    (encoded : List ℕ) (rs : List Request) (tail : List ℕ) (e : ReadError)
    → All IsSmall rs
    → read_packet tail ≡ err e
    → status_loop (length (frames rs ++ tail)) encoded (frames rs ++ tail) ≡ answers encoded rs
status_loop-frames encoded rs tail e small bad =
    loop-answers (length (frames rs ++ tail)) encoded rs tail e small bad (omega arith)

pub read_packet-nil : read_packet [] ≡ err eof
unfolding read_packet read_var_int
read_packet-nil = refl

-- A round more or less makes no difference once there is one for each byte.
pub status_loop_enough :
    (f g : ℕ) (encoded s : List ℕ)
    → length s ≤ f
    → length s ≤ g
    → status_loop f encoded s ≡ status_loop g encoded s
unfolding status_loop
status_loop_enough zero zero encoded s hf hg = refl
status_loop_enough zero (suc g) encoded [] hf hg =
    sym (round-err (suc g) encoded [] eof read_packet-nil)
status_loop_enough (suc f) zero encoded [] hf hg = round-err (suc f) encoded [] eof read_packet-nil
status_loop_enough zero (suc g) encoded (b ∷ s) hf hg = absurd (omega arith)
status_loop_enough (suc f) zero encoded (b ∷ s) hf hg = absurd (omega arith)
status_loop_enough (suc f) (suc g) encoded s hf hg = elim (Result-cases (read_packet s)) [
  | inl ((body, rest), e) ↦
      let shorter = read_packet_bounds s body rest e in
      let same =
        status_loop_enough f g encoded rest (omega (arith, shorter)) (omega (arith, shorter)) in
      round-ok f encoded s body rest e
      ∙ (ap (answer_packet encoded body) same ∙ sym (round-ok g encoded s body rest e))
  | inr (x, e) ↦ round-err (suc f) encoded s x e ∙ sym (round-err (suc g) encoded s x e)
]
