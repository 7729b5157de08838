-- ===== src/Rcon/Client/Termination.antt =====
-- The loops of backend/rcon/client.go end on every input.
use realmrunner.Common.{ℕ, zero, suc, ◌<◌, ◌≢◌, inl, inr, refl, List, length, arith, Bool-cases}
use realmrunner.Common.Int.{ℤ, eq_ℤ}
use realmrunner.Mcproto.Stream.{Result-cases}
use realmrunner.Rcon.Packet.{type_auth, read_packet}
use realmrunner.Rcon.Packet.RoundTrip.{read_packet_extent}
use realmrunner.Rcon.Client.{
  Outcome, done, failed, stuck, Client, fresh, send, auth_loop, execute, response, run_then,
  execute_once, trailers, after_body,
}

auth_loop-ne-stuck :
    (fuel : ℕ) (id : ℤ) (s : List ℕ) → length s < fuel → auth_loop fuel id s ≢ stuck
unfolding auth_loop
auth_loop-ne-stuck zero id s h = elim h [ ]
auth_loop-ne-stuck (suc fuel) id s h = elim (Result-cases (read_packet s)) [
  | inl ((p, rest), e) ↦
      ground (arith, e, read_packet_extent s p rest e, auth_loop-ne-stuck fuel id rest)
  | inr (x, e) ↦ ground (arith, e)
]

after_body-ne-stuck : (body : List ℕ) (r : Outcome (List ℕ)) → r ≢ stuck → after_body body r ≢ stuck
after_body-ne-stuck body (done more) h e = cc
after_body-ne-stuck body (failed x) h e = cc
after_body-ne-stuck body stuck h e = h refl

trailers-ne-stuck : (fuel : ℕ) (s : List ℕ) → length s < fuel → trailers fuel s ≢ stuck
unfolding trailers
trailers-ne-stuck zero s h = elim h [ ]
trailers-ne-stuck (suc fuel) s h = elim (Result-cases (read_packet s)) [
  | inl ((p, rest), e) ↦
      let later = trailers-ne-stuck fuel rest (omega (arith, read_packet_extent s p rest e)) in
      rw (trailers, e) (after_body-ne-stuck p.body (trailers fuel rest) later)
  | inr (x, e) ↦ ground (arith, e)
]

response-ne-stuck : (id : ℤ) (s : List ℕ) → response id s ≢ stuck
unfolding response
response-ne-stuck id s = elim (Result-cases (read_packet s)) [
  | inl ((p, rest), e) ↦ elim (Bool-cases (eq_ℤ p.id id)) [
    | inl same ↦
        rw (response, e, same)
          (after_body-ne-stuck p.body (trailers (suc (length rest)) rest)
            (trailers-ne-stuck (suc (length rest)) rest (omega arith)))
    | inr other ↦ rw (response, e, other) (λ x. cc)
  ]
  | inr (x, e) ↦ rw (response, e) (λ y. cc)
]

run_then-ne-stuck :
    (command : List ℕ) (r : Outcome (List ℕ)) (c : Client)
    → r ≢ stuck
    → (run_then command (r, c)).0 ≢ stuck
unfolding execute
run_then-ne-stuck command (done rest) c h e = ground (arith, response-ne-stuck c.next_id rest)
run_then-ne-stuck command (failed x) c h e = cc
run_then-ne-stuck command stuck c h e = h refl

-- Authenticating and running a command ends on every input.
pub execute_once-ne-stuck :
    (password command incoming : List ℕ) → (execute_once password command incoming).0 ≢ stuck
unfolding execute_once
execute_once-ne-stuck password command incoming =
    run_then-ne-stuck command (auth_loop (suc (length incoming)) fresh.next_id incoming)
      (send fresh type_auth password)
      (auth_loop-ne-stuck (suc (length incoming)) fresh.next_id incoming (omega arith))
