-- ===== src/Mcproto/VarInt.antt =====
-- WriteVarInt and ReadVarInt of backend/mcproto/protocol.go. A byte is a number below 256; a writer
-- returns the bytes that it wrote, to a buffer or a connection that takes them all.
pub mod RoundTrip
pub mod Reading
use mathlib.Core.Logic.{dite}
use mathlib.Core.WellFounded.{Acc}
use native.Mathlib.Decide.{dec_lt}
use realmrunner.Common.{ℕ, zero, suc, ◌+◌, ◌*◌, ◌/◌, ◌%◌, ◌^◌, ◌<◌, bit_and, bit_or, arith}
use realmrunner.Common.{List, [], ◌∷◌, leb, ◌==◌, if◌then◌else◌}
use realmrunner.Common.Int.{ℤ, to_u32, of_u32, u32_mod}
use realmrunner.Common.Order.{lt_wf}
use realmrunner.Mcproto.Stream.{Result, ok, err, Reader, eof, var_int_too_big}

pub shift_shrinks : (u : ℕ) → 0 < u / 128 → u / 128 < u
shift_shrinks u h = omega arith

-- The loop of WriteVarInt: `uval >>= 7` is `u / 128`, and the loop goes on while that is not 0.
write_groups : (u : ℕ) → Acc ◌<◌ u → List ℕ
write_groups u (Acc.intro _ smaller) =
    let b = bit_and u 0x7F % 256 in
    dite (dec_lt 0 (u / 128))
      (λ more. bit_or b 0x80 ∷ write_groups (u / 128) (smaller _ (shift_shrinks u more)))
      (λ _. b ∷ [])

unfoldable pub write_var_int : ℤ → List ℕ
unfolding write_groups lt_wf dec_lt to_u32
write_var_int value = write_groups (to_u32 value) (lt_wf.apply (to_u32 value))

-- The loop of ReadVarInt, with its `result` and `shift`.
unfoldable pub read_groups : ℕ → ℕ → Reader ℤ
read_groups result shift [] = err eof
read_groups result shift (b ∷ bs) =
    let result' = bit_or result (bit_and b 0x7F * 2 ^ shift % u32_mod) in
    let more =
      if leb 35 (shift + 7) then err var_int_too_big else read_groups result' (shift + 7) bs in
    if bit_and b 0x80 == 0 then ok (of_u32 result', bs) else more

unfoldable pub read_var_int : Reader ℤ
unfolding read_groups of_u32
read_var_int s = read_groups 0 0 s
