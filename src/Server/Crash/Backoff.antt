-- ===== src/Server/Crash/Backoff.antt =====
-- The restart tracker of backend/server/crash.go over a streak of crashes.
use Prim.Native.Nat.{min}
use realmrunner.Common.{ℕ, zero, suc, ◌+◌, ◌≤◌, ◌≡◌, ◌≢◌, ◌∙◌, refl, ap, String, none, some, arith}
use realmrunner.Common.{str_eq_iff, str_eq_refl}
use realmrunner.Common.Assoc.{Assoc, lookup-insert, lookup-erase}
use native.Mathlib.Decide.{dec_le}
use realmrunner.Server.Crash.{restart_delays, count, delay_at, next, reset}

-- The tracker after k crashes of one server.
unfoldable pub after : ℕ → String → Assoc ℕ → Assoc ℕ
after zero id attempts = attempts
after (suc k) id attempts = after k id (next id attempts).1

-- There are five delays.
delay_at-none : (i : ℕ) → 5 ≤ i → delay_at i restart_delays ≡ none
delay_at-none zero h = absurd (omega arith)
delay_at-none (suc zero) h = absurd (omega arith)
delay_at-none (suc (suc zero)) h = absurd (omega arith)
delay_at-none (suc (suc (suc zero))) h = absurd (omega arith)
delay_at-none (suc (suc (suc (suc zero)))) h = absurd (omega arith)
delay_at-none (suc (suc (suc (suc (suc i))))) h = refl

delay_at-some : (i : ℕ) → i ≤ 4 → (d : ℕ) × (delay_at i restart_delays ≡ some d)
delay_at-some zero h = (10, refl)
delay_at-some (suc zero) h = (30, refl)
delay_at-some (suc (suc zero)) h = (60, refl)
delay_at-some (suc (suc (suc zero))) h = (120, refl)
delay_at-some (suc (suc (suc (suc zero)))) h = (300, refl)
delay_at-some (suc (suc (suc (suc (suc i))))) h = absurd (omega arith)

delay_at-min : (k : ℕ) → delay_at (min k 5) restart_delays ≡ delay_at k restart_delays
delay_at-min k = elim (dec_le k 5) [
  | yes p ↦ ap (λ i. delay_at i restart_delays) (omega arith)
  | no p ↦ let capped : min k 5 ≡ 5 = omega arith in rw (capped, delay_at-none k (omega arith))
]

pub next-delay : (id : String) (a : Assoc ℕ) → (next id a).0 ≡ delay_at (count id a) restart_delays
unfolding next
next-delay id a = ground arith

count-next :
    (id : String) (a : Assoc ℕ) → count id a ≤ 5 → count id (next id a).1 ≡ min (count id a + 1) 5
unfolding next
count-next id a h = elim (dec_le (count id a) 4) [
  | yes p ↦
      let (d, e) = delay_at-some (count id a) p in
      rw e (unfold count in rw (lookup-insert, str_eq_refl) (omega arith))
  | no p ↦ rw (delay_at-none (count id a) (omega arith)) (omega arith)
]

count-after :
    (k : ℕ) (id : String) (a : Assoc ℕ)
    → count id a ≤ 5
    → count id (after k id a) ≡ min (count id a + k) 5
unfolding after
count-after zero id a h = omega arith
count-after (suc k) id a h =
    omega
      (arith, count-next id a h, count-after k id (next id a).1 (omega (arith, count-next id a h)))

pub count-reset : (id : String) (a : Assoc ℕ) → count id (reset id a) ≡ 0
unfolding count reset
count-reset id a = rw (lookup-erase, str_eq_refl)

-- After k crashes in a row since a reset, the next crash is answered by the k-th delay, counted from
-- 0, and by no restart where there is no such delay.
pub next-after-reset :
    (k : ℕ) (id : String) (a : Assoc ℕ)
    → (next id (after k id (reset id a))).0 ≡ delay_at k restart_delays
next-after-reset k id a =
    let counted : count id (after k id (reset id a)) ≡ min k 5 =
      omega (
        arith,
        count-after k id (reset id a) (omega (arith, count-reset id a)),
        count-reset id a,
      ) in
    next-delay id (after k id (reset id a)) ∙ rw counted (delay_at-min k)

count-next_other : (id j : String) (a : Assoc ℕ) → id ≢ j → count j (next id a).1 ≡ count j a
unfolding next count
count-next_other id j a h = ground (arith, str_eq_iff id j, lookup-insert id j (count id a + 1) a)

-- The streak of one server changes nothing for another.
pub count-after_other :
    (k : ℕ) (id j : String) (a : Assoc ℕ) → id ≢ j → count j (after k id a) ≡ count j a
unfolding after
count-after_other zero id j a h = refl
count-after_other (suc k) id j a h =
    count-after_other k id j (next id a).1 h ∙ count-next_other id j a h
