-- ===== src/SleepProxy/Listener.antt =====
-- New, Start, acceptLoop and Close of backend/sleepproxy/proxy.go: one listener and the goroutines that
-- serve its connections, interleaved.
use realmrunner.Common.{ℕ, suc, ◌+◌, ◌≤◌, ◌≡◌, refl, sym, ap, Bool, true, false, arith}
use realmrunner.Common.{if◌then◌else◌, Bool-cases, inl, inr}
use mathlib.Core.Path.{subst}
use realmrunner.Common.Int.{ℤ, pos, is_pos}

-- Seconds.
abbrev pub default_wake_timeout : ℤ
default_wake_timeout = pos 90

abbrev pub default_dial_timeout : ℤ
default_dial_timeout = pos 2

pub record Options : Type 0 where
  pub public_port : ℕ
  pub internal_port : ℕ
  pub wake_timeout : ℤ
  pub dial_timeout : ℤ

-- What New makes of its options.
unfoldable pub with_defaults : Options → Options
with_defaults o = record o {
  wake_timeout = if is_pos o.wake_timeout then o.wake_timeout else default_wake_timeout;
  dial_timeout = if is_pos o.dial_timeout then o.dial_timeout else default_dial_timeout;
}

-- Where acceptLoop is: in Accept, with a connection that it has not counted yet, or past its end.
pub data Loop : Type 0 where
  waiting accepted ended : Loop

-- `live` is the wait group; `returned` says that a call of Close has waited for it and returned.
pub record Listener : Type 0 where
  pub closed : Bool
  pub listening : Bool
  pub loop : Loop
  pub live : ℕ
  pub returned : Bool

-- Start, where the port is free.
abbrev pub listener_started : Listener
listener_started = record {
  closed = false;
  listening = true;
  loop = waiting;
  live = 0;
  returned = false;
}

-- The first half of Close, up to the wait.
unfoldable pub begin_close : Listener → Listener
begin_close p = if p.closed then p else record p { closed = true; listening = false }

pub data Step : Listener → Listener → Type 0 where
  accept :
      (p : Listener) → p.loop ≡ waiting → p.listening ≡ true → Step p (record p { loop = accepted })
  accept_fails : (p : Listener) → p.loop ≡ waiting → Step p (record p { loop = ended })
  serve :
      (p : Listener) → p.loop ≡ accepted → Step p (record p { loop = waiting; live = suc p.live })
  finish : (p : Listener) (k : ℕ) → p.live ≡ suc k → Step p (record p { live = k })
  close : (p : Listener) → Step p (begin_close p)
  close_returns :
      (p : Listener) → p.closed ≡ true → p.live ≡ 0 → Step p (record p { returned = true })

pub data Reach : Listener → Type 0 where
  here : Reach listener_started
  further : {p q : Listener} → Reach p → Step p q → Reach q

abbrev pub pending : Loop → ℕ
pending waiting = 0
pending accepted = 1
pending ended = 0

pending-le : (l : Loop) → pending l ≤ 1
pending-le waiting = omega arith
pending-le accepted = omega arith
pending-le ended = omega arith

-- A closed proxy does not listen, and a Close that has waited leaves at most one connection.
abbrev pub IsSettled : Listener → Type 0
IsSettled p =
    (p.closed ≡ true → p.listening ≡ false)
    × (p.returned ≡ true → (p.closed ≡ true) × (p.live + pending p.loop ≤ 1))

begin_close-twice : (p : Listener) → p.closed ≡ true → begin_close p ≡ p
unfolding begin_close
begin_close-twice p e = ap (λ b. if b then p else record p { closed = true; listening = false }) e

begin_close-IsSettled : (p : Listener) → IsSettled p → IsSettled (begin_close p)
unfolding begin_close
begin_close-IsSettled p (h, r) = elim (Bool-cases p.closed) [
  | inl e ↦ subst IsSettled (sym (begin_close-twice p e)) (h, r)
  | inr e ↦ rw (begin_close, e) ((λ x. refl), (λ x. absurd (ground (arith, e, (r x).0))))
]

Step-IsSettled : {p q : Listener} → Step p q → IsSettled p → IsSettled q
unfolding begin_close
Step-IsSettled (accept p l up) (h, r) = (h, λ e. absurd (ground (arith, h (r e).0)))
Step-IsSettled (accept_fails p l) (h, r) = (h, λ e. ((r e).0, ground (arith, (r e).1)))
Step-IsSettled (serve p l) (h, r) =
    (h, λ e. ((r e).0, let few : p.live + 1 ≤ 1 = rw l at (r e).1 in omega (arith, few)))
Step-IsSettled (finish p k e) (h, r) = (
  h,
  λ x. ((r x).0, let few : suc k + pending p.loop ≤ 1 = rw e at (r x).1 in omega (arith, few)),
)
Step-IsSettled (close p) k = begin_close-IsSettled p k
Step-IsSettled (close_returns p c none_live) (h, r) =
    (h, λ e. (c, omega (arith, none_live, pending-le p.loop)))

-- On every interleaving: once a call of Close has waited and returned, the proxy does not listen and
-- at most one connection is being served or still to be counted.
pub Reach-IsSettled : (p : Listener) → Reach p → IsSettled p
Reach-IsSettled p here = (λ e. cc, λ e. cc)
Reach-IsSettled q (further r s) = Step-IsSettled s (Reach-IsSettled _ r)
