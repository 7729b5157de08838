-- ===== src/Scheduler.antt =====
-- shouldRestart and performRestart of backend/scheduler/scheduler.go. A text with anything but ASCII in
-- it passes neither test of a schedule, so code points do for bytes.
pub mod Schedules
mod Tests
use realmrunner.Common.{
  ℕ, zero, suc, ◌%◌, ◌==◌, ◌&&◌, ltb, Bool, true, false, String, Option, none, some,
}
use realmrunner.Common.{List, [], ◌∷◌, ◌++◌, length, if◌then◌else◌}
use realmrunner.Common.Int.{ℤ, pos, negsuc, eq_ℤ}
use realmrunner.Common.Text.{codes, trim_space}
use realmrunner.Common.Atoi.{atoi}

abbrev prefix_first : ℕ → List (List ℕ) → List (List ℕ)
prefix_first c [] = (c ∷ []) ∷ []
prefix_first c (part ∷ parts) = (c ∷ part) ∷ parts

-- `strings.Split` at colons
unfoldable pub split_colons : List ℕ → List (List ℕ)
split_colons [] = [] ∷ []
split_colons (c ∷ cs) =
    let later = split_colons cs in if c == b':' then [] ∷ later else prefix_first c later

-- `strings.TrimPrefix` and `strings.HasPrefix` at once.
abbrev pub after_prefix : List ℕ → List ℕ → Option (List ℕ)
after_prefix [] cs = some cs
after_prefix (p ∷ ps) [] = none
after_prefix (p ∷ ps) (c ∷ cs) = let rest = after_prefix ps cs in if c == p then rest else none

-- `strings.TrimSuffix` of an `h`
abbrev pub without_h : List ℕ → List ℕ
without_h [] = []
without_h (c ∷ []) = if c == b'h' then [] else c ∷ []
without_h (c ∷ d ∷ cs) = c ∷ without_h (d ∷ cs)

-- Hour and minute of a daily schedule, where the text is one.
abbrev pub both : Option ℤ → Option ℤ → Option (ℤ × ℤ)
both (some a) (some b) = some (a, b)
both _ _ = none

abbrev pub two_parts : List (List ℕ) → Option (ℤ × ℤ)
two_parts (hour ∷ minute ∷ []) = both (atoi hour) (atoi minute)
two_parts _ = none

abbrev pub has_colon_third : List ℕ → Bool
has_colon_third (a ∷ b ∷ c ∷ d ∷ e ∷ []) = c == b':'
has_colon_third _ = false

abbrev pub daily : List ℕ → Option (ℤ × ℤ)
daily schedule = if has_colon_third schedule then two_parts (split_colons schedule) else none

abbrev pub hours_due : Option ℤ → ℕ → ℕ → Bool
hours_due none hour minute = false
hours_due (some (negsuc n)) hour minute = false
hours_due (some (pos zero)) hour minute = false
hours_due (some (pos (suc n))) hour minute = minute == 0 && (hour % suc n) == 0

abbrev pub interval_due : Option (List ℕ) → ℕ → ℕ → Bool
interval_due none hour minute = false
interval_due (some rest) hour minute = hours_due (atoi (without_h rest)) hour minute

abbrev pub due : List ℕ → Option (ℤ × ℤ) → ℕ → ℕ → Bool
due schedule (some (h, m)) hour minute = eq_ℤ (pos hour) h && eq_ℤ (pos minute) m
due schedule none hour minute = interval_due (after_prefix (codes "interval:") schedule) hour minute

-- shouldRestart, at an hour and a minute
unfoldable pub should_restart : List ℕ → ℕ → ℕ → Bool
unfolding trim_space split_colons atoi
should_restart schedule hour minute =
    let trimmed = trim_space schedule in due trimmed (daily trimmed) hour minute

-- What performRestart needs of the manager, with the state S; the results say whether there was an error.
pub record ServerManager {ℓ} (S : Type ℓ) : Type ℓ where
  pub send_command : String → String → S → S
  pub stop_server : String → S → Bool × S
  pub start_server : String → S → Bool × S
  pub wait : ℕ → S → S

abbrev pub restart_stopped {ℓ} : {S : Type ℓ} → ServerManager S → String → Bool × S → S
restart_stopped m id (true, s) = s
restart_stopped m id (false, s) = (m.start_server id (m.wait 5 s)).1

-- performRestart; `wait` lets some seconds pass.
unfoldable pub perform_restart {ℓ} : {S : Type ℓ} → ServerManager S → String → S → S
perform_restart m id s =
    let s1 = m.wait 240 (m.send_command id "say Server restarting in 5 minutes..." s) in
    let s2 = m.wait 50 (m.send_command id "say Server restarting in 1 minute..." s1) in
    let s3 = m.wait 10 (m.send_command id "say Server restarting in 10 seconds!" s2) in
    restart_stopped m id (m.stop_server id s3)
