-- ===== src/Server/Crash.antt =====
-- backend/server/crash.go: the restart backoff, the reasons for an exit, and the Java preflight.
pub mod Backoff
use text.Mathlib.Text.{find?}
use realmrunner.Common.{ℕ, zero, suc, ◌+◌, ◌-◌, String, Bool, true, false, Option, none, some}
use realmrunner.Common.{List, [], ◌∷◌, length, drop, ltb, leb, if◌then◌else◌}
use realmrunner.Common.Int.{ℤ, pos, negsuc}
use realmrunner.Common.Assoc.{Assoc, lookup, insert, erase}
use realmrunner.Common.Text.{codes}
use realmrunner.Minecraft.Java.{Runtimes, Resolved, required_java_major, resolve_java}
use realmrunner.Server.Store.{
  Reason, needs_java, exited, killed, out_of_memory, port_in_use, eula_refused, newer_java,
  start_failure, bad_field, nothing_recorded,
}

-- In seconds.
abbrev pub restart_delays : List ℕ
restart_delays = 10 ∷ 30 ∷ 60 ∷ 120 ∷ 300 ∷ []

abbrev pub stable_uptime : ℕ
stable_uptime = 600

-- `r.attempts[id]`, which is 0 for a missing key.
abbrev or_zero : Option ℕ → ℕ
or_zero none = 0
or_zero (some n) = n

unfoldable pub count : String → Assoc ℕ → ℕ
unfolding lookup
count id attempts = or_zero (lookup id attempts)

-- `restartDelays[attempt]`, where there is such an element
abbrev pub delay_at : ℕ → List ℕ → Option ℕ
delay_at i [] = none
delay_at zero (d ∷ ds) = some d
delay_at (suc i) (d ∷ ds) = delay_at i ds

abbrev advance : String → Assoc ℕ → ℕ → Option ℕ → Option ℕ × Assoc ℕ
advance id attempts attempt none = (none, attempts)
advance id attempts attempt (some d) = (some d, insert id (attempt + 1) attempts)

-- `next`: the delay before another attempt, if there is to be one.
unfoldable pub next : String → Assoc ℕ → Option ℕ × Assoc ℕ
unfolding count insert
next id attempts =
    let attempt = count id attempts in advance id attempts attempt (delay_at attempt restart_delays)

unfoldable pub reset : String → Assoc ℕ → Assoc ℕ
unfolding erase
reset id attempts = erase id attempts

-- What `cmd.Wait` returned: no error, an exit code, a signal, or another error.
pub data WaitResult : Type 0 where
  clean : WaitResult
  exit_code : ℤ → WaitResult
  signaled : String → WaitResult
  wait_failed : WaitResult

-- `ExitCode` of a process that a signal killed is -1.
unfoldable pub exit_code_of : WaitResult → ℤ
exit_code_of clean = pos 0
exit_code_of (exit_code c) = c
exit_code_of (signaled s) = negsuc 0
exit_code_of wait_failed = negsuc 0

unfoldable pub exit_description : WaitResult → ℤ → Reason
exit_description (signaled s) code = killed s
exit_description clean code = exited code
exit_description (exit_code c) code = exited code
exit_description wait_failed code = exited code

abbrev is_found : Option ℕ → Bool
is_found none = false
is_found (some i) = true

-- `strings.Contains`
abbrev contains : String → String → Bool
contains line needle = is_found (find? line needle)

-- The table of patterns, tried in order on one line.
unfoldable pub explain : String → Option Reason
explain line =
    if contains line "UnsupportedClassVersionError"
    then some (newer_java line)
    else if contains line "java.lang.OutOfMemoryError"
    then some out_of_memory
    else if contains line "Failed to bind to port"
    then some port_in_use
    else if contains line "You need to agree to the EULA"
    then some eula_refused
    else if contains line "Exception in thread \"main\""
    then some (start_failure line)
    else if contains line "Cannot read field"
    then some (bad_field line)
    else none

abbrev or_earlier : Option Reason → Option Reason → Option Reason
or_earlier (some r) earlier = some r
or_earlier none earlier = earlier

-- The last line that some pattern explains.
unfoldable pub crash_reason : List String → Option Reason
unfolding explain
crash_reason [] = none
crash_reason (line ∷ later) = or_earlier (crash_reason later) (explain line)

-- `lines[len(lines)-200:]`, where there are more
unfoldable pub last_200 : List String → List String
last_200 lines = if ltb 200 (length lines) then drop (length lines - 200) lines else lines

abbrev verdict : ℕ → Resolved → Option Reason
verdict required r = if r.satisfied then none else some (needs_java required r.major)

-- preflightJava, over the values of REALMRUNNER_JAVA_<major> and the installed runtimes.
unfoldable pub preflight_java : (ℕ → String) → Runtimes → String → Option Reason
unfolding required_java_major resolve_java
preflight_java overrides runtimes version =
    let required = required_java_major (codes version) in
    verdict required (resolve_java (overrides required) runtimes required)
