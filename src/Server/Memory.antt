-- ===== src/Server/Memory.antt =====
-- backend/server/memory.go: what the log of the garbage collector says about the heap. A line that
-- `gcPauseRe` matches is the numbers that it holds; how its text is matched is not modelled, nor are
-- the texts of the verdicts.
pub mod Advice
mod Tests
use realmrunner.Common.{ℕ, ◌+◌, ◌*◌, ◌/◌, ◌%◌, Bool, true, false, ◌&&◌, ◌||◌}
use realmrunner.Common.{List, [], ◌∷◌, ltb, leb, ◌==◌, if◌then◌else◌}

-- One collection: the occupancy before and after, the size of the heap, the pause in whole
-- milliseconds, and whether it was a full one.
pub record Collection : Type 0 where
  pub before : ℕ
  pub after : ℕ
  pub total : ℕ
  pub pause : ℕ
  pub is_full : Bool

-- A verdict, with the recommended heap where there is one.
pub data Verdict : Type 0 where
  no_collections comfortable : Verdict
  short_of_heap little_room : ℕ → Verdict

pub record MemoryReport : Type 0 where
  pub heap_mb : ℕ
  pub live_set_mb : ℕ
  pub peak_used_mb : ℕ
  pub used_percent : ℕ
  pub collections : ℕ
  pub full_gcs : ℕ
  pub longest_pause : ℕ
  pub total_pause_ms : ℕ
  pub verdict : Verdict
  pub long_pause : Bool

abbrev larger : ℕ → ℕ → ℕ
larger old new = if ltb old new then new else old

-- The body of the loop of ReadMemoryReport, for a line that matches.
unfoldable pub observe : MemoryReport → Collection → MemoryReport
observe r c = record r {
  collections = r.collections + 1;
  full_gcs = if c.is_full then r.full_gcs + 1 else r.full_gcs;
  live_set_mb = larger r.live_set_mb c.after;
  peak_used_mb = larger r.peak_used_mb c.before;
  heap_mb = if r.heap_mb == 0 && ltb 0 c.total then c.total else r.heap_mb;
  longest_pause = larger r.longest_pause c.pause;
  total_pause_ms = r.total_pause_ms + c.pause;
}

unfoldable pub observe_all : MemoryReport → List Collection → MemoryReport
unfolding observe
observe_all r [] = r
observe_all r (c ∷ cs) = observe_all (observe r c) cs

-- roundUpToGB
unfoldable pub round_up_to_gb : ℕ → ℕ
round_up_to_gb mb =
    if ltb mb 1024 then 1024 else if mb % 1024 == 0 then mb else (mb / 1024 + 1) * 1024

abbrev pub judged : MemoryReport → Verdict
judged r =
    if leb 85 r.used_percent || ltb 0 r.full_gcs
    then short_of_heap (round_up_to_gb (r.live_set_mb * 2))
    else if leb 65 r.used_percent
    then little_room (round_up_to_gb (r.live_set_mb * 2))
    else comfortable

abbrev pub with_percent : MemoryReport → MemoryReport
with_percent r = record r {
  used_percent = if ltb 0 r.heap_mb then r.live_set_mb * 100 / r.heap_mb else r.used_percent;
}

-- `summarise`
unfoldable pub summarise : MemoryReport → MemoryReport
summarise r =
    let p = with_percent r in
    if r.collections == 0
    then record r { verdict = no_collections }
    else record p { verdict = judged p; long_pause = leb 1000 p.longest_pause }

abbrev pub blank : ℕ → MemoryReport
blank heap = record {
  heap_mb = heap;
  live_set_mb = 0;
  peak_used_mb = 0;
  used_percent = 0;
  collections = 0;
  full_gcs = 0;
  longest_pause = 0;
  total_pause_ms = 0;
  verdict = no_collections;
  long_pause = false;
}

-- ReadMemoryReport, on the lines that match.
unfoldable pub read_memory_report : ℕ → List Collection → MemoryReport
unfolding observe_all summarise
read_memory_report heap cs = summarise (observe_all (blank heap) cs)
