-- ===== src/Server/Memory/Advice.antt =====
-- What the memory report of backend/server/memory.go measures, and that its advice is enough.
use Prim.Native.Nat.{max}
use native.Mathlib.Nat.{le-div_iff_mul-le}
use realmrunner.Common.{ℕ, suc, ◌+◌, ◌*◌, ◌/◌, ◌%◌, ◌≤◌, ◌<◌, ◌≡◌, refl, inl, inr, ◌⊎◌, arith}
use realmrunner.Common.{List, [], ◌∷◌, length, ◌==◌, if◌then◌else◌, Bool-cases}
use realmrunner.Server.Memory.{
  Collection, short_of_heap, little_room, MemoryReport, observe, observe_all, round_up_to_gb,
  judged, with_percent, blank, read_memory_report,
}

-- roundUpToGB returns the least whole number of gigabytes, one at least, that is no less than its
-- argument.
pub round_up_to_gb_least :
    (mb : ℕ)
    → (mb ≤ round_up_to_gb mb)
      × (1024 ≤ round_up_to_gb mb)
      × (round_up_to_gb mb % 1024 ≡ 0)
      × ((g : ℕ) → mb ≤ g → 1024 ≤ g → g % 1024 ≡ 0 → round_up_to_gb mb ≤ g)
unfolding round_up_to_gb
round_up_to_gb_least mb =
    (ground arith, ground arith, ground arith, λ g a b c. ground (arith, a, b, c))

-- The figures of a log, one by one.
unfoldable pub pauses : List Collection → ℕ
pauses [] = 0
pauses (c ∷ cs) = c.pause + pauses cs

unfoldable pub most_live : List Collection → ℕ
most_live [] = 0
most_live (c ∷ cs) = max c.after (most_live cs)

unfoldable pub full_ones : List Collection → ℕ
full_ones [] = 0
full_ones (c ∷ cs) = if c.is_full then suc (full_ones cs) else full_ones cs

-- What is added to a report.
abbrev Adds : MemoryReport → List Collection → MemoryReport → Type 0
Adds r cs t =
    (t.live_set_mb ≡ max r.live_set_mb (most_live cs))
    × (t.collections ≡ r.collections + length cs)
    × (t.full_gcs ≡ r.full_gcs + full_ones cs)
    × (t.total_pause_ms ≡ r.total_pause_ms + pauses cs)
    × (t.used_percent ≡ r.used_percent)

observe_all-Adds : (r : MemoryReport) (cs : List Collection) → Adds r cs (observe_all r cs)
unfolding observe_all most_live full_ones pauses
observe_all-Adds r [] = (omega arith, omega arith, omega arith, omega arith, refl)
observe_all-Adds r (c ∷ cs) =
    let (live, n, full, total, used) = observe_all-Adds (observe r c) cs in
    (ground (arith, live), ground (arith, n), ground (arith, full), ground (arith, total), used)

-- The report of a log has the largest occupancy behind a collection as its live set, and counts the
-- collections, the full ones and the time of all pauses.
pub read_memory_report_figures :
    (heap : ℕ) (cs : List Collection)
    → ((read_memory_report heap cs).live_set_mb ≡ most_live cs)
      × ((read_memory_report heap cs).collections ≡ length cs)
      × ((read_memory_report heap cs).full_gcs ≡ full_ones cs)
      × ((read_memory_report heap cs).total_pause_ms ≡ pauses cs)
unfolding read_memory_report
read_memory_report_figures heap cs =
    let (live, n, full, total, used) = observe_all-Adds (blank heap) cs in
    (ground (arith, live), ground (arith, n), ground (arith, full), ground (arith, total))

asked_for :
    (r : MemoryReport) (g : ℕ)
    → r.full_gcs ≡ 0
    → (judged r ≡ short_of_heap g) ⊎ (judged r ≡ little_room g)
    → (65 ≤ r.used_percent) × (g ≡ round_up_to_gb (r.live_set_mb * 2))
asked_for r g f v = ground (arith, f, v)

enough :
    (r : MemoryReport) (g : ℕ)
    → r.full_gcs ≡ 0
    → r.used_percent ≡ 0
    → (judged (with_percent r) ≡ short_of_heap g) ⊎ (judged (with_percent r) ≡ little_room g)
    → (r.heap_mb < g) × (r.live_set_mb * 2 ≤ g)
enough r g f u v =
    let (used, same) = asked_for (with_percent r) g f v in
    let (above, _, _, _) = round_up_to_gb_least (r.live_set_mb * 2) in
    let positive : 0 < r.heap_mb = ground (arith, used, u) in
    let share : 65 ≤ r.live_set_mb * 100 / r.heap_mb = ground (arith, used, positive) in
    let full = (le-div_iff_mul-le positive).0 share in
    (omega (arith, full, same, above), omega (arith, same, above))

-- Where the log has no full collection, a heap that the report recommends is larger than the present
-- one, and twice the live set at least.
pub read_memory_report_advice :
    (heap : ℕ) (cs : List Collection) (g : ℕ)
    → full_ones cs ≡ 0
    → ((read_memory_report heap cs).verdict ≡ short_of_heap g)
      ⊎ ((read_memory_report heap cs).verdict ≡ little_room g)
    → ((read_memory_report heap cs).heap_mb < g)
      × ((read_memory_report heap cs).live_set_mb * 2 ≤ g)
unfolding read_memory_report
read_memory_report_advice heap cs g f v =
    let r = observe_all (blank heap) cs in
    let (live, n, full, total, used) = observe_all-Adds (blank heap) cs in
    elim (Bool-cases (r.collections == 0)) [
      | inl e ↦ absurd (ground (arith, e, v))
      | inr e ↦ rw e (enough r g (omega (arith, full, f)) used (rw e at v))
    ]
