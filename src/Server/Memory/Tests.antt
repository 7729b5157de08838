-- ===== src/Server/Memory/Tests.antt =====
-- The theorems on backend/server/memory.go at a concrete log.
use realmrunner.Common.{◌*◌, ◌≤◌, ◌<◌, inr, refl, false, [], ◌∷◌}
use realmrunner.Server.Memory.{Collection, read_memory_report, round_up_to_gb}
use realmrunner.Server.Memory.Advice.{full_ones, read_memory_report_advice}

abbrev young : Collection
young = record { before = 1500; after = 1400; total = 2048; pause = 12; is_full = false }

read_memory_report_advice_example :
    ((read_memory_report 2048 (young ∷ [])).heap_mb < 3072)
    × ((read_memory_report 2048 (young ∷ [])).live_set_mb * 2 ≤ 3072)
unfolding read_memory_report full_ones round_up_to_gb
read_memory_report_advice_example = read_memory_report_advice 2048 (young ∷ []) 3072 refl (inr refl)
