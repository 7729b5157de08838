-- ===== src/Common/Assoc.antt =====
-- A Go map with string keys, as a list of pairs. The program never depends on a map's order.
use Prim.Native.String.{String}
use mathlib.Core.List.{List, ◌∷◌, []}
use mathlib.Core.Option.{Option, some, none}
use mathlib.Core.Path.{◌≡◌}
use native.Mathlib.Omega.{arith}
use text.Mathlib.Text.{◌==◌}
use text.Mathlib.TextEquality.{eq_iff}
use realmrunner.Common.Tests.{if◌then◌else◌}

abbrev pub Assoc {ℓ} : Type ℓ → Type ℓ
Assoc V = List (String × V)

module _ {ℓ} {V : Type ℓ} where
  -- `v, ok := table[key]`
  unfoldable pub lookup : String → Assoc V → Option V
  lookup key [] = none
  lookup key (entry ∷ table) = if entry.0 == key then some entry.1 else lookup key table

  -- `delete(table, key)`
  unfoldable pub erase : String → Assoc V → Assoc V
  erase key [] = []
  erase key (entry ∷ table) =
      let others = erase key table in if entry.0 == key then others else entry ∷ others

  -- `table[key] = value`
  unfoldable pub insert : String → V → Assoc V → Assoc V
  unfolding erase
  insert key value table = (key, value) ∷ erase key table

  pub lookup-erase :
      (gone key : String) (table : Assoc V)
      → lookup key (erase gone table) ≡ (if gone == key then none else lookup key table)
  unfolding lookup erase
  lookup-erase gone key [] = ground arith
  lookup-erase gone key (entry ∷ table) =
      ground (
        arith,
        eq_iff gone key,
        eq_iff entry.0 gone,
        eq_iff entry.0 key,
        lookup-erase gone key table,
      )

  pub lookup-insert :
      (changed key : String) (value : V) (table : Assoc V)
      → lookup key (insert changed value table)
        ≡ (if changed == key then some value else lookup key table)
  unfolding lookup insert
  lookup-insert changed key value table = ground (arith, lookup-erase changed key table)
