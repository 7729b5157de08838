-- ===== src/Server/Properties/Tests.antt =====
-- The theorems on backend/server/properties.go at a small file, and the case of a repeated key.
use realmrunner.Common.{ℕ, ◌≡◌, refl, List, [], ◌∷◌, ◌++◌, Option, none, some, arith}
use realmrunner.Common.Text.{codes}
use realmrunner.Server.Properties.{
  File, contents, newline, find, update_properties, read_properties,
}
use realmrunner.Server.Properties.Find.{AreLines}
use realmrunner.Server.Properties.Files.{found_in, read_properties-sets, read_properties-keeps}

abbrev properties_text : List ℕ
properties_text =
    codes "# realm"
    ++ newline ∷ codes " motd = hello "
    ++ newline ∷ codes "pvp=true"
    ++ newline ∷ []

abbrev motd_update : List ℕ × List ℕ
motd_update = (codes "motd", codes "a=b")

abbrev seed_update : List ℕ × List ℕ
seed_update = (codes "level-seed", [])

updates-AreLines : AreLines (motd_update ∷ seed_update ∷ [])
unfolding realmrunner.Common.Text.trim_left realmrunner.Common.Text.trim_right
    realmrunner.Common.Text.is_space
updates-AreLines = (
  (
    record {
      key_trimmed = record { at_front = refl; at_end = refl };
      key_line = refl;
      no_equals = refl;
      no_comment = refl;
    },
    record { value_trimmed = record { at_front = refl; at_end = refl }; value_line = refl },
  ),
  (
    (
      record {
        key_trimmed = record { at_front = refl; at_end = refl };
        key_line = refl;
        no_equals = refl;
        no_comment = refl;
      },
      record { value_trimmed = record { at_front = refl; at_end = refl }; value_line = refl },
    ),
    tt,
  ),
)

read_properties-sets_example :
    (file : File) × (update_properties (motd_update ∷ seed_update ∷ []) (contents properties_text)
      ≡ some file)
    × (found_in (codes "motd") (read_properties file) ≡ some (codes "a=b"))
unfolding find realmrunner.Server.Properties.parse_line realmrunner.Server.Properties.cut
    realmrunner.Server.Properties.split_lines realmrunner.Server.Properties.trim_newlines
    realmrunner.Server.Properties.has_long realmrunner.Server.Properties.utf8_length
    realmrunner.Server.Properties.update_lines realmrunner.Server.Properties.join_lines
    realmrunner.Server.Properties.remove realmrunner.Server.Properties.appended
    realmrunner.Server.Properties.sort_strings realmrunner.Server.Properties.insert_sorted
    realmrunner.Common.Text.trim_space realmrunner.Common.Text.trim_left
    realmrunner.Common.Text.trim_right realmrunner.Common.Text.is_space
read_properties-sets_example =
    read_properties-sets (codes "motd") (codes "a=b") properties_text motd_update (seed_update ∷ [])
      updates-AreLines refl (omega arith) refl

read_properties-keeps_example :
    (file : File) × (update_properties (motd_update ∷ seed_update ∷ []) (contents properties_text)
      ≡ some file)
    × (found_in (codes "pvp") (read_properties file)
        ≡ found_in (codes "pvp") (read_properties (contents properties_text)))
unfolding find realmrunner.Server.Properties.parse_line realmrunner.Server.Properties.cut
    realmrunner.Server.Properties.split_lines realmrunner.Server.Properties.trim_newlines
    realmrunner.Server.Properties.has_long realmrunner.Server.Properties.utf8_length
    realmrunner.Server.Properties.update_lines realmrunner.Server.Properties.join_lines
    realmrunner.Server.Properties.remove realmrunner.Server.Properties.appended
    realmrunner.Server.Properties.sort_strings realmrunner.Server.Properties.insert_sorted
    realmrunner.Common.Text.trim_space realmrunner.Common.Text.trim_left
    realmrunner.Common.Text.trim_right realmrunner.Common.Text.is_space
read_properties-keeps_example =
    read_properties-keeps (codes "pvp") properties_text motd_update (seed_update ∷ [])
      updates-AreLines refl refl refl

-- With a key in two lines the update has no effect: it stands in the first, the last one counts.
repeated_key :
    (file : File) × (update_properties
        ((codes "a", codes "2") ∷ [])
        (contents (codes "a=0" ++ newline ∷ codes "a=1"))
      ≡ some file)
    × (found_in (codes "a") (read_properties file) ≡ some (codes "1"))
unfolding find update_properties read_properties realmrunner.Server.Properties.parse_line
    realmrunner.Server.Properties.cut realmrunner.Server.Properties.read_lines
    realmrunner.Server.Properties.scan_lines realmrunner.Server.Properties.drop_cr
    realmrunner.Server.Properties.split_lines realmrunner.Server.Properties.trim_newlines
    realmrunner.Server.Properties.has_long realmrunner.Server.Properties.utf8_length
    realmrunner.Server.Properties.update_lines realmrunner.Server.Properties.join_lines
    realmrunner.Server.Properties.remove realmrunner.Server.Properties.appended
    realmrunner.Server.Properties.sort_strings realmrunner.Server.Properties.insert_sorted
    realmrunner.Common.Text.trim_space realmrunner.Common.Text.trim_left
    realmrunner.Common.Text.trim_right realmrunner.Common.Text.is_space
repeated_key = (contents (codes "a=2" ++ newline ∷ codes "a=1" ++ newline ∷ []), refl, refl)
