-- ===== src/Server/Sleep/Door.antt =====
-- describe of backend/server/sleep.go, and the hooks that ensureSleepProxy gives the proxy of a server.
use realmrunner.Common.{ℕ, zero, suc, ◌==◌, ltb, Bool, true, false, ◌&&◌, not, Option, none, some}
use realmrunner.Common.{String, List, [], ◌∷◌, ◌++◌, if◌then◌else◌}
use realmrunner.Common.Int.{ℤ, pos, negsuc}
use realmrunner.Common.Text.{codes, span_digits, value}
use realmrunner.Server.Store.{Status, starting, crashed, Server, get_server}
use realmrunner.Server.Manager.State.{World, Launch, Manager, Fault, Outcome}
use realmrunner.Server.Properties.{File, Properties, is_nil, find, read_properties}
use realmrunner.Server.Sleep.Wake.{wake, is_awake}
use realmrunner.SleepProxy.{Description, Hooks}

-- The section sign.
abbrev paragraph : ℕ
paragraph = 0xA7

abbrev pub starting_text : List ℕ
starting_text = paragraph ∷ codes "eStarting up" ++ paragraph ∷ codes "r - reconnect in a moment"

abbrev pub sleeping_text : List ℕ
sleeping_text = paragraph ∷ codes "bSleeping" ++ paragraph ∷ codes "r - join to wake this realm"

abbrev pub crashed_text : List ℕ
crashed_text =
    paragraph ∷ codes "cThis realm crashed" ++ paragraph ∷ codes "r - join to try starting it again"

abbrev pub asleep_suffix : List ℕ
asleep_suffix = codes " " ++ paragraph ∷ codes "7(sleeping - join to wake)"

abbrev pub default_description : Description
default_description = record {
  version_name = codes "RealmRunner";
  max_players = pos 20;
  motd = sleeping_text;
  starting_motd = starting_text;
  is_starting = false;
}

abbrev negated : ℕ → ℤ
negated zero = pos 0
negated (suc n) = negsuc n

abbrev bounded : ℕ → ℤ → List ℕ → Option ℤ
bounded limit number [] = none
bounded limit number (d ∷ ds) = if ltb limit (value (d ∷ ds)) then none else some number

-- `fmt.Sscanf` of a trimmed text with `%d` into an `int` of 64 bits: `none` leaves the number as it is.
unfoldable pub scan_int : List ℕ → Option ℤ
unfolding span_digits value
scan_int [] = none
scan_int (c ∷ cs) =
    let signed = (span_digits cs).0 in
    let plain = (span_digits (c ∷ cs)).0 in
    if c == b'-'
    then bounded 9223372036854775808 (negated (value signed)) signed
    else if c == b'+'
    then bounded 9223372036854775807 (pos (value signed)) signed
    else bounded 9223372036854775807 (pos (value plain)) plain

abbrev pub is_starting_status : Status → Bool
is_starting_status starting = true
is_starting_status _ = false

abbrev pub is_crashed : Status → Bool
is_crashed crashed = true
is_crashed _ = false

abbrev or_empty : Option (List ℕ) → List ℕ
or_empty none = []
or_empty (some text) = text

abbrev or_kept : ℤ → Option ℤ → ℤ
or_kept kept none = kept
or_kept kept (some number) = number

abbrev with_properties : Server → Description → Option Properties → Description
with_properties s d none = d
with_properties s d (some props) =
    let message = or_empty (find (codes "motd") props) in
    record d {
      motd =
          if not (is_nil message) && not (is_crashed s.status)
          then message ++ asleep_suffix
          else d.motd;
      max_players = or_kept d.max_players (scan_int (or_empty (find (codes "max-players") props)));
    }

abbrev described : File → Option Server → Description
described file none = default_description
described file (some s) =
    with_properties s
      (record default_description {
        version_name = codes s.version;
        is_starting = is_starting_status s.status;
        motd = if is_crashed s.status then crashed_text else sleeping_text;
      })
      (read_properties file)

-- describe, with the server.properties of the server
unfoldable pub describe : File → String → Manager → Description
unfolding get_server read_properties find scan_int
describe file id m = described file (get_server id m.db)

-- The text that an error of the manager has.
abbrev pub error_text : (Fault → List ℕ) → Outcome → Option (List ℕ) × Manager
error_text text (none, m) = (none, m)
error_text text (some f, m) = (some (text f), m)

-- The hooks of the proxy of one server.
abbrev pub realm_hooks : World → Launch → (Fault → List ℕ) → File → String → Hooks Manager
realm_hooks w l text file id = record {
  wake = λ m. error_text text (wake w l id m);
  awake = is_awake id;
  describe = describe file id;
}
