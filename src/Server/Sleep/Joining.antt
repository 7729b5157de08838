-- ===== src/Server/Sleep/Joining.antt =====
-- A player who joins through the proxy of backend/sleepproxy/proxy.go, with the hooks that
-- backend/server/sleep.go gives it.
use realmrunner.Common.{
  ℕ, ◌≤◌, ◌≡◌, refl, ap, ◌∙◌, true, false, [], String, Option, none, some, List, ◌∷◌, ◌++◌,
}
use realmrunner.Common.{length, All}
use realmrunner.Mcproto.Stream.{ok}
use realmrunner.Mcproto.Packet.{max_string_length, read_packet}
use realmrunner.Mcproto.Handshake.{Handshake, read_handshake, state_login}
use realmrunner.Mcproto.Messages.{newline, chat_component}
use realmrunner.Mcproto.Messages.Json.{is_printable}
use realmrunner.Mcproto.Messages.Delivery.{client_reads}
use realmrunner.Mcproto.Messages.Component.{shown_text, shown_text-chat_component}
use realmrunner.Common.Text.{codes}
use realmrunner.Common.Int.{pos}
use realmrunner.SleepProxy.{StatusResponse, Round, Network, Session, handle, could_not_start_text}
use realmrunner.SleepProxy.Forwarding.{Forwards}
use realmrunner.SleepProxy.Joining.{IsWaiting, IsReaching, handle_joins, handle_refused}
use realmrunner.Server.Properties.{File}
use realmrunner.Server.Manager.State.{World, Launch, Manager, Fault, Outcome}
use realmrunner.Server.Sleep.Wake.{wake, is_awake}
use realmrunner.Server.Sleep.Waking.{IsComing, wake-IsComing}
use realmrunner.Server.Sleep.Door.{error_text, realm_hooks}

error_text-none :
    (text : Fault → List ℕ) (r : Outcome) → r.0 ≡ none → error_text text r ≡ (none, r.1)
error_text-none text (none, m) e = refl
error_text-none text (some f, m) e = cc

error_text-some :
    (text : Fault → List ℕ) (r : Outcome) (f : Fault)
    → r.0 ≡ some f
    → error_text text r ≡ (some (text f), r.1)
error_text-some text (none, m) f e = cc
error_text-some text (some g, m) f e = let same : g ≡ f = cc in ap (λ x. (some (text x), m)) same

-- The client reads one packet, under id 0, nothing behind it, and shows this message.
abbrev pub Shows : List ℕ → Session → Type 0
Shows message session =
    (component : List ℕ) × (client_reads session.to_client ≡ ok ((pos 0, component), []))
    × (shown_text component ≡ some message)

module _ (w : World) (l : Launch) (text : Fault → List ℕ) (file : File) (id : String)
    (marshal : StatusResponse → Option (List ℕ)) (n : Network) (s body rest : List ℕ)
    (h : Handshake) (m : Manager) where
  -- A player who sends a handshake for the login to a server that is not awake, where the wake reports
  -- no error and a dial before the deadline reaches the server: the server reads the player's packet
  -- and what is copied behind it, the player gets its reply, and the manager has the server running
  -- with a process, or is as it was with the server starting or running.
  pub join-IsComing :
      (early : List Round) (r : Round) (later : List Round)
      → read_packet s ≡ ok (body, rest)
      → read_handshake body ≡ ok h
      → h.next_state ≡ state_login
      → is_awake id m ≡ false
      → (wake w l id m).0 ≡ none
      → n.rounds ≡ early ++ r ∷ later
      → All IsWaiting early
      → IsReaching r
      → Forwards n body rest (handle (realm_hooks w l text file id) marshal n s m).0
        × IsComing id m (handle (realm_hooks w l text file id) marshal n s m).1
  join-IsComing early r later e f login asleep woken split waits reaches =
      let (forwards, left) =
        handle_joins (realm_hooks w l text file id) marshal n s body rest h m (wake w l id m).1
          early r later e f login asleep (error_text-none text (wake w l id m) woken) split waits
          reaches in
      (forwards, rw left (wake-IsComing w l id m woken))

  -- Where the wake fails, the player's client reads one packet, under id 0, and parses it: it shows
  -- the error below a line that says the realm could not be started, if that is without control
  -- characters other than newlines and fits a string of the protocol. The manager is left as the
  -- failed wake leaves it.
  pub join-IsTold :
      (fault : Fault)
      → read_packet s ≡ ok (body, rest)
      → read_handshake body ≡ ok h
      → h.next_state ≡ state_login
      → is_awake id m ≡ false
      → (wake w l id m).0 ≡ some fault
      → is_printable (text fault) ≡ true
      → length (chat_component (could_not_start_text (text fault))) ≤ max_string_length
      → Shows
          (codes "This realm could not be started:" ++ newline ∷ text fault)
          (handle (realm_hooks w l text file id) marshal n s m).0
        × ((handle (realm_hooks w l text file id) marshal n s m).1 ≡ (wake w l id m).1)
  join-IsTold fault e f login asleep failed printable fits =
      let (told, left) =
        handle_refused (realm_hooks w l text file id) marshal n s body rest (text fault) h m
          (wake w l id m).1 e f login asleep (error_text-some text (wake w l id m) fault failed)
          fits in
      (
        (
          chat_component (could_not_start_text (text fault)),
          told,
          shown_text-chat_component (could_not_start_text (text fault)) ∙ rw printable refl,
        ),
        left,
      )
