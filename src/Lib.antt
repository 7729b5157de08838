-- ===== src/Lib.antt =====
-- The backend of RealmRunner, which runs Minecraft servers for its users: what its core does.
--
-- The parts and how they interact. The manager (backend/server) keeps one row for each server in a
-- SQLite table and starts, stops and watches the Java processes. Requests of the HTTP API and of the
-- scheduler call it; a monitor goroutine for each process, delayed restarts after crashes and the idle
-- watcher act on it from beside. A server with auto-sleep has a proxy that holds its public port,
-- speaks the Minecraft protocol (backend/mcproto) with players and wakes the server. The manager asks
-- running servers over RCON (backend/rcon) and polls them with a status ping (backend/metrics). Which
-- Java runs a server is decided by backend/minecraft.
--
-- Files:
--   Common: helpers. Tests (the Boolean tests), Lists, Bits (`&`, `|` and shifts), Int (Go's `int` and
--     `int32`), Order (the well-founded order), Assoc (maps from strings), Text (code points), Atoi (`strconv.Atoi`).
--   Mcproto: backend/mcproto/protocol.go. A reader is a function from the bytes that are left to an
--     error or a value with the rest (Stream); VarInt, Packet, Handshake and Messages have one
--     function for each Go function.
--   Metrics/Ping: backend/metrics/ping.go, which has a codec of its own.
--   Rcon: backend/rcon/client.go. The connection is the list of bytes that it delivers before it ends;
--     what the client sends is a field of its state.
--   SleepProxy: backend/sleepproxy/proxy.go. A connection is a function from the client's bytes and the
--     state of the application to the bytes that each side is sent and the new state; what it needs of
--     the application is the record Hooks. Listener has Close and the accept loop as a step relation.
--   Hub: backend/websocket/hub.go, one operation for each case of the loop of Run.
--   Auth: backend/auth/middleware.go and backend/api/users.go; bcrypt and the tokens are arguments.
--   FilePaths: backend/api/fileutil.go: which paths of a server's files may be edited.
--   Players: backend/api/whitelist.go: a player file and the commands that its changes send.
--   Scheduler: backend/scheduler/scheduler.go: when a schedule is due, and a restart.
--   Minecraft/Java: backend/minecraft/java.go. Directories and environment variables are arguments.
--   Server/Store: backend/server/db.go. A table is a list of rows, each statement a function.
--   Server/Crash: backend/server/crash.go. Server/Digits: atoi and itoa of diagnostics.go.
--   Server/Memory: backend/server/memory.go, from the numbers of each line of the collector's log.
--   Server/Manager: backend/server/manager.go, control.go and handleCrash of crash.go. State has the
--     manager; Start, Stop and Admin its operations.
--   Server/Sleep: backend/server/sleep.go. Proxy, Wake and Idle; Door has describe and the hooks that
--     the proxy of a server gets, and Joining a player who comes through that proxy.
--   Server/Properties: backend/server/properties.go, on the code points of the file.
--   Server/Upgrade: backend/server/upgrade.go: the manager and the jars, step by step.
--   Server/Steps: the operations as a step relation, with sequences of steps. Phases has StartServer in
--     pieces (the count, the read of the row, the preparation, the process), and any other operation
--     or another start can come between two of them. Whole has the operations that start a server.
--   The other files below these hold theorems, and each Tests.antt concrete runs.
--
-- An operation of the manager is a function from the state to the error, or none, and the new state.
-- What the operating system answers (the random password, whether files and ports could be written,
-- bound or removed, the new process id, the exit of a process, its log, the number of players) is an
-- argument. The lock of the manager covers only its map of processes, so an operation that runs alone
-- is what is stated, and what runs beside it in the program is a step of its own; the start of a server
-- is also taken apart, in Server/Steps. Times are in seconds.
-- A `*Process` is a number, and the list of the ones that were asked to stop stands for their flag.
--
-- Bounds and fuel: VarInt is written by well-founded recursion, so no fuel is needed. The loops of the
-- RCON client run on fuel of one round for each byte still to be read, and one more; each round takes
-- 14 bytes at least, so it never runs out. Go's `int` is unbounded here where no value comes near
-- 2 ^ 63. A 32-bit integer wraps.
--
-- The status conversation of the sleep proxy runs on one round for each byte of the client, and each
-- round takes bytes. The wait for a server that starts is a list of rounds that ends at the deadline.
--
-- Not modelled: the HTTP handlers other than those of backend/api/users.go, whitelist.go and
-- fileutil.go, backups, mods, downloads, metrics, cgroups and the web client, which are requests to
-- other programs, to SQLite and to the file system; errors of SQLite itself, and operations of the
-- manager that overlap, other than starts. Writes to a client's connection are taken to work. Log and console output is
-- left out.
pub mod Common
pub mod Mcproto
pub mod Metrics
pub mod Rcon
pub mod Server
pub mod Minecraft
pub mod SleepProxy
pub mod Auth
pub mod Hub
pub mod Scheduler
pub mod Players
pub mod FilePaths
