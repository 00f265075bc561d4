-- ===== src/Lib.antt =====
-- neo_transcoder: a model of the Go daemon that runs ffmpeg transcoding streams and SRT relays.
--
-- The program. A stream is an ffmpeg process that the daemon starts, watches and restarts; a relay is an
-- SRT worker process that reads a multicast input and either serves SRT receivers (a listener) or sends
-- to one SRT destination (publish). The daemon keeps relays, the clients that may receive them, their
-- sessions and an audit log; it hands a worker its configuration on standard input, and the worker
-- answers with events, one JSON object on a line, which the daemon applies to its store.
--
-- The parts, and the files that model them:
-- - Base: what the other modules share. Base/Tests (Boolean tests and the class of types with an equality
--   test), Base/Lists, Base/Text (Go's strings package on bytes), Base/Int (int and int64 where a negative
--   value or a wrap-around matters), Base/Maps (Go's maps as association lists), Base/Results (checks that
--   fail with the first error), Base/Numbers (strconv.Atoi), Base/Fields (how strings.Cut and strings.Split
--   take a text apart that was put together).
-- - Auth: internal/auth/auth.go. The module itself is users, password hashes and tokens, Base64 is
--   base64.RawURLEncoding, Pbkdf2 is pbkdf2Key, and Pbkdf2/Reference has the formulas of RFC 8018.
-- - Ffmpeg: internal/ffmpeg/args.go. Models is its data and the built-in profiles, Urls is validateURL,
--   validateInput and the two functions that add parameters to a URL, Template is buildTemplateArgs and
--   renderTemplateArg, Args is BuildArgs.
-- - Relay: internal/srtrelay. Models is models.go and protocol.go. Names and Normalize are idPattern,
--   hostnamePattern, normalizeRelay and normalizeCIDR of store.go, Clients is normalizeClientLocked, Store
--   and Credentials are the operations on relays and on clients (UpsertRelay, RotateRelayKey, DeleteRelay,
--   upsertClient, RotateClientKey, DeleteClient, WorkerClients, with Credentials/Handed on whom the last
--   hands out), Sessions is CloseRelaySessions and pruneSessionsLocked, Events is ApplyWorkerEvent,
--   auditFromWorkerEvent and UpdateState, Manager is manager.go (start, Stop, wait, retryFlapping,
--   allowRestart). Audit is audit.go (Append, List, Clear, pruneLocked), with Audit/Order on the order of
--   its files. Consistent says which references between relays and clients hold, and History lets all
--   changes of a store happen in any order.
-- - Worker: internal/srtworker. The module itself is the state of worker.go and its event queue; StreamId
--   is streamid.go, Continuity is continuity.go; Acl is ipAllowed, Limiter is allowConnectionAttempt,
--   Admission is authorize, Sessions is expireAttempt, acceptLoop, close and closeAllSessions, Broadcast
--   is inputLoop, broadcast and sendLoop, Start is newWorker. Interleaving lets the critical sections of
--   the goroutines happen in any order; Bounds has the limits that each of them keeps; Handlers shows that
--   the handlers are runs of such sections, Access whom a handshake is granted, and Grants what that
--   leaves behind.
-- - Streams: internal/streams. Models is the data of store.go, Config is normalizeConfig with the policies,
--   Logs is the log buffer (AppendLogCode, pruneLogsLocked, Logs, ClearLogs), Lines is scanCRLF of jobs.go
--   and the classification in errors.go, Watchdog is watchdogAction of jobs.go. Store is the rest of
--   store.go: streams and profiles, Store/Users the users, Store/Loading the opening from a state file;
--   Store/Consistent says how its maps refer to each other, and Store/Histories lets the operations happen
--   in any order. Jobs is start, Stop and maybeRestart of jobs.go, Jobs/Processes what goes on for a running
--   process (wait, captureStderr, captureProgress, monitorProcess), and Jobs/Goroutines lets Stop and wait
--   alternate. A process's arguments are those that
--   Ffmpeg/Args builds from the store's configuration and profile, and the users are those of Auth.
-- - Server: internal/server/server.go. The module itself is the check of a request's token (auth,
--   userFromRequest), login, refresh and the handlers of users; Access says who is let through, Sessions
--   what a login gives access to, and Revocation what a new password takes away. It joins Auth and the
--   users of Streams/Store. Streams is restartStream and deleteStream, which join Streams/Jobs and
--   Streams/Store.
-- - Tests: runs of the models on concrete inputs.
--
-- How state and code correspond. A record stands for a Go struct and a function from state to state for a
-- method; what a method does under its lock is one function, so that an interleaving is a sequence of such
-- functions. Stop and wait of jobs.go, which take several locks one after the other, are a function for
-- each and one for all; other methods that take more than one are a single function. Times are nanoseconds
-- since Go's zero time, and 0 is that zero time. Texts that the code walks are lists of bytes. A map is an
-- association list in which an insertion replaces the entry of its key; the order of its entries stands
-- for the order of a range loop, which Go leaves open. Errors are values; their texts are left out where
-- the code only passes them on.
--
-- Bounds and fuel. Numbers are natural numbers where the code only counts up from zero; an int that may
-- be negative is a ℤ, a duration in seconds wraps around as an int64 does, and so do a key version and a
-- token version. Two loops run on fuel: the cutting of payloads, whose fuel is one more than the bytes that
-- are held, and the line scanner over a complete input, whose fuel is one more than its bytes; their
-- theorems show that this is enough. The loops of pbkdf2Key and of the audit log's ring count down the
-- rounds that are left.
--
-- Parameters. net.ParseIP, net.ParseCIDR, the parsing and printing of URLs, HMAC with SHA-256, the JSON of
-- tokens, the random source, the clock, the contents of the state file, and whether a save succeeds or a
-- process starts are arguments.
--
-- Not modelled: the HTTP server's routes, its handlers of relays and those that only
-- call one operation, the configuration file, the installer, the doctor, probe and sysinfo
-- packages and the commands (calls of the operating system and of libraries); libsrt and its bindings; the
-- sockets, pipes and goroutines; the relay store's state file, the writing of the streams' one, and the
-- errors of the audit log's files; the numbers of ffmpeg's progress, which are only shown; the events to
-- the subscribers of a store.
pub mod Auth
pub mod Base
pub mod Ffmpeg
pub mod Relay
pub mod Server
pub mod Streams
pub mod Tests
pub mod Worker
