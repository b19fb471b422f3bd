-- ===== src/Lib.antt =====
-- A model of codespace-ssh-gateway, an SSH front door for remote development environments: it
-- authenticates a client, brings the client's environment up through a provider, connects to it,
-- and keeps track of the sessions that run there.
--
-- Shared        lists, text, decimal numbers and maps with string keys
-- Providers     providers/: the states of an environment, and the errors that the core reacts to,
--               those of providers/github/api.go among them (`Failure` has a constructor for each
--               kind of error value; `is` and `is_temporary` walk the chain as errors.Is and
--               errors.As do)
-- Session       core/session/session.go: the registry of client sessions. A *Session is an address
--               into `cells`, so that a closed session is still seen through its pointer. Manager
--               holds the operations and Listing List; Refinement says what the package promises
--               with the tables forgotten, Listed what List answers, and the other modules hold the
--               proofs. A call is one step: in Close that is the flag set before the mutex is taken,
--               the section under it and the hook after it.
-- Lifecycle     core/lifecycle/: how an environment is brought up
--   Phase, States, History   phase.go, and what manager.go records of each environment; Snapshots
--                            has Status and All
--   Flight and its children  the sharing of one operation among the callers of Ensure, as a step
--                            relation on a heap of operations: Flight has one function for each
--                            locked section, Flight.System the interleavings
--   World                    what a goroutine of the manager sees: a state and failure monad over
--                            an oracle for the provider, the clock and the context. An answer of
--                            the oracle may be any function of the events so far.
--   Ensure, Watch, BringUp   ensure.go, one function for each part of ensure
--   Wp, Reaching, Outcome    what holds of each answer of ensure
--   Connect                  connect.go, and Ensure for a caller that nobody joins
--   Connecting, Closing      what holds of each answer of Connect, Stop and OnSessionClosed
--   Halting and its children that ensure and Connect answer
--   Defaults                 the options with their durations, as New gets them
-- Secret        core/secret/secret.go
-- Config        core/config/: the settings with their defaults (Config), where files are looked for
--               (Paths), Load (Load) and its validate (Validate). Bounds, Keys and Order hold the proofs. A
--               section that is not the core's is of a type that the YAML library gives, and so are
--               the decoders; a top-level map comes as a list in any order.
-- Ssh           ssh/: who is let in (Auth for NewAuthorizer, Auth.Checking for what it answers and the
--               callbacks of server.go, Auth.Policy for the same said of the configuration), what a
--               channel does with its requests (Channel, Answers), and the end of a channel, where
--               teardown and run go on side by side (Teardown as a step function on the points where
--               the two goroutines stand, Releasing), and what the client is told (Exit, Notices).
--               A public key is its wire form.
-- Gateway       core/gateway/backend.go: OpenSession and Release over the registry and the lifecycle
--               (Opening, with Leaks for the registry's counts), ResolveEnvironment and userFacing
--               (Resolve), login names of ssh/backend.go (Names), core/logging/redact.go (Redact).
--               The lines that a client sees before its environment is known are left out. Wiring
--               has LoopbackListen and what New hands to its parts, and Access what a configuration
--               that was loaded means for them.
-- Github        providers/github/: the client of the API with its retries (Client, Requests), what
--               Get, Status, Start, Stop and Create make of its answers (Codespaces, Paging, Creating,
--               Pending), and the caches of source.go and cache.go (Sources, Recall, Users), and of util.go and
--               connection.go what is kept of a child's stderr, the terminal modes and the choice of a
--               connector (Streams, Kept). The section of the configuration is in
--               Settings with Ready, the options of Create in Options, the host keys
--               that are pinned in HostKeys and Pinning. The network is an oracle
--               like the provider's; `Codec` stands for encoding/json and other library tables.
--
-- The loop of waitFor runs on fuel. Each of its rounds polls the context, and the context of ensure
-- has a timeout: if it ends after at most n polls, n + 1 rounds are enough (Lifecycle.Halting).
-- The wait for a pending operation of GitHub runs on fuel too: it gives up after two minutes by the
-- clock and pauses for five seconds, so 26 rounds are enough (Github.Pending).
-- Times and durations are numbers of nanoseconds; the session number wraps at 2^64.
--
-- Numbers that may be negative, in a configuration, are of the type ℤ of Shared.Integers.
--
-- Not modelled: the SSH listener, its handshake and the copying of a channel's streams (server.go and
-- pump in forward.go), the child processes of the GitHub provider (connection_*.go, pty*.go, ghcli.go,
-- diagnose.go) and the making of its key pair (keys.go), the CLI and the files that are written: this
-- is input and output around libraries. The logs are left out.
pub mod Config
pub mod Gateway
pub mod Github
pub mod Lifecycle
pub mod Providers
pub mod Secret
pub mod Session
pub mod Shared
pub mod Ssh
