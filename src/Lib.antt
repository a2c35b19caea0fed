-- ===== src/Lib.antt =====
-- The portal for users of a Sub2API account, and its updater: a model of the parts that keep state,
-- and theorems on them.
--
-- Parts. The portal keeps its users, their sessions, their bindings to upstream keys, the batch jobs
-- that reset quotas, and announcements in one SQLite database (internal/store). An administrator
-- starts a batch job by HTTP; four goroutines work it off (internal/httpapi/quota_resets.go), each
-- through calls of the store and of the upstream. The portal checks the upstream's version
-- (internal/sub2api/version.go). The updater (cmd/sub2api-limit-updater) replaces the portal and itself by
-- a newer release, and puts both back when that fails or when a run of it died.
--
-- Files.
--   Base            shared names; Base/Tests, Base/Lists, Base/Text, Base/Trim: Boolean tests, tables as
--                   lists with SQL's WHERE as a test, texts, TrimSpace and TrimRight.
--   Store/Model     internal/store/models.go: records of the tables, and the database.
--   Store/Tx        a transaction: a function on the database that returns a value with the changed
--                   database, or an error, which rolls back.
--   Store/QuotaReset  internal/store/quota_reset.go and audit.go. Statements, Jobs and Items have one
--                   function per call, under the Go name in snake case; Calls is a history of calls;
--                   Invariant, Abort, Active, Recover, Frozen and Counts have the proofs.
--   Store/Users, Store/Bindings, Store/Sessions  users.go, bindings.go, sessions.go; Store/Accounts
--                   has their histories and proofs.
--   Store/Announcements  announcements.go, with Posted (histories) and Views (what a user sees).
--   Store/Setup     setup.go: the setup token, the settings; Store/Setup/Token has the proofs.
--   Store/Pool      pool.go: the upstream accounts; Present, Published and History have the proofs.
--   Http/Login      internal/httpapi/auth.go and the guards of server.go; Sections has logins side by
--                   side; Counted, Limits, Guarded and Entered have the proofs.
--   Http/ResetItem  internal/httpapi/quota_resets.go and admin_users.go: outcome of one reset,
--                   validation of an item, the gate that lets one operation at a time at a key; Outcomes
--                   has proofs.
--   Http/ResetJob   runQuotaResetJob and runQuotaResetItem; Exclusive, Ready, Actors, Ends, Completes
--                   and Sends have the proofs.
--   Version         Updater is cmd/sub2api-limit-updater/semver.go, Portal is
--                   internal/sub2api/version.go; Order, Transitive and Agree have the proofs.
--   Sync            internal/syncer/manager.go: Stale has the proof about generations, Delay that about the
--                   schedule.
--   Install         cmd/sub2api-limit-updater/apply.go, transaction.go, status.go and files.go. Machine is
--                   what the updater works on and how a call can go, Config the commands, Journal the
--                   request, the status and the journal, Restore the files, Transaction is
--                   applyTransaction, Recovery recoverInterruptedTransaction. Holds has rules for what
--                   holds after each end of a program; Quiet, Recoverable, Recovers, Recovered, Saves,
--                   Undoes, Installs, Transacts, Outcomes, Crashes, Succeeds and Live have the proofs.
--   Tests           concrete databases, worlds and versions.
--
-- Conventions. A table is the list of its rows in the order of the primary key, an AUTOINCREMENT
-- sequence is its last id, and a constraint of the migrations is a test before the insertion: the
-- keys into `users` of a job's requester and of an audit event's actor among them. Each call takes
-- one reading of the clock, but a login one for the test of its limit and one for its outcome. Times
-- and ids are natural numbers. A text is a list of code points; a float64 is not a number, infinite,
-- or a dyadic fraction, of which only the sign is asked.
-- Identifiers of versions are ASCII, where the order of code points is that of bytes. JSON metadata
-- of audit events is a data type. Loops are structural recursion; there is no fuel.
--
-- A batch job's concurrency is a list of events: each is one step of one of the four workers, which
-- may meet a failing statement or any answer of the upstream, a step of a single reset, or any change
-- of users, sessions and bindings by the rest of the portal. Outside the workers each statement of the
-- run is answered by the driver or not; a failing last abort is only logged, and leaves the job to the
-- recovery at the next start. The run returns once every worker is past its loop.
--
-- A file of the updater changes by one rename: a call of the file system or of a command succeeds,
-- fails without effect, takes effect and still reports an error, or never comes because the process
-- dies. While the service runs, the portal may write its database before each call. Times, paths and
-- the copying of bytes are left out, and so is durability: what a rename did is not undone by a
-- crash. What a program prints as its version is a parameter.
--
-- Passwords, random tokens, parsed URLs and case folding are parameters of the login. Concurrent logins
-- with one key are a list of sections: one handler tests the limit, or one that passed the test goes
-- on to the check of its password and the record of the outcome, in any order. Any number of them can
-- be past the test at once, so the limit of five failures holds up to that number.
--
-- Not modelled: a failing driver outside these events (a statement that fails in a transaction leaves
-- the database as it was), the audit event of a publication of pool accounts but for its actor (whose
-- key into `users` is not tested there), a NaN in the bindings outside a sync of the key list, the
-- lists of all users and bindings, HTTP and JSON, encryption, the list of the pool, the single flights
-- and the probe of the synchroniser, the choice and the unpacking of releases, the release checks and
-- the forecast.
pub mod Base
pub mod Store
pub mod Http
pub mod Version
pub mod Sync
pub mod Install
pub mod Tests
