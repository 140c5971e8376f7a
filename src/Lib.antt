-- ===== src/Lib.antt =====
-- codex-web is a Go library that lets a web application talk to the Codex App Server: the package
-- `codex` keeps a client of the server's RPC connection, and `conversation` serves a conversation's
-- page over HTTP. This development is about what the client does so that a user's message reaches the
-- server once: the durable ledger of submissions, in a file or a database, and the flows that send, queue,
-- delete and reconcile; about the questions that the server asks the user; and about the pages of a
-- thread's transcript.
--
-- Parts, each with the code it models:
-- - Errors, GoMap, ThreadMap, Library: Go's errors and panics as outcomes, its maps (an association
--   list; a missing inner map is nil, and assigning into it panics), and the functions of Go's library
--   that the code calls, which are a parameter.
-- - TurnOptions (codex/client.go, `normalizeTurnOptions` and its validators): the normal form of the
--   options of a turn and the digests that are stored of them.
-- - Ledger (codex/client.go from `loadQueueLedgerLockedContext` to `ClearRetiredThreadAttempts`, and
--   codex/send_delivery.go). `Ledger.Types` has the records. `Sends`, `Queue` and `Cleanup` have one
--   action for each transaction: a function of how its write ends and of the store (the client's maps
--   and the durable ledger). `Load` has the loader's checks and the transaction, which loads, acts and
--   keeps what was written. `Compaction` discards the options of accepted sends. `Requests` has these
--   transactions as data, and a run of several: the lock is held from the load to the end of the write,
--   so an interleaving of clients and processes is a list.
--   `Atomic` is about what errors leave behind, `Moves` about the life of one message as a state
--   machine, `Moves.Safety` about histories, `Claims` about who may submit, and `Loaded` about the loader's
--   checks.
-- - History (codex/client.go, `walkThreadItems`, `ListQueue` and the searches by client identity): the
--   server's pages are a list of answers that ends where the context does.
-- - Delivery (codex/client.go, `SendWithOptions` and the flows around it; codex/send_delivery.go): calls
--   on a world that has the durable ledger, the number of events so far and the count of inputs handed
--   to the writer. `Surroundings` gives, by the number of the event, what other processes did to the
--   ledger before it, how its transaction opens and writes, and how the server answers. The wait for a
--   message in history makes the six looks that the code makes.
-- - Database (codex/submission_database.go): the same ledger as rows of a table. `Rows` has the interfaces
--   of SQLite's statements and of JSON, each with the laws that are relied on, `Session` reads a scope,
--   changes the maps and writes the difference; the other modules follow the rows through a transaction.
-- - Prompts (codex/client.go, `normalizePrompt`, `validateAnswers`, `admitPrompt` to `claim`,
--   `writeOfferAdmission`, `detachConnectionLocked`, the notices and `PendingRevision`;
--   codex/request_policy.go; codex/prompt_response.go): each change is made under the client's locks, so `Run` has them as events and
--   an interleaving of goroutines as a list. `written` is a history variable: the tokens of the offers whose
--   response was handed to a writer. `Once` is about answers, `Revised` about revisions, `Present` about
--   connections, `Accepted` about the check of answers and `Answerable` about the calls of `Respond`.
-- - Pages (codex/thread_page.go): `Cursors` keeps the continuations (the loop that makes room has fuel for
--   one round more than there are continuations, of which each round drops one), and `Walk` fills a page
--   (each round but the last visits a turn, of which a page has at most 100, so 101 rounds are enough).
-- - Tests: the theorems at concrete values, and runs of the model.
--
-- Not modelled: the JSON encoding of the ledger, its file lock and its replacement on disk, of which only
-- the outcomes are kept; the migration of that file into the database (codex/submission_migration.go), and
-- the actions of the ledger on a database session, which are functions on its maps there; the parameters of
-- requests, the cause that a cancelled context adds to an error, and timing; the listing of prompts,
-- asynchronous questions, settings, projections of threads, activity, citations and
-- ephemeral turns; the check of a page's continuation against the rollout file; the HTTP handler. A text is
-- valid Unicode, so the tests for it are left out.
pub mod Common
pub mod GoMap
pub mod ThreadMap
pub mod Errors
pub mod Library
pub mod TurnOptions
pub mod Ledger
pub mod History
pub mod Prompts
pub mod Database
pub mod Pages
pub mod Delivery
pub mod Tests
