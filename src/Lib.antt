-- ===== src/Lib.antt =====
-- merge-bot drives GitHub pull requests to a merged state: a runner inspects one pull request after
-- another until it is merged, and a queue of pull requests hands them to workers.
--
-- Base: what the modules share. Text is a list of codes; times and durations are numbers of
-- nanoseconds. Base/Numbers is strconv.Atoi, ParseInt and ParseBool; Base/Texts the operations of strings.
-- Merge (internal/merge/runner.go): one pull request.
--   Merge/Errors: the sentinel errors, errors.Is, isRateLimited, isStaleHeadUpdate.
--   Merge/Github: the interface GitHub, as what it answers during one inspection, with the calls that
--     are made; CheckRun, ReviewStatus, CountChecks, ApprovalsMet.
--   Merge/Gate: Runner, reviewGate, merge, update, tryMerge.
--   Merge/Blocked: handleBlocked, logBlockers.  Merge/Unstable: tryMergeUnstable, requiredChecksGreen.
--   Merge/Runner: step and Run. An operation returns its result with the list of the calls it made.
--     Run is recursion on fuel, one unit for a round; none says that the loop still runs.
--   Merge/Signals, Merge/Delegate (internal/merge/delegate.go): the comments of the external queue's bot,
--     latestSignal, QueuedFromComments, and DelegateRunner.Run, also on fuel.
-- Queue (internal/queue/manager.go): the queue.
--   Queue/Types: Phase, Item, Config, Manager. An *Item is a cell with an address, which a worker keeps;
--     Manager also holds the cancelled contexts, the content of the state file, and the items that left
--     the queue while a worker may still hold them.
--   Queue/Cells: the loops over the items.
--   Queue/Manager: New, Load, List, Add, Remove, Clear, Requeue, requeueParked, claim, save, notify,
--     effectiveConcurrency.
--   Queue/Process: process behind drive, itemLogger, dequeue; drive, on the fuel of the loop that it runs.
--   Queue/Recheck: recheckLoop on what its ticks meet, recheckParked, recheckByState, checksRecovered,
--     conflictResolved; Queue/Recheck/Loop reads the loop as events of Queue/System, Exact and Recovers are
--     about what a re-check requeues, and Churn follows a requeued pull request to its next worker.
--   Queue/System: Run with its goroutines. An event is one critical section of the dispatcher, a worker,
--     an HTTP handler or the re-check; a list of events is an interleaving. Below it, Exclusive is about
--     the owners of the items, Diagram about the phases of one item, Progress about the signal of wake.
--
-- Stats (internal/queuestats/collector.go): the bounded, persisted history of the external queue's depth.
-- Review (internal/review/dashboard.go): the dashboard. Refresh, entryFor and its triage, ensureAuthor,
--   RefreshLoop. The goroutines of a refresh are the order in which they write into the slice. The
--   dashboard reads GitHub with the same counts of checks as Merge, and Review/Declined sets the two side
--   by side.
-- Client (internal/ghclient): what stands behind the interfaces GitHub and Fetcher. A value of Api is what
--   go-github and the GraphQL exchange answer, page by page.
--   Client (client.go): the calls, and the loop over the pages of a listing, on fuel, one unit for a page.
--   Client/Checks: CheckRuns, addLegacyStatuses. The order in which Go visits the map is a parameter.
--   Client/Graphql: ReviewStatus.
--   Client/Options: the options of New, its transport and its timeout.
--   Client/Backed: the client behind the interface of Merge, with the runner and the dashboard on top.
--   Client/RateLimit (ratelimit.go): rateLimitWait and RoundTrip. An Exchange is what the base transport,
--     the clock and the timer answer, by the number of the attempt; durations are int64, with their wrap.
--     The loop is on fuel, one unit for an attempt; one more than the retries is enough.
-- Merge/Status (internal/merge/status.go): StatusProber.Probe and summarizeStatus. The loop is on fuel, one
--   unit for a round.
-- Server (internal/server/server.go): the handlers. A Request is a route with what its handler reads, a
--   Visit what the handler meets besides, and the answer a status code with a reply.
--   Server/Texts: the texts that the handlers take apart, queueLengthRe among them.
--   Server/Daemon: the handlers between the goroutines of Queue/System. An act is an event or a request.
-- Main (main.go): the settings from the environment, validate, splitRepo.
--   Main/Program: run and main, up to the exit of the process; a Machine is what the flags, the files, the
--     listening and the rounds of polling give. Main/Once is about the process of one pull request.
--   Main/Commands: run, runOnce and runServe, up to what they start. The daemon of runServe is the one of
--     Server/Daemon.
--
-- The state file is a value that a save replaces as a whole, or not at all when the write or the rename
-- fails; at a start it is a FileRead: missing, unreadable, unparsable or parsed. Log lines are left out, but
-- for the message that a worker's line puts on its active item. The owner and the repository, which
-- every call passes on, are left out. An int is a natural number where the code keeps it from being
-- negative, and an integer (Base/Int) where it tests the sign.
--
-- Not modelled: what go-github, net/http, encoding/json, flag, godotenv and time.ParseDuration do, which
-- are parameters; signals, the call of Shutdown, the text of the log, and a negative number of a pull
-- request on the command line (main.go); that the HTTP client ends an exchange at its timeout, and the text
-- of the GraphQL query (internal/ghclient/client.go); the browser page (internal/server/index.html); the
-- length of the intervals of the tickers of RefreshLoop and recheckLoop.
mod Base
pub mod Merge
pub mod Queue
pub mod Stats
pub mod Review
pub mod Client
pub mod Server
pub mod Main
