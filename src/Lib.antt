-- ===== src/Lib.antt =====
-- StreamGuard, a gateway that streams completions of language models and fails over between
-- providers: a model of its request path and what is proved of it.
--
-- The parts and how they interact. A request to /v1/stream passes the checks of the handler
-- (internal/server/server.go): the server's state, the method, the body, the key (internal/auth), the
-- providers on its list, its budget (internal/budget) and its window (internal/ratelimit). The handler
-- then tries the providers in order. Each has a circuit breaker (internal/breaker), which says whether
-- it may be tried and learns what came of it. An attempt reads the frames of the upstream
-- (internal/parser), reserves tokens of the budget for each, notes them in the window and passes the
-- text on. A failure gives the tokens back and announces the next provider (internal/protocol). The
-- session (internal/cascade) keeps the attempts, and the end of the request is billed in the ledger
-- (internal/ledger). The settings (internal/config) name the providers and the thresholds. Now and then
-- a job (internal/reconcile) compares the ledger with what the providers say they counted: it marks
-- entries that drift, samples the drift (internal/calibration) and tells the registry of tokenizers
-- (internal/tokenizer), which suspects a tokenizer that drifts three times in a row.
--
-- The files.
--   Prelude          shared types and lemmas; Word has the 64-bit integers, Maps the Go maps
--   Text             byte strings and the functions of package strings that the code calls
--   Budget           internal/budget/budget.go: APIKeyRecord, TryReserve, Release, Exhausted, Allows.
--                    Bounds has the laws of single calls; Interleaving has the compare-and-swap loops
--                    (Machine: one atomic access a step) under a list of events of any callers
--   Breaker          internal/breaker/breaker.go: one function for each method. Invariant has the
--                    invariant and the state diagram, Cycle what sequences of calls do
--   RateLimit        internal/ratelimit/ratelimit.go: New, Admit, Add, pruneLocked. Window has the
--                    specification
--   Cascade          internal/cascade/cascade.go: NewSession, StartAttempt, FinishAttempt
--   Ledger           internal/ledger/ledger.go: RecordTerminal (record_in, given the period's text),
--                    UpsertReconciliation, Summary, Entries, getLocked. Totals has its sums, Order
--                    that the order of the map does not matter
--   Auth             internal/auth/auth.go: Add, LookupRaw, LookupHash, ResetExpired, Redact. KeysFile is
--                    LoadKeysFile and parseList; its Items has what a file adds, Unused
--                    what every key of a file is like
--   Protocol         internal/protocol/protocol.go: reasons, event structs, WriteSSE, WriteContent
--   Parser           internal/parser/parser.go: readFrame, ParseFrameForProvider and its helpers.
--                    Framing and RoundTrip read back what Protocol writes. Next is the wait for a
--                    frame, Silence when it ends in ErrSilentHang
--   Config           internal/config/config.go: ProviderType, BreakerConfigFor, Validate. File is
--                    parseFile, a line a step; Load is Defaults and Load (Ranked: what it returns;
--                    Nameless and Lost: files that it refuses)
--                    Url is validateProviderURL
--   Address          restrictedUpstreamIP, over the packages netip and net
--   Server           internal/server/server.go: runAttempt. Handler has the checks of handleStream
--                    (Asked: what they ask of a request; Admission: that they ask just that),
--                    Stream and Rounds its failover loop, in the order of the code; Output, Accounting
--                    and Billing what holds of a whole stream (Phases: the order of events;
--                    Settling: what an outcome does to the accounts)
--                    Sessions is the registry of sessions and the drain: registerSession,
--                    releaseSession, BeginShutdown, forceCloseActive. Dialing is upstreamRequest and
--                    validatedDialAddress (Guard: where the server may connect to; Reachable: the
--                    same for the URL check of the settings); Endpoints is New,
--                    handleUsage and handleHealth (Access: who gets a summary); Replies is
--                    Handler, handleLivez, writeError, writeJSON, the accessors and the dialler
--                    of newValidatedTransport (Health: who learns the state of the breakers).
--                    Relay has what a request comes to while all breakers are closed (Texts: an
--                    attempt; Closed and Turns: a round)
--   MockUpstream     internal/mockupstream/mockupstream.go: New, SetOptions, snapshot, stream,
--                    usageHandler. Failing has what a demo provider sends and counts, Counted what
--                    FetchUsage gets of it. Serving is NewHandler, handler, requestModel, delay, and
--                    cmd/demo-upstreams/main.go
--   Client           client-ref/main.go: readFrame, extractText and the loop of main, what it prints as
--                    data. Display has what it shows of what the server sends. Request is the
--                    prompt, the request and the marks
--   Tokenizer        internal/tokenizer/tokenizer.go: the counters and the registry. Streak has what the
--                    registry suspects, Cache what the cache of encodings does
--   Double           float64, as an interface with laws of IEEE 754
--   Calibration      internal/calibration/calibration.go: Sample, Percentile, the derived values. Rank
--                    has what a percentile is, Derived the bounds
--   Reconcile        internal/reconcile/reconcile.go: Apply, Run, RunOnce. Flags has what a run marks,
--                    Billing what it leaves alone. Fetching is FetchUsage
--   Chaos            chaos/harness.go: the switch, the defaults, the scenarios and the two demo
--                    providers. Run is Run and invokeStream; Answers and Counts have what a result
--                    says; Expected compares the scenarios with the gateway's loop
--   Startup          cmd/streamguard/main.go: the start, the reconcile loop, the shutdown; with
--                    RunBudgetResetter of internal/auth/auth.go. Ready has what a start sets up,
--                    Loops what the reconcile loop leaves alone
--   Tests            the theorems at concrete inputs and runs of the model
--
-- Conventions. An int or int64 is an integer with wrap-around written out where the code adds or
-- subtracts. Times and durations are nanoseconds, and the clock is an argument. A method that holds
-- its mutex is one step. A Go map with text keys is an association list. A shared object is passed
-- and returned. Loops are recursion on the providers, on the frames that arrive, on the lines and
-- on the bytes read. Only the client's loop runs on fuel, the length of the stream, which is enough
-- since every frame takes a byte at least.
--
-- Parameters. `Json` is encoding/json on the structs of the program; `Counter` is the token counter
-- as the server calls it; `Library` is the library of tokenizers; `Double` is float64; `Fetcher` is
-- FetchUsage, which gives the same answer to the same question during a run; `hash` is SHA-256;
-- `stamp` and `span` format a time and a duration; `Environment` is what the checks of the settings
-- learn from the URL check and the file system. The outside of a request is a script: for each
-- round the clock, what the upstream answers (an error of the reader among them), and what other
-- requests do meanwhile to the shared objects, as functions on them.
-- `Net` is what the code uses of the packages netip and net; the two records `Parsers` are strconv
-- and time on texts; `quote` is strconv.Quote. A file is its lines. What is assumed of them, where
-- it is, is a hypothesis: that JSON writes a struct on one line and reads it back (IsObject,
-- Decodes), that comparisons are those of IEEE 754 (IsOrdered), and that unmapping an address twice
-- is unmapping it once (Unmaps).
--
-- The harness's run takes the answer of each of its streams, the order in which they end and the state
-- that they leave the gateway in as arguments; Chaos/Expected puts the demo providers, as the gateway's reader sees them, under the
-- failover loop instead.
--
-- Not modelled: listening on sockets, signals, logging, sleeping and flushing; the headers of the event
-- stream; the flags of the client and the wording of the lines that it prints. What net/http does with
-- a request is a parameter: how a path finds its pattern (`mux`) and what an address is dialled to.
pub mod Prelude
pub mod Auth
pub mod Budget
pub mod Breaker
pub mod RateLimit
pub mod Cascade
pub mod Ledger
pub mod Text
pub mod Protocol
pub mod Parser
pub mod Config
pub mod Server
pub mod Tokenizer
pub mod Client
pub mod MockUpstream
pub mod Address
pub mod Double
pub mod Calibration
pub mod Reconcile
pub mod Chaos
pub mod Startup
pub mod Tests
