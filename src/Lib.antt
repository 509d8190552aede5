-- ===== src/Lib.antt =====
-- A model of llm-cluster-router: the parts that decide which upstream key serves a request, and
-- whether a request is admitted at all.
--
-- The program is a proxy in front of a cluster of language models. Its channel gateway gives each
-- request of a route one of the route's upstream keys and keeps the books of what a key has spent in
-- the current window; its router skips nodes whose circuit breaker is open, rotates the keys of
-- a node, limits each user's rate, and limits how often an operator can force a probe. Both start from
-- a validated configuration; the gateway resolves its secrets before it serves.
--
-- The files and the code that they model:
--   Prelude          names, lists, signed integers, string maps and bytes that all parts share.
--   Rotation         internal/channel/rotation_store.go and internal/channel/rotation.go.
--     Types          the records: keyState is Key, routeState is Route, KeyState is KeyState.
--     Key            the functions of one key: releaseLocked, reclaimStaleLocked, admissibleLocked,
--                    applyCapsLocked, settleLocked, retireLocked, rollLocked's loop body.
--     Policy         the Select methods of the three policies and pickMin. A policy is a parameter of
--                    the store, as the interface RotationPolicy is in the code.
--     Route          the functions of one route: advanceLocked, reserve, RecordSample,
--                    RetireWithReason, retireForWindow, RetryAfter, Snapshot.
--     Store          the exported methods of Store over its map of routes, NewStore, KeyLease.Settle.
--     System         a store among its callers. Each method holds the store's mutex, so that any
--                    interleaving of callers is a list of calls at instants, in the order in which
--                    they get the mutex.
--   Circuit          internal/circuit/breaker.go: Breaker with Allow, RecordSuccess, RecordFailure,
--                    Stats and the gauges of recordState. Settings is ResolvedCircuit of
--                    internal/config/config.go.
--   KeyPool          internal/keypool/keypool.go: Pool with Next, MarkExhausted, Cooling, AllCooling.
--   ProbeLimiter     internal/health/liveprobe.go: the token bucket of forced probes.
--   Selection        main.go: upstreamNode is Node, selectNodeFromSnapExcluding is select_node, whose loop
--                    is visit; with SupportsModel of internal/router/helpers.go and PersonalBlocks
--                    of internal/piiroute/piiroute.go.
--     Order          the order of the priorities.
--     Choice, Chosen what selection chooses.
--     Health, Probes runHealthPass and Ready.
--   FairShare        internal/fairshare/fairshare.go: the bucket of a user, Acquire and gc; a run is a
--                    list of calls of any users and ticks of the clean-up.
--   PiiRoute         internal/piiroute/piiroute.go: luhnValid, tfnValid, panOrTFN and RuleArmed. What the
--                    regular expressions match is an argument.
--   VendorError      internal/channel/vendor_error.go: Parse is parseVendorSignal and vendorRetireUntil,
--                    over lists of bytes; Signals is what they promise.
--   BudgetAdvisory   internal/channel/budget_advisory.go: ConcurrentLeases and TokenBudgetAdvisories.
--   Usage            internal/channel/usage.go: Observe keeps a tail, Result searches it. Tail is what they
--                    promise.
--   Gateway          internal/channel/proxy_auth.go, and of internal/channel/server.go what an answer costs and
--                    what a refusal says.
--     Charge         what settlements and refusals promise.
--     Request        one request of the reverse-proxy leg: leaseFor is lease_for, handleProxy is serve,
--                    settleLease is answer_request. Its store is the one of Rotation, which it uses
--                    by the calls of Rotation.System only.
--     Runs           the calls that one request makes of the store.
--     Overlap        requests that overlap: the handler of handleProxy in the steps between which others run;
--                    Leases says who holds which lease, Calls what a step asks of the store.
--     Overlapped     what holds of requests that overlap.
--   Proxy            main.go: upstreamNode's keys, nextAPIKeyIdx, doUpstream, isFailoverStatus.
--     Failover       the failover loop of handleProxy, on the nodes of Selection and the pools of KeyPool.
--     Bodies, Accounts
--                    what becomes of the responses.
--     Flags, Locality
--                    where personal requests go.
--     Admission      the queue, the buffered bodies and the semaphore of handleProxy. Handlers run at
--                    the same time: a step is one atomic operation of one of them.
--   Connect          internal/channel/server.go: handleConnect and authorizeConnect.
--     Address        internal/channel/connect_target.go: numeric addresses, names and the refusal of a dial.
--     Target         connectSelfReference and localTargetKind.
--     Numeric        what the numeric addresses are; Spelling how they may be written.
--     Deadlines, Linger
--                    tunnelDeadlines, and how long a tunnel lasts.
--     Admitted       who gets a tunnel.
--   SmartRoute       internal/smartroute/smartroute.go and internal/smartroute/agents.go: the classes and agents
--                    of a policy.
--     Validation     Validate.
--     Decide, Routed Decide with its classifiers, and what it decides.
--     Rewrite        the parameters that a decision adds to a body.
--   Config           internal/channel/config.go: what a validation returns.
--     Secret         validateSecretRef of internal/channel/secret.go.
--     Route          validateRouteAuth with the rules for keys, headers and rotation.
--     Connect, Auth  validateConnect, validateGatewayAuth and validateAES.
--     Whole, Valid   Validate, and what it accepts.
--   Wire             internal/crypto/wrap.go: Write and Read of WrapConn. Records is about the framing of Read,
--                    Roundtrip about its calls with buffers of any sizes.
--   Secrets          internal/channel/secret.go: what a resolution yields, its causes and what an error shows.
--     Providers      envProvider, fileProvider and onepasswordProvider over a world that changes between calls.
--     Resolver       Resolver with its cache: providerFor, resolveOnce, Resolve; Runs and Sticky are about its calls,
--                    Malformed about what it refuses as malformed.
--     Pool, Slots    resolveFirst, secretRefs, keySlots and resolveKeyPool, and what they yield.
--   Startup          internal/channel/auth.go: the authenticators, Apply and newAuthenticatorFor.
--     Server         NewServer and match of internal/channel/server.go; Ready, Credentials and Matching are what
--                    they promise.
--   Forward          internal/channel/forward.go: the target and the headers of the upstream request, which
--                    Target and Credentials are about. `outbound_headers` uses the authenticators of Startup.
--   RouterConfig     internal/config/config.go: Config and its records, DiagnosticListenAddr of
--                    internal/config/diagaddr.go, and ToRuntime.
--     Nodes          ExpandEnvValue, ValidateUpstreamURL, validateAuthHeader and validateWorkloads.
--     Load           LoadConfig.
--     Hosts, Accepted, Valid
--                    what a loaded configuration is.
--   Router           internal/router/helpers.go and internal/router/minimax.go.
--     Body, Kept     ApplyModelRewrite, MergeRequestDefaults and what a candidate is sent.
--     Access, Entitled
--                    ClassBearerAuthFunc and ClassFromRequest of internal/proxy/helpers.go, and which nodes of
--                    Selection a caller reaches.
--     Models, Listed handleModels of main.go.
--     UpstreamAuth   setUpstreamAuth of main.go.
--   Examples         concrete runs at which the theorems are applied.
--
-- Numbers and time. Instants and durations are nanoseconds in ℕ, Go's zero time is 0, and
-- `now.Sub(x) >= d` is written `x + d ≤ now`. Counters of type int64 do not wrap; the uint64 cursors
-- do, at 2 ^ 64. A float64 ratio is a fraction, and a token bucket keeps its exact credit, so that
-- the rounding of float64 is not modelled. Loops recurse on the list they range over or on the
-- number of rounds; the failover has maxFailoverAttempts rounds, as in the code. The search of
-- Usage has fuel, one more than the length of its tail, which it never uses up.
--
-- Arguments of the model: what an exchange with an upstream came to, as a function of the attempt and
-- the node or as the reads of a body; what a compiled regular expression matches; the cipher AES-GCM
-- and its nonces; what `net.ParseIP`, `net.SplitHostPort`, `url.Parse`, `filepath.Clean` and the decoders
-- and encoders of JSON and YAML yield; the environment, the files and the output of the op command, as
-- functions of a world that every call may change. Texts are bytes or strings, and the change to lower
-- case is that of ASCII.
--
-- Not modelled: the bytes of the HTTP exchanges, the metrics library, SSH tunnels, SOCKS5, the probes
-- themselves and the command line tools. The events of a retirement are returned as values; how an
-- observer counts them is left to the caller.
pub mod Prelude
pub mod Rotation
pub mod Circuit
pub mod KeyPool
pub mod ProbeLimiter
pub mod Selection
pub mod FairShare
pub mod VendorError
pub mod PiiRoute
pub mod BudgetAdvisory
pub mod Usage
pub mod Gateway
pub mod Proxy
pub mod Connect
pub mod SmartRoute
pub mod Config
pub mod Secrets
pub mod Startup
pub mod Forward
pub mod RouterConfig
pub mod Router
pub mod Wire
mod Examples
