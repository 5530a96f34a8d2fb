-- ===== src/Lib.antt =====
-- The lease authority of the Bruiser gateway, and what keeps it correct.
--
-- The gateway gives agents and browsers of one customer leases ("executions") on a domain, a key
-- built from merchant, rule, customer and resource. A domain has a capacity; a principal beyond it is
-- told BUSY or waits in the domain's queue. Each lease carries a fence, which the merchant's systems
-- compare, so that a holder whose lease has ended cannot act on it. The handlers of
-- internal/api/public call the store of internal/store/postgres, through the cache of
-- internal/lease/cache.go; the sweeps of cmd/bruiser call the expiry operations of the store.
--
-- Files and code:
--   Prelude              lists as tables (select_where, update_where …), integers, strings
--   Lease                internal/lease/types.go: states, leases, requests, answers, errors
--   Lease/Precedence     internal/lease/precedence.go: Rank, CanPreemptRanked, SamePrincipal
--   Store                internal/store/postgres: the tables, and the statements that operations share
--   Store/Acquire        acquire.go: Acquire, resumeHeld, Get
--   Store/Waiters        waiters.go: enqueueWaiter, busyResult, queuedResult
--   Store/Promote        waiters.go: promoteLocked, promoteDue, dequeue, ExpireWaiters
--   Store/Mutate         mutate.go: Renew, Release, Revoke, end, ExpireDue, expireAndPromoteDomain
--   Store/Handoff        handoff.go: Handoff
--   Store/Sessions       seed.go and rc1.go: InsertSession, RevokeSession, LiveSession
--   Store/Emergency      ops.go and audit.go: DrainWaiters, RevokeActive, ListActive
--   Ledger               the abstract view: the moves that a ledger of leases may make (Move), and its
--                        promises (Inv), each shown in a child module
--   Refinement           the operations of the store make moves of the ledger
--   System               the transactions in the order in which they take effect (step, run)
--   Outcomes             what each operation answers, under which conditions, and what it leaves on record
--                        (Outcomes/Stored)
--   Cache                internal/lease/cache.go: BusyCache over any store
--   Budget               rc1.go: EnsureBudget, ConsumeOp, ClaimReplay
--   Shadow               ops.go: ShadowDecide, its holds (Shadow/Capacity), and its verdict against Acquire's
--                        (Shadow/Verdict)
--   Resource             internal/resource/canonical.go: Canonical and its passes (Resource/Fold), and
--                        catalogues (Resource/Grammar)
--   Policy               internal/policy/policy.go: documents; Policy/Compile, Policy/Evaluate, and what
--                        holds of them (Policy/Bounds, Policy/Decisions); Policy/Safety: the default
--                        document, and safety.go
--   Controls             internal/ops: the operator's controls and the ramp (Controls/Hash: FNV-1a);
--                        Controls/Saved: GetControls and PutControls of internal/store/postgres/ops.go;
--                        Controls/Changed: adminPutControls; Controls/Enforced and Controls/Raised: who
--                        is enforced
--   Merchant             internal/merchant/profile.go: profiles and routes; Merchant/Document: policy.go;
--                        Merchant/Issues: safety.go and validate.go; and what holds of them
--                        (Merchant/Routing, Filled, Production, Validated)
--   Gateway              internal/api/public: the services that the handlers call, as an interface;
--                        Gateway/Attempts: eafAcc; Gateway/Errors: storeError, mutationError;
--                        Gateway/Settled: applyControls, rampInput, failOpen; Gateway/Admission, Enforce,
--                        Admit: admit; Gateway/Sessions, Calls: the handlers of sessions and executions;
--                        Gateway/Backend: the interface filled by the store, the cache, the budgets and
--                        the shadow; Gateway/History: events one after the other. Gateway/Branches,
--                        Allowed, Authorised, Statuses, Safe, Kept, Called, Fitting: what holds of them
--                        Gateway/Introspect: introspect (Gateway/Introspected: what an active token is);
--                        Gateway/Roles: admin_auth.go, and Gateway/Minted: who mints tokens;
--                        Gateway/Proxy: proxy.go, and Gateway/Forwarded: what the origin gets
--                        (Gateway/Stripped, Gateway/Hops: the headers deleted on the way)
--   Tokens               internal/auth/tokens.go: the claims of execution and admin tokens and what their
--                        parsers ask (Tokens/Signed: the token of a live lease)
--   Sdk                  sdk/go/protect.go: Protect and FenceCache (Sdk/Fences, Sdk/Passed)
--   Scenarios            concrete runs
--
-- How the code is rendered. A transaction is a function from the tables to a result: an error rolls
-- back, so it carries no tables. The domain's row is locked first by every transaction that changes
-- its leases, so transactions of a domain take effect one after the other; System runs them in that
-- order, each at its own `now()`; what an operation reads before its transaction (lookupDomainKey, Get,
-- Session) it reads at that time too. A time is a number of nanoseconds, a duration (int64) an integer of
-- them, cut to milliseconds where the code passes it as an interval. Strings are lists of code points.
-- Statements read rows in the order of the list, where the code gives no `order by`. What PostgreSQL
-- answers is read off the statement and the tables' keys: a unique violation and a missing row are
-- errors, a lost connection is not modelled. Fresh ids are arguments. Fences are unbounded, where the
-- code has int64. No recursion runs on fuel: each follows a list.
--
-- The histories of System start from tables in which the promises hold (the empty ones do), and their
-- transactions start in the order in which they take effect (InOrder): `now()` is the time at which a
-- transaction starts, and one that starts early and gets the lock late sees an older time.
-- A capacity belongs to each domain (CallsFit): a request that asks for more is not in a history.
--
-- A handler is a function of its time, the ids drawn for it, its request and the world behind it, and its
-- answer is a constructor with a status. It calls the store through the record Services: what a theorem
-- says over any Services holds whatever the store answers, errors of every kind included; what it says
-- over Backend's holds of the gateway with its store. What identity.ExtractInput finds of a request's
-- credentials, and the signing and the parsing of tokens, are arguments. Handlers take effect one after
-- the other, where the code runs them at once and only the store's transactions exclude each other.
-- The policy and the controls are those of the event, and may change from one to the next.
--
-- A header is a list of keys with values. Of ReverseProxy, which forwards the proxy's request, the
-- deletion of headers is modelled; what it adds (X-Forwarded-For, User-Agent, Te, Upgrade) is not.
--
-- A parameter that verifies a token stands for the JWT library: it gives the claims of a token whose
-- signature and times pass; the times in a token are whole seconds, so rounding is a parameter too.
--
-- Not modelled: the text of errors and issues, the attributes of audit events, reports that only read,
-- HTTP and JSON, rate limits, the YAML of policies and profiles, the cryptography of tokens,
-- configuration and tools.
pub mod Prelude
pub mod Lease
pub mod Store
pub mod Ledger
pub mod Refinement
pub mod System
pub mod Scenarios
pub mod Outcomes
pub mod Cache
pub mod Budget
pub mod Shadow
pub mod Resource
pub mod Policy
pub mod Controls
pub mod Merchant
pub mod Gateway
pub mod Tokens
pub mod Sdk
