-- ===== src/Lib.antt =====
-- Parts of a private tracker's web site that decide something on their own: the rate limiter, the
-- check of forged requests, the metadata chain, the work queue of the download fleet and its
-- agents, invites, points, what members collect, the metrics, the reading of forms, who may read
-- and register, and the undo of destructive actions.
--
-- Throttle: internal/middleware/throttle.go and internal/middleware/throttle_redis.go. Limit,
--   TokenBucket and MemStore are Limit, bucket and memStore; take, give and sweep are the methods
--   of memStore, each run in one piece as its mutex has it, and allow, refund and guard those of
--   Throttle over a Store (the interface store). Throttle/Key is throttleKey, Throttle/Guard is
--   Guard, Throttle/Redis the two Lua scripts and redisStore. Throttle/Calls lists calls in the
--   order in which they hold the lock. A bucket's tokens are floats in the source. Here they are
--   exact: `credit` is the tokens times Every, so one nanosecond (in Redis one millisecond) that
--   passes is one unit of credit. The rounding of floats is left out, also that of the wait that
--   a refusal reports. Twice Burst times Every is taken to fit an int64. Clocks are parameters,
--   in nanoseconds, and a time before the last look refills nothing, as in the source. A Burst or
--   an Every that is not positive is 0. The requests, the session and the hooks Skip, Exempt and
--   Refuse are the host's: parameters. The network's outcome is a parameter of each call on
--   Redis; a timeout is an error, before or after the script ran. The load and the store of the
--   flag in note, which no lock joins, run as one step, so calls that report at the same time are
--   left out.
-- CatalogChain: internal/catalogchain/chain.go. The sources are the framework's, so Source is a
--   record of what the chain calls, an error being no answer; Index is TitleIndex and Fetch,
--   Search is FindByTitle, Search and ResolveExternalID, Build is New, Similar the score of two
--   titles. An id is an int64 that wraps round; scores and thresholds are fractions. Texts are
--   lists of code points, and unicode.ToLower is a parameter.
-- TaskQueue: internal/storage/agenttasks.go. The table agent_task is the list of its rows with
--   the sequence of its ids, and each SQL statement is a function of the table that runs in one
--   piece; LeaseNextTask is two statements, reclaim and lease, between which others may run. The
--   rows that SKIP LOCKED passes over are a parameter. Times are in seconds. A database error
--   leaves the table alone and is not modelled. RecentTasks, which only reads, is left out.
-- Access: web/handlers/access_web.go, with siteSettings of web/handlers/donations_web.go. Modes
--   are the two mirrors in the process, Settings the table site_settings. Every read and write of
--   the table may fail, as a Bool says. RegistrationModeByKey at the loaded plugins and
--   url.QueryEscape are parameters. Two requests that save at once are not modelled.
-- Undo: web/handlers/undo_web.go. The table undo_actions is a map from tokens to rows;
--   record_undo, perform_undo and purge_undo are recordUndo, performUndo and purgeUndo. The code
--   that reverses a kind, the payload and the rest of the database are parameters, and so is the
--   drawn token; Link says which statements go through. A performUndo runs as one step: its claim
--   is one statement, and the one that hands a token back concerns only a token that it claimed.
--   Times are in seconds. Of undoPost the address it goes back to is modelled.
-- Invites: internal/storage/invites.go. The table invite_codes is the list of its rows and the
--   column users.invites a table of numbers; redeem_invite_code, revoke_invite_code,
--   mint_invite_code and the others are the methods of those names, and grant_invites is
--   GrantInvites of web/handlers/invites_web.go, which adds to the same column; each one
--   statement or, for MintInviteCode, one transaction. Alphabet holds what Unicode and SQL fold
--   letters by, parameters. Invites/Chain is InviteTree, InviteUpline, RecruitCounts and
--   TopRecruiters: a recursive query runs round by round until a round has no rows, on fuel, and
--   as many rounds as InviteTreeDepth are enough on every table. The recursive query of
--   TopRecruiters keeps the root of each row (rank_query) and needs no more rounds; the
--   database's order of the names is a parameter. The order and the limits of the other lists,
--   the columns of names and dates, and errors of the database other than its constraints are
--   left out.
-- Agents: internal/storage/agents.go. Fleet is the table agent with the sequence of its ids and
--   the table agent_prefs. The hash of a token is a parameter, and so is the token that the
--   system's randomness gives, or nothing. Agents/Reports has the calls after the registration;
--   of a status the phase, the title and the encoded JSON are kept. The listings, which only
--   read, are left out.
-- Points: internal/storage/gifts.go and internal/storage/seedpoints.go. transfer_points and
--   credit_seed_points are TransferPoints and CreditSeedPoints on the balances, the gifts and the
--   ledger; `goes` says which statements of the transaction the database carries out.
--   Points/Change is change of web/handlers/points_web.go, by which plugins award and deduct: its
--   two statements run outside a transaction, so the second may fail after the first. Names of
--   members are a parameter. The fractions that a payout carries over are of any type.
-- Saved: internal/storage/cart.go, internal/storage/bookmarks.go and internal/storage/follows.go,
--   tables of pairs. A toggle's two statements run in one piece. In the list of friends the order
--   by time and the join with users are parameters; the other lists are left out.
-- Metrics: internal/metrics/metrics.go. label_string and escape_label are labelString and
--   escapeLabel; Histogram is the type of that name with observe, and series_lines what Render
--   writes of a series. Values and bounds are exact numbers in one unit in place of floats. Write
--   is left out.
-- Request: internal/request/bind.go and internal/request/request.go. A struct is the list of its
--   fields with their kinds, in place of reflection, and the type of its contents is computed
--   from the list; bind_struct is bindStruct. Request/Checks is the map of messages and the
--   checks. ParseInt, the spaces and lower case of Unicode and net/mail are parameters.
-- Csrf: internal/middleware/csrf.go. csrf is the handler that CSRF returns: the verdict on a
--   request, and what the session, the templates and the cookie get. The new token is a
--   parameter.
-- Prelude: the library's names, Boolean tests, maps as association lists, the first success of a
--   list, integers, texts and decimal numbers.
--
-- The parts do not call one another: the guard and the gate stand before the handlers that
-- reach the chain, the queue and the undo table. Only the printing of a number runs on fuel, the
-- number itself, which is no less than its digits are many, and the rounds of the invite queries;
-- every other loop is structural. Not modelled: the pages, their templates and the admin forms,
-- the other tables, the plugins, configuration and start-up.
pub mod Prelude
pub mod Access
pub mod Agents
pub mod CatalogChain
pub mod Csrf
pub mod Invites
pub mod Metrics
pub mod Points
pub mod Request
pub mod Saved
pub mod TaskQueue
pub mod Throttle
pub mod Undo
