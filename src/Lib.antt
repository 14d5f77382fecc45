-- ===== src/Lib.antt =====
-- django-mcp-sql gives agents read-only SQL over a Django project's database. A request passes the
-- OAuth gates (auth.py, conf.py, consts.py) and the parser's checks (parser.py), is limited, and
-- runs in a guarded session (session.py) under the executor (executor.py), which writes an audit
-- row (models.py) and feeds the counters of observability.py; grants.py brings the grants of each
-- role into line with its whitelist; throttle.py counts failures per address; schemas.py has the
-- vocabularies.
--
-- Files. `Ast` is sqlglot's syntax tree as an interface with laws; `Raise` has exceptions as
-- values. `Parser` has one file per group of checks of parser.py, each function under its name
-- there without the leading underscore, and below each group the file that says what the check
-- means. `Models` and `Outcome` have the records and enumerations of models.py, conf.py and
-- schemas.py. `World` is the state that requests share (cache, logs, audit tables, statements sent)
-- with the actions on it, and `World/Frames` the rules to reason about them. `Caching` and
-- `Database` are Django's cache and the read-only connection, as interfaces. `Session`, `Throttle`,
-- `Observability` and `Grants` (with `Grants/Reconcile` for `_reconcile_profile`) follow the files
-- of those names. `Conf`, `Consts`, `Decorators` and `Auth` follow the parts of conf.py, consts.py,
-- decorators.py and auth.py that bind and admit a user; the gates of `authenticate` are one
-- function each. `Executor` follows executor.py: `Cells` and `Limit` are the pure parts, `Audit`
-- the audit writes, `Reading` and `Pipeline` the function `run_query`, cut at its early returns.
-- The loops over parents in parser.py run on fuel, the depth of the node, which the laws of `Ast`
-- show to be enough; every other loop is structural.
--
-- `Validation` follows validation.py: `Settings` has the shapes and the patterns, `Numbers`
-- the comparisons of a value that is declared as a number and may be a text, `Thresholds`,
-- `Profiles` and `Clouds` the three groups of checks, each with the file that says what it accepts,
-- and `Startup` the whole. `Oauth` is the validator of oauth.py, `Registration` the view of
-- views/registration.py, with its checks in `Registration/Metadata`. `Urls` is `urllib.parse` as an
-- interface, and `Dict` a mapping in the order of insertion.
--
-- `Signals` has one file per group of receivers of signals.py: `Logout`, `Profiles`, `Clients`,
-- `Cohort` and `Drift`. `Grants/Whole` is `reconcile_grants`, `Conf/Clouds` the cloud clients of
-- conf.py and `Conf/Accessor` the accessor of its settings. `Fencing` follows fencing.py,
-- `Issuance` the gate of views/oauth_authorize.py, and `Endpoint` the tools of
-- views/mcp_endpoint.py, what they are closed over, and the environ that is passed on to them.
-- `Discovery` has the documents of views/discovery.py.
--
-- Not modelled: sqlglot, Django's ORM, cache and connections, Postgres, FastMCP and the event loop,
-- which are parameters or stand outside; settings with bytes where a text or a number is declared;
-- the admin and the commands. Logging is the list of the calls made. Time is two readings of a
-- clock, given with the services. A `float` is its printed text.
pub mod Prelude
pub mod Outcome
pub mod Raise
pub mod Ast
pub mod Parser
pub mod Models
pub mod World
pub mod Caching
pub mod Throttle
pub mod Observability
pub mod Grants
pub mod Database
pub mod Session
pub mod Executor
pub mod Consts
pub mod Conf
pub mod Decorators
pub mod Auth
pub mod Urls
pub mod Dict
pub mod Oauth
pub mod Registration
pub mod Signals
pub mod Issuance
pub mod Fencing
pub mod Endpoint
pub mod Discovery
pub mod Validation
