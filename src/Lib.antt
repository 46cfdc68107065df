-- ===== src/Lib.antt =====
-- gocontrolpanel: a hosting panel in Go, modelled as functions on explicit state.
--
-- An HTTP request passes the middleware, which finds the user of its token and limits the rate by
-- address; a handler then checks who may act on the resource and calls the store (PostgreSQL) or the
-- provisioning service, which drives the container engine and, from the routing table of the
-- store, builds and loads the configuration of the edge server. A worker compares the sites with
-- their containers, watches the quotas and runs cron jobs. The firewall of the host is changed by
-- commands sent over an SSH session.
--
--   Base, Go          shared names and lemmas; the parts of Go's standard library that are used
--                     (texts are lists of bytes; splitting, trimming, numbers, sorting, paths)
--   Models            internal/models/models.go
--   Panel             the state: rows, the edge's configuration, the calls that were made, and a
--                     list that says which of the next outside calls fail. An action (`Exec`)
--                     keeps what was changed before an error. Panel.Calm, Panel.Yields, Panel.Once
--                     and Panel.Calls carry the reasoning on actions
--   Store             internal/store: users and sessions, accounts, sites, the routing table
--   Provision         internal/provision/service.go: SyncCaddy, the life cycle of sites and accounts;
--                     Provision.NewAccount is CreateAccount
--   Caddy             internal/caddyapi/config.go: Build and its handlers
--   Auth              internal/auth: auth.go (tokens, passwords), totp.go (codes)
--   Api               internal/api: middleware.go, access.go, handlers_auth.go (Login, and the own
--                     password in Users), handlers_users.go (Users), handlers_accounts.go (Accounts),
--                     handlers_sites.go (Sites), handlers_files.go (Files)
--   Cron              internal/worker/cron.go: Matches, fieldMatches, partMatches
--   Worker            internal/worker/worker.go: a tick of reconcileLoop (Reconcile), enforceQuotas
--   Host              internal/hostctl: parse.go (Parse), client.go (Client)
--   Tests             concrete runs, and each theorem at a concrete input
--
-- SQL statements are functions on lists of rows, with the constraints that a statement can meet
-- (unique names, references). JWT signing, HMAC, base32, bcrypt and randomness are parameters, in
-- the records `Jwt`, `Hotp`, `Crypto` and `Passwords`; so are what the container engine answers
-- (`Engine`), how the edge server compares a name of a route, which may be a pattern such as
-- `*.example.com`, with the host of a request (`HostMatcher`, of which only is used that a name
-- covers itself), what is on the disk (`Fs`) and what a session on the host answers (`Ssh`). The
-- mutexes of the limiter and of SyncCaddy make each call one step. Requests are decoded. No
-- definition needs fuel: every loop of the source that is modelled runs over a list. A container is
-- known by its name where the source keeps the identifier that the engine draws, and the look for a
-- default page with its write is one call that may fail.
--
-- Not modelled: of the worker the metrics, the launch of cron jobs, the backups and the
-- housekeeping; the remaining handlers, those of plans among them; the listing of folders, logs and
-- statistics; the welcome mail; the managers of MySQL, SFTP, mail, Git and backups; and what is
-- only input and output (Docker client, mailer, system information, configuration, migrations, the
-- web client). Paths are lexical: symbolic links are outside the model. Counters are natural
-- numbers without a bound, and a site's baselines of traffic, whose columns keep the source's
-- names, count bytes. `TerminateAccount` is modelled for a service without the MySQL and SFTP
-- managers.
pub mod Base
pub mod Go
pub mod Cron
pub mod Caddy
pub mod Models
pub mod Panel
pub mod Store
pub mod Provision
pub mod Worker
pub mod Auth
pub mod Api
pub mod Host
mod Tests
