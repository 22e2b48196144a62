-- ===== src/Lib.antt =====
-- GophKeeper: the server, its cryptography, and the client with its terminal interface.
--
-- The server keeps the items of its users. A gRPC request passes the rate limiter and the
-- check of its token (internal/server/middleware), reaches a handler (internal/server/handler), which
-- calls a service (internal/server/service), which calls the repositories over PostgreSQL
-- (internal/server/storage/postgres). A stream of the sync service is fed by the vault service.
-- The client (internal/client) signs in, asks the server for the items through an interceptor that
-- renews its token, keeps a copy of them in a file for the time without a server, and shows them in
-- a terminal interface that is a function of its state and the next message (bubbletea).
--
-- Files and code:
-- - Base: shared types, Boolean tests, lists, results, state passing, and rules for invariants.
-- - Server.Storage, Server.World: the records of internal/server/storage/storage.go and
--   internal/shared/audit/audit.go, and the state: tables, hub, limiters, clock.
-- - Server.Postgres.Users, .Sessions, .Items, .Mfa, .Audit: the files users.go, sessions.go, vault.go,
--   mfa.go and audit.go of internal/server/storage/postgres, with the constraints of the migrations.
-- - Server.Jwt: internal/shared/jwt/jwt.go.
-- - Server.Service.Auth, .Mfa, .Vault, .Sync, .Audit: the files of internal/server/service.
-- - Server.Middleware.Metadata, .Auth, .RateLimit: internal/server/middleware.
-- - Server.Handler.Auth, .Vault, .Sync: internal/server/handler.
-- - Server.App: the chain of interceptors of internal/server/app/app.go, one request (`serve`), and a
--   sequence of requests (`run`).
-- - Server.Preserve: invariants from the storage calls up to sequences of requests; Server.Access,
--   .Isolation, .Integrity, .Trail, .Crud, .Pages, .Logins, .Wire and .Delivery: theorems.
-- - Crypto.Charset, .Generate, .Derive: internal/shared/crypto/passgen.go; Crypto.Keys: aead.go,
--   argon2.go and vault_key.go beside it; Crypto.Passphrase and .Wordlist: passphrase.go;
--   Crypto.Coverage, .Classes, .Passwords, .Returns and .Bias: theorems.
-- - Client.LocalDb: the .gkdb file of internal/client/vault/localdb.go; Client.Blocks
--   and .RoundTrip: theorems. Client.LocalCache: localcache.go beside it, and its round trip.
-- - Client.Config, Client.Grpc: the record of internal/client/config/config.go, and the interceptor of
--   internal/client/grpcclient/client.go; Client.Grpc.Retry: the theorem.
-- - Client.Tui.Auth.Model, .Calls, .Update: internal/client/tui/auth.go, and `Launcher.Update` of
--   launcher.go before the vault is open; Client.Tui.Auth.Forms, .Keys, .Refused: theorems.
-- - Client.Tui.Items, .Sorting, .Sidebar, .Model, .ItemForms, .App, .Load: internal/client/tui/app.go,
--   with `Update` in Client.Tui.App.Update and its keys in .App.ListKeys and .App.Keys;
--   Client.Tui.Json and .Requests: what its commands send; Client.Tui.Payloads: payloads.go;
--   Client.Tui.PassGen: passgen.go. The modules Items.Order, Sidebar.Shown, Sidebar.Folders,
--   PassGen.Bounds, PassGen.Preview, App.Offline, Load.Cached, Requests.Flags and Requests.SetFlag
--   below them have the theorems.
-- - Server.Tests, Crypto.Tests, Client.Tests: each theorem at a concrete input.
--
-- The correspondence: a Go method that returns `(T, error)` is an `Exec World Error T`, which takes the
-- state and gives a result and the new state, also beside an error. A handler's error is its status
-- code. A SQL statement is a function on lists of rows, in an order that means nothing; a failing
-- constraint is the error that the driver reports. UUIDs are numbers below 2 ^ 128, times are in
-- seconds, bytes are numbers. A statement that fails changes no row.
--
-- What is not in the repository is a field of the record `Env` (PostgreSQL's failures, UUIDs, INET and
-- JSONB; bcrypt; totp; golang-jwt; x/time/rate), of `Rand` (crypto/rand), of `Hkdf` (x/crypto/hkdf),
-- of `Primitives` (x/crypto, crypto/rand), of `Json` (encoding/json), of `Os` (the failures of the
-- file system), of `Conn` (grpc), of `Host` (what the sign-in calls reach), of `Opens` (the
-- errors of the vault model's `New`), of `Widgets`
-- (bubbles/textinput), of `Decoder`, `Encoder` and `CacheCodec` (encoding/json, protojson), of
-- `Files` (os, net/http), of `Totp` (pquerna/otp) or of `Machine` (clock, draws and directories at
-- one message), and the theorems name the documented behaviour that they rely on.
--
-- A Go panic of the interface (an index out of range, a failing `mustRandChar`) is the value `none`. A command that `Update`
-- returns is a value of `Cmd`; what its run sends back is a later message.
--
-- Fuel: only `derive_password` has it, since its loop may run for ever; its theorem holds for all fuel.
-- All other loops run over a list or count down.
--
-- Not modelled: TLS, listening and shutdown, logging, migrations and the connection pool; key
-- generation, which calls the standard library's cryptography; key files; the command line; of the
-- client's interface the views and styles, the export of files, and the launcher once the vault is
-- open; reading and writing of the settings by viper; generated code. Two requests run one after another; of concurrent
-- steps only those of the sync service are modelled.
pub mod Base
pub mod Client
pub mod Crypto
pub mod Server
