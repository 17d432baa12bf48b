-- ===== src/Lib.antt =====
-- FinnApiGo: an authentication service in Go, with tenants, rotating refresh tokens, a second
-- factor, a shared store of counters and locks, and background jobs of which one replica runs each.
--
-- The parts and the files that model them (paths from the root of the repository):
-- - internal/store/store.go, security.go: Store.antt. The map with expiry, one function per method,
--   at the time that the method reads. Store/Spec.antt is the contract: a map in which an expired
--   entry is absent; Store/Refine.antt and Store/History.antt relate the two, and Store/Window.antt
--   is about counters and keys that are taken once.
-- - internal/jobs/leader.go: Jobs.antt (`isLeader`, `releaseLock`, `loop`), on the store.
-- - internal/middleware/semaphore.go, rate_limit.go: Middleware/Semaphore.antt and
--   Middleware/RateLimit.antt. auth.go, mfa_pending.go, sudo.go and rbac.go: Middleware/Access.antt,
--   where a handler answers `abort` or `next`. tenant.go: Middleware/Tenant.antt.
-- - internal/models: Models.antt. internal/repositories: Repositories.antt, one child per file; each
--   statement is an action on the tables of Database.antt, bound to a tenant as scope.go binds it.
-- - internal/jwt/jwt.go, v1.go: Jwt.antt, Jwt/Keys.antt (issue, verify) and Jwt/Contract.antt (the
--   checks on a v1 access token).
-- - internal/identity/state.go: Identity.antt (`Check`, `RevokeAccess`, `Suspend`).
-- - internal/crypto/crypto.go: Crypto.antt.
-- - internal/services/auth_service.go: Services.antt with Services/Support.antt (calls of the store,
--   of internal/hash and of the audit trail), Services/Tokens.antt (denylists, password version,
--   single-use tokens, `applyCredentialChange`), Services/Issue.antt (`issueTokenPair`),
--   Services/Refresh.antt (`Refresh`, `Logout`, `LogoutAll`, `RevokeSession`), Services/Login.antt
--   (`Login`, `CompleteMFALogin`, the lockout), Services/Passwords.antt, Services/Accounts.antt
--   (`Register`, `ForgotPassword`, `ResendVerifyEmail`, change of email) and Services/Closure.antt
--   (`DeactivateAccount`, `EraseAccount`, `ListSessions`).
--   totp_service.go: Services/Totp.antt (seals, guards, counters, recovery codes), with
--   Services/Totp/Enrol.antt (`Enable`, `VerifyEnable`) and Services/Totp/Validate.antt (the rest).
--   oauth_service.go: Services/Oauth.antt; passkey_service.go: Services/Passkeys.antt;
--   admin_service.go: Services/Admin.antt; trusted_device_service.go: Services/TrustedDevices.antt;
--   webhook_service.go: Services/Webhooks.antt.
--   async_audit.go: Services/AsyncAudit.antt, where callers, worker and Close are interleaved steps.
--   A long handler is cut into named parts where its code has paragraphs; the handler composes them.
--
-- How state and operations correspond: a request is an action on one World, which holds the tables,
-- the shared store, the audit rows and mails that have left, and a list of faults, which says of
-- each call of the database in turn whether it fails. A failed call changes nothing, and a
-- transaction that fails changes nothing at all. Interleavings are sequences of such steps. The
-- context's tenant is the argument `tid`; a request reads the clock once, as `now`, while each
-- call of the leader's runner has its own time. Times count nanoseconds. A goroutine that sends a
-- mail sends it at once. Int64 counters wrap around (Prelude/Int64.antt).
--
-- Parameters, with no definition here: the token bucket (golang.org/x/time/rate), signing and
-- parsing of tokens (golang-jwt), base64 and JSON decoding, bcrypt, SHA-256, AES-GCM, one-time
-- passwords (pquerna/otp), WebAuthn ceremonies, Google's exchange and token verifier, parsing of
-- URLs, name resolution and HTTP, random numbers, zxcvbn, the breach screen, the captcha, device and
-- location labels, the delivery of mail, and the canonical form of an address.
--
-- Bounds: no definition runs on fuel but the printing of a number, whose 20 digits hold every 64-bit
-- number. Row numbers, versions and counts of attempts do not wrap.
--
-- Not modelled: HTTP handlers and routes, the Redis store (its scripts run elsewhere), configuration,
-- the sending of mail, metrics output, tracing and migrations (input and output); the listing and
-- the export of the administrator, the durable outbox and the audit chain. The wrapper that admits
-- audit evidence around a handler is left out: a handler here is its body. The ASCII part of Unicode
-- case mapping is exact, and the rest is as said in Prelude/Text.antt.
pub mod Prelude
pub mod Store
pub mod Jobs
pub mod Middleware
pub mod Models
pub mod Crypto
pub mod Database
pub mod Repositories
pub mod Jwt
pub mod Identity
pub mod Services
