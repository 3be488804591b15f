-- ===== src/Lib.antt =====
-- GPUardian: the core of the GPU reservation daemon, and of the gateway in front of it.
--
-- The daemon of one GPU node keeps tokens, reservations, authorizations, claims, leases and bypass
-- rules in one state file. Its HTTP server calls the store (internal/store/store.go); the enforcer
-- reads the store's state to decide which process may use a GPU; the gateway replaces the tokens by
-- a snapshot of its user keys. The store is the part that all others rely on.
--
-- Which file models which part:
-- - Model: internal/model/model.go, the persisted records, ReservationStartsAt,
--   ReservationActiveAt and ReservationOverlaps. A time is a number of nanoseconds, 0 is the zero
--   time. An int that may be negative is an integer, a count is a native number.
-- - Store/Errors, Store/Bounds: the errors and the limits (validateStateBounds and its helpers).
-- - Store/Persist: New, loadLocked, saveLocked, cloneState, writeFileAtomically, and the critical
--   section that every exported method has (`transact`): lock, load, a body, save, unlock. A body is
--   a pure function of the state that fails, returns without a write, or returns the state to write.
-- - Store/RootKey: readRootKeyFile, ReadOrCreateRootKey, ValidateRootKey.
-- - Store/Validity: when a token or an authorization is live, and the two admission limits.
-- - Store/Tokens: ParseTTL, newToken, RegisterSoftToken, RegisterToken, ValidateToken,
--   ManagedTokenByID, ManagedKeysEnabled.
-- - Store/Reserve: the Register…Reservations methods and sameReservationRequest.
-- - Store/Rows: the methods that add, update or release single rows, and ReleaseScopes.
-- - Store/Revoke, Store/Prune, Store/Sync: Revoke, the three prune methods, SyncManagedUserKeys.
-- - Store/Views: EnforcementSnapshot and EnforcementSnapshotForToken.
-- - Store/History: one of these calls with its error, if it returns one (`call`), and an arbitrary
--   sequence of them, each with the failures it meets.
-- - Enforce/Scope: the tests of a process against a scope (authorizationScopeMatchesForEviction,
--   bareCgroupMatches, sameContainer, wildcardMatch) and against the bypass rules (BypassMatch).
-- - Enforce/Entitlement: internal/enforce/enforce.go, authorizationEvictionState, leaseEvictionState,
--   authorizationGloballyValid and staleEvictionPossible.
-- - Enforce/Kills: the decisions of a pass, kill and killOnce. A planned termination is a value; its
--   execution is not modelled.
-- - Enforce/Decide, Enforce/Soft, Enforce/Run: enforceHard, enforceLegacyLeases, enforceSoft and
--   the whole pass (enforce). The order in which a map of GPUs is walked is an argument.
-- - Enforce/Evict: evictExpiredReservedProcesses.
-- - Web/PrivateFile: internal/web/users.go, readPrivateFile and writePrivateFile, and the copy that a
--   store of the gateway keeps of its file.
-- - Web/NodeLayout: internal/web/node_layout.go, NodeLayoutStore and normalizeNodeLayout.
-- - Web/Attempts: internal/web/session.go, the table of attempts to log in, to register and to change a
--   password (reserveLoginAttempt, reserveSingleAttempt, reserveRegistrationAttempt,
--   ensureAttemptCapacityLocked, releaseLoginReservation).
-- - Web/Requests: internal/web/session.go, acquireAuthenticatedRequest, as steps of a gate.
-- - Web/Passwords: internal/web/users.go, validatePassword, pbkdf2SHA256, the hashes and their check.
-- - Web/Users: internal/web/users.go, loadLocked, saveLocked, normalizeUsername, and the critical
--   section that the methods of UserStore share (`with_users`); Web/Users/Accounts: BootstrapAdmin,
--   Create, Delete, ChangePassword and authenticate, the last two in two sections with other calls
--   between them; Web/Users/Scopes and Web/Users/Tokens: internal/web/access_tokens.go;
--   Web/Users/Keys: internal/web/user_keys.go; Web/Users/History: an arbitrary sequence of calls.
-- - Telemetry: internal/telemetry/telemetry.go, the outbox with its segments and pruneLocked;
--   Telemetry/Append: AppendBatch and rotateLocked; Telemetry/Page: Page and its cursors.
-- - Netlimit: internal/netlimit/listener.go, the calls of Accept and Close as steps.
-- - Witness: concrete states and calls on which the theorems are applied.
-- Under each of them are the modules with the proofs, named for what they prove.
--
-- What the code does not define is a parameter: `Platform` holds encoding/json, SHA-256,
-- time.ParseDuration; `Io` holds one call's outcomes of the operating system (a
-- read, a mkdir, a write, the sync of the directory), its clock and the random strings it draws.
-- `Reader`, `Resolver` and `Surroundings` hold what /proc, the container runtime, the user database and
-- the context of a pass answer. The `Io` of Web/PrivateFile and that of Telemetry/Append do the same
-- for the gateway's files and for the outbox's segments, and a `Codec` is encoding/json there, in
-- base64 for the cursors.
-- `Crypto` and `Aead` hold HMAC, SHA-256, AES-GCM and the encodings around them, `Backend` all that the
-- methods of UserStore use.
-- A mutex makes each method one step, so a history is a list of calls. Every loop of the code runs
-- over a list or down from a number; only the reader of all pages has fuel, one more than there are
-- events to read.
--
-- Not modelled: the audit log and its events, the signals and what happens to a planned
-- termination, the system calls inside the file helpers, the read-only views of the status page, and
-- the packages around them (the daemon's HTTP server, device tools, history database, web
-- interface, command line). Of the gateway: HTTP handlers, session cookies, the node registry and
-- the channels that bound the hashing of passwords. Of the outbox: loading its segments when the
-- daemon starts, and the channel that wakes a waiting reader.
mod Base
pub mod Model
pub mod Store
pub mod Enforce
pub mod Web
pub mod Telemetry
pub mod Netlimit
mod Witness
