-- ===== src/Lib.antt =====
-- Shellfleet: a server that passes messages between dashboards and the agents on many hosts,
-- with an owner for each interactive operation, roles, an optional sidecar for access rules and
-- approvals, logins with a second factor, pairing of agents and command lines by a short code,
-- API keys with policies, and on each host a gate that runs privileged operations only after a
-- signed approval.
--
-- Protocol    shared/src/lib.rs and shared/src/security.rs. `Message` and `UiMessage` have the
--             source's variants with their fields; `ui_request_security` is the contract of
--             every message that a dashboard may send, by exhaustive clauses like the source's
--             match.
-- Routing     server/src/operation_routing.rs. `OperationOwners` and its methods, `ui_operation`
--             and `agent_operation`. Ownership relates the map to a function from operations to
--             owners.
-- Accounts    server/src/auth.rs, mfa.rs, users.rs and the tables of users, invites and audit of
--             db.rs. Session: tokens and the three ways to read one. Users: the statements on
--             the tables. Admin: the handlers that change a role and remove a user. Login: the
--             callback from GitHub's answer on. Totp, Mfa and Enrollment: `verify_totp` and the
--             handlers of the second factor. SessionKinds is about Session, LastAdmin about
--             Admin, Seats about Login, SecondFactor about Totp, Recovery about Mfa, Replacement
--             about Enrollment.
-- Pairing     server/src/device_auth.rs, cli_auth.rs, tokens.rs and the tables of tokens and
--             pending devices of db.rs. Tokens and Pending: the statements. Device, Cli and
--             Revoke: the handlers. Calls: a server that serves any of them one after another.
--             Budget and TokenCounts count what Calls hands out; Rotation and Revocation are
--             about Device and Revoke; Waiting, Bystanders, Holding and Completes about a
--             pairing while other calls are served.
-- Hub         server/src/main.rs. Access: `agent_allowed_by_access`, `merge_exact_agent_access`,
--             `ui_agent_access` and the three questions to the sidecar. Gates and Dispatch:
--             `process_ui_messages`, one function for each gate in the order of the code, the
--             loop and the cleanup after it. Relay: the part of `handle_agent_socket` that
--             passes an agent's message on. Http: `register_ui_client`,
--             `authenticate_http_ui_client`, the handlers that send and disconnect, and the idle
--             reaper. The other files are about these: Authority about Gates; Rights about the
--             ownership test; Delivery, Lifetime, Recording and Sessions about Dispatch;
--             Isolation about Relay; FailClosed about Access; HttpAuth and HttpBounds about
--             Http.
-- Throttle    server/src/throttle.rs. Lockout is `Throttle`, Bucket is `IpBucketLimiter`.
-- Trusted     shared/src/trusted.rs and agent/src/privileged. Policy is policy.rs, Framing is
--             framing.rs, Approval is approval.rs, Transport is crypto.rs.
-- Web         server/src/rbac.rs (Rbac), csrf.rs (Csrf), api_auth.rs (ApiKeys), and the client's
--             address of throttle.rs with anon_limiter.rs and ip_allowlist.rs (Client). The
--             table of API keys has the columns that the middleware names. RbacRules, Policies
--             and Flood are about Rbac, ApiKeys (with KeyHeaders) and Client.
-- Internal    shared/src/internal_auth.rs and server/src/internal_auth.rs. Canonical: the signed
--             bytes. Signed: signing and verifying. Nonces: the table of used nonces. Gate:
--             `require_ee_signature`. Tampering is about Canonical and Signed, Replay about
--             Gate.
-- Common      association lists for hash maps, tables of rows, results, Boolean tests, lists,
--             texts.
--
-- How they interact: an HTTP request passes the middlewares of Web, which read the session by
-- Accounts; an agent gets its token by Pairing, whose approval Throttle guards against guesses.
-- A dashboard's message goes through the gates of Hub, which ask Protocol for its class and
-- Accounts for the user; Routing says which operation it concerns and who owns it; it is then
-- sent to the agent. An agent's message is relayed to the operation's owner or to the dashboards
-- that may see the agent. A trusted operation passes through as opaque frames, which Trusted
-- treats at the host's end.
--
-- State is passed explicitly: a handler takes the shared state and returns it with what it
-- emits, in order. What other tasks do to the state between two messages of a dashboard is an
-- arbitrary function; within one message the locks that the code takes one after another are one
-- step, and an HTTP handler is one step too. A table is a list of rows; a statement takes
-- whether it fails, so a handler takes `down`, which says it of its n-th statement. What is
-- drawn at random, the environment's variables and the sidecar's answers are arguments, as are
-- the answers of the database where the code only reads, asked for anew at each place. Texts
-- that the code only compares or shows are native strings; where it takes one apart,
-- Common/Texts does so by its characters. Clocks are natural numbers: seconds, or for the token
-- bucket ticks of any fineness, in which tokens are exact where the code rounds to 64-bit
-- floating point. Counters of 32 and 64 bits saturate or run out as in the code; client ids,
-- which the code counts with 64 bits, are unbounded. Every function is by structural recursion,
-- so there is no fuel. Signatures, ciphers, hashes, the encoding of tokens, JSON, the parsing of
-- addresses and the keyring are parameters; a theorem that needs a law of theirs has it as a
-- hypothesis.
--
-- Not modelled: the registration of agents, the handlers of invites and passkeys, the redirect
-- to GitHub and logout, lists and statistics, schedulers, storage beyond the tables named above,
-- the agent's own commands and the command line client, which are further parts of the program;
-- sockets, processes, TLS and logging, which are I/O; and the dashboard in web, which is another
-- language.
pub mod Common
pub mod Protocol
pub mod Routing
pub mod Accounts
pub mod Pairing
pub mod Hub
pub mod Throttle
pub mod Trusted
pub mod Web
pub mod Internal
