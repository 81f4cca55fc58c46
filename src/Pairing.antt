-- ===== src/Pairing.antt =====
-- server/src/db.rs, device_auth.rs, cli_auth.rs and tokens.rs: how an agent or a command line is
-- paired with the server, and the tokens that come of it.
mod Rows
mod Tokens
mod Pending
mod Handlers
mod Device
mod Cli
mod Revoke
mod Calls
mod Counts
mod Polls
mod Approvals
mod Untouched
mod Unique
mod Budget
mod TokenCounts
mod TokensKept
mod Rotation
mod Revocation
mod Waiting
mod Bystanders
mod Holding
mod Completes
mod Tests
