-- ===== src/Web.antt =====
-- server/src/rbac.rs, csrf.rs, api_auth.rs, ip_allowlist.rs, anon_limiter.rs and throttle.rs: what
-- a request passes before its handler.
mod Request
mod Rbac
mod RbacRules
mod Csrf
mod ApiKeys
mod KeyHeaders
mod Policies
mod Client
mod Flood
mod Tests
