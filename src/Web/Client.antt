-- ===== src/Web/Client.antt =====
-- server/src/throttle.rs, `real_client_ip`; anon_limiter.rs and ip_allowlist.rs: which address a
-- request is counted for, and the two middlewares that ask for it. Addresses and networks are those
-- of `std::net` and the crate `ipnet`, an argument.
use shellfleet.Common.{
  ℕ, Bool, true, false, not, ◌||◌, String, Option, none, some, List, [], ◌∷◌, ◌==◌, string_eq,
  nat_eq, if◌then◌else◌, any, all,
}
use shellfleet.Common.Texts.{begins_with, trim, split}
use shellfleet.Throttle.Bucket.{IpBucketLimiter, allow}
use shellfleet.Accounts.Session.{AuthEnv, refusal, dev_mode}
use shellfleet.Web.Request.{Request, Verdict, pass, refuse, header}

pub record Net : Type 1 where
  pub Ip : Type 0
  pub IpNet : Type 0
  pub parse_ip : String → Option Ip
  pub parse_net : String → Option IpNet
  pub same_ip : Ip → Ip → Bool
  pub contains : IpNet → Ip → Bool
  pub text : Ip → String

-- The published ranges of Cloudflare.
abbrev pub cloudflare_cidrs : List String
cloudflare_cidrs =
    "173.245.48.0/20" ∷ "103.21.244.0/22" ∷ "103.22.200.0/22" ∷ "103.31.4.0/22" ∷ "141.101.64.0/18"
    ∷ "108.162.192.0/18" ∷ "190.93.240.0/20" ∷ "188.114.96.0/20" ∷ "197.234.240.0/22"
    ∷ "198.41.128.0/17" ∷ "162.158.0.0/15" ∷ "104.16.0.0/13" ∷ "104.24.0.0/14" ∷ "172.64.0.0/13"
    ∷ "131.0.72.0/22" ∷ "2400:cb00::/32" ∷ "2606:4700::/32" ∷ "2803:f800::/32" ∷ "2405:b500::/32"
    ∷ "2405:8100::/32" ∷ "2a06:98c0::/29" ∷ "2c0f:f248::/32" ∷ []

-- The entries of the list that are not empty once trimmed.
abbrev entries : List String → List String
entries [] = []
entries (part ∷ parts) =
    let rest : List String = entries parts in
    let t : String = trim part in if t == "" then rest else t ∷ rest

-- The texts of `TRUSTED_PROXY_CIDRS`, or the published ranges where it is not set.
unfoldable pub proxy_source : Option String → List String
proxy_source none = cloudflare_cidrs
proxy_source (some raw) = if raw == "" then [] else entries (split b',' raw)

module _ (net : Net) where
  abbrev holds : Option net.IpNet → net.Ip → Bool
  holds none ip = false
  holds (some n) ip = net.contains n ip

  -- A text that is no network is left out.
  unfoldable pub trusted_by : List String → net.Ip → Bool
  trusted_by cidrs ip = any (λ cidr. holds (net.parse_net cidr) ip) cidrs

  unfoldable pub peer_is_trusted_proxy : Option String → net.Ip → Bool
  unfolding proxy_source trusted_by
  peer_is_trusted_proxy raw ip = trusted_by (proxy_source raw) ip

  abbrev is_address : String → Bool
  is_address s = elim (net.parse_ip s) [ none ↦ false | some ip ↦ true ]

  -- The text, if it is an address.
  abbrev address : Option String → Option String
  address none = none
  address (some s) = if is_address s then some s else none

  abbrev first_hop : List String → Option String
  first_hop [] = none
  first_hop (part ∷ parts) = if is_address (trim part) then some (trim part) else first_hop parts

  abbrev hop_of : Option String → Option String
  hop_of none = none
  hop_of (some value) = first_hop (split b',' value)

  abbrev or_else : Option String → Option String → Option String
  or_else none second = second
  or_else (some s) second = some s

  -- What the headers that a proxy sets say.
  unfoldable pub forwarded : Request → Option String
  unfolding header
  forwarded req =
      or_else (address (header "cf-connecting-ip" req))
        (or_else (address (header "x-real-ip" req)) (hop_of (header "x-forwarded-for" req)))

  abbrev or_peer : Option String → net.Ip → String
  or_peer none ip = net.text ip
  or_peer (some s) ip = s

  unfoldable pub real_client_ip : Option String → Request → Option net.Ip → String
  unfolding forwarded peer_is_trusted_proxy
  real_client_ip raw req none = "unknown"
  real_client_ip raw req (some ip) =
      if peer_is_trusted_proxy raw ip then or_peer (forwarded req) ip else net.text ip

  -- anon_limiter.rs
  unfoldable pub is_limited_path : String → Bool
  is_limited_path path =
      begins_with "/auth/" path
      || path == "/api/me"
      || begins_with "/api/auth/mfa/" path
      || path == "/api/device/request"
      || path == "/api/device/approve"
      || path == "/api/cli-auth/request"
      || begins_with "/api/v1/" path

  -- The time is in ticks, `per_sec` to the second.
  unfoldable pub anon_middleware :
      ℕ
      → AuthEnv
      → Option String
      → Request
      → net.Ip
      → ℕ
      → IpBucketLimiter
      → Verdict × IpBucketLimiter
  unfolding is_limited_path real_client_ip
  anon_middleware per_sec env raw req peer now limiter =
      if dev_mode env
      then (pass, limiter)
      else (if not (is_limited_path req.path) then (pass, limiter) else (
        if (allow per_sec limiter (real_client_ip raw req (some peer)) now).1
            then pass
            else refuse (refusal 429 "rate limited"),
        (allow per_sec limiter (real_client_ip raw req (some peer)) now).0,
      ))

  -- ip_allowlist.rs
  unfoldable pub cidr_contains : String → net.Ip → Bool
  cidr_contains cidr ip = elim (net.parse_net cidr) [
    | some n ↦ net.contains n ip
    | none ↦ elim (net.parse_ip cidr) [ some single ↦ net.same_ip single ip | none ↦ false ]
  ]

  abbrev pub enabled : List (String × Bool) → List String
  enabled [] = []
  enabled ((cidr, on) ∷ entries) = if on then cidr ∷ enabled entries else enabled entries

  abbrev allowed_by : List String → String → Bool
  allowed_by [] ip = true
  allowed_by (cidr ∷ cidrs) ip = elim (net.parse_ip ip) [
    | none ↦ false
    | some parsed ↦ any (λ c. cidr_contains c parsed) (cidr ∷ cidrs)
  ]

  unfoldable pub ip_allowed : List (String × Bool) → String → Bool
  unfolding cidr_contains
  ip_allowed entries ip = allowed_by (enabled entries) ip

  unfoldable pub is_exempt : String → Bool
  is_exempt path =
      path == "/healthz"
      || path == "/agent/ws"
      || begins_with "/internal" path
      || begins_with "/api/device" path
      || begins_with "/api/v1" path

  unfoldable pub allowlist_middleware :
      Bool → Option String → List (String × Bool) → Request → Option net.Ip → Verdict
  unfolding ip_allowed is_exempt real_client_ip
  allowlist_middleware ee_active raw entries req peer =
      if not ee_active || is_exempt req.path
      then pass
      else (if all (λ entry. not entry.1) entries
          then pass
          else (if ip_allowed entries (real_client_ip raw req peer)
              then pass
              else refuse (refusal 403 "ip not allowed")))
