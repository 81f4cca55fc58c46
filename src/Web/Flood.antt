-- ===== src/Web/Flood.antt =====
-- server/src/anon_limiter.rs with throttle.rs: how many requests come through from one address that
-- is no proxy's, whatever headers they carry.
use shellfleet.Common.{
  bit, ℕ, ◌+◌, ◌-◌, ◌*◌, ◌≤◌, ◌≡◌, refl, ap, ◌∙◌, Bool, true, false, not, ◌&&◌, String, Option,
  some, List, [], ◌∷◌, arith, ◌==◌, string_eq, nat_eq, if◌then◌else◌, otherwise, All,
}
use shellfleet.Common.Dict.{IsDict}
use shellfleet.Throttle.Bucket.{IpBucketLimiter, allow}
use shellfleet.Throttle.Rate.{allowed, allowed_bounded, IsOrdered, finish}
use shellfleet.Accounts.Session.{AuthEnv, refusal, dev_mode}
use shellfleet.Web.Request.{Request, Verdict, pass, refuse}
use shellfleet.Web.Client.{
  Net, is_limited_path, real_client_ip, peer_is_trusted_proxy, anon_middleware,
}

module _ (net : Net) (per_sec : ℕ) (env : AuthEnv) (raw : Option String) where
  -- A request, the peer that it comes from, and its time.
  abbrev pub Visit : Type 0
  Visit = Request × net.Ip × ℕ

  abbrev passes : Verdict → Bool
  passes pass = true
  passes (refuse answer) = false

  -- The visit comes straight from an address with this text, which is no proxy's.
  abbrev pub is_from : String → net.Ip → Bool
  is_from watched ip = not (peer_is_trusted_proxy net raw ip) && net.text ip == watched

  -- How many of them come through.
  unfoldable pub come_through : String → IpBucketLimiter → List Visit → ℕ
  come_through watched limiter [] = 0
  come_through watched limiter ((req, ip, now) ∷ visits) =
      let (verdict, after) = anon_middleware net per_sec env raw req ip now limiter in
      bit (passes verdict && is_from watched ip) + come_through watched after visits

  -- The addresses that the visits are counted for.
  abbrev pub log : List Visit → List (String × ℕ)
  log [] = []
  log ((req, ip, now) ∷ visits) = (real_client_ip net raw req (some ip), now) ∷ log visits

  both : (t s : Bool) → (not t && s) ≡ true → (t ≡ false) × (s ≡ true)
  both t s h = ground arith

  counted :
      (watched : String) (req : Request) (ip : net.Ip)
      → is_from watched ip ≡ true
      → (real_client_ip net raw req (some ip) == watched) ≡ true
  unfolding real_client_ip
  counted watched req ip h =
      let (direct, same) = both (peer_is_trusted_proxy net raw ip) (net.text ip == watched) h in
      ap (λ s. s == watched) (otherwise _ _ direct) ∙ same

  not_limited : (t : Bool) → t ≡ true → not t ≡ false
  not_limited t h = ground arith

  passes_if : (t : Bool) → passes (if t then pass else refuse (refusal 429 "rate limited")) ≡ t
  passes_if true = refl
  passes_if false = refl

  limited_visit :
      dev_mode env ≡ false
      → (req : Request) (ip : net.Ip) (now : ℕ) (limiter : IpBucketLimiter)
      → is_limited_path net req.path ≡ true
      → let asked = allow per_sec limiter (real_client_ip net raw req (some ip)) now in
        (passes (anon_middleware net per_sec env raw req ip now limiter).0 ≡ asked.1)
        × ((anon_middleware net per_sec env raw req ip now limiter).1 ≡ asked.0)
  unfolding anon_middleware
  limited_visit live req ip now limiter limited =
      let ip_text : String = real_client_ip net raw req (some ip) in
      let answer : Verdict × IpBucketLimiter = (
        if (allow per_sec limiter ip_text now).1 then pass else refuse (refusal 429 "rate limited"),
        (allow per_sec limiter ip_text now).0,
      ) in
      let whole : anon_middleware net per_sec env raw req ip now limiter ≡ answer =
        otherwise _ _ live ∙ otherwise _ _ (not_limited (is_limited_path net req.path) limited) in
      (
        ap (λ done. passes done.0) whole ∙ passes_if (allow per_sec limiter ip_text now).1,
        ap (λ done. done.1) whole,
      )

  no_more :
      (passed through from key : Bool)
      → through ≡ passed
      → (from ≡ true → key ≡ true)
      → bit (through && from) ≤ (if passed && key then 1 else 0)
  no_more passed through from key same counts = ground arith

  through_allowed :
      dev_mode env ≡ false
      → (watched : String) (limiter : IpBucketLimiter) (visits : List Visit)
      → All (λ v. is_limited_path net v.0.path ≡ true) visits
      → come_through watched limiter visits ≤ allowed per_sec watched limiter (log visits)
  unfolding come_through allowed
  through_allowed live watched limiter [] limited = omega arith
  through_allowed live watched limiter ((req, ip, now) ∷ visits) (here, limited) =
      let ip_text : String = real_client_ip net raw req (some ip) in
      let (passed, after) = limited_visit live req ip now limiter here in
      let rest =
        through_allowed live watched (allow per_sec limiter ip_text now).0 visits limited in
      let same = ap (λ l. come_through watched l visits) after in
      let mine =
        no_more (allow per_sec limiter ip_text now).1 _ (is_from watched ip) (ip_text == watched)
          passed (counted watched req ip) in
      omega arith

  -- Outside of development, of requests to the limited paths at times that do not go back, those
  -- that come straight from one address that is no trusted proxy's, whatever they claim in their
  -- headers, come through at most thirty times and once for every two seconds that pass.
  pub flood_bounded :
      dev_mode env ≡ false
      → (watched : String) (limiter : IpBucketLimiter) (start : ℕ) (visits : List Visit)
      → IsDict limiter.buckets
      → IsOrdered per_sec start (log visits)
      → All (λ v. is_limited_path net v.0.path ≡ true) visits
      → come_through watched limiter visits * (2 * per_sec)
        ≤ 30 * (2 * per_sec) + (finish per_sec start (log visits) - start)
  flood_bounded live watched limiter start visits valid ordered limited =
      let few = through_allowed live watched limiter visits limited in
      let bound = allowed_bounded per_sec watched limiter start (log visits) valid ordered in
      grind arith
