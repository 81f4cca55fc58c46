-- ===== src/Web/Csrf.antt =====
-- server/src/csrf.rs: the double-submit cookie.
use shellfleet.Common.{
  ◌≡◌, ◌≢◌, ◌↔◌, ◌⊎◌, ap, ◌∙◌, sym, Bool, true, false, not, ◌&&◌, String, Option, none, some, List,
  [], ◌∷◌, arith, ◌==◌, string_eq, nat_eq, eq_iff, eq_refl, if◌then◌else◌, Bool-cases, Option-cases,
  inl, inr,
}
use shellfleet.Common.Texts.{trim, split, split_once}
use shellfleet.Accounts.Session.{refusal}
use shellfleet.Web.Request.{Request, Verdict, pass, refuse, header, is_mutating}

-- The first part `name=value` of the `Cookie` header's parts with this name.
unfoldable pub cookie_in : String → List String → Option String
cookie_in name [] = none
cookie_in name (part ∷ parts) = elim (split_once b'=' (trim part)) [
  | none ↦ cookie_in name parts
  | some pair ↦ if pair.0 == name then some pair.1 else cookie_in name parts
]

abbrev parts_of : String → Option String → Option String
parts_of name none = none
parts_of name (some value) = cookie_in name (split b';' value)

unfoldable pub cookie_value : String → Request → Option String
unfolding header cookie_in
cookie_value name req = parts_of name (header "cookie" req)

unfoldable pub csrf_cookie_name : Bool → String
csrf_cookie_name secure = if secure then "__Host-csrf" else "csrf"

unfoldable pub session_cookie_name : Bool → String
session_cookie_name secure = if secure then "__Host-auth_token" else "auth_token"

-- The bytes are compared in constant time.
unfoldable pub tokens_match : String → String → Bool
tokens_match sent cookie = not (sent == "") && sent == cookie

abbrev pub both_match : Option String → Option String → Bool
both_match none cookie = false
both_match (some sent) none = false
both_match (some sent) (some cookie) = tokens_match sent cookie

abbrev pub present : Option String → Bool
present none = false
present (some s) = true

-- The verdict, and whether the answer sets a new token in the cookie. `secure` is whether cookies
-- carry the flag `Secure`.
unfoldable pub middleware : Bool → Request → Verdict × Bool
unfolding cookie_value session_cookie_name csrf_cookie_name
middleware secure req =
    if present (cookie_value (session_cookie_name secure) req)
      && is_mutating req.method
      && not (both_match (header "x-csrf" req) (cookie_value (csrf_cookie_name secure) req))
    then (refuse (refusal 403 "csrf"), true)
    else (pass, not (present (cookie_value (csrf_cookie_name secure) req)))

-- What the two tokens of a request have shown.
pub record IsEchoed (secure : Bool) (req : Request) : Type 0 where
  pub token : String
  pub sent : header "x-csrf" req ≡ some token
  pub cookie : cookie_value (csrf_cookie_name secure) req ≡ some token
  pub filled : token ≢ ""

match-IsEchoed :
    (secure : Bool) (req : Request)
    → both_match (header "x-csrf" req) (cookie_value (csrf_cookie_name secure) req) ≡ true
    → IsEchoed secure req
unfolding tokens_match
match-IsEchoed secure req h = elim (Option-cases (header "x-csrf" req)) [
  | inl unsent ↦ ground arith
  | inr (token, sent) ↦ elim (Option-cases (cookie_value (csrf_cookie_name secure) req)) [
    | inl unset ↦ ground arith
    | inr (value, set) ↦
        let same : token ≡ value = (eq_iff token value).0 (ground arith) in
        record {
          token = token;
          sent = sent;
          cookie = set ∙ ap some (sym same);
          filled = λ empty. let e = (eq_iff token "").1 empty in ground arith;
        }
  ]
]

echoed_match :
    (secure : Bool) (req : Request)
    → IsEchoed secure req
    → both_match (header "x-csrf" req) (cookie_value (csrf_cookie_name secure) req) ≡ true
unfolding tokens_match
echoed_match secure req e =
    let sent = e.sent in
    let set = e.cookie in
    let some_text : (e.token == "") ≡ false = elim (Bool-cases (e.token == "")) [
      | inl empty ↦ elim (e.filled ((eq_iff e.token "").0 empty)) [ ]
      | inr filled ↦ filled
    ] in
    let same = eq_refl e.token in ground arith

-- In a browser's session, a request that would change something is passed on exactly if its
-- `X-CSRF` header and the token's cookie are the same text and not empty; without a session cookie,
-- or if it changes nothing, it is always passed on.
pub middleware_iff :
    (secure : Bool) (req : Request)
    → ((middleware secure req).0 ≡ pass) ↔ (
        (cookie_value (session_cookie_name secure) req ≡ none)
        ⊎ ((is_mutating req.method ≡ false) ⊎ IsEchoed secure req))
unfolding middleware
middleware_iff secure req = (
  λ h. elim (Option-cases (cookie_value (session_cookie_name secure) req)) [
    | inl away ↦ inl away
    | inr (value, there) ↦ elim (Bool-cases (is_mutating req.method)) [
      | inr reads ↦ inr (inl reads)
      | inl writes ↦ inr (inr (match-IsEchoed secure req (ground arith)))
    ]
  ],
  λ shown. elim shown [
    | inl away ↦ ground arith
    | inr (inl reads) ↦ ground arith
    | inr (inr echoed) ↦ let m = echoed_match secure req echoed in ground arith
  ],
)
