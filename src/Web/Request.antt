-- ===== src/Web/Request.antt =====
-- A request as the middlewares see it: the crates `http` and `axum` have parsed it.
use shellfleet.Common.{Bool, true, false, String, Option, none, some, List, string_eq}
use shellfleet.Common.Dict.{lookup}
use shellfleet.Accounts.Session.{Refusal}

pub data Method : Type 0 where
  get head options post put delete patch : Method

-- The header values that are no visible ASCII are `none`: `to_str` fails on them. Names are in
-- lower case, and the first of several values counts.
pub record Request : Type 0 where
  pub method : Method
  pub path : String
  pub headers : List (String × Option String)

pub data Verdict : Type 0 where
  pass : Verdict
  refuse : (answer : Refusal) → Verdict

abbrev and_then : Option (Option String) → Option String
and_then none = none
and_then (some value) = value

-- `headers().get(name).and_then(|v| v.to_str().ok())`
unfoldable pub header : String → Request → Option String
header name req = and_then (lookup name req.headers)

abbrev pub is_mutating : Method → Bool
is_mutating get = false
is_mutating head = false
is_mutating options = false
is_mutating post = true
is_mutating put = true
is_mutating delete = true
is_mutating patch = true

abbrev pub is_get : Method → Bool
is_get get = true
is_get head = false
is_get options = false
is_get post = false
is_get put = false
is_get delete = false
is_get patch = false

abbrev pub map_some : (String → String) → Option String → Option String
map_some f none = none
map_some f (some s) = some (f s)

abbrev pub bind_some : Option String → (String → Option String) → Option String
bind_some none f = none
bind_some (some s) f = f s

abbrev pub with_headers : List (String × Option String) → Request → Request
with_headers headers req = record { method = req.method; path = req.path; headers = headers }
