-- ===== src/Pairing/Revoke.antt =====
-- server/src/tokens.rs: a signed-in user revokes an agent's tokens, by the token or by the host
-- that it has registered as.
use Prim.Native.String.{count, ◌++◌ as append}
use shellfleet.Common.{
  ℕ, zero, suc, ◌-◌, leb, if◌then◌else◌, Bool, true, false, ltb, String, Option, none, some,
}
use shellfleet.Common.Result.{ok, err}
use shellfleet.Pairing.Rows.{Db, Answer, record_audit}
use shellfleet.Pairing.Tokens.{revoke_token as delete_token, revoke_by_hostname}
use shellfleet.Pairing.Handlers.{PairingState, with_db, Reply, reply}

-- The first characters of a text, and what is after them.
unfoldable pub first_chars : ℕ → String → String
first_chars zero s = ""
first_chars (suc n) String.[] = ""
first_chars (suc n) (String.◌∷◌ c s) = String.◌∷◌ c (first_chars n s)

unfoldable pub skip_chars : ℕ → String → String
skip_chars zero s = s
skip_chars (suc n) String.[] = ""
skip_chars (suc n) (String.◌∷◌ c s) = skip_chars n s

-- `"*".repeat(n)`
unfoldable pub stars : ℕ → String
stars zero = ""
stars (suc n) = append "*" (stars n)

-- The last four characters are taken from the reversed text in the source.
unfoldable pub preview : String → String
unfolding first_chars skip_chars stars
preview token =
    if leb (count token) 12
    then stars (count token)
    else append (first_chars 4 token) (append "…" (skip_chars (count token - 4) token))

unfoldable pub detail : Option String → Option String → String
unfolding preview
detail (some t) h = append "token=" (preview t)
detail none (some h) = append "hostname=" h
detail none none = ""

abbrev any_of : Answer ℕ → Answer Bool
any_of (err e, db) = (err e, db)
any_of (ok n, db) = (ok (ltb 0 n), db)

-- The rows are deleted by the token where it is given, else by the host.
unfoldable pub removed_any : Bool → Option String → Option String → Db → Answer Bool
removed_any down (some t) h db = delete_token down t db
removed_any down none (some h) db = any_of (revoke_by_hostname down h db)
removed_any down none none db = (ok false, db)

unfoldable pub answered :
    (ℕ → Bool) → String → Option String → Option String → ℕ → Answer Bool → Reply × Db
unfolding detail
answered down actor t h now (err e, db) = (reply 500 "db error", db)
answered down actor t h now (ok false, db) = (reply 404 "No matching token", db)
answered down actor t h now (ok true, db) = (
  reply 200 "Revoked",
  record_audit (down 1) now (some actor) h "token.revoke" true (some (detail t h)) db,
)

unfoldable pub requested : (ℕ → Bool) → String → Option String → Option String → ℕ → Db → Reply × Db
unfolding answered removed_any
requested down actor none none now db = (reply 400 "Provide either token or hostname", db)
requested down actor (some t) h now db =
    answered down actor (some t) h now (removed_any (down 0) (some t) h db)
requested down actor none (some h) now db =
    answered down actor none (some h) now (removed_any (down 0) none (some h) db)

-- The user is that of `require_auth`.
unfoldable pub revoke_token :
    (ℕ → Bool)
    → Option String
    → Option String
    → Option String
    → ℕ
    → PairingState
    → Reply × PairingState
unfolding requested
revoke_token down none t h now state = (reply 401 "Unauthorized", state)
revoke_token down (some actor) t h now state =
    let (answer, db) = requested down actor t h now state.db in (answer, with_db db state)
