-- ===== src/Pairing/Tokens.antt =====
-- server/src/db.rs: the statements on the table `tokens`, whose primary key is the access token.
-- The first argument tells whether the database is down.
use shellfleet.Common.{
  ℕ, Bool, false, ◌&&◌, String, Option, none, some, List, ◌∷◌, ◌==◌, nat_eq, string_eq,
  if◌then◌else◌, ltb, any, count_where,
}
use shellfleet.Common.Result.{ok, err}
use shellfleet.Common.Table.{delete_where, update_where, first_where}
use shellfleet.Accounts.{unavailable}
use shellfleet.Pairing.Rows.{TokenRow, Db, Answer, unless, with_tokens}

abbrev pub is_some_text : String → Option String → Bool
is_some_text s none = false
is_some_text s (some t) = t == s

-- The `WHERE` of `token_exists`.
abbrev pub accepts : String → ℕ → TokenRow → Bool
accepts token now r = r.token == token && r.revoked == 0 && ltb now r.expires_at

-- What goes wrong in reading is a token that does not exist.
unfoldable pub token_exists : Bool → String → ℕ → Db → Bool
token_exists down token now db = if down then false else any (accepts token now) db.tokens

abbrev pub bound_to : Option TokenRow → Option String
bound_to none = none
bound_to (some r) = r.hostname

unfoldable pub token_hostname : Bool → String → Db → Answer (Option String)
token_hostname down token db =
    unless down db (ok (bound_to (first_where (λ r. r.token == token) db.tokens)), db)

-- `DO UPDATE SET`
abbrev pub seen : String → ℕ → TokenRow → TokenRow
seen hostname now r = record {
  token = r.token;
  hostname = some hostname;
  created_at = if r.created_at == 0 then now else r.created_at;
  last_seen = now;
  expires_at = r.expires_at;
  refresh_token = r.refresh_token;
  refresh_expires_at = r.refresh_expires_at;
  revoked = r.revoked;
}

-- The columns that the statement does not name take their defaults.
abbrev pub first_seen : String → String → ℕ → TokenRow
first_seen token hostname now = record {
  token = token;
  hostname = some hostname;
  created_at = now;
  last_seen = now;
  expires_at = 0;
  refresh_token = none;
  refresh_expires_at = 0;
  revoked = 0;
}

unfoldable pub upsert_token_seen : Bool → String → String → ℕ → Db → Answer (Unit {0})
upsert_token_seen down token hostname now db = unless down db (
  ok tt,
  with_tokens
      (if any (λ r. r.token == token) db.tokens
        then update_where (λ r. r.token == token) (seen hostname now) db.tokens
        else first_seen token hostname now ∷ db.tokens)
      db,
)

abbrev pub issued_row : Option String → String → String → ℕ → ℕ → ℕ → TokenRow
issued_row hostname access refresh access_expires_at refresh_expires_at now = record {
  token = access;
  hostname = hostname;
  created_at = now;
  last_seen = 0;
  expires_at = access_expires_at;
  refresh_token = some refresh;
  refresh_expires_at = refresh_expires_at;
  revoked = 0;
}

-- The `WHERE` of the rotation.
abbrev pub refreshes : String → ℕ → TokenRow → Bool
refreshes presented now r =
    is_some_text presented r.refresh_token && r.revoked == 0 && ltb now r.refresh_expires_at

abbrev pub text_or_empty : Option String → String
text_or_empty none = ""
text_or_empty (some s) = s

-- The deletion and the insertion are one transaction: a new access token that is taken rolls the
-- deletion back.
unfoldable pub replace_token_on_refresh :
    Bool → String → String → String → ℕ → ℕ → ℕ → Db → Answer (Option String)
replace_token_on_refresh down presented access refresh access_expires_at refresh_expires_at now db =
    let left : List TokenRow = delete_where (refreshes presented now) db.tokens in
    unless down db (elim (first_where (refreshes presented now) db.tokens) [
      | none ↦ (ok none, db)
      | some old ↦ if any (λ r. r.token == access) left then (err unavailable, db) else (
        ok (some (text_or_empty old.hostname)),
        with_tokens
            (issued_row old.hostname access refresh access_expires_at refresh_expires_at now ∷ left)
            db,
      )
    ])

unfoldable pub revoke_token : Bool → String → Db → Answer Bool
revoke_token down token db = unless down db (
  ok (any (λ r. r.token == token) db.tokens),
  with_tokens (delete_where (λ r. r.token == token) db.tokens) db,
)

unfoldable pub revoke_by_hostname : Bool → String → Db → Answer ℕ
revoke_by_hostname down hostname db = unless down db (
  ok (count_where (λ r. is_some_text hostname r.hostname) db.tokens),
  with_tokens (delete_where (λ r. is_some_text hostname r.hostname) db.tokens) db,
)
