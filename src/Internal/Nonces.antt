-- ===== src/Internal/Nonces.antt =====
-- server/src/internal_auth.rs: the table of the nonces that have been used.
use shellfleet.Common.{
  ℕ, ◌+◌, Bool, ◌&&◌, String, List, ◌∷◌, ◌==◌, string_eq, ltb, any, if◌then◌else◌,
}
use shellfleet.Common.Result.{Result, ok, err}
use shellfleet.Common.Table.{delete_where}
use shellfleet.Internal.Canonical.{Direction, label}

abbrev pub nonce_ttl_secs : ℕ
nonce_ttl_secs = 300

pub record NonceRow : Type 0 where
  pub direction : String
  pub key_id : String
  pub nonce : String
  pub expires_at : ℕ

pub data NonceError : Type 0 where
  database replay : NonceError

-- The primary key.
abbrev pub is_row : Direction → String → String → NonceRow → Bool
is_row direction key_id nonce r =
    r.direction == label direction && r.key_id == key_id && r.nonce == nonce

-- One transaction; `down` tells whether it fails. Rows whose time is over go first, and a row that
-- is there already is left as it is.
unfoldable pub consume_nonce :
    Bool
    → Direction
    → String
    → String
    → ℕ
    → List NonceRow
    → Result NonceError (Unit {0}) × List NonceRow
consume_nonce down direction key_id nonce now rows =
    let left : List NonceRow = delete_where (λ r. ltb r.expires_at now) rows in
    if down
    then (err database, rows)
    else (if any (is_row direction key_id nonce) left then (err replay, left) else (
      ok tt,
      record {
        direction = label direction;
        key_id = key_id;
        nonce = nonce;
        expires_at = now + nonce_ttl_secs;
      }
          ∷ left,
    ))
