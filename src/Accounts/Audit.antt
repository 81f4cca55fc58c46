-- ===== src/Accounts/Audit.antt =====
-- server/src/db.rs: the table `audit`, less the number that SQLite gives a row.
use shellfleet.Common.{ℕ, Bool, String, Option, List, ◌∷◌, if◌then◌else◌}

pub record AuditRow : Type 0 where
  pub ts : ℕ
  pub actor : Option String
  pub agent_id : Option String
  pub kind : String
  pub succeeded : Bool
  pub detail : Option String

-- What goes wrong in writing an audit row is ignored.
unfoldable pub logged :
    Bool
    → ℕ
    → Option String
    → Option String
    → String
    → Bool
    → Option String
    → List AuditRow
    → List AuditRow
logged down ts actor agent_id kind succeeded detail rows =
    if down
    then rows
    else record {
      ts = ts;
      actor = actor;
      agent_id = agent_id;
      kind = kind;
      succeeded = succeeded;
      detail = detail;
    }
      ∷ rows
