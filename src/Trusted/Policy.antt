-- ===== src/Trusted/Policy.antt =====
-- agent/src/privileged/policy.rs: the local limits of a root operation. There is one tier.
use shellfleet.Common.{
  ◌*◌, ◌≤◌, ◌≡◌, refl, ◌⊎◌, ◌↔◌, Bool, true, false, not, ◌&&◌, ◌||◌, String, List, [], ◌∷◌, arith,
  ◌==◌, nat_eq, string_eq, eq_iff, if◌then◌else◌, ltb, leb, length, any, All,
}
use shellfleet.Common.Result.{Result, ok, err}
use shellfleet.Trusted.Wire.{TrustedOperation, root_command, root_pty}
use shellfleet.Trusted.Text.{len, has_char, starts_with}

pub data Tier : Type 0 where
  two : Tier

unfoldable pub classify : TrustedOperation → Result String Tier
classify (root_command program args timeout_secs) =
    if (not (starts_with b'/' program) || has_char 0 program) || ltb 4096 (len program)
    then err "root command program must be a bounded absolute path"
    else (if ltb 256 (length args) || any (λ arg. has_char 0 arg || ltb (16 * 1024) (len arg)) args
        then err "root command arguments exceed policy limits"
        else (if not (leb 1 timeout_secs && leb timeout_secs 3600)
            then err "root command timeout is outside policy limits"
            else ok two))
classify (root_pty shell ttl_secs cols rows) =
    if not ((shell == "/bin/bash" || shell == "/bin/sh") || shell == "/usr/bin/bash")
    then err "root PTY shell is not locally allowed"
    else (if (not (leb 60 ttl_secs && leb ttl_secs 3600) || (cols == 0)) || (rows == 0)
        then err "root PTY limits are invalid"
        else ok two)

-- The limits, stated without the order of the tests.
abbrev pub IsBounded : TrustedOperation → Type 0
IsBounded (root_command program args timeout_secs) =
    (starts_with b'/' program ≡ true)
    × (has_char 0 program ≡ false)
    × (len program ≤ 4096)
    × (length args ≤ 256)
    × All (λ arg. (has_char 0 arg ≡ false) × (len arg ≤ 16 * 1024)) args
    × (1 ≤ timeout_secs)
    × (timeout_secs ≤ 3600)
IsBounded (root_pty shell ttl_secs cols rows) =
    ((shell ≡ "/bin/bash") ⊎ (shell ≡ "/bin/sh") ⊎ (shell ≡ "/usr/bin/bash"))
    × (60 ≤ ttl_secs)
    × (ttl_secs ≤ 3600)
    × (1 ≤ cols)
    × (1 ≤ rows)

abbrev bad_arg : String → Bool
bad_arg arg = has_char 0 arg || ltb (16 * 1024) (len arg)

args_iff :
    (args : List String)
    → (any bad_arg args ≡ false)
      ↔ All (λ arg. (has_char 0 arg ≡ false) × (len arg ≤ 16 * 1024)) args
args_iff [] = (λ h. tt, λ h. refl)
args_iff (a ∷ args) = (
  λ h. (ground arith, (args_iff args).0 (ground arith)),
  λ (h, rest). ground (arith, (args_iff args).1 rest),
)

-- The policy admits an operation exactly if it is within the limits: a command by a bounded
-- absolute path, with at most 256 bounded arguments without NUL and a timeout of at most an hour;
-- a terminal with one of three shells, for a minute to an hour, of a size that is not empty.
pub classify_iff : (op : TrustedOperation) → (classify op ≡ ok two) ↔ IsBounded op
unfolding classify
classify_iff (root_command program args timeout_secs) = (
  λ h. ground (arith, (args_iff args).0),
  λ (a, b, c, d, e, f, g). ground (arith, (args_iff args).1 e),
)
classify_iff (root_pty shell ttl_secs cols rows) =
    let bash = eq_iff shell "/bin/bash" in
    let sh = eq_iff shell "/bin/sh" in
    let usr = eq_iff shell "/usr/bin/bash" in (λ h. ground arith, λ (a, b, c, d, e). ground arith)
