-- ===== src/Internal/Replay.antt =====
-- server/src/internal_auth.rs: a signed request that is sent again.
use shellfleet.Common.{
  ℕ, ◌+◌, ◌-◌, ◌≤◌, ◌≡◌, ◌≢◌, refl, subst, ap, ◌∙◌, Bool, true, false, ◌&&◌, ◌||◌, String, Option,
  none, some, List, [], ◌∷◌, arith, ◌==◌, string_eq, nat_eq, eq_iff, eq_refl, ltb, leb, any, bit,
  Bool-cases, ◌⊎◌, inl, inr, suc,
}
use shellfleet.Common.Int.{ℤ, pos, negsuc}
use shellfleet.Common.Result.{ok, Result-cases}
use shellfleet.Common.Table.{delete_where, any_kept, any_weaker}
use shellfleet.Internal.Canonical.{ee_to_ce, label}
use shellfleet.Internal.Signed.{SignedRequest, abs_diff, verify_request}
use shellfleet.Internal.Nonces.{NonceRow, is_row, consume_nonce}
use shellfleet.Internal.Gate.{
  Config, EeRequest, Response, Server, read_signed, vetted, require_ee_signature,
}

-- The last second at which a timestamp is near enough.
abbrev pub latest : ℤ → ℕ
latest (pos t) = t + 120
latest (negsuc t) = 120 - suc t

latest_lem :
    (now : ℕ) (t : ℤ) → leb (abs_diff now t) 120 ≡ true → (now ≤ latest t) × (latest t ≤ now + 240)
latest_lem now (pos t) h = ground arith
latest_lem now (negsuc t) h = ground arith

-- Whether the nonce cannot be used until a minute after the last second: its row stays that long,
-- or the clock is past it.
abbrev lasting : String → String → ℕ → NonceRow → Bool
lasting key_id nonce last r = is_row ee_to_ce key_id nonce r && leb (last + 60) r.expires_at

abbrev spent : String → String → ℕ → ℕ → List NonceRow → Bool
spent key_id nonce last clock rows = any (lasting key_id nonce last) rows || ltb (last + 60) clock

module _ (key_id nonce : String) (last : ℕ) where
  -- The row of a spent nonce outlasts a purge within the minute.
  row_left :
      (clock now : ℕ) (rows : List NonceRow)
      → spent key_id nonce last clock rows ≡ true
      → clock ≤ now
      → now ≤ last + 60
      → any (lasting key_id nonce last) (delete_where (λ r. ltb r.expires_at now) rows) ≡ true
  row_left clock now rows h later soon =
      any_kept (lasting key_id nonce last) (λ r. ltb r.expires_at now) rows (λ r good. ground arith)
        (ground arith)

  spent_stays :
      (down : Bool) (k n : String) (clock now : ℕ) (rows : List NonceRow)
      → spent key_id nonce last clock rows ≡ true
      → clock ≤ now
      → spent key_id nonce last now (consume_nonce down ee_to_ce k n now rows).1 ≡ true
  unfolding consume_nonce
  spent_stays down k n clock now rows h later = elim (Bool-cases (leb now (last + 60))) [
    | inl soon ↦ ground (arith, row_left clock now rows h later)
    | inr over ↦ ground arith
  ]

  spent_refused :
      (down : Bool) (clock now : ℕ) (rows : List NonceRow)
      → spent key_id nonce last clock rows ≡ true
      → clock ≤ now
      → now ≤ last + 60
      → (consume_nonce down ee_to_ce key_id nonce now rows).0 ≢ ok tt
  unfolding consume_nonce
  spent_refused down clock now rows h later soon =
      let there =
        any_weaker (lasting key_id nonce last) (is_row ee_to_ce key_id nonce)
          (delete_where (λ r. ltb r.expires_at now) rows) (λ r good. ground arith)
          (row_left clock now rows h later soon) in
      λ e. ground arith

  spent_now :
      (down : Bool) (now : ℕ) (rows : List NonceRow)
      → (consume_nonce down ee_to_ce key_id nonce now rows).0 ≡ ok tt
      → last ≤ now + 240
      → spent key_id nonce last now (consume_nonce down ee_to_ce key_id nonce now rows).1 ≡ true
  unfolding consume_nonce
  spent_now down now rows h near =
      ground (arith, eq_refl (label ee_to_ce), eq_refl key_id, eq_refl nonce)

vetted_ok :
    (server : Server) (config : Option Config) (now : ℕ) (req : EeRequest) (c : Config)
    (signed : SignedRequest)
    → vetted server config now req ≡ ok (c, signed)
    → (read_signed server req ≡ some signed) × (leb (abs_diff now signed.timestamp) 120 ≡ true)
unfolding vetted verify_request
vetted_ok server config now req c signed h = ground arith

pub record Arrival : Type 0 where
  pub req : EeRequest
  pub config : Option Config
  pub verified_at : ℕ
  pub consumed_at : ℕ
  pub down : Bool

-- Nonces are consumed at times that do not go back, each within a minute of the verification.
unfoldable pub IsTimely : ℕ → List Arrival → Type 0
IsTimely clock [] = Unit {0}
IsTimely clock (a ∷ rest) =
    (clock ≤ a.consumed_at)
    × (a.verified_at ≤ a.consumed_at)
    × (a.consumed_at ≤ a.verified_at + 60)
    × IsTimely a.consumed_at rest

abbrev same_stamp : ℤ → ℤ → Bool
same_stamp (pos a) (pos b) = a == b
same_stamp (pos a) (negsuc b) = false
same_stamp (negsuc a) (pos b) = false
same_stamp (negsuc a) (negsuc b) = a == b

same_latest : (t u : ℤ) → same_stamp t u ≡ true → latest t ≡ latest u
same_latest (pos a) (pos b) h = ground arith
same_latest (pos a) (negsuc b) h = cc
same_latest (negsuc a) (pos b) h = cc
same_latest (negsuc a) (negsuc b) h = ground arith

-- Whether the headers carry this key, nonce and timestamp.
abbrev pub carries : String → String → ℤ → Option SignedRequest → Bool
carries key_id nonce stamp none = false
carries key_id nonce stamp (some s) =
    s.key_id == key_id && s.nonce == nonce && same_stamp s.timestamp stamp

carries_exact :
    (key_id nonce : String) (stamp : ℤ) (s : SignedRequest)
    → carries key_id nonce stamp (some s) ≡ true
    → (s.key_id ≡ key_id) × (s.nonce ≡ nonce) × (latest s.timestamp ≡ latest stamp)
carries_exact key_id nonce stamp s h = (
  (eq_iff s.key_id key_id).0 (ground arith),
  (eq_iff s.nonce nonce).0 (ground arith),
  same_latest s.timestamp stamp (ground arith),
)

module _ (server : Server) (next : EeRequest → Response) where
  abbrev served : Arrival → List NonceRow → (Bool × Response) × List NonceRow
  served a rows =
      require_ee_signature server a.config next a.verified_at a.consumed_at a.down a.req rows

  -- How many of the arrivals that carry these reach the handler.
  abbrev pub accepted : String → String → ℤ → List Arrival → List NonceRow → ℕ
  accepted key_id nonce stamp [] rows = 0
  accepted key_id nonce stamp (a ∷ rest) rows =
      bit ((served a rows).0.0 && carries key_id nonce stamp (read_signed server a.req))
      + accepted key_id nonce stamp rest (served a rows).1

  served_lem :
      (a : Arrival) (rows : List NonceRow)
      → (((served a rows).0.0 ≡ false) × ((served a rows).1 ≡ rows))
        ⊎ ((s : SignedRequest) × (read_signed server a.req ≡ some s)
            × (leb (abs_diff a.verified_at s.timestamp) 120 ≡ true)
            × ((served a rows).1
                ≡ (consume_nonce a.down ee_to_ce s.key_id s.nonce a.consumed_at rows).1)
            × ((served a rows).0.0 ≡ true
                → (consume_nonce a.down ee_to_ce s.key_id s.nonce a.consumed_at rows).0 ≡ ok tt))
  unfolding require_ee_signature
  served_lem a rows = elim (Result-cases (vetted server a.config a.verified_at a.req)) [
    | inr (e, refused) ↦ inl (ground arith)
    | inl ((c, s), passed) ↦
        let (read, near) = vetted_ok server a.config a.verified_at a.req c s passed in
        inr (s, read, near, ground arith, ground arith)
  ]

  module _ (key_id nonce : String) (stamp : ℤ) (a : Arrival) (rows : List NonceRow) where
    abbrev used : Bool
    used = (served a rows).0.0 && carries key_id nonce stamp (read_signed server a.req)

    -- What a use says: its nonce was consumed, within the minute after a near timestamp.
    used_lem :
        a.verified_at ≤ a.consumed_at
        → a.consumed_at ≤ a.verified_at + 60
        → used ≡ true
        → ((consume_nonce a.down ee_to_ce key_id nonce a.consumed_at rows).0 ≡ ok tt)
          × ((served a rows).1 ≡ (consume_nonce a.down ee_to_ce key_id nonce a.consumed_at rows).1)
          × (a.consumed_at ≤ latest stamp + 60)
          × (latest stamp ≤ a.consumed_at + 240)
    used_lem after soon h = elim (served_lem a rows) [
      | inl (missed, same) ↦ ground arith
      | inr (s, read, near, left, done) ↦
          let (k, n, t) = carries_exact key_id nonce stamp s (ground arith) in
          let (not_over, not_early) = latest_lem a.verified_at s.timestamp near in
          let consumed = done (ground arith) in
          (
            subst (λ x. (consume_nonce a.down ee_to_ce x nonce a.consumed_at rows).0 ≡ ok tt) k
                (subst
                  (λ x. (consume_nonce a.down ee_to_ce s.key_id x a.consumed_at rows).0 ≡ ok tt) n
                  consumed),
            left
                ∙ ap (λ x. (consume_nonce a.down ee_to_ce x s.nonce a.consumed_at rows).1) k
                ∙ ap (λ x. (consume_nonce a.down ee_to_ce key_id x a.consumed_at rows).1) n,
            omega arith,
            omega arith,
          )
    ]

    spent_step :
        (clock : ℕ)
        → spent key_id nonce (latest stamp) clock rows ≡ true
        → clock ≤ a.consumed_at
        → spent key_id nonce (latest stamp) a.consumed_at (served a rows).1 ≡ true
    spent_step clock h later = elim (served_lem a rows) [
      | inl (missed, same) ↦
          ap (spent key_id nonce (latest stamp) a.consumed_at) same ∙ ground arith
      | inr (s, read, near, left, done) ↦
          ap (spent key_id nonce (latest stamp) a.consumed_at) left
          ∙ spent_stays key_id nonce (latest stamp) a.down s.key_id s.nonce clock a.consumed_at rows
              h later
    ]

    spent_unused :
        (clock : ℕ)
        → spent key_id nonce (latest stamp) clock rows ≡ true
        → clock ≤ a.consumed_at
        → a.verified_at ≤ a.consumed_at
        → a.consumed_at ≤ a.verified_at + 60
        → used ≡ false
    spent_unused clock h later after soon = elim (Bool-cases used) [
      | inr unused ↦ unused
      | inl again ↦
          let (consumed, left, in_time, near) = used_lem after soon again in
          elim (spent_refused key_id nonce (latest stamp) a.down clock a.consumed_at rows h later
            in_time consumed) [ ]
    ]

    used-spent :
        a.verified_at ≤ a.consumed_at
        → a.consumed_at ≤ a.verified_at + 60
        → used ≡ true
        → spent key_id nonce (latest stamp) a.consumed_at (served a rows).1 ≡ true
    used-spent after soon h =
        let (consumed, left, in_time, near) = used_lem after soon h in
        ap (spent key_id nonce (latest stamp) a.consumed_at) left
        ∙ spent_now key_id nonce (latest stamp) a.down a.consumed_at rows consumed near

  -- After its one use, a nonce reaches the handler no more.
  spent_none :
      (key_id nonce : String) (stamp : ℤ) (clock : ℕ) (arrivals : List Arrival)
      (rows : List NonceRow)
      → spent key_id nonce (latest stamp) clock rows ≡ true
      → IsTimely clock arrivals
      → accepted key_id nonce stamp arrivals rows ≡ 0
  unfolding IsTimely
  spent_none key_id nonce stamp clock [] rows h timely = refl
  spent_none key_id nonce stamp clock (a ∷ rest) rows h (later, after, soon, timely) =
      let unused = spent_unused key_id nonce stamp a rows clock h later after soon in
      let rest_none =
        spent_none key_id nonce stamp a.consumed_at rest (served a rows).1
          (spent_step key_id nonce stamp a rows clock h later) timely in
      ground arith

  -- A request of the sidecar that is sent again, by whoever has seen it, with the headers of its key,
  -- nonce and timestamp, reaches the handler once at most, however it is mixed with other requests
  -- and whichever transactions fail, if the clock does not go back and at most a minute passes
  -- between the verification of a request and the use of its nonce.
  pub accepted_once :
      (key_id nonce : String) (stamp : ℤ) (clock : ℕ) (arrivals : List Arrival)
      (rows : List NonceRow)
      → IsTimely clock arrivals
      → accepted key_id nonce stamp arrivals rows ≤ 1
  unfolding IsTimely
  accepted_once key_id nonce stamp clock [] rows timely = ground arith
  accepted_once key_id nonce stamp clock (a ∷ rest) rows (later, after, soon, timely) =
      let others = accepted_once key_id nonce stamp a.consumed_at rest (served a rows).1 timely in
      elim (Bool-cases (used key_id nonce stamp a rows)) [
        | inr unused ↦ ground arith
        | inl once ↦
            let none_left =
              spent_none key_id nonce stamp a.consumed_at rest (served a rows).1
                (used-spent key_id nonce stamp a rows after soon once) timely in
            ground arith
      ]
