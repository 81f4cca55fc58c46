-- ===== src/Trusted/Agreement.antt =====
-- agent/src/privileged/crypto.rs: the two ends of the encrypted channel.
use shellfleet.Common.{
  ℕ, ◌≡◌, ◌∙◌, ap, Bool, true, false, String, List, nat_eq, string_eq, if◌then◌else◌,
}
use shellfleet.Common.Result.{ok, >>=-eq-ok}
use shellfleet.Trusted.Transport.{Crypto, Transport, expand, derive, broker, client}
use shellfleet.Trusted.Ordered.{InStep}

derive_ok :
    (crypto : Crypto) (shared manifest : List ℕ) (request_id : String) (flag : Bool) (t : Transport)
    → derive crypto shared manifest request_id flag ≡ ok t
    → (to_host to_client : List ℕ) × (expand crypto shared manifest
          "shellfleet-root-client-to-host-v1"
        ≡ ok to_host)
      × (expand crypto shared manifest "shellfleet-root-host-to-client-v1" ≡ ok to_client)
      × (t.send ≡ (if flag then to_host else to_client))
      × (t.receive ≡ (if flag then to_client else to_host))
      × (t.send_counter ≡ 0)
      × (t.receive_counter ≡ 0)
      × (t.request_id ≡ request_id)
unfolding derive
derive_ok crypto shared manifest request_id flag t h =
    let (to_host, first, h) =
      >>=-eq-ok (expand crypto shared manifest "shellfleet-root-client-to-host-v1") _ h in
    let (to_client, second, h) =
      >>=-eq-ok (expand crypto shared manifest "shellfleet-root-host-to-client-v1") _ h in
    (to_host, to_client, first, second, cc, cc, cc, cc, cc)

-- The two ends of one approved request are in step, both ways, if their secrets agree.
broker-client :
    (crypto : Crypto) (host_secret host_public client_secret client_public manifest : List ℕ)
    (request_id : String) (b c : Transport)
    → crypto.diffie_hellman host_secret client_public
      ≡ crypto.diffie_hellman client_secret host_public
    → broker crypto host_secret client_public manifest request_id ≡ ok b
    → client crypto client_secret host_public manifest request_id ≡ ok c
    → InStep b c × InStep c b
unfolding broker client
broker-client crypto host_secret host_public client_secret client_public manifest request_id b c
      agree hb hc =
    let shared = crypto.diffie_hellman host_secret client_public in
    let hc_same = ap (λ k. derive crypto k manifest request_id true) agree ∙ hc in
    let (k1, k2, e1, e2, bs, br, bsc, brc, bid) =
      derive_ok crypto shared manifest request_id false b hb in
    let (l1, l2, f1, f2, cs, cr, csc, crc, cid) =
      derive_ok crypto shared manifest request_id true c hc_same in
    let same1 : k1 ≡ l1 = cc in
    let same2 : k2 ≡ l2 = cc in
    (
      record { key = cc; counter = cc; request = cc },
      record { key = cc; counter = cc; request = cc },
    )
