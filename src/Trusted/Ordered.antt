-- ===== src/Trusted/Ordered.antt =====
-- agent/src/privileged/crypto.rs: sequences of frames on the encrypted channel.
use shellfleet.Common.{
  ℕ, ◌+◌, ◌/◌, ◌%◌, ◌^◌, ◌<◌, ◌≡◌, refl, sym, ◌∙◌, ap, subst, true, String, some, List, [], ◌∷◌,
  arith, ◌==◌, nat_eq, string_eq,
}
use shellfleet.Common.Result.{guard_ok, ok_or_ok, Result, ok, ◌>>=◌, guard, ok_or, >>=-eq-ok}
use shellfleet.Trusted.Transport.{Crypto, Transport, nonce, next_counter, encrypt, decrypt}

next_counter_ok : (n k : ℕ) → next_counter n ≡ ok k → (k ≡ n + 1) × (k < 2 ^ 64)
unfolding next_counter
next_counter_ok n k h = ground arith

-- Two counters of 64 bits with the same nonce are the same: no key is used twice with a nonce.
pub nonce_injective : (a b : ℕ) → a < 2 ^ 64 → b < 2 ^ 64 → nonce a ≡ nonce b → a ≡ b
unfolding nonce
nonce_injective a b ha hb h =
    let b7 : (a / 2 ^ 56) % 256 ≡ (b / 2 ^ 56) % 256 = cc in
    let b6 : (a / 2 ^ 48) % 256 ≡ (b / 2 ^ 48) % 256 = cc in
    let b5 : (a / 2 ^ 40) % 256 ≡ (b / 2 ^ 40) % 256 = cc in
    let b4 : (a / 2 ^ 32) % 256 ≡ (b / 2 ^ 32) % 256 = cc in
    let b3 : (a / 2 ^ 24) % 256 ≡ (b / 2 ^ 24) % 256 = cc in
    let b2 : (a / 2 ^ 16) % 256 ≡ (b / 2 ^ 16) % 256 = cc in
    let b1 : (a / 2 ^ 8) % 256 ≡ (b / 2 ^ 8) % 256 = cc in
    let b0 : a % 256 ≡ b % 256 = cc in
    let t7 : a / 2 ^ 56 ≡ b / 2 ^ 56 = omega (arith, b7, ha, hb) in
    let t6 : a / 2 ^ 48 ≡ b / 2 ^ 48 = omega (arith, t7, b6) in
    let t5 : a / 2 ^ 40 ≡ b / 2 ^ 40 = omega (arith, t6, b5) in
    let t4 : a / 2 ^ 32 ≡ b / 2 ^ 32 = omega (arith, t5, b4) in
    let t3 : a / 2 ^ 24 ≡ b / 2 ^ 24 = omega (arith, t4, b3) in
    let t2 : a / 2 ^ 16 ≡ b / 2 ^ 16 = omega (arith, t3, b2) in
    let t1 : a / 2 ^ 8 ≡ b / 2 ^ 8 = omega (arith, t2, b1) in omega (arith, t1, b0)

abbrev pub encrypt_all :
    Crypto → Transport → List (List ℕ) → Result String (List (ℕ × List ℕ) × Transport)
encrypt_all crypto t [] = ok ([], t)
encrypt_all crypto t (m ∷ ms) = do
  (frame, after) ← encrypt crypto t m
  (frames, end) ← encrypt_all crypto after ms
  ok (frame ∷ frames, end)

abbrev pub decrypt_all :
    Crypto → Transport → List (ℕ × List ℕ) → Result String (List (List ℕ) × Transport)
decrypt_all crypto t [] = ok ([], t)
decrypt_all crypto t (frame ∷ frames) = do
  (m, after) ← decrypt crypto t frame.0 frame.1
  (ms, end) ← decrypt_all crypto after frames
  ok (m ∷ ms, end)

-- One end sends what the other is ready to receive.
pub record InStep (sender receiver : Transport) : Type 0 where
  pub key : sender.send ≡ receiver.receive
  pub counter : sender.send_counter ≡ receiver.receive_counter
  pub request : sender.request_id ≡ receiver.request_id

-- The documented behaviour of the cipher: what is sealed is unsealed by the same key, nonce and
-- associated data.
abbrev pub Unseals : Crypto → Type 0
Unseals crypto =
    (key nonce aad plaintext ciphertext : List ℕ)
    → crypto.seal key nonce aad plaintext ≡ some ciphertext
    → crypto.unseal key nonce aad ciphertext ≡ some plaintext

encrypt_ok :
    (crypto : Crypto) (t after : Transport) (plaintext bytes : List ℕ) (counter : ℕ)
    → encrypt crypto t plaintext ≡ ok ((counter, bytes), after)
    → (next : ℕ) × (counter ≡ t.send_counter)
      × (crypto.seal t.send (nonce t.send_counter) (crypto.as_bytes t.request_id) plaintext
          ≡ some bytes)
      × (next_counter t.send_counter ≡ ok next)
      × (after ≡ record t { send_counter = next })
unfolding encrypt
encrypt_ok crypto t after plaintext bytes counter h =
    let (ciphertext, sealed, h) =
      >>=-eq-ok
        (ok_or (crypto.seal t.send (nonce t.send_counter) (crypto.as_bytes t.request_id) plaintext)
          "root transport encryption failed")
        _ h in
    let (next, counted, h) = >>=-eq-ok (next_counter t.send_counter) _ h in
    let same : ciphertext ≡ bytes = cc in
    (next, cc, ok_or_ok _ _ sealed ∙ ap some same, counted, cc)

decrypt_ready :
    (crypto : Crypto) (t : Transport) (plaintext bytes : List ℕ) (next : ℕ)
    → crypto.unseal t.receive (nonce t.receive_counter) (crypto.as_bytes t.request_id) bytes
      ≡ some plaintext
    → next_counter t.receive_counter ≡ ok next
    → decrypt crypto t t.receive_counter bytes ≡ ok (plaintext, record t { receive_counter = next })
unfolding decrypt
decrypt_ready crypto t plaintext bytes next opened counted =
    let here : (t.receive_counter == t.receive_counter) ≡ true = ground arith in
    rw (here, opened, counted) refl

step_lem :
    (crypto : Crypto) (s r after : Transport) (plaintext bytes : List ℕ) (counter : ℕ)
    → Unseals crypto
    → InStep s r
    → encrypt crypto s plaintext ≡ ok ((counter, bytes), after)
    → (end : Transport) × (decrypt crypto r counter bytes ≡ ok (plaintext, end)) × InStep after end
step_lem crypto s r after plaintext bytes counter law sync h =
    let (next, same, sealed, counted, left) = encrypt_ok crypto s after plaintext bytes counter h in
    let opened = law _ _ _ _ _ sealed in
    let to_r : counter ≡ r.receive_counter = same ∙ sync.counter in
    let opened_r : crypto.unseal r.receive (nonce r.receive_counter) (crypto.as_bytes r.request_id)
          bytes
        ≡ some plaintext =
      cc (opened, sync.key, sync.counter, sync.request) in
    let counted_r : next_counter r.receive_counter ≡ ok next = cc (counted, sync.counter) in
    (
      record r { receive_counter = next },
      ap (λ c. decrypt crypto r c bytes) to_r
          ∙ decrypt_ready crypto r plaintext bytes next opened_r counted_r,
      record {
        key = ap (λ t. t.send) left ∙ sync.key;
        counter = ap (λ t. t.send_counter) left;
        request = ap (λ t. t.request_id) left ∙ sync.request;
      },
    )

-- Where one end's sending key and counter are the other's receiving ones, and the cipher unseals
-- what it seals, the messages that one end encrypts, all of them, are what the other decrypts from
-- the frames, in the same order, and the two ends stay in step.
pub decrypt_all-encrypt_all :
    (crypto : Crypto) (s r after : Transport) (ms : List (List ℕ)) (frames : List (ℕ × List ℕ))
    → Unseals crypto
    → InStep s r
    → encrypt_all crypto s ms ≡ ok (frames, after)
    → (end : Transport) × (decrypt_all crypto r frames ≡ ok (ms, end)) × InStep after end
decrypt_all-encrypt_all crypto s r after [] frames law sync h =
    let none_sent : [] ≡ frames = cc in
    let same : s ≡ after = cc in
    (r, ap (decrypt_all crypto r) (sym none_sent), subst (λ t. InStep t r) same sync)
decrypt_all-encrypt_all crypto s r after (m ∷ ms) frames law sync h =
    let (((counter, bytes), s1), first, h) = >>=-eq-ok (encrypt crypto s m) _ h in
    let ((later, s2), rest, h) = >>=-eq-ok (encrypt_all crypto s1 ms) _ h in
    let (r1, opened, sync1) = step_lem crypto s r s1 m bytes counter law sync first in
    let (r2, others, sync2) = decrypt_all-encrypt_all crypto s1 r1 s2 ms later law sync1 rest in
    let sent : (counter, bytes) ∷ later ≡ frames = cc in
    let same : s2 ≡ after = cc in
    (
      r2,
      ap (decrypt_all crypto r) (sym sent) ∙ rw (opened, others) refl,
      subst (λ t. InStep t r2) same sync2,
    )

-- The counters go up by one from a first.
abbrev pub IsConsecutive : ℕ → List (ℕ × List ℕ) → Type 0
IsConsecutive first [] = Unit
IsConsecutive first (frame ∷ frames) = (frame.0 ≡ first) × IsConsecutive (first + 1) frames

decrypt_ok :
    (crypto : Crypto) (t after : Transport) (counter : ℕ) (bytes plaintext : List ℕ)
    → decrypt crypto t counter bytes ≡ ok (plaintext, after)
    → (counter ≡ t.receive_counter) × (after.receive_counter ≡ t.receive_counter + 1)
unfolding decrypt
decrypt_ok crypto t after counter bytes plaintext h =
    let (_, here, h) = >>=-eq-ok (guard (counter == t.receive_counter) _) _ h in
    let (opened, sealed, h) =
      >>=-eq-ok
        (ok_or (crypto.unseal t.receive (nonce counter) (crypto.as_bytes t.request_id) bytes)
          "root transport authentication failed")
        _ h in
    let (next, counted, h) = >>=-eq-ok (next_counter t.receive_counter) _ h in
    let moved : after.receive_counter ≡ next = cc in
    let up = next_counter_ok t.receive_counter next counted in
    (ground (arith, guard_ok _ _ here), moved ∙ up.0)

-- Frames that are taken one after another have consecutive counters from the one that was expected:
-- none is replayed, left out or out of order.
decrypt_all-IsConsecutive :
    (crypto : Crypto) (r after : Transport) (frames : List (ℕ × List ℕ)) (ms : List (List ℕ))
    → decrypt_all crypto r frames ≡ ok (ms, after)
    → IsConsecutive r.receive_counter frames
decrypt_all-IsConsecutive crypto r after [] ms h = tt
decrypt_all-IsConsecutive crypto r after (frame ∷ frames) ms h =
    let ((m, r1), first, h) = >>=-eq-ok (decrypt crypto r frame.0 frame.1) _ h in
    let ((later, r2), rest, h) = >>=-eq-ok (decrypt_all crypto r1 frames) _ h in
    let (here, moved) = decrypt_ok crypto r r1 frame.0 frame.1 m first in
    (
      here,
      subst (λ c. IsConsecutive c frames) moved
          (decrypt_all-IsConsecutive crypto r1 r2 frames later rest),
    )
