-- ===== src/Trusted/Frames.antt =====
-- agent/src/privileged/framing.rs: reading and writing of frames, one against the other.
use shellfleet.Common.{
  drop-append, take-append, length-append, ℕ, zero, suc, ◌+◌, ◌*◌, ◌/◌, ◌%◌, ◌^◌, ◌≤◌, ◌<◌, ◌≡◌,
  refl, sym, ◌∙◌, ap, inl, inr, true, false, List, [], ◌∷◌, ◌++◌, arith, nat_eq, string_eq,
  Bool-cases, leb, length, take, drop, All,
}
use shellfleet.Common.Result.{ok, err, >>=-eq-ok, guard}
use shellfleet.Trusted.Framing.{
  read_u32, write_u32, read_exact, is_frame_length, read_frame, write_frame,
}

pub read_u32-write_u32 :
    (n : ℕ) (rest : List ℕ) → n < 2 ^ 32 → read_u32 (write_u32 n ++ rest) ≡ ok (n, rest)
unfolding read_u32 write_u32
read_u32-write_u32 n rest h =
    let same : (n / 2 ^ 24) % 256 * 2 ^ 24
          + (n / 2 ^ 16) % 256 * 2 ^ 16
          + (n / 2 ^ 8) % 256 * 2 ^ 8
          + n % 256
        ≡ n =
      omega arith in
    rw same refl

read_exact-append : (body rest : List ℕ) → read_exact (length body) (body ++ rest) ≡ ok (body, rest)
unfolding read_exact
read_exact-append body rest =
    let fits : leb (length body) (length (body ++ rest)) ≡ true =
      ground (arith, length-append body rest) in
    rw (fits, take-append body rest, drop-append body rest) refl

length-mod : (n : ℕ) → is_frame_length n ≡ true → n % 2 ^ 32 ≡ n
unfolding is_frame_length
length-mod n h = ground arith

-- The bytes of a frame whose length is in bounds.
abbrev framed : List ℕ → List ℕ
framed body = write_u32 (length body) ++ body

write_frame_eq :
    (body : List ℕ) → is_frame_length (length body) ≡ true → write_frame body ≡ ok (framed body)
unfolding write_frame
write_frame_eq body h = rw (h, length-mod (length body) h) refl

write_frame_err :
    (body : List ℕ)
    → is_frame_length (length body) ≡ false
    → write_frame body ≡ err "invalid trusted frame length"
unfolding write_frame
write_frame_err body h = rw h refl

write_frame_ok :
    (body frame : List ℕ)
    → write_frame body ≡ ok frame
    → (is_frame_length (length body) ≡ true) × (frame ≡ framed body)
write_frame_ok body frame h = elim (Bool-cases (is_frame_length (length body))) [
  | inl fits ↦ (fits, cc (h, write_frame_eq body fits))
  | inr wrong ↦ cc (h, write_frame_err body wrong)
]

read_u32-framed :
    (body rest : List ℕ)
    → is_frame_length (length body) ≡ true
    → read_u32 (framed body ++ rest) ≡ ok (length body, body ++ rest)
unfolding write_u32
read_u32-framed body rest fits =
    read_u32-write_u32 (length body) (body ++ rest) (ground (arith, length-mod (length body) fits))

read_framed :
    (body rest : List ℕ)
    → is_frame_length (length body) ≡ true
    → read_frame (framed body ++ rest) ≡ ok (body, rest)
unfolding read_frame
read_framed body rest fits =
    rw (read_u32-framed body rest fits, fits, read_exact-append body rest) refl

-- A body that can be written is what is read back from the bytes that were written for it, and the
-- bytes after them are left.
pub read_frame-write_frame :
    (body frame rest : List ℕ)
    → write_frame body ≡ ok frame
    → read_frame (frame ++ rest) ≡ ok (body, rest)
read_frame-write_frame body frame rest h =
    let (fits, same) = write_frame_ok body frame h in
    ap (λ bytes. read_frame (bytes ++ rest)) same ∙ read_framed body rest fits

take-length : (n : ℕ) (xs : List ℕ) → n ≤ length xs → length (take n xs) ≡ n
take-length zero xs h = refl
take-length (suc n) [] h = ground arith
take-length (suc n) (x ∷ xs) h = ap suc (take-length n xs (ground arith))

take-drop : (n : ℕ) (xs : List ℕ) → take n xs ++ drop n xs ≡ xs
take-drop zero xs = refl
take-drop (suc n) [] = refl
take-drop (suc n) (x ∷ xs) = ap (λ ys. x ∷ ys) (take-drop n xs)

read_exact_ok :
    (n : ℕ) (bytes body rest : List ℕ)
    → read_exact n bytes ≡ ok (body, rest)
    → (length body ≡ n) × (body ++ rest ≡ bytes)
unfolding read_exact
read_exact_ok n bytes body rest h = elim (Bool-cases (leb n (length bytes))) [
  | inl fits ↦
      let same_body : take n bytes ≡ body = ground arith in
      let same_rest : drop n bytes ≡ rest = ground arith in
      (
        sym (ap length same_body) ∙ take-length n bytes (ground arith),
        sym (ap (λ b. b ++ rest) same_body)
            ∙ sym (ap (λ r. take n bytes ++ r) same_rest)
            ∙ take-drop n bytes,
      )
  | inr short ↦ ground arith
]

abbrev pub IsByte : ℕ → Type 0
IsByte n = n < 256

read_u32_ok :
    (bytes rest : List ℕ) (n : ℕ)
    → All IsByte bytes
    → read_u32 bytes ≡ ok (n, rest)
    → write_u32 n ++ rest ≡ bytes
unfolding read_u32 write_u32
read_u32_ok (a ∷ b ∷ c ∷ d ∷ tail) rest n (ha, (hb, (hc, (hd, others)))) h =
    let value : a * 2 ^ 24 + b * 2 ^ 16 + c * 2 ^ 8 + d ≡ n = ground arith in
    let same : tail ≡ rest = ground arith in
    let first : (n / 2 ^ 24) % 256 ≡ a = omega arith in
    let second : (n / 2 ^ 16) % 256 ≡ b = omega arith in
    let third : (n / 2 ^ 8) % 256 ≡ c = omega arith in
    let last : n % 256 ≡ d = omega arith in cc (first, second, third, last, same)
read_u32_ok _ rest n hb h = ground arith

framed-append :
    (body rest : List ℕ) → framed body ++ rest ≡ write_u32 (length body) ++ (body ++ rest)
unfolding write_u32
framed-append body rest = refl

-- Whatever is read as a frame from a reader of bytes is what would be written for its body: a
-- frame has no other form.
write_frame-read_frame :
    (reader body rest : List ℕ)
    → All IsByte reader
    → read_frame reader ≡ ok (body, rest)
    → (frame : List ℕ) × (write_frame body ≡ ok frame) × (frame ++ rest ≡ reader)
unfolding read_frame
write_frame-read_frame reader body rest bytes h =
    let ((n, tail), header, h) = >>=-eq-ok (read_u32 reader) _ h in
    let (_, fits, h) = >>=-eq-ok (guard (is_frame_length n) "invalid trusted frame length") _ h in
    let (size, same) = read_exact_ok n tail body rest h in
    let whole : is_frame_length (length body) ≡ true = ground arith in
    (
      framed body,
      write_frame_eq body whole,
      framed-append body rest
          ∙ ap (λ t. write_u32 (length body) ++ t) same
          ∙ ap (λ k. write_u32 k ++ tail) size
          ∙ read_u32_ok reader tail n bytes header,
    )
