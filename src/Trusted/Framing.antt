-- ===== src/Trusted/Framing.antt =====
-- agent/src/privileged/framing.rs: a frame is its length in four bytes, the highest first, and its
-- body. A reader is the bytes that are still to come; a writer that works takes all it is given.
use shellfleet.Common.{
  ℕ, ◌+◌, ◌*◌, ◌/◌, ◌%◌, ◌^◌, Bool, not, ◌&&◌, String, List, [], ◌∷◌, ◌++◌, ◌==◌, nat_eq, string_eq,
  if◌then◌else◌, leb, length, take, drop,
}
use shellfleet.Common.Result.{Result, ok, err, ◌>>=◌, ◌>>◌, guard}
use shellfleet.Trusted.Wire.{max_trusted_frame_bytes}

-- `read_u32`; the message of the error at the end of the input is the runtime's.
unfoldable pub read_u32 : List ℕ → Result String (ℕ × List ℕ)
read_u32 (a ∷ b ∷ c ∷ d ∷ rest) = ok (a * 2 ^ 24 + b * 2 ^ 16 + c * 2 ^ 8 + d, rest)
read_u32 _ = err "early eof"

-- `write_u32`
unfoldable pub write_u32 : ℕ → List ℕ
write_u32 n = (n / 2 ^ 24) % 256 ∷ (n / 2 ^ 16) % 256 ∷ (n / 2 ^ 8) % 256 ∷ n % 256 ∷ []

-- `read_exact`
unfoldable pub read_exact : ℕ → List ℕ → Result String (List ℕ × List ℕ)
read_exact n bytes =
    if leb n (length bytes) then ok (take n bytes, drop n bytes) else err "early eof"

unfoldable pub is_frame_length : ℕ → Bool
is_frame_length n = not (n == 0) && leb n max_trusted_frame_bytes

unfoldable pub read_frame : List ℕ → Result String (List ℕ × List ℕ)
read_frame reader = do
  (length, rest) ← read_u32 reader
  guard (is_frame_length length) "invalid trusted frame length"
  read_exact length rest

unfoldable pub write_frame : List ℕ → Result String (List ℕ)
write_frame body = do
  guard (is_frame_length (length body)) "invalid trusted frame length"
  ok (write_u32 (length body % 2 ^ 32) ++ body)
