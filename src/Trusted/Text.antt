-- ===== src/Trusted/Text.antt =====
-- What the trusted channel asks of a text: its length in bytes of UTF-8 and which characters it has.
use Prim.Native.Char.{code}
use shellfleet.Common.{
  ℕ, ◌+◌, Bool, true, false, ◌&&◌, ◌||◌, String, leb, ltb, nat_beq, if◌then◌else◌,
}

utf8_len : ℕ → ℕ
utf8_len c = if ltb c 128 then 1 else (if ltb c 2048 then 2 else (if ltb c 65536 then 3 else 4))

-- `str::len`
unfoldable pub len : String → ℕ
unfolding utf8_len
len String.[] = 0
len (String.◌∷◌ c s) = utf8_len (code c) + len s

-- `s.contains(c)`, for a character's code
unfoldable pub has_char : ℕ → String → Bool
has_char c String.[] = false
has_char c (String.◌∷◌ d s) = nat_beq (code d) c || has_char c s

-- `s.starts_with(c)`
unfoldable pub starts_with : ℕ → String → Bool
starts_with c String.[] = false
starts_with c (String.◌∷◌ d s) = nat_beq (code d) c

between : ℕ → ℕ → ℕ → Bool
between low high c = leb low c && leb c high

-- An ASCII letter or digit, or one of `._-`.
unfoldable pub is_id_char : ℕ → Bool
unfolding between
is_id_char c =
    between b'0' b'9' c
    || between b'A' b'Z' c
    || between b'a' b'z' c
    || nat_beq c b'.'
    || nat_beq c b'_'
    || nat_beq c b'-'

unfoldable pub all_chars : (ℕ → Bool) → String → Bool
all_chars p String.[] = true
all_chars p (String.◌∷◌ c s) = p (code c) && all_chars p s
