-- ===== src/Keys.antt =====
-- The key database and its text formats (src/keys.rs): hexadecimal digests, the shape of a key, and
-- the validation of a key file. SHA-256 and the random source are parameters where they are used.
pub mod Hex
pub mod Shape
pub mod File
pub mod Authenticate
mod Tests
use mistralrs_proxy.Prelude.{
  ℕ, zero, suc, ◌+◌, ◌-◌, ◌*◌, ◌/◌, ◌%◌, Bool, true, false, not, ◌&&◌, ◌||◌, Option, none, some,
  List, [], ◌∷◌, ◌++◌, ltb, leb, ◌==◌, if◌then◌else◌, length, Str, str_eq,
}
use mistralrs_proxy.Prelude.Monad.{Outcome, returned, panicked, bind_outcome, pure}

abbrev pub identifier_len : ℕ
identifier_len = 8

abbrev pub secret_len : ℕ
secret_len = 32

-- "eb".
abbrev pub key_prefix : Str
key_prefix = b'e' ∷ b'b' ∷ []

abbrev pub between : ℕ → ℕ → ℕ → Bool
between lo hi b = leb lo b && leb b hi

unfoldable pub hex_value : ℕ → Option ℕ
hex_value b =
    if between b'0' b'9' b
    then some (b - b'0')
    else if between b'a' b'f' b
    then some (b - b'a' + 10)
    else if between b'A' b'F' b
    then some (b - b'A' + 10)
    else none

-- The loop of `decode_digest` over the pairs. A value is below 16, so `hi << 4 | lo` is a sum.
abbrev pub join_nibbles : Option ℕ → Option ℕ → Option (List ℕ) → Option (List ℕ)
join_nibbles (some hi) (some lo) (some rest) = some ((hi * 16 + lo) ∷ rest)
join_nibbles _ _ _ = none

unfoldable pub decode_pairs : Str → Option (List ℕ)
decode_pairs [] = some []
decode_pairs (a ∷ []) = some []
decode_pairs (a ∷ b ∷ rest) = join_nibbles (hex_value a) (hex_value b) (decode_pairs rest)

unfoldable pub decode_digest : Str → Option (List ℕ)
decode_digest hex = if not (length hex == 64) then none else decode_pairs hex

-- "0123456789abcdef".
abbrev pub digits : Str
digits = 48 ∷ 49 ∷ 50 ∷ 51 ∷ 52 ∷ 53 ∷ 54 ∷ 55 ∷ 56 ∷ 57 ∷ 97 ∷ 98 ∷ 99 ∷ 100 ∷ 101 ∷ 102 ∷ []

abbrev pub at_or_zero : Str → ℕ → ℕ
at_or_zero [] i = 0
at_or_zero (x ∷ xs) zero = x
at_or_zero (x ∷ xs) (suc i) = at_or_zero xs i

unfoldable pub hex_encode : List ℕ → Str
hex_encode [] = []
hex_encode (b ∷ bs) = at_or_zero digits (b / 16) ∷ at_or_zero digits (b % 16) ∷ hex_encode bs

-- `str::strip_prefix`.
unfoldable pub strip_prefix : Str → Str → Option Str
strip_prefix [] s = some s
strip_prefix (p ∷ ps) [] = none
strip_prefix (p ∷ ps) (b ∷ bs) = let rest = strip_prefix ps bs in if p == b then rest else none

abbrev pub is_key_byte : ℕ → Bool
is_key_byte b =
    between b'0' b'9' b || between b'A' b'Z' b || between b'a' b'z' b || b == b'-' || b == b'_'

unfoldable pub all_key_bytes : Str → Bool
all_key_bytes [] = true
all_key_bytes (b ∷ bs) = is_key_byte b && all_key_bytes bs

unfoldable pub is_base64_segment : Str → ℕ → Bool
unfolding all_key_bytes
is_base64_segment segment len = length segment == len && all_key_bytes segment

-- The two parts of `str::split_at`.
unfoldable pub take : ℕ → Str → Str
take zero s = []
take (suc n) [] = []
take (suc n) (b ∷ bs) = b ∷ take n bs

unfoldable pub drop : ℕ → Str → Str
drop zero s = s
drop (suc n) [] = []
drop (suc n) (b ∷ bs) = drop n bs

abbrev and_then {ℓ κ} : {A : Type ℓ} {B : Type κ} → Option A → (A → Option B) → Option B
and_then none f = none
and_then (some a) f = f a

-- `is_char_boundary` at the start of the second part: its first byte is no UTF-8 continuation byte.
abbrev pub starts_char : Str → Bool
starts_char [] = true
starts_char (b ∷ bs) = ltb b 128 || leb 192 b

-- A call on values, with no state of its own.
abbrev pub Called {ℓ} : Type ℓ → Type ℓ
Called A = Outcome (Unit {0}) A

-- `str::split_at`, at an index within the text: it panics inside a character.
unfoldable pub split_at : ℕ → Str → Called (Str × Str)
split_at n s = if starts_char (drop n s) then returned (take n s, drop n s) tt else panicked tt

-- The two parts after the split.
unfoldable pub check_parts : Str → Str → Option Str
check_parts identifier rest = and_then (strip_prefix (b'_' ∷ []) rest) λ secret.
    if is_base64_segment identifier identifier_len && is_base64_segment secret secret_len
    then some identifier
    else none

-- What follows the prefix `eb_`.
unfoldable pub segments : Str → Called (Option Str)
segments rest =
    if not (length rest == identifier_len + 1 + secret_len)
    then returned none tt
    else bind_outcome (split_at identifier_len rest) (λ parts. pure (check_parts parts.0 parts.1))

unfoldable pub identifier_of : Str → Called (Option Str)
identifier_of key = elim (and_then (strip_prefix key_prefix key) (strip_prefix (b'_' ∷ []))) [
  | none ↦ returned none tt
  | some rest ↦ segments rest
]
