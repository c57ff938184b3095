-- ===== src/Telemetry/Line.antt =====
-- One line of metrics (src/telemetry.rs), and the functions on text that its parser calls: `lines`,
-- `trim`, `char::is_whitespace` and `str::parse::<i64>` of the standard library, on UTF-8.
use mistralrs_proxy.Prelude.{
  ℕ, ◌+◌, ◌-◌, ◌*◌, ◌==◌, leb, Bool, true, false, not, ◌&&◌, ◌||◌, Option, none, some, List, [],
  ◌∷◌, ◌++◌, if◌then◌else◌, Str,
}
use mistralrs_proxy.Backend.Slot.{Result, ok, err}
use mistralrs_proxy.Telemetry.{
  Reason, invalid_metric_name, expected_whitespace, value_missing, unterminated_label_set,
  unexpected_after_value, unexpected_after_timestamp, ParsedSample,
}

-- The length in bytes of the character of whitespace that a text begins with, or 0.
abbrev space_3 : ℕ → ℕ → ℕ → ℕ
space_3 b c d =
    if (b == 0xE1 && c == 0x9A && d == 0x80)
      || ((b == 0xE2
            && c == 0x80
            && ((leb 0x80 d && leb d 0x8A) || d == 0xA8 || d == 0xA9 || d == 0xAF))
          || ((b == 0xE2 && c == 0x81 && d == 0x9F) || (b == 0xE3 && c == 0x80 && d == 0x80)))
    then 3
    else 0

abbrev space_2 : ℕ → Str → ℕ
space_2 b [] = 0
space_2 b (c ∷ []) = if b == 0xC2 && (c == 0x85 || c == 0xA0) then 2 else 0
space_2 b (c ∷ d ∷ rest) = if b == 0xC2 && (c == 0x85 || c == 0xA0) then 2 else space_3 b c d

unfoldable pub space_length : Str → ℕ
space_length [] = 0
space_length (b ∷ rest) = if b == b' ' || (leb 9 b && leb b 13) then 1 else space_2 b rest

-- `pending` bytes of a character of whitespace are still to come.
unfoldable pub trim_from : ℕ → Str → Str
unfolding space_length
trim_from pending [] = []
trim_from pending (b ∷ rest) =
    let k = if pending == 0 then space_length (b ∷ rest) else pending in
    let trimmed = trim_from (k - 1) rest in if k == 0 then b ∷ rest else trimmed

unfoldable pub trim_start : Str → Str
unfolding trim_from
trim_start text = trim_from 0 text

abbrev pub is_empty : Str → Bool
is_empty [] = true
is_empty (b ∷ rest) = false

unfoldable pub trim_end : Str → Str
unfolding trim_start
trim_end [] = []
trim_end (b ∷ rest) =
    let trimmed = trim_end rest in if is_empty (trim_start (b ∷ rest)) then [] else b ∷ trimmed

unfoldable pub trim : Str → Str
unfolding trim_start trim_end
trim text = trim_end (trim_start text)

-- The text up to the first character of whitespace, and the rest.
unfoldable pub until_whitespace : Str → Str × Str
unfolding space_length
until_whitespace [] = ([], [])
until_whitespace (b ∷ rest) =
    let (front, tail) = until_whitespace rest in
    if space_length (b ∷ rest) == 0 then (b ∷ front, tail) else ([], b ∷ rest)

abbrev strip_cr : Str → Str
strip_cr [] = []
strip_cr (b ∷ []) = if b == b'\r' then [] else b ∷ []
strip_cr (b ∷ c ∷ rest) = b ∷ strip_cr (c ∷ rest)

-- `lines`, with the line that is being read.
unfoldable pub lines_from : Str → Str → List Str
lines_from line [] = if is_empty line then [] else line ∷ []
lines_from line (b ∷ rest) =
    let later = lines_from (if b == b'\n' then [] else line ++ (b ∷ [])) rest in
    if b == b'\n' then strip_cr line ∷ later else later

unfoldable pub lines : Str → List Str
unfolding lines_from
lines text = lines_from [] text

abbrev pub is_digit : ℕ → Bool
is_digit b = leb b'0' b && leb b b'9'

-- The number that digits stand for; `none` for another byte.
abbrev digits_value : ℕ → Str → Option ℕ
digits_value n [] = some n
digits_value n (b ∷ rest) = if is_digit b then digits_value (n * 10 + (b - b'0')) rest else none

abbrev within : Option ℕ → ℕ → Bool
within none limit = false
within (some n) limit = leb n limit

-- `parse::<i64>().is_ok()`.
unfoldable pub is_i64 : Str → Bool
is_i64 [] = false
is_i64 (b ∷ rest) =
    if b == b'-'
    then not (is_empty rest) && within (digits_value 0 rest) 9_223_372_036_854_775_808
    else if b == b'+'
    then not (is_empty rest) && within (digits_value 0 rest) 9_223_372_036_854_775_807
    else within (digits_value 0 (b ∷ rest)) 9_223_372_036_854_775_807

abbrev pub is_metric_name_start : ℕ → Bool
is_metric_name_start b =
    (leb b'a' b && leb b b'z') || ((leb b'A' b && leb b b'Z') || (b == b'_' || b == b':'))

abbrev pub is_metric_name_continue : ℕ → Bool
is_metric_name_continue b = is_metric_name_start b || is_digit b

-- `u8::is_ascii_whitespace`.
abbrev pub is_ascii_whitespace : ℕ → Bool
is_ascii_whitespace b = b == b' ' || (b == 9 || (b == 10 || (b == 12 || b == 13)))

-- The bytes up to the first that is not of a class, and the rest.
unfoldable pub span : (ℕ → Bool) → Str → Str × Str
span p [] = ([], [])
span p (b ∷ rest) =
    let (front, tail) = span p rest in if p b then (b ∷ front, tail) else ([], b ∷ rest)

abbrev pub starts_a_name : Str → Bool
starts_a_name [] = false
starts_a_name (b ∷ rest) = is_metric_name_start b

unfoldable pub metric_name_prefix : Str → Str
unfolding span
metric_name_prefix line = if starts_a_name line then (span is_metric_name_continue line).0 else []

abbrev pub cons_front : ℕ → Option (Str × Str) → Option (Str × Str)
cons_front b none = none
cons_front b (some (front, tail)) = some (b ∷ front, tail)

-- The scanner's state after a byte that does not end the label set.
abbrev next_quoted : Bool → Bool → ℕ → Bool
next_quoted quoted escaped b =
    if quoted then (if escaped then true else not (b == b'"')) else b == b'"'

abbrev next_escaped : Bool → Bool → ℕ → Bool
next_escaped quoted escaped b = quoted && (not escaped && b == b'\\')

-- The label set after its `{`, up to and with its `}`, and the rest; `none` if it does not end.
unfoldable pub find_label_set_end : Bool → Bool → Str → Option (Str × Str)
find_label_set_end quoted escaped [] = none
find_label_set_end quoted escaped (b ∷ rest) =
    let after =
      find_label_set_end (next_quoted quoted escaped b) (next_escaped quoted escaped b) rest in
    if not quoted && b == b'}' then some (b ∷ [], rest) else cons_front b after

abbrev pub label_set_from : Str → Result (Option Str × Str) Reason
unfolding find_label_set_end
label_set_from rest = elim (find_label_set_end false false rest) [
  | none ↦ err unterminated_label_set
  | some (labels, tail) ↦ ok (some (b'{' ∷ labels), tail)
]

unfoldable pub labels_of : Str → Result (Option Str × Str) Reason
unfolding label_set_from
labels_of [] = ok (none, [])
labels_of (b ∷ rest) = if b == b'{' then label_set_from rest else ok (none, b ∷ rest)

-- Empty, or a comment.
abbrev pub ends : Str → Bool
ends [] = true
ends (b ∷ rest) = b == b'#'

-- What may stand after the value; `none` if it may.
unfoldable pub check_remainder : Str → Option Reason
unfolding trim_start until_whitespace is_i64
check_remainder tail =
    let remainder = trim_start tail in
    let (timestamp, after) = until_whitespace remainder in
    if ends remainder
    then none
    else if not (is_i64 timestamp)
    then some unexpected_after_value
    else if ends (trim_start after)
    then none
    else some unexpected_after_timestamp

abbrev pub starts_with_whitespace : Str → Bool
starts_with_whitespace [] = false
starts_with_whitespace (b ∷ rest) = is_ascii_whitespace b

unfoldable pub value_of : Str → Option Str → Str → Result ParsedSample Reason
unfolding span check_remainder
value_of name labels rest =
    let after_space = (span is_ascii_whitespace rest).1 in
    let (value, tail) = span (λ b. not (is_ascii_whitespace b)) after_space in
    if not (starts_with_whitespace rest)
    then err expected_whitespace
    else if is_empty after_space
    then err value_missing
    else elim (check_remainder tail) [
      | some reason ↦ err reason
      | none ↦ ok (record { name = name; labels = labels; value = value })
    ]

unfoldable pub parse_sample_line : Str → Result ParsedSample Reason
unfolding span labels_of value_of
parse_sample_line line =
    let (name, rest) = span is_metric_name_continue line in
    if is_empty name || not (starts_a_name line)
    then err invalid_metric_name
    else elim (labels_of rest) [
      | err reason ↦ err reason
      | ok (labels, tail) ↦ value_of name labels tail
    ]
