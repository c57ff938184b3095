-- ===== src/Usage.antt =====
-- The token accounting of a response body (src/usage.rs): a byte scanner that keeps the last `usage`
-- object. `serde_json::from_slice::<UsageFields>` is the parameter `parse`. An index out of range
-- panics; the `u32` depth wraps.
pub mod Bounds
pub mod Capture
mod Tests
use mistralrs_proxy.Prelude.{
  ℕ, zero, suc, ◌+◌, ◌-◌, ◌%◌, Bool, true, false, ◌&&◌, ◌||◌, Option, none, some, List, [], ◌∷◌,
  ◌++◌, ltb, leb, ◌==◌, if◌then◌else◌, length,
}
use mistralrs_proxy.Prelude.Monad.{returned, panicked, Method, ◌>>=◌, ◌>>◌, pure}

abbrev pub max_object_bytes : ℕ
max_object_bytes = 4096

-- "usage" in its quotes.
abbrev pub needle : List ℕ
needle = b'"' ∷ b'u' ∷ b's' ∷ b'a' ∷ b'g' ∷ b'e' ∷ b'"' ∷ []

abbrev pub null : List ℕ
null = b'n' ∷ b'u' ∷ b'l' ∷ b'l' ∷ []

pub record Usage : Type 0 where
  pub input_tokens : Option ℕ
  pub output_tokens : Option ℕ
  pub total_tokens : Option ℕ
  pub cached_tokens : Option ℕ

abbrev is_some {ℓ} : {A : Type ℓ} → Option A → Bool
is_some none = false
is_some (some a) = true

unfoldable pub is_informative : Usage → Bool
is_informative u = is_some u.input_tokens || is_some u.output_tokens || is_some u.total_tokens

pub record TokensDetails : Type 0 where
  pub cached_tokens : Option ℕ

pub record UsageFields : Type 0 where
  pub prompt_tokens : Option ℕ
  pub completion_tokens : Option ℕ
  pub input_tokens : Option ℕ
  pub output_tokens : Option ℕ
  pub total_tokens : Option ℕ
  pub prompt_tokens_details : Option TokensDetails
  pub input_tokens_details : Option TokensDetails

-- `Option::or`.
abbrev or_else {ℓ} : {A : Type ℓ} → Option A → Option A → Option A
or_else none b = b
or_else (some a) b = some a

abbrev cached_of : Option TokensDetails → Option ℕ
cached_of none = none
cached_of (some d) = d.cached_tokens

unfoldable pub usage_of : UsageFields → Usage
usage_of f = record {
  input_tokens = or_else f.input_tokens f.prompt_tokens;
  output_tokens = or_else f.output_tokens f.completion_tokens;
  total_tokens = f.total_tokens;
  cached_tokens = cached_of (or_else f.prompt_tokens_details f.input_tokens_details);
}

pub data State : Type 0 where
  searching : ℕ → State
  awaiting_colon awaiting_value : State
  skipping_null : ℕ → State
  -- depth, in_string, escaped
  capturing : ℕ → Bool → Bool → State

pub record UsageSniffer : Type 0 where
  pub state : State
  pub object : List ℕ
  pub latest : Option Usage

unfoldable pub new : UsageSniffer
new = record { state = searching 0; object = []; latest = none }

abbrev pub byte_at : List ℕ → ℕ → Option ℕ
byte_at [] i = none
byte_at (b ∷ bs) zero = some b
byte_at (b ∷ bs) (suc i) = byte_at bs i

-- `u8::is_ascii_whitespace`.
unfoldable pub is_ascii_whitespace : ℕ → Bool
is_ascii_whitespace b = b == 32 || b == 9 || b == 10 || b == 12 || b == 13

-- `usize::from(byte == b'"')`.
abbrev pub quote_matched : ℕ → ℕ
quote_matched b = if b == b'"' then 1 else 0

unfoldable pub restart : ℕ → UsageSniffer → UsageSniffer
restart b s = record s { object = []; state = searching (quote_matched b) }

-- The body of `if let Ok(fields)`.
abbrev pub keep_usage : Option UsageFields → Option Usage → Option Usage
keep_usage none latest = latest
keep_usage (some f) latest = if is_informative (usage_of f) then some (usage_of f) else latest

abbrev pub u32_mod : ℕ
u32_mod = 4294967296

-- The arm of `Capturing`: depth, in_string and escaped after the byte.
abbrev string_after : ℕ → Bool → ℕ → State
string_after b true depth = capturing depth true false
string_after b false depth =
    if b == 92
    then capturing depth true true
    else if b == b'"'
    then capturing depth false false
    else capturing depth true false

abbrev plain_after : ℕ → Bool → ℕ → State
plain_after b escaped depth =
    if b == b'"'
    then capturing depth true escaped
    else if b == b'{'
    then capturing ((depth + 1) % u32_mod) false escaped
    else if b == b'}'
    then capturing ((depth + 4294967295) % u32_mod) false escaped
    else capturing depth false escaped

unfoldable pub capture_byte : ℕ → ℕ → Bool → Bool → State
capture_byte b depth true escaped = string_after b escaped depth
capture_byte b depth false escaped = plain_after b escaped depth

abbrev pub depth_of : State → ℕ
depth_of (capturing depth in_string escaped) = depth
depth_of _ = 0

module _ (parse : List ℕ → Option UsageFields) where
  unfoldable pub finish_object : UsageSniffer → UsageSniffer
  finish_object s = record {
    state = searching 0;
    object = [];
    latest = keep_usage (parse s.object) s.latest;
  }

  -- The end of the arm: `s` has the byte pushed and its counters updated.
  unfoldable pub close_or_cap : UsageSniffer → UsageSniffer
  close_or_cap s =
      if depth_of s.state == 0
      then finish_object s
      else if leb max_object_bytes (length s.object)
      then record s { object = []; state = searching 0 }
      else s

  unfoldable pub feed_state : State → ℕ → Method UsageSniffer (Unit {0})
  feed_state (searching matched) b s = elim (byte_at needle matched) [
    | none ↦ panicked s
    | some expected ↦ returned tt (record s {
      state =
          if b == expected
          then (if matched + 1 == length needle then awaiting_colon else searching (matched + 1))
          else searching (quote_matched b);
    })
  ]
  feed_state awaiting_colon b s = returned tt (
      if b == b':'
      then record s { state = awaiting_value }
      else if is_ascii_whitespace b
      then s
      else restart b s)
  feed_state awaiting_value b s = returned tt (
      if b == b'{'
      then record s { object = b'{' ∷ []; state = capturing 1 false false }
      else if b == b'n'
      then record s { state = skipping_null 1 }
      else if is_ascii_whitespace b
      then s
      else restart b s)
  feed_state (skipping_null matched) b s = elim (byte_at null matched) [
    | none ↦ panicked s
    | some expected ↦ returned tt (
        if b == expected
        then record s {
          state = if matched + 1 == length null then searching 0 else skipping_null (matched + 1);
        }
        else restart b s)
  ]
  feed_state (capturing depth in_string escaped) b s = returned tt (
      close_or_cap
        (record s { state = capture_byte b depth in_string escaped; object = s.object ++ b ∷ [] }))

  unfoldable pub feed_byte : ℕ → Method UsageSniffer (Unit {0})
  feed_byte b s = feed_state s.state b s

  unfoldable pub feed : List ℕ → Method UsageSniffer (Unit {0})
  feed [] = pure tt
  feed (b ∷ bs) = do feed_byte b; feed bs
