-- ===== src/Usage/Tests.antt =====
-- A body of a chat completion through the scanner, and the theorems at concrete bodies.
use mistralrs_proxy.Prelude.{
  ℕ, zero, ◌<◌, ◌≡◌, refl, Option, none, some, List, [], ◌∷◌, arith, length, All,
}
use mistralrs_proxy.Prelude.Monad.{returned}
use mistralrs_proxy.Usage.{
  Usage, UsageFields, UsageSniffer, searching, max_object_bytes, is_ascii_whitespace,
  is_informative, usage_of, keep_usage, new, feed, feed_byte, feed_state, capture_byte,
  close_or_cap, finish_object,
}
use mistralrs_proxy.Usage.Bounds.{IsValid, feed-new-IsValid}
use mistralrs_proxy.Usage.Capture.{
  BracesTail, last, string, other, quote, char, IsSpace, member, waiting, feed-usage_object,
}

-- A parser that accepts every object and counts its bytes.
abbrev some_fields : List ℕ → Option UsageFields
some_fields o = some (record {
  prompt_tokens = some (length o);
  completion_tokens = none;
  input_tokens = none;
  output_tokens = none;
  total_tokens = none;
  prompt_tokens_details = none;
  input_tokens_details = none;
})

-- {"a}":1}
abbrev object_tail : List ℕ
object_tail = b'"' ∷ b'a' ∷ b'}' ∷ b'"' ∷ b':' ∷ b'1' ∷ b'}' ∷ []

object_tail-BracesTail : BracesTail zero object_tail
object_tail-BracesTail =
    string {s = b'a' ∷ b'}' ∷ b'"' ∷ []} {t = b':' ∷ b'1' ∷ b'}' ∷ []}
      (char b'a' (λ e. omega arith) (λ e. omega arith)
        (char b'}' (λ e. omega arith) (λ e. omega arith) quote))
      (other b':' (λ e. omega arith) (λ e. omega arith) (λ e. omega arith)
        (other b'1' (λ e. omega arith) (λ e. omega arith) (λ e. omega arith) last))
      refl

feed-new-IsValid_example :
    (u : UsageSniffer) × (feed some_fields (b'"' ∷ b'u' ∷ []) new ≡ returned tt u)
    × IsValid u
    × (length u.object < max_object_bytes)
feed-new-IsValid_example = feed-new-IsValid some_fields (b'"' ∷ b'u' ∷ [])

spaces : All IsSpace (32 ∷ [])
unfolding is_ascii_whitespace
spaces = (refl, tt)

feed-usage_object_example :
    feed some_fields (member [] (32 ∷ []) (b'{' ∷ object_tail)) (waiting (searching 1) [] none)
    ≡ returned tt (waiting (searching 0) [] (keep_usage (some_fields (b'{' ∷ object_tail)) none))
feed-usage_object_example =
    feed-usage_object some_fields 1 [] (32 ∷ []) object_tail [] none (omega arith) tt spaces
      object_tail-BracesTail (omega arith)

abbrev eight_tokens : Usage
eight_tokens = record {
  input_tokens = some 8;
  output_tokens = none;
  total_tokens = none;
  cached_tokens = none;
}

body_run :
    feed some_fields (member [] (32 ∷ []) (b'{' ∷ object_tail)) new
    ≡ returned tt (waiting (searching 0) [] (some eight_tokens))
unfolding feed feed_byte feed_state capture_byte close_or_cap finish_object is_ascii_whitespace new
    usage_of is_informative
body_run = refl
