-- ===== src/Usage/Capture.antt =====
-- Usage members of a JSON body and what the scanner makes of them (src/usage.rs). The text of a JSON
-- object is described without the scanner, by its strings, escapes and braces.
use mistralrs_proxy.Prelude.{
  ℕ, zero, suc, ◌+◌, ◌≤◌, ◌<◌, ◌≡◌, refl, ◌≢◌, Bool, true, false, Option, List, [], ◌∷◌, ◌++◌,
  arith, length, length-append, ap, ◌∙◌, All,
}
use mistralrs_proxy.Prelude.Monad.{returned}
use mathlib.Core.List.{append_assoc}
use mistralrs_proxy.Usage.{
  Usage, UsageFields, State, searching, awaiting_colon, awaiting_value, capturing, UsageSniffer,
  max_object_bytes, needle, null, is_ascii_whitespace, keep_usage, u32_mod, capture_byte,
  finish_object, close_or_cap, feed_state, feed_byte, feed,
}
use mistralrs_proxy.Usage.Bounds.{feed-append}

-- The rest of a JSON string, its closing quote included.
pub data StringTail : List ℕ → Type 0 where
  quote : StringTail (b'"' ∷ [])
  escape : {t : List ℕ} (b : ℕ) → StringTail t → StringTail (92 ∷ b ∷ t)
  char : {t : List ℕ} (b : ℕ) → b ≢ b'"' → b ≢ 92 → StringTail t → StringTail (b ∷ t)

-- The rest of an object from a place outside strings, `suc d` braces deep, to the brace that closes it.
pub data BracesTail : ℕ → List ℕ → Type 0 where
  last : BracesTail zero (b'}' ∷ [])
  close : {d : ℕ} {t : List ℕ} → BracesTail d t → BracesTail (suc d) (b'}' ∷ t)
  open_brace : {d : ℕ} {t : List ℕ} → BracesTail (suc d) t → BracesTail d (b'{' ∷ t)
  string :
      {d : ℕ} {s t u : List ℕ}
      → StringTail s
      → BracesTail d t
      → u ≡ b'"' ∷ (s ++ t)
      → BracesTail d u
  other :
      {d : ℕ} {t : List ℕ} (b : ℕ)
      → b ≢ b'"'
      → b ≢ b'{'
      → b ≢ b'}'
      → BracesTail d t
      → BracesTail d (b ∷ t)

abbrev pub IsSpace : ℕ → Type 0
IsSpace b = is_ascii_whitespace b ≡ true

-- "usage", spaces, a colon, spaces and what follows.
abbrev pub member : List ℕ → List ℕ → List ℕ → List ℕ
member ws vs rest = needle ++ (ws ++ (b':' ∷ (vs ++ rest)))

abbrev pub waiting : State → List ℕ → Option Usage → UsageSniffer
waiting st o l = record { state = st; object = o; latest = l }

module _ (parse : List ℕ → Option UsageFields) where
  abbrev capture : ℕ → Bool → List ℕ → Option Usage → UsageSniffer
  capture d in_string o l = record {
    state = capturing (suc d) in_string false;
    object = o;
    latest = l;
  }

  -- One byte inside an object that stays open.
  abbrev Goes : ℕ → UsageSniffer → UsageSniffer → Type 0
  Goes b s t = feed_byte parse b s ≡ returned tt t

  string_char :
      (d b : ℕ) (o : List ℕ) (l : Option Usage)
      → b ≢ b'"'
      → b ≢ 92
      → length o + 1 < max_object_bytes
      → Goes b (capture d true o l) (capture d true (o ++ b ∷ []) l)
  unfolding feed_byte feed_state capture_byte close_or_cap
  string_char d b o l p q h = ground (arith, length-append o (b ∷ []))

  string_quote :
      (d : ℕ) (o : List ℕ) (l : Option Usage)
      → length o + 1 < max_object_bytes
      → Goes b'"' (capture d true o l) (capture d false (o ++ b'"' ∷ []) l)
  unfolding feed_byte feed_state capture_byte close_or_cap
  string_quote d o l h = ground (arith, length-append o (b'"' ∷ []))

  plain_byte :
      (d b : ℕ) (o : List ℕ) (l : Option Usage)
      → b ≢ b'"'
      → b ≢ b'{'
      → b ≢ b'}'
      → length o + 1 < max_object_bytes
      → Goes b (capture d false o l) (capture d false (o ++ b ∷ []) l)
  unfolding feed_byte feed_state capture_byte close_or_cap
  plain_byte d b o l p q r h = ground (arith, length-append o (b ∷ []))

  plain_quote :
      (d : ℕ) (o : List ℕ) (l : Option Usage)
      → length o + 1 < max_object_bytes
      → Goes b'"' (capture d false o l) (capture d true (o ++ b'"' ∷ []) l)
  unfolding feed_byte feed_state capture_byte close_or_cap
  plain_quote d o l h = ground (arith, length-append o (b'"' ∷ []))

  plain_open :
      (d : ℕ) (o : List ℕ) (l : Option Usage)
      → d + 2 < u32_mod
      → length o + 1 < max_object_bytes
      → Goes b'{' (capture d false o l) (capture (suc d) false (o ++ b'{' ∷ []) l)
  unfolding feed_byte feed_state capture_byte close_or_cap
  plain_open d o l p h = ground (arith, length-append o (b'{' ∷ []))

  plain_close :
      (d : ℕ) (o : List ℕ) (l : Option Usage)
      → d + 2 < u32_mod
      → length o + 1 < max_object_bytes
      → Goes b'}' (capture (suc d) false o l) (capture d false (o ++ b'}' ∷ []) l)
  unfolding feed_byte feed_state capture_byte close_or_cap
  plain_close d o l p h = ground (arith, length-append o (b'}' ∷ []))

  plain_last :
      (o : List ℕ) (l : Option Usage)
      → Goes b'}'
          (capture zero false o l)
          (finish_object parse (capture zero false (o ++ b'}' ∷ []) l))
  unfolding feed_byte feed_state capture_byte close_or_cap finish_object
  plain_last o l = ground arith

  string_escape :
      (d b : ℕ) (o : List ℕ) (l : Option Usage)
      → length o + 2 < max_object_bytes
      → feed parse (92 ∷ b ∷ []) (capture d true o l)
        ≡ returned tt (capture d true (o ++ 92 ∷ b ∷ []) l)
  unfolding feed feed_byte feed_state capture_byte close_or_cap
  string_escape d b o l h = ground (
    arith,
    length-append o (92 ∷ []),
    length-append (o ++ 92 ∷ []) (b ∷ []),
    append_assoc o (92 ∷ []) (b ∷ []),
  )

  -- To go on after some bytes, and after one.
  then_feed :
      (xs ys : List ℕ) (s t : UsageSniffer)
      → feed parse xs s ≡ returned tt t
      → feed parse (xs ++ ys) s ≡ feed parse ys t
  then_feed xs ys s t e = rw (feed-append parse xs ys s) (rw e)

  then_byte :
      (b : ℕ) (ys : List ℕ) (s t : UsageSniffer)
      → Goes b s t
      → feed parse (b ∷ ys) s ≡ feed parse ys t
  unfolding feed
  then_byte b ys s t e = rw e

  feed_string :
      {s : List ℕ} (d : ℕ) (o : List ℕ) (l : Option Usage)
      → StringTail s
      → length o + length s < max_object_bytes
      → feed parse s (capture d true o l) ≡ returned tt (capture d false (o ++ s) l)
  unfolding feed
  feed_string d o l quote h = then_byte _ [] _ _ (string_quote d o l (omega arith))
  feed_string d o l (escape {t} b v) h =
      then_feed (92 ∷ b ∷ []) t _ _ (string_escape d b o l (omega arith))
      ∙ feed_string d (o ++ 92 ∷ b ∷ []) l v (omega (arith, length-append o (92 ∷ b ∷ [])))
      ∙ rw (append_assoc o (92 ∷ b ∷ []) t)
  feed_string d o l (char {t} b p q v) h =
      then_byte b t _ _ (string_char d b o l p q (omega arith))
      ∙ feed_string d (o ++ b ∷ []) l v (omega (arith, length-append o (b ∷ [])))
      ∙ rw (append_assoc o (b ∷ []) t)

  -- The scanner when it has read the object `o` to its end.
  abbrev finished : List ℕ → Option Usage → UsageSniffer
  finished o l = record { state = searching 0; object = []; latest = keep_usage (parse o) l }

  BracesTail-pos : {d : ℕ} {t : List ℕ} → BracesTail d t → 0 < length t
  BracesTail-pos last = omega arith
  BracesTail-pos (close v) = omega arith
  BracesTail-pos (open_brace v) = omega arith
  BracesTail-pos (string w v e) = rw e (omega arith)
  BracesTail-pos (other b p q r v) = omega arith

  feed_braces :
      {d : ℕ} {t : List ℕ} (o : List ℕ) (l : Option Usage)
      → BracesTail d t
      → d < length o
      → length o + length t ≤ max_object_bytes
      → feed parse t (capture d false o l) ≡ returned tt (finished (o ++ t) l)
  unfolding feed finish_object
  feed_braces o l last p h = then_byte _ [] _ _ (plain_last o l)
  feed_braces o l (close {d} {t} v) p h =
      then_byte b'}' t _ _ (plain_close d o l (omega arith) (omega (arith, BracesTail-pos v)))
      ∙ feed_braces (o ++ b'}' ∷ []) l v (omega (arith, length-append o (b'}' ∷ [])))
          (omega (arith, length-append o (b'}' ∷ [])))
      ∙ rw (append_assoc o (b'}' ∷ []) t)
  feed_braces o l (open_brace {d} {t} v) p h =
      then_byte b'{' t _ _ (plain_open d o l (omega arith) (omega (arith, BracesTail-pos v)))
      ∙ feed_braces (o ++ b'{' ∷ []) l v (omega (arith, length-append o (b'{' ∷ [])))
          (omega (arith, length-append o (b'{' ∷ [])))
      ∙ rw (append_assoc o (b'{' ∷ []) t)
  feed_braces o l (string {d} {s} {t} {u} w v e) p h =
      let n : length u ≡ length s + length t + 1 = omega (arith, ap length e, length-append s t) in
      let q = length-append o (b'"' ∷ []) in
      rw e (
        then_byte b'"' (s ++ t) _ _ (plain_quote d o l (omega (arith, BracesTail-pos v)))
        ∙ then_feed s t _ _ (feed_string d (o ++ b'"' ∷ []) l w (omega (arith, BracesTail-pos v)))
        ∙ feed_braces ((o ++ b'"' ∷ []) ++ s) l v (omega (arith, length-append (o ++ b'"' ∷ []) s))
            (omega (arith, length-append (o ++ b'"' ∷ []) s))
        ∙ rw (append_assoc (o ++ b'"' ∷ []) s t, append_assoc o (b'"' ∷ []) (s ++ t)))
  feed_braces o l (other {d} {t} b x y z v) p h =
      then_byte b t _ _ (plain_byte d b o l x y z (omega (arith, BracesTail-pos v)))
      ∙ feed_braces (o ++ b ∷ []) l v (omega (arith, length-append o (b ∷ [])))
          (omega (arith, length-append o (b ∷ [])))
      ∙ rw (append_assoc o (b ∷ []) t)

  feed-needle :
      (m : ℕ) (o : List ℕ) (l : Option Usage)
      → m < 6
      → feed parse needle (record { state = searching m; object = o; latest = l })
        ≡ returned tt (record { state = awaiting_colon; object = o; latest = l })
  unfolding feed feed_byte feed_state
  feed-needle zero o l h = refl
  feed-needle (suc zero) o l h = refl
  feed-needle (suc (suc zero)) o l h = refl
  feed-needle (suc (suc (suc zero))) o l h = refl
  feed-needle (suc (suc (suc (suc zero)))) o l h = refl
  feed-needle (suc (suc (suc (suc (suc zero))))) o l h = refl
  feed-needle (suc (suc (suc (suc (suc (suc m)))))) o l h = absurd (omega arith)

  space_before_colon :
      (b : ℕ) (o : List ℕ) (l : Option Usage)
      → is_ascii_whitespace b ≡ true
      → Goes b (waiting awaiting_colon o l) (waiting awaiting_colon o l)
  unfolding feed_byte feed_state is_ascii_whitespace
  space_before_colon b o l h = ground arith

  space_before_value :
      (b : ℕ) (o : List ℕ) (l : Option Usage)
      → is_ascii_whitespace b ≡ true
      → Goes b (waiting awaiting_value o l) (waiting awaiting_value o l)
  unfolding feed_byte feed_state is_ascii_whitespace
  space_before_value b o l h = ground arith

  -- Spaces leave a scanner alone that each of them leaves alone.
  feed_spaces :
      (ws : List ℕ) (s : UsageSniffer)
      → ((b : ℕ) → is_ascii_whitespace b ≡ true → Goes b s s)
      → All IsSpace ws
      → feed parse ws s ≡ returned tt s
  unfolding feed
  feed_spaces [] s k h = refl
  feed_spaces (b ∷ ws) s k h = then_byte b ws s s (k b h.0) ∙ feed_spaces ws s k h.1

  colon :
      (o : List ℕ) (l : Option Usage)
      → Goes b':' (waiting awaiting_colon o l) (waiting awaiting_value o l)
  unfolding feed_byte feed_state
  colon o l = refl

  opening :
      (o : List ℕ) (l : Option Usage)
      → Goes b'{' (waiting awaiting_value o l) (capture zero false (b'{' ∷ []) l)
  unfolding feed_byte feed_state
  opening o l = refl

  feed-null :
      (o : List ℕ) (l : Option Usage)
      → feed parse null (waiting awaiting_value o l) ≡ returned tt (waiting (searching 0) o l)
  unfolding feed feed_byte feed_state
  feed-null o l = refl

  -- The field name, spaces, the colon and spaces, from a place where no needle is half read.
  feed_name :
      (m : ℕ) (ws vs rest : List ℕ) (o : List ℕ) (l : Option Usage)
      → m < 6
      → All IsSpace ws
      → All IsSpace vs
      → feed parse (member ws vs rest) (waiting (searching m) o l)
        ≡ feed parse rest (waiting awaiting_value o l)
  feed_name m ws vs rest o l h p q =
      then_feed needle (ws ++ (b':' ∷ (vs ++ rest))) _ _ (feed-needle m o l h)
      ∙ then_feed ws (b':' ∷ (vs ++ rest)) _ _ (feed_spaces ws _ (λ b. space_before_colon b o l) p)
      ∙ then_byte b':' (vs ++ rest) _ _ (colon o l)
      ∙ then_feed vs rest _ _ (feed_spaces vs _ (λ b. space_before_value b o l) q)

  -- A `usage` member whose value is a JSON object of at most `MAX_OBJECT_BYTES` bytes, read from
  -- where no part of the needle but at most its first five bytes is matched: exactly that object is
  -- given to the parser, what it yields is kept if it is informative, and the search starts anew.
  pub feed-usage_object :
      (m : ℕ) (ws vs t : List ℕ) (o : List ℕ) (l : Option Usage)
      → m < 6
      → All IsSpace ws
      → All IsSpace vs
      → BracesTail zero t
      → length t < max_object_bytes
      → feed parse (member ws vs (b'{' ∷ t)) (waiting (searching m) o l)
        ≡ returned tt (waiting (searching 0) [] (keep_usage (parse (b'{' ∷ t)) l))
  feed-usage_object m ws vs t o l h p q v n =
      feed_name m ws vs (b'{' ∷ t) o l h p q
      ∙ then_byte b'{' t _ _ (opening o l)
      ∙ feed_braces (b'{' ∷ []) l v (omega arith) (omega arith)

  -- A `usage` member that is `null`, as each chunk of a stream but the last has it, leaves the
  -- counts alone, and the search starts anew.
  pub feed-usage_null :
      (m : ℕ) (ws vs : List ℕ) (o : List ℕ) (l : Option Usage)
      → m < 6
      → All IsSpace ws
      → All IsSpace vs
      → feed parse (member ws vs null) (waiting (searching m) o l)
        ≡ returned tt (waiting (searching 0) o l)
  feed-usage_null m ws vs o l h p q = feed_name m ws vs null o l h p q ∙ feed-null o l
