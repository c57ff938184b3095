-- ===== src/Telemetry/Sample.antt =====
-- Samples read back from their text (src/telemetry.rs): a name, a label set with quoted strings, and a
-- value.
use mistralrs_proxy.Prelude.{
  ℕ, ◌≡◌, refl, ap, ◌∙◌, ◌≢◌, Bool, true, false, not, Option, none, some, List, [], ◌∷◌, ◌++◌,
  arith, Str, All,
}
use mistralrs_proxy.Backend.Slot.{ok}
use mistralrs_proxy.Telemetry.Line.{
  span, is_metric_name_start, is_metric_name_continue, is_ascii_whitespace, find_label_set_end,
  labels_of, is_empty, starts_with_whitespace, check_remainder, trim_start, trim_from,
  until_whitespace, value_of, parse_sample_line,
}

-- A byte of a quoted string, alone or behind a backslash.
pub data QuotedByte : Type 0 where
  literal escaped : ℕ → QuotedByte

-- A label set is a sequence of bytes outside quotes and of quoted strings.
pub data Piece : Type 0 where
  plain : ℕ → Piece
  quoted : List QuotedByte → Piece

abbrev pub quoted_text : List QuotedByte → Str → Str
quoted_text [] tail = b'"' ∷ tail
quoted_text (literal b ∷ bs) tail = b ∷ quoted_text bs tail
quoted_text (escaped b ∷ bs) tail = b'\\' ∷ b ∷ quoted_text bs tail

abbrev pub label_text : List Piece → Str → Str
label_text [] tail = b'}' ∷ tail
label_text (plain b ∷ ps) tail = b ∷ label_text ps tail
label_text (quoted bs ∷ ps) tail = b'"' ∷ quoted_text bs (label_text ps tail)

abbrev IsLiteral : QuotedByte → Type 0
IsLiteral (literal b) = (b ≢ b'"') × (b ≢ b'\\')
IsLiteral (escaped b) = Unit

abbrev pub IsPiece : Piece → Type 0
IsPiece (plain b) = (b ≢ b'"') × (b ≢ b'}')
IsPiece (quoted bs) = All IsLiteral bs

find_quoted :
    (bs : List QuotedByte) (tail front after : Str)
    → All IsLiteral bs
    → find_label_set_end false false tail ≡ some (front, after)
    → find_label_set_end true false (quoted_text bs tail) ≡ some (quoted_text bs front, after)
unfolding find_label_set_end
find_quoted [] tail front after a e = ground arith
find_quoted (literal b ∷ bs) tail front after (q, a) e =
    ground (arith, find_quoted bs tail front after a e)
find_quoted (escaped b ∷ bs) tail front after (q, a) e =
    ground (arith, find_quoted bs tail front after a e)

-- A label set is read up to its closing brace, whatever its quoted strings hold.
pub find_label_set_end-label_text :
    (ps : List Piece) (tail : Str)
    → All IsPiece ps
    → find_label_set_end false false (label_text ps tail) ≡ some (label_text ps [], tail)
unfolding find_label_set_end
find_label_set_end-label_text [] tail a = ground arith
find_label_set_end-label_text (plain b ∷ ps) tail (p, a) =
    ground (arith, find_label_set_end-label_text ps tail a)
find_label_set_end-label_text (quoted bs ∷ ps) tail (p, a) = ground (
  arith,
  find_quoted bs (label_text ps tail) (label_text ps []) tail p
      (find_label_set_end-label_text ps tail a),
)

span_past :
    (p : ℕ → Bool) (xs : Str) (b : ℕ) (rest : Str)
    → All (λ x. p x ≡ true) xs
    → p b ≡ false
    → span p (xs ++ (b ∷ rest)) ≡ (xs, b ∷ rest)
unfolding span
span_past p [] b rest a n = ground arith
span_past p (x ∷ xs) b rest (q, a) n = let e = span_past p xs b rest a n in ground arith

span_end : (p : ℕ → Bool) (xs : Str) → All (λ x. p x ≡ true) xs → span p xs ≡ (xs, [])
unfolding span
span_end p [] a = refl
span_end p (x ∷ xs) (q, a) = let e = span_end p xs a in ground arith

value_of-parts :
    (name : Str) (labels : Option Str) (rest after value tail : Str)
    → starts_with_whitespace rest ≡ true
    → (span is_ascii_whitespace rest).1 ≡ after
    → is_empty after ≡ false
    → span (λ b. not (is_ascii_whitespace b)) after ≡ (value, tail)
    → check_remainder tail ≡ none
    → value_of name labels rest ≡ ok (record { name = name; labels = labels; value = value })
unfolding value_of
value_of-parts name labels rest after value tail s a n v c =
    let v' : span (λ b. not (is_ascii_whitespace b)) (span is_ascii_whitespace rest).1
        ≡ (value, tail) =
      ap (span (λ b. not (is_ascii_whitespace b))) a ∙ v in
    let n' : is_empty (span is_ascii_whitespace rest).1 ≡ false = ap is_empty a ∙ n in
    let first : (span (λ b. not (is_ascii_whitespace b)) (span is_ascii_whitespace rest).1).0
        ≡ value =
      ap (λ (t : Str × Str). t.0) v' in
    rw s (
      rw n'
        (rw v' (rw c (ap (λ x. ok (record { name = name; labels = labels; value = x })) first))))

-- A value alone, after one space.
value_of-text :
    (name : Str) (labels : Option Str) (v : ℕ) (vs : Str)
    → All (λ b. not (is_ascii_whitespace b) ≡ true) (v ∷ vs)
    → value_of name labels (b' ' ∷ v ∷ vs)
      ≡ ok (record { name = name; labels = labels; value = v ∷ vs })
unfolding check_remainder trim_start trim_from until_whitespace
value_of-text name labels v vs (first, rest) =
    value_of-parts name labels (b' ' ∷ v ∷ vs) (v ∷ vs) (v ∷ vs) [] refl
      (ap (λ (t : Str × Str). t.1)
        (span_past is_ascii_whitespace (b' ' ∷ []) v vs (refl, tt) (ground arith)))
      refl (span_end (λ b. not (is_ascii_whitespace b)) (v ∷ vs) (first, rest)) refl

-- A sample with a label set is read back: its name, its labels with their braces, and its value.
pub parse_sample_line-text :
    (n : ℕ) (name : Str) (ps : List Piece) (v : ℕ) (value : Str)
    → is_metric_name_start n ≡ true
    → All (λ b. is_metric_name_continue b ≡ true) name
    → All IsPiece ps
    → All (λ b. not (is_ascii_whitespace b) ≡ true) (v ∷ value)
    → parse_sample_line (n ∷ name ++ (b'{' ∷ label_text ps (b' ' ∷ v ∷ value)))
      ≡ ok (record { name = n ∷ name; labels = some (b'{' ∷ label_text ps []); value = v ∷ value })
unfolding parse_sample_line labels_of
parse_sample_line-text n name ps v value start rest good nonblank =
    let spanned : span is_metric_name_continue
          (n ∷ name ++ (b'{' ∷ label_text ps (b' ' ∷ v ∷ value)))
        ≡ (n ∷ name, b'{' ∷ label_text ps (b' ' ∷ v ∷ value)) =
      span_past is_metric_name_continue (n ∷ name) b'{' (label_text ps (b' ' ∷ v ∷ value))
        (ground arith, rest) refl in
    let labelled = find_label_set_end-label_text ps (b' ' ∷ v ∷ value) good in
    let valued = value_of-text (n ∷ name) (some (b'{' ∷ label_text ps [])) v value nonblank in
    let named = ap (λ (t : Str × Str). t.0) spanned in
    rw spanned (
      rw start (
        rw labelled (
          ap (λ x. value_of x (some (b'{' ∷ label_text ps [])) (b' ' ∷ v ∷ value)) named ∙ valued)))
