-- ===== src/Keys/Shape.antt =====
-- The shape `eb_<identifier>_<secret>` of a key (src/keys.rs).
use mistralrs_proxy.Prelude.{
  ℕ, zero, suc, ◌+◌, ◌≡◌, ◌↔◌, refl, true, false, some, [], ◌∷◌, ◌++◌, arith, ◌==◌, length,
  length-append, Str, Option-cases, Bool-cases, inl, inr, ap, ◌∙◌, ==_iff,
}
use mistralrs_proxy.Keys.{
  identifier_len, secret_len, key_prefix, is_base64_segment, strip_prefix, take, drop, segments,
  identifier_of, split_at, check_parts, starts_char,
}
use mistralrs_proxy.Prelude.Monad.{returned, panicked}

-- The text of a key, as `KeyRecord::generate` formats it.
unfoldable pub key_text : Str → Str → Str
key_text identifier secret = key_prefix ++ (b'_' ∷ (identifier ++ (b'_' ∷ secret)))

strip_prefix-append : (p s : Str) → strip_prefix p (p ++ s) ≡ some s
unfolding strip_prefix
strip_prefix-append [] s = refl
strip_prefix-append (x ∷ xs) s = ground (arith, strip_prefix-append xs s)

strip_prefix-some : (p s : Str) {r : Str} → strip_prefix p s ≡ some r → s ≡ p ++ r
unfolding strip_prefix
strip_prefix-some [] s e = ground arith
strip_prefix-some (x ∷ xs) [] e = cc
strip_prefix-some (x ∷ xs) (y ∷ ys) {r} e = elim (Bool-cases (x == y)) [
  | inl same ↦ ground (arith, strip_prefix-some xs ys {r = r})
  | inr other ↦ ground arith
]

take-append : (n : ℕ) (a b : Str) → length a ≡ n → take n (a ++ b) ≡ a
unfolding take
take-append zero [] b h = refl
take-append zero (x ∷ a) b h = absurd (omega arith)
take-append (suc n) [] b h = absurd (omega arith)
take-append (suc n) (x ∷ a) b h = ap (λ t. x ∷ t) (take-append n a b (omega arith))

drop-append : (n : ℕ) (a b : Str) → length a ≡ n → drop n (a ++ b) ≡ b
unfolding drop
drop-append zero [] b h = refl
drop-append zero (x ∷ a) b h = absurd (omega arith)
drop-append (suc n) [] b h = absurd (omega arith)
drop-append (suc n) (x ∷ a) b h = drop-append n a b (omega arith)

take-drop : (n : ℕ) (s : Str) → s ≡ take n s ++ drop n s
unfolding take drop
take-drop zero s = refl
take-drop (suc n) [] = refl
take-drop (suc n) (b ∷ bs) = ap (λ t. b ∷ t) (take-drop n bs)

segment_length : (s : Str) (n : ℕ) → is_base64_segment s n ≡ true → length s ≡ n
unfolding is_base64_segment
segment_length s n h = ground arith

segments-append :
    (identifier secret : Str)
    → is_base64_segment identifier identifier_len ≡ true
    → is_base64_segment secret secret_len ≡ true
    → segments (identifier ++ (b'_' ∷ secret)) ≡ returned (some identifier) tt
unfolding segments split_at check_parts
segments-append identifier secret h k =
    let a = segment_length identifier identifier_len h in
    let b = segment_length secret secret_len k in
    let n : (length (identifier ++ (b'_' ∷ secret)) == identifier_len + 1 + secret_len) ≡ true =
      (==_iff _ _).1 (omega (arith, length-append identifier (b'_' ∷ secret))) in
    rw
      (
        n,
        take-append identifier_len identifier (b'_' ∷ secret) a,
        drop-append identifier_len identifier (b'_' ∷ secret) a,
        strip_prefix-append (b'_' ∷ []) secret,
        h,
        k,
      )
      refl

-- A key of the issued shape has its identifier read back, also where its parts hold underscores.
pub identifier_of-key_text :
    (identifier secret : Str)
    → is_base64_segment identifier identifier_len ≡ true
    → is_base64_segment secret secret_len ≡ true
    → identifier_of (key_text identifier secret) ≡ returned (some identifier) tt
unfolding identifier_of key_text strip_prefix
identifier_of-key_text identifier secret h k = segments-append identifier secret h k

check_parts-some :
    (a b identifier : Str)
    → check_parts a b ≡ some identifier
    → (secret : Str) × (a ++ b ≡ identifier ++ (b'_' ∷ secret))
      × (is_base64_segment identifier identifier_len ≡ true)
      × (is_base64_segment secret secret_len ≡ true)
unfolding check_parts
check_parts-some a b identifier e = elim (Option-cases (strip_prefix (b'_' ∷ []) b)) [
  | inl missing ↦ absurd (ground arith)
  | inr (secret, found) ↦
      let d = strip_prefix-some (b'_' ∷ []) b found in
      let t : a ≡ identifier = ground arith in (secret, rw (t, d) refl, ground arith, ground arith)
]

segments-some :
    (rest identifier : Str)
    → segments rest ≡ returned (some identifier) tt
    → check_parts (take identifier_len rest) (drop identifier_len rest) ≡ some identifier
unfolding segments split_at
segments-some rest identifier e = elim (Bool-cases (starts_char (drop identifier_len rest))) [
  | inl whole ↦ ground arith
  | inr inside ↦ absurd (ground arith)
]

-- And only a key of that shape has an identifier: what is found is its segment.
pub identifier_of-some :
    (key identifier : Str)
    → identifier_of key ≡ returned (some identifier) tt
    → (secret : Str) × (key ≡ key_text identifier secret)
      × (is_base64_segment identifier identifier_len ≡ true)
      × (is_base64_segment secret secret_len ≡ true)
unfolding identifier_of key_text
identifier_of-some key identifier e = elim (Option-cases (strip_prefix key_prefix key)) [
  | inl missing ↦ absurd (ground arith)
  | inr (r, p) ↦ elim (Option-cases (strip_prefix (b'_' ∷ []) r)) [
    | inl missing ↦ absurd (ground arith)
    | inr (rest, q) ↦
        let f = segments-some rest identifier (ground arith) in
        let (secret, t, h, k) =
          check_parts-some (take identifier_len rest) (drop identifier_len rest) identifier f in
        (
          secret,
          strip_prefix-some key_prefix key p
              ∙ ap (λ x. key_prefix ++ x)
                  (strip_prefix-some (b'_' ∷ []) r q
                    ∙ ap (λ x. b'_' ∷ x) (take-drop identifier_len rest ∙ t)),
          h,
          k,
        )
  ]
]

-- Text after `eb_` makes the function panic exactly if it has the length of a key and the eighth byte
-- after the prefix is followed by a UTF-8 continuation byte.
pub identifier_of-panics_iff :
    (rest : Str)
    → (identifier_of (key_prefix ++ (b'_' ∷ rest)) ≡ panicked tt) ↔ (
        (length rest ≡ identifier_len + 1 + secret_len)
        × (starts_char (drop identifier_len rest) ≡ false))
unfolding identifier_of segments split_at strip_prefix
identifier_of-panics_iff rest = elim (Bool-cases (starts_char (drop identifier_len rest))) [
  | inl whole ↦ ground arith
  | inr inside ↦ ground arith
]
