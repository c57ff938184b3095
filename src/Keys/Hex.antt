-- ===== src/Keys/Hex.antt =====
-- Digests as hexadecimal text, both ways (src/keys.rs).
use mistralrs_proxy.Prelude.{
  ℕ, zero, suc, ◌+◌, ◌*◌, ◌/◌, ◌%◌, ◌<◌, ◌≡◌, refl, Option, none, some, List, [], ◌∷◌, arith, ltb,
  if◌then◌else◌, length, All, Str, map, ap, sym, ◌∙◌, ◌↔◌,
}
use mistralrs_proxy.Keys.{
  between, hex_value, join_nibbles, decode_pairs, decode_digest, digits, at_or_zero, hex_encode,
}

-- The digit of a nibble, without the table.
digit_lem : (n : ℕ) → n < 16 → at_or_zero digits n ≡ (if ltb n 10 then n + 48 else n + 87)
digit_lem zero h = refl
digit_lem (suc zero) h = refl
digit_lem (suc (suc zero)) h = refl
digit_lem (suc (suc (suc zero))) h = refl
digit_lem (suc (suc (suc (suc zero)))) h = refl
digit_lem (suc (suc (suc (suc (suc zero))))) h = refl
digit_lem (suc (suc (suc (suc (suc (suc zero)))))) h = refl
digit_lem (suc (suc (suc (suc (suc (suc (suc zero))))))) h = refl
digit_lem (suc (suc (suc (suc (suc (suc (suc (suc zero)))))))) h = refl
digit_lem (suc (suc (suc (suc (suc (suc (suc (suc (suc zero))))))))) h = refl
digit_lem (suc (suc (suc (suc (suc (suc (suc (suc (suc (suc zero)))))))))) h = refl
digit_lem (suc (suc (suc (suc (suc (suc (suc (suc (suc (suc (suc zero))))))))))) h = refl
digit_lem (suc (suc (suc (suc (suc (suc (suc (suc (suc (suc (suc (suc zero)))))))))))) h = refl
digit_lem (suc (suc (suc (suc (suc (suc (suc (suc (suc (suc (suc (suc (suc zero))))))))))))) h =
    refl
digit_lem (suc (suc (suc (suc (suc (suc (suc (suc (suc (suc (suc (suc (suc (suc zero))))))))))))))
      h =
    refl
digit_lem
      (suc (suc (suc (suc (suc (suc (suc (suc (suc (suc (suc (suc (suc (suc (suc zero)))))))))))))))
      h =
    refl
digit_lem
      (suc
        (suc (suc (suc (suc (suc (suc (suc (suc (suc (suc (suc (suc (suc (suc (suc n))))))))))))))))
      h =
    absurd (omega arith)

hex_value-digit : (n : ℕ) → n < 16 → hex_value (at_or_zero digits n) ≡ some n
unfolding hex_value
hex_value-digit n h = rw (digit_lem n h) (ground arith)

-- `u8::to_ascii_lowercase`.
abbrev pub to_ascii_lowercase : ℕ → ℕ
to_ascii_lowercase b = if between b'A' b'Z' b then b + 32 else b

digit-hex_value :
    (b v : ℕ) → hex_value b ≡ some v → (v < 16) × (at_or_zero digits v ≡ to_ascii_lowercase b)
unfolding hex_value
digit-hex_value b v e = let h : v < 16 = ground arith in (h, rw (digit_lem v h) (ground arith))

abbrev pub IsByte : ℕ → Type 0
IsByte b = b < 256

decode_pairs-hex_encode : (bs : List ℕ) → All IsByte bs → decode_pairs (hex_encode bs) ≡ some bs
unfolding decode_pairs hex_encode
decode_pairs-hex_encode [] h = refl
decode_pairs-hex_encode (b ∷ bs) h =
    rw
      (
        hex_value-digit (b / 16) (omega arith),
        hex_value-digit (b % 16) (omega arith),
        decode_pairs-hex_encode bs h.1,
      )
      (ap (λ x. some (x ∷ bs)) (omega arith))

length-hex_encode : (bs : List ℕ) → length (hex_encode bs) ≡ 2 * length bs
unfolding hex_encode
length-hex_encode [] = refl
length-hex_encode (b ∷ bs) = omega (arith, length-hex_encode bs)

-- A digest of 32 bytes is read back from the text that is stored for it.
pub decode_digest-hex_encode :
    (bs : List ℕ) → length bs ≡ 32 → All IsByte bs → decode_digest (hex_encode bs) ≡ some bs
unfolding decode_digest
decode_digest-hex_encode bs n h = ground (arith, length-hex_encode bs, decode_pairs-hex_encode bs h)

join_nibbles-some :
    (x y : Option ℕ) (z : Option (List ℕ)) {d : List ℕ}
    → join_nibbles x y z ≡ some d
    → (hi : ℕ) × (lo : ℕ) × (rest : List ℕ) × (x ≡ some hi)
      × (y ≡ some lo)
      × (z ≡ some rest)
      × (d ≡ (hi * 16 + lo) ∷ rest)
join_nibbles-some (some hi) (some lo) (some rest) e = (hi, lo, rest, refl, refl, refl, ground arith)
join_nibbles-some (some hi) (some lo) none e = cc
join_nibbles-some (some hi) none z e = cc
join_nibbles-some none y z e = cc

-- What text decodes to, told by the even number of its bytes.
decode_pairs-some :
    (k : ℕ) (hex : Str) (d : List ℕ)
    → length hex ≡ k + k
    → decode_pairs hex ≡ some d
    → (length d ≡ k) × All IsByte d × (hex_encode d ≡ map to_ascii_lowercase hex)
unfolding decode_pairs hex_encode
decode_pairs-some k [] d n e = let p : [] ≡ d = ground arith in rw (← p) (omega arith, tt, refl)
decode_pairs-some k (a ∷ []) d n e = absurd (omega arith)
decode_pairs-some zero (a ∷ b ∷ rest) d n e = absurd (omega arith)
decode_pairs-some (suc k) (a ∷ b ∷ rest) d n e =
    let (hi, lo, r, x, y, z, p) =
      join_nibbles-some (hex_value a) (hex_value b) (decode_pairs rest) e in
    let (l, bytes, text) = decode_pairs-some k rest r (omega arith) z in
    let (hi_lt, hi_digit) = digit-hex_value a hi x in
    let (lo_lt, lo_digit) = digit-hex_value b lo y in
    let q : (hi * 16 + lo) / 16 ≡ hi = omega arith in
    let m : (hi * 16 + lo) % 16 ≡ lo = omega arith in
    rw p (omega arith, (omega arith, bytes), rw (q, m, hi_digit, lo_digit, text) refl)

-- Text that is accepted as a digest has 64 characters and stands for 32 bytes, and it is their
-- stored text up to the case of its letters.
pub decode_digest-some :
    (hex : Str) (d : List ℕ)
    → decode_digest hex ≡ some d
    → (length hex ≡ 64)
      × (length d ≡ 32)
      × All IsByte d
      × (hex_encode d ≡ map to_ascii_lowercase hex)
unfolding decode_digest
decode_digest-some hex d e =
    let n : length hex ≡ 64 = ground arith in
    let (l, b, t) = decode_pairs-some 32 hex d n (ground arith) in (n, l, b, t)

-- So two accepted texts stand for the same digest exactly if they agree up to the case of letters,
-- which is how the validation of a key file compares them.
pub decode_digest-eq_iff :
    (a b : Str) (c d : List ℕ)
    → decode_digest a ≡ some c
    → decode_digest b ≡ some d
    → (c ≡ d) ↔ (map to_ascii_lowercase a ≡ map to_ascii_lowercase b)
decode_digest-eq_iff a b c d p q =
    let (_, lc, hc, tc) = decode_digest-some a c p in
    let (_, ld, hd, td) = decode_digest-some b d q in
    (
      (λ e. sym tc ∙ ap hex_encode e ∙ td),
      (λ e.
          let r : some c ≡ some d =
            sym (decode_digest-hex_encode c lc hc)
            ∙ ap decode_digest (tc ∙ e ∙ sym td)
            ∙ decode_digest-hex_encode d ld hd in
          ground arith),
    )
