-- ===== src/Keys/Authenticate.antt =====
-- The authentication of a request (`authenticate` of src/auth.rs) from the values of its Authorization
-- headers. `to_str` is `HeaderValue::to_str` of the http package, and SHA-256 is a parameter.
use mistralrs_proxy.Prelude.{
  ℕ, ◌≡◌, refl, ◌==◌, not, ◌||◌, Bool, true, false, Option, none, some, List, [], ◌∷◌, ◌++◌,
  if◌then◌else◌, arith, Option-cases, ◌⊎◌, inl, inr, Str,
}
use mistralrs_proxy.Prelude.Monad.{returned, panicked, bind_outcome}
use mistralrs_proxy.Backend.Slot.{Result, ok, err}
use mistralrs_proxy.Keys.{Called}
use mistralrs_proxy.Keys.File.{KeyIdentity, KeyIndex, eq_ignore_ascii_case}
use mistralrs_proxy.Keys.File.Lookup.{lookup_key}

pub data AuthError : Type 0 where
  missing malformed invalid key_disabled : AuthError

pub record Authentication : Type 0 where
  pub key_sha256 : Option Str
  pub identity : Option KeyIdentity
  pub result : Result (Unit {0}) AuthError

abbrev pub rejected : AuthError → Authentication
rejected error = record { key_sha256 = none; identity = none; result = err error }

-- `u8::is_ascii_whitespace`.
abbrev pub is_space : ℕ → Bool
is_space b = b == 32 || b == 9 || b == 10 || b == 12 || b == 13

abbrev put_field : Str → List Str → List Str
put_field [] rest = rest
put_field (b ∷ bs) rest = (b ∷ bs) ∷ rest

-- `str::split_ascii_whitespace`, with the field that is being read.
unfoldable pub fields_from : Str → Str → List Str
fields_from field [] = put_field field []
fields_from field (b ∷ bs) =
    let ended = fields_from [] bs in
    let longer = fields_from (field ++ (b ∷ [])) bs in
    if is_space b then put_field field ended else longer

-- "bearer".
abbrev pub bearer : Str
bearer = b'b' ∷ b'e' ∷ b'a' ∷ b'r' ∷ b'e' ∷ b'r' ∷ []

abbrev is_empty : Str → Bool
is_empty [] = true
is_empty (b ∷ bs) = false

abbrev judge : Option KeyIdentity → Result (Unit {0}) AuthError
judge none = err invalid
judge (some i) = if i.disabled then err key_disabled else ok tt

found-cases :
    (o : Called (Str × Option KeyIdentity))
    → ((d : Str) × (i : KeyIdentity) × (o ≡ returned (d, some i) tt))
      ⊎ (((d : Str) × (o ≡ returned (d, none) tt)) ⊎ (o ≡ panicked tt))
found-cases (returned (d, some i) tt) = inl (d, i, refl)
found-cases (returned (d, none) tt) = inr (inl (d, refl))
found-cases (panicked tt) = inr (inr refl)

module _ (to_str : List ℕ → Option Str) (sha256 : Str → List ℕ) where
  unfoldable pub check_fields : List Str → KeyIndex → Called Authentication
  unfolding lookup_key
  check_fields (scheme ∷ key ∷ []) store =
      if not (eq_ignore_ascii_case scheme bearer) || is_empty key
      then returned (rejected malformed) tt
      else bind_outcome (lookup_key sha256 key store) (λ found.
        returned (record { key_sha256 = some found.0; identity = found.1; result = judge found.1 }))
  check_fields _ store = returned (rejected malformed) tt

  unfoldable pub authenticate : List (List ℕ) → KeyIndex → Called Authentication
  unfolding check_fields fields_from
  authenticate [] store = returned (rejected missing) tt
  authenticate (value ∷ []) store = elim (to_str value) [
    | none ↦ returned (rejected malformed) tt
    | some text ↦ check_fields (fields_from [] text) store
  ]
  authenticate (value ∷ second ∷ more) store = returned (rejected malformed) tt

  check_fields-ok :
      (fields : List Str) (store : KeyIndex) (a : Authentication)
      → check_fields fields store ≡ returned a tt
      → a.result ≡ ok tt
      → (scheme key digest : Str) × (i : KeyIdentity) × (fields ≡ scheme ∷ key ∷ [])
        × (eq_ignore_ascii_case scheme bearer ≡ true)
        × (lookup_key sha256 key store ≡ returned (digest, some i) tt)
        × (i.disabled ≡ false)
  unfolding check_fields
  check_fields-ok [] store a e r = absurd (ground arith)
  check_fields-ok (scheme ∷ []) store a e r = absurd (ground arith)
  check_fields-ok (scheme ∷ key ∷ x ∷ more) store a e r = absurd (ground arith)
  check_fields-ok (scheme ∷ key ∷ []) store a e r =
      elim (found-cases (lookup_key sha256 key store)) [
        | inl (d, i, f) ↦ (scheme, key, d, i, refl, ground arith, f, ground arith)
        | inr (inl (d, f)) ↦ absurd (ground arith)
        | inr (inr f) ↦ absurd (ground arith)
      ]

  -- A request is let in only if it has one Authorization header, of two fields, the scheme `bearer` in
  -- any case and a key that the lookup finds, and the key is not disabled.
  pub authenticate-ok :
      (values : List (List ℕ)) (store : KeyIndex) (a : Authentication)
      → authenticate values store ≡ returned a tt
      → a.result ≡ ok tt
      → (value : List ℕ) × (text scheme key digest : Str) × (i : KeyIdentity) × (values
          ≡ value ∷ [])
        × (to_str value ≡ some text)
        × (fields_from [] text ≡ scheme ∷ key ∷ [])
        × (eq_ignore_ascii_case scheme bearer ≡ true)
        × (lookup_key sha256 key store ≡ returned (digest, some i) tt)
        × (i.disabled ≡ false)
  unfolding authenticate
  authenticate-ok [] store a e r = absurd (ground arith)
  authenticate-ok (value ∷ second ∷ more) store a e r = absurd (ground arith)
  authenticate-ok (value ∷ []) store a e r = elim (Option-cases (to_str value)) [
    | inl bad ↦ absurd (ground arith)
    | inr (text, read) ↦
        let (scheme, key, d, i, f, b, l, n) =
          check_fields-ok (fields_from [] text) store a (ground arith) r in
        (value, text, scheme, key, d, i, refl, read, f, b, l, n)
  ]
