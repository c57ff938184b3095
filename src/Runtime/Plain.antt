-- ===== src/Runtime/Plain.antt =====
-- The URLs of a backend that are accepted (src/runtime.rs), without the words of the validator.
use mistralrs_proxy.Prelude.{
  ℕ, ◌==◌, ◌&&◌, ◌++◌, ◌⊎◌, Option, codes, str_eq_iff, ◌≡◌, refl, ap, subst, ◌∙◌, ◌≢◌, inl, inr,
  true, false, none, some, [], ◌∷◌, arith, All, Bool-cases, Option-cases, Str,
}
use mistralrs_proxy.Backend.Slot.{ok, Result-cases}
use mistralrs_proxy.Runtime.{UriOps}
use mistralrs_proxy.Runtime.Config.{
  contains_byte, UrlField, trim_slashes, is_empty, drop_slashes, append_path, url_or_default,
  validate_uri, parse_backend_url,
}

is_empty-nil : (t : Str) → is_empty t ≡ true → t ≡ []
is_empty-nil [] h = refl
is_empty-nil (c ∷ t) h = absurd (ground arith)

trim_slashes-append :
    (t : Str) → (slashes : Str) × All (λ c. c ≡ b'/') slashes × (t ≡ trim_slashes t ++ slashes)
trim_slashes-append [] = ([], tt, refl)
trim_slashes-append (c ∷ t) =
    let (slashes, only, split) = trim_slashes-append t in
    elim (Bool-cases (c == b'/' && is_empty (trim_slashes t))) [
      | inl end ↦ (
        c ∷ slashes,
        (ground arith, only),
        rw end (
            ap (λ x. c ∷ x)
              (split ∙ ap (λ x. x ++ slashes) (is_empty-nil (trim_slashes t) (ground arith)))),
      )
      | inr inner ↦ (slashes, only, rw inner (ap (λ x. c ∷ x) split))
    ]

contains_byte-All : (c : ℕ) (text : Str) → contains_byte c text ≡ false → All (λ b. b ≢ c) text
contains_byte-All c [] h = tt
contains_byte-All c (b ∷ text) h = ((λ e. ground arith), contains_byte-All c text (ground arith))

module _ {U : Type 0} (uris : UriOps U) where
  -- An HTTP URL with a host, and without user information or a query.
  pub record IsPlain (uri : U) : Type 0 where
    pub host : Str
    pub over_http : uris.scheme uri ≡ some (codes "http")
    pub has_host : uris.authority uri ≡ some host
    pub no_user : All (λ c. c ≢ b'@') host
    pub no_query : uris.query uri ≡ none

  -- The URL that is built at the host of `base`, for its path less some slashes at the end, and `suffix`.
  pub record IsBelow (base : U) (suffix : Str) (uri : U) : Type 0 where
    pub host : Str
    pub path : Str
    pub slashes : Str
    pub only_slashes : All (λ c. c ≡ b'/') slashes
    pub below : uris.path base ≡ path ++ slashes
    pub has_host : uris.authority base ≡ some host
    pub built : uris.build (codes "http") host (path ++ suffix) ≡ some uri

  validate_uri-IsPlain : (uri : U) → validate_uri uris uri ≡ none → IsPlain uri
  unfolding validate_uri
  validate_uri-IsPlain uri e = elim (Option-cases (uris.scheme uri)) [
    | inl no_scheme ↦ absurd (ground arith)
    | inr (scheme, over) ↦ elim (Option-cases (uris.authority uri)) [
      | inl no_host ↦ absurd (ground arith)
      | inr (authority, at) ↦ elim (Option-cases (uris.query uri)) [
        | inr (q, asked) ↦ absurd (ground arith)
        | inl plain ↦ record {
          host = authority;
          over_http = over ∙ ap (λ t. some t) ((str_eq_iff scheme (codes "http")).0 (ground arith));
          has_host = at;
          no_user = contains_byte-All b'@' authority (ground arith);
          no_query = plain;
        }
      ]
    ]
  ]

  pub parse_backend_url-IsPlain :
      (id : Str) (field : UrlField) (text : Str) (uri : U)
      → parse_backend_url uris id field text ≡ ok uri
      → IsPlain uri
  unfolding parse_backend_url
  parse_backend_url-IsPlain id field text uri e = elim (Option-cases (uris.parse text)) [
    | inl bad ↦ absurd (ground arith)
    | inr (u, parsed) ↦ elim (Option-cases (validate_uri uris u)) [
      | inl valid ↦
          let same : u ≡ uri = ground arith in subst IsPlain same (validate_uri-IsPlain u valid)
      | inr (reason, bad) ↦ absurd (ground arith)
    ]
  ]

  append_path-built :
      (base uri : U) (rest : Str) (plain : IsPlain base)
      → drop_slashes (b'/' ∷ rest) ≡ rest
      → append_path uris base (b'/' ∷ rest) ≡ ok uri
      → uris.build (codes "http") plain.host (trim_slashes (uris.path base) ++ (b'/' ∷ rest))
        ≡ some uri
  unfolding append_path
  append_path-built base uri rest plain slash e =
      let path = trim_slashes (uris.path base) ++ (b'/' ∷ rest) in
      elim (Option-cases (uris.build (codes "http") plain.host path)) [
        | inl failed ↦ absurd (
            ground (
              arith,
              plain.over_http,
              plain.has_host,
              ap
                  (λ t.
                    uris.build (codes "http") plain.host
                      (trim_slashes (uris.path base) ++ (b'/' ∷ t)))
                  slash,
            ))
        | inr (u, built) ↦ ground (
          arith,
          plain.over_http,
          plain.has_host,
          ap
              (λ t.
                uris.build (codes "http") plain.host (trim_slashes (uris.path base) ++ (b'/' ∷ t)))
              slash,
        )
      ]

  append_path-IsBelow :
      (base uri : U) (rest : Str)
      → IsPlain base
      → drop_slashes (b'/' ∷ rest) ≡ rest
      → append_path uris base (b'/' ∷ rest) ≡ ok uri
      → IsBelow base (b'/' ∷ rest) uri
  unfolding append_path
  append_path-IsBelow base uri rest plain slash e =
      let (slashes, only, split) = trim_slashes-append (uris.path base) in
      record {
        host = plain.host;
        path = trim_slashes (uris.path base);
        slashes = slashes;
        only_slashes = only;
        below = split;
        has_host = plain.has_host;
        built = append_path-built base uri rest plain slash e;
      }

  pub url_or_default-IsPlain :
      (id : Str) (field : UrlField) (base uri : U) (given : Option Str) (rest : Str)
      → IsPlain base
      → drop_slashes (b'/' ∷ rest) ≡ rest
      → url_or_default uris id field base given (b'/' ∷ rest) ≡ ok uri
      → IsPlain uri ⊎ IsBelow base (b'/' ∷ rest) uri
  unfolding url_or_default
  url_or_default-IsPlain id field base uri (some text) rest plain slash e =
      inl (parse_backend_url-IsPlain id field text uri e)
  url_or_default-IsPlain id field base uri none rest plain slash e =
      elim (Result-cases (append_path uris base (b'/' ∷ rest))) [
        | inr (reason, bad) ↦ absurd (ground arith)
        | inl (u, built) ↦
            let same : u ≡ uri = ground arith in
            inr (
              subst (IsBelow base (b'/' ∷ rest)) same
                (append_path-IsBelow base u rest plain slash built))
      ]
